-- ===== src/Virtqueue/Payload/Valid.antt =====
-- What the tests of `payload_range` and `validate_chain` of protocol/src/virtqueue.c say of a segment.
use kobox.Prelude.{
  ℕ, zero, suc, ◌+◌, ◌≤◌, ◌<◌, ◌≡◌, ◌≢◌, ◌⊎◌, inl, inr, refl, subst, ◌^◌, Bool, true, false, List,
  [], ◌∷◌, some, some-injective, get_elem?, bit_and, arith, Bool-cases, false≢true, dec_lt,
}
use kobox.Virtqueue.{Queue, Region, Segment, Chain, Vq}
use kobox.Virtqueue.Ranges.{
  has_item, range_valid, overlaps, ring_base, ring_size, within_region, touches_rings,
  payload_range,
}
use kobox.Virtqueue.Chains.{
  Placed, Sums, segment_valid, check_segments, validate_chain, shape_valid,
}
use kobox.Virtqueue.Ownership.Validated.{accepted_first, summed-some}
use kobox.Virtqueue.Payload.{Within, AllWithin, right_of}

pub has_item-some :
    {A : Type 0} (f : A → Bool) (xs : List A)
    → has_item f xs ≡ true
    → (i : ℕ) × (x : A) × (get_elem? xs i ≡ some x) × (f x ≡ true)
has_item-some f [] e = absurd (false≢true e)
has_item-some f (x ∷ xs) e = elim (Bool-cases (f x)) [
  | inl h ↦ (0, x, refl, h)
  | inr h ↦ let (i, y, m, g) = has_item-some f xs (ground (arith, h, e)) in (suc i, y, m, g)
]

pub has_item-none :
    {A : Type 0} (f : A → Bool) (xs : List A) (i : ℕ) (x : A)
    → has_item f xs ≡ false
    → get_elem? xs i ≡ some x
    → f x ≡ false
has_item-none f [] i x e m = ground arith
has_item-none f (y ∷ xs) zero x e m =
    subst (λ z. f z ≡ false) (some-injective y x m) (ground (arith, e))
has_item-none f (y ∷ xs) (suc i) x e m = has_item-none f xs i x (ground (arith, e)) m

overlaps-apart :
    (a n b m : ℕ)
    → overlaps a n b m ≡ false
    → n ≢ 0
    → m ≢ 0
    → a + n < 2 ^ 64
    → b + m < 2 ^ 64
    → (a + n ≤ b) ⊎ (b + m ≤ a)
unfolding overlaps
overlaps-apart a n b m e z y l k = elim (dec_lt b (a + n)) [
  | yes h ↦ inr (ground (arith, e, z, y, l, k, h))
  | no h ↦ inl (omega (arith, h))
]

ring_apart :
    (a n : ℕ) (q : Queue) (ring : ℕ)
    → touches_rings a n q ≡ false
    → ring < 3
    → overlaps a n (ring_base q ring) (ring_size q ring) ≡ false
unfolding touches_rings
ring_apart a n q zero e l = ground (arith, e)
ring_apart a n q (suc zero) e l = ground (arith, e)
ring_apart a n q (suc (suc zero)) e l = ground (arith, e)
ring_apart a n q (suc (suc (suc ring))) e l = absurd (omega arith)

within-region :
    (a n rights : ℕ) (r : Region)
    → within_region a n rights r ≡ true
    → a + n < 2 ^ 64
    → (r.transport_base ≤ a)
      × (a + n ≤ r.transport_base + r.region_length)
      × (bit_and r.rights rights ≡ rights)
unfolding within_region
within-region a n rights r e l = (ground (arith, e), ground (arith, e, l), ground (arith, e))

-- The three tests of a range that is not empty.
payload_tests :
    (q : Vq) (a n rights : ℕ)
    → payload_range q a n rights ≡ true
    → n ≢ 0
    → n < 2 ^ 32
    → (a + n < 2 ^ 64)
      × (has_item (within_region a n rights) q.channel.regions ≡ true)
      × (has_item (touches_rings a n) q.channel.queues ≡ false)
unfolding payload_range range_valid
payload_tests q a n rights e z w =
    (ground (arith, e, z, w), ground (arith, e, z), ground (arith, e, z))

pub payload_range-Within :
    (q : Vq) (s : Segment)
    → payload_range q s.address s.size (right_of s) ≡ true
    → Within q.channel s
payload_range-Within q s e z w =
    let (l, region, apart) = payload_tests q s.address s.size (right_of s) e z w in
    let (i, r, m, inside) = has_item-some _ q.channel.regions region in
    let (low, high, rights) = within-region s.address s.size (right_of s) r inside l in
    (
      (i, r, m, low, high, rights),
      λ j n ring m k y fit.
          overlaps-apart s.address s.size (ring_base n ring) (ring_size n ring)
            (ring_apart s.address s.size n ring (has_item-none _ q.channel.queues j n apart m) k) z
            y l fit,
    )

segment_valid-Within :
    (q : Vq) (c : Chain) (x : Placed) (seen : Bool)
    → segment_valid q c x seen ≡ true
    → Within q.channel x.segment
unfolding segment_valid
segment_valid-Within q c x seen e = payload_range-Within q x.segment (ground (arith, e))

check_segments-Within :
    (q : Vq) (c : Chain) (i : ℕ) (before : List Placed) (seen : Bool) (n m : Sums)
    (ss : List Segment)
    → check_segments q c i before seen n ss ≡ some m
    → AllWithin q.channel ss
check_segments-Within q c i before seen n m [] e j s k = ground arith
check_segments-Within q c i before seen n m (t ∷ ss) e zero s k =
    subst (Within q.channel) (some-injective t s k)
      (segment_valid-Within q c _ seen (accepted_first q c i before seen n m t ss e).0)
check_segments-Within q c i before seen n m (t ∷ ss) e (suc j) s k =
    check_segments-Within q c (suc i) _ _ _ m ss (accepted_first q c i before seen n m t ss e).1 j s
      k

pub validate_chain-Within :
    (q : Vq) (c c' : Chain) → validate_chain q c ≡ some c' → AllWithin q.channel c'.segments
unfolding validate_chain
validate_chain-Within q c c' e = elim (Bool-cases (shape_valid q c)) [
  | inl shape ↦
      let (n, sums, same) =
        summed-some q c c'
          (check_segments q c 0 [] false (record { readable = 0; writable = 0 }) c.segments)
          (ground (arith, shape, e)) in
      subst (λ x. AllWithin q.channel x.segments) same
        (check_segments-Within q c 0 [] false _ n c.segments sums)
  | inr shape ↦ absurd (ground (arith, shape, e))
]

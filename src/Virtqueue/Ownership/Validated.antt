-- ===== src/Virtqueue/Ownership/Validated.antt =====
-- What `validate_chain` of protocol/src/virtqueue.c guarantees to `claim`.
use kobox.Prelude.{
  ℕ, zero, suc, ◌-◌, ◌<◌, ◌≡◌, inl, inr, refl, subst, sym, ◌∙◌, some-injective, Bool, true, false,
  List, [], ◌∷◌, Option, none, some, ◌&&◌, ◌||◌, not, leb, ◌==◌, if◌then◌else◌, get_or, arith,
  Bool-cases, false≢true,
}
use kobox.Virtqueue.{Segment, Chain, Vq}
use kobox.Virtqueue.Chains.{
  is_none, direct_count, table_valid, Placed, segment_valid, Sums, add_segment, check_segments,
  shape_valid, sums_valid, slot_overlaps, summed, validate_chain,
}
use kobox.Virtqueue.Ownership.{first_holds, holds, slot}

-- A descriptor of the queue's table that no chain has.
abbrev pub Unowned : Vq → ℕ → Type 0
Unowned q d = (d < q.queue.queue_size) × (get_or q.descriptor_owner d 0 ≡ 0)

segment_valid-Unowned :
    (q : Vq) (c : Chain) (s : Segment) (seen : Bool)
    → segment_valid q c (record { in_table = false; segment = s }) seen ≡ true
    → Unowned q s.descriptor
unfolding segment_valid
segment_valid-Unowned q c s seen e = (ground arith, ground arith)

pub accepted_first :
    (q : Vq) (c : Chain) (i : ℕ) (before : List Placed) (seen : Bool) (n m : Sums) (s : Segment)
    (ss : List Segment)
    → check_segments q c i before seen n (s ∷ ss) ≡ some m
    → (segment_valid q c (record { in_table = leb (direct_count c) i; segment = s }) seen ≡ true)
      × (check_segments q c
            (suc i)
            (record { in_table = leb (direct_count c) i; segment = s } ∷ before)
            (seen || not (s.writable == 0))
            (add_segment n s)
            ss
          ≡ some m)
unfolding check_segments
accepted_first q c i before seen n m s ss e = (ground arith, ground arith)

check_segments-Unowned :
    (q : Vq) (c : Chain) (i : ℕ) (before : List Placed) (seen : Bool) (n m : Sums)
    (ss : List Segment) (d k : ℕ)
    → check_segments q c i before seen n ss ≡ some m
    → k ≡ direct_count c - i
    → first_holds d k ss ≡ true
    → Unowned q d
check_segments-Unowned q c i before seen n m [] d k e l h = absurd (false≢true h)
check_segments-Unowned q c i before seen n m (s ∷ ss) d zero e l h = absurd (false≢true h)
check_segments-Unowned q c i before seen n m (s ∷ ss) d (suc k) e l h =
    let (valid, rest) = accepted_first q c i before seen n m s ss e in
    elim (Bool-cases (s.descriptor == d)) [
      | inl same ↦
          subst (Unowned q) (ground (arith, same))
            (segment_valid-Unowned q c s seen (ground (arith, valid, l)))
      | inr other ↦
          check_segments-Unowned q c (suc i) _ _ _ m ss d k rest (omega (arith, l)) (ground arith)
    ]

is_none-none : {A : Type 0} (o : Option A) → is_none o ≡ true → o ≡ none
is_none-none none e = refl
is_none-none (some a) e = absurd (false≢true e)

-- The chain with the sums in it.
abbrev pub with_sums : Chain → Sums → Chain
with_sums c n = record c {
  readable = n.readable;
  writable = n.writable;
  written = 0;
  used_length = 0;
}

pub held_sums : (c : Chain) (n : Sums) (d : ℕ) → holds (with_sums c n) d ≡ holds c d
unfolding holds direct_count
held_sums c n d = refl

pub record Accepted (q : Vq) (c : Chain) : Type 0 where
  pub head_bound : c.head < q.queue.queue_size
  pub slot_free : slot q.slots c.head ≡ none
  pub table : (c.indirect_length == 0) ≡ false → Unowned q c.indirect_descriptor

table_valid-Unowned :
    (q : Vq) (c : Chain)
    → (c.indirect_length == 0) ≡ false
    → table_valid q c ≡ true
    → Unowned q c.indirect_descriptor
unfolding table_valid
table_valid-Unowned q c t e = (ground (arith, t, e), ground (arith, t, e))

shape_valid-Accepted : (q : Vq) (c : Chain) → shape_valid q c ≡ true → Accepted q c
unfolding shape_valid
shape_valid-Accepted q c e = record {
  head_bound = ground arith;
  slot_free = is_none-none (slot q.slots c.head) (ground arith);
  table = λ t. table_valid-Unowned q c t (ground arith);
}

pub summed-some :
    (q : Vq) (c c' : Chain) (o : Option Sums)
    → summed q c o ≡ some c'
    → (n : Sums) × (o ≡ some n) × (with_sums c n ≡ c')
unfolding summed
summed-some q c c' none e = ground arith
summed-some q c c' (some n) e = (
  n,
  refl,
  elim (Bool-cases (sums_valid q.queue n && not (slot_overlaps q c q.slots))) [
    | inl t ↦ some-injective (with_sums c n) c' (sym (choose t) ∙ e)
    | inr t ↦ ground (arith, t, e)
  ],
)
  where
    choose :
        (sums_valid q.queue n && not (slot_overlaps q c q.slots)) ≡ true
        → (if sums_valid q.queue n && not (slot_overlaps q c q.slots)
            then some (with_sums c n)
            else none)
          ≡ some (with_sums c n)
    choose t = rw t refl

pub validate_chain-some :
    (q : Vq) (c c' : Chain)
    → validate_chain q c ≡ some c'
    → (n : Sums) × Accepted q c × (with_sums c n ≡ c') × ((d : ℕ) → holds c d ≡ true → Unowned q d)
unfolding validate_chain holds
validate_chain-some q c c' e = elim (Bool-cases (shape_valid q c)) [
  | inl shape ↦
      let (n, sums, same) =
        summed-some q c c'
          (check_segments q c 0 [] false (record { readable = 0; writable = 0 }) c.segments)
          (ground (arith, shape, e)) in
      let a = shape_valid-Accepted q c shape in
      (
        n,
        a,
        same,
        λ d h. elim (Bool-cases (first_holds d (direct_count c) c.segments)) [
          | inl g ↦
              check_segments-Unowned q c 0 [] false _ n c.segments d (direct_count c) sums
                (omega arith) g
          | inr g ↦ subst (Unowned q) (ground (arith, g, h)) (a.table (ground (arith, g, h)))
        ],
      )
  | inr shape ↦ ground (arith, shape, e)
]

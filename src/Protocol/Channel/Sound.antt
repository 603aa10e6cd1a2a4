-- ===== src/Protocol/Channel/Sound.antt =====
-- What the validation of a channel in protocol/src/protocol.c guarantees.
use kobox.Prelude.{
  ℕ, zero, suc, ◌+◌, ◌≤◌, ◌<◌, ◌≡◌, ◌≢◌, ◌⊎◌, inl, inr, sym, subst, ◌^◌, Bool, true, false, List,
  [], ◌∷◌, some, some-injective, get_elem?, arith, dec_lt,
}
use kobox.Protocol.Channel.{
  u64_range_valid, ranges_overlap, region_clashes, region_valid, validate_regions,
}
use kobox.Virtqueue.{Region}
use kobox.Virtqueue.Ranges.{has_item}
use kobox.Virtqueue.Payload.Valid.{has_item-none}

-- A loop that tests each item against those before it.
module _ {A : Type 0} (V : List A → List A → Type 0) (clash : A → A → Bool)
    (turn : (before : List A) (x : A) (xs : List A)
      → V before (x ∷ xs)
      → (has_item (clash x) before ≡ false) × V (x ∷ before) xs) where
  clear_before :
      (before xs : List A) (i k : ℕ) (x z : A)
      → V before xs
      → get_elem? xs i ≡ some x
      → get_elem? before k ≡ some z
      → clash x z ≡ false
  clear_before before [] i k x z v e g = ground arith
  clear_before before (y ∷ xs) zero k x z v e g =
      subst (λ w. clash w z ≡ false) (some-injective y x e)
        (has_item-none (clash y) before k z (turn before y xs v).0 g)
  clear_before before (y ∷ xs) (suc i) k x z v e g =
      clear_before (y ∷ before) xs i (suc k) x z (turn before y xs v).1 e g

  pub clear_pairs :
      (before xs : List A) (i j : ℕ) (x y : A)
      → V before xs
      → j < i
      → get_elem? xs i ≡ some x
      → get_elem? xs j ≡ some y
      → clash x y ≡ false
  clear_pairs before [] i j x y v l e g = ground arith
  clear_pairs before (z ∷ xs) zero j x y v l e g = absurd (omega (arith, l))
  clear_pairs before (z ∷ xs) (suc i) zero x y v l e g =
      clear_before (z ∷ before) xs i 0 x y (turn before z xs v).1 e g
  clear_pairs before (z ∷ xs) (suc i) (suc j) x y v l e g =
      clear_pairs (z ∷ before) xs i j x y (turn before z xs v).1 (omega (arith, l)) e g

-- A loop that tests each item.
module _ {A : Type 0} (V : List A → List A → Type 0) (F : A → Type 0)
    (turn : (before : List A) (x : A) (xs : List A)
      → V before (x ∷ xs)
      → F x × V (x ∷ before) xs) where
  pub each_passes :
      (before xs : List A) (i : ℕ) (x : A) → V before xs → get_elem? xs i ≡ some x → F x
  each_passes before [] i x v e = ground arith
  each_passes before (y ∷ xs) zero x v e = subst F (some-injective y x e) (turn before y xs v).0
  each_passes before (y ∷ xs) (suc i) x v e =
      each_passes (y ∷ before) xs i x (turn before y xs v).1 e

-- Two ranges have no address in common.
abbrev pub Disjoint : ℕ → ℕ → ℕ → ℕ → Type 0
Disjoint a n b m = (a + n ≤ b) ⊎ (b + m ≤ a)

pub ranges_overlap-Disjoint :
    (a n b m : ℕ)
    → ranges_overlap a n b m ≡ false
    → a + n < 2 ^ 64
    → b + m < 2 ^ 64
    → Disjoint a n b m
unfolding ranges_overlap
ranges_overlap-Disjoint a n b m e l k = elim (dec_lt b (a + n)) [
  | yes h ↦ inr (ground (arith, e, l, k, h))
  | no h ↦ inl (omega (arith, h))
]

-- Regions.
abbrev pub Regions : List Region → List Region → Type 0
Regions before regions = validate_regions before regions ≡ true

Regions-turn :
    (before : List Region) (r : Region) (regions : List Region)
    → Regions before (r ∷ regions)
    → (region_valid r ≡ true)
      × (has_item (region_clashes r) before ≡ false)
      × Regions (r ∷ before) regions
unfolding validate_regions
Regions-turn before r regions e = (ground (arith, e), ground (arith, e), ground (arith, e))

region_valid-end :
    (r : Region)
    → region_valid r ≡ true
    → r.region_length < 2 ^ 64
    → r.transport_base + r.region_length < 2 ^ 64
unfolding region_valid u64_range_valid
region_valid-end r e l = ground (arith, e, l)

region_clashes-none :
    (a b : Region)
    → region_clashes a b ≡ false
    → (a.region_id ≢ b.region_id)
      × (ranges_overlap a.transport_base a.region_length b.transport_base b.region_length ≡ false)
unfolding region_clashes
region_clashes-none a b e = (ground (arith, e), ground (arith, e))

-- Different regions have different identifiers and are disjoint.
abbrev pub RegionsApart : List Region → Type 0
RegionsApart regions =
    (i j : ℕ) (a b : Region)
    → i ≢ j
    → get_elem? regions i ≡ some a
    → get_elem? regions j ≡ some b
    → a.region_length < 2 ^ 64
    → b.region_length < 2 ^ 64
    → (a.region_id ≢ b.region_id)
      × Disjoint a.transport_base a.region_length b.transport_base b.region_length

Regions-clear :
    (regions : List Region) (i j : ℕ) (a b : Region)
    → Regions [] regions
    → j < i
    → get_elem? regions i ≡ some a
    → get_elem? regions j ≡ some b
    → a.region_length < 2 ^ 64
    → b.region_length < 2 ^ 64
    → (a.region_id ≢ b.region_id)
      × Disjoint a.transport_base a.region_length b.transport_base b.region_length
Regions-clear regions i j a b v l e g m n =
    let (ids, apart) = region_clashes-none a b (
      clear_pairs Regions region_clashes
        (λ before r rs v. let (x, y, z) = Regions-turn before r rs v in (y, z)) [] regions i j a b v
        l e g) in
    let valid = λ (k : ℕ). λ (r : Region). λ (e : get_elem? regions k ≡ some r).
      each_passes Regions (λ r. region_valid r ≡ true)
        (λ before r rs v. let (x, y, z) = Regions-turn before r rs v in (x, z)) [] regions k r v
        e in
    (
      ids,
      ranges_overlap-Disjoint _ _ _ _ apart (region_valid-end a (valid i a e) m)
          (region_valid-end b (valid j b g) n),
    )

pub Disjoint-sym : (a n b m : ℕ) → Disjoint a n b m → Disjoint b m a n
Disjoint-sym a n b m (inl l) = inr l
Disjoint-sym a n b m (inr l) = inl l

pub Regions-Apart : (regions : List Region) → Regions [] regions → RegionsApart regions
Regions-Apart regions v i j a b ne e g m n = elim (dec_lt j i) [
  | yes l ↦ Regions-clear regions i j a b v l e g m n
  | no k ↦
      let (ids, apart) = Regions-clear regions j i b a v (omega (arith, k, ne)) g e n m in
      ((λ s. ids (sym s)), Disjoint-sym _ _ _ _ apart)
]

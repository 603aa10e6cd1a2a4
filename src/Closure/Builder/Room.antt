-- ===== src/Closure/Builder/Room.antt =====
-- What `reserve` and `append` do to an array and to the ledger.
use kobox.Prelude.{
  ℕ, ◌+◌, ◌*◌, ◌≤◌, ◌<◌, ◌≡◌, ◌≢◌, refl, [], ◌∷◌, ◌++◌, ◌⊎◌, inl, inr, arith, length-append, ap,
  ℕ_discrete, ◌^◌,
}
use kobox.Status.{Status, ok}
use kobox.Allocator.{Heap}
use kobox.Closure.{Array, count}
use kobox.Closure.Builder.{grown, reserve, put_last, append}

-- The count is within the capacity, and the capacity within its limit.
pub record IsBounded {A : Type 0} (maximum : ℕ) (a : Array A) : Type 0 where
  pub count_le : count a ≤ a.capacity
  pub capacity_le : a.capacity ≤ maximum

-- The array holds its capacity in the ledger: nothing while there is no array.
abbrev pub Pays : {A : Type 0} → ℕ → Array A → Heap → Array A → Heap → Type 0
Pays size a h b h' = h'.live + a.capacity * size ≡ h.live + b.capacity * size

grown_bounds :
    (n capacity maximum : ℕ)
    → n ≤ capacity
    → capacity ≤ n
    → n < maximum
    → maximum ≤ 2 ^ 32
    → (n < grown capacity maximum) × (grown capacity maximum ≤ maximum)
unfolding grown
grown_bounds n capacity maximum a b c d = ground arith

reserve_room :
    {A : Type 0} (a : Array A) (size maximum : ℕ) (h : Heap)
    → IsBounded maximum a
    → maximum ≤ 2 ^ 32
    → let (status, b, h') = reserve a size maximum h in
      IsBounded maximum b
      × (b.items ≡ a.items)
      × ((status ≡ ok) × (count b < b.capacity) ⊎ (status ≢ ok) × (b ≡ a))
unfolding reserve
reserve_room a size maximum h v m = ground (arith, grown_bounds (count a) a.capacity maximum)

reserve-Pays :
    {A : Type 0} (a : Array A) (size maximum : ℕ) (h : Heap)
    → a.capacity * size ≤ h.live
    → Pays size a h (reserve a size maximum h).1 (reserve a size maximum h).2
unfolding reserve
reserve-Pays a size maximum h l = elim (ℕ_discrete a.capacity 0) [
  | yes e ↦ ground (arith, ap (λ (n : ℕ). n * size) e)
  | no n ↦ ground arith
]

-- The array with one item more where the status is `ok`, and else the array as it was.
abbrev pub Appended : {A : Type 0} → Array A → A → Status → Array A → Type 0
Appended a x ok b = b.items ≡ a.items ++ (x ∷ [])
Appended a x _ b = b ≡ a

put_last_room :
    {A : Type 0} (maximum : ℕ) (a : Array A) (x : A) (h' : Heap) (status : Status) (b : Array A)
    → IsBounded maximum b
    → b.items ≡ a.items
    → (status ≡ ok) × (count b < b.capacity) ⊎ (status ≢ ok) × (b ≡ a)
    → IsBounded maximum (put_last x (status, b, h')).1
      × Appended a x (put_last x (status, b, h')).0 (put_last x (status, b, h')).1
unfolding put_last
put_last_room maximum a x h' ok b v e (inl r) = (
  record {
    count_le = omega (arith, length-append b.items (x ∷ []), r.1);
    capacity_le = v.capacity_le;
  },
  ap (λ l. l ++ (x ∷ [])) e,
)
put_last_room maximum a x h' ok b v e (inr r) = absurd (r.0 refl)
put_last_room maximum a x h' _ b v e (inl r) = absurd (cc r.0)
put_last_room maximum a x h' _ b v e (inr r) = (v, r.1)

pub append_room :
    {A : Type 0} (a : Array A) (x : A) (size maximum : ℕ) (h : Heap)
    → IsBounded maximum a
    → maximum ≤ 2 ^ 32
    → let (status, b, h') = append a x size maximum h in IsBounded maximum b × Appended a x status b
unfolding append
append_room a x size maximum h v m =
    let (status, b, h') = reserve a size maximum h in
    let (bounded, same, room) = reserve_room a size maximum h v m in
    put_last_room maximum a x h' status b bounded same room

put_last-Pays :
    {A : Type 0} (size : ℕ) (a : Array A) (x : A) (h h' : Heap) (status : Status) (b : Array A)
    → Pays size a h b h'
    → Pays size a h (put_last x (status, b, h')).1 (put_last x (status, b, h')).2
unfolding put_last
put_last-Pays size a x h h' ok b p = p
put_last-Pays size a x h h' _ b p = p

pub append-Pays :
    {A : Type 0} (a : Array A) (x : A) (size maximum : ℕ) (h : Heap)
    → a.capacity * size ≤ h.live
    → Pays size a h (append a x size maximum h).1 (append a x size maximum h).2
unfolding append
append-Pays a x size maximum h l =
    let (status, b, h') = reserve a size maximum h in
    put_last-Pays size a x h h' status b (reserve-Pays a size maximum h l)

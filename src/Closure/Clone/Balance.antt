-- ===== src/Closure/Clone/Balance.antt =====
-- The bytes that copying a closure takes from the allocator and gives back.
use kobox.Prelude.{
  ℕ, ◌+◌, ◌*◌, ◌≡◌, ◌≢◌, ◌-◌, refl, ap, sym, subst, List, [], ◌∷◌, Bool-cases, inl, inr, Option,
  none, some, length, arith, ℕ_discrete,
}
use kobox.Status.{Status, ok}
use kobox.Allocator.{Heap, allocate, deallocate}
use kobox.Closure.{
  Array, null, Storage, Closure, empty_storage, closure_size, artifact_size, dependency_size,
  export_size, import_size, resource_size, resource_binding_size,
}
use kobox.Closure.Release.{release_array, storage_release, destroy, storage_bytes}
use kobox.Closure.Sort.{sort_array, storage_sort}
use kobox.Closure.Sort.Canonical.{IsCanonical}
use kobox.Closure.Sort.Ordered.{storage_sort-IsCanonical}
use kobox.Closure.Clone.{
  clone_array, ◌>>=◌, Attempt, made, failed, put_field, clone_field, clone_fields, finish_clone,
  clone,
}

live-release_array :
    {A : Type 0} (a : Array A) (size : ℕ) (h : Heap)
    → (release_array a size h).live ≡ h.live - a.capacity * size
unfolding release_array deallocate
live-release_array a size h = elim (ℕ_discrete a.capacity 0) [
  | yes e ↦ ground (arith, ap (λ (n : ℕ). n * size) e)
  | no n ↦ ground arith
]

pub live-storage_release :
    (s : Storage) (h : Heap) → (storage_release s h).live ≡ h.live - storage_bytes s
unfolding storage_release
live-storage_release s h = omega (arith, live-release_array)

pub live-destroy :
    (c : Closure) (h : Heap)
    → (destroy (some c) h).live ≡ h.live - (storage_bytes c.storage + closure_size)
unfolding destroy deallocate
live-destroy c h = omega (arith, live-storage_release c.storage h)

-- A granted array of `n` items takes `n` times the item size, and else nothing is taken.
live-clone_array :
    {A : Type 0} (source : List A) (size : ℕ) (h : Heap)
    → let (status, a, h') = clone_array source size h in
      (h'.live ≡ h.live + a.capacity * size)
      × (status ≡ ok → (a.items ≡ source) × (a.capacity ≡ length source))
      × (status ≢ ok → a ≡ null)
unfolding clone_array allocate
live-clone_array [] size h = ground arith
live-clone_array (x ∷ xs) size h = ground arith

abbrev pub copied : {A : Type 0} → List A → Array A
copied items = record { items = items; capacity = length items }

-- The copy of the arrays, each with no room to grow.
abbrev pub copied_storage : Storage → Storage
copied_storage s = record {
  artifacts = copied s.artifacts.items;
  dependencies = copied s.dependencies.items;
  exports = copied s.exports.items;
  imports = copied s.imports.items;
  resources = copied s.resources.items;
  resource_bindings = copied s.resource_bindings.items;
  manifest_digest = s.manifest_digest;
}

-- The heap's ledger is `base`, and what the copy holds on top of it.
abbrev Holds : ℕ → Storage → Heap → Type 0
Holds base s h = h.live ≡ base + closure_size + storage_bytes s

-- The copy is the target and is accounted for, or the attempt failed and left nothing behind.
abbrev Cloned : ℕ → Storage → Attempt → Type 0
Cloned base t (made s h) = (s ≡ t) × Holds base t h
Cloned base t (failed status h) = (status ≢ ok) × (h.live ≡ base)

put_field-Cloned :
    {A : Type 0} (base : ℕ) (source : List A) (size : ℕ) (put : Array A → Storage) (s : Storage)
    (h : Heap)
    → ((a : Array A) → storage_bytes (put a) ≡ storage_bytes s + a.capacity * size)
    → Holds base s h
    → (status : Status) (a : Array A) (h' : Heap) → (h'.live ≡ h.live + a.capacity * size)
    → (status ≡ ok → (a.items ≡ source) × (a.capacity ≡ length source))
    → (status ≢ ok → a ≡ null)
    → Cloned base (put (copied source)) (put_field put s (status, a, h'))
unfolding put_field
put_field-Cloned base source size put s h bytes holds ok a h' live items none' =
    let e : a ≡ copied source = ground arith in
    (ap put e, subst (λ b. Holds base (put b) h') e (omega (arith, bytes a, live, holds)))
put_field-Cloned base source size put s h bytes holds error a h' live items none' =
    ((λ e. cc), ground (arith, live-destroy (record { storage = s }) h', none' (λ e. cc)))

clone_field-Cloned :
    {A : Type 0} (base : ℕ) (source : List A) (size : ℕ) (put : Array A → Storage) (s : Storage)
    (h : Heap)
    → ((a : Array A) → storage_bytes (put a) ≡ storage_bytes s + a.capacity * size)
    → Holds base s h
    → Cloned base (put (copied source)) (clone_field source size put s h)
unfolding clone_field
clone_field-Cloned base source size put s h bytes holds =
    let (status, a, h') = clone_array source size h in
    let (live, items, none') = live-clone_array source size h in
    put_field-Cloned base source size put s h bytes holds status a h' live items none'

bind-Cloned :
    (base : ℕ) (s t : Storage) (m : Attempt) (f : Storage → Heap → Attempt)
    → Cloned base s m
    → ((h : Heap) → Holds base s h → Cloned base t (f s h))
    → Cloned base t (m >>= f)
bind-Cloned base s t (made u h) f c k = subst (λ v. Cloned base t (f v h)) (sym c.0) (k h c.1)
bind-Cloned base s t (failed status h) f c k = c

clone_fields-Cloned :
    (base : ℕ) (source : Storage) (h : Heap)
    → Holds base (empty_storage source.manifest_digest) h
    → Cloned base
        (copied_storage source)
        (clone_fields source (empty_storage source.manifest_digest) h)
unfolding clone_fields
clone_fields-Cloned base source h holds =
    bind-Cloned base _ _ _ _
      (bind-Cloned base _ _ _ _
        (bind-Cloned base _ _ _ _
          (bind-Cloned base _ _ _ _
            (bind-Cloned base _ _ _ _
              (clone_field-Cloned base source.artifacts.items artifact_size _ _ h (λ a. omega arith)
                holds)
              (λ h'.
                clone_field-Cloned base source.dependencies.items dependency_size _ _ h'
                  (λ a. omega arith)))
            (λ h'.
              clone_field-Cloned base source.exports.items export_size _ _ h' (λ a. omega arith)))
          (λ h'.
            clone_field-Cloned base source.imports.items import_size _ _ h' (λ a. omega arith)))
        (λ h'.
          clone_field-Cloned base source.resources.items resource_size _ _ h' (λ a. omega arith)))
      (λ h'.
        clone_field-Cloned base source.resource_bindings.items resource_binding_size _ _ h'
          (λ a. omega arith))

-- The sort moves no bytes.
storage_bytes-storage_sort : (s : Storage) → storage_bytes (storage_sort s) ≡ storage_bytes s
unfolding storage_sort sort_array
storage_bytes-storage_sort s = refl

-- The bytes that a closure holds.
abbrev pub held : Option Closure → ℕ
held none = 0
held (some c) = storage_bytes c.storage + closure_size

-- A success is the sorted copy, in canonical order, which holds what the copying took and whose
-- destruction gives it back; a failure returns no closure and has taken nothing.
abbrev pub CloneOutcome : Closure → Heap → Status × Option Closure × Heap → Type 0
CloneOutcome source h (ok, some copy, h') =
    (copy.storage ≡ storage_sort (copied_storage source.storage))
    × IsCanonical copy.storage
    × (h'.live ≡ h.live + held (some copy))
    × ((destroy (some copy) h').live ≡ h.live)
CloneOutcome source h (ok, none, h') = ⊥
CloneOutcome source h (error, copy, h') = (copy ≡ none) × (h'.live ≡ h.live)

finish_clone-CloneOutcome :
    (source : Closure) (h : Heap) (m : Attempt)
    → Cloned h.live (copied_storage source.storage) m
    → CloneOutcome source h (finish_clone m)
finish_clone-CloneOutcome source h (made s h') c =
    let taken : h'.live ≡ h.live + held (some (record { storage = storage_sort s })) =
      omega (arith, storage_bytes-storage_sort s, c.1, ap storage_bytes c.0) in
    (
      ap storage_sort c.0,
      storage_sort-IsCanonical s,
      taken,
      omega (arith, live-destroy (record { storage = storage_sort s }) h'),
    )
finish_clone-CloneOutcome source h (failed ok h') c = absurd (c.0 refl)
finish_clone-CloneOutcome source h (failed _ h') c = (refl, c.1)

-- Copying a closure either returns the sorted copy with capacities cut to the counts, whose arrays
-- are in the order that is documented (artifacts by node ID, dependencies by consumer and provider
-- ID, exports and imports by owner and name, then by kind or provider, resources by slot ID, bindings
-- by slot and node ID), and then the bytes taken are those that its destruction gives back, or fails
-- with no closure returned and as many bytes allocated as before.
pub clone-CloneOutcome :
    (source : Closure) (h : Heap) → CloneOutcome source h (clone (some source) h)
unfolding clone allocate
clone-CloneOutcome source h = elim (Bool-cases (h.grants h.calls closure_size)) [
  | inl granted ↦ rw granted (
      finish_clone-CloneOutcome source h _
        (clone_fields-Cloned h.live source.storage _ (omega arith)))
  | inr refused ↦ rw refused (refl, refl)
]

-- ===== src/Closure/Clone/Contents.antt =====
-- What a copy of a closure holds, and when the copying succeeds.
use Prim.Native.Nat.{Ordering}
use mathlib.Core.List.{Perm}
use mathlib.Core.List.Perm
use kobox.Prelude.{
  ℕ, ◌*◌, ◌/◌, ◌≤◌, ◌≡◌, u64_max, le→ltb, suc-ne_zero, refl, true, List, [], ◌∷◌, some, length,
  arith, ap, ◌∙◌, sym, subst,
}
use kobox.Status.{ok}
use kobox.Allocator.{Heap, allocate}
use kobox.Closure.{
  Array, Resource, Storage, Closure, artifact_size, dependency_size, export_size, import_size,
  resource_size, resource_binding_size, closure_size,
}
use kobox.Closure.Sort.{insert, sort, sort_array, storage_sort}
use kobox.Closure.Clone.{
  clone_array, Attempt, made, failed, ◌>>=◌, put_field, clone_field, clone_fields, finish_clone,
  clone, flags_of, launch_flags,
}
use kobox.Closure.Clone.Balance.{copied_storage, CloneOutcome, clone-CloneOutcome}

module _ {A : Type 0} (order : A → A → Ordering) where
  insert-perm : (x : A) (xs : List A) → Perm (insert order x xs) (x ∷ xs)
  unfolding insert
  insert-perm x [] = Perm.refl (x ∷ [])
  insert-perm x (y ∷ ys) =
      elim (order x y)
        as (λ o.
          Perm (elim o [ Ordering.gt ↦ y ∷ insert order x ys | _ ↦ x ∷ y ∷ ys ]) (x ∷ y ∷ ys)) [
            | Ordering.gt ↦ Perm.trans (Perm.cons y (insert-perm x ys)) (Perm.swap x y ys)
            | _ ↦ Perm.refl (x ∷ y ∷ ys)
          ]

  pub sort-perm : (xs : List A) → Perm (sort order xs) xs
  unfolding sort
  sort-perm [] = Perm.refl []
  sort-perm (x ∷ xs) = Perm.trans (insert-perm x (sort order xs)) (Perm.cons x (sort-perm xs))

module _ (order : Resource → Resource → Ordering) where
  flags_of-insert :
      (r : Resource) (rs : List Resource) → flags_of (insert order r rs) ≡ flags_of (r ∷ rs)
  unfolding insert flags_of
  flags_of-insert r [] = refl
  flags_of-insert r (s ∷ rs) = ground (arith, flags_of-insert r rs)

  flags_of-sort : (rs : List Resource) → flags_of (sort order rs) ≡ flags_of rs
  unfolding sort flags_of
  flags_of-sort [] = refl
  flags_of-sort (r ∷ rs) = ground (arith, flags_of-insert r (sort order rs), flags_of-sort rs)

launch_flags-storage_sort :
    (s : Storage) → flags_of (storage_sort s).resources.items ≡ flags_of s.resources.items
unfolding storage_sort sort_array
launch_flags-storage_sort s = flags_of-sort _ s.resources.items

-- The same records in each array, in any order, and the same digest.
pub record SameContents (s t : Storage) : Type 0 where
  pub artifacts : Perm s.artifacts.items t.artifacts.items
  pub dependencies : Perm s.dependencies.items t.dependencies.items
  pub exports : Perm s.exports.items t.exports.items
  pub imports : Perm s.imports.items t.imports.items
  pub resources : Perm s.resources.items t.resources.items
  pub resource_bindings : Perm s.resource_bindings.items t.resource_bindings.items
  pub manifest_digest : s.manifest_digest ≡ t.manifest_digest

storage_sort-SameContents : (s : Storage) → SameContents (storage_sort (copied_storage s)) s
unfolding storage_sort sort_array
storage_sort-SameContents s = record {
  artifacts = sort-perm _ s.artifacts.items;
  dependencies = sort-perm _ s.dependencies.items;
  exports = sort-perm _ s.exports.items;
  imports = sort-perm _ s.imports.items;
  resources = sort-perm _ s.resources.items;
  resource_bindings = sort-perm _ s.resource_bindings.items;
  manifest_digest = refl;
}

-- A closure that the copying returns has the records and the digest of the source, and asks the
-- controller for the same launch flags.
pub clone_contents :
    (source copy : Closure) (h h' : Heap)
    → clone (some source) h ≡ (ok, some copy, h')
    → SameContents copy.storage source.storage
      × (launch_flags (some copy) ≡ launch_flags (some source))
unfolding launch_flags
clone_contents source copy h h' e =
    let same = (subst (CloneOutcome source h) e (clone-CloneOutcome source h)).0 in
    (
      subst (λ s. SameContents s source.storage) (sym same)
          (storage_sort-SameContents source.storage),
      ap (λ (s : Storage). flags_of s.resources.items) same
          ∙ launch_flags-storage_sort (copied_storage source.storage),
    )

abbrev Grants : Heap → Type 0
Grants h = (n size : ℕ) → h.grants n size ≡ true

-- The array's size in bytes fits a size_t.
abbrev Fits : {A : Type 0} → Array A → ℕ → Type 0
Fits a item_size = length a.items ≤ u64_max / item_size

pub record FitsMemory (s : Storage) : Type 0 where
  pub artifacts : Fits s.artifacts artifact_size
  pub dependencies : Fits s.dependencies dependency_size
  pub exports : Fits s.exports export_size
  pub imports : Fits s.imports import_size
  pub resources : Fits s.resources resource_size
  pub resource_bindings : Fits s.resource_bindings resource_binding_size

abbrev Succeeds : Attempt → Type 0
Succeeds (made s h) = Grants h
Succeeds (failed status h) = ⊥

clone_field-Succeeds :
    {A : Type 0} (source : List A) (size : ℕ) (put : Array A → Storage) (s : Storage) (h : Heap)
    → length source ≤ u64_max / size
    → Grants h
    → Succeeds (clone_field source size put s h)
unfolding clone_field put_field clone_array allocate
clone_field-Succeeds [] size put s h fits g = g
clone_field-Succeeds (x ∷ xs) size put s h fits g =
    rw (suc-ne_zero (length xs), le→ltb _ _ fits, g h.calls (length (x ∷ xs) * size)) g

bind-Succeeds :
    (m : Attempt) (f : Storage → Heap → Attempt)
    → Succeeds m
    → ((s : Storage) (h : Heap) → Grants h → Succeeds (f s h))
    → Succeeds (m >>= f)
bind-Succeeds (made s h) f g k = k s h g
bind-Succeeds (failed status h) f g k = absurd g

clone_fields-Succeeds :
    (source s : Storage) (h : Heap)
    → FitsMemory source
    → Grants h
    → Succeeds (clone_fields source s h)
unfolding clone_fields
clone_fields-Succeeds source s h fits g =
    bind-Succeeds _ _
      (bind-Succeeds _ _
        (bind-Succeeds _ _
          (bind-Succeeds _ _
            (bind-Succeeds _ _ (clone_field-Succeeds _ _ _ s h fits.artifacts g)
              (λ s' h'. clone_field-Succeeds _ _ _ s' h' fits.dependencies))
            (λ s' h'. clone_field-Succeeds _ _ _ s' h' fits.exports))
          (λ s' h'. clone_field-Succeeds _ _ _ s' h' fits.imports))
        (λ s' h'. clone_field-Succeeds _ _ _ s' h' fits.resources))
      (λ s' h'. clone_field-Succeeds _ _ _ s' h' fits.resource_bindings)

finish_clone-ok : (m : Attempt) → Succeeds m → (finish_clone m).0 ≡ ok
finish_clone-ok (made s h) g = refl
finish_clone-ok (failed status h) g = absurd g

-- A host that grants every call lets each closure be copied whose arrays' sizes fit a size_t.
pub clone_total :
    (source : Closure) (h : Heap)
    → FitsMemory source.storage
    → ((n size : ℕ) → h.grants n size ≡ true)
    → (clone (some source) h).0 ≡ ok
unfolding clone allocate
clone_total source h fits g =
    rw (g h.calls closure_size)
      (finish_clone-ok _ (clone_fields-Succeeds source.storage _ _ fits g))

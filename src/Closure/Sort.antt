-- ===== src/Closure/Sort.antt =====
-- The canonical order of a closure's arrays: the comparison functions and `kb2_storage_sort` of
-- src/closure.c. `qsort` is the C library's; the insertion sort stands for it.
pub mod Canonical
pub mod Ordered
use Prim.Native.Nat.{compare, Ordering}
use kobox.Prelude.{ℕ, List, [], ◌∷◌}
use kobox.Closure.{Array, Artifact, Dependency, Export, Import, Resource, ResourceBinding, Storage}

-- The next key decides where the first is equal.
abbrev pub then : Ordering → Ordering → Ordering
then Ordering.lt o = Ordering.lt
then Ordering.eq o = o
then Ordering.gt o = Ordering.gt

unfoldable pub strcmp : List ℕ → List ℕ → Ordering
strcmp [] [] = Ordering.eq
strcmp [] (y ∷ ys) = Ordering.lt
strcmp (x ∷ xs) [] = Ordering.gt
strcmp (x ∷ xs) (y ∷ ys) = then (compare x y) (strcmp xs ys)

unfoldable pub compare_artifacts : Artifact → Artifact → Ordering
compare_artifacts a b = compare a.node_id b.node_id

unfoldable pub compare_dependencies : Dependency → Dependency → Ordering
compare_dependencies a b =
    then (compare a.consumer_node_id b.consumer_node_id)
      (compare a.provider_node_id b.provider_node_id)

unfoldable pub compare_exports : Export → Export → Ordering
compare_exports a b =
    then (compare a.node_id b.node_id) (then (strcmp a.symbol b.symbol) (compare a.kind b.kind))

unfoldable pub compare_imports : Import → Import → Ordering
compare_imports a b = then (compare a.consumer_node_id b.consumer_node_id) (
    then (strcmp a.consumer_symbol b.consumer_symbol)
      (compare a.provider_node_id b.provider_node_id))

unfoldable pub compare_resources : Resource → Resource → Ordering
compare_resources a b = compare a.slot_id b.slot_id

unfoldable pub compare_resource_bindings : ResourceBinding → ResourceBinding → Ordering
compare_resource_bindings a b = then (compare a.slot_id b.slot_id) (compare a.node_id b.node_id)

module _ {A : Type 0} (order : A → A → Ordering) where
  unfoldable pub insert : A → List A → List A
  insert x [] = x ∷ []
  insert x (y ∷ ys) =
      let later = insert x ys in elim (order x y) [ Ordering.gt ↦ y ∷ later | _ ↦ x ∷ y ∷ ys ]

  unfoldable pub sort : List A → List A
  sort [] = []
  sort (x ∷ xs) = insert x (sort xs)

  unfoldable pub sort_array : Array A → Array A
  sort_array a = record a { items = sort a.items }

unfoldable pub storage_sort : Storage → Storage
storage_sort s = record s {
  artifacts = sort_array compare_artifacts s.artifacts;
  dependencies = sort_array compare_dependencies s.dependencies;
  exports = sort_array compare_exports s.exports;
  imports = sort_array compare_imports s.imports;
  resources = sort_array compare_resources s.resources;
  resource_bindings = sort_array compare_resource_bindings s.resource_bindings;
}

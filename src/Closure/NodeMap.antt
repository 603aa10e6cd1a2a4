-- ===== src/Closure/NodeMap.antt =====
-- The map from node identifiers to artifacts: `kb2_sort_node_map`, `kb2_node_map_find` and
-- `kb2_build_node_map` of src/closure.c.
pub mod Sorted
pub mod Found
use kobox.Prelude.{
  ℕ, zero, suc, ◌+◌, ◌-◌, ◌*◌, ◌/◌, List, [], ◌∷◌, Option, none, some, not, ltb, ◌==◌,
  if◌then◌else◌, length, get_or, u64_max,
}
use kobox.Status.{Status, ok, no_memory, resource_exhausted}
use kobox.Allocator.{Heap, allocate}
use kobox.Closure.{Array, Artifact, Storage}

-- `struct kb2_node_map_entry`
pub record Entry : Type 0 where
  pub node_id : ℕ
  pub index : ℕ

-- `sizeof(struct kb2_node_map_entry)`
abbrev pub entry_size : ℕ
entry_size = 16

-- The inner loop: `value` sinks below the greater entries before it, the nearest of which is first.
unfoldable pub sink : Entry → List Entry → List Entry
sink value [] = value ∷ []
sink value (e ∷ before) =
    let rest = sink value before in
    if ltb value.node_id e.node_id then e ∷ rest else value ∷ e ∷ before

-- The outer loop, with the entries before `index` from the nearest to the first.
unfoldable pub sort_from : List Entry → List Entry → List Entry
sort_from before [] = before
sort_from before (value ∷ rest) = sort_from (sink value before) rest

-- The entries from the first to the last.
unfoldable pub in_order : List Entry → List Entry → List Entry
in_order sorted [] = sorted
in_order sorted (e ∷ before) = in_order (e ∷ sorted) before

unfoldable pub sort_node_map : List Entry → List Entry
sort_node_map [] = []
sort_node_map (e ∷ rest) = in_order [] (sort_from (e ∷ []) rest)

abbrev pub zero_entry : Entry
zero_entry = record { node_id = 0; index = 0 }

-- The loop of `kb2_node_map_find`. Its interval shrinks in each turn, so that its length is fuel
-- enough; SIZE_MAX is `none`.
unfoldable pub search : ℕ → List Entry → ℕ → ℕ → ℕ → Option ℕ
search zero map begin end node_id = none
search (suc fuel) map begin end node_id =
    let middle = begin + (end - begin) / 2 in
    let e = get_or map middle zero_entry in
    let below = ltb e.node_id node_id in
    let rest =
      search fuel map (if below then middle + 1 else begin) (if below then end else middle)
        node_id in
    if not (ltb begin end) then none else if e.node_id == node_id then some e.index else rest

unfoldable pub node_map_find : List Entry → ℕ → Option ℕ
node_map_find map node_id = search (length map) map 0 (length map) node_id

-- The loop of `kb2_build_node_map`, from `index` on.
unfoldable pub entries : ℕ → List Artifact → List Entry
entries index [] = []
entries index (r ∷ rs) = record { node_id = r.node_id; index = index } ∷ entries (index + 1) rs

unfoldable pub build_node_map : Storage → Heap → Status × List Entry × Heap
unfolding allocate
build_node_map s h =
    let n = length s.artifacts.items in
    if ltb (u64_max / entry_size) n
    then (resource_exhausted, [], h)
    else let (granted, h') = allocate h (n * entry_size) in
      if granted then (ok, sort_node_map (entries 0 s.artifacts.items), h') else (no_memory, [], h')

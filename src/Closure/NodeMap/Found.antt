-- ===== src/Closure/NodeMap/Found.antt =====
-- Looking up in the node map of src/closure.c finds what a search through the artifacts finds.
use kobox.Prelude.{
  ℕ, zero, suc, ◌+◌, ◌-◌, ◌/◌, ◌≤◌, ◌<◌, ◌≡◌, ◌≢◌, refl, false, List, [], ◌∷◌, Option, none, some,
  ◌==◌, if◌then◌else◌, length, get_or, get_elem?, ℕ_discrete, arith, inl, inr, Option-cases, ap,
  sym, ◌∙◌,
}
use kobox.Status.{ok}
use kobox.Allocator.{Heap, allocate}
use kobox.Closure.{Artifact, Storage}
use kobox.Closure.Builder.Add.{any}
use kobox.Closure.Builder.Built.{artifact_clash, Distinct, IsBuilt}
use kobox.Closure.NodeMap.{
  Entry, zero_entry, sort_node_map, search, node_map_find, entries, build_node_map,
}
use kobox.Closure.NodeMap.Sorted.{
  Each, Each-both, Each-sort_node_map, Each-unsort_node_map, Each-get_or, get_or-Each, Ascending,
  sort_node_map-Ascending, Ascending-le,
}

-- A search that finds something finds what any such entry would have.
search_sound :
    (fuel : ℕ) (map : List Entry) (begin end node_id : ℕ) (target : Option ℕ)
    → Each (λ e. e.node_id ≡ node_id → target ≡ some e.index) map
    → end ≤ length map
    → (i : ℕ) → search fuel map begin end node_id ≡ some i
    → target ≡ some i
unfolding search
search_sound zero map begin end node_id target v l i e = ground arith
search_sound (suc fuel) map begin end node_id target v l i e =
    let middle = begin + (end - begin) / 2 in
    let here = Each-get_or _ map middle v in
    let above = search_sound fuel map (middle + 1) end node_id target v l i in
    let under =
      λ (h : middle ≤ length map). search_sound fuel map begin middle node_id target v h i in
    ground (arith, here, above, under)

-- A search that finds nothing leaves no entry in its interval.
search_complete :
    (fuel : ℕ) (map : List Entry) (begin end node_id : ℕ)
    → Ascending map
    → end ≤ length map
    → end - begin ≤ fuel
    → search fuel map begin end node_id ≡ none
    → (i : ℕ) → begin ≤ i
    → i < end
    → (get_or map i zero_entry).node_id ≢ node_id
unfolding search
search_complete zero map begin end node_id a l f e i b k = absurd (omega arith)
search_complete (suc fuel) map begin end node_id a l f e i b k =
    let middle = begin + (end - begin) / 2 in
    let above : search fuel map (middle + 1) end node_id ≡ none
        → middle + 1 ≤ i
        → (get_or map i zero_entry).node_id ≢ node_id =
      λ q h. search_complete fuel map (middle + 1) end node_id a l (omega arith) q i h k in
    let under : search fuel map begin middle node_id ≡ none
        → i < middle
        → (get_or map i zero_entry).node_id ≢ node_id =
      λ q h. search_complete fuel map begin middle node_id a (omega arith) (omega arith) q i b h in
    let before : i ≤ middle
        → (get_or map i zero_entry).node_id ≤ (get_or map middle zero_entry).node_id =
      λ h. Ascending-le map i middle a h (omega arith) in
    let after : middle ≤ i
        → (get_or map middle zero_entry).node_id ≤ (get_or map i zero_entry).node_id =
      λ h. Ascending-le map middle i a h (omega arith) in
    λ same. ground (arith, above, under, before, after)

-- The reference: the first artifact with the identifier, counted from `index` on.
unfoldable pub artifact_index : ℕ → List Artifact → ℕ → Option ℕ
artifact_index index [] node_id = none
artifact_index index (r ∷ rs) node_id =
    if r.node_id == node_id then some index else artifact_index (index + 1) rs node_id

-- The artifact at an index that is found has the identifier.
pub artifact_index-at :
    (index : ℕ) (rs : List Artifact) (node_id i : ℕ)
    → artifact_index index rs node_id ≡ some i
    → (j : ℕ) × (i ≡ index + j)
      × ((r : Artifact) × (get_elem? rs j ≡ some r) × (r.node_id ≡ node_id))
unfolding artifact_index
artifact_index-at index [] node_id i e = ground arith
artifact_index-at index (r ∷ rs) node_id i e = elim (ℕ_discrete r.node_id node_id) [
  | yes q ↦ (0, ground arith, (r, refl, q))
  | no d ↦
      let (j, f, at) = artifact_index-at (index + 1) rs node_id i (ground arith) in
      (suc j, omega (arith, f), at)
]

entries-named :
    (index : ℕ) (rs : List Artifact) (node_id : ℕ)
    → any (λ (s : Artifact). node_id == s.node_id) rs ≡ false
    → Each (λ e. e.node_id ≢ node_id) (entries index rs)
unfolding entries any
entries-named index [] node_id h = tt
entries-named index (r ∷ rs) node_id h =
    (ground arith, entries-named (index + 1) rs node_id (ground arith))

any-clash :
    (r : Artifact) (rs : List Artifact)
    → any (λ s. artifact_clash r s) rs ≡ false
    → any (λ (s : Artifact). r.node_id == s.node_id) rs ≡ false
unfolding any
any-clash r [] h = refl
any-clash r (s ∷ rs) h = ground (arith, any-clash r rs)

entries_sound :
    (index : ℕ) (rs : List Artifact) (node_id : ℕ)
    → Distinct artifact_clash rs
    → Each
        (λ e. e.node_id ≡ node_id → artifact_index index rs node_id ≡ some e.index)
        (entries index rs)
unfolding entries artifact_index
entries_sound index [] node_id d = tt
entries_sound index (r ∷ rs) node_id d = (
  (λ h. ground arith),
  Each-both _ _ _ (λ e other same h. ground (arith, other, same)) (entries (index + 1) rs)
      (entries-named (index + 1) rs r.node_id (any-clash r rs d.0))
      (entries_sound (index + 1) rs node_id d.1),
)

entries_complete :
    (index : ℕ) (rs : List Artifact) (node_id : ℕ)
    → Each (λ e. e.node_id ≢ node_id) (entries index rs)
    → artifact_index index rs node_id ≡ none
unfolding entries artifact_index
entries_complete index [] node_id v = refl
entries_complete index (r ∷ rs) node_id v =
    ground (arith, v.0, entries_complete (index + 1) rs node_id v.1)

find-eq :
    (rs : List Artifact) (node_id : ℕ)
    → Distinct artifact_clash rs
    → node_map_find (sort_node_map (entries 0 rs)) node_id ≡ artifact_index 0 rs node_id
unfolding node_map_find
find-eq rs node_id d =
    let map = sort_node_map (entries 0 rs) in
    elim (Option-cases (node_map_find map node_id)) [
      | inl e ↦
          e
          ∙ sym (
              entries_complete 0 rs node_id (
                Each-unsort_node_map _ (entries 0 rs) (
                  get_or-Each _ map (λ i l.
                    search_complete (length map) map 0 (length map) node_id
                      (sort_node_map-Ascending (entries 0 rs)) (omega arith) (omega arith) e i
                      (omega arith) l))))
      | inr (i, e) ↦
          e
          ∙ sym (
              search_sound (length map) map 0 (length map) node_id _
                (Each-sort_node_map _ (entries 0 rs) (entries_sound 0 rs node_id d)) (omega arith) i
                e)
    ]

-- Looking up a node in the map that is built from a storage in order finds the artifact's index
-- that a search from the first artifact on finds, and nothing where no artifact has the identifier.
pub node_map_find-eq :
    (s : Storage) (map : List Entry) (h h' : Heap) (node_id : ℕ)
    → IsBuilt s
    → build_node_map s h ≡ (ok, map, h')
    → node_map_find map node_id ≡ artifact_index 0 s.artifacts.items node_id
unfolding build_node_map allocate
node_map_find-eq s map h h' node_id v e =
    let same : sort_node_map (entries 0 s.artifacts.items) ≡ map = ground arith in
    ap (λ m. node_map_find m node_id) (sym same)
    ∙ find-eq s.artifacts.items node_id v.artifacts.distinct

-- ===== src/Closure/Graph/Queues.antt =====
-- The queues of `kb2_validate_graph` of src/closure.c: they are emptied, and the first has room.
use kobox.Prelude.{◌≤◌, ◌+◌, ℕ, ◌≡◌, refl, List, [], some, length, arith}
use kobox.Closure.{Storage}
use kobox.Closure.NodeMap.{Entry, node_map_find}
use kobox.Closure.Graph.{
  Links, link_all, no_links, targets_of, order_from, first_order, reach_from, root_flags,
  root_indices,
}
use kobox.Closure.Graph.Sorting.{order_from-Sorting}
use kobox.Closure.Graph.Ranks.{queue_bound, order_from-emptied}
use kobox.Closure.Graph.Linking.{resolved}
use kobox.Closure.Graph.Emptied.{length-root_flags, left-roots, reach_from-empties}
use kobox.Closure.Graph.Sound.{Finds, targets_of-Below, linked-Sorting, filled-Linked}

-- Where the first loop goes through, both queues are empty after as many turns as there are
-- artifacts.
pub queues_emptied :
    (s : Storage) (map : List Entry) (k : Links)
    → Finds s map
    → link_all s.artifacts.items map s.dependencies.items
        (some (no_links (length s.artifacts.items)))
      ≡ some k
    → let n = length s.artifacts.items in
      ((order_from (targets_of k) n (first_order k.incoming)).waiting ≡ [])
      × ((reach_from (targets_of k) n (record {
        reachable = root_flags s.artifacts.items;
        waiting = root_indices 0 s.artifacts.items;
      })).waiting
          ≡ [])
unfolding first_order
queues_emptied s map k f e =
    let n = length s.artifacts.items in
    let edges = resolved (node_map_find map) s.dependencies.items [] in
    let l = filled-Linked s map f k e in
    (
      order_from-emptied n (targets_of k) (first_order k.incoming)
          (λ u h. targets_of-Below n k edges l u) refl (linked-Sorting n k edges l),
      reach_from-empties n (targets_of k) (targets_of-Below n k edges l) n _
          (length-root_flags s.artifacts.items) (omega (arith, left-roots s.artifacts.items)),
    )

-- After any number of turns the loop that sorts the graph has put no more indices into its queue
-- than there are artifacts, for as many as it has room.
pub queue_in_bounds :
    (s : Storage) (map : List Entry) (k : Links) (turns : ℕ)
    → Finds s map
    → link_all s.artifacts.items map s.dependencies.items
        (some (no_links (length s.artifacts.items)))
      ≡ some k
    → length (order_from (targets_of k) turns (first_order k.incoming)).taken
        + length (order_from (targets_of k) turns (first_order k.incoming)).waiting
      ≤ length s.artifacts.items
queue_in_bounds s map k turns f e =
    let n = length s.artifacts.items in
    let edges = resolved (node_map_find map) s.dependencies.items [] in
    let l = filled-Linked s map f k e in
    queue_bound n (targets_of k) _
      (order_from-Sorting n (targets_of k) turns (first_order k.incoming)
        (λ u h. targets_of-Below n k edges l u) (linked-Sorting n k edges l)).0

-- ===== src/Closure/Seal/Examples.antt =====
-- Sealing builders of src/closure.c on concrete records, and the theorems there.
use kobox.Prelude.{◌+◌, ◌≤◌, length, ℕ, ◌≡◌, refl, some, none, List, [], ◌∷◌, ◌++◌}
use kobox.Status.{ok, no_memory, invalid_configuration}
use kobox.Closure.NodeMap
use kobox.Closure.NodeMap.{Entry}
use kobox.Closure.NodeMap.Found.{artifact_index, node_map_find-eq}
use kobox.Closure.Validate
use kobox.Closure.Graph
use kobox.Closure.Graph.{Links, Order, Reach}
use kobox.Closure.Graph.Queues.{queues_emptied, queue_in_bounds}
use kobox.Closure.Builder.Calls.{Call, run}
use kobox.Closure.Builder.Built.Kept.{run-IsBuilt}
use kobox.Closure.Builder.Examples
use kobox.Closure.Builder.Examples.{generous, mean, building, blank, built, blank-IsBuilt}
use kobox.Closure.Seal
use kobox.Closure.Seal.{seal}
use kobox.Closure.Seal.Balance.{SealOutcome, seal-SealOutcome}
use kobox.Closure.Seal.Sound.{IsSealed, seal_sound}

-- All that sealing computes with.
computed : ℕ
unfolding Examples.computed NodeMap.sink NodeMap.sort_from NodeMap.in_order NodeMap.sort_node_map
    NodeMap.search NodeMap.node_map_find NodeMap.entries NodeMap.build_node_map Validate.find_export
    Validate.lifecycle_missing Validate.artifact_refused Validate.count_artifacts
    Validate.judge_counts Validate.validate_artifacts Validate.export_refused
    Validate.import_refused Validate.check_all Validate.and_then Validate.validate_symbols
    Validate.find_resource Validate.binding_refused Validate.binding_count Validate.resource_refused
    Validate.validate_resources Graph.add_edge Graph.link Graph.link_all Graph.no_links Graph.walk
    Graph.targets_of Graph.release Graph.release_all Graph.order_turn Graph.order_from Graph.zeroes
    Graph.first_order Graph.visit Graph.visit_all Graph.reach_turn Graph.reach_from Graph.root_flags
    Graph.root_indices Graph.all_reached Graph.judge_graph Graph.check_graph Graph.give_back
    Graph.allocate_edges Graph.validate_graph Seal.validate_with Seal.validate_rest
    Seal.validate_storage Seal.seal_valid seal artifact_index
computed = 0

-- Two modules more, in a chain below the root.
abbrev chain : List Call
chain =
    Call.add_artifact 3 1 (some Examples.digest) 32 (some (0x61 ∷ []))
    ∷ Call.add_artifact 4 1 (some Examples.digest) 32 (some (0x62 ∷ []))
    ∷ Call.set_native_lifecycle 3
    ∷ Call.set_native_lifecycle 4
    ∷ Call.add_dependency 2 3
    ∷ Call.add_dependency 3 4
    ∷ []

sealed_ok : (seal (some built) generous).0 ≡ ok
unfolding computed
sealed_ok = refl

cycle_refused :
    (seal (some (run built generous (chain ++ (Call.add_dependency 4 3 ∷ []))).0) generous).0
    ≡ invalid_configuration
unfolding computed
cycle_refused = refl

chain_ok : (seal (some (run built generous chain).0) generous).0 ≡ ok
unfolding computed
chain_ok = refl

-- With only the first request granted, the map is built and the graph has no memory.
no_memory_left : (seal (some built) mean).0 ≡ no_memory
unfolding computed
no_memory_left = refl

abbrev node_map : List Entry
node_map = record { node_id = 1; index = 1 } ∷ record { node_id = 2; index = 0 } ∷ []

node_map_find-eq_example :
    NodeMap.node_map_find node_map 1 ≡ artifact_index 0 built.storage.artifacts.items 1
unfolding computed
node_map_find-eq_example =
    node_map_find-eq built.storage node_map generous
      (NodeMap.build_node_map built.storage generous).2 1
      (run-IsBuilt blank generous building blank-IsBuilt) refl

abbrev links : Links
links = record {
  heads = some 0 ∷ none ∷ [];
  edges = record { next = none; target = 1 } ∷ [];
  incoming = 0 ∷ 1 ∷ [];
}

queues_emptied_example :
    ((Graph.order_from (Graph.targets_of links) 2 (Graph.first_order links.incoming)).waiting ≡ [])
    × ((Graph.reach_from (Graph.targets_of links) 2 (record {
      reachable = Graph.root_flags built.storage.artifacts.items;
      waiting = Graph.root_indices 0 built.storage.artifacts.items;
    })).waiting
        ≡ [])
unfolding computed
queues_emptied_example =
    queues_emptied built.storage node_map links
      (λ node_id.
        node_map_find-eq built.storage node_map generous
          (NodeMap.build_node_map built.storage generous).2 node_id
          (run-IsBuilt blank generous building blank-IsBuilt) refl)
      refl

queue_in_bounds_example :
    length (Graph.order_from (Graph.targets_of links) 1 (Graph.first_order links.incoming)).taken
      + length
          (Graph.order_from (Graph.targets_of links) 1 (Graph.first_order links.incoming)).waiting
    ≤ 2
unfolding computed
queue_in_bounds_example =
    queue_in_bounds built.storage node_map links 1
      (λ node_id.
        node_map_find-eq built.storage node_map generous
          (NodeMap.build_node_map built.storage generous).2 node_id
          (run-IsBuilt blank generous building blank-IsBuilt) refl)
      refl

seal-SealOutcome_example : SealOutcome built mean (seal (some built) mean)
seal-SealOutcome_example = seal-SealOutcome built mean

seal_sound_example : IsSealed built.storage
unfolding computed
seal_sound_example =
    seal_sound built generous (run-IsBuilt blank generous building blank-IsBuilt) refl

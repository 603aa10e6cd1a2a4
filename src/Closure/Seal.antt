-- ===== src/Closure/Seal.antt =====
-- Sealing: `kb2_validate_storage` and `kb2_closure_builder_seal` of src/closure.c.
pub mod Balance
pub mod Sound
mod Examples
use kobox.Prelude.{ℕ, ◌*◌, List, Option, none, some, length}
use kobox.Status.{Status, ok, invalid_argument}
use kobox.Allocator.{Heap, deallocate}
use kobox.Closure.{Storage, Closure}
use kobox.Closure.Clone.{clone}
use kobox.Closure.Builder.{Builder}
use kobox.Closure.NodeMap.{Entry, entry_size, build_node_map}
use kobox.Closure.Validate.{and_then, validate_artifacts, validate_symbols, validate_resources}
use kobox.Closure.Graph.{validate_graph}

-- The checks that use the map, and its release.
unfoldable pub validate_with : Storage → Status × List Entry × Heap → Status × Heap
unfolding deallocate and_then
validate_with s (ok, map, h) =
    let (status, h') = validate_graph s map h in
    (
      and_then (and_then status (validate_symbols s map)) (validate_resources s map),
      deallocate h' (length s.artifacts.items * entry_size),
    )
validate_with s (error, map, h) = (error, h)

-- What follows the check of the artifacts.
unfoldable pub validate_rest : Storage → Heap → Status → Status × Heap
unfolding validate_with
validate_rest s h ok = validate_with s (build_node_map s h)
validate_rest s h error = (error, h)

unfoldable pub validate_storage : Storage → Heap → Status × Heap
unfolding validate_rest
validate_storage s h = validate_rest s h (validate_artifacts s.artifacts.items s.exports.items)

-- The copy is made where the storage is valid.
unfoldable pub seal_valid : Storage → Status × Heap → Status × Option Closure × Heap
seal_valid s (ok, h) = clone (some (record { storage = s })) h
seal_valid s (error, h) = (error, none, h)

unfoldable pub seal : Option Builder → Heap → Status × Option Closure × Heap
unfolding seal_valid
seal none h = (invalid_argument, none, h)
seal (some b) h = seal_valid b.storage (validate_storage b.storage h)

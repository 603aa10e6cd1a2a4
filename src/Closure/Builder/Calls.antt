-- ===== src/Closure/Builder/Calls.antt =====
-- The calls of include/kobox2/closure.h on one builder, in sequence.
use kobox.Prelude.{ℕ, Bool, List, [], ◌∷◌, Option}
use kobox.Status.{Status}
use kobox.Allocator.{Heap}
use kobox.Closure.{Bytes, Resource}
use kobox.Closure.Builder.{Builder}
use kobox.Closure.Builder.Add

pub data Call : Type 0 where
  add_artifact : ℕ → ℕ → Option Bytes → ℕ → Option Bytes → Call
  set_lifecycle : ℕ → Option Bytes → Option Bytes → Option Bytes → Call
  set_native_lifecycle : ℕ → Call
  mark_root : ℕ → Call
  add_dependency : ℕ → ℕ → Call
  add_export : ℕ → Option Bytes → ℕ → Call
  add_import : ℕ → Option Bytes → ℕ → Option Bytes → ℕ → ℕ → Call
  add_resource : Resource → Bool → ℕ → Call
  bind_resource : ℕ → ℕ → Call

abbrev with_heap : Heap → Status × Builder → Status × Builder × Heap
with_heap h (status, b) = (status, b, h)

unfoldable pub step : Builder → Call → Heap → Status × Builder × Heap
step b (add_artifact node_id kind digest size name) h =
    Add.add_artifact b node_id kind digest size name h
step b (set_lifecycle node_id init quiesce cleanup) h =
    with_heap h (Add.set_lifecycle b node_id init quiesce cleanup)
step b (set_native_lifecycle node_id) h = with_heap h (Add.set_native_lifecycle b node_id)
step b (mark_root node_id) h = with_heap h (Add.mark_root b node_id)
step b (add_dependency consumer provider) h = Add.add_dependency b consumer provider h
step b (add_export node_id symbol kind) h = Add.add_export b node_id symbol kind h
step b (add_import consumer consumer_symbol provider provider_symbol kind flags) h =
    Add.add_import b consumer consumer_symbol provider provider_symbol kind flags h
step b (add_resource r has_digest size) h = Add.add_resource b r has_digest size h
step b (bind_resource slot_id node_id) h = Add.bind_resource b slot_id node_id h

unfoldable pub run : Builder → Heap → List Call → Builder × Heap
run b h [] = (b, h)
run b h (k ∷ ks) = let (status, b', h') = step b k h in run b' h' ks

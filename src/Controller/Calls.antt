-- ===== src/Controller/Calls.antt =====
-- The calls of include/kobox2/controller.h on one handle, in sequence, as their guards for a NULL
-- handle in src/controller/controller.c let them through. NULL is `none`.
use kobox.Prelude.{ℕ, List, [], ◌∷◌, Option, none, some}
use kobox.Status.{Status, invalid_argument}
use kobox.Allocator.{Heap}
use kobox.Closure.{Closure, Bytes}
use kobox.Controller.{FaultKind, Controller}
use kobox.Controller.Configure
use kobox.Controller.Lifecycle
use kobox.Controller.Complete

pub data Call : Type 0 where
  set_closure : Option Closure → Call
  set_digest : ℕ → Option Bytes → ℕ → Call
  set_limit : ℕ → ℕ → Call
  start stop restart : Call
  complete_action : ℕ → ℕ → Status → ℕ → ℕ → Call
  report_ready : ℕ → Call
  report_fault : ℕ → FaultKind → ℕ → Call

-- The calls but the first leave the heap alone.
abbrev with_heap : Heap → Status × Controller → Status × Controller × Heap
with_heap h (status, c) = (status, c, h)

unfoldable pub step : Controller → Call → Heap → Status × Controller × Heap
step c (set_closure closure) h = Configure.set_closure c closure h
step c (set_digest kind digest size) h = with_heap h (Configure.set_digest c kind digest size)
step c (set_limit kind value) h = with_heap h (Configure.set_limit c kind value)
step c start h = with_heap h (Lifecycle.start c)
step c stop h = with_heap h (Lifecycle.stop c)
step c restart h = with_heap h (Lifecycle.restart c)
step c (complete_action generation token result resource_set_id sandbox_id) h =
    with_heap h (Complete.complete_action c generation token result resource_set_id sandbox_id)
step c (report_ready generation) h = with_heap h (Complete.report_ready c generation)
step c (report_fault generation kind code) h =
    with_heap h (Complete.report_fault c generation kind code)

unfoldable pub call : Option Controller → Call → Heap → Status × Option Controller × Heap
call none k h = (invalid_argument, none, h)
call (some c) k h = let (status, c', h') = step c k h in (status, some c', h')

-- The statuses are dropped: the host may go on after any of them.
unfoldable pub run : Controller → Heap → List Call → Controller × Heap
run c h [] = (c, h)
run c h (k ∷ ks) = let (status, c', h') = step c k h in run c' h' ks

-- ===== src/Controller/Refusal.antt =====
-- A refused call changes nothing.
use kobox.Prelude.{ℕ, ◌≡◌, refl, Bool, true, false, Option, none, some, arith}
use kobox.Status.{
  Status, ok, invalid_argument, invalid_state, action_pending, stale_generation, stale_action,
  no_memory,
}
use kobox.Allocator.{Heap}
use kobox.Closure.{Closure, Bytes}
use kobox.Closure.Clone.{clone}
use kobox.Controller.{
  ActionType, no_action, allocate_resources, launch_sandbox, transfer_resources, Controller,
}
use kobox.Controller.Emit.{emit_action, clear_action}
use kobox.Controller.Configure.{
  put_closure, set_closure, set_digest, set_limit, validate_configuration,
}
use kobox.Controller.Lifecycle.{
  start_valid, begin_start, restarted, cleaned, finish_cleanup, cleanup_action, emit_or_finish,
  next_cleanup_action, cleaning, begin_cleanup, start, stop, restart,
}
use kobox.Controller.Complete.{
  complete_ok, complete, action_result_valid, complete_action, report_ready, report_fault,
}
use kobox.Controller.Calls.{Call, step}
use kobox.Controller.Invariant.{Inv, Asked, Expected}
use kobox.Controller.Invariant.Kept.{Asked-of_pending, clear_action-Expected}

-- The statuses of a call that is turned away.
abbrev pub refuses : Status → Bool
refuses invalid_argument = true
refuses invalid_state = true
refuses action_pending = true
refuses stale_generation = true
refuses stale_action = true
refuses no_memory = true
refuses _ = false

refuses-emit_action : (c : Controller) (type : ActionType) → refuses (emit_action c type).0 ≡ false
unfolding emit_action
refuses-emit_action c type = ground arith

refuses-begin_start : (c : Controller) → refuses (begin_start c).0 ≡ false
unfolding begin_start start_valid validate_configuration emit_action
refuses-begin_start c = ground arith

refuses-restarted :
    (r : Status × Controller) → refuses r.0 ≡ false → refuses (restarted r).0 ≡ false
unfolding restarted
refuses-restarted (ok, c) e = e
refuses-restarted (_, c) e = e

refuses-finish_cleanup : (c : Controller) → refuses (finish_cleanup c).0 ≡ false
unfolding finish_cleanup
refuses-finish_cleanup c =
    ground (arith, refuses-restarted (begin_start (cleaned c)), refuses-begin_start (cleaned c))

refuses-emit_or_finish :
    (c : Controller) (o : Option ActionType) → refuses (emit_or_finish c o).0 ≡ false
unfolding emit_or_finish
refuses-emit_or_finish c none = refuses-finish_cleanup c
refuses-emit_or_finish c (some type) = refuses-emit_action c type

pub refuses-next_cleanup_action : (c : Controller) → refuses (next_cleanup_action c).0 ≡ false
unfolding next_cleanup_action
refuses-next_cleanup_action c = refuses-emit_or_finish c (cleanup_action c)

refuses-complete_ok :
    (type : ActionType) (rid sid : ℕ) (c : Controller)
    → Expected type c
    → refuses (complete_ok type rid sid c).0 ≡ false
unfolding complete_ok
refuses-complete_ok no_action rid sid c e = absurd e
refuses-complete_ok allocate_resources rid sid c e = refuses-emit_action _ launch_sandbox
refuses-complete_ok launch_sandbox rid sid c e = refuses-emit_action _ transfer_resources
refuses-complete_ok transfer_resources rid sid c e = refl
refuses-complete_ok _ rid sid c e = refuses-next_cleanup_action _

refuses-complete :
    (c : Controller) (result : Status) (rid sid : ℕ)
    → Asked c
    → action_result_valid result ≡ true
    → refuses (complete c result rid sid).0 ≡ false
unfolding complete action_result_valid
refuses-complete c ok rid sid a r =
    refuses-complete_ok c.action.type rid sid (clear_action c)
      (clear_action-Expected c.action.type c a.expected)
refuses-complete c _ rid sid a r = ground arith

put_closure_refused :
    (c : Controller) (r : Status × Option Closure × Heap)
    → refuses (put_closure c r).0 ≡ true
    → (put_closure c r).1 ≡ c
unfolding put_closure
put_closure_refused c (ok, copy, h) e = cc
put_closure_refused c (_, copy, h) e = refl

set_closure_refused :
    (c : Controller) (k : Option Closure) (h : Heap)
    → refuses (set_closure c k h).0 ≡ true
    → (set_closure c k h).1 ≡ c
unfolding set_closure
set_closure_refused c none h e = refl
set_closure_refused c (some k) h e = ground (arith, put_closure_refused c (clone (some k) h))

set_digest_refused :
    (c : Controller) (kind : ℕ) (digest : Option Bytes) (size : ℕ)
    → refuses (set_digest c kind digest size).0 ≡ true
    → (set_digest c kind digest size).1 ≡ c
unfolding set_digest
set_digest_refused c kind none size e = refl
set_digest_refused c kind (some digest) size e = ground arith

complete_action_refused :
    (c : Controller) (generation token : ℕ) (result : Status) (rid sid : ℕ)
    → Inv c
    → refuses (complete_action c generation token result rid sid).0 ≡ true
    → (complete_action c generation token result rid sid).1 ≡ c
unfolding complete_action
complete_action_refused c generation token result rid sid v e =
    ground (arith, refuses-complete c result rid sid, Asked-of_pending c v)

-- A call that is refused for its arguments, for the state, for a pending action, as stale or for
-- want of memory leaves the controller as it was.
pub step_refused :
    (c : Controller) (k : Call) (h : Heap)
    → Inv c
    → refuses (step c k h).0 ≡ true
    → (step c k h).1 ≡ c
unfolding step set_limit start stop restart begin_cleanup report_ready report_fault
step_refused c (Call.set_closure k) h v e = set_closure_refused c k h e
step_refused c (Call.set_digest kind digest size) h v e = set_digest_refused c kind digest size e
step_refused c (Call.set_limit kind value) h v e = ground arith
step_refused c Call.start h v e = ground (arith, refuses-begin_start c)
step_refused c Call.stop h v e = ground (arith, refuses-next_cleanup_action (cleaning c false))
step_refused c Call.restart h v e = ground (arith, refuses-next_cleanup_action (cleaning c true))
step_refused c (Call.complete_action generation token result rid sid) h v e =
    complete_action_refused c generation token result rid sid v e
step_refused c (Call.report_ready generation) h v e = ground arith
step_refused c (Call.report_fault generation kind code) h v e = ground arith

-- ===== src/Controller/Tokens.antt =====
-- Generations and tokens never come back, so that a completion counts once.
pub mod Once
use kobox.Prelude.{
  ℕ, ◌≤◌, ◌<◌, ◌≡◌, refl, Bool, true, false, Option, none, some, ◌⊎◌, inl, inr, arith, u64_max,
}
use kobox.Status.{Status, ok}
use kobox.Allocator.{Heap}
use kobox.Closure.{Closure, Bytes}
use kobox.Closure.Clone.{clone}
use kobox.Controller.{
  ActionType, no_action, allocate_resources, launch_sandbox, transfer_resources, quiesce_sandbox,
  terminate_sandbox, revoke_resources, reset_resources, reap_sandbox, release_resources, Controller,
}
use kobox.Controller.Emit.{emit_action, clear_action}
use kobox.Controller.Configure.{
  put_closure, set_closure, set_digest, set_limit, validate_configuration,
}
use kobox.Controller.Lifecycle.{
  started, start_valid, begin_start, restarted, cleaned, finish_cleanup, cleanup_action,
  emit_or_finish, next_cleanup_action, cleaning, begin_cleanup, start, stop, restart,
}
use kobox.Controller.Complete.{complete_ok, complete, complete_action, report_ready, report_fault}
use kobox.Controller.Calls.{Call, step}
use kobox.Controller.Invariant.{Flags, Inv}

-- From a controller with no pending action: an action that is pending has a new token.
pub record Emits (c d : Controller) : Type 0 where
  pub tokens : c.next_token ≤ d.next_token
  pub generations : c.generation ≤ d.generation
  pub asks : (d.action_pending ≡ false) ⊎ (c.next_token < d.next_token)

record Bounded (c : Controller) : Type 0 where
  quiet : c.action_pending ≡ false
  token_bound : c.next_token ≤ u64_max
  generation_bound : c.generation ≤ u64_max

emit_action-Emits :
    (c : Controller) (type : ActionType) → Bounded c → Emits c (emit_action c type).1
unfolding emit_action
emit_action-Emits c type b = ground arith

start_valid-Emits :
    (status : Status) (c : Controller)
    → Bounded c
    → c.generation < u64_max
    → Emits c (start_valid status c).1
unfolding start_valid started
start_valid-Emits ok c b g =
    ground (arith, emit_action-Emits (started c) allocate_resources (ground arith))
start_valid-Emits error c b g = ground arith

begin_start-Emits : (c : Controller) → Bounded c → Emits c (begin_start c).1
unfolding begin_start
begin_start-Emits c b =
    ground (arith, start_valid-Emits (validate_configuration c.configuration) c b)

restarted-Emits : (c : Controller) (r : Status × Controller) → Emits c r.1 → Emits c (restarted r).1
unfolding restarted
restarted-Emits c (ok, d) e = e
restarted-Emits c (error, d) e = ground arith

finish_cleanup-Emits : (c : Controller) → Bounded c → Emits c (finish_cleanup c).1
unfolding finish_cleanup cleaned
finish_cleanup-Emits c b = ground (
  arith,
  restarted-Emits c (begin_start (cleaned c)),
  begin_start-Emits (cleaned c) (ground arith),
)

emit_or_finish-Emits :
    (c : Controller) (o : Option ActionType) → Bounded c → Emits c (emit_or_finish c o).1
unfolding emit_or_finish
emit_or_finish-Emits c none b = finish_cleanup-Emits c b
emit_or_finish-Emits c (some type) b = emit_action-Emits c type b

next_cleanup_action-Emits : (c : Controller) → Bounded c → Emits c (next_cleanup_action c).1
unfolding next_cleanup_action
next_cleanup_action-Emits c b = emit_or_finish-Emits c (cleanup_action c) b

complete_ok-Emits :
    (type : ActionType) (rid sid : ℕ) (c : Controller)
    → Bounded c
    → Emits c (complete_ok type rid sid c).1
unfolding complete_ok
complete_ok-Emits no_action rid sid c b = ground arith
complete_ok-Emits allocate_resources rid sid c b = ground (
  arith,
  emit_action-Emits (record c { resource_set_id = rid; resources_allocated = true }) launch_sandbox
      (ground arith),
)
complete_ok-Emits launch_sandbox rid sid c b = ground (
  arith,
  emit_action-Emits (record c { sandbox_id = sid; process_started = true }) transfer_resources
      (ground arith),
)
complete_ok-Emits transfer_resources rid sid c b = ground arith
complete_ok-Emits quiesce_sandbox rid sid c b = ground (
  arith,
  next_cleanup_action-Emits (record c { process_started = false; process_exited = true })
      (ground arith),
)
complete_ok-Emits terminate_sandbox rid sid c b = ground (
  arith,
  next_cleanup_action-Emits (record c { process_started = false; process_exited = true })
      (ground arith),
)
complete_ok-Emits reap_sandbox rid sid c b = ground (
  arith,
  next_cleanup_action-Emits (record c { process_exited = false; sandbox_id = 0 }) (ground arith),
)
complete_ok-Emits revoke_resources rid sid c b =
    ground (arith, next_cleanup_action-Emits (record c { resources_revoked = true }) (ground arith))
complete_ok-Emits reset_resources rid sid c b =
    ground (arith, next_cleanup_action-Emits (record c { resources_reset = true }) (ground arith))
complete_ok-Emits release_resources rid sid c b = ground (
  arith,
  next_cleanup_action-Emits (record c { resources_allocated = false; resource_set_id = 0 })
      (ground arith),
)

pub complete-Emits :
    (c : Controller) (result : Status) (rid sid : ℕ)
    → Flags c
    → Emits c (complete c result rid sid).1
unfolding complete clear_action
complete-Emits c ok rid sid f =
    ground (arith, complete_ok-Emits c.action.type rid sid (clear_action c) (ground arith))
complete-Emits c _ rid sid f = ground arith

begin_cleanup-Emits :
    (c : Controller) (again : Bool) → Bounded c → Emits c (begin_cleanup c again).1
unfolding begin_cleanup cleaning
begin_cleanup-Emits c again b =
    ground (arith, next_cleanup_action-Emits (cleaning c again) (ground arith))

-- What a call does to the counters and to the pending action.
pub record Advance (c d : Controller) : Type 0 where
  pub tokens : c.next_token ≤ d.next_token
  pub generations : c.generation ≤ d.generation
  pub asks :
      (d.action_pending ≡ false)
      ⊎ (d.action_pending ≡ c.action_pending) × (d.action ≡ c.action)
      ⊎ (c.next_token < d.next_token)

put_closure-Advance :
    (c : Controller) (r : Status × Option Closure × Heap) → Advance c (put_closure c r).1
unfolding put_closure
put_closure-Advance c (ok, copy, h) = ground arith
put_closure-Advance c (error, copy, h) = ground arith

set_closure-Advance :
    (c : Controller) (k : Option Closure) (h : Heap) → Advance c (set_closure c k h).1
unfolding set_closure
set_closure-Advance c none h = ground arith
set_closure-Advance c (some k) h = ground (arith, put_closure-Advance c (clone (some k) h))

set_digest-Advance :
    (c : Controller) (kind : ℕ) (digest : Option Bytes) (size : ℕ)
    → Advance c (set_digest c kind digest size).1
unfolding set_digest
set_digest-Advance c kind none size = ground arith
set_digest-Advance c kind (some digest) size = ground arith

complete_action-Advance :
    (c : Controller) (generation token : ℕ) (result : Status) (rid sid : ℕ)
    → Flags c
    → Advance c (complete_action c generation token result rid sid).1
unfolding complete_action
complete_action-Advance c generation token result rid sid f =
    ground (arith, complete-Emits c result rid sid f)

pub step-Advance : (c : Controller) (k : Call) (h : Heap) → Inv c → Advance c (step c k h).1
unfolding step set_limit start stop restart report_ready report_fault
step-Advance c (Call.set_closure k) h v = set_closure-Advance c k h
step-Advance c (Call.set_digest kind digest size) h v = set_digest-Advance c kind digest size
step-Advance c (Call.set_limit kind value) h v = ground arith
step-Advance c Call.start h v = ground (arith, begin_start-Emits c)
step-Advance c Call.stop h v = ground (arith, begin_cleanup-Emits c false)
step-Advance c Call.restart h v = ground (arith, begin_cleanup-Emits c true)
step-Advance c (Call.complete_action generation token result rid sid) h v =
    complete_action-Advance c generation token result rid sid v.flags
step-Advance c (Call.report_ready generation) h v = ground arith
step-Advance c (Call.report_fault generation kind code) h v = ground arith

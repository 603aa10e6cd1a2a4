-- ===== src/Controller/Graph.antt =====
-- The state diagram of the controller (src/controller/controller.c).
use kobox.Prelude.{
  ℕ, ◌≡◌, refl, sym, subst, Bool, true, false, false≢true, Option, none, some, arith,
}
use kobox.Status.{Status, ok}
use kobox.Allocator.{Heap}
use kobox.Closure.{Closure, Bytes}
use kobox.Closure.Clone.{clone}
use kobox.Controller.{
  State, idle, starting, handshaking, running, stopping, faulted, ActionType, no_action,
  allocate_resources, launch_sandbox, transfer_resources, quiesce_sandbox, terminate_sandbox,
  revoke_resources, reset_resources, reap_sandbox, release_resources, Controller,
}
use kobox.Controller.Emit.{emit_action, clear_action}
use kobox.Controller.Configure.{
  put_closure, set_closure, set_digest, set_limit, validate_configuration,
}
use kobox.Controller.Lifecycle.{
  started, start_valid, begin_start, restarted, cleaned, finish_cleanup, cleanup_action,
  emit_or_finish, next_cleanup_action, cleaning, begin_cleanup, can_stop, start, stop, restart,
}
use kobox.Controller.Complete.{complete_ok, complete, complete_action, report_ready, report_fault}
use kobox.Controller.Calls.{Call, step}
use kobox.Controller.Invariant.{Inv, Asked, Expected, Resting}
use kobox.Controller.Invariant.Kept.{Asked-of_pending, Rests-of_quiet, clear_action-Expected}

-- The moves of the state diagram, and staying.
abbrev pub edge : State → State → Bool
edge idle idle = true
edge idle starting = true
edge starting starting = true
edge starting handshaking = true
edge starting faulted = true
edge handshaking handshaking = true
edge handshaking running = true
edge handshaking stopping = true
edge handshaking faulted = true
edge running running = true
edge running stopping = true
edge running faulted = true
edge stopping stopping = true
edge stopping idle = true
edge stopping starting = true
edge stopping faulted = true
edge faulted faulted = true
edge faulted stopping = true
edge faulted idle = true
edge faulted starting = true
edge _ _ = false

-- Emitting fails into a fault, and else stays.
emit_action-edge :
    (c : Controller) (type : ActionType) (s : State)
    → edge s c.state ≡ true
    → edge s faulted ≡ true
    → edge s (emit_action c type).1.state ≡ true
unfolding emit_action
emit_action-edge c type s e f = ground arith

-- A start that is tried from `idle`, and one that is tried at a restart.
begin_start-edge : (c : Controller) → c.state ≡ idle → edge idle (begin_start c).1.state ≡ true
unfolding begin_start start_valid started emit_action validate_configuration
begin_start-edge c i = ground arith

restarted-edge :
    (s : State) (r : Status × Controller)
    → edge idle r.1.state ≡ true
    → edge s idle ≡ true
    → edge s starting ≡ true
    → edge s faulted ≡ true
    → edge s (restarted r).1.state ≡ true
unfolding restarted
restarted-edge s (ok, c) e i st f = ground arith
restarted-edge s (_, c) e i st f = f

-- The cleanup goes on, or ends in `idle`, in the next start or in a fault.
emit_or_finish-edge :
    (c : Controller) (o : Option ActionType)
    → c.state ≡ stopping
    → edge stopping (emit_or_finish c o).1.state ≡ true
unfolding emit_or_finish finish_cleanup cleaned
emit_or_finish-edge c none s =
    ground (arith, restarted-edge stopping (begin_start (cleaned c)), begin_start-edge (cleaned c))
emit_or_finish-edge c (some type) s = emit_action-edge c type stopping (rw s) refl

-- With a process to end, the cleanup asks for its end.
next_cleanup_action-edge :
    (c : Controller) (s : State)
    → c.state ≡ stopping
    → c.process_started ≡ true
    → edge s stopping ≡ true
    → edge s faulted ≡ true
    → edge s (next_cleanup_action c).1.state ≡ true
unfolding next_cleanup_action cleanup_action emit_or_finish emit_action
next_cleanup_action-edge c s st p e f = ground arith

edge-faulted : (s : State) → edge stopping s ≡ true → edge faulted s ≡ true
edge-faulted s e = ground arith

cleanup-edge :
    (c : Controller) → c.state ≡ stopping → edge stopping (next_cleanup_action c).1.state ≡ true
unfolding next_cleanup_action
cleanup-edge c s = emit_or_finish-edge c (cleanup_action c) s

cleanup-edge_at :
    (s : State) (c : Controller)
    → s ≡ stopping
    → c.state ≡ stopping
    → edge s (next_cleanup_action c).1.state ≡ true
cleanup-edge_at s c e p =
    subst (λ t. edge t (next_cleanup_action c).1.state ≡ true) (sym e) (cleanup-edge c p)

begin_cleanup-edge :
    (c : Controller) (again : Bool) (s : State)
    → Resting s c
    → edge s stopping ≡ true
    → edge s (begin_cleanup c again).1.state ≡ true
unfolding begin_cleanup cleaning
begin_cleanup-edge c again handshaking r e = next_cleanup_action-edge _ handshaking refl r refl refl
begin_cleanup-edge c again running r e = next_cleanup_action-edge _ running refl r refl refl
begin_cleanup-edge c again faulted r e = edge-faulted _ (cleanup-edge (cleaning c again) refl)
begin_cleanup-edge c again idle r e = absurd (false≢true e)
begin_cleanup-edge c again _ r e = absurd r

complete_ok-edge :
    (type : ActionType) (rid sid : ℕ) (c : Controller)
    → Expected type c
    → edge c.state (complete_ok type rid sid c).1.state ≡ true
unfolding complete_ok
complete_ok-edge no_action rid sid c e = absurd e
complete_ok-edge allocate_resources rid sid c e =
    emit_action-edge _ launch_sandbox c.state (rw e.0) (rw e.0)
complete_ok-edge launch_sandbox rid sid c e =
    emit_action-edge _ transfer_resources c.state (rw e.0) (rw e.0)
complete_ok-edge transfer_resources rid sid c e = rw e.0
complete_ok-edge quiesce_sandbox rid sid c e = cleanup-edge_at c.state _ e.0 e.0
complete_ok-edge terminate_sandbox rid sid c e = cleanup-edge_at c.state _ e.0 e.0
complete_ok-edge revoke_resources rid sid c e = cleanup-edge_at c.state _ e.0 e.0
complete_ok-edge reset_resources rid sid c e = cleanup-edge_at c.state _ e.0 e.0
complete_ok-edge reap_sandbox rid sid c e = cleanup-edge_at c.state _ e.0 e.0
complete_ok-edge release_resources rid sid c e = cleanup-edge_at c.state _ e.0 e.0

-- An action is pending in a state that may fail.
faulted-edge : (type : ActionType) (c : Controller) → Expected type c → edge c.state faulted ≡ true
faulted-edge no_action c e = absurd e
faulted-edge allocate_resources c e = rw e.0
faulted-edge _ c e = rw e.0

complete-edge :
    (c : Controller) (result : Status) (rid sid : ℕ)
    → Asked c
    → edge c.state (complete c result rid sid).1.state ≡ true
unfolding complete clear_action
complete-edge c ok rid sid a =
    complete_ok-edge c.action.type rid sid (clear_action c)
      (clear_action-Expected c.action.type c a.expected)
complete-edge c _ rid sid a = faulted-edge c.action.type c a.expected

put_closure-edge :
    (c : Controller) (r : Status × Option Closure × Heap) → (put_closure c r).1.state ≡ c.state
unfolding put_closure
put_closure-edge c (ok, copy, h) = refl
put_closure-edge c (_, copy, h) = refl

edge_refl : (c : Controller) → Inv c → edge c.state c.state ≡ true
edge_refl c v = ground (arith, Rests-of_quiet c v, Asked-of_pending c v)

set_closure-edge :
    (c : Controller) (k : Option Closure) (h : Heap) → (set_closure c k h).1.state ≡ c.state
unfolding set_closure
set_closure-edge c none h = refl
set_closure-edge c (some k) h = ground (arith, put_closure-edge c (clone (some k) h))

set_digest-edge :
    (c : Controller) (kind : ℕ) (digest : Option Bytes) (size : ℕ)
    → (set_digest c kind digest size).1.state ≡ c.state
unfolding set_digest
set_digest-edge c kind none size = refl
set_digest-edge c kind (some digest) size = ground arith

begin_cleanup-edge_of_quiet :
    (c : Controller) (again : Bool)
    → Inv c
    → c.action_pending ≡ false
    → can_stop c.state ≡ true
    → edge c.state (begin_cleanup c again).1.state ≡ true
unfolding can_stop
begin_cleanup-edge_of_quiet c again v p s =
    begin_cleanup-edge c again c.state (Rests-of_quiet c v p).resting (ground arith)

complete_action-edge :
    (c : Controller) (generation token : ℕ) (result : Status) (rid sid : ℕ)
    → Inv c
    → edge c.state (complete_action c generation token result rid sid).1.state ≡ true
unfolding complete_action
complete_action-edge c generation token result rid sid v =
    ground (arith, edge_refl c v, complete-edge c result rid sid, Asked-of_pending c v)

-- Every call stays in its state or moves along an edge of the diagram.
pub step-edge :
    (c : Controller) (k : Call) (h : Heap) → Inv c → edge c.state (step c k h).1.state ≡ true
unfolding step set_limit start stop restart report_ready report_fault
step-edge c (Call.set_closure k) h v = rw (set_closure-edge c k h) (edge_refl c v)
step-edge c (Call.set_digest kind digest size) h v =
    rw (set_digest-edge c kind digest size) (edge_refl c v)
step-edge c (Call.set_limit kind value) h v = ground (arith, edge_refl c v)
step-edge c Call.start h v = ground (arith, edge_refl c v, begin_start-edge c)
step-edge c Call.stop h v = ground (arith, edge_refl c v, begin_cleanup-edge_of_quiet c false v)
step-edge c Call.restart h v = ground (arith, edge_refl c v, begin_cleanup-edge_of_quiet c true v)
step-edge c (Call.complete_action generation token result rid sid) h v =
    complete_action-edge c generation token result rid sid v
step-edge c (Call.report_ready generation) h v = ground (arith, edge_refl c v)
step-edge c (Call.report_fault generation kind code) h v = ground (arith, edge_refl c v)

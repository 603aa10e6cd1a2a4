-- ===== src/Controller/Host/Agreement.antt =====
-- The controller's flags agree with the host, and each pending action is one that the host permits.
use kobox.Prelude.{
  ℕ, ◌≡◌, refl, Bool, true, false, Option, none, some, List, [], ◌∷◌, arith, Option-cases, inl, inr,
  Bool-cases, if◌then◌else◌, sym, subst,
}
use kobox.Status.{Status, ok}
use kobox.Allocator.{Heap}
use kobox.Closure.{Closure, Bytes}
use kobox.Closure.Clone.{clone}
use kobox.Controller.{ActionType, Controller}
use kobox.Controller.Emit.{zero_action, emit_action, clear_action}
use kobox.Controller.Configure.{
  fresh, put_closure, set_closure, set_digest, set_limit, validate_configuration,
}
use kobox.Controller.Lifecycle.{
  started, start_valid, begin_start, restarted, cleaned, finish_cleanup, cleanup_action,
  emit_or_finish, next_cleanup_action, cleaning, begin_cleanup, start, stop, restart,
}
use kobox.Controller.Complete.{
  is_ok, complete_ok, complete, ids_valid, report_valid, complete_action, report_ready,
  report_fault,
}
use kobox.Controller.Calls.{Call, step}
use kobox.Controller.Invariant.{Inv, Flags, Asked, Expected}
use kobox.Controller.Invariant.Emitted.{Clean, cleaned-Clean, cleanup_action-Clean}
use kobox.Controller.Invariant.Kept.{
  step-Inv, fresh-Inv, Asked-of_pending, Rests-of_quiet, clear_action-Flags, clear_action-Expected,
}
use kobox.Controller.Refusal.{refuses, step_refused}
use kobox.Controller.Host.{Host, permits, perform, observe, host_step, empty_host, play}

record Agrees (c : Controller) (w : Host) : Type 0 where
  granted : w.granted ≡ c.resources_allocated
  living : w.living ≡ c.process_started
  dead : w.dead ≡ c.process_exited
  revoked : w.granted ≡ true → w.revoked ≡ c.resources_revoked
  wiped : w.granted ≡ true → w.wiped ≡ c.resources_reset

Expected-permits :
    (type : ActionType) (c : Controller) (w : Host)
    → Flags c
    → Agrees c w
    → Expected type c
    → permits w type ≡ true
unfolding permits
Expected-permits ActionType.no_action c w f a e = absurd e
Expected-permits ActionType.allocate_resources c w f a e = ground arith
Expected-permits _ c w f a e = ground arith

emit_action-Agrees :
    (c : Controller) (type : ActionType) (w : Host) → Agrees c w → Agrees (emit_action c type).1 w
unfolding emit_action
emit_action-Agrees c type w a = ground arith

start_valid-Agrees :
    (status : Status) (c : Controller) (w : Host)
    → Clean c
    → Agrees c w
    → Agrees (start_valid status c).1 w
unfolding start_valid started
start_valid-Agrees ok c w k a =
    emit_action-Agrees (started c) ActionType.allocate_resources w (unfold started in ground arith)
start_valid-Agrees _ c w k a = a

begin_start-Agrees : (c : Controller) (w : Host) → Clean c → Agrees c w → Agrees (begin_start c).1 w
unfolding begin_start
begin_start-Agrees c w k a =
    ground (arith, start_valid-Agrees (validate_configuration c.configuration) c w k a)

restarted-Agrees : (r : Status × Controller) (w : Host) → Agrees r.1 w → Agrees (restarted r).1 w
unfolding restarted
restarted-Agrees (ok, c) w a = a
restarted-Agrees (_, c) w a = ground arith

cleaned-Agrees : (c : Controller) (w : Host) → Agrees c w → Agrees (cleaned c) w
unfolding cleaned
cleaned-Agrees c w a = ground arith

finish_cleanup-Agrees :
    (c : Controller) (w : Host) → Clean c → Agrees c w → Agrees (finish_cleanup c).1 w
unfolding finish_cleanup
finish_cleanup-Agrees c w k a = ground (
  arith,
  restarted-Agrees (begin_start (cleaned c)) w,
  begin_start-Agrees (cleaned c) w (cleaned-Clean c k) (cleaned-Agrees c w a),
  cleaned-Agrees c w a,
)

next_cleanup_action-Agrees :
    (c : Controller) (w : Host)
    → Flags c
    → c.action ≡ zero_action
    → c.action_pending ≡ false
    → Agrees c w
    → Agrees (next_cleanup_action c).1 w
unfolding next_cleanup_action emit_or_finish
next_cleanup_action-Agrees c w f z p a = elim (Option-cases (cleanup_action c)) [
  | inl e ↦ rw e (finish_cleanup-Agrees c w (cleanup_action-Clean c f z p e) a)
  | inr (type, e) ↦ rw e (emit_action-Agrees c type w a)
]

complete_ok-Agrees :
    (type : ActionType) (rid sid : ℕ) (c : Controller) (w : Host)
    → Flags c
    → c.action ≡ zero_action
    → c.action_pending ≡ false
    → Expected type c
    → ids_valid type rid sid ≡ true
    → Agrees c w
    → Agrees (complete_ok type rid sid c).1 (perform w type)
unfolding complete_ok perform ids_valid
complete_ok-Agrees ActionType.no_action rid sid c w f z p e i a = absurd e
complete_ok-Agrees ActionType.allocate_resources rid sid c w f z p e i a =
    emit_action-Agrees _ ActionType.launch_sandbox _ (ground arith)
complete_ok-Agrees ActionType.launch_sandbox rid sid c w f z p e i a =
    emit_action-Agrees _ ActionType.transfer_resources _ (ground arith)
complete_ok-Agrees ActionType.transfer_resources rid sid c w f z p e i a = ground arith
complete_ok-Agrees ActionType.quiesce_sandbox rid sid c w f z p e i a =
    next_cleanup_action-Agrees _ _ (ground arith) z p (ground arith)
complete_ok-Agrees _ rid sid c w f z p e i a =
    next_cleanup_action-Agrees _ _ (ground arith) z p (ground arith)

clear_action-Agrees : (c : Controller) (w : Host) → Agrees c w → Agrees (clear_action c) w
unfolding clear_action
clear_action-Agrees c w a = ground arith

complete-Agrees :
    (c : Controller) (result : Status) (rid sid : ℕ) (w : Host)
    → Flags c
    → Asked c
    → report_valid c.action.type result rid sid ≡ true
    → Agrees c w
    → Agrees (complete c result rid sid).1 (if is_ok result then perform w c.action.type else w)
unfolding complete report_valid
complete-Agrees c ok rid sid w f a r g =
    unfold clear_action in
    complete_ok-Agrees c.action.type rid sid (clear_action c) w (clear_action-Flags c f) refl refl
      (clear_action-Expected c.action.type c a.expected) r (clear_action-Agrees c w g)
complete-Agrees c _ rid sid w f a r g = ground arith

complete_action-Agrees :
    (c : Controller) (generation token : ℕ) (result : Status) (rid sid : ℕ) (w : Host)
    → Inv c
    → refuses (complete_action c generation token result rid sid).0 ≡ false
    → Agrees c w
    → Agrees
        (complete_action c generation token result rid sid).1
        (if is_ok result then perform w c.action.type else w)
unfolding complete_action
complete_action-Agrees c generation token result rid sid w v e a =
    ground (arith, complete-Agrees c result rid sid w v.flags, Asked-of_pending c v)

begin_cleanup-Agrees :
    (c : Controller) (again : Bool) (w : Host)
    → Inv c
    → c.action_pending ≡ false
    → Agrees c w
    → Agrees (begin_cleanup c again).1 w
unfolding begin_cleanup cleaning
begin_cleanup-Agrees c again w v p a =
    next_cleanup_action-Agrees _ w (ground (arith, v.flags)) (Rests-of_quiet c v p).no_action p
      (ground arith)

start-Agrees : (c : Controller) (w : Host) → Inv c → Agrees c w → Agrees (start c).1 w
unfolding start
start-Agrees c w v a = ground (arith, begin_start-Agrees c w)

stop-Agrees : (c : Controller) (w : Host) → Inv c → Agrees c w → Agrees (stop c).1 w
unfolding stop
stop-Agrees c w v a = ground (arith, begin_cleanup-Agrees c false w v)

restart-Agrees : (c : Controller) (w : Host) → Inv c → Agrees c w → Agrees (restart c).1 w
unfolding restart
restart-Agrees c w v a = ground (arith, begin_cleanup-Agrees c true w v)

put_closure-Agrees :
    (c : Controller) (r : Status × Option Closure × Heap) (w : Host)
    → Agrees c w
    → Agrees (put_closure c r).1 w
unfolding put_closure
put_closure-Agrees c (ok, copy, h) w a = ground arith
put_closure-Agrees c (_, copy, h) w a = a

set_closure-Agrees :
    (c : Controller) (k : Option Closure) (h : Heap) (w : Host)
    → Agrees c w
    → Agrees (set_closure c k h).1 w
unfolding set_closure
set_closure-Agrees c none h w a = a
set_closure-Agrees c (some k) h w a = ground (arith, put_closure-Agrees c (clone (some k) h) w a)

set_digest-Agrees :
    (c : Controller) (kind : ℕ) (digest : Option Bytes) (size : ℕ) (w : Host)
    → Agrees c w
    → Agrees (set_digest c kind digest size).1 w
unfolding set_digest
set_digest-Agrees c kind none size w a = a
set_digest-Agrees c kind (some digest) size w a = ground arith

-- A call that the controller takes keeps the agreement.
observe-Agrees :
    (c : Controller) (k : Call) (h : Heap) (w : Host)
    → Inv c
    → refuses (step c k h).0 ≡ false
    → Agrees c w
    → Agrees (step c k h).1 (observe c k w)
unfolding step observe set_limit report_ready report_fault
observe-Agrees c (Call.set_closure k) h w v e a = set_closure-Agrees c k h w a
observe-Agrees c (Call.set_digest kind digest size) h w v e a =
    set_digest-Agrees c kind digest size w a
observe-Agrees c (Call.set_limit kind value) h w v e a = ground arith
observe-Agrees c Call.start h w v e a = start-Agrees c w v a
observe-Agrees c Call.stop h w v e a = stop-Agrees c w v a
observe-Agrees c Call.restart h w v e a = restart-Agrees c w v a
observe-Agrees c (Call.complete_action generation token result rid sid) h w v e a =
    complete_action-Agrees c generation token result rid sid w v e a
observe-Agrees c (Call.report_ready generation) h w v e a = ground arith
observe-Agrees c (Call.report_fault generation kind code) h w v e a = ground arith

step-Agrees :
    (c : Controller) (k : Call) (h : Heap) (w : Host)
    → Inv c
    → Agrees c w
    → Agrees (step c k h).1 (host_step c k h w)
unfolding host_step
step-Agrees c k h w v a = elim (Bool-cases (refuses (step c k h).0)) [
  | inl turned ↦ rw turned (subst (λ d. Agrees d w) (sym (step_refused c k h v turned)) a)
  | inr taken ↦ rw taken (observe-Agrees c k h w v taken a)
]

play-permits :
    (c : Controller) (h : Heap) (w : Host) (ks : List Call)
    → Inv c
    → Agrees c w
    → (play c h w ks).0.action_pending ≡ true
    → permits (play c h w ks).1 (play c h w ks).0.action.type ≡ true
unfolding play
play-permits c h w [] v a p =
    Expected-permits c.action.type c w v.flags a (Asked-of_pending c v p).expected
play-permits c h w (k ∷ ks) v a p =
    let (status, c', h') = step c k h in
    play-permits c' h' (host_step c k h w) ks (step-Inv c k h v) (step-Agrees c k h w v a) p

-- After any calls on a new controller, whatever they return, an action that is pending is one that
-- the host's real state permits: nothing is launched, transferred or ended that is not there, no
-- resources are revoked under a living process, nothing is reset or released before it is revoked,
-- and nothing is released before the process is reaped.
pub pending_permitted :
    (h : Heap) (ks : List Call)
    → (play fresh h empty_host ks).0.action_pending ≡ true
    → permits (play fresh h empty_host ks).1 (play fresh h empty_host ks).0.action.type ≡ true
pending_permitted h ks p = play-permits fresh h empty_host ks fresh-Inv (ground arith) p

-- ===== src/Controller/Invariant/Kept.antt =====
-- Every call keeps the invariant.
use kobox.Prelude.{ℕ, ◌≡◌, refl, Bool, true, false, Option, none, some, List, [], ◌∷◌, subst, arith}
use kobox.Status.{Status, ok}
use kobox.Allocator.{Heap}
use kobox.Closure.{Closure, Bytes}
use kobox.Closure.Clone.{clone}
use kobox.Controller.{
  FaultKind, ActionType, no_action, allocate_resources, launch_sandbox, transfer_resources,
  quiesce_sandbox, terminate_sandbox, revoke_resources, reset_resources, reap_sandbox,
  release_resources, idle, Controller,
}
use kobox.Controller.Emit.{zero_action, clear_action}
use kobox.Controller.Configure.{put_closure, set_closure, set_digest, set_limit, fresh}
use kobox.Controller.Lifecycle.{cleaning, begin_cleanup, start, stop, restart}
use kobox.Controller.Complete.{
  complete_ok, complete, report_valid, ids_valid, complete_action, report_ready, report_fault,
}
use kobox.Controller.Calls.{Call, step, run}
use kobox.Controller.Invariant.{Flags, Expected, Phase, Inv, Rests, Asked}
use kobox.Controller.Invariant.Emitted.{emit_action-Inv, begin_start-Inv, next_cleanup_action-Inv}

put_closure-Inv :
    (c : Controller) (r : Status × Option Closure × Heap)
    → Inv c
    → c.action_pending ≡ false
    → c.state ≡ idle
    → Inv (put_closure c r).1
unfolding put_closure
put_closure-Inv c (ok, copy, h) v p i = ground arith
put_closure-Inv c (error, copy, h) v p i = v

set_closure-Inv :
    (c : Controller) (k : Option Closure) (h : Heap) → Inv c → Inv (set_closure c k h).1
unfolding set_closure
set_closure-Inv c none h v = v
set_closure-Inv c (some k) h v = ground (arith, put_closure-Inv c (clone (some k) h) v)

set_digest-Inv :
    (c : Controller) (kind : ℕ) (digest : Option Bytes) (size : ℕ)
    → Inv c
    → Inv (set_digest c kind digest size).1
unfolding set_digest
set_digest-Inv c kind none size v = v
set_digest-Inv c kind (some digest) size v = ground arith

set_limit-Inv : (c : Controller) (kind value : ℕ) → Inv c → Inv (set_limit c kind value).1
unfolding set_limit
set_limit-Inv c kind value v = ground arith

start-Inv : (c : Controller) → Inv c → Inv (start c).1
unfolding start
start-Inv c v = ground (arith, begin_start-Inv c)

pub Rests-of_quiet : (c : Controller) → Inv c → c.action_pending ≡ false → Rests c
Rests-of_quiet c v p = subst (λ b. Phase b c) p v.phase

pub Asked-of_pending : (c : Controller) → Inv c → c.action_pending ≡ true → Asked c
Asked-of_pending c v p = subst (λ b. Phase b c) p v.phase

begin_cleanup-Inv :
    (c : Controller) (again : Bool)
    → Inv c
    → c.action_pending ≡ false
    → Inv (begin_cleanup c again).1
unfolding begin_cleanup cleaning
begin_cleanup-Inv c again v p =
    next_cleanup_action-Inv _ (ground arith) (Rests-of_quiet c v p).no_action p refl

stop-Inv : (c : Controller) → Inv c → Inv (stop c).1
unfolding stop
stop-Inv c v = ground (arith, begin_cleanup-Inv c false v)

restart-Inv : (c : Controller) → Inv c → Inv (restart c).1
unfolding restart
restart-Inv c v = ground (arith, begin_cleanup-Inv c true v)

report_ready-Inv : (c : Controller) (generation : ℕ) → Inv c → Inv (report_ready c generation).1
unfolding report_ready
report_ready-Inv c generation v = ground arith

report_fault-Inv :
    (c : Controller) (generation : ℕ) (kind : FaultKind) (code : ℕ)
    → Inv c
    → Inv (report_fault c generation kind code).1
unfolding report_fault
report_fault-Inv c generation kind code v = ground arith

complete_ok-Inv :
    (type : ActionType) (rid sid : ℕ) (c : Controller)
    → Flags c
    → c.action ≡ zero_action
    → c.action_pending ≡ false
    → Expected type c
    → ids_valid type rid sid ≡ true
    → Inv (complete_ok type rid sid c).1
unfolding complete_ok ids_valid
complete_ok-Inv no_action rid sid c f a p e i = absurd e
complete_ok-Inv allocate_resources rid sid c f a p e i =
    emit_action-Inv _ launch_sandbox (ground arith) a p (ground arith)
complete_ok-Inv launch_sandbox rid sid c f a p e i =
    emit_action-Inv _ transfer_resources (ground arith) a p (ground arith)
complete_ok-Inv transfer_resources rid sid c f a p e i = ground arith
complete_ok-Inv quiesce_sandbox rid sid c f a p e i =
    next_cleanup_action-Inv _ (ground arith) a p e.0
complete_ok-Inv terminate_sandbox rid sid c f a p e i =
    next_cleanup_action-Inv _ (ground arith) a p e.0
complete_ok-Inv revoke_resources rid sid c f a p e i =
    next_cleanup_action-Inv _ (ground arith) a p e.0
complete_ok-Inv reset_resources rid sid c f a p e i =
    next_cleanup_action-Inv _ (ground arith) a p e.0
complete_ok-Inv reap_sandbox rid sid c f a p e i = next_cleanup_action-Inv _ (ground arith) a p e.0
complete_ok-Inv release_resources rid sid c f a p e i =
    next_cleanup_action-Inv _ (ground arith) a p e.0

pub clear_action-Expected :
    (type : ActionType) (c : Controller) → Expected type c → Expected type (clear_action c)
unfolding clear_action
clear_action-Expected no_action c e = e
clear_action-Expected _ c e = e

pub clear_action-Flags : (c : Controller) → Flags c → Flags (clear_action c)
unfolding clear_action
clear_action-Flags c f = ground arith

complete-Inv :
    (c : Controller) (result : Status) (rid sid : ℕ)
    → Flags c
    → Asked c
    → report_valid c.action.type result rid sid ≡ true
    → Inv (complete c result rid sid).1
unfolding complete report_valid
complete-Inv c ok rid sid f a r =
    unfold clear_action in
    complete_ok-Inv c.action.type rid sid (clear_action c) (clear_action-Flags c f) refl refl
      (clear_action-Expected c.action.type c a.expected) r
complete-Inv c _ rid sid f a r = ground arith

pub complete_action-Inv :
    (c : Controller) (generation token : ℕ) (result : Status) (rid sid : ℕ)
    → Inv c
    → Inv (complete_action c generation token result rid sid).1
unfolding complete_action
complete_action-Inv c generation token result rid sid v =
    ground (arith, complete-Inv c result rid sid v.flags, Asked-of_pending c v)

pub fresh-Inv : Inv fresh
fresh-Inv = ground arith

-- Every call keeps the invariant, whatever it returns.
pub step-Inv : (c : Controller) (k : Call) (h : Heap) → Inv c → Inv (step c k h).1
unfolding step
step-Inv c (Call.set_closure k) h v = set_closure-Inv c k h v
step-Inv c (Call.set_digest kind digest size) h v = set_digest-Inv c kind digest size v
step-Inv c (Call.set_limit kind value) h v = set_limit-Inv c kind value v
step-Inv c Call.start h v = start-Inv c v
step-Inv c Call.stop h v = stop-Inv c v
step-Inv c Call.restart h v = restart-Inv c v
step-Inv c (Call.complete_action generation token result rid sid) h v =
    complete_action-Inv c generation token result rid sid v
step-Inv c (Call.report_ready generation) h v = report_ready-Inv c generation v
step-Inv c (Call.report_fault generation kind code) h v = report_fault-Inv c generation kind code v

-- A controller that satisfies the invariant satisfies it after any calls, whatever they return.
pub run-Inv : (c : Controller) (h : Heap) (ks : List Call) → Inv c → Inv (run c h ks).0
unfolding run
run-Inv c h [] v = v
run-Inv c h (k ∷ ks) v = let (status, c', h') = step c k h in run-Inv c' h' ks (step-Inv c k h v)

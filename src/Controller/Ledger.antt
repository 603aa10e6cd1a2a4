-- ===== src/Controller/Ledger.antt =====
-- The bytes that a controller holds, from its creation to its destruction.
use kobox.Prelude.{
  ℕ, ◌+◌, ◌-◌, ◌≡◌, refl, ap, sym, ◌∙◌, Bool, true, false, List, [], ◌∷◌, Option, none, some, arith,
}
use kobox.Status.{Status, ok}
use kobox.Allocator.{Heap, allocate, deallocate}
use kobox.Closure.{Closure, Bytes}
use kobox.Closure.Release
use kobox.Closure.Clone.{clone}
use kobox.Closure.Clone.Balance.{held, CloneOutcome, clone-CloneOutcome, live-destroy}
use kobox.Controller.{
  ActionType, no_action, allocate_resources, launch_sandbox, transfer_resources, Controller,
  controller_size,
}
use kobox.Controller.Emit.{emit_action, clear_action}
use kobox.Controller.Configure.{
  validate_configuration, create, destroy, put_closure, set_closure, set_digest, set_limit,
}
use kobox.Controller.Lifecycle.{
  started, start_valid, begin_start, restarted, cleaned, finish_cleanup, cleanup_action,
  emit_or_finish, next_cleanup_action, cleaning, begin_cleanup, start, stop, restart,
}
use kobox.Controller.Complete.{complete_ok, complete, complete_action, report_ready, report_fault}
use kobox.Controller.Calls.{Call, step, run}

-- The ledger stands at `base`, the controller and its closure on top.
abbrev Owns : ℕ → Controller → Heap → Type 0
Owns base c h = h.live ≡ base + controller_size + held c.configuration.closure

live-release : (o : Option Closure) (h : Heap) → (Release.destroy o h).live ≡ h.live - held o
unfolding Release.destroy
live-release none h = omega arith
live-release (some c) h = live-destroy c h

put_closure-Owns :
    (base : ℕ) (c : Controller) (source : Closure) (h : Heap) (r : Status × Option Closure × Heap)
    → CloneOutcome source h r
    → Owns base c h
    → Owns base (put_closure c r).1 (put_closure c r).2
unfolding put_closure
put_closure-Owns base c source h (ok, none, h') k o = absurd k
put_closure-Owns base c source h (ok, some copy, h') k o =
    omega (arith, live-release c.configuration.closure h', k.2)
put_closure-Owns base c source h (_, copy, h') k o = omega (arith, k.1)

set_closure-Owns :
    (base : ℕ) (c : Controller) (k : Option Closure) (h : Heap)
    → Owns base c h
    → Owns base (set_closure c k h).1 (set_closure c k h).2
unfolding set_closure
set_closure-Owns base c none h o = o
set_closure-Owns base c (some k) h o =
    ground (arith, put_closure-Owns base c k h (clone (some k) h) (clone-CloneOutcome k h) o)

configuration-emit_action :
    (c : Controller) (type : ActionType) → (emit_action c type).1.configuration ≡ c.configuration
unfolding emit_action
configuration-emit_action c type = ground arith

configuration-begin_start : (c : Controller) → (begin_start c).1.configuration ≡ c.configuration
unfolding begin_start start_valid started emit_action validate_configuration
configuration-begin_start c = ground arith

configuration-restarted :
    (r : Status × Controller) → (restarted r).1.configuration ≡ r.1.configuration
unfolding restarted
configuration-restarted (ok, c) = refl
configuration-restarted (_, c) = refl

configuration-finish_cleanup :
    (c : Controller) → (finish_cleanup c).1.configuration ≡ c.configuration
unfolding finish_cleanup cleaned
configuration-finish_cleanup c = ground (
  arith,
  configuration-restarted (begin_start (cleaned c)),
  configuration-begin_start (cleaned c),
)

configuration-emit_or_finish :
    (c : Controller) (o : Option ActionType)
    → (emit_or_finish c o).1.configuration ≡ c.configuration
unfolding emit_or_finish
configuration-emit_or_finish c none = configuration-finish_cleanup c
configuration-emit_or_finish c (some type) = configuration-emit_action c type

pub configuration-next_cleanup_action :
    (c : Controller) → (next_cleanup_action c).1.configuration ≡ c.configuration
unfolding next_cleanup_action
configuration-next_cleanup_action c = configuration-emit_or_finish c (cleanup_action c)

configuration-complete_ok :
    (type : ActionType) (rid sid : ℕ) (c : Controller)
    → (complete_ok type rid sid c).1.configuration ≡ c.configuration
unfolding complete_ok
configuration-complete_ok no_action rid sid c = refl
configuration-complete_ok allocate_resources rid sid c = configuration-emit_action _ launch_sandbox
configuration-complete_ok launch_sandbox rid sid c = configuration-emit_action _ transfer_resources
configuration-complete_ok transfer_resources rid sid c = refl
configuration-complete_ok _ rid sid c = configuration-next_cleanup_action _

configuration-complete :
    (c : Controller) (result : Status) (rid sid : ℕ)
    → (complete c result rid sid).1.configuration ≡ c.configuration
unfolding complete clear_action
configuration-complete c ok rid sid =
    configuration-complete_ok c.action.type rid sid (clear_action c)
configuration-complete c _ rid sid = refl

configuration-complete_action :
    (c : Controller) (generation token : ℕ) (result : Status) (rid sid : ℕ)
    → (complete_action c generation token result rid sid).1.configuration ≡ c.configuration
unfolding complete_action
configuration-complete_action c generation token result rid sid =
    ground (arith, configuration-complete c result rid sid)

configuration-begin_cleanup :
    (c : Controller) (again : Bool) → (begin_cleanup c again).1.configuration ≡ c.configuration
unfolding begin_cleanup cleaning
configuration-begin_cleanup c again = configuration-next_cleanup_action (cleaning c again)

set_digest-Owns :
    (base : ℕ) (c : Controller) (kind : ℕ) (digest : Option Bytes) (size : ℕ) (h : Heap)
    → Owns base c h
    → Owns base (set_digest c kind digest size).1 h
unfolding set_digest
set_digest-Owns base c kind none size h o = o
set_digest-Owns base c kind (some digest) size h o = ground arith

keeps-Owns :
    (base : ℕ) (c d : Controller) (h : Heap)
    → d.configuration ≡ c.configuration
    → Owns base c h
    → Owns base d h
keeps-Owns base c d h e o = o ∙ ap (λ k. base + controller_size + held k.closure) (sym e)

step-Owns :
    (base : ℕ) (c : Controller) (k : Call) (h : Heap)
    → Owns base c h
    → Owns base (step c k h).1 (step c k h).2
unfolding step set_limit start stop restart report_ready report_fault
step-Owns base c (Call.set_closure k) h o = set_closure-Owns base c k h o
step-Owns base c (Call.set_digest kind digest size) h o =
    set_digest-Owns base c kind digest size h o
step-Owns base c (Call.set_limit kind value) h o = ground arith
step-Owns base c Call.start h o =
    keeps-Owns base c (start c).1 h (ground (arith, configuration-begin_start c)) o
step-Owns base c Call.stop h o =
    keeps-Owns base c (stop c).1 h (ground (arith, configuration-begin_cleanup c false)) o
step-Owns base c Call.restart h o =
    keeps-Owns base c (restart c).1 h (ground (arith, configuration-begin_cleanup c true)) o
step-Owns base c (Call.complete_action generation token result rid sid) h o =
    keeps-Owns base c (complete_action c generation token result rid sid).1 h
      (configuration-complete_action c generation token result rid sid) o
step-Owns base c (Call.report_ready generation) h o =
    keeps-Owns base c (report_ready c generation).1 h (ground arith) o
step-Owns base c (Call.report_fault generation kind code) h o =
    keeps-Owns base c (report_fault c generation kind code).1 h (ground arith) o

run-Owns :
    (base : ℕ) (c : Controller) (h : Heap) (ks : List Call)
    → Owns base c h
    → Owns base (run c h ks).0 (run c h ks).1
unfolding run
run-Owns base c h [] o = o
run-Owns base c h (k ∷ ks) o =
    let (status, c', h') = step c k h in run-Owns base c' h' ks (step-Owns base c k h o)

created : (h h' : Heap) (c : Controller) → create h ≡ (ok, some c, h') → Owns h.live c h'
unfolding create allocate
created h h' c e = ground arith

-- Nothing leaks: whatever calls were made on a controller, and whatever of them the allocator
-- refused, destroying the controller brings the ledger back to where it stood before the creation.
pub lifetime_balance :
    (h h' : Heap) (c : Controller) (ks : List Call)
    → create h ≡ (ok, some c, h')
    → (destroy (some (run c h' ks).0) (run c h' ks).1).live ≡ h.live
unfolding create destroy allocate deallocate
lifetime_balance h h' c ks e =
    let (d, after) = run c h' ks in
    omega (
      arith,
      live-release d.configuration.closure after,
      run-Owns h.live c h' ks (created h h' c e),
    )

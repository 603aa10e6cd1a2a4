-- ===== src/Controller/Examples.antt =====
-- A controller of src/controller/controller.c on concrete calls, and the theorems at such inputs.
use kobox.Prelude.{ℕ, ◌≤◌, ◌≡◌, refl, true, some, List, [], ◌∷◌, ◌++◌, arith, replicate}
use kobox.Status.{ok}
use kobox.Digest.{digest_is_zero}
use kobox.Allocator.{Heap, allocate, deallocate}
use kobox.Closure.{Bytes, Closure, Resource, empty_storage}
use kobox.Closure.Release
use kobox.Closure.Sort.{
  insert, sort, sort_array, storage_sort, compare_artifacts, compare_dependencies, compare_exports,
  compare_imports, compare_resources, compare_resource_bindings,
}
use kobox.Closure.Clone.{clone_array, put_field, clone_field, clone_fields, clone, launch_flags}
use kobox.Controller.{idle, running, process_exit, Controller}
use kobox.Controller.Emit.{emit_action, clear_action}
use kobox.Controller.Configure.{
  fresh, create, destroy, set_closure, set_digest, set_limit, validate_configuration,
}
use kobox.Controller.Lifecycle.{
  started, start_valid, begin_start, restarted, cleaned, finish_cleanup, cleanup_action,
  emit_or_finish, next_cleanup_action, cleaning, begin_cleanup, start, stop, restart,
}
use kobox.Controller.Complete.{complete_ok, complete, complete_action, report_ready, report_fault}
use kobox.Controller.Calls.{Call, step, run}
use kobox.Controller.Host.{permits, host_step, observe, perform, empty_host, play}
use kobox.Controller.Host.Agreement.{pending_permitted}
use kobox.Controller.Invariant.{Inv}
use kobox.Controller.Invariant.Kept.{fresh-Inv, run-Inv}
use kobox.Controller.Refusal.{refuses, step_refused}
use kobox.Controller.Tokens.Once.{complete_once}
use kobox.Controller.Graph.{edge, step-edge}
use kobox.Controller.Drain.{Stopped, drain, stop_drains}
use kobox.Controller.Startup.{Runs, boot, boot-Runs}
use kobox.Controller.Ledger.{lifetime_balance}

-- All that the calls compute with.
computed : ℕ
unfolding allocate deallocate Release.release_array Release.storage_release Release.destroy insert
    sort sort_array storage_sort compare_artifacts compare_dependencies compare_exports
    compare_imports compare_resources compare_resource_bindings clone_array put_field clone_field
    clone_fields clone launch_flags emit_action clear_action create destroy set_closure set_digest
    set_limit validate_configuration started start_valid begin_start restarted cleaned
    finish_cleanup cleanup_action emit_or_finish next_cleanup_action cleaning begin_cleanup start
    stop restart complete_ok complete complete_action report_ready report_fault step run host_step
    observe perform permits play digest_is_zero
computed = 0

abbrev digest : Bytes
digest = 1 ∷ replicate 31 0

-- A memory that is required and wants a reset.
abbrev memory : Resource
memory = record {
  interface_schema_digest = digest;
  required_rights = 1;
  maximum_rights = 3;
  slot_id = 1;
  type = 0;
  minimum_count = 1;
  maximum_count = 1;
  flags = 5;
}

abbrev module_closure : Closure
module_closure = record {
  storage = record (empty_storage digest) {
    resources = record { items = memory ∷ []; capacity = 8 };
  };
}

abbrev generous : Heap
generous = record { grants = λ n size. true; calls = 0; live = 0 }

abbrev configuring : List Call
configuring =
    Call.set_closure (some module_closure)
    ∷ Call.set_digest 1 (some digest) 32
    ∷ Call.set_digest 2 (some digest) 32
    ∷ Call.set_digest 3 (some digest) 32
    ∷ Call.set_limit 0 4096
    ∷ Call.set_limit 1 2
    ∷ Call.set_limit 2 1
    ∷ Call.set_limit 3 16
    ∷ []

-- Resource set 7, sandbox 9, ready.
abbrev booting : List Call
booting =
    Call.start
    ∷ Call.complete_action 1 1 ok 7 0
    ∷ Call.complete_action 1 2 ok 0 9
    ∷ Call.complete_action 1 3 ok 0 0
    ∷ Call.report_ready 1
    ∷ []

-- The process exits by itself; then revocation, reset, reaping and release.
abbrev failing : List Call
failing =
    Call.report_fault 1 process_exit 139
    ∷ Call.stop
    ∷ Call.complete_action 1 4 ok 0 0
    ∷ Call.complete_action 1 5 ok 0 0
    ∷ Call.complete_action 1 6 ok 0 0
    ∷ []

abbrev configured : Controller
configured = (run fresh generous configuring).0

boot_runs : (run fresh generous (configuring ++ booting)).0.state ≡ running
unfolding computed
boot_runs = refl

stop_ends :
    (run fresh generous
      (configuring ++ booting ++ failing ++ Call.complete_action 1 7 ok 0 0 ∷ [])).0.state
    ≡ idle
unfolding computed
stop_ends = refl

pending_permitted_example :
    permits
      (play fresh generous empty_host (configuring ++ booting ++ failing)).1
      (play fresh generous empty_host (configuring ++ booting ++ failing)).0.action.type
    ≡ true
unfolding computed
pending_permitted_example = pending_permitted generous (configuring ++ booting ++ failing) refl

run-Inv_example : Inv (run fresh generous (configuring ++ booting ++ failing)).0
run-Inv_example = run-Inv fresh generous (configuring ++ booting ++ failing) fresh-Inv

step_refused_example : (step configured Call.stop generous).1 ≡ configured
unfolding computed
step_refused_example =
    step_refused configured Call.stop generous (run-Inv fresh generous configuring fresh-Inv) refl

step-edge_example : edge configured.state (step configured Call.start generous).1.state ≡ true
step-edge_example =
    step-edge configured Call.start generous (run-Inv fresh generous configuring fresh-Inv)

abbrev launching : Controller
launching = (run fresh generous (configuring ++ Call.start ∷ [])).0

-- The allocation's completion is repeated after the launch's.
complete_once_example :
    let d =
      (run
        (complete_action launching 1 1 ok 7 0).1
        generous
        (Call.complete_action 1 2 ok 0 9 ∷ [])).0 in
    (refuses (complete_action d 1 1 ok 7 0).0 ≡ true) × ((complete_action d 1 1 ok 7 0).1 ≡ d)
unfolding computed
complete_once_example =
    complete_once launching 1 1 ok 7 0 generous (Call.complete_action 1 2 ok 0 9 ∷ []) 1 ok 7 0
      (run-Inv fresh generous (configuring ++ Call.start ∷ []) fresh-Inv) refl

abbrev booted : Controller
booted = (run fresh generous (configuring ++ booting)).0

stop_drains_example : (n : ℕ) × (n ≤ 5) × Stopped (drain n (stop booted).1)
unfolding computed
stop_drains_example =
    stop_drains booted (run-Inv fresh generous (configuring ++ booting) fresh-Inv) refl refl
      (omega arith)

boot-Runs_example : Runs (boot configured 7 9) 1 7 9
unfolding computed
boot-Runs_example =
    boot-Runs configured 7 9 refl refl refl (omega arith) (omega arith) (λ e. omega arith)
      (λ e. omega arith)

lifetime_balance_example :
    (destroy
      (some (run fresh (create generous).2 (configuring ++ booting)).0)
      (run fresh (create generous).2 (configuring ++ booting)).1).live
    ≡ 0
unfolding computed
lifetime_balance_example =
    lifetime_balance generous (create generous).2 fresh (configuring ++ booting) refl

-- ===== src/Controller/Startup.antt =====
-- Starting ends: a host that completes each action brings an idle controller to run.
use kobox.Prelude.{ℕ, ◌+◌, ◌≤◌, ◌<◌, ◌≡◌, ◌≢◌, true, false, arith, u64_max}
use kobox.Status.{ok}
use kobox.Controller.{
  idle, starting, running, ActionType, allocate_resources, launch_sandbox, transfer_resources,
  Controller,
}
use kobox.Controller.Emit.{emit_action}
use kobox.Controller.Configure.{validate_configuration}
use kobox.Controller.Lifecycle.{started, start_valid, begin_start, start}
use kobox.Controller.Complete.{complete_ok, ids_valid, complete, complete_action, report_ready}

-- The host completes the pending action with a success and these identifiers.
complete_as : Controller → ℕ → ℕ → Controller
complete_as c rid sid = (complete_action c c.generation c.action.token ok rid sid).1

-- The pending action of a start.
record Asks (c : Controller) (type : ActionType) (token turn rid sid : ℕ) : Type 0 where
  pending : c.action_pending ≡ true
  asked : c.action.type ≡ type
  is_starting : c.state ≡ starting
  next_token : c.next_token ≡ token
  generation : c.generation ≡ turn
  resource_set_id : c.resource_set_id ≡ rid
  sandbox_id : c.sandbox_id ≡ sid

start-Asks :
    (c : Controller)
    → c.state ≡ idle
    → c.action_pending ≡ false
    → validate_configuration c.configuration ≡ ok
    → c.generation < u64_max
    → c.next_token < u64_max
    → Asks (start c).1 allocate_resources (c.next_token + 1) (c.generation + 1) 0 0
unfolding start begin_start start_valid started emit_action
start-Asks c i p v g t = ground arith

allocated-Asks :
    (c : Controller) (token generation rid : ℕ)
    → Asks c allocate_resources token generation 0 0
    → token < u64_max
    → rid ≢ 0
    → Asks (complete_as c rid 0) launch_sandbox (token + 1) generation rid 0
unfolding complete_as complete_action complete complete_ok emit_action ids_valid
allocated-Asks c token generation rid a t r = ground arith

launched-Asks :
    (c : Controller) (token generation rid sid : ℕ)
    → Asks c launch_sandbox token generation rid 0
    → token < u64_max
    → sid ≢ 0
    → Asks (complete_as c 0 sid) transfer_resources (token + 1) generation rid sid
unfolding complete_as complete_action complete complete_ok emit_action ids_valid
launched-Asks c token generation rid sid a t s = ground arith

-- The state of a sandbox that runs.
pub record Runs (c : Controller) (turn rid sid : ℕ) : Type 0 where
  pub is_running : c.state ≡ running
  pub not_pending : c.action_pending ≡ false
  pub generation : c.generation ≡ turn
  pub resource_set_id : c.resource_set_id ≡ rid
  pub sandbox_id : c.sandbox_id ≡ sid

transferred-Runs :
    (c : Controller) (token generation rid sid : ℕ)
    → Asks c transfer_resources token generation rid sid
    → Runs (report_ready (complete_as c 0 0) generation).1 generation rid sid
unfolding complete_as complete_action complete complete_ok report_ready ids_valid
transferred-Runs c token generation rid sid a = ground arith

-- `start`, the completions of the three actions that it leads to, and the sandbox's report.
pub boot : Controller → ℕ → ℕ → Controller
boot c rid sid =
    (report_ready (complete_as (complete_as (complete_as (start c).1 rid 0) 0 sid) 0 0)
      (c.generation + 1)).1

-- From an idle controller whose configuration is valid and whose counters have room, a host that
-- grants the resources, launches the sandbox and transfers the resources, each with success, and
-- then reports the sandbox ready, brings the controller to run: in the next generation, with no
-- action pending, and with the identifiers that the host gave.
pub boot-Runs :
    (c : Controller) (rid sid : ℕ)
    → c.state ≡ idle
    → c.action_pending ≡ false
    → validate_configuration c.configuration ≡ ok
    → c.generation < u64_max
    → c.next_token + 3 ≤ u64_max
    → rid ≢ 0
    → sid ≢ 0
    → Runs (boot c rid sid) (c.generation + 1) rid sid
unfolding boot
boot-Runs c rid sid i p v g t r s = transferred-Runs _ _ _ rid sid (
    launched-Asks _ _ _ rid sid
      (allocated-Asks _ _ _ rid (start-Asks c i p v g (omega arith)) (omega arith) r) (omega arith)
      s)

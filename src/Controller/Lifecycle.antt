-- ===== src/Controller/Lifecycle.antt =====
-- Starting and cleaning up: `kb2_begin_start`, `kb2_finish_cleanup`, `kb2_next_cleanup_action`,
-- `kb2_begin_cleanup`, and the requests that lead to them, of src/controller/controller.c.
use kobox.Prelude.{
  ◌+◌, Bool, true, false, Option, none, some, ◌&&◌, ◌||◌, not, ◌==◌, bit_and, if◌then◌else◌, u64,
  u64_max,
}
use kobox.Status.{Status, ok, invalid_state, action_pending, counter_exhausted, status_code}
use kobox.Closure.Clone.{launch_reset_required}
use kobox.Controller.{
  State, idle, starting, handshaking, running, stopping, faulted, no_fault, controller_fault,
  ActionType, allocate_resources, quiesce_sandbox, terminate_sandbox, revoke_resources,
  reset_resources, reap_sandbox, release_resources, Configuration, Controller,
}
use kobox.Controller.Emit.{emit_action}
use kobox.Controller.Configure.{is_idle, validate_configuration}

-- The state of `kb2_begin_start` before its action is emitted.
unfoldable pub started : Controller → Controller
started c = record c {
  generation = u64 (c.generation + 1);
  state = starting;
  fault_kind = no_fault;
  fault_code = 0;
  resource_set_id = 0;
  sandbox_id = 0;
  resources_allocated = false;
  resources_revoked = false;
  resources_reset = false;
  process_started = false;
  process_exited = false;
}

-- What follows the validation.
unfoldable pub start_valid : Status → Controller → Status × Controller
unfolding started
start_valid ok c = emit_action (started c) allocate_resources
start_valid error c = (error, c)

unfoldable pub begin_start : Controller → Status × Controller
unfolding start_valid
begin_start c =
    if c.generation == u64_max || c.next_token == u64_max
    then (counter_exhausted, c)
    else start_valid (validate_configuration c.configuration) c

-- The restart's outcome: a start that fails leaves a fault of the controller.
unfoldable pub restarted : Status × Controller → Status × Controller
unfolding status_code
restarted (ok, c) = (ok, c)
restarted (error, c) = (
  error,
  record c { state = faulted; fault_kind = controller_fault; fault_code = status_code error },
)

unfoldable pub cleaned : Controller → Controller
cleaned c = record c {
  restart_requested = false;
  state = idle;
  fault_kind = no_fault;
  fault_code = 0;
}

unfoldable pub finish_cleanup : Controller → Status × Controller
unfolding cleaned restarted
finish_cleanup c =
    if c.restart_requested then restarted (begin_start (cleaned c)) else (ok, cleaned c)

abbrev pub reset_required : Configuration → Bool
reset_required k = not (bit_and k.flags launch_reset_required == 0)

-- The tests of `kb2_next_cleanup_action`: which action it emits, or `none` where it finishes.
unfoldable pub cleanup_action : Controller → Option ActionType
cleanup_action c =
    if c.process_started
    then some (if c.graceful_stop then quiesce_sandbox else terminate_sandbox)
    else if c.resources_allocated && not c.resources_revoked
    then some revoke_resources
    else if c.resources_allocated && (reset_required c.configuration && not c.resources_reset)
    then some reset_resources
    else if c.process_exited
    then some reap_sandbox
    else if c.resources_allocated
    then some release_resources
    else none

unfoldable pub emit_or_finish : Controller → Option ActionType → Status × Controller
emit_or_finish c none = finish_cleanup c
emit_or_finish c (some type) = emit_action c type

unfoldable pub next_cleanup_action : Controller → Status × Controller
next_cleanup_action c = emit_or_finish c (cleanup_action c)

unfoldable pub is_faulted : State → Bool
is_faulted faulted = true
is_faulted _ = false

unfoldable pub cleaning : Controller → Bool → Controller
unfolding is_faulted
cleaning c restart = record c {
  graceful_stop = not (is_faulted c.state);
  state = stopping;
  restart_requested = restart;
}

unfoldable pub begin_cleanup : Controller → Bool → Status × Controller
begin_cleanup c restart = next_cleanup_action (cleaning c restart)

unfoldable pub start : Controller → Status × Controller
unfolding is_idle
start c =
    if not (is_idle c.state)
    then (invalid_state, c)
    else if c.action_pending
    then (action_pending, c)
    else begin_start c

-- The states that `stop` and `restart` accept.
unfoldable pub can_stop : State → Bool
can_stop handshaking = true
can_stop running = true
can_stop faulted = true
can_stop _ = false

unfoldable pub stop : Controller → Status × Controller
unfolding can_stop
stop c =
    if c.action_pending
    then (action_pending, c)
    else if not (can_stop c.state)
    then (invalid_state, c)
    else begin_cleanup c false

unfoldable pub restart : Controller → Status × Controller
unfolding can_stop
restart c =
    if c.action_pending
    then (action_pending, c)
    else if not (can_stop c.state)
    then (invalid_state, c)
    else begin_cleanup c true

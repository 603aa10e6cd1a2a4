-- ===== src/Controller/Complete.antt =====
-- The host's reports: `kb2_controller_complete_action`, `kb2_controller_report_ready` and
-- `kb2_controller_report_fault` of src/controller/controller.c.
use kobox.Prelude.{ℕ, Bool, true, false, ◌&&◌, not, ◌==◌, if◌then◌else◌}
use kobox.Status.{
  Status, ok, invalid_argument, invalid_state, action_pending, stale_generation, stale_action,
  resource_denied, resource_exhausted, host_failure,
}
use kobox.Controller.{
  State, handshaking, running, faulted, FaultKind, process_exit, protocol_fault, host_action,
  ActionType, no_action, allocate_resources, launch_sandbox, transfer_resources, quiesce_sandbox,
  terminate_sandbox, revoke_resources, reset_resources, reap_sandbox, release_resources, Controller,
  action_code,
}
use kobox.Controller.Emit.{clear_action, emit_action}
use kobox.Controller.Lifecycle.{next_cleanup_action}

unfoldable pub action_result_valid : Status → Bool
action_result_valid ok = true
action_result_valid resource_denied = true
action_result_valid resource_exhausted = true
action_result_valid host_failure = true
action_result_valid _ = false

unfoldable pub is_ok : Status → Bool
is_ok ok = true
is_ok _ = false

-- Whether a success of this type comes with the identifiers that it must, and no other.
unfoldable pub ids_valid : ActionType → ℕ → ℕ → Bool
ids_valid allocate_resources resource_set_id sandbox_id =
    not (resource_set_id == 0) && sandbox_id == 0
ids_valid launch_sandbox resource_set_id sandbox_id = resource_set_id == 0 && not (sandbox_id == 0)
ids_valid _ resource_set_id sandbox_id = resource_set_id == 0 && sandbox_id == 0

-- The checks of a completion's identifiers.
unfoldable pub report_valid : ActionType → Status → ℕ → ℕ → Bool
unfolding ids_valid is_ok
report_valid type result resource_set_id sandbox_id =
    if is_ok result
    then ids_valid type resource_set_id sandbox_id
    else resource_set_id == 0 && sandbox_id == 0

-- The `switch` over a completed action; the action is cleared before.
unfoldable pub complete_ok : ActionType → ℕ → ℕ → Controller → Status × Controller
unfolding action_code
complete_ok allocate_resources resource_set_id sandbox_id c =
    emit_action (record c { resource_set_id = resource_set_id; resources_allocated = true })
      launch_sandbox
complete_ok launch_sandbox resource_set_id sandbox_id c =
    emit_action (record c { sandbox_id = sandbox_id; process_started = true }) transfer_resources
complete_ok transfer_resources resource_set_id sandbox_id c = (ok, record c { state = handshaking })
complete_ok quiesce_sandbox resource_set_id sandbox_id c =
    next_cleanup_action (record c { process_started = false; process_exited = true })
complete_ok terminate_sandbox resource_set_id sandbox_id c =
    next_cleanup_action (record c { process_started = false; process_exited = true })
complete_ok reap_sandbox resource_set_id sandbox_id c =
    next_cleanup_action (record c { process_exited = false; sandbox_id = 0 })
complete_ok revoke_resources resource_set_id sandbox_id c =
    next_cleanup_action (record c { resources_revoked = true })
complete_ok reset_resources resource_set_id sandbox_id c =
    next_cleanup_action (record c { resources_reset = true })
complete_ok release_resources resource_set_id sandbox_id c =
    next_cleanup_action (record c { resources_allocated = false; resource_set_id = 0 })
complete_ok no_action resource_set_id sandbox_id c = (
  invalid_state,
  record c { state = faulted; fault_kind = host_action; fault_code = action_code no_action },
)

-- A completion that has passed the checks.
unfoldable pub complete : Controller → Status → ℕ → ℕ → Status × Controller
unfolding clear_action is_ok action_code
complete c result resource_set_id sandbox_id =
    let completed = c.action.type in
    let cleared = clear_action c in
    if is_ok result then complete_ok completed resource_set_id sandbox_id cleared else (
      result,
      record cleared {
        state = faulted;
        fault_kind = host_action;
        fault_code = action_code completed;
      },
    )

unfoldable pub complete_action : Controller → ℕ → ℕ → Status → ℕ → ℕ → Status × Controller
unfolding action_result_valid report_valid
complete_action c generation token result resource_set_id sandbox_id =
    if not (action_result_valid result)
    then (invalid_argument, c)
    else if not c.action_pending
    then (invalid_state, c)
    else if not (generation == c.generation)
    then (stale_generation, c)
    else if not (token == c.action.token)
    then (stale_action, c)
    else if not (report_valid c.action.type result resource_set_id sandbox_id)
    then (invalid_argument, c)
    else complete c result resource_set_id sandbox_id

unfoldable pub is_handshaking : State → Bool
is_handshaking handshaking = true
is_handshaking _ = false

unfoldable pub report_ready : Controller → ℕ → Status × Controller
unfolding is_handshaking
report_ready c generation =
    if not (generation == c.generation)
    then (stale_generation, c)
    else if c.action_pending
    then (action_pending, c)
    else if not (is_handshaking c.state)
    then (invalid_state, c)
    else (ok, record c { state = running })

unfoldable pub is_live : State → Bool
is_live handshaking = true
is_live running = true
is_live _ = false

-- The faults that a caller may report.
unfoldable pub reportable : FaultKind → Bool
reportable process_exit = true
reportable protocol_fault = true
reportable _ = false

unfoldable pub is_exit : FaultKind → Bool
is_exit process_exit = true
is_exit _ = false

unfoldable pub report_fault : Controller → ℕ → FaultKind → ℕ → Status × Controller
unfolding is_live reportable is_exit
report_fault c generation kind code =
    if not (reportable kind)
    then (invalid_argument, c)
    else if not (generation == c.generation)
    then (stale_generation, c)
    else if c.action_pending
    then (action_pending, c)
    else if not (is_live c.state)
    then (invalid_state, c)
    else (
      ok,
      record c {
        process_started = if is_exit kind then false else c.process_started;
        process_exited = if is_exit kind then true else c.process_exited;
        state = faulted;
        fault_kind = kind;
        fault_code = code;
      },
    )

-- ===== src/Controller/Emit.antt =====
-- `kb2_clear_action` and `kb2_emit_action` of src/controller/controller.c.
use kobox.Prelude.{◌+◌, Bool, true, false, [], ◌∷◌, none, ◌==◌, if◌then◌else◌, u64, u64_max}
use kobox.Status.{Status, ok, counter_exhausted, status_code}
use kobox.Controller.{
  ActionType, no_action, launch_sandbox, transfer_resources, quiesce_sandbox, terminate_sandbox,
  revoke_resources, reset_resources, reap_sandbox, release_resources, controller_fault, faulted,
  Configuration, Action, Controller,
}

-- memset(…, 0, …)
abbrev pub zero_configuration : Configuration
zero_configuration = record {
  closure = none;
  digests = [] ∷ [] ∷ [] ∷ [] ∷ [];
  limits = 0 ∷ 0 ∷ 0 ∷ 0 ∷ [];
  digest_mask = 0;
  flags = 0;
}

abbrev pub zero_action : Action
zero_action = record {
  type = no_action;
  token = 0;
  generation = 0;
  resource_set_id = 0;
  sandbox_id = 0;
  configuration = zero_configuration;
}

unfoldable pub clear_action : Controller → Controller
clear_action c = record c { action = zero_action; action_pending = false }

-- The cases of the `switch` that copy `resource_set_id`, and those that copy `sandbox_id`.
unfoldable pub names_resources : ActionType → Bool
names_resources launch_sandbox = true
names_resources reset_resources = true
names_resources release_resources = true
names_resources transfer_resources = true
names_resources quiesce_sandbox = true
names_resources revoke_resources = true
names_resources _ = false

unfoldable pub names_sandbox : ActionType → Bool
names_sandbox transfer_resources = true
names_sandbox quiesce_sandbox = true
names_sandbox terminate_sandbox = true
names_sandbox reap_sandbox = true
names_sandbox _ = false

unfoldable pub emit_action : Controller → ActionType → Status × Controller
unfolding names_resources names_sandbox status_code
emit_action c type =
    if c.next_token == u64_max
    then (
      counter_exhausted,
      record c {
        state = faulted;
        fault_kind = controller_fault;
        fault_code = status_code counter_exhausted;
      },
    )
    else (
      ok,
      record c {
        next_token = u64 (c.next_token + 1);
        action = record {
          type = type;
          token = u64 (c.next_token + 1);
          generation = c.generation;
          resource_set_id = if names_resources type then c.resource_set_id else 0;
          sandbox_id = if names_sandbox type then c.sandbox_id else 0;
          configuration = c.configuration;
        };
        action_pending = true;
      },
    )

-- ===== src/Controller/Invariant.antt =====
-- What holds of a controller between two calls.
pub mod Emitted
pub mod Kept
use kobox.Prelude.{ℕ, ◌≤◌, ◌≡◌, ◌≢◌, Bool, true, false, ◌==◌, not, ◌||◌, u64_max, if◌then◌else◌}
use kobox.Controller.{
  State, invalid, idle, starting, handshaking, running, stopping, faulted, ActionType, no_action,
  allocate_resources, launch_sandbox, transfer_resources, quiesce_sandbox, terminate_sandbox,
  revoke_resources, reset_resources, reap_sandbox, release_resources, Controller,
}
use kobox.Controller.Emit.{zero_action, names_resources, names_sandbox}
use kobox.Controller.Lifecycle.{reset_required}

-- The flags, the identifiers and the counters agree.
pub record Flags (c : Controller) : Type 0 where
  pub started_allocated : c.process_started ≡ true → c.resources_allocated ≡ true
  pub exited_allocated : c.process_exited ≡ true → c.resources_allocated ≡ true
  pub started_not_exited : c.process_started ≡ true → c.process_exited ≡ false
  pub started_not_revoked : c.process_started ≡ true → c.resources_revoked ≡ false
  pub reset_revoked : c.resources_reset ≡ true → c.resources_revoked ≡ true
  pub resources_named : not (c.resource_set_id == 0) ≡ c.resources_allocated
  pub sandbox_named : not (c.sandbox_id == 0) ≡ (c.process_started || c.process_exited)
  pub generation_bound : c.generation ≤ u64_max
  pub token_bound : c.next_token ≤ u64_max

-- The circumstances under which the controller asks for an action.
abbrev pub Expected : ActionType → Controller → Type 0
Expected no_action c = ⊥
Expected allocate_resources c =
    (c.state ≡ starting)
    × (c.resources_allocated ≡ false)
    × (c.resources_revoked ≡ false)
    × (c.process_started ≡ false)
    × (c.process_exited ≡ false)
Expected launch_sandbox c =
    (c.state ≡ starting)
    × (c.resources_allocated ≡ true)
    × (c.resources_revoked ≡ false)
    × (c.process_started ≡ false)
    × (c.process_exited ≡ false)
Expected transfer_resources c = (c.state ≡ starting) × (c.process_started ≡ true)
Expected quiesce_sandbox c =
    (c.state ≡ stopping) × (c.process_started ≡ true) × (c.graceful_stop ≡ true)
Expected terminate_sandbox c =
    (c.state ≡ stopping) × (c.process_started ≡ true) × (c.graceful_stop ≡ false)
Expected revoke_resources c =
    (c.state ≡ stopping)
    × (c.process_started ≡ false)
    × (c.resources_allocated ≡ true)
    × (c.resources_revoked ≡ false)
Expected reset_resources c =
    (c.state ≡ stopping)
    × (c.process_started ≡ false)
    × (c.resources_allocated ≡ true)
    × (c.resources_revoked ≡ true)
    × (reset_required c.configuration ≡ true)
    × (c.resources_reset ≡ false)
Expected reap_sandbox c =
    (c.state ≡ stopping)
    × (c.process_started ≡ false)
    × (c.process_exited ≡ true)
    × (c.resources_revoked ≡ true)
    × ((not (reset_required c.configuration) || c.resources_reset) ≡ true)
Expected release_resources c =
    (c.state ≡ stopping)
    × (c.process_started ≡ false)
    × (c.process_exited ≡ false)
    × (c.resources_allocated ≡ true)
    × (c.resources_revoked ≡ true)
    × ((not (reset_required c.configuration) || c.resources_reset) ≡ true)

-- What holds while no action is pending.
abbrev pub Resting : State → Controller → Type 0
Resting idle c =
    (c.resources_allocated ≡ false) × (c.process_started ≡ false) × (c.process_exited ≡ false)
Resting handshaking c = c.process_started ≡ true
Resting running c = c.process_started ≡ true
Resting faulted c = Unit {0}
Resting _ c = ⊥

-- The pending action is the newest of its generation, names what the controller holds, and carries
-- the configuration.
pub record Asked (c : Controller) : Type 0 where
  pub token : c.action.token ≡ c.next_token
  pub fresh_token : c.next_token ≢ 0
  pub generation : c.action.generation ≡ c.generation
  pub resource_set_id :
      c.action.resource_set_id ≡ (if names_resources c.action.type then c.resource_set_id else 0)
  pub sandbox_id : c.action.sandbox_id ≡ (if names_sandbox c.action.type then c.sandbox_id else 0)
  pub configuration : c.action.configuration ≡ c.configuration
  pub expected : Expected c.action.type c

pub record Rests (c : Controller) : Type 0 where
  pub no_action : c.action ≡ zero_action
  pub resting : Resting c.state c

-- The part of the invariant that depends on whether an action is pending.
abbrev pub Phase : Bool → Controller → Type 0
Phase true c = Asked c
Phase false c = Rests c

pub record Inv (c : Controller) : Type 0 where
  pub flags : Flags c
  pub phase : Phase c.action_pending c

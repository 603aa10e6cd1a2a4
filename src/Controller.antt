-- ===== src/Controller.antt =====
-- The state of the controller: the types of include/kobox2/controller.h and the structures of
-- src/controller/controller.c. The allocator's pointers are left out: the model has one allocator.
pub mod Emit
pub mod Configure
pub mod Lifecycle
pub mod Complete
pub mod Calls
pub mod Invariant
pub mod Refusal
pub mod Tokens
pub mod Graph
pub mod Drain
pub mod Startup
pub mod Host
mod Examples
pub mod Ledger
use kobox.Prelude.{ℕ, Bool, List, Option}
use kobox.Closure.{Closure, Bytes}

-- `kb2_state_t`
pub data State : Type 0 where
  invalid idle starting handshaking running stopping faulted : State

-- `kb2_action_type_t`; KB2_ACTION_NONE is `no_action`.
pub data ActionType : Type 0 where
  no_action allocate_resources launch_sandbox transfer_resources quiesce_sandbox : ActionType
  terminate_sandbox revoke_resources reset_resources reap_sandbox : ActionType
  release_resources : ActionType

-- `kb2_fault_kind_t`; KB2_FAULT_NONE is `no_fault`.
pub data FaultKind : Type 0 where
  no_fault process_exit protocol_fault host_action controller_fault : FaultKind

-- `struct kb2_configuration`: four digests and four limits.
pub record Configuration : Type 0 where
  pub closure : Option Closure
  pub digests : List Bytes
  pub limits : List ℕ
  pub digest_mask : ℕ
  pub flags : ℕ

-- `struct kb2_action`
pub record Action : Type 0 where
  pub type : ActionType
  pub token : ℕ
  pub generation : ℕ
  pub resource_set_id : ℕ
  pub sandbox_id : ℕ
  pub configuration : Configuration

-- `struct kb2_controller`
pub record Controller : Type 0 where
  pub configuration : Configuration
  pub action : Action
  pub state : State
  pub fault_kind : FaultKind
  pub fault_code : ℕ
  pub generation : ℕ
  pub next_token : ℕ
  pub resource_set_id : ℕ
  pub sandbox_id : ℕ
  pub action_pending : Bool
  pub resources_allocated : Bool
  pub resources_revoked : Bool
  pub resources_reset : Bool
  pub process_started : Bool
  pub process_exited : Bool
  pub restart_requested : Bool
  pub graceful_stop : Bool

-- `sizeof(struct kb2_controller)` on a 64-bit target.
abbrev pub controller_size : ℕ
controller_size = 496

-- The enumerator's value, as it is stored in a fault code.
unfoldable pub action_code : ActionType → ℕ
action_code no_action = 0
action_code allocate_resources = 1
action_code launch_sandbox = 2
action_code transfer_resources = 3
action_code quiesce_sandbox = 4
action_code terminate_sandbox = 5
action_code revoke_resources = 6
action_code reset_resources = 7
action_code reap_sandbox = 8
action_code release_resources = 9

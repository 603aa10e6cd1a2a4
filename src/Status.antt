-- ===== src/Status.antt =====
-- The status codes of include/kobox2/controller.h, which the closure shares.
use kobox.Prelude.{ℕ}

-- `kb2_status_t`; KB2_STATUS_OK is `ok`.
pub data Status : Type 0 where
  ok invalid_argument invalid_state invalid_configuration action_pending stale_generation : Status
  stale_action no_memory resource_denied resource_exhausted host_failure : Status
  counter_exhausted : Status

-- The enumerator's value, as it is stored in a fault code.
unfoldable pub status_code : Status → ℕ
status_code ok = 0
status_code invalid_argument = 1
status_code invalid_state = 2
status_code invalid_configuration = 3
status_code action_pending = 4
status_code stale_generation = 5
status_code stale_action = 6
status_code no_memory = 7
status_code resource_denied = 8
status_code resource_exhausted = 9
status_code host_failure = 10
status_code counter_exhausted = 11

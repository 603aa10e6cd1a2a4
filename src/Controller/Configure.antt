-- ===== src/Controller/Configure.antt =====
-- Creating, configuring and destroying a controller: `kb2_controller_create`,
-- `kb2_controller_destroy`, the setters and `kb2_validate_configuration` of
-- src/controller/controller.c. NULL is `none`.
use kobox.Prelude.{
  ℕ, ◌-◌, ◌^◌, Bool, true, false, [], Option, none, some, ◌&&◌, ◌||◌, not, ◌==◌, leb, get_or, set,
  take, bit_and, bit_or, if◌then◌else◌,
}
use kobox.Status.{Status, ok, invalid_argument, invalid_state, invalid_configuration, no_memory}
use kobox.Digest.{digest_size, digest_is_zero}
use kobox.Allocator.{Heap, allocate, deallocate}
use kobox.Closure.{Closure, Bytes}
use kobox.Closure.Release
use kobox.Closure.Clone.{clone, launch_flags}
use kobox.Controller.{State, idle, no_fault, Configuration, Controller, controller_size}
use kobox.Controller.Emit.{zero_configuration, zero_action}

-- memset, then the state.
abbrev pub fresh : Controller
fresh = record {
  configuration = zero_configuration;
  action = zero_action;
  state = idle;
  fault_kind = no_fault;
  fault_code = 0;
  generation = 0;
  next_token = 0;
  resource_set_id = 0;
  sandbox_id = 0;
  action_pending = false;
  resources_allocated = false;
  resources_revoked = false;
  resources_reset = false;
  process_started = false;
  process_exited = false;
  restart_requested = false;
  graceful_stop = false;
}

unfoldable pub create : Heap → Status × Option Controller × Heap
create h =
    let (granted, h') = allocate h controller_size in
    if granted then (ok, some fresh, h') else (no_memory, none, h')

unfoldable pub destroy : Option Controller → Heap → Heap
destroy none h = h
destroy (some c) h = deallocate (Release.destroy c.configuration.closure h) controller_size

unfoldable pub is_idle : State → Bool
is_idle idle = true
is_idle _ = false

-- Whether the configuration may be changed.
unfoldable pub is_open : Controller → Bool
unfolding is_idle
is_open c = is_idle c.state && not c.action_pending

-- `set_closure` after the copying.
unfoldable pub put_closure :
    Controller → Status × Option Closure × Heap → Status × Controller × Heap
put_closure c (ok, copy, h) = (
  ok,
  record c {
    configuration = record (c.configuration) { closure = copy; flags = launch_flags copy };
  },
  Release.destroy c.configuration.closure h,
)
put_closure c (error, copy, h) = (error, c, h)

unfoldable pub set_closure : Controller → Option Closure → Heap → Status × Controller × Heap
unfolding put_closure is_open
set_closure c none h = (invalid_argument, c, h)
set_closure c (some closure) h =
    if is_open c then put_closure c (clone (some closure) h) else (invalid_state, c, h)

abbrev pub digest_kind_valid : ℕ → Bool
digest_kind_valid kind = leb kind 3

abbrev pub limit_kind_valid : ℕ → Bool
limit_kind_valid kind = leb kind 3

-- KB2_DIGEST_MANIFEST, which only the closure supplies.
abbrev pub digest_manifest : ℕ
digest_manifest = 0

unfoldable pub set_digest : Controller → ℕ → Option Bytes → ℕ → Status × Controller
unfolding is_open
set_digest c kind none size = (invalid_argument, c)
set_digest c kind (some digest) size =
    if not (digest_kind_valid kind) || not (size == digest_size)
    then (invalid_argument, c)
    else if kind == digest_manifest
    then (invalid_argument, c)
    else if not (is_open c)
    then (invalid_state, c)
    else if digest_is_zero digest
    then (invalid_configuration, c)
    else (
      ok,
      record c {
        configuration = record (c.configuration) {
          digests = set c.configuration.digests kind (take digest_size digest);
          digest_mask = bit_or c.configuration.digest_mask (2 ^ kind);
        };
      },
    )

unfoldable pub set_limit : Controller → ℕ → ℕ → Status × Controller
unfolding is_open
set_limit c kind value =
    if not (limit_kind_valid kind)
    then (invalid_argument, c)
    else if not (is_open c)
    then (invalid_state, c)
    else if value == 0
    then (invalid_configuration, c)
    else (
      ok,
      record c {
        configuration = record (c.configuration) { limits = set c.configuration.limits kind value };
      },
    )

-- All bits of the four digests but the manifest's.
abbrev pub required_digest_mask : ℕ
required_digest_mask = 14

-- `flags & ~KB2_KNOWN_LAUNCH_FLAGS` over 32 bits.
abbrev pub unknown_flags : ℕ → ℕ
unknown_flags flags = bit_and flags (2 ^ 32 - 1 - 1)

unfoldable pub digests_present : Configuration → Bool
digests_present k =
    not (digest_is_zero (get_or k.digests 1 []))
    && not (digest_is_zero (get_or k.digests 2 []))
    && not (digest_is_zero (get_or k.digests 3 []))

unfoldable pub limits_present : Configuration → Bool
limits_present k =
    not (get_or k.limits 0 0 == 0)
    && not (get_or k.limits 1 0 == 0)
    && not (get_or k.limits 2 0 == 0)
    && not (get_or k.limits 3 0 == 0)

unfoldable pub has_closure : Option Closure → Bool
has_closure none = false
has_closure (some c) = true

unfoldable pub validate_configuration : Configuration → Status
unfolding digests_present limits_present has_closure
validate_configuration k =
    if not (has_closure k.closure) || not (k.digest_mask == required_digest_mask)
    then invalid_configuration
    else if not (digests_present k)
    then invalid_configuration
    else if not (limits_present k)
    then invalid_configuration
    else if not (unknown_flags k.flags == 0)
    then invalid_configuration
    else ok

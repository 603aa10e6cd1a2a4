-- ===== src/Controller/Host.antt =====
-- The host's side of the action contract (docs/host-actions.md): what the host really holds, and
-- which actions it can be asked for. The controller asks for no other.
pub mod Agreement
use kobox.Prelude.{Bool, true, false, ◌&&◌, not, List, [], ◌∷◌, if◌then◌else◌}
use kobox.Status.{Status, ok}
use kobox.Allocator.{Heap}
use kobox.Controller.{
  FaultKind, process_exit, ActionType, no_action, allocate_resources, launch_sandbox,
  transfer_resources, quiesce_sandbox, terminate_sandbox, revoke_resources, reset_resources,
  reap_sandbox, release_resources, Controller,
}
use kobox.Controller.Calls.{Call, step}
use kobox.Controller.Complete.{is_ok, is_exit}
use kobox.Controller.Refusal.{refuses}

-- What exists on the host: a granted resource set, which may be revoked and then wiped, and a
-- process, which lives or is dead and not yet reaped.
pub record Host : Type 0 where
  pub granted : Bool
  pub revoked : Bool
  pub wiped : Bool
  pub living : Bool
  pub dead : Bool

-- Whether an action makes sense on the host.
unfoldable pub permits : Host → ActionType → Bool
permits w no_action = false
permits w allocate_resources = not w.granted && (not w.living && not w.dead)
permits w launch_sandbox = w.granted && (not w.revoked && (not w.living && not w.dead))
permits w transfer_resources = w.granted && (not w.revoked && w.living)
permits w quiesce_sandbox = w.living
permits w terminate_sandbox = w.living
permits w revoke_resources = w.granted && (not w.revoked && not w.living)
permits w reset_resources = w.granted && (w.revoked && (not w.wiped && not w.living))
permits w reap_sandbox = w.dead && not w.living
permits w release_resources = w.granted && (w.revoked && (not w.living && not w.dead))

-- What an action does to the host.
unfoldable pub perform : Host → ActionType → Host
perform w no_action = w
perform w allocate_resources = record w { granted = true; revoked = false; wiped = false }
perform w launch_sandbox = record w { living = true }
perform w transfer_resources = w
perform w quiesce_sandbox = record w { living = false; dead = true }
perform w terminate_sandbox = record w { living = false; dead = true }
perform w revoke_resources = record w { revoked = true }
perform w reset_resources = record w { wiped = true }
perform w reap_sandbox = record w { dead = false }
perform w release_resources = record w { granted = false }

-- What a call says of the host, where the controller takes it: a completion with success, or the
-- exit of the process.
unfoldable pub observe : Controller → Call → Host → Host
observe c (Call.complete_action generation token result rid sid) w =
    if is_ok result then perform w c.action.type else w
observe c (Call.report_fault generation kind code) w =
    if is_exit kind then record w { living = false; dead = true } else w
observe c _ w = w

-- The host after the call: a call that is refused says nothing.
unfoldable pub host_step : Controller → Call → Heap → Host → Host
host_step c k h w = if refuses (step c k h).0 then w else observe c k w

-- Nothing is granted, and no process exists.
abbrev pub empty_host : Host
empty_host = record {
  granted = false;
  revoked = false;
  wiped = false;
  living = false;
  dead = false;
}

-- The controller and the host after a sequence of calls.
unfoldable pub play : Controller → Heap → Host → List Call → Controller × Host
play c h w [] = (c, w)
play c h w (k ∷ ks) = let (status, c', h') = step c k h in play c' h' (host_step c k h w) ks

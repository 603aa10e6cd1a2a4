-- ===== src/Controller/Drain.antt =====
-- Cleaning up ends: a host that completes each action brings a stopping controller to rest.
use kobox.Prelude.{
  ℕ, zero, suc, ◌+◌, ◌≤◌, ◌<◌, ◌^◌, ◌≡◌, refl, Bool, true, false, none, some, inl, inr, ◌&&◌, not,
  if◌then◌else◌, Option-cases, arith, ◌∙◌, ne→==, u64_max,
}
use kobox.Status.{ok}
use kobox.Controller.{
  idle, stopping, ActionType, no_action, allocate_resources, launch_sandbox, transfer_resources,
  quiesce_sandbox, terminate_sandbox, revoke_resources, reset_resources, reap_sandbox,
  release_resources, Controller,
}
use kobox.Controller.Emit.{zero_action, emit_action, clear_action}
use kobox.Controller.Lifecycle.{
  reset_required, cleaned, finish_cleanup, cleanup_action, emit_or_finish, next_cleanup_action,
  cleaning, begin_cleanup, can_stop, stop,
}
use kobox.Controller.Complete.{complete_ok, complete, ids_valid, complete_action}
use kobox.Controller.Invariant.{Flags, Expected, Inv}
use kobox.Controller.Invariant.Emitted.{emit_action-Inv, cleanup_action-Expected}
use kobox.Controller.Invariant.Kept.{
  Asked-of_pending, clear_action-Flags, clear_action-Expected, Rests-of_quiet,
}

-- The host completes the pending action of a cleanup.
complete_pending : Controller → Controller
complete_pending c = (complete_action c c.generation c.action.token ok 0 0).1

pub drain : ℕ → Controller → Controller
unfolding complete_pending
drain zero c = c
drain (suc n) c = drain n (complete_pending c)

abbrev count_if : Bool → ℕ
count_if b = if b then 1 else 0

-- The actions that are left: to end the process and to reap it, and to revoke, reset and release.
abbrev work : Controller → ℕ
work c =
    count_if c.process_started
    + (count_if c.process_started + count_if c.process_exited)
    + count_if (c.resources_allocated && not c.resources_revoked)
    + count_if (c.resources_allocated && (reset_required c.configuration && not c.resources_reset))
    + count_if c.resources_allocated

record Quiet (c : Controller) : Type 0 where
  flags : Flags c
  no_action : c.action ≡ zero_action
  not_pending : c.action_pending ≡ false
  is_stopping : c.state ≡ stopping
  no_restart : c.restart_requested ≡ false
  room : c.next_token + work c ≤ u64_max

record Draining (c : Controller) : Type 0 where
  valid : Inv c
  pending : c.action_pending ≡ true
  is_stopping : c.state ≡ stopping
  no_restart : c.restart_requested ≡ false
  room : c.next_token + work c ≤ 2 ^ 64

-- The controller is idle and holds nothing.
pub record Stopped (c : Controller) : Type 0 where
  pub is_idle : c.state ≡ idle
  pub not_pending : c.action_pending ≡ false
  pub not_allocated : c.resources_allocated ≡ false
  pub not_started : c.process_started ≡ false
  pub not_exited : c.process_exited ≡ false

abbrev Goes : ℕ → Controller → Type 0
Goes zero c = Stopped c
Goes (suc n) c = Draining c × (work c ≡ suc n)

work-none : (c : Controller) → Flags c → cleanup_action c ≡ none → work c ≡ 0
unfolding cleanup_action
work-none c f e = ground arith

work-some :
    (c : Controller) {type : ActionType} → Flags c → cleanup_action c ≡ some type → 0 < work c
unfolding cleanup_action
work-some c f e = ground arith

emit_action_room :
    (c : Controller) (type : ActionType)
    → Quiet c
    → 0 < work c
    → let d = (emit_action c type).1 in
      (d.action_pending ≡ true)
      × (d.state ≡ stopping)
      × (d.restart_requested ≡ false)
      × (d.next_token + work d ≤ 2 ^ 64)
      × (work d ≡ work c)
unfolding emit_action
emit_action_room c type q p =
    let t : c.next_token < u64_max = omega (arith, q.room) in
    rw (ne→== c.next_token u64_max (omega arith))
      (refl, q.is_stopping, q.no_restart, omega (arith, q.room), refl)

emit_action-Goes :
    (c : Controller) (type : ActionType) (n : ℕ)
    → Quiet c
    → Expected type c
    → work c ≡ suc n
    → Goes (suc n) (emit_action c type).1
emit_action-Goes c type n q e w =
    let (pending, stop, once, room, same) = emit_action_room c type q (omega arith) in
    (
      record {
        valid = emit_action-Inv c type q.flags q.no_action q.not_pending e;
        pending = pending;
        is_stopping = stop;
        no_restart = once;
        room = room;
      },
      same ∙ w,
    )

finish_cleanup-Stopped : (c : Controller) → Quiet c → work c ≡ 0 → Stopped (finish_cleanup c).1
unfolding finish_cleanup cleaned
finish_cleanup-Stopped c q w = ground (arith, q.no_restart)

next_cleanup_action-Goes :
    (c : Controller) (n : ℕ) → Quiet c → work c ≡ n → Goes n (next_cleanup_action c).1
unfolding next_cleanup_action emit_or_finish
next_cleanup_action-Goes c zero q w = elim (Option-cases (cleanup_action c)) [
  | inl e ↦ rw e (finish_cleanup-Stopped c q w)
  | inr (type, e) ↦ absurd (omega (arith, work-some c q.flags e))
]
next_cleanup_action-Goes c (suc n) q w = elim (Option-cases (cleanup_action c)) [
  | inl e ↦ absurd (omega (arith, work-none c q.flags e))
  | inr (type, e) ↦
      rw e (emit_action-Goes c type n q (cleanup_action-Expected c q.flags q.is_stopping e) w)
]

-- What a completed cleanup action leaves to be done.
complete_ok-Goes :
    (type : ActionType) (c : Controller) (n : ℕ)
    → Expected type c
    → Flags c
    → c.action ≡ zero_action
    → c.action_pending ≡ false
    → c.state ≡ stopping
    → c.restart_requested ≡ false
    → c.next_token + work c ≤ 2 ^ 64
    → work c ≡ suc n
    → Goes n (complete_ok type 0 0 c).1
unfolding complete_ok
complete_ok-Goes no_action c n e f a p s r room w = absurd e
complete_ok-Goes allocate_resources c n e f a p s r room w = ground arith
complete_ok-Goes launch_sandbox c n e f a p s r room w = ground arith
complete_ok-Goes transfer_resources c n e f a p s r room w = ground arith
complete_ok-Goes quiesce_sandbox c n e f a p s r room w =
    next_cleanup_action-Goes _ n (ground arith) (ground arith)
complete_ok-Goes terminate_sandbox c n e f a p s r room w =
    next_cleanup_action-Goes _ n (ground arith) (ground arith)
complete_ok-Goes revoke_resources c n e f a p s r room w =
    next_cleanup_action-Goes _ n (ground arith) (ground arith)
complete_ok-Goes reset_resources c n e f a p s r room w =
    next_cleanup_action-Goes _ n (ground arith) (ground arith)
complete_ok-Goes reap_sandbox c n e f a p s r room w =
    next_cleanup_action-Goes _ n (ground arith) (ground arith)
complete_ok-Goes release_resources c n e f a p s r room w =
    next_cleanup_action-Goes _ n (ground arith) (ground arith)

ids_valid_of_stopping :
    (type : ActionType) (c : Controller)
    → c.state ≡ stopping
    → Expected type c
    → ids_valid type 0 0 ≡ true
unfolding ids_valid
ids_valid_of_stopping no_action c s e = absurd e
ids_valid_of_stopping allocate_resources c s e = ground arith
ids_valid_of_stopping launch_sandbox c s e = ground arith
ids_valid_of_stopping _ c s e = refl

complete_pending_lem :
    (c : Controller)
    → Draining c
    → complete_pending c ≡ (complete_ok c.action.type 0 0 (clear_action c)).1
unfolding complete_pending complete_action complete
complete_pending_lem c d =
    let a = Asked-of_pending c d.valid d.pending in
    ground (arith, ids_valid_of_stopping c.action.type c d.is_stopping a.expected)

complete_pending-Goes :
    (c : Controller) (n : ℕ) → Draining c → work c ≡ suc n → Goes n (complete_pending c)
complete_pending-Goes c n d w =
    let a = Asked-of_pending c d.valid d.pending in
    rw (complete_pending_lem c d) (
      unfold clear_action in
      complete_ok-Goes c.action.type (clear_action c) n
        (clear_action-Expected c.action.type c a.expected) (clear_action-Flags c d.valid.flags) refl
        refl d.is_stopping d.no_restart d.room w)

drain-Stopped : (n : ℕ) (c : Controller) → Goes n c → Stopped (drain n c)
unfolding drain
drain-Stopped zero c g = g
drain-Stopped (suc n) c g = drain-Stopped n (complete_pending c) (complete_pending-Goes c n g.0 g.1)

-- From a live or faulted state with no action pending, and with tokens left for it, `stop` leads to
-- rest: once the host has completed the actions that it asks for, at most five, the controller is
-- idle, has no action pending, and holds no resources and no process.
pub stop_drains :
    (c : Controller)
    → Inv c
    → c.action_pending ≡ false
    → can_stop c.state ≡ true
    → c.next_token + 5 ≤ u64_max
    → (n : ℕ) × (n ≤ 5) × Stopped (drain n (stop c).1)
unfolding stop begin_cleanup cleaning
stop_drains c v p s room = (
  work c,
  ground (arith, v.flags),
  rw (p, s)
      (drain-Stopped (work c) _
        (next_cleanup_action-Goes _ (work c) (ground (arith, Rests-of_quiet c v p)) refl)),
)

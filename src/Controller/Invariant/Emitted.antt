-- ===== src/Controller/Invariant/Emitted.antt =====
-- Emitting an action and cleaning up keep the invariant.
use kobox.Prelude.{
  ◌≡◌, ◌≢◌, refl, ◌⊎◌, inl, inr, Bool-cases, Option-cases, none, some, false, arith, u64_max,
}
use kobox.Status.{Status, ok}
use kobox.Controller.{idle, stopping, ActionType, allocate_resources, Controller}
use kobox.Controller.Emit.{zero_action, emit_action}
use kobox.Controller.Configure.{validate_configuration}
use kobox.Controller.Lifecycle.{
  started, start_valid, begin_start, restarted, cleaned, finish_cleanup, cleanup_action,
  emit_or_finish, next_cleanup_action,
}
use kobox.Controller.Invariant.{Flags, Expected, Inv}

pub emit_action-Inv :
    (c : Controller) (type : ActionType)
    → Flags c
    → c.action ≡ zero_action
    → c.action_pending ≡ false
    → Expected type c
    → Inv (emit_action c type).1
unfolding emit_action
emit_action-Inv c type f a p e = ground arith

-- No action, and no flag that wants cleaning up.
pub record Clean (c : Controller) : Type 0 where
  pub flags : Flags c
  pub no_action : c.action ≡ zero_action
  pub not_pending : c.action_pending ≡ false
  pub not_allocated : c.resources_allocated ≡ false
  pub not_started : c.process_started ≡ false
  pub not_exited : c.process_exited ≡ false

started-Flags : (c : Controller) → Flags c → c.generation ≢ u64_max → Flags (started c)
unfolding started
started-Flags c f g = ground arith

start_valid-Inv :
    (status : Status) (c : Controller)
    → Clean c
    → c.state ≡ idle
    → c.generation ≢ u64_max
    → Inv (start_valid status c).1
unfolding start_valid started
start_valid-Inv ok c k i g =
    emit_action-Inv (started c) allocate_resources (started-Flags c k.flags g) k.no_action
      k.not_pending (refl, refl, refl, refl, refl)
start_valid-Inv error c k i g = ground arith

pub begin_start-Inv : (c : Controller) → Clean c → c.state ≡ idle → Inv (begin_start c).1
unfolding begin_start
begin_start-Inv c k i =
    ground (arith, start_valid-Inv (validate_configuration c.configuration) c k i)

restarted-Inv : (r : Status × Controller) → Inv r.1 → Clean r.1 ⊎ (r.0 ≡ ok) → Inv (restarted r).1
unfolding restarted
restarted-Inv (ok, c) v k = v
restarted-Inv (error, c) v k = ground arith

start_valid-Clean :
    (status : Status) (c : Controller)
    → Clean c
    → c.next_token ≢ u64_max
    → Clean (start_valid status c).1 ⊎ ((start_valid status c).0 ≡ ok)
unfolding start_valid emit_action started
start_valid-Clean ok c k t = ground arith
start_valid-Clean error c k t = inl k

begin_start-Clean : (c : Controller) → Clean c → Clean (begin_start c).1 ⊎ ((begin_start c).0 ≡ ok)
unfolding begin_start
begin_start-Clean c k =
    ground (arith, start_valid-Clean (validate_configuration c.configuration) c k)

pub cleaned-Clean : (c : Controller) → Clean c → Clean (cleaned c)
unfolding cleaned
cleaned-Clean c k = ground arith

finish_cleanup-Inv : (c : Controller) → Clean c → Inv (finish_cleanup c).1
unfolding finish_cleanup cleaned
finish_cleanup-Inv c k =
    let k' = cleaned-Clean c k in
    elim (Bool-cases c.restart_requested) [
      | inl again ↦
          rw again (
            restarted-Inv _ (begin_start-Inv (cleaned c) k' refl)
              (begin_start-Clean (cleaned c) k'))
      | inr over ↦ ground arith
    ]

pub cleanup_action-Expected :
    (c : Controller) {type : ActionType}
    → Flags c
    → c.state ≡ stopping
    → cleanup_action c ≡ some type
    → Expected type c
unfolding cleanup_action
cleanup_action-Expected c f s e = ground arith

pub cleanup_action-Clean :
    (c : Controller)
    → Flags c
    → c.action ≡ zero_action
    → c.action_pending ≡ false
    → cleanup_action c ≡ none
    → Clean c
unfolding cleanup_action
cleanup_action-Clean c f a p e = ground arith

pub next_cleanup_action-Inv :
    (c : Controller)
    → Flags c
    → c.action ≡ zero_action
    → c.action_pending ≡ false
    → c.state ≡ stopping
    → Inv (next_cleanup_action c).1
unfolding next_cleanup_action emit_or_finish
next_cleanup_action-Inv c f a p s = elim (Option-cases (cleanup_action c)) [
  | inl e ↦ rw e (finish_cleanup-Inv c (cleanup_action-Clean c f a p e))
  | inr (type, e) ↦ rw e (emit_action-Inv c type f a p (cleanup_action-Expected c f s e))
]

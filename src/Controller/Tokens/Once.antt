-- ===== src/Controller/Tokens/Once.antt =====
-- A token completes an action once.
use kobox.Prelude.{ℕ, ◌≤◌, ◌<◌, ◌≡◌, true, false, List, [], ◌∷◌, ◌⊎◌, arith}
use kobox.Status.{Status}
use kobox.Allocator.{Heap}
use kobox.Controller.{Controller}
use kobox.Controller.Complete.{complete_action}
use kobox.Controller.Calls.{Call, step, run}
use kobox.Controller.Invariant.{Inv}
use kobox.Controller.Invariant.Kept.{step-Inv, complete_action-Inv, Asked-of_pending}
use kobox.Controller.Refusal.{refuses}
use kobox.Controller.Tokens.{step-Advance, Emits, complete-Emits}

-- No action with this token is pending, nor will be.
record Spent (token : ℕ) (c : Controller) : Type 0 where
  used : token ≤ c.next_token
  not_asked : (c.action_pending ≡ false) ⊎ (token < c.action.token)

step-Spent :
    (token : ℕ) (c : Controller) (k : Call) (h : Heap)
    → Inv c
    → Spent token c
    → Spent token (step c k h).1
step-Spent token c k h v s =
    let d = (step c k h).1 in
    ground (arith, step-Advance c k h v, Asked-of_pending d (step-Inv c k h v))

run-Spent :
    (token : ℕ) (c : Controller) (h : Heap) (ks : List Call)
    → Inv c
    → Spent token c
    → Spent token (run c h ks).0
unfolding run
run-Spent token c h [] v s = s
run-Spent token c h (k ∷ ks) v s =
    let (status, c', h') = step c k h in
    run-Spent token c' h' ks (step-Inv c k h v) (step-Spent token c k h v s)

complete_action_accepted :
    (c : Controller) (generation token : ℕ) (result : Status) (rid sid : ℕ)
    → Inv c
    → refuses (complete_action c generation token result rid sid).0 ≡ false
    → (c.action_pending ≡ true)
      × (token ≡ c.action.token)
      × Emits c (complete_action c generation token result rid sid).1
unfolding complete_action
complete_action_accepted c generation token result rid sid v e =
    ground (arith, complete-Emits c result rid sid v.flags)

complete_action-Spent :
    (c : Controller) (generation token : ℕ) (result : Status) (rid sid : ℕ)
    → Inv c
    → refuses (complete_action c generation token result rid sid).0 ≡ false
    → Spent token (complete_action c generation token result rid sid).1
complete_action-Spent c generation token result rid sid v e =
    let d = (complete_action c generation token result rid sid).1 in
    ground (
      arith,
      complete_action_accepted c generation token result rid sid v e,
      Asked-of_pending c v,
      Asked-of_pending d (complete_action-Inv c generation token result rid sid v),
    )

-- A token of a controller's past is refused, and the controller is as it was.
Spent-refused :
    (c : Controller) (generation token : ℕ) (result : Status) (rid sid : ℕ)
    → Spent token c
    → (refuses (complete_action c generation token result rid sid).0 ≡ true)
      × ((complete_action c generation token result rid sid).1 ≡ c)
unfolding complete_action
Spent-refused c generation token result rid sid s = ground arith

-- After an action was completed, whatever calls follow, a completion with its token is refused and
-- changes nothing.
pub complete_once :
    (c : Controller) (generation token : ℕ) (result : Status) (rid sid : ℕ) (h : Heap)
    (ks : List Call) (generation' : ℕ) (result' : Status) (rid' sid' : ℕ)
    → Inv c
    → refuses (complete_action c generation token result rid sid).0 ≡ false
    → let d = (run (complete_action c generation token result rid sid).1 h ks).0 in
      (refuses (complete_action d generation' token result' rid' sid').0 ≡ true)
      × ((complete_action d generation' token result' rid' sid').1 ≡ d)
complete_once c generation token result rid sid h ks generation' result' rid' sid' v e =
    Spent-refused _ generation' token result' rid' sid' (
      run-Spent token _ h ks (complete_action-Inv c generation token result rid sid v)
        (complete_action-Spent c generation token result rid sid v e))

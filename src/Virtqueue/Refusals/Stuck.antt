-- ===== src/Virtqueue/Refusals/Stuck.antt =====
-- A channel that is faulted: `check` of protocol/src/virtqueue.c refuses every call from then on.
use kobox.Prelude.{
  ℕ, ◌≡◌, inl, inr, refl, ap, subst, sym, ◌∙◌, Bool, true, List, [], ◌∷◌, Bool-cases, ◌==◌,
}
use kobox.Virtqueue.{VqStatus, invalid, stale, faulted, Vq}
use kobox.Virtqueue.Effects.{M, done, stop, ◌>>=◌, check, channel_fault}
use kobox.Virtqueue.Publish.{publish}
use kobox.Virtqueue.Take.{peek_available, take_available, take_used}
use kobox.Virtqueue.Transfer.{
  move_accepted, return_available, copy_request, write_response, complete, copy_response, release,
  arm,
}
use kobox.Virtqueue.Calls.{Call, ended, step, run}

-- A call of the engine, and no change by the owner of a free chain.
abbrev pub IsEngine : Call → Type 0
IsEngine (Call.fill p c) = ⊥
IsEngine _ = Unit

abbrev pub AllEngine : List Call → Type 0
AllEngine [] = Unit
AllEngine (k ∷ ks) = IsEngine k × AllEngine ks

-- The statuses that `check` answers with.
abbrev Answer : VqStatus → Type 0
Answer invalid = Unit
Answer stale = Unit
Answer faulted = Unit
Answer _ = ⊥

check-faulted :
    (generation : ℕ) (q : Vq)
    → q.channel.is_faulted ≡ true
    → (status : VqStatus) × (check generation q ≡ stop status q) × Answer status
unfolding check
check-faulted generation q f = elim (Bool-cases (generation == 0)) [
  | inl e ↦ (invalid, simp e refl, tt)
  | inr e ↦ elim (Bool-cases (q.channel.generation == generation)) [
    | inr g ↦ (stale, simp (e, g) refl, tt)
    | inl g ↦ (faulted, simp (e, g, f) refl, tt)
  ]
]

-- The call has refused, and changed nothing.
abbrev Stuck : Vq → VqStatus × Vq → Type 0
Stuck q r = Answer r.0 × (r.1 ≡ q)

bind-Stuck :
    {A : Type 0} (generation : ℕ) (f : Unit {0} → M A) (q : Vq)
    → q.channel.is_faulted ≡ true
    → Stuck q (ended ((check generation >>= f) q))
unfolding ◌>>=◌
bind-Stuck generation f q e =
    let (status, stopped, answer) = check-faulted generation q e in
    subst (λ o. Stuck q (ended (elim o [ done a r ↦ f a r | stop status r ↦ stop status r ])))
      (sym stopped) (answer, refl)

step-Stuck : (q : Vq) (k : Call) → q.channel.is_faulted ≡ true → IsEngine k → (step q k).1 ≡ q
unfolding step publish peek_available take_available take_used move_accepted return_available
    copy_request write_response complete copy_response release arm channel_fault
step-Stuck q (Call.fill p c) e i = absurd i
step-Stuck q Call.channel_fault e i =
    ap {A = Bool} (λ b. record q { channel = record (q.channel) { is_faulted = b } }) (sym e)
step-Stuck q (Call.publish generation p) e i = (bind-Stuck generation _ q e).1
step-Stuck q (Call.peek_available generation) e i = (bind-Stuck generation _ q e).1
step-Stuck q (Call.take_available generation p) e i = (bind-Stuck generation _ q e).1
step-Stuck q (Call.move_accepted generation s d) e i = (bind-Stuck generation _ q e).1
step-Stuck q (Call.return_available generation p) e i = (bind-Stuck generation _ q e).1
step-Stuck q (Call.copy_request generation p offset size) e i = (bind-Stuck generation _ q e).1
step-Stuck q (Call.write_response generation p bytes) e i = (bind-Stuck generation _ q e).1
step-Stuck q (Call.complete generation p) e i = (bind-Stuck generation _ q e).1
step-Stuck q (Call.take_used generation) e i = (bind-Stuck generation _ q e).1
step-Stuck q (Call.copy_response generation p offset size) e i = (bind-Stuck generation _ q e).1
step-Stuck q (Call.release generation p) e i = (bind-Stuck generation _ q e).1
step-Stuck q (Call.arm generation) e i = (bind-Stuck generation _ q e).1

-- Once the channel is faulted, no sequence of the engine's calls changes the queue, its memory, or the
-- channel.
pub run-faulted :
    (q : Vq) (ks : List Call) → q.channel.is_faulted ≡ true → AllEngine ks → run q ks ≡ q
unfolding run
run-faulted q [] e i = refl
run-faulted q (k ∷ ks) e i =
    let same = step-Stuck q k e i.0 in
    run-faulted (step q k).1 ks (ap (λ x. x.channel.is_faulted) same ∙ e) i.1 ∙ same

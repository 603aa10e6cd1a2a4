-- ===== src/Virtqueue/Refusals.antt =====
-- The calls of protocol/src/virtqueue.c that do not return KB2_VQ_OK: they fault the channel, or leave the
-- queue as it was.
pub mod Parts
pub mod Calls
pub mod Stuck
use kobox.Prelude.{ℕ, ◌≡◌, refl, ap, Bool, true, Option, none, some}
use kobox.Virtqueue.{VqStatus, invalid, faulted, Chain, Vq, Memory}
use kobox.Virtqueue.Effects.{M, Outcome, check, channel_fault}
use kobox.Virtqueue.Keeping.{IsFault, Frame, Post, Keeps, Post-weaken, check-Keeps}

-- The queue is as it was, but for the calls of the memory.
abbrev pub Unchanged : Vq → Vq → Type 0
Unchanged q r = r ≡ record q { memory = r.memory }

pub record Refusal (q : Vq) (status : VqStatus) (r : Vq) : Type 0 where
  pub unchanged : (IsFault status → ⊥) → Unchanged q r
  pub faults : IsFault status → r.channel.is_faulted ≡ true

abbrev pub Faulted : VqStatus → Vq → Type 0
Faulted status r = IsFault status × (r.channel.is_faulted ≡ true)

abbrev pub Any : Vq → Type 0
Any r = Unit

-- The operation fails only by a fault.
abbrev pub Faults : {A : Type 0} → M A → Type 0
Faults m = Keeps Any Faulted m

pub Any-Frame : Frame Any Faulted
unfolding channel_fault
Any-Frame = record { memory = λ q m v. tt; fault = λ q status i v. (i, refl) }

pub Unchanged-Frame : (q : Vq) → Frame (Unchanged q) (Refusal q)
unfolding channel_fault
Unchanged-Frame q = record {
  memory = λ r m e. ap {A = Vq} (λ x. record x { memory = m }) e;
  fault = λ r status i e. record { unchanged = λ n. absurd (n i); faults = λ i. refl };
}

pub refused :
    {q r : Vq} (status : VqStatus) → (IsFault status → ⊥) → Unchanged q r → Refusal q status r
refused status n e = record { unchanged = λ k. e; faults = λ i. absurd (n i) }

pub check-Refusal :
    (q : Vq) (generation : ℕ) → Post (λ a r. Unchanged q r) (Refusal q) (check generation) q
check-Refusal q generation =
    check-Keeps (Unchanged-Frame q) (λ r status i e. record { unchanged = λ n. e; faults = i })
      generation q refl

pub to-Refusal :
    {A : Type 0} (q : Vq) (m : M A) (r : Vq)
    → Post (λ a r. Any r) Faulted m r
    → Post (λ a r. Any r) (Refusal q) m r
to-Refusal q m r x =
    Post-weaken m (λ a r x. x)
      (λ status r x. record { unchanged = λ n. absurd (n x.0); faults = λ i. x.1 }) x

-- ===== src/Virtqueue/Ownership/Kept.antt =====
-- Every sequence of calls of protocol/include/kobox2/virtqueue.h keeps the ownership of a queue in order.
use kobox.Prelude.{ℕ, inl, inr, List, [], ◌∷◌, Bool-cases}
use kobox.Virtqueue.{free, Chain, Vq}
use kobox.Virtqueue.Effects
use kobox.Virtqueue.Effects.{M, Outcome, done, stop}
use kobox.Virtqueue.Chains.{same_state}
use kobox.Virtqueue.Calls.{Call, ended, fill_chain, step, run}
use kobox.Virtqueue.Keeping.{After, Post}
use kobox.Virtqueue.Ownership.{Inv}
use kobox.Virtqueue.Ownership.States.{same_state-eq, refill-Inv}
use kobox.Virtqueue.Ownership.Driver.{
  publish-Inv, take_used-Inv, copy_response-Inv, release-Inv, arm-Inv,
}
use kobox.Virtqueue.Ownership.Device.{
  peek_available-Inv, take_available-Inv, move_accepted-Inv, return_available-Inv, copy_request-Inv,
  write_response-Inv, complete-Inv,
}

After-ended :
    {A : Type 0} (o : Outcome A) → After (λ a r. Inv r) (λ status. Inv) o → Inv (ended o).1
After-ended (done a q) v = v
After-ended (stop status q) v = v

pub ended-Inv :
    {A : Type 0} (m : M A) (q : Vq) → Post (λ a r. Inv r) (λ status. Inv) m q → Inv (ended (m q)).1
ended-Inv m q x = After-ended (m q) x.after

fill_chain-Inv : (q : Vq) (p : ℕ) (c : Chain) → Inv q → Inv (fill_chain q p c)
unfolding fill_chain
fill_chain-Inv q p c v = elim (Bool-cases (same_state (q.chains p).state free)) [
  | inl f ↦
      simp f
        (refill-Inv q p (record c { state = free }) v (same_state-eq (q.chains p).state free f))
  | inr f ↦ simp f v
]

pub step-Owned : (q : Vq) (k : Call) → Inv q → Inv (step q k).1
unfolding step Effects.channel_fault
step-Owned q (Call.fill p c) v = fill_chain-Inv q p c v
step-Owned q Call.channel_fault v = v
step-Owned q (Call.publish generation p) v = ended-Inv _ q (publish-Inv generation p q v)
step-Owned q (Call.peek_available generation) v = ended-Inv _ q (peek_available-Inv generation q v)
step-Owned q (Call.take_available generation p) v =
    ended-Inv _ q (take_available-Inv generation p q v)
step-Owned q (Call.move_accepted generation source destination) v =
    ended-Inv _ q (move_accepted-Inv generation source destination q v)
step-Owned q (Call.return_available generation p) v =
    ended-Inv _ q (return_available-Inv generation p q v)
step-Owned q (Call.copy_request generation p offset size) v =
    ended-Inv _ q (copy_request-Inv generation p offset size q v)
step-Owned q (Call.write_response generation p bytes) v =
    ended-Inv _ q (write_response-Inv generation p bytes q v)
step-Owned q (Call.complete generation p) v = ended-Inv _ q (complete-Inv generation p q v)
step-Owned q (Call.take_used generation) v = ended-Inv _ q (take_used-Inv generation q v)
step-Owned q (Call.copy_response generation p offset size) v =
    ended-Inv _ q (copy_response-Inv generation p offset size q v)
step-Owned q (Call.release generation p) v = ended-Inv _ q (release-Inv generation p q v)
step-Owned q (Call.arm generation) v = ended-Inv _ q (arm-Inv generation q v)

-- Whatever calls are made of a queue whose ownership is in order, with whatever memory, it stays so.
pub run-Owned : (q : Vq) (ks : List Call) → Inv q → Inv (run q ks)
unfolding run
run-Owned q [] v = v
run-Owned q (k ∷ ks) v = run-Owned (step q k).1 ks (step-Owned q k v)

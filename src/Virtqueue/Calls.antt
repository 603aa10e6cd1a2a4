-- ===== src/Virtqueue/Calls.antt =====
-- The calls of protocol/include/kobox2/virtqueue.h on one queue, in sequence; the owner of a free chain
-- may fill it in between, and another queue of the channel may fault it.
use kobox.Prelude.{ℕ, List, [], ◌∷◌, if◌then◌else◌}
use kobox.Virtqueue.{VqStatus, ok, Chain, free, Vq, with_chain}
use kobox.Virtqueue.Effects
use kobox.Virtqueue.Effects.{Outcome, done, stop}
use kobox.Virtqueue.Chains.{same_state}
use kobox.Virtqueue.Publish
use kobox.Virtqueue.Take
use kobox.Virtqueue.Transfer

pub data Call : Type 0 where
  fill : ℕ → Chain → Call
  channel_fault : Call
  publish : ℕ → ℕ → Call
  peek_available : ℕ → Call
  take_available : ℕ → ℕ → Call
  move_accepted : ℕ → ℕ → ℕ → Call
  return_available : ℕ → ℕ → Call
  copy_request : ℕ → ℕ → ℕ → ℕ → Call
  write_response : ℕ → ℕ → List ℕ → Call
  complete : ℕ → ℕ → Call
  take_used : ℕ → Call
  copy_response : ℕ → ℕ → ℕ → ℕ → Call
  release : ℕ → ℕ → Call
  arm : ℕ → Call

-- The status that is returned, and the queue.
abbrev pub ended : {A : Type 0} → Outcome A → VqStatus × Vq
ended (done a q) = (ok, q)
ended (stop status q) = (status, q)

-- The owner of a chain that is not in use fills it; its state stays.
unfoldable pub fill_chain : Vq → ℕ → Chain → Vq
fill_chain q p c =
    if same_state (q.chains p).state free then with_chain q p (record c { state = free }) else q

unfoldable pub step : Vq → Call → VqStatus × Vq
unfolding fill_chain Effects.channel_fault
step q (fill p c) = (ok, fill_chain q p c)
step q Call.channel_fault = (ok, Effects.channel_fault q)
step q (publish generation p) = ended (Publish.publish generation p q)
step q (peek_available generation) = ended (Take.peek_available generation q)
step q (take_available generation p) = ended (Take.take_available generation p q)
step q (move_accepted generation source destination) =
    ended (Transfer.move_accepted generation source destination q)
step q (return_available generation p) = ended (Transfer.return_available generation p q)
step q (copy_request generation p offset size) =
    ended (Transfer.copy_request generation p offset size q)
step q (write_response generation p bytes) = ended (Transfer.write_response generation p bytes q)
step q (complete generation p) = ended (Transfer.complete generation p q)
step q (take_used generation) = ended (Take.take_used generation q)
step q (copy_response generation p offset size) =
    ended (Transfer.copy_response generation p offset size q)
step q (release generation p) = ended (Transfer.release generation p q)
step q (arm generation) = ended (Transfer.arm generation q)

unfoldable pub run : Vq → List Call → Vq
unfolding step
run q [] = q
run q (k ∷ ks) = run (step q k).1 ks

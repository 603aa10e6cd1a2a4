-- ===== src/Virtqueue/Refusals/Parts.antt =====
-- The parts of the calls of protocol/src/virtqueue.c that fail only by a fault of the channel.
use kobox.Prelude.{ℕ, Option, none, some}
use kobox.Virtqueue.{invalid, faulted, Chain, Vq}
use kobox.Virtqueue.Chains.{validate_chain}
use kobox.Virtqueue.Publish.{claim_valid, publish_index, publish_chain}
use kobox.Virtqueue.Take.{keep_valid, read_chain, turns_of, accept, give_back}
use kobox.Virtqueue.Keeping.{
  Post, Post-give, Post-bind, Post-get, Post-modify, Post-return_status, Post-checked, Post-fault,
  write-Keeps, write_segments-Keeps, write_indirect-Keeps, publish_index-Keeps,
}
use kobox.Virtqueue.Keeping.Reads.{read_turns-Keeps}
use kobox.Virtqueue.Refusals.{Unchanged, Refusal, Faults, Any, Any-Frame, refused}

pub claim_valid-Refusal :
    (q r : Vq) (p : ℕ) (o : Option Chain)
    → Unchanged q r
    → Post (λ a r. Any r) (Refusal q) (claim_valid p o) r
unfolding claim_valid
claim_valid-Refusal q r p none e = Post-return_status _ (refused invalid (λ i. i) e)
claim_valid-Refusal q r p (some c) e = Post-modify _ tt

pub publish_index-Faults : (ring event : ℕ) → Faults (publish_index ring event)
publish_index-Faults = publish_index-Keeps Any-Frame (λ q n v. tt)

pub publish_chain-Faults : (p : ℕ) → Faults (publish_chain p)
unfolding publish_chain
publish_chain-Faults p q v = Post-get _ (
    Post-bind _ _ (write_segments-Keeps Any-Frame q.queue (q.chains p) 0 (q.chains p).segments q v)
      (λ a r v. Post-bind _ _ (write_indirect-Keeps Any-Frame q.queue (q.chains p) r v) (λ a r v.
        Post-bind _ _ (write-Keeps Any-Frame _ _ r v) (λ a r v. publish_index-Faults _ _ r v))))

keep_valid-Faults : (p : ℕ) (o : Option Chain) → Faults (keep_valid p o)
unfolding keep_valid
keep_valid-Faults p none q v = Post-fault Any-Frame faulted tt v
keep_valid-Faults p (some c) q v = Post-modify _ tt

read_chain-Faults : (p : ℕ) → Faults (read_chain p)
unfolding read_chain
read_chain-Faults p q v = Post-bind {R = λ a r. Any r} _ _ (Post-modify _ tt) (λ a q v. Post-get _ (
    Post-bind _ _ (read_turns-Keeps Any-Frame p (λ q c e v. tt) (turns_of q.queue) _ q v)
      (λ a r v. Post-get _ (keep_valid-Faults p (validate_chain r (r.chains p)) r v))))

pub accept-Faults : (p head : ℕ) → Faults (accept p head)
unfolding accept
accept-Faults p head q v = Post-bind {R = λ a r. Any r} _ _ (Post-modify _ tt) (λ a q v.
    Post-get _ (
      Post-checked Any-Frame _ _ v (λ t. Post-bind _ _ (read_chain-Faults p q v) (λ a r v.
        Post-bind {R = λ a s. Any s} _ _ (Post-modify _ tt) (λ a s v. Post-modify _ tt)))))

pub give_back-Faults : (head size : ℕ) (o : Option ℕ) → Faults (give_back head size o)
unfolding give_back
give_back-Faults head size none q v = Post-fault Any-Frame faulted tt v
give_back-Faults head size (some p) q v = Post-get _ (
    Post-checked Any-Frame _ _ v
      (λ t. Post-bind {R = λ a r. Any r} _ _ (Post-modify _ tt) (λ a r v. Post-give _ v)))

-- ===== src/Virtqueue/Ownership/Reading.antt =====
-- Reading a chain from the ring, `read_chain` of protocol/src/virtqueue.c, keeps the ownership in order.
use kobox.Prelude.{ℕ, ◌<◌, ◌≡◌, refl, Option, none, some, ap, sym, subst, ◌∙◌}
use kobox.Virtqueue.{device, Chain, free, accepted, Vq, faulted, with_chain}
use kobox.Virtqueue.Effects.{channel_fault}
use kobox.Virtqueue.Chains.{validate_chain, claim}
use kobox.Virtqueue.Take.{keep_valid, read_chain, turns_of, accept}
use kobox.Virtqueue.Keeping.{
  Frame, Post, Post-bind, Post-get, Post-modify, Post-checked, Post-fault, Post-weaken,
}
use kobox.Virtqueue.Keeping.Reads.{read_turns-Keeps}
use kobox.Virtqueue.Ownership.{InUse, Inv}
use kobox.Virtqueue.Ownership.Claims.{chain-same, Claimable, claim-Inv}
use kobox.Virtqueue.Ownership.States.{refill-Inv, validated-Claimable}

-- While the device reads a chain of its own: the chain is free, and there is room for it.
pub record Reading (p : ℕ) (q : Vq) : Type 0 where
  pub inv : Inv q
  pub is_free : (q.chains p).state ≡ free
  pub on_device : q.side ≡ device
  pub room : q.owned_count < q.queue.max_outstanding

Reading-Frame : (p : ℕ) → Frame (Reading p) (λ status. Reading p)
unfolding channel_fault
Reading-Frame p = record {
  memory =
      λ q m v. record { inv = v.inv; is_free = v.is_free; on_device = v.on_device; room = v.room };
  fault = λ q status i v. record {
    inv = v.inv;
    is_free = v.is_free;
    on_device = v.on_device;
    room = v.room;
  };
}

Reading-refill :
    (p : ℕ) (q : Vq) (c : Chain) → Reading p q → c.state ≡ free → Reading p (with_chain q p c)
Reading-refill p q c v f = record {
  inv = refill-Inv q p c v.inv v.is_free;
  is_free = ap (λ x. x.state) (chain-same q p c) ∙ f;
  on_device = v.on_device;
  room = v.room;
}

-- A chain that was read may be claimed.
abbrev pub Read : ℕ → Vq → Type 0
Read p q = Reading p q × Claimable q (q.chains p)

keep_valid-Read :
    (q : Vq) (p : ℕ) (o : Option Chain)
    → Reading p q
    → validate_chain q (q.chains p) ≡ o
    → Post (λ a r. Read p r) (λ status. Reading p) (keep_valid p o) q
unfolding keep_valid
keep_valid-Read q p none v e = Post-fault (Reading-Frame p) faulted tt v
keep_valid-Read q p (some c) v e =
    let (k, f) = validated-Claimable q p c e in
    Post-modify _
      (Reading-refill p q c v (sym (ap (λ x. x.state) (chain-same q p c)) ∙ f ∙ v.is_free), k)

read_chain-Read :
    (q : Vq) (p : ℕ) → Reading p q → Post (λ a r. Read p r) (λ status. Reading p) (read_chain p) q
unfolding read_chain
read_chain-Read q p v =
    Post-bind {R = λ a r. Reading p r} _ _ (Post-modify _ (Reading-refill p q _ v v.is_free))
      (λ a q v. Post-get _ (
        Post-bind _ _
          (read_turns-Keeps (Reading-Frame p) p (λ q c e v. Reading-refill p q c v (e ∙ v.is_free))
            (turns_of q.queue) _ q v)
          (λ a r v. Post-get _ (keep_valid-Read r p (validate_chain r (r.chains p)) v refl))))

claimed-Inv : (q : Vq) (p : ℕ) → Read p q → Inv (claim p accepted q)
claimed-Inv q p v =
    claim-Inv q p accepted v.0.inv v.0.is_free v.1
      (subst (λ x. InUse x accepted) (sym v.0.on_device) tt) v.0.room

pub accept-Inv :
    (p head : ℕ) (q : Vq) → Reading p q → Post (λ a r. Inv r) (λ status. Inv) (accept p head) q
unfolding accept
accept-Inv p head q v =
    Post-weaken _ (λ a r x. x) (λ status r x. x.inv)
      (Post-bind {R = λ a r. Reading p r} _ _ (Post-modify _ (Reading-refill p q _ v v.is_free))
        (λ a q v. Post-get _ (
          Post-checked (Reading-Frame p) _ _ v (λ t. Post-bind _ _ (read_chain-Read q p v) (λ a r x.
            Post-bind {R = λ a s. Inv s} _ _ (Post-modify _ (claimed-Inv r p x))
              (λ a s x. Post-modify _ x))))))

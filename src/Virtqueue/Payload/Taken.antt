-- ===== src/Virtqueue/Payload/Taken.antt =====
-- A chain that `kb2_vq_take_available` of protocol/src/virtqueue.c gives out has its payload in the
-- channel's regions, whatever the peer wrote.
use kobox.Prelude.{ℕ, ◌≡◌, refl, sym, subst, Option, none, some}
use kobox.Virtqueue.{VqStatus, invalid, empty, faulted, accepted, Chain, Vq, with_chain}
use kobox.Virtqueue.Effects.{done}
use kobox.Virtqueue.Chains.{validate_chain, claim}
use kobox.Virtqueue.Take.{keep_valid, read_chain, turns_of, accept, take_available, read_u16}
use kobox.Virtqueue.Keeping.{
  After, Post, Frame, Post-bind, Post-get, Post-modify, Post-required, Post-checked, Post-fault,
  check-Keeps, read-Keeps, pending_index-Keeps,
}
use kobox.Virtqueue.Keeping.Reads.{read_turns-Keeps}
use kobox.Virtqueue.Ownership.Claims.{chain-same}
use kobox.Virtqueue.Payload.{AllWithin}
use kobox.Virtqueue.Payload.Valid.{validate_chain-Within}

abbrev Any : Vq → Type 0
Any q = Unit

abbrev Whatever : VqStatus → Vq → Type 0
Whatever status q = Unit

Any-Frame : Frame Any Whatever
Any-Frame = record { memory = λ q m v. tt; fault = λ q status i v. tt }

-- The payload of the chain is within.
abbrev Placed : ℕ → Vq → Type 0
Placed p q = AllWithin q.channel (q.chains p).segments

stored : (q : Vq) (p : ℕ) (c : Chain) → AllWithin q.channel c.segments → Placed p (with_chain q p c)
stored q p c w = subst (λ x. AllWithin q.channel x.segments) (sym (chain-same q p c)) w

keep_valid-Placed :
    (q : Vq) (p : ℕ) (o : Option Chain)
    → validate_chain q (q.chains p) ≡ o
    → Post (λ a r. Placed p r) Whatever (keep_valid p o) q
unfolding keep_valid
keep_valid-Placed q p none e = Post-fault Any-Frame faulted tt tt
keep_valid-Placed q p (some c) e =
    Post-modify _ (stored q p c (validate_chain-Within q (q.chains p) c e))

read_chain-Placed : (q : Vq) (p : ℕ) → Post (λ a r. Placed p r) Whatever (read_chain p) q
unfolding read_chain
read_chain-Placed q p = Post-bind {R = λ a r. Any r} _ _ (Post-modify _ tt) (λ a q v. Post-get _ (
    Post-bind _ _ (read_turns-Keeps Any-Frame p (λ q c e v. tt) (turns_of q.queue) _ q v)
      (λ a r v. Post-get _ (keep_valid-Placed r p (validate_chain r (r.chains p)) refl))))

claim-Placed : (q : Vq) (p : ℕ) → Placed p q → Placed p (claim p accepted q)
unfolding claim
claim-Placed q p w = stored q p (record (q.chains p) { state = accepted }) w

accept-Placed : (p head : ℕ) (q : Vq) → Post (λ a r. Placed p r) Whatever (accept p head) q
unfolding accept
accept-Placed p head q = Post-bind {R = λ a r. Any r} _ _ (Post-modify _ tt) (λ a q v. Post-get _ (
    Post-checked Any-Frame _ _ tt (λ t. Post-bind _ _ (read_chain-Placed q p) (λ a r w.
      Post-bind {R = λ a s. Placed p s} _ _ (Post-modify _ (claim-Placed r p w))
        (λ a s w. Post-modify _ w)))))

take_available-Placed :
    (generation p : ℕ) (q : Vq) → Post (λ a r. Placed p r) Whatever (take_available generation p) q
unfolding take_available
take_available-Placed generation p q =
    Post-bind _ _ (check-Keeps Any-Frame (λ q status i v. tt) generation q tt) (λ a r v.
      Post-get _ (
        Post-required _ invalid _ tt (λ t.
          Post-bind _ _ (pending_index-Keeps Any-Frame r v) (λ distance r v.
            Post-required _ empty _ tt (λ d. Post-checked Any-Frame _ _ tt (λ l.
              Post-bind _ _ (read-Keeps Any-Frame _ _ r v)
                (λ bytes r v. accept-Placed p (read_u16 bytes 0) r)))))))

-- Where taking a chain succeeds, whatever the memory answered, every segment of it that is not empty,
-- and whose length fits its type, lies in a region of the channel that grants its right, and apart
-- from every ring, of any queue of the channel, that is not empty and ends before the end of the
-- address space.
pub take_available_sound :
    (generation p : ℕ) (q r : Vq)
    → take_available generation p q ≡ done tt r
    → AllWithin r.channel (r.chains p).segments
take_available_sound generation p q r e =
    subst (After (λ a r. Placed p r) Whatever) e (take_available-Placed generation p q).after

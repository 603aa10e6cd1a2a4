-- ===== src/Virtqueue/Ownership/States.antt =====
-- Changes of a chain of protocol/src/virtqueue.c that leave the ownership as it is, and what its tests
-- of a chain say.
use kobox.Prelude.{
  ℕ, ◌≡◌, refl, true, Option, none, some, arith, ℕ_discrete, false≢true, ap, sym, subst, ◌∙◌,
}
use kobox.Virtqueue.{Chain, ChainState, free, Vq, with_chain}
use kobox.Virtqueue.Chains.{same_state, points_to, owned, direct_count, validate_chain}
use kobox.Virtqueue.Effects.{M, check, channel_fault}
use kobox.Virtqueue.Publish.{publish_index}
use kobox.Virtqueue.Keeping.{Frame, Keeps, check-Keeps, publish_index-Keeps}
use kobox.Virtqueue.Ownership.{holds, slot, InUse, Inv}
use kobox.Virtqueue.Ownership.Claims.{free-elsewhere, chain-other, chain-same, Claimable}
use kobox.Virtqueue.Ownership.Validated.{with_sums, held_sums, validate_chain-some}

-- The operation keeps the ownership in order, also where it fails.
abbrev pub KeepsInv : {A : Type 0} → M A → Type 0
KeepsInv m = Keeps Inv (λ status. Inv) m

pub Inv-Frame : Frame Inv (λ status. Inv)
unfolding channel_fault
Inv-Frame = record { memory = λ q m v. v; fault = λ q status i v. v }

pub check-Inv : (generation : ℕ) → KeepsInv (check generation)
check-Inv = check-Keeps Inv-Frame (λ q status i v. v)

pub publish_index-Inv : (ring event : ℕ) → KeepsInv (publish_index ring event)
publish_index-Inv = publish_index-Keeps Inv-Frame (λ q n v. v)

pub same_state-eq : (a b : ChainState) → same_state a b ≡ true → a ≡ b
same_state-eq a b e = ground arith

points_to-eq : (o : Option ℕ) (p : ℕ) → points_to o p ≡ true → o ≡ some p
points_to-eq none p e = absurd (false≢true e)
points_to-eq (some i) p e = ground arith

pub owned-slot :
    (q : Vq) (p : ℕ) (state : ChainState)
    → owned q p state ≡ true
    → slot q.slots (q.chains p).head ≡ some p
unfolding owned
owned-slot q p state e = points_to-eq (slot q.slots (q.chains p).head) p (ground arith)

pub owned-state :
    (q : Vq) (p : ℕ) (state : ChainState) → owned q p state ≡ true → (q.chains p).state ≡ state
unfolding owned
owned-state q p state e = same_state-eq (q.chains p).state state (ground arith)

pub held_used :
    (c : Chain) (size : ℕ) (state : ChainState) (d : ℕ)
    → holds (record c { used_length = size; state = state }) d ≡ holds c d
unfolding holds direct_count
held_used c size state d = refl

pub held_written : (c : Chain) (n d : ℕ) → holds (record c { written = n }) d ≡ holds c d
unfolding holds direct_count
held_written c n d = refl

-- The chain is as it was, or another one.
chain_cases :
    (q : Vq) (p : ℕ) (c : Chain) (r : ℕ) (B : Chain → Chain → Type 0)
    → B (q.chains p) c
    → ((x : Chain) → B x x)
    → B (q.chains r) ((with_chain q p c).chains r)
chain_cases q p c r B same other = elim (ℕ_discrete r p) [
  | yes e ↦
      subst (λ i. B (q.chains i) ((with_chain q p c).chains i)) (sym e)
        (subst (B (q.chains p)) (sym (chain-same q p c)) same)
  | no ne ↦ subst (B (q.chains r)) (sym (chain-other q p c r ne)) (other (q.chains r))
]

pub restate-Inv :
    (q : Vq) (p : ℕ) (c : Chain)
    → Inv q
    → c.head ≡ (q.chains p).head
    → ((d : ℕ) → holds c d ≡ holds (q.chains p) d)
    → (InUse q.side (q.chains p).state → InUse q.side c.state)
    → Inv (with_chain q p c)
restate-Inv q p c v same_head same_held in_use = record {
  slots_length = v.slots_length;
  owners_length = v.owners_length;
  size_small = v.size_small;
  limit_small = v.limit_small;
  heads =
      λ h r e. chain_cases q p c r (λ x y. y.head ≡ x.head) same_head (λ x. refl) ∙ v.heads h r e;
  states = λ h r e.
      chain_cases q p c r (λ x y. InUse q.side x.state → InUse q.side y.state) in_use (λ x u. u)
        (v.states h r e);
  holders = λ h r d e g.
      v.holders h r d e
        (sym (chain_cases q p c r (λ x y. holds y d ≡ holds x d) (same_held d) (λ x. refl)) ∙ g);
  held = λ d h e.
      let (r, there, g) = v.held d h e in
      (r, there, chain_cases q p c r (λ x y. holds y d ≡ holds x d) (same_held d) (λ x. refl) ∙ g);
  counted = v.counted;
  bounded = v.bounded;
}

-- A free chain may be changed at will.
pub refill-Inv :
    (q : Vq) (p : ℕ) (c : Chain) → Inv q → (q.chains p).state ≡ free → Inv (with_chain q p c)
refill-Inv q p c v f =
    let kept = λ (h r : ℕ).
      λ (e : slot q.slots h ≡ some r). chain-other q p c r (free-elsewhere q p h r v f e) in
    record {
      slots_length = v.slots_length;
      owners_length = v.owners_length;
      size_small = v.size_small;
      limit_small = v.limit_small;
      heads = λ h r e. ap (λ x. x.head) (kept h r e) ∙ v.heads h r e;
      states = λ h r e. subst (λ x. InUse q.side x.state) (sym (kept h r e)) (v.states h r e);
      holders = λ h r d e g. v.holders h r d e (sym (ap (λ x. holds x d) (kept h r e)) ∙ g);
      held = λ d h e.
          let (r, there, g) = v.held d h e in (r, there, ap (λ x. holds x d) (kept h r there) ∙ g);
      counted = v.counted;
      bounded = v.bounded;
    }

-- The chain that was found valid may be claimed.
pub validated-Claimable :
    (q : Vq) (p : ℕ) (c : Chain)
    → validate_chain q (q.chains p) ≡ some c
    → Claimable (with_chain q p c) ((with_chain q p c).chains p)
      × (((with_chain q p c).chains p).state ≡ (q.chains p).state)
validated-Claimable q p c e =
    let (n, a, same, un) = validate_chain-some q (q.chains p) c e in
    let fields : Claimable (with_chain q p c) (with_sums (q.chains p) n) = record {
      head_bound = a.head_bound;
      slot_free = a.slot_free;
      descriptors = λ d h. un d (sym (held_sums (q.chains p) n d) ∙ h);
    } in
    (
      subst (Claimable (with_chain q p c)) (same ∙ sym (chain-same q p c)) fields,
      ap (λ x. x.state) (chain-same q p c ∙ sym same),
    )

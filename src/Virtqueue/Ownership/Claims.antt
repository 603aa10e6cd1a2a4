-- ===== src/Virtqueue/Ownership/Claims.antt =====
-- Claiming, dropping and moving a chain of protocol/src/virtqueue.c keeps the ownership in order.
use kobox.Prelude.{
  ℕ, suc, ◌+◌, ◌<◌, ◌≡◌, ◌≢◌, ◌⊎◌, inl, inr, refl, true, List, Option, none, some, length,
  length-set, get_or, get_or-set, set, arith, ℕ_discrete, Bool-cases, ==_refl, ne→==, ap, sym,
  subst, ◌∙◌, some-injective, u16,
}
use kobox.Virtqueue.{Side, Chain, ChainState, free, Vq, with_chain}
use kobox.Virtqueue.Chains.{direct_count, mark_chain, claim}
use kobox.Virtqueue.Ownership.{holds, slot, InUse, Inv}
use kobox.Virtqueue.Ownership.Marks.{mark_chain-length, get_or-mark_chain, occupied-set-some}

-- A slot after one was set.
pub slot-set_cases :
    (slots : List (Option ℕ)) (i : ℕ) (v : Option ℕ) (h r : ℕ)
    → i < length slots
    → slot (set slots i v) h ≡ some r
    → ((i ≡ h) × (v ≡ some r)) ⊎ ((i ≢ h) × (slot slots h ≡ some r))
slot-set_cases slots i v h r l e = elim (ℕ_discrete i h) [
  | yes same ↦ inl (same, ground (arith, get_or-set none slots i h v l))
  | no other ↦ inr (other, ground (arith, get_or-set none slots i h v l))
]

-- A free chain is in no slot.
pub free-elsewhere :
    (q : Vq) (p h r : ℕ) → Inv q → (q.chains p).state ≡ free → slot q.slots h ≡ some r → r ≢ p
free-elsewhere q p h r v f e same =
    not_free q.side
      (subst (λ s. InUse q.side s) (ap (λ i. (q.chains i).state) same ∙ f) (v.states h r e))
  where
    not_free : (s : Side) → InUse s free → ⊥
    not_free Side.driver u = u
    not_free Side.device u = u

module _ (q : Vq) (p : ℕ) (c : Chain) where
  pub chain-other : (r : ℕ) → r ≢ p → (with_chain q p c).chains r ≡ q.chains r
  chain-other r d = rw (ne→== r p d) refl

  pub chain-same : (with_chain q p c).chains p ≡ c
  chain-same = rw (==_refl p) refl

-- A chain that may be claimed: its slot and its descriptors are free and within the queue.
pub record Claimable (q : Vq) (c : Chain) : Type 0 where
  pub head_bound : c.head < q.queue.queue_size
  pub slot_free : slot q.slots c.head ≡ none
  pub descriptors :
      (d : ℕ) → holds c d ≡ true → (d < q.queue.queue_size) × (get_or q.descriptor_owner d 0 ≡ 0)

-- The chain but for its state and its counts.
pub record SameDescriptors (c c' : Chain) : Type 0 where
  pub head : c'.head ≡ c.head
  pub held : (d : ℕ) → holds c' d ≡ holds c d

pub held_state :
    (c : Chain) (state : ChainState) (d : ℕ) → holds (record c { state = state }) d ≡ holds c d
unfolding holds direct_count
held_state c state d = refl

module _ (q : Vq) (p : ℕ) (state : ChainState) (v : Inv q) (f : (q.chains p).state ≡ free)
    (k : Claimable q (q.chains p)) where
  abbrev c : Chain
  c = q.chains p

  abbrev slots : List (Option ℕ)
  slots = set q.slots c.head (some p)

  abbrev owners : List ℕ
  owners = mark_chain q.descriptor_owner c (u16 (c.head + 1))

  abbrev chains : ℕ → Chain
  chains = (with_chain q p (record c { state = state })).chains

  head_bound : c.head < length q.slots
  head_bound = omega (arith, k.head_bound, v.slots_length)

  owner : u16 (c.head + 1) ≡ suc c.head
  owner = omega (arith, k.head_bound, v.size_small)

  claimed_cases :
      (h r : ℕ)
      → slot slots h ≡ some r
      → ((c.head ≡ h) × (chains r ≡ record c { state = state }))
        ⊎ ((c.head ≢ h) × (slot q.slots h ≡ some r) × (chains r ≡ q.chains r))
  claimed_cases h r e = elim (slot-set_cases q.slots c.head (some p) h r head_bound e) [
    | inl (same, here) ↦ inl (
      same,
      subst (λ i. chains i ≡ record c { state = state }) (some-injective p r here)
          (chain-same q p (record c { state = state })),
    )
    | inr (ne, there) ↦ inr (
      ne,
      there,
      chain-other q p (record c { state = state }) r (free-elsewhere q p h r v f there),
    )
  ]

  claim-holders :
      (h r d : ℕ) → slot slots h ≡ some r → holds (chains r) d ≡ true → get_or owners d 0 ≡ suc h
  claim-holders h r d e g = elim (claimed_cases h r e) [
    | inl (same, here) ↦
        let g' : holds c d ≡ true =
          sym (held_state c state d) ∙ ap (λ x. holds x d) (sym here) ∙ g in
        ground (
          arith,
          get_or-mark_chain q.descriptor_owner c (u16 (c.head + 1)) d,
          g',
          (k.descriptors d g').0,
          v.owners_length,
          owner,
          same,
        )
    | inr (ne, there, kept) ↦
        let old = v.holders h r d there (ap (λ x. holds x d) (sym kept) ∙ g) in
        elim (Bool-cases (holds c d)) [
          | inl g' ↦ absurd (omega (arith, old, (k.descriptors d g').1))
          | inr g' ↦
              ground (arith, get_or-mark_chain q.descriptor_owner c (u16 (c.head + 1)) d, g', old)
        ]
  ]

  claim-held :
      (d h : ℕ)
      → get_or owners d 0 ≡ suc h
      → (r : ℕ) × (slot slots h ≡ some r) × (holds (chains r) d ≡ true)
  claim-held d h e = elim (Bool-cases (holds c d)) [
    | inl g ↦
        let same : c.head ≡ h = ground (
          arith,
          get_or-mark_chain q.descriptor_owner c (u16 (c.head + 1)) d,
          g,
          (k.descriptors d g).0,
          v.owners_length,
          owner,
          e,
        ) in
        (
          p,
          ground (arith, get_or-set none q.slots c.head h (some p) head_bound, same),
          ap (λ x. holds x d) (chain-same q p (record c { state = state }))
              ∙ held_state c state d
              ∙ g,
        )
    | inr g ↦
        let (r, there, g') =
          v.held d h
            (ground (arith, get_or-mark_chain q.descriptor_owner c (u16 (c.head + 1)) d, g, e)) in
        (
          r,
          ground (arith, get_or-set none q.slots c.head h (some p) head_bound, k.slot_free, there),
          ap (λ x. holds x d)
                (chain-other q p (record c { state = state }) r (free-elsewhere q p h r v f there))
              ∙ g',
        )
  ]

  pub claim-Inv :
      InUse q.side state → q.owned_count < q.queue.max_outstanding → Inv (claim p state q)
  unfolding claim
  claim-Inv in_use l = record {
    slots_length = length-set q.slots c.head (some p) ∙ v.slots_length;
    owners_length = mark_chain-length q.descriptor_owner c (u16 (c.head + 1)) ∙ v.owners_length;
    size_small = v.size_small;
    limit_small = v.limit_small;
    heads = λ h r e. elim (claimed_cases h r e) [
      | inl (same, here) ↦ ap (λ x. x.head) here ∙ same
      | inr (ne, there, kept) ↦ ap (λ x. x.head) kept ∙ v.heads h r there
    ];
    states = λ h r e. elim (claimed_cases h r e) [
      | inl (same, here) ↦ subst (λ x. InUse q.side x.state) (sym here) in_use
      | inr (ne, there, kept) ↦ subst (λ x. InUse q.side x.state) (sym kept) (v.states h r there)
    ];
    holders = claim-holders;
    held = claim-held;
    counted = ground (
      arith,
      occupied-set-some q.slots c.head p head_bound k.slot_free,
      v.counted,
      l,
      v.limit_small,
    );
    bounded = omega (arith, l, v.limit_small);
  }

-- ===== src/Virtqueue/Ownership/Moves.antt =====
-- Moving a chain of protocol/src/virtqueue.c keeps the ownership in order.
use kobox.Prelude.{
  ℕ, suc, ◌≡◌, ◌≢◌, ◌⊎◌, inl, inr, refl, Bool, true, List, Option, none, some, length-set, get_or,
  get_or-set, set, arith, ℕ_discrete, ap, sym, subst, ◌∙◌, some-injective,
}
use kobox.Virtqueue.{Chain, free, Vq, with_chain}
use kobox.Virtqueue.Chains.{direct_count}
use kobox.Virtqueue.Transfer.{moved}
use kobox.Virtqueue.Ownership.{holds, slot, InUse, Inv}
use kobox.Virtqueue.Ownership.Marks.{occupied-set_other, slot-bound}
use kobox.Virtqueue.Ownership.Claims.{slot-set_cases, free-elsewhere, chain-other, chain-same}
use kobox.Virtqueue.Ownership.Drops.{owned-elsewhere}

held_array :
    (c : Chain) (b : Bool) (n d : ℕ)
    → holds (record c { has_segments = b; capacity = n }) d ≡ holds c d
unfolding holds direct_count
held_array c b n d = refl

module _ (q : Vq) (p t : ℕ) (v : Inv q) (o : slot q.slots (q.chains p).head ≡ some p)
    (other : t ≢ p) (f : (q.chains t).state ≡ free) where
  abbrev c : Chain
  c = q.chains p

  abbrev kept : Chain
  kept = record c { has_segments = (q.chains t).has_segments; capacity = (q.chains t).capacity }

  abbrev slots : List (Option ℕ)
  slots = set q.slots c.head (some t)

  abbrev chains : ℕ → Chain
  chains = (with_chain (with_chain q t kept) p (record c { state = free })).chains

  moved_chain : chains t ≡ kept
  moved_chain =
      chain-other (with_chain q t kept) p (record c { state = free }) t other ∙ chain-same q t kept

  moved_cases :
      (h r : ℕ)
      → slot slots h ≡ some r
      → ((c.head ≡ h) × (chains r ≡ kept)) ⊎ ((slot q.slots h ≡ some r) × (chains r ≡ q.chains r))
  moved_cases h r e =
      elim (slot-set_cases q.slots c.head (some t) h r (slot-bound q.slots c.head p o) e) [
        | inl (same, here) ↦
            inl (same, subst (λ i. chains i ≡ kept) (some-injective t r here) moved_chain)
        | inr (ne, there) ↦ inr (
          there,
          chain-other (with_chain q t kept) p (record c { state = free }) r
                (owned-elsewhere q p v o h r ne there)
              ∙ chain-other q t kept r (free-elsewhere q t h r v f there),
        )
      ]

  moved-held :
      (d h : ℕ)
      → get_or q.descriptor_owner d 0 ≡ suc h
      → (r : ℕ) × (slot slots h ≡ some r) × (holds (chains r) d ≡ true)
  moved-held d h e =
      let (r, there, g) = v.held d h e in
      elim (ℕ_discrete c.head h) [
        | yes same ↦ (
          t,
          ground (
            arith,
            get_or-set none q.slots c.head h (some t) (slot-bound q.slots c.head p o),
            same,
          ),
          ap (λ x. holds x d) moved_chain
              ∙ held_array c (q.chains t).has_segments (q.chains t).capacity d
              ∙ ap (λ i. holds (q.chains i) d)
                  (some-injective p r (sym o ∙ ap (slot q.slots) same ∙ there))
              ∙ g,
        )
        | no ne ↦ (
          r,
          ground (
            arith,
            get_or-set none q.slots c.head h (some t) (slot-bound q.slots c.head p o),
            ne,
            there,
          ),
          ap (λ x. holds x d)
                (chain-other (with_chain q t kept) p (record c { state = free }) r
                    (owned-elsewhere q p v o h r ne there)
                  ∙ chain-other q t kept r (free-elsewhere q t h r v f there))
              ∙ g,
        )
      ]

  pub moved-Inv : Inv (moved p t q)
  unfolding moved
  moved-Inv = record {
    slots_length = length-set q.slots c.head (some t) ∙ v.slots_length;
    owners_length = v.owners_length;
    size_small = v.size_small;
    limit_small = v.limit_small;
    heads = λ h r e. elim (moved_cases h r e) [
      | inl (same, here) ↦ ap (λ x. x.head) here ∙ same
      | inr (there, same) ↦ ap (λ x. x.head) same ∙ v.heads h r there
    ];
    states = λ h r e. elim (moved_cases h r e) [
      | inl (same, here) ↦ subst (λ x. InUse q.side x.state) (sym here) (v.states c.head p o)
      | inr (there, same) ↦ subst (λ x. InUse q.side x.state) (sym same) (v.states h r there)
    ];
    holders = λ h r d e g. elim (moved_cases h r e) [
      | inl (same, here) ↦
          v.holders c.head p d o (
            sym (held_array c (q.chains t).has_segments (q.chains t).capacity d)
            ∙ ap (λ x. holds x d) (sym here)
            ∙ g)
          ∙ ap suc same
      | inr (there, same) ↦ v.holders h r d there (ap (λ x. holds x d) (sym same) ∙ g)
    ];
    held = moved-held;
    counted = ground (arith, occupied-set_other q.slots c.head p t o, v.counted);
    bounded = v.bounded;
  }

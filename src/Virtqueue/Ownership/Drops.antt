-- ===== src/Virtqueue/Ownership/Drops.antt =====
-- Dropping a chain of protocol/src/virtqueue.c keeps the ownership in order.
use kobox.Prelude.{
  ℕ, zero, suc, ◌<◌, ◌≡◌, ◌≢◌, inl, inr, true, List, [], ◌∷◌, Option, none, some, length,
  length-set, get_or, get_or-set, set, arith, Bool-cases, ap, sym, subst, ◌∙◌, some-injective,
  false≢true,
}
use kobox.Virtqueue.{Chain, free, Vq, with_chain}
use kobox.Virtqueue.Chains.{mark_chain, drop}
use kobox.Virtqueue.Ownership.{holds, slot, InUse, Inv}
use kobox.Virtqueue.Ownership.Marks.{
  mark_chain-length, get_or-mark_chain, occupied-set-none, slot-bound,
}
use kobox.Virtqueue.Ownership.Claims.{slot-set_cases, chain-other}

get_or-bound : (xs : List ℕ) (d h : ℕ) → get_or xs d 0 ≡ suc h → d < length xs
get_or-bound [] d h e = absurd (omega arith)
get_or-bound (x ∷ xs) zero h e = omega arith
get_or-bound (x ∷ xs) (suc d) h e = omega (arith, get_or-bound xs d h e)

module _ (q : Vq) (p : ℕ) (v : Inv q) (o : slot q.slots (q.chains p).head ≡ some p) where
  abbrev c : Chain
  c = q.chains p

  -- A chain in another slot is another chain.
  pub owned-elsewhere : (h r : ℕ) → c.head ≢ h → slot q.slots h ≡ some r → r ≢ p
  owned-elsewhere h r ne e same = ne (ap (λ i. (q.chains i).head) (sym same) ∙ v.heads h r e)

  abbrev slots : List (Option ℕ)
  slots = set q.slots c.head none

  abbrev owners : List ℕ
  owners = mark_chain q.descriptor_owner c 0

  abbrev chains : ℕ → Chain
  chains = (with_chain q p (record c { state = free })).chains

  dropped :
      (h r : ℕ)
      → slot slots h ≡ some r
      → (c.head ≢ h) × (slot q.slots h ≡ some r) × (chains r ≡ q.chains r)
  dropped h r e = elim (slot-set_cases q.slots c.head none h r (slot-bound q.slots c.head p o) e) [
    | inl (same, here) ↦ ground arith
    | inr (ne, there) ↦
        (ne, there, chain-other q p (record c { state = free }) r (owned-elsewhere h r ne there))
  ]

  drop-holders :
      (h r d : ℕ) → slot slots h ≡ some r → holds (chains r) d ≡ true → get_or owners d 0 ≡ suc h
  drop-holders h r d e g =
      let (ne, there, kept) = dropped h r e in
      let old = v.holders h r d there (ap (λ x. holds x d) (sym kept) ∙ g) in
      elim (Bool-cases (holds c d)) [
        | inl g' ↦ absurd (ne (omega (arith, old, v.holders c.head p d o g')))
        | inr g' ↦ ground (arith, get_or-mark_chain q.descriptor_owner c 0 d, g', old)
      ]

  drop-held :
      (d h : ℕ)
      → get_or owners d 0 ≡ suc h
      → (r : ℕ) × (slot slots h ≡ some r) × (holds (chains r) d ≡ true)
  drop-held d h e = elim (Bool-cases (holds c d)) [
    | inl g ↦ absurd (
        ground (
          arith,
          get_or-mark_chain q.descriptor_owner c 0 d,
          g,
          e,
          get_or-bound q.descriptor_owner d c.head (v.holders c.head p d o g),
        ))
    | inr g ↦
        let (r, there, g') =
          v.held d h (ground (arith, get_or-mark_chain q.descriptor_owner c 0 d, g, e)) in
        let ne : c.head ≢ h = λ same. false≢true (
          sym g
          ∙ ap (λ i. holds (q.chains i) d)
              (some-injective p r (sym o ∙ ap (slot q.slots) same ∙ there))
          ∙ g') in
        (
          r,
          ground (
            arith,
            get_or-set none q.slots c.head h none (slot-bound q.slots c.head p o),
            ne,
            there,
          ),
          ap (λ x. holds x d)
                (chain-other q p (record c { state = free }) r (owned-elsewhere h r ne there))
              ∙ g',
        )
  ]

  pub drop-Inv : Inv (drop p q)
  unfolding drop
  drop-Inv = record {
    slots_length = length-set q.slots c.head none ∙ v.slots_length;
    owners_length = mark_chain-length q.descriptor_owner c 0 ∙ v.owners_length;
    size_small = v.size_small;
    limit_small = v.limit_small;
    heads =
        λ h r e. let (ne, there, kept) = dropped h r e in ap (λ x. x.head) kept ∙ v.heads h r there;
    states = λ h r e.
        let (ne, there, kept) = dropped h r e in
        subst (λ x. InUse q.side x.state) (sym kept) (v.states h r there);
    holders = drop-holders;
    held = drop-held;
    counted =
        ground (arith, occupied-set-none q.slots c.head p o, v.counted, v.bounded, v.limit_small);
    bounded =
        ground (arith, occupied-set-none q.slots c.head p o, v.counted, v.bounded, v.limit_small);
  }

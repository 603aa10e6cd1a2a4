-- ===== src/Closure/Graph/Emptied.antt =====
-- The third loop of `kb2_validate_graph` of src/closure.c: as many turns as there are
-- artifacts empty its queue.
use kobox.Prelude.{
  ℕ, zero, suc, ◌+◌, ◌-◌, ◌<◌, ◌≤◌, ◌≡◌, ◌⊎◌, inl, inr, refl, Bool, true, false, List, [], ◌∷◌,
  if◌then◌else◌, length, length-append, length-set, get_or, set, arith, ap, sym, ◌∙◌, subst,
}
use kobox.Closure.{Artifact}
use kobox.Closure.Graph.{Reach, visit, visit_all, reach_turn, reach_from, root_flags, root_indices}
use kobox.Closure.Graph.Count.{Below}

-- The places that are not marked, and those that wait: a turn takes one of them away.
unfoldable pub unmarked : List Bool → ℕ
unmarked [] = 0
unmarked (b ∷ bs) = let rest = unmarked bs in if b then rest else suc rest

unmarked-set :
    (bs : List Bool) (t : ℕ)
    → t < length bs
    → get_or bs t false ≡ false
    → suc (unmarked (set bs t true)) ≡ unmarked bs
unfolding unmarked
unmarked-set [] t l e = absurd (omega arith)
unmarked-set (b ∷ bs) zero l e = ground arith
unmarked-set (b ∷ bs) (suc t) l e = ground (arith, unmarked-set bs t (omega arith) e)

unfoldable pub left : Reach → ℕ
left r = unmarked r.reachable + length r.waiting

visit-left :
    (r : Reach) (t : ℕ)
    → t < length r.reachable
    → (left (visit r t) ≡ left r) × (length (visit r t).reachable ≡ length r.reachable)
unfolding visit left
visit-left r t l =
    let e = unmarked-set r.reachable t l in
    let a = length-append r.waiting (t ∷ []) in
    let s = length-set r.reachable t true in (ground (arith, e, a), ground (arith, s))

visit_all-left :
    (r : Reach) (ts : List ℕ)
    → Below (length r.reachable) ts
    → (left (visit_all r ts) ≡ left r) × (length (visit_all r ts).reachable ≡ length r.reachable)
unfolding visit_all
visit_all-left r [] b = (refl, refl)
visit_all-left r (t ∷ ts) b =
    let (e, l) = visit-left r t b.0 in
    let (f, m) = visit_all-left (visit r t) ts (subst (λ n. Below n ts) (sym l) b.1) in
    (f ∙ e, m ∙ l)

pub length-root_flags : (rs : List Artifact) → length (root_flags rs) ≡ length rs
unfolding root_flags
length-root_flags [] = refl
length-root_flags (r ∷ rs) = ap suc (length-root_flags rs)

unmarked-roots :
    (i : ℕ) (rs : List Artifact) → unmarked (root_flags rs) + length (root_indices i rs) ≡ length rs
unfolding unmarked root_flags root_indices
unmarked-roots i [] = omega arith
unmarked-roots i (r ∷ rs) = ground (arith, unmarked-roots (suc i) rs)

pub left-roots :
    (rs : List Artifact)
    → left (record { reachable = root_flags rs; waiting = root_indices 0 rs }) ≡ length rs
unfolding left
left-roots rs = unmarked-roots 0 rs

module _ (n : ℕ) (out : ℕ → List ℕ) (bound : (u : ℕ) → Below n (out u)) where
  reach_turn-left :
      (r : Reach) (waiting : List ℕ)
      → r.waiting ≡ waiting
      → length r.reachable ≡ n
      → (length (reach_turn out r waiting).reachable ≡ n)
        × (left (reach_turn out r waiting) ≡ left r - 1 ⊎ (waiting ≡ []))
  unfolding reach_turn left
  reach_turn-left r [] e l = (l, inr refl)
  reach_turn-left r (u ∷ waiting) e l =
      let (f, m) =
        visit_all-left (record { reachable = r.reachable; waiting = waiting }) (out u)
          (subst (λ k. Below k (out u)) (sym l) (bound u)) in
      (m ∙ l, inl (omega (arith, f, ap length e)))

  reach_from-idle : (turns : ℕ) (r : Reach) → r.waiting ≡ [] → reach_from out turns r ≡ r
  unfolding reach_from reach_turn
  reach_from-idle zero r e = refl
  reach_from-idle (suc turns) r e =
      let same : reach_turn out r r.waiting ≡ r = ap (reach_turn out r) e in
      ap (reach_from out turns) same ∙ reach_from-idle turns r e

  no_items : {A : Type 0} (xs : List A) → length xs ≤ 0 → xs ≡ []
  no_items [] l = refl
  no_items (x ∷ xs) l = absurd (omega arith)

  pub reach_from-empties :
      (turns : ℕ) (r : Reach)
      → length r.reachable ≡ n
      → left r ≤ turns
      → (reach_from out turns r).waiting ≡ []
  unfolding reach_from left
  reach_from-empties zero r l h = no_items r.waiting (omega arith)
  reach_from-empties (suc turns) r l h =
      let (m, c) = reach_turn-left r r.waiting refl l in
      elim c [
        | inl e ↦ reach_from-empties turns (reach_turn out r r.waiting) m (omega (arith, e, h))
        | inr e ↦ ap (λ q. q.waiting) (reach_from-idle (suc turns) r e) ∙ e
      ]

  pub length-reach_from :
      (turns : ℕ) (r : Reach)
      → length r.reachable ≡ n
      → length (reach_from out turns r).reachable ≡ n
  unfolding reach_from
  length-reach_from zero r l = l
  length-reach_from (suc turns) r l =
      length-reach_from turns (reach_turn out r r.waiting) (reach_turn-left r r.waiting refl l).0

-- ===== src/Closure/Graph/Reaching.antt =====
-- The third loop of `kb2_validate_graph` of src/closure.c: it empties its queue, and marks only what
-- the roots lead to.
use kobox.Prelude.{
  ℕ, zero, suc, ◌+◌, ◌<◌, ◌≡◌, ◌⊎◌, inl, inr, refl, Bool, true, false, false≢true, Bool-cases, List,
  [], ◌∷◌, ◌++◌, length, get_or, get_elem?, some, set, arith, ap, subst,
}
use kobox.Closure.{Artifact}
use kobox.Closure.Graph.{
  Reach, visit, visit_all, reach_turn, reach_from, root_flags, root_indices, all_reached,
}
use kobox.Closure.Graph.Count.{times}

abbrev pub Each : (ℕ → Type 0) → List ℕ → Type 0
Each p [] = Unit
Each p (x ∷ xs) = p x × Each p xs

Each-snoc : (p : ℕ → Type 0) (xs : List ℕ) (x : ℕ) → Each p xs → p x → Each p (xs ++ (x ∷ []))
Each-snoc p [] x v h = (h, tt)
Each-snoc p (y ∷ xs) x v h = (v.0, Each-snoc p xs x v.1 h)

times-Each : (p : ℕ → Type 0) (xs : List ℕ) → ((v : ℕ) → 0 < times v xs → p v) → Each p xs
unfolding times
times-Each p [] h = tt
times-Each p (x ∷ xs) h = (h x (ground arith), times-Each p xs (λ v l. h v (ground arith)))

marked-set :
    (bs : List Bool) (t v : ℕ)
    → get_or (set bs t true) v false ≡ true
    → (t ≡ v) ⊎ (get_or bs v false ≡ true)
marked-set [] t v e = inr e
marked-set (b ∷ bs) zero zero e = inl refl
marked-set (b ∷ bs) zero (suc v) e = inr e
marked-set (b ∷ bs) (suc t) zero e = inr e
marked-set (b ∷ bs) (suc t) (suc v) e = elim (marked-set bs t v e) [
  | inl q ↦ inl (ap suc q)
  | inr q ↦ inr q
]

module _ (p : ℕ → Type 0) where
  -- What is marked or waits has the property.
  pub record Marks (r : Reach) : Type 0 where
    pub marked : (v : ℕ) → get_or r.reachable v false ≡ true → p v
    pub waits : Each p r.waiting

  visit-Marks : (r : Reach) (t : ℕ) → Marks r → p t → Marks (visit r t)
  unfolding visit
  visit-Marks r t m h = elim (Bool-cases (get_or r.reachable t false)) [
    | inl y ↦ simp y m
    | inr n ↦ simp n (record {
      marked =
          λ v e. elim (marked-set r.reachable t v e) [ inl q ↦ subst p q h | inr q ↦ m.marked v q ];
      waits = Each-snoc p r.waiting t m.waits h;
    })
  ]

  visit_all-Marks : (r : Reach) (ts : List ℕ) → Marks r → Each p ts → Marks (visit_all r ts)
  unfolding visit_all
  visit_all-Marks r [] m h = m
  visit_all-Marks r (t ∷ ts) m h = visit_all-Marks (visit r t) ts (visit-Marks r t m h.0) h.1

  module _ (out : ℕ → List ℕ) (closed : (u v : ℕ) → p u → 0 < times v (out u) → p v) where
    reach_turn-Marks :
        (r : Reach) (waiting : List ℕ)
        → r.waiting ≡ waiting
        → Marks r
        → Marks (reach_turn out r waiting)
    unfolding reach_turn
    reach_turn-Marks r [] e m = m
    reach_turn-Marks r (u ∷ waiting) e m =
        let (h, rest) : p u × Each p waiting = subst (Each p) e m.waits in
        visit_all-Marks _ (out u) (record { marked = m.marked; waits = rest })
          (times-Each p (out u) (λ v. closed u v h))

    pub reach_from-Marks : (turns : ℕ) (r : Reach) → Marks r → Marks (reach_from out turns r)
    unfolding reach_from
    reach_from-Marks zero r m = m
    reach_from-Marks (suc turns) r m =
        reach_from-Marks turns _ (reach_turn-Marks r r.waiting refl m)

pub all_reached-get :
    (bs : List Bool) (i : ℕ) → all_reached bs ≡ true → i < length bs → get_or bs i false ≡ true
unfolding all_reached
all_reached-get [] i e l = absurd (omega arith)
all_reached-get (b ∷ bs) zero e l = ground arith
all_reached-get (b ∷ bs) (suc i) e l = all_reached-get bs i (ground arith) (omega arith)

-- The artifact at an index.
abbrev pub RootAt : List Artifact → ℕ → Type 0
RootAt rs v = (r : Artifact) × (get_elem? rs v ≡ some r) × (r.is_root ≡ true)

root_flags-RootAt :
    (rs : List Artifact) (v : ℕ) → get_or (root_flags rs) v false ≡ true → RootAt rs v
unfolding root_flags
root_flags-RootAt [] v e = absurd (false≢true e)
root_flags-RootAt (r ∷ rs) zero e = (r, refl, e)
root_flags-RootAt (r ∷ rs) (suc v) e = root_flags-RootAt rs v e

Each-map : (p q : ℕ → Type 0) → ((v : ℕ) → p v → q v) → (xs : List ℕ) → Each p xs → Each q xs
Each-map p q f [] v = tt
Each-map p q f (x ∷ xs) v = (f x v.0, Each-map p q f xs v.1)

abbrev RootFrom : ℕ → List Artifact → ℕ → Type 0
RootFrom i rs v = (j : ℕ) × (i + j ≡ v) × RootAt rs j

RootFrom-cons :
    (i : ℕ) (r : Artifact) (rs : List Artifact) (v : ℕ)
    → RootFrom (suc i) rs v
    → RootFrom i (r ∷ rs) v
RootFrom-cons i r rs v (j, e, x) = (suc j, omega (arith, e), x)

root_indices-RootFrom : (i : ℕ) (rs : List Artifact) → Each (RootFrom i rs) (root_indices i rs)
unfolding root_indices
root_indices-RootFrom i [] = tt
root_indices-RootFrom i (r ∷ rs) =
    let rest = Each-map _ _ (RootFrom-cons i r rs) _ (root_indices-RootFrom (suc i) rs) in
    elim (Bool-cases r.is_root) [
      | inl y ↦ simp y ((0, omega arith, (r, refl, y)), rest)
      | inr n ↦ simp n rest
    ]

-- The loop starts with the roots marked and waiting.
pub roots-Marks :
    (p : ℕ → Type 0) (rs : List Artifact)
    → ((v : ℕ) → RootAt rs v → p v)
    → Marks p (record { reachable = root_flags rs; waiting = root_indices 0 rs })
roots-Marks p rs h = record {
  marked = λ v e. h v (root_flags-RootAt rs v e);
  waits =
      Each-map _ _
        (λ v f. let same : f.0 ≡ v = omega (arith, f.1) in h v (subst (RootAt rs) same f.2)) _
        (root_indices-RootFrom 0 rs);
}

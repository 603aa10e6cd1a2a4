-- ===== src/Closure/Graph/Resolved.antt =====
-- The edges that the first loop of `kb2_validate_graph` of src/closure.c finds for dependencies.
use kobox.Prelude.{
  ℕ, zero, suc, ◌+◌, ◌<◌, ◌≡◌, ◌⊎◌, inl, inr, refl, true, List, [], ◌∷◌, Option, none, some, ◌==◌,
  ◌&&◌, if◌then◌else◌, arith, sym, subst, ◌∙◌, ap, ℕ_discrete, false≢true, Bool-cases, ==_refl,
  ne→==, ltb,
}
use kobox.Closure.{Artifact, Dependency}
use kobox.Closure.NodeMap.{Entry, node_map_find}
use kobox.Closure.Builder.Add.{any, has_dependency}
use kobox.Closure.Graph.{Links, link, link_all}
use kobox.Closure.Graph.Count.{times, Below}
use kobox.Closure.Graph.Sorting.{due}
use kobox.Closure.Graph.Linking.{targets, providers, Within, pair_of, add_pair, resolved}

pub targets-Below : (n : ℕ) (es : List (ℕ × ℕ)) (u : ℕ) → Within n es → Below n (targets es u)
targets-Below n [] u w = tt
targets-Below n ((c, p) ∷ es) u w = elim (ℕ_discrete c u) [
  | yes e ↦ rw (e, ==_refl u) (w.0.1, targets-Below n es u w.1)
  | no d ↦ rw (ne→== c u d) (targets-Below n es u w.1)
]

pub due-cong :
    (n m : ℕ) (out out' : ℕ → List ℕ) (taken : List ℕ) (v : ℕ)
    → ((u : ℕ) → out u ≡ out' u)
    → due n out m taken v ≡ due n out' m taken v
unfolding due
due-cong n zero out out' taken v e = refl
due-cong n (suc m) out out' taken v e =
    ground (arith, due-cong n m out out' taken v e, ap (times v) (e m))

due-nil : (n m v : ℕ) → due n (targets []) m [] v ≡ 0
unfolding due times
due-nil n zero v = refl
due-nil n (suc m) v = ground (arith, due-nil n m v)

due-cons :
    (n m c p : ℕ) (es : List (ℕ × ℕ)) (v : ℕ)
    → due n (targets ((c, p) ∷ es)) m [] v
      ≡ due n (targets es) m [] v + (if ltb c m && p == v then 1 else 0)
unfolding due times
due-cons n zero c p es v = ground arith
due-cons n (suc m) c p es v = ground (arith, due-cons n m c p es v)

-- Every edge stands among the targets of one index.
pub due-times :
    (n : ℕ) (es : List (ℕ × ℕ)) (v : ℕ)
    → Within n es
    → due n (targets es) n [] v ≡ times v (providers es)
unfolding times providers
due-times n [] v w = due-nil n n v
due-times n ((c, p) ∷ es) v w = ground (arith, due-cons n n c p es v, due-times n es v w.1, w.0.0)

has_dependency-cons :
    (d : Dependency) (ds : List Dependency) (a b : ℕ)
    → has_dependency (d ∷ ds) a b ≡ true
    → ((d.consumer_node_id ≡ a) × (d.provider_node_id ≡ b)) ⊎ (has_dependency ds a b ≡ true)
unfolding has_dependency any
has_dependency-cons d ds a b h =
    elim (Bool-cases (d.consumer_node_id == a && d.provider_node_id == b)) [
      | inl y ↦ inl (ground arith, ground arith)
      | inr n ↦ inr (ground arith)
    ]

has_dependency-head :
    (d : Dependency) (ds : List Dependency)
    → has_dependency (d ∷ ds) d.consumer_node_id d.provider_node_id ≡ true
unfolding has_dependency any
has_dependency-head d ds = ground arith

has_dependency-tail :
    (d : Dependency) (ds : List Dependency) (a b : ℕ)
    → has_dependency ds a b ≡ true
    → has_dependency (d ∷ ds) a b ≡ true
unfolding has_dependency any
has_dependency-tail d ds a b h = ground arith

pair-keep :
    (e : Option (ℕ × ℕ)) (es : List (ℕ × ℕ)) (u v : ℕ)
    → 0 < times v (targets es u)
    → 0 < times v (targets (add_pair e es) u)
unfolding times
pair-keep none es u v h = h
pair-keep (some (c, p)) es u v h = ground arith

pair-here : (es : List (ℕ × ℕ)) (u v : ℕ) → 0 < times v (targets ((u, v) ∷ es) u)
unfolding times
pair-here es u v = ground arith

-- An edge is the pair that was added, or an edge of before.
pair_sound :
    (c p : Option ℕ) (es : List (ℕ × ℕ)) (u v : ℕ)
    → 0 < times v (targets (add_pair (pair_of c p) es) u)
    → ((c ≡ some u) × (p ≡ some v)) ⊎ (0 < times v (targets es u))
unfolding times
pair_sound none p es u v h = inr h
pair_sound (some c) none es u v h = inr h
pair_sound (some c) (some p) es u v h = elim (Bool-cases (c == u && p == v)) [
  | inl y ↦
      let (i, j) : (c ≡ u) × (p ≡ v) = (ground arith, ground arith) in inl (ap some i, ap some j)
  | inr n ↦ inr (ground arith)
]

module _ (find : ℕ → Option ℕ) where
  resolved-keep :
      (ds : List Dependency) (es : List (ℕ × ℕ)) (u v : ℕ)
      → 0 < times v (targets es u)
      → 0 < times v (targets (resolved find ds es) u)
  resolved-keep [] es u v h = h
  resolved-keep (d ∷ ds) es u v h =
      let e = pair_of (find d.consumer_node_id) (find d.provider_node_id) in
      resolved-keep ds (add_pair e es) u v (pair-keep e es u v h)

  -- A dependency whose artifacts are found is an edge.
  pub resolved_complete :
      (ds : List Dependency) (es : List (ℕ × ℕ)) (a b u v : ℕ)
      → has_dependency ds a b ≡ true
      → find a ≡ some u
      → find b ≡ some v
      → 0 < times v (targets (resolved find ds es) u)
  unfolding has_dependency any
  resolved_complete [] es a b u v h p q = ground arith
  resolved_complete (d ∷ ds) es a b u v h p q =
      let e = pair_of (find d.consumer_node_id) (find d.provider_node_id) in
      elim (has_dependency-cons d ds a b h) [
        | inl (i, j) ↦
            let same : e ≡ some (u, v) = rw (ap find i ∙ p, ap find j ∙ q) refl in
            resolved-keep ds (add_pair e es) u v
              (subst (λ f. 0 < times v (targets (add_pair f es) u)) (sym same) (pair-here es u v))
        | inr rest ↦ resolved_complete ds (add_pair e es) a b u v rest p q
      ]

  -- The dependency of an edge: its identifiers, where they are found, and that it is there.
  pub record Source (ds : List Dependency) (u v : ℕ) : Type 0 where
    pub consumer : ℕ
    pub provider : ℕ
    pub consumer_found : find consumer ≡ some u
    pub provider_found : find provider ≡ some v
    pub depends : has_dependency ds consumer provider ≡ true

  Source-tail :
      (d : Dependency) (ds : List Dependency) (u v : ℕ) → Source ds u v → Source (d ∷ ds) u v
  Source-tail d ds u v s = record {
    consumer = s.consumer;
    provider = s.provider;
    consumer_found = s.consumer_found;
    provider_found = s.provider_found;
    depends = has_dependency-tail d ds s.consumer s.provider s.depends;
  }

  pub resolved_sound :
      (ds : List Dependency) (es : List (ℕ × ℕ)) (u v : ℕ)
      → 0 < times v (targets (resolved find ds es) u)
      → Source ds u v ⊎ (0 < times v (targets es u))
  resolved_sound [] es u v h = inr h
  resolved_sound (d ∷ ds) es u v h =
      let c = find d.consumer_node_id in
      let p = find d.provider_node_id in
      elim (resolved_sound ds (add_pair (pair_of c p) es) u v h) [
        | inl s ↦ inl (Source-tail d ds u v s)
        | inr k ↦ elim (pair_sound c p es u v k) [
          | inl (i, j) ↦ inl (record {
            consumer = d.consumer_node_id;
            provider = d.provider_node_id;
            consumer_found = i;
            provider_found = j;
            depends = has_dependency-head d ds;
          })
          | inr l ↦ inr l
        ]
      ]

link_all-started :
    (rs : List Artifact) (map : List Entry) (ds : List Dependency) (k : Option Links) (k' : Links)
    → link_all rs map ds k ≡ some k'
    → (m : Links) × (k ≡ some m)
unfolding link_all
link_all-started rs map ds none k' e = ground arith
link_all-started rs map ds (some k) k' e = (k, refl)

link-resolves :
    (rs : List Artifact) (k m : Links) (c p : Option ℕ)
    → link rs k c p ≡ some m
    → ((u : ℕ) × (c ≡ some u)) × ((v : ℕ) × (p ≡ some v))
unfolding link
link-resolves rs k m none p e = ground arith
link-resolves rs k m (some c) none e = ground arith
link-resolves rs k m (some c) (some p) e = ((c, refl), (p, refl))

-- Where the first loop goes through, both artifacts of each dependency are found.
pub link_all-resolves :
    (rs : List Artifact) (map : List Entry) (ds : List Dependency) (k k' : Links) (a b : ℕ)
    → link_all rs map ds (some k) ≡ some k'
    → has_dependency ds a b ≡ true
    → ((u : ℕ) × (node_map_find map a ≡ some u)) × ((v : ℕ) × (node_map_find map b ≡ some v))
unfolding link_all has_dependency any
link_all-resolves rs map [] k k' a b e h = absurd (false≢true h)
link_all-resolves rs map (d ∷ ds) k k' a b e h =
    let c = node_map_find map d.consumer_node_id in
    let p = node_map_find map d.provider_node_id in
    let (m, q) = link_all-started rs map ds (link rs k c p) k' e in
    elim (has_dependency-cons d ds a b h) [
      | inl (i, j) ↦
          let ((u, x), (v, y)) = link-resolves rs k m c p q in
          ((u, ap (node_map_find map) (sym i) ∙ x), (v, ap (node_map_find map) (sym j) ∙ y))
      | inr rest ↦ link_all-resolves rs map ds m k' a b (ap (link_all rs map ds) (sym q) ∙ e) rest
    ]

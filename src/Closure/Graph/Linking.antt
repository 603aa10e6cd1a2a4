-- ===== src/Closure/Graph/Linking.antt =====
-- The first loop of `kb2_validate_graph` of src/closure.c: the arrays that it fills hold the edges.
use kobox.Prelude.{
  ℕ, suc, ◌-◌, ◌<◌, ◌^◌, ◌≡◌, ◌≢◌, refl, List, [], ◌∷◌, Option, none, some, ◌==◌, if◌then◌else◌,
  length, set, length-set, get_or, get_or-set, arith, subst, ◌∙◌, ap, ℕ_discrete,
}
use kobox.Closure.{Artifact, Dependency}
use kobox.Closure.NodeMap.{Entry, node_map_find}
use kobox.Closure.Graph.{Edge, Links, add_edge, link, link_all, walk, targets_of}
use kobox.Closure.Graph.Count.{times}

-- Edges as pairs of consumer and provider, the last one first.
abbrev pub targets : List (ℕ × ℕ) → ℕ → List ℕ
targets [] u = []
targets ((c, p) ∷ es) u = if c == u then p ∷ targets es u else targets es u

unfoldable pub providers : List (ℕ × ℕ) → List ℕ
providers [] = []
providers ((c, p) ∷ es) = p ∷ providers es

abbrev pub Within : ℕ → List (ℕ × ℕ) → Type 0
Within n [] = Unit
Within n ((c, p) ∷ es) = ((c < n) × (p < n)) × Within n es

-- The arrays hold these edges.
pub record Linked (n : ℕ) (k : Links) (es : List (ℕ × ℕ)) : Type 0 where
  pub heads_length : length k.heads ≡ n
  pub incoming_length : length k.incoming ≡ n
  pub heads_bound : (u i : ℕ) → get_or k.heads u none ≡ some i → i < length k.edges
  pub walked : (u : ℕ) → targets_of k u ≡ targets es u
  pub incoming_times : (v : ℕ) → get_or k.incoming v 0 ≡ times v (providers es)
  pub incoming_small : (v : ℕ) → get_or k.incoming v 0 < 2 ^ 32
  pub within : Within n es

walk-skip :
    (e : Edge) (es : List Edge) (h : Option ℕ)
    → ((i : ℕ) → h ≡ some i → i < length es)
    → walk (e ∷ es) h ≡ walk es h
unfolding walk
walk-skip e es none b = refl
walk-skip e es (some i) b = ground (arith, b i refl)

walk-here :
    (e : Edge) (es : List Edge) → walk (e ∷ es) (some (length es)) ≡ e.target ∷ walk es e.next
unfolding walk
walk-here e es = ground arith

targets_of-add_edge :
    (k : Links) (c p u : ℕ)
    → c < length k.heads
    → ((i : ℕ) → get_or k.heads u none ≡ some i → i < length k.edges)
    → targets_of (add_edge k c p) u ≡ (if c == u then p ∷ targets_of k u else targets_of k u)
unfolding add_edge targets_of
targets_of-add_edge k c p u l b =
    let head = get_or-set none k.heads c u (some (length k.edges)) l in
    let e : Edge = record { next = get_or k.heads c none; target = p } in
    elim (ℕ_discrete c u) [
      | yes same ↦
          let here : get_or (set k.heads c (some (length k.edges))) u none ≡ some (length k.edges) =
            ground arith in
          ap (walk (e ∷ k.edges)) here
          ∙ walk-here e k.edges
          ∙ ground (arith, ap (λ w. walk k.edges (get_or k.heads w none)) same)
      | no other ↦
          let there : get_or (set k.heads c (some (length k.edges))) u none
              ≡ get_or k.heads u none =
            ground arith in
          ap (walk (e ∷ k.edges)) there
          ∙ walk-skip e k.edges (get_or k.heads u none) b
          ∙ ground arith
    ]

add_edge-Linked :
    (n : ℕ) (k : Links) (es : List (ℕ × ℕ)) (c p : ℕ)
    → c < n
    → p < n
    → get_or k.incoming p 0 ≢ 2 ^ 32 - 1
    → Linked n k es
    → Linked n (add_edge k c p) ((c, p) ∷ es)
unfolding add_edge times providers
add_edge-Linked n k es c p cb pb room l =
    let head = λ (u : ℕ).
      get_or-set none k.heads c u (some (length k.edges)) (omega (arith, l.heads_length, cb)) in
    let count = λ (v : ℕ).
      get_or-set 0 k.incoming p v (suc (get_or k.incoming p 0))
        (omega (arith, l.incoming_length, pb)) in
    record {
      heads_length = omega (arith, length-set k.heads c (some (length k.edges)), l.heads_length);
      incoming_length =
          omega (arith, length-set k.incoming p (suc (get_or k.incoming p 0)), l.incoming_length);
      heads_bound = λ u i e. ground (arith, head u, l.heads_bound u i);
      walked = λ u. ground (
        arith,
        targets_of-add_edge k c p u (omega (arith, l.heads_length, cb)) (l.heads_bound u),
        l.walked u,
        λ (e : c ≡ u). ap (targets es) e,
      );
      incoming_times = λ v. ground (
        arith,
        count v,
        l.incoming_times v,
        l.incoming_times p,
        λ (e : p ≡ v). ap (λ w. times w (providers es)) e,
      );
      incoming_small = λ v. ground (arith, count v, l.incoming_small v, l.incoming_small p);
      within = ((cb, pb), l.within);
    }

-- The pair of indices of a dependency, where both are found.
abbrev pub pair_of : Option ℕ → Option ℕ → Option (ℕ × ℕ)
pair_of none p = none
pair_of (some c) none = none
pair_of (some c) (some p) = some (c, p)

abbrev pub add_pair : Option (ℕ × ℕ) → List (ℕ × ℕ) → List (ℕ × ℕ)
add_pair none es = es
add_pair (some e) es = e ∷ es

abbrev pub resolved : (ℕ → Option ℕ) → List Dependency → List (ℕ × ℕ) → List (ℕ × ℕ)
resolved find [] es = es
resolved find (d ∷ ds) es =
    resolved find ds (add_pair (pair_of (find d.consumer_node_id) (find d.provider_node_id)) es)

link-Linked :
    (n : ℕ) (rs : List Artifact) (k k' : Links) (es : List (ℕ × ℕ)) (c p : Option ℕ)
    → ((i : ℕ) → c ≡ some i → i < n)
    → ((i : ℕ) → p ≡ some i → i < n)
    → Linked n k es
    → link rs k c p ≡ some k'
    → Linked n k' (add_pair (pair_of c p) es)
unfolding link
link-Linked n rs k k' es none p cb pb l e = ground arith
link-Linked n rs k k' es (some c) none cb pb l e = ground arith
link-Linked n rs k k' es (some c) (some p) cb pb l e =
    let room : get_or k.incoming p 0 ≢ 2 ^ 32 - 1 = ground arith in
    let same : add_edge k c p ≡ k' = ground arith in
    subst (λ m. Linked n m ((c, p) ∷ es)) same
      (add_edge-Linked n k es c p (cb c refl) (pb p refl) room l)

module _ (n : ℕ) (rs : List Artifact) (map : List Entry)
    (bound : (id i : ℕ) → node_map_find map id ≡ some i → i < n) where
  pub link_all-Linked :
      (k : Option Links) (k' : Links) (ds : List Dependency) (es : List (ℕ × ℕ))
      → ((m : Links) → k ≡ some m → Linked n m es)
      → link_all rs map ds k ≡ some k'
      → Linked n k' (resolved (node_map_find map) ds es)
  unfolding link_all
  link_all-Linked none k' ds es l e = ground arith
  link_all-Linked (some k) k' [] es l e = l k' e
  link_all-Linked (some k) k' (d ∷ ds) es l e =
      let c = node_map_find map d.consumer_node_id in
      let p = node_map_find map d.provider_node_id in
      link_all-Linked (link rs k c p) k' ds (add_pair (pair_of c p) es)
        (λ m q. link-Linked n rs k m es c p (bound _) (bound _) (l k refl) q) e

-- ===== src/Closure/Graph/Sound.antt =====
-- What `kb2_validate_graph` of src/closure.c accepts has no cycle, and each artifact is needed by a
-- root.
use kobox.Prelude.{
  ℕ, zero, suc, ◌<◌, ◌≡◌, ◌≢◌, inl, inr, refl, true, List, [], ◌∷◌, Option, none, some, length,
  length-replicate, replicate, get_or, get_elem?, arith, sym, subst, ◌∙◌, ap, Option-cases,
}
use kobox.Status.{ok}
use kobox.Closure.{Artifact, Dependency, Storage}
use kobox.Closure.NodeMap.{Entry, node_map_find}
use kobox.Closure.NodeMap.Found.{artifact_index, artifact_index-at}
use kobox.Closure.Builder.Add.{has_dependency}
use kobox.Closure.Graph.{
  Links, Order, Reach, link_all, no_links, walk, targets_of, order_from, first_order, reach_from,
  root_flags, root_indices, all_reached, judge_graph, check_graph,
}
use kobox.Closure.Graph.Count.{times, Below}
use kobox.Closure.Graph.Sorting.{Sorting}
use kobox.Closure.Graph.Ranks.{first_order-Sorting, order_from-ranks}
use kobox.Closure.Graph.Linking.{targets, providers, resolved, Linked, link_all-Linked}
use kobox.Closure.Graph.Resolved.{
  targets-Below, due-cong, due-times, Source, resolved_complete, resolved_sound, link_all-resolves,
}
use kobox.Closure.Graph.Reaching.{RootAt, reach_from-Marks, roots-Marks, all_reached-get}
use kobox.Closure.Graph.Emptied.{length-root_flags, length-reach_from}

-- A chain of one or more dependencies.
pub data Reaches (ds : List Dependency) : ℕ → ℕ → Type 0 where
  direct : (a b : ℕ) → has_dependency ds a b ≡ true → Reaches ds a b
  further : (a b c : ℕ) → has_dependency ds a b ≡ true → Reaches ds b c → Reaches ds a c

-- No artifact depends on itself by any chain.
abbrev pub Acyclic : List Dependency → Type 0
Acyclic ds = (a : ℕ) → Reaches ds a a → ⊥

-- A root, or what a dependency of such an artifact provides.
pub data Needed (s : Storage) : ℕ → Type 0 where
  root :
      (i : ℕ) (r : Artifact)
      → get_elem? s.artifacts.items i ≡ some r
      → r.is_root ≡ true
      → Needed s r.node_id
  provider : (a b : ℕ) → Needed s a → has_dependency s.dependencies.items a b ≡ true → Needed s b

abbrev pub AllNeeded : Storage → Type 0
AllNeeded s = (i : ℕ) (r : Artifact) → get_elem? s.artifacts.items i ≡ some r → Needed s r.node_id

get_or-replicate : {A : Type 0} (n i : ℕ) (d : A) → get_or (replicate n d) i d ≡ d
get_or-replicate zero i d = refl
get_or-replicate (suc n) zero d = refl
get_or-replicate (suc n) (suc i) d = get_or-replicate n i d

no_links-Linked : (n : ℕ) → Linked n (no_links n) []
unfolding no_links targets_of walk times providers
no_links-Linked n = record {
  heads_length = length-replicate n none;
  incoming_length = length-replicate n 0;
  heads_bound = λ u i e. ground (arith, get_or-replicate {A = Option ℕ} n u none, e);
  walked = λ u. ap (walk []) (get_or-replicate n u none);
  incoming_times = λ v. get_or-replicate n v 0;
  incoming_small = λ v. omega (arith, get_or-replicate {A = ℕ} n v 0);
  within = tt;
}

module _ (n : ℕ) (k : Links) (es : List (ℕ × ℕ)) (l : Linked n k es) where
  pub targets_of-Below : (u : ℕ) → Below n (targets_of k u)
  targets_of-Below u = subst (Below n) (sym (l.walked u)) (targets-Below n es u l.within)

  pub linked-Sorting : Sorting n (targets_of k) (first_order k.incoming) []
  linked-Sorting =
      first_order-Sorting n (targets_of k) k.incoming l.incoming_length l.incoming_small (λ v b.
        l.incoming_times v
        ∙ sym (due-times n es v l.within)
        ∙ sym (due-cong n n (targets_of k) (targets es) [] v l.walked))

length-at : {A : Type 0} (xs : List A) (i : ℕ) (x : A) → get_elem? xs i ≡ some x → i < length xs
length-at [] i x e = ground arith
length-at (y ∷ xs) zero x e = omega arith
length-at (y ∷ xs) (suc i) x e = omega (arith, length-at xs i x e)

times-none : (v : ℕ) → 0 < times v [] → ⊥
unfolding times
times-none v h = omega arith

-- The storage's artifacts are found by their identifiers.
abbrev pub Finds : Storage → List Entry → Type 0
Finds s map = (node_id : ℕ) → node_map_find map node_id ≡ artifact_index 0 s.artifacts.items node_id

module _ (s : Storage) (map : List Entry) (f : Finds s map) where
  pub found_at :
      (node_id i : ℕ)
      → node_map_find map node_id ≡ some i
      → (r : Artifact) × (get_elem? s.artifacts.items i ≡ some r) × (r.node_id ≡ node_id)
  found_at node_id i e =
      let (j, q, at) = artifact_index-at 0 s.artifacts.items node_id i (sym (f node_id) ∙ e) in
      let same : j ≡ i = omega (arith, q) in
      subst (λ m. (r : Artifact) × (get_elem? s.artifacts.items m ≡ some r) × (r.node_id ≡ node_id))
        same at

  found_bound : (node_id i : ℕ) → node_map_find map node_id ≡ some i → i < length s.artifacts.items
  found_bound node_id i e =
      let (r, at, same) = found_at node_id i e in length-at s.artifacts.items i r at

  abbrev pub filled : Option Links
  filled =
      link_all s.artifacts.items map s.dependencies.items
        (some (no_links (length s.artifacts.items)))

  module _ (k : Links) (e : filled ≡ some k) where
    abbrev pub edges : List (ℕ × ℕ)
    edges = resolved (node_map_find map) s.dependencies.items []

    pub filled-Linked : Linked (length s.artifacts.items) k edges
    filled-Linked =
        link_all-Linked (length s.artifacts.items) s.artifacts.items map found_bound _ k
          s.dependencies.items []
          (λ m q.
            let same : no_links (length s.artifacts.items) ≡ m = ground arith in
            subst (λ j. Linked (length s.artifacts.items) j []) same
              (no_links-Linked (length s.artifacts.items)))
          e

    -- An edge between two indices comes from a dependency.
    edge-Source :
        (u v : ℕ)
        → 0 < times v (targets_of k u)
        → Source (node_map_find map) s.dependencies.items u v
    edge-Source u v h =
        let h' = subst (λ ts. 0 < times v ts) (filled-Linked.walked u) h in
        elim (resolved_sound (node_map_find map) s.dependencies.items [] u v h') [
          | inl x ↦ x
          | inr x ↦ absurd (times-none v x)
        ]

    dependency-edge :
        (a b u v : ℕ)
        → has_dependency s.dependencies.items a b ≡ true
        → node_map_find map a ≡ some u
        → node_map_find map b ≡ some v
        → 0 < times v (targets_of k u)
    dependency-edge a b u v h p q =
        subst (λ ts. 0 < times v ts) (sym (filled-Linked.walked u))
          (resolved_complete (node_map_find map) s.dependencies.items [] a b u v h p q)

    -- Ranks that grow along the edges grow along the chains.
    Reaches-rank :
        (rank : ℕ → ℕ)
        → ((u v : ℕ)
            → u < length s.artifacts.items
            → v < length s.artifacts.items
            → 0 < times v (targets_of k u)
            → rank u < rank v)
        → (a b : ℕ) → Reaches s.dependencies.items a b
        → (u v : ℕ) → node_map_find map a ≡ some u
        → node_map_find map b ≡ some v
        → rank u < rank v
    Reaches-rank rank grows a b (direct _ _ h) u v p q =
        grows u v (found_bound a u p) (found_bound b v q) (dependency-edge a b u v h p q)
    Reaches-rank rank grows a b (further _ c _ h rest) u v p q =
        let ((u', _), (w, r)) =
          link_all-resolves s.artifacts.items map s.dependencies.items _ k a c e h in
        omega (
          arith,
          grows u w (found_bound a u p) (found_bound c w r) (dependency-edge a c u w h p r),
          Reaches-rank rank grows c b rest w v r q,
        )

    Reaches-found :
        (a b : ℕ) → Reaches s.dependencies.items a b → (u : ℕ) × (node_map_find map a ≡ some u)
    Reaches-found a b (direct _ _ h) =
        (link_all-resolves s.artifacts.items map s.dependencies.items _ k a b e h).0
    Reaches-found a b (further _ c _ h rest) =
        (link_all-resolves s.artifacts.items map s.dependencies.items _ k a c e h).0

    abbrev sorting_end : Order
    sorting_end = order_from (targets_of k) (length s.artifacts.items) (first_order k.incoming)

    abbrev reaching_end : Reach
    reaching_end = reach_from (targets_of k) (length s.artifacts.items) (record {
      reachable = root_flags s.artifacts.items;
      waiting = root_indices 0 s.artifacts.items;
    })

    sorted-Acyclic : sorting_end.processed ≡ length s.artifacts.items → Acyclic s.dependencies.items
    sorted-Acyclic p a r =
        let n = length s.artifacts.items in
        let (rank, grows) =
          order_from-ranks n (targets_of k) (first_order k.incoming)
            (λ u h. targets_of-Below n k edges filled-Linked u)
            (linked-Sorting n k edges filled-Linked) p in
        let (u, q) = Reaches-found a a r in
        absurd (omega (arith, Reaches-rank rank grows a a r u u q q))

    abbrev NeededAt : ℕ → Type 0
    NeededAt v = (r : Artifact) → get_elem? s.artifacts.items v ≡ some r → Needed s r.node_id

    NeededAt-edge : (u v : ℕ) → NeededAt u → 0 < times v (targets_of k u) → NeededAt v
    NeededAt-edge u v h edge r at =
        let x = edge-Source u v edge in
        let (c, at_c, same_c) = found_at x.consumer u x.consumer_found in
        let (p, at_p, same_p) = found_at x.provider v x.provider_found in
        let same : p ≡ r = ground arith in
        let needs = subst (Needed s) same_c (h c at_c) in
        subst (Needed s) (sym same_p ∙ ap (λ q. q.node_id) same)
          (Needed.provider x.consumer x.provider needs x.depends)

    RootAt-Needed : (v : ℕ) → RootAt s.artifacts.items v → NeededAt v
    RootAt-Needed v (r, at, is_root) q at' =
        let same : r ≡ q = ground arith in
        subst (λ t. Needed s t.node_id) same (Needed.root v r at is_root)

    reached-AllNeeded : all_reached reaching_end.reachable ≡ true → AllNeeded s
    reached-AllNeeded all i r at =
        let n = length s.artifacts.items in
        let marks =
          reach_from-Marks NeededAt (targets_of k) NeededAt-edge n _
            (roots-Marks NeededAt s.artifacts.items RootAt-Needed) in
        let l = length-at s.artifacts.items i r at in
        marks.marked i
          (all_reached-get reaching_end.reachable i all (
            omega (
              arith,
              length-reach_from n (targets_of k) (targets_of-Below n k edges filled-Linked) n _
                  (length-root_flags s.artifacts.items),
              l,
            )))
          r at

judge_graph-ok :
    (rs : List Artifact) (k : Links)
    → judge_graph rs (some k) ≡ ok
    → ((order_from (targets_of k) (length rs) (first_order k.incoming)).processed ≡ length rs)
      × (all_reached
            (reach_from
              (targets_of k)
              (length rs)
              (record { reachable = root_flags rs; waiting = root_indices 0 rs })).reachable
          ≡ true)
unfolding judge_graph
judge_graph-ok rs k e = (ground arith, ground arith)

judge_graph-none : (rs : List Artifact) → judge_graph rs none ≢ ok
unfolding judge_graph
judge_graph-none rs e = ground arith

pub check_graph_sound :
    (s : Storage) (map : List Entry)
    → Finds s map
    → check_graph s map ≡ ok
    → Acyclic s.dependencies.items × AllNeeded s
unfolding check_graph
check_graph_sound s map f e = elim (Option-cases (filled s map f)) [
  | inl q ↦
      absurd (judge_graph-none s.artifacts.items (ap (judge_graph s.artifacts.items) (sym q) ∙ e))
  | inr (k, q) ↦
      let (p, all) =
        judge_graph-ok s.artifacts.items k (ap (judge_graph s.artifacts.items) (sym q) ∙ e) in
      (sorted-Acyclic s map f k q p, reached-AllNeeded s map f k q all)
]

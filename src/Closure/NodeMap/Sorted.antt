-- ===== src/Closure/NodeMap/Sorted.antt =====
-- The sort of the node map of src/closure.c keeps the entries and puts them in order.
use kobox.Prelude.{
  ℕ, zero, suc, ◌≤◌, ◌<◌, Bool, false, List, [], ◌∷◌, ltb, if◌then◌else◌, length, get_or, arith,
  Bool-cases, inl, inr, true,
}
use kobox.Closure.NodeMap.{Entry, zero_entry, sink, sort_from, in_order, sort_node_map}

-- What holds of each entry.
abbrev pub Each : (Entry → Type 0) → List Entry → Type 0
Each p [] = Unit
Each p (e ∷ es) = p e × Each p es

Each-weaken :
    (p q : Entry → Type 0) → ((e : Entry) → p e → q e) → (es : List Entry) → Each p es → Each q es
Each-weaken p q f [] v = tt
Each-weaken p q f (e ∷ es) v = (f e v.0, Each-weaken p q f es v.1)

pub Each-both :
    (p q r : Entry → Type 0)
    → ((e : Entry) → p e → q e → r e)
    → (es : List Entry) → Each p es
    → Each q es
    → Each r es
Each-both p q r f [] v w = tt
Each-both p q r f (e ∷ es) v w = (f e v.0 w.0, Each-both p q r f es v.1 w.1)

Each-always : (p : Entry → Type 0) → ((e : Entry) → p e) → (es : List Entry) → Each p es
Each-always p f [] = tt
Each-always p f (e ∷ es) = (f e, Each-always p f es)

-- The sort keeps what holds of each entry, and holds nothing of them that did not hold.
module _ (p : Entry → Type 0) where
  Each-sink : (e : Entry) (es : List Entry) → p e → Each p es → Each p (sink e es)
  unfolding sink
  Each-sink e [] h v = (h, tt)
  Each-sink e (x ∷ es) h v = elim (Bool-cases (ltb e.node_id x.node_id)) [
    | inl y ↦ rw y (v.0, Each-sink e es h v.1)
    | inr n ↦ rw n (h, v)
  ]

  Each-unsink : (e : Entry) (es : List Entry) → Each p (sink e es) → p e × Each p es
  unfolding sink
  Each-unsink e [] v = v
  Each-unsink e (x ∷ es) v = by_test _ (Each-unsink e es) v
    where
      by_test :
          (b : Bool)
          → (Each p (sink e es) → p e × Each p es)
          → Each p (if b then x ∷ sink e es else e ∷ x ∷ es)
          → p e × Each p (x ∷ es)
      by_test true rest w = let (h, t) = rest w.1 in (h, (w.0, t))
      by_test false rest w = w

  Each-sort_from :
      (before rest : List Entry) → Each p before → Each p rest → Each p (sort_from before rest)
  unfolding sort_from
  Each-sort_from before [] v w = v
  Each-sort_from before (e ∷ rest) v w =
      Each-sort_from (sink e before) rest (Each-sink e before w.0 v) w.1

  Each-unsort_from :
      (before rest : List Entry) → Each p (sort_from before rest) → Each p before × Each p rest
  unfolding sort_from
  Each-unsort_from before [] v = (v, tt)
  Each-unsort_from before (e ∷ rest) v =
      let (s, t) = Each-unsort_from (sink e before) rest v in
      let (h, u) = Each-unsink e before s in (u, (h, t))

  Each-in_order :
      (sorted before : List Entry) → Each p sorted → Each p before → Each p (in_order sorted before)
  unfolding in_order
  Each-in_order sorted [] v w = v
  Each-in_order sorted (e ∷ before) v w = Each-in_order (e ∷ sorted) before (w.0, v) w.1

  Each-unin_order :
      (sorted before : List Entry) → Each p (in_order sorted before) → Each p sorted × Each p before
  unfolding in_order
  Each-unin_order sorted [] v = (v, tt)
  Each-unin_order sorted (e ∷ before) v =
      let (s, t) = Each-unin_order (e ∷ sorted) before v in (s.1, (s.0, t))

  pub Each-sort_node_map : (es : List Entry) → Each p es → Each p (sort_node_map es)
  unfolding sort_node_map
  Each-sort_node_map [] v = tt
  Each-sort_node_map (e ∷ es) v =
      Each-in_order [] (sort_from (e ∷ []) es) tt (Each-sort_from (e ∷ []) es (v.0, tt) v.1)

  pub Each-unsort_node_map : (es : List Entry) → Each p (sort_node_map es) → Each p es
  unfolding sort_node_map
  Each-unsort_node_map [] v = tt
  Each-unsort_node_map (e ∷ es) v =
      let (s, t) = Each-unsort_from (e ∷ []) es (Each-unin_order [] (sort_from (e ∷ []) es) v).1 in
      (s.0, t)

  pub Each-get_or :
      (es : List Entry) (i : ℕ) → Each p es → i < length es → p (get_or es i zero_entry)
  Each-get_or [] i v l = elim l [ ]
  Each-get_or (e ∷ es) zero v l = v.0
  Each-get_or (e ∷ es) (suc i) v l = Each-get_or es i v.1 (omega arith)

  pub get_or-Each :
      (es : List Entry) → ((i : ℕ) → i < length es → p (get_or es i zero_entry)) → Each p es
  get_or-Each [] h = tt
  get_or-Each (e ∷ es) h = (h zero (omega arith), get_or-Each es (λ i l. h (suc i) (omega arith)))

-- Descending from the nearest entry on, and ascending from the first on.
abbrev AtMost : ℕ → Entry → Type 0
AtMost n e = e.node_id ≤ n

abbrev pub AtLeast : ℕ → Entry → Type 0
AtLeast n e = n ≤ e.node_id

abbrev Descending : List Entry → Type 0
Descending [] = Unit
Descending (e ∷ es) = Each (AtMost e.node_id) es × Descending es

abbrev pub Ascending : List Entry → Type 0
Ascending [] = Unit
Ascending (e ∷ es) = Each (AtLeast e.node_id) es × Ascending es

sink-Descending : (e : Entry) (es : List Entry) → Descending es → Descending (sink e es)
unfolding sink
sink-Descending e [] d = (tt, tt)
sink-Descending e (x ∷ es) d = elim (Bool-cases (ltb e.node_id x.node_id)) [
  | inl y ↦ rw y (Each-sink _ e es (ground arith) d.0, sink-Descending e es d.1)
  | inr n ↦
      let le : x.node_id ≤ e.node_id = ground arith in
      rw n ((le, Each-weaken _ _ (λ f h. omega arith) es d.0), d)
]

sort_from-Descending :
    (before rest : List Entry) → Descending before → Descending (sort_from before rest)
unfolding sort_from
sort_from-Descending before [] d = d
sort_from-Descending before (e ∷ rest) d =
    sort_from-Descending (sink e before) rest (sink-Descending e before d)

in_order-Ascending :
    (sorted before : List Entry)
    → Ascending sorted
    → Descending before
    → Each (λ e. Each (AtLeast e.node_id) sorted) before
    → Ascending (in_order sorted before)
unfolding in_order
in_order-Ascending sorted [] a d v = a
in_order-Ascending sorted (e ∷ before) a d v =
    in_order-Ascending (e ∷ sorted) before (v.0, a) d.1
      (Each-both _ _ _ (λ f h k. (h, k)) before d.0 v.1)

pub sort_node_map-Ascending : (es : List Entry) → Ascending (sort_node_map es)
unfolding sort_node_map
sort_node_map-Ascending [] = tt
sort_node_map-Ascending (e ∷ es) =
    let d = sort_from-Descending (e ∷ []) es (tt, tt) in
    in_order-Ascending [] (sort_from (e ∷ []) es) tt d
      (Each-always _ (λ f. tt) (sort_from (e ∷ []) es))

pub Ascending-le :
    (es : List Entry) (i j : ℕ)
    → Ascending es
    → i ≤ j
    → j < length es
    → (get_or es i zero_entry).node_id ≤ (get_or es j zero_entry).node_id
Ascending-le [] i j a h l = elim l [ ]
Ascending-le (e ∷ es) zero zero a h l = omega arith
Ascending-le (e ∷ es) zero (suc j) a h l = Each-get_or _ es j a.0 (omega arith)
Ascending-le (e ∷ es) (suc i) zero a h l = absurd (omega arith)
Ascending-le (e ∷ es) (suc i) (suc j) a h l = Ascending-le es i j a.1 (omega arith) (omega arith)

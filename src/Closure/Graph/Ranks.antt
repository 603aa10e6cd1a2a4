-- ===== src/Closure/Graph/Ranks.antt =====
-- What the second loop of `kb2_validate_graph` of src/closure.c comes to, from the counts of the
-- first loop on.
use kobox.Prelude.{
  ℕ, zero, suc, ◌+◌, ◌≤◌, ◌<◌, ◌^◌, ◌≡◌, inl, inr, refl, List, [], ◌∷◌, ◌++◌, ◌==◌, if◌then◌else◌,
  length, length-append, get_or, arith, sym, subst, ℕ_discrete, ne→==, ap,
}
use kobox.Closure.Graph.{Order, order_from, first_order, zeroes}
use kobox.Closure.Graph.Count.{times, times-append, Below, Below-append, length_bound, times_full}
use kobox.Closure.Graph.Sorting.{due, Ordered, Sorting, order_from-Sorting}

times-zeroes_below : (i j : ℕ) (ns : List ℕ) → j < i → times j (zeroes i ns) ≡ 0
unfolding times zeroes
times-zeroes_below i j [] l = refl
times-zeroes_below i j (n ∷ ns) l = ground (arith, times-zeroes_below (suc i) j ns (omega arith))

times-zeroes :
    (i v : ℕ) (ns : List ℕ)
    → v < length ns
    → times (i + v) (zeroes i ns) ≡ (if get_or ns v 0 == 0 then 1 else 0)
unfolding times zeroes
times-zeroes i v [] l = absurd (omega arith)
times-zeroes i zero (n ∷ ns) l = ground (arith, times-zeroes_below (suc i) i ns (omega arith))
times-zeroes i (suc v) (n ∷ ns) l = ground (arith, times-zeroes (suc i) v ns (omega arith))

zeroes-Below : (i : ℕ) (ns : List ℕ) → Below (i + length ns) (zeroes i ns)
unfolding zeroes
zeroes-Below i [] = tt
zeroes-Below i (n ∷ ns) =
    let e : suc i + length ns ≡ i + length (n ∷ ns) = omega arith in
    let rest = subst (λ m. Below m (zeroes (suc i) ns)) e (zeroes-Below (suc i) ns) in
    elim (ℕ_discrete n 0) [ yes e ↦ rw e (omega arith, rest) | no d ↦ rw (ne→== n 0 d) rest ]

module _ (n : ℕ) (out : ℕ → List ℕ) where
  pub first_order-Sorting :
      (incoming : List ℕ)
      → length incoming ≡ n
      → ((v : ℕ) → get_or incoming v 0 < 2 ^ 32)
      → ((v : ℕ) → v < n → get_or incoming v 0 ≡ due n out n [] v)
      → Sorting n out (first_order incoming) []
  unfolding first_order times
  first_order-Sorting incoming l small d = record {
    same_length = l;
    counted = refl;
    small = small;
    due_left = λ v b. omega (arith, d v b);
    queued = λ v b.
        let e : 0 + v ≡ v = omega arith in
        ground (
          arith,
          times-zeroes 0 v incoming (omega (arith, l, b)),
          ap (λ w. times w (zeroes 0 incoming)) e,
        );
    taken_below = tt;
    waiting_below =
        let e : 0 + length incoming ≡ n = omega (arith, l) in
        subst (λ m. Below m (zeroes 0 incoming)) e (zeroes-Below 0 incoming);
    ordered = tt;
  }

  pub queue_bound : (o : Order) → Sorting n out o [] → length o.taken + length o.waiting ≤ n
  queue_bound o s = omega (
    arith,
    length-append o.taken o.waiting,
    length_bound n (o.taken ++ o.waiting)
        (Below-append n o.taken o.waiting s.taken_below s.waiting_below)
        (λ v b. ground (arith, times-append v o.taken o.waiting, s.queued v b)),
  )

  no_items : {A : Type 0} (xs : List A) → length xs ≤ 0 → xs ≡ []
  no_items [] l = refl
  no_items (x ∷ xs) l = absurd (omega arith)

  -- With as many turns as there are indices the queue is empty at the end.
  pub order_from-emptied :
      (o : Order)
      → ((u : ℕ) → u < n → Below n (out u))
      → o.processed ≡ 0
      → Sorting n out o []
      → (order_from out n o).waiting ≡ []
  order_from-emptied o b z s =
      let (t, r) = order_from-Sorting n out n o b s in
      elim r [
        | inl e ↦ e
        | inr p ↦ no_items _ (omega (arith, queue_bound (order_from out n o) t, p, z, t.counted))
      ]

  -- How far from the end of the list an index first occurs.
  rank : List ℕ → ℕ → ℕ
  rank [] v = 0
  rank (x ∷ xs) v = if x == v then suc (length xs) else rank xs v

  rank_bound : (xs : List ℕ) (v : ℕ) → rank xs v ≤ length xs
  unfolding rank
  rank_bound [] v = omega arith
  rank_bound (x ∷ xs) v = ground (arith, rank_bound xs v)

  Ordered-closed :
      (xs : List ℕ) (u v : ℕ)
      → Ordered n out xs
      → u < n
      → 0 < times v (out u)
      → 0 < times v xs
      → 0 < times u xs
  unfolding times
  Ordered-closed [] u v d l h m = absurd (omega arith)
  Ordered-closed (x ∷ xs) u v d l h m = elim (ℕ_discrete x v) [
    | yes e ↦ ground (arith, d.0 u l (subst (λ w. 0 < times w (out u)) (sym e) h))
    | no r ↦ ground (arith, Ordered-closed xs u v d.1 l h)
  ]

  rank-lt :
      (xs : List ℕ) (u v : ℕ)
      → Ordered n out xs
      → times u xs ≤ 1
      → u < n
      → 0 < times v (out u)
      → 0 < times v xs
      → rank xs u < rank xs v
  unfolding rank times
  rank-lt [] u v d once l h m = absurd (omega arith)
  rank-lt (x ∷ xs) u v d once l h m = elim (ℕ_discrete x v) [
    | yes e ↦ ground (arith, d.0 u l (subst (λ w. 0 < times w (out u)) (sym e) h), rank_bound xs u)
    | no r ↦ ground (arith, rank-lt xs u v d.1 (ground arith) l h, Ordered-closed xs u v d.1 l h)
  ]

  -- Where the loop meets every index, ranks grow along the edges.
  pub order_from-ranks :
      (o : Order)
      → ((u : ℕ) → u < n → Below n (out u))
      → Sorting n out o []
      → (order_from out n o).processed ≡ n
      → (r : ℕ → ℕ) × ((u v : ℕ) → u < n → v < n → 0 < times v (out u) → r u < r v)
  order_from-ranks o b s p =
      let t = (order_from-Sorting n out n o b s).0 in
      let taken = (order_from out n o).taken in
      let once : (v : ℕ) → v < n → times v taken ≤ 1 = λ v l. ground (arith, t.queued v l) in
      (
        rank taken,
        λ u v k l h.
            rank-lt taken u v t.ordered (once u k) k h
              (times_full n taken t.taken_below once (omega (arith, p, t.counted)) v l),
      )

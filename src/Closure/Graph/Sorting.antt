-- ===== src/Closure/Graph/Sorting.antt =====
-- The second loop of `kb2_validate_graph` of src/closure.c: it empties its queue, and where it meets
-- every artifact it has put them in an order in which each edge leads forward.
use kobox.Prelude.{
  ℕ, zero, suc, ◌+◌, ◌-◌, ◌≤◌, ◌<◌, ◌^◌, ◌≡◌, ◌⊎◌, inl, inr, refl, List, [], ◌∷◌, ◌==◌,
  if◌then◌else◌, length, get_or, get_or-set, length-set, arith, ℕ_discrete, ap, sym, subst, ◌∙◌,
  ◌&&◌, Bool-cases,
}
use kobox.Closure.Graph.{Order, decremented, release, release_all, order_turn, order_from}
use kobox.Closure.Graph.Count.{times, times-append, Below, Below-append}

List-cases : {A : Type 0} (xs : List A) → (xs ≡ []) ⊎ ((x : A) × (ys : List A) × (xs ≡ x ∷ ys))
List-cases [] = inl refl
List-cases (x ∷ xs) = inr (x, xs, refl)

decremented-pred : (n : ℕ) → 0 < n → n < 2 ^ 32 → decremented n ≡ n - 1
decremented-pred n h l = omega arith

released_count :
    (o : Order) (t v : ℕ)
    → t < length o.incoming
    → 0 < get_or o.incoming t 0
    → get_or o.incoming t 0 < 2 ^ 32
    → get_or (release o t).incoming v 0
      ≡ (if t == v then get_or o.incoming t 0 - 1 else get_or o.incoming v 0)
unfolding release
released_count o t v k h l = ground (
  arith,
  get_or-set 0 o.incoming t v (decremented (get_or o.incoming t 0)) k,
  decremented-pred (get_or o.incoming t 0) h l,
)

released_waiting :
    (o : Order) (t v : ℕ)
    → 0 < get_or o.incoming t 0
    → get_or o.incoming t 0 < 2 ^ 32
    → times v (release o t).waiting
      ≡ times v o.waiting + (if t == v && get_or o.incoming t 0 == 1 then 1 else 0)
unfolding release times
released_waiting o t v h l =
    ground (arith, decremented-pred (get_or o.incoming t 0) h l, times-append v o.waiting (t ∷ []))

released_rest :
    (o : Order) (t : ℕ)
    → ((release o t).processed ≡ o.processed)
      × ((release o t).taken ≡ o.taken)
      × (length (release o t).incoming ≡ length o.incoming)
unfolding release
released_rest o t = (refl, refl, length-set o.incoming t _)

released-Below :
    (n : ℕ) (o : Order) (t : ℕ) → Below n o.waiting → t < n → Below n (release o t).waiting
unfolding release
released-Below n o t w l = elim (Bool-cases (decremented (get_or o.incoming t 0) == 0)) [
  | inl y ↦ rw y (Below-append n o.waiting (t ∷ []) w (l, tt))
  | inr y ↦ rw y w
]

module _ (n : ℕ) (out : ℕ → List ℕ) where
  -- The edges to `v` from the indices below `m` that are not taken.
  unfoldable pub due : ℕ → List ℕ → ℕ → ℕ
  due zero taken v = 0
  due (suc m) taken v = due m taken v + (if times m taken == 0 then times v (out m) else 0)

  due-skip : (m u : ℕ) (taken : List ℕ) (v : ℕ) → m ≤ u → due m (u ∷ taken) v ≡ due m taken v
  unfolding due times
  due-skip zero u taken v l = refl
  due-skip (suc m) u taken v l = ground (arith, due-skip m u taken v (omega arith))

  due-take :
      (m u : ℕ) (taken : List ℕ) (v : ℕ)
      → u < m
      → times u taken ≡ 0
      → due m taken v ≡ due m (u ∷ taken) v + times v (out u)
  unfolding due times
  due-take zero u taken v l f = absurd (omega arith)
  due-take (suc m) u taken v l f = elim (ℕ_discrete u m) [
    | yes e ↦ ground (
      arith,
      due-skip m u taken v (omega arith),
      ap (λ w. times v (out w)) e,
      ap (λ w. times w taken) e,
    )
    | no d ↦ ground (arith, due-take m u taken v (omega arith) f)
  ]

  due-zero :
      (m u : ℕ) (taken : List ℕ) (v : ℕ)
      → due m taken v ≡ 0
      → u < m
      → 0 < times v (out u)
      → 0 < times u taken
  unfolding due
  due-zero zero u taken v e l h = absurd (omega arith)
  due-zero (suc m) u taken v e l h = elim (ℕ_discrete u m) [
    | yes q ↦ ground (arith, ap (λ w. times v (out w)) q, ap (λ w. times w taken) q)
    | no d ↦ ground (arith, due-zero m u taken v)
  ]

  -- Every index has its predecessors after it.
  abbrev pub Ordered : List ℕ → Type 0
  Ordered [] = Unit
  Ordered (v ∷ xs) = ((u : ℕ) → u < n → 0 < times v (out u) → 0 < times u xs) × Ordered xs

  -- Between two decrements, with the targets `rest` of the last index taken still to come.
  pub record Sorting (o : Order) (rest : List ℕ) : Type 0 where
    pub same_length : length o.incoming ≡ n
    pub counted : o.processed ≡ length o.taken
    pub small : (v : ℕ) → get_or o.incoming v 0 < 2 ^ 32
    pub due_left : (v : ℕ) → v < n → get_or o.incoming v 0 ≡ due n o.taken v + times v rest
    pub queued :
        (v : ℕ)
        → v < n
        → times v o.taken + times v o.waiting ≡ (if get_or o.incoming v 0 == 0 then 1 else 0)
    pub taken_below : Below n o.taken
    pub waiting_below : Below n o.waiting
    pub ordered : Ordered o.taken

  release-Sorting :
      (o : Order) (t : ℕ) (rest : List ℕ)
      → t < n
      → Sorting o (t ∷ rest)
      → Sorting (release o t) rest
  unfolding times
  release-Sorting o t rest l s =
      let left : 0 < get_or o.incoming t 0 = ground (arith, s.due_left t l) in
      let k : t < length o.incoming = omega (arith, s.same_length, l) in
      let count = λ (v : ℕ). released_count o t v k left (s.small t) in
      let (processed, taken, len) = released_rest o t in
      record {
        same_length = omega (arith, len, s.same_length);
        counted = processed ∙ s.counted ∙ ap length (sym taken);
        small = λ v. ground (arith, count v, s.small v, s.small t);
        due_left = λ v b. ground (
          arith,
          count v,
          s.due_left v b,
          s.due_left t l,
          ap (λ xs. due n xs v) taken,
          λ (e : t ≡ v). ap (λ u. get_or o.incoming u 0) e,
        );
        queued = λ v b. ground (
          arith,
          count v,
          s.queued v b,
          s.queued t l,
          ap (times v) taken,
          released_waiting o t v left (s.small t),
          λ (e : t ≡ v). ap (λ u. get_or o.incoming u 0) e,
          λ (e : t ≡ v). ap (λ u. times u o.taken + times u o.waiting) e,
        );
        taken_below = subst (Below n) (sym taken) s.taken_below;
        waiting_below = released-Below n o t s.waiting_below l;
        ordered = subst Ordered (sym taken) s.ordered;
      }

  release_all-Sorting :
      (o : Order) (ts : List ℕ) → Below n ts → Sorting o ts → Sorting (release_all o ts) []
  unfolding release_all
  release_all-Sorting o [] b s = s
  release_all-Sorting o (t ∷ ts) b s =
      release_all-Sorting (release o t) ts b.1 (release-Sorting o t ts b.0 s)

  take-Sorting :
      (o : Order) (u : ℕ) (waiting : List ℕ)
      → o.waiting ≡ u ∷ waiting
      → Sorting o []
      → Sorting
          (record {
            incoming = o.incoming;
            taken = u ∷ o.taken;
            waiting = waiting;
            processed = suc o.processed;
          })
          (out u)
  unfolding times
  take-Sorting o u waiting e s =
      let (l, below) : (u < n) × Below n waiting = subst (Below n) e s.waiting_below in
      let split = λ (v : ℕ). ap (times v) e in
      let (fresh, none_left) : (times u o.taken ≡ 0) × (get_or o.incoming u 0 ≡ 0) =
        ground (arith, s.queued u l, split u) in
      record {
        same_length = s.same_length;
        counted = ap suc s.counted;
        small = s.small;
        due_left = λ v b. omega (arith, s.due_left v b, due-take n u o.taken v l fresh);
        queued = λ v b. ground (arith, s.queued v b, split v);
        taken_below = (l, s.taken_below);
        waiting_below = below;
        ordered = (
          λ w b h. due-zero n w o.taken u (omega (arith, s.due_left u l, none_left)) b h,
          s.ordered,
        );
      }

  release_all-processed : (o : Order) (ts : List ℕ) → (release_all o ts).processed ≡ o.processed
  unfolding release_all
  release_all-processed o [] = refl
  release_all-processed o (t ∷ ts) = release_all-processed (release o t) ts ∙ (released_rest o t).0

  order_turn-Sorting :
      (o : Order) (waiting : List ℕ)
      → ((u : ℕ) → u < n → Below n (out u))
      → o.waiting ≡ waiting
      → Sorting o []
      → Sorting (order_turn out o waiting) []
        × ((waiting ≡ []) ⊎ ((order_turn out o waiting).processed ≡ suc o.processed))
  unfolding order_turn
  order_turn-Sorting o [] b e s = (s, inl refl)
  order_turn-Sorting o (u ∷ waiting) b e s =
      let l : u < n = (subst (Below n) e s.waiting_below).0 in
      (
        release_all-Sorting _ (out u) (b u l) (take-Sorting o u waiting e s),
        inr (release_all-processed _ (out u)),
      )

  order_from-idle : (turns : ℕ) (o : Order) → o.waiting ≡ [] → order_from out turns o ≡ o
  unfolding order_from order_turn
  order_from-idle zero o e = refl
  order_from-idle (suc turns) o e =
      let same : order_turn out o o.waiting ≡ o = ap (order_turn out o) e in
      ap (order_from out turns) same ∙ order_from-idle turns o e

  -- The loop keeps the invariant, and ends with the queue empty or all its turns taken.
  pub order_from-Sorting :
      (turns : ℕ) (o : Order)
      → ((u : ℕ) → u < n → Below n (out u))
      → Sorting o []
      → Sorting (order_from out turns o) []
        × (((order_from out turns o).waiting ≡ [])
            ⊎ ((order_from out turns o).processed ≡ o.processed + turns))
  unfolding order_from
  order_from-Sorting zero o b s = (s, inr (omega arith))
  order_from-Sorting (suc turns) o b s =
      let (next, moved) = order_turn-Sorting o o.waiting b refl s in
      let (t, r) = order_from-Sorting turns (order_turn out o o.waiting) b next in
      (t, ended turns o moved r)
    where
      ended :
          (turns : ℕ) (o : Order)
          → (o.waiting ≡ []) ⊎ ((order_turn out o o.waiting).processed ≡ suc o.processed)
          → ((order_from out turns (order_turn out o o.waiting)).waiting ≡ [])
            ⊎ ((order_from out turns (order_turn out o o.waiting)).processed
                ≡ (order_turn out o o.waiting).processed + turns)
          → ((order_from out turns (order_turn out o o.waiting)).waiting ≡ [])
            ⊎ ((order_from out turns (order_turn out o o.waiting)).processed
                ≡ o.processed + suc turns)
      ended turns o (inl e) r = inl (ap (λ p. p.waiting) (order_from-idle (suc turns) o e) ∙ e)
      ended turns o (inr p) (inl e) = inl e
      ended turns o (inr p) (inr q) = inr (omega (arith, p, q))

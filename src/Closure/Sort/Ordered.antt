-- ===== src/Closure/Sort/Ordered.antt =====
-- The comparisons and the sort of src/closure.c put the arrays in canonical order.
use Prim.Native.Nat.compare
use Prim.Native.Nat.{compare, Ordering}
use kobox.Prelude.{
  ℕ, zero, suc, ◌<◌, ◌≡◌, refl, sym, ap, ◌∙◌, subst, inl, inr, List, [], ◌∷◌, arith,
}
use kobox.Closure.{Artifact, Dependency, Export, Import, Resource, ResourceBinding, Storage}
use kobox.Closure.Sort.{
  then, strcmp, compare_artifacts, compare_dependencies, compare_exports, compare_imports,
  compare_resources, compare_resource_bindings, insert, sort, sort_array, storage_sort,
}
use kobox.Closure.Sort.Canonical.{TextLess, By, Tied, Each, InOrder, IsCanonical}

-- What an answer says of two values.
abbrev Says : Ordering → Type 0 → Type 0 → Type 0 → Type 0
Says Ordering.lt p q r = p
Says Ordering.eq p q r = q
Says Ordering.gt p q r = r

Says-map :
    {p q r p' q' r' : Type 0} (o : Ordering)
    → (p → p')
    → (q → q')
    → (r → r')
    → Says o p q r
    → Says o p' q' r'
Says-map Ordering.lt f g h v = f v
Says-map Ordering.eq f g h v = g v
Says-map Ordering.gt f g h v = h v

-- An answer of `gt` says that the second is before the first, any other that it is not after it.
abbrev Decides : Ordering → Type 0 → Type 0 → Type 0
Decides Ordering.gt p q = q
Decides _ p q = p

record Compares {K : Type 0} (cmp : K → K → Ordering) (less : K → K → Type 0) : Type 0 where
  says : (a b : K) → Says (cmp a b) (less a b) (a ≡ b) (less b a)
  trans : (a b c : K) → less a b → less b c → less a c

record Orders {A : Type 0} (order : A → A → Ordering) (before : A → A → Type 0) : Type 0 where
  decides : (a b : A) → Decides (order a b) (before a b) (before b a)
  trans : (a b c : A) → before a b → before b c → before a c

compare-Says : (m n : ℕ) → Says (compare m n) (m < n) (m ≡ n) (n < m)
compare-Says zero zero = refl
compare-Says zero (suc n) = rw (compare.zero-suc n) (omega arith)
compare-Says (suc m) zero = rw (compare.suc-zero m) (omega arith)
compare-Says (suc m) (suc n) = rw (compare.suc-suc m n) (
    Says-map (compare m n) (λ l. omega (arith, l)) (ap suc) (λ l. omega (arith, l))
      (compare-Says m n))

numbers-Compares : Compares compare ◌<◌
numbers-Compares = record { says = compare-Says; trans = λ a b c l m. omega (arith, l, m) }

strcmp-cons :
    (o o' : Ordering) (x y : ℕ) (xs ys : List ℕ)
    → Says o (x < y) (x ≡ y) (y < x)
    → Says o' (TextLess xs ys) (xs ≡ ys) (TextLess ys xs)
    → Says
        (then o o')
        (TextLess (x ∷ xs) (y ∷ ys))
        (◌≡◌ {A = List ℕ} (x ∷ xs) (y ∷ ys))
        (TextLess (y ∷ ys) (x ∷ xs))
strcmp-cons Ordering.lt o' x y xs ys v w = inl v
strcmp-cons Ordering.eq Ordering.lt x y xs ys v w = inr (v, w)
strcmp-cons Ordering.eq Ordering.eq x y xs ys v w = rw (v, w) refl
strcmp-cons Ordering.eq Ordering.gt x y xs ys v w = inr (sym v, w)
strcmp-cons Ordering.gt o' x y xs ys v w = inl v

strcmp-Says : (xs ys : List ℕ) → Says (strcmp xs ys) (TextLess xs ys) (xs ≡ ys) (TextLess ys xs)
unfolding strcmp
strcmp-Says [] [] = refl
strcmp-Says [] (y ∷ ys) = tt
strcmp-Says (x ∷ xs) [] = tt
strcmp-Says (x ∷ xs) (y ∷ ys) =
    strcmp-cons (compare x y) (strcmp xs ys) x y xs ys (compare-Says x y) (strcmp-Says xs ys)

TextLess-trans : (xs ys zs : List ℕ) → TextLess xs ys → TextLess ys zs → TextLess xs zs
TextLess-trans xs ys [] l m = absurd (nothing_less ys m)
  where
    nothing_less : (ys : List ℕ) → TextLess ys [] → ⊥
    nothing_less [] m = m
    nothing_less (y ∷ ys) m = m
TextLess-trans [] ys (z ∷ zs) l m = tt
TextLess-trans (x ∷ xs) [] (z ∷ zs) l m = absurd l
TextLess-trans (x ∷ xs) (y ∷ ys) (z ∷ zs) (inl l) (inl m) = inl (omega (arith, l, m))
TextLess-trans (x ∷ xs) (y ∷ ys) (z ∷ zs) (inl l) (inr m) = inl (omega (arith, l, m.0))
TextLess-trans (x ∷ xs) (y ∷ ys) (z ∷ zs) (inr l) (inl m) = inl (omega (arith, l.0, m))
TextLess-trans (x ∷ xs) (y ∷ ys) (z ∷ zs) (inr l) (inr m) =
    inr (l.0 ∙ m.0, TextLess-trans xs ys zs l.1 m.1)

texts-Compares : Compares strcmp TextLess
texts-Compares = record { says = strcmp-Says; trans = TextLess-trans }

module _ {A K : Type 0} (less : K → K → Type 0) (key : A → K) where
  By-Decides :
      (rest : A → A → Type 0) (o o' : Ordering) (a b : A)
      → Says o (less (key a) (key b)) (key a ≡ key b) (less (key b) (key a))
      → Decides o' (rest a b) (rest b a)
      → Decides (then o o') (By less key rest a b) (By less key rest b a)
  By-Decides rest Ordering.lt o' a b v w = inl v
  By-Decides rest Ordering.eq Ordering.lt a b v w = inr (v, w)
  By-Decides rest Ordering.eq Ordering.eq a b v w = inr (v, w)
  By-Decides rest Ordering.eq Ordering.gt a b v w = inr (sym v, w)
  By-Decides rest Ordering.gt o' a b v w = inl v

  last_decides :
      (o : Ordering) (a b : A)
      → Says o (less (key a) (key b)) (key a ≡ key b) (less (key b) (key a))
      → Decides o (By less key Tied a b) (By less key Tied b a)
  last_decides Ordering.lt a b v = inl v
  last_decides Ordering.eq a b v = inr (v, tt)
  last_decides Ordering.gt a b v = inl v

module _ {A K : Type 0} {cmp : K → K → Ordering} {less : K → K → Type 0} (key : A → K) where
  By-trans :
      (rest : A → A → Type 0)
      → Compares cmp less
      → ((a b c : A) → rest a b → rest b c → rest a c)
      → (a b c : A) → By less key rest a b
      → By less key rest b c
      → By less key rest a c
  By-trans rest k t a b c (inl l) (inl m) = inl (k.trans (key a) (key b) (key c) l m)
  By-trans rest k t a b c (inl l) (inr m) = inl (subst (less (key a)) m.0 l)
  By-trans rest k t a b c (inr l) (inl m) = inl (subst (λ x. less x (key c)) (sym l.0) m)
  By-trans rest k t a b c (inr l) (inr m) = inr (l.0 ∙ m.0, t a b c l.1 m.1)

  Orders-first :
      {order : A → A → Ordering} {rest : A → A → Type 0}
      → Compares cmp less
      → Orders order rest
      → Orders (λ a b. then (cmp (key a) (key b)) (order a b)) (By less key rest)
  Orders-first {order} {rest} k r = record {
    decides = λ a b.
        By-Decides less key rest (cmp (key a) (key b)) (order a b) a b (k.says (key a) (key b))
          (r.decides a b);
    trans = By-trans rest k r.trans;
  }

  Orders-last : Compares cmp less → Orders (λ a b. cmp (key a) (key b)) (By less key Tied)
  Orders-last k = record {
    decides = λ a b. last_decides less key (cmp (key a) (key b)) a b (k.says (key a) (key b));
    trans = By-trans Tied k (λ a b c v w. tt);
  }

module _ {A : Type 0} (order : A → A → Ordering) where
  Each-insert :
      (p : A → Type 0) (x : A) (ys : List A) → p x → Each p ys → Each p (insert order x ys)
  unfolding insert
  Each-insert p x [] v w = (v, tt)
  Each-insert p x (y ∷ ys) v w =
      elim (order x y)
        as (λ o. Each p (elim o [ Ordering.gt ↦ y ∷ insert order x ys | _ ↦ x ∷ y ∷ ys ])) [
          | Ordering.gt ↦ (w.0, Each-insert p x ys v w.1)
          | _ ↦ (v, w)
        ]

  insert_placed :
      (before : A → A → Type 0) (x y : A) (ys : List A) (o : Ordering)
      → Decides o (before x y) (before y x)
      → (before x y → Each (before x) ys)
      → InOrder before (y ∷ ys)
      → InOrder before (insert order x ys)
      → InOrder before (elim o [ Ordering.gt ↦ y ∷ insert order x ys | _ ↦ x ∷ y ∷ ys ])
  insert_placed before x y ys Ordering.gt b f v w = (Each-insert (before y) x ys b v.0, w)
  insert_placed before x y ys Ordering.lt b f v w = ((b, f b), v)
  insert_placed before x y ys Ordering.eq b f v w = ((b, f b), v)

module _ {A : Type 0} {order : A → A → Ordering} {before : A → A → Type 0} where
  Each-before :
      (x y : A)
      → Orders order before
      → before x y
      → (ys : List A) → Each (before y) ys
      → Each (before x) ys
  Each-before x y k b [] v = tt
  Each-before x y k b (z ∷ zs) v = (k.trans x y z b v.0, Each-before x y k b zs v.1)

  insert-InOrder :
      Orders order before
      → (x : A) (ys : List A) → InOrder before ys
      → InOrder before (insert order x ys)
  unfolding insert
  insert-InOrder k x [] v = (tt, tt)
  insert-InOrder k x (y ∷ ys) v =
      insert_placed order before x y ys (order x y) (k.decides x y)
        (λ b. Each-before x y k b ys v.0) v (insert-InOrder k x ys v.1)

  sort-InOrder : Orders order before → (xs : List A) → InOrder before (sort order xs)
  unfolding sort
  sort-InOrder k [] = tt
  sort-InOrder k (x ∷ xs) = insert-InOrder k x (sort order xs) (sort-InOrder k xs)

number-Orders :
    {A : Type 0} (key : A → ℕ) → Orders (λ a b. compare (key a) (key b)) (By ◌<◌ key Tied)
number-Orders key = Orders-last key numbers-Compares

-- What the sort leaves is in the order that is documented.
pub storage_sort-IsCanonical : (s : Storage) → IsCanonical (storage_sort s)
unfolding storage_sort sort_array compare_artifacts compare_dependencies compare_exports
    compare_imports compare_resources compare_resource_bindings
storage_sort-IsCanonical s = record {
  artifacts = sort-InOrder (number-Orders (λ (a : Artifact). a.node_id)) s.artifacts.items;
  dependencies =
      sort-InOrder
        (Orders-first (λ (d : Dependency). d.consumer_node_id) numbers-Compares
          (number-Orders (λ (d : Dependency). d.provider_node_id)))
        s.dependencies.items;
  exports =
      sort-InOrder
        (Orders-first (λ (e : Export). e.node_id) numbers-Compares
          (Orders-first (λ (e : Export). e.symbol) texts-Compares
            (number-Orders (λ (e : Export). e.kind))))
        s.exports.items;
  imports =
      sort-InOrder
        (Orders-first (λ (i : Import). i.consumer_node_id) numbers-Compares
          (Orders-first (λ (i : Import). i.consumer_symbol) texts-Compares
            (number-Orders (λ (i : Import). i.provider_node_id))))
        s.imports.items;
  resources = sort-InOrder (number-Orders (λ (r : Resource). r.slot_id)) s.resources.items;
  resource_bindings =
      sort-InOrder
        (Orders-first (λ (r : ResourceBinding). r.slot_id) numbers-Compares
          (number-Orders (λ (r : ResourceBinding). r.node_id)))
        s.resource_bindings.items;
}

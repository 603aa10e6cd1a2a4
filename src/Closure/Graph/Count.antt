-- ===== src/Closure/Graph/Count.antt =====
-- How often indices occur in lists, for the loops over the queue in `kb2_validate_graph` of
-- src/closure.c.
use kobox.Prelude.{
  ℕ, zero, suc, ◌+◌, ◌≤◌, ◌<◌, ◌≡◌, refl, List, [], ◌∷◌, ◌++◌, ◌==◌, ltb, if◌then◌else◌, length,
  arith,
}

unfoldable pub times : ℕ → List ℕ → ℕ
times v [] = 0
times v (x ∷ xs) = let rest = times v xs in if x == v then suc rest else rest

pub times-append : (v : ℕ) (xs ys : List ℕ) → times v (xs ++ ys) ≡ times v xs + times v ys
unfolding times
times-append v [] ys = omega arith
times-append v (x ∷ xs) ys = ground (arith, times-append v xs ys)

-- Each index of the list is below `n`.
abbrev pub Below : ℕ → List ℕ → Type 0
Below n [] = Unit
Below n (x ∷ xs) = (x < n) × Below n xs

pub Below-append : (n : ℕ) (xs ys : List ℕ) → Below n xs → Below n ys → Below n (xs ++ ys)
Below-append n [] ys b c = c
Below-append n (x ∷ xs) ys b c = (b.0, Below-append n xs ys b.1 c)

-- The occurrences of the indices below `m`.
unfoldable total : ℕ → List ℕ → ℕ
total zero xs = 0
total (suc m) xs = total m xs + times m xs

total-nil : (m : ℕ) → total m [] ≡ 0
unfolding total times
total-nil zero = refl
total-nil (suc m) = omega (arith, total-nil m)

total-cons : (m x : ℕ) (xs : List ℕ) → total m (x ∷ xs) ≡ total m xs + (if ltb x m then 1 else 0)
unfolding total times
total-cons zero x xs = ground arith
total-cons (suc m) x xs = ground (arith, total-cons m x xs)

total-length : (n : ℕ) (xs : List ℕ) → Below n xs → total n xs ≡ length xs
total-length n [] b = total-nil n
total-length n (x ∷ xs) b = ground (arith, total-cons n x xs, total-length n xs b.1, b.0)

total_bound : (m : ℕ) (xs : List ℕ) → ((v : ℕ) → v < m → times v xs ≤ 1) → total m xs ≤ m
unfolding total
total_bound zero xs h = omega arith
total_bound (suc m) xs h =
    omega (arith, total_bound m xs (λ v l. h v (omega arith)), h m (omega arith))

-- A list of indices below `n`, none twice, has at most `n` items.
pub length_bound :
    (n : ℕ) (xs : List ℕ) → Below n xs → ((v : ℕ) → v < n → times v xs ≤ 1) → length xs ≤ n
length_bound n xs b h = omega (arith, total-length n xs b, total_bound n xs h)

total_full :
    (m : ℕ) (xs : List ℕ)
    → ((v : ℕ) → v < m → times v xs ≤ 1)
    → m ≤ total m xs
    → (v : ℕ) → v < m
    → 1 ≤ times v xs
unfolding total
total_full zero xs h t v l = absurd (omega arith)
total_full (suc m) xs h t v l =
    let low = total_bound m xs (λ w k. h w (omega arith)) in
    ground (
      arith,
      low,
      h m (omega arith),
      total_full m xs (λ w k. h w (omega arith)) (omega (arith, h m (omega arith))) v,
    )

-- If it has `n` items, every index below `n` is among them.
pub times_full :
    (n : ℕ) (xs : List ℕ)
    → Below n xs
    → ((v : ℕ) → v < n → times v xs ≤ 1)
    → length xs ≡ n
    → (v : ℕ) → v < n
    → 1 ≤ times v xs
times_full n xs b h e = total_full n xs h (omega (arith, total-length n xs b))

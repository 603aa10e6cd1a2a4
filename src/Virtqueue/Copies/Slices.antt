-- ===== src/Virtqueue/Copies/Slices.antt =====
-- Slices of strings, for `copy_data` of protocol/src/virtqueue.c.
use kobox.Prelude.{
  ℕ, zero, suc, ◌+◌, ◌-◌, ◌≤◌, ◌<◌, ◌≡◌, refl, ap, sym, ◌∙◌, true, false, List, [], ◌∷◌, ◌++◌, ◌==◌,
  length, take, drop, min, arith, dec_lt, length-drop,
}
use kobox.Virtqueue.{Segment}
use kobox.Virtqueue.Copies.{bytes_at, contents}

pub length-bytes_at : (m : ℕ → ℕ) (a n : ℕ) → length (bytes_at m a n) ≡ n
unfolding bytes_at
length-bytes_at m a zero = refl
length-bytes_at m a (suc n) = ap suc (length-bytes_at m (suc a) n)

pub slice-bytes_at :
    (m : ℕ → ℕ) (a n k j : ℕ) → k + j ≤ n → take j (drop k (bytes_at m a n)) ≡ bytes_at m (a + k) j
unfolding bytes_at
slice-bytes_at m a zero zero zero l = refl
slice-bytes_at m a zero zero (suc j) l = absurd (omega arith)
slice-bytes_at m a zero (suc k) j l = absurd (omega arith)
slice-bytes_at m a (suc n) zero zero l = refl
slice-bytes_at m a (suc n) zero (suc j) l =
    let here : suc a + 0 ≡ suc a = omega arith in
    let there : a ≡ a + 0 = omega arith in
    ap (λ xs. m a ∷ xs) (slice-bytes_at m (suc a) n 0 j (omega (arith, l)))
    ∙ ap (λ i. m a ∷ bytes_at m i j) here
    ∙ ap (λ i. m i ∷ bytes_at m (suc i) j) there
slice-bytes_at m a (suc n) (suc k) j l =
    slice-bytes_at m (suc a) n k j (omega (arith, l)) ∙ ap (λ i. bytes_at m i j) (omega arith)

pub drop-behind :
    (xs ys : List ℕ) (k : ℕ) → length xs ≤ k → drop k (xs ++ ys) ≡ drop (k - length xs) ys
drop-behind [] ys k l = ap (λ i. drop i ys) (omega arith)
drop-behind (x ∷ xs) ys zero l = absurd (omega arith)
drop-behind (x ∷ xs) ys (suc k) l =
    drop-behind xs ys k (omega (arith, l)) ∙ ap (λ i. drop i ys) (omega arith)

pub drop-within : (xs ys : List ℕ) (k : ℕ) → k ≤ length xs → drop k (xs ++ ys) ≡ drop k xs ++ ys
drop-within xs ys zero l = refl
drop-within [] ys (suc k) l = absurd (omega arith)
drop-within (x ∷ xs) ys (suc k) l = drop-within xs ys k (omega (arith, l))

pub take-within : (xs ys : List ℕ) (n : ℕ) → n ≤ length xs → take n (xs ++ ys) ≡ take n xs
take-within xs ys zero l = refl
take-within [] ys (suc n) l = absurd (omega arith)
take-within (x ∷ xs) ys (suc n) l = ap (λ zs. x ∷ zs) (take-within xs ys n (omega (arith, l)))

pub take-beyond :
    (xs ys : List ℕ) (n : ℕ)
    → length xs ≤ n
    → take n (xs ++ ys) ≡ take (length xs) xs ++ take (n - length xs) ys
take-beyond [] ys n l = ap (λ i. take i ys) (omega arith)
take-beyond (x ∷ xs) ys zero l = absurd (omega arith)
take-beyond (x ∷ xs) ys (suc n) l =
    ap (λ zs. x ∷ zs) (take-beyond xs ys n (omega (arith, l)))
    ∙ ap (λ i. x ∷ take (length xs) xs ++ take i ys) (omega arith)

-- The part of a slice that lies in the first of two strings, with the rest.
pub take-across :
    (xs ys : List ℕ) (n part : ℕ)
    → part ≡ min (length xs) n
    → take n (xs ++ ys) ≡ take part xs ++ take (n - part) ys
take-across xs ys n part e = elim (dec_lt n (length xs)) [
  | yes l ↦
      let same : n ≡ part = omega (arith, e, l) in
      take-within xs ys n (omega (arith, l))
      ∙ ap (λ i. take i xs) same
      ∙ sym (append_none (take part xs) (n - part) ys (omega (arith, same)))
  | no l ↦
      let same : length xs ≡ part = omega (arith, e, l) in
      take-beyond xs ys n (omega (arith, l)) ∙ ap (λ i. take i xs ++ take (n - i) ys) same
]
  where
    append_none : (zs : List ℕ) (i : ℕ) (ys : List ℕ) → i ≡ 0 → zs ++ take i ys ≡ zs
    append_none [] i ys e = ap (λ j. take j ys) e
    append_none (z ∷ zs) i ys e = ap (λ ws. z ∷ ws) (append_none zs i ys e)

module _ (m : ℕ → ℕ) (writable offset size : ℕ) (s : Segment) (ss : List Segment) where
  pub contents-other :
      (s.writable == writable) ≡ false → contents m writable (s ∷ ss) ≡ contents m writable ss
  unfolding contents
  contents-other e = rw e refl

  pub contents-same :
      (s.writable == writable) ≡ true
      → contents m writable (s ∷ ss) ≡ bytes_at m s.address s.size ++ contents m writable ss
  unfolding contents
  contents-same e = rw e refl

  pub slice-skip :
      s.size ≤ offset
      → take size (drop offset (bytes_at m s.address s.size ++ contents m writable ss))
        ≡ take size (drop (offset - s.size) (contents m writable ss))
  slice-skip l =
      ap (take size) (
        drop-behind (bytes_at m s.address s.size) (contents m writable ss) offset
          (omega (arith, length-bytes_at m s.address s.size, l)))
      ∙ ap (λ i. take size (drop (offset - i) (contents m writable ss)))
          (length-bytes_at m s.address s.size)

  pub slice-part :
      (part : ℕ)
      → part ≡ min (s.size - offset) size
      → offset < s.size
      → take size (drop offset (bytes_at m s.address s.size ++ contents m writable ss))
        ≡ bytes_at m (s.address + offset) part ++ take (size - part) (contents m writable ss)
  slice-part part e l =
      let xs = bytes_at m s.address s.size in
      let ys = contents m writable ss in
      let len = length-bytes_at m s.address s.size in
      ap (take size) (drop-within xs ys offset (omega (arith, len, l)))
      ∙ take-across (drop offset xs) ys size part (omega (arith, e, length-drop offset xs, len))
      ∙ ap (λ zs. zs ++ take (size - part) ys)
          (slice-bytes_at m s.address s.size offset part (omega (arith, e, l)))

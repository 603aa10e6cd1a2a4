-- ===== src/Digest/Zero.antt =====
-- A digest counts as zero exactly when each of its bytes is 0.
use Prim.Native.Nat.{bit_or, digits, bit_or-bitwise, max}
use kobox.Prelude.{
  ℕ, zero, suc, ◌/◌, ◌≤◌, ◌≡◌, refl, List, [], ◌∷◌, take, arith, bytes_are_zero, ◌==◌, ◌&&◌, sym,
  ◌∙◌,
}
use kobox.Digest.{combine, digest_is_zero, digest_size}

abbrev or_digits : ℕ → ℕ → ℕ → ℕ
or_digits n a b = digits (λ b. b) max n a b

or_digits_left : (n a b : ℕ) → a ≤ n → or_digits n a b ≡ 0 → a ≡ 0
or_digits_left zero zero b h e = refl
or_digits_left zero (suc a) b h e = absurd (omega arith)
or_digits_left (suc n) zero b h e = refl
or_digits_left (suc n) (suc a) b h e =
    omega (arith, or_digits_left n (suc a / 2) (b / 2) (omega arith) (omega arith))

or_digits_right : (n a b : ℕ) → a ≤ n → or_digits n a b ≡ 0 → b ≡ 0
or_digits_right zero zero b h e = e
or_digits_right zero (suc a) b h e = absurd (omega arith)
or_digits_right (suc n) zero b h e = e
or_digits_right (suc n) (suc a) b h e =
    omega (arith, or_digits_right n (suc a / 2) (b / 2) (omega arith) (omega arith))

bit_or-eq_zero : (a b : ℕ) → bit_or a b ≡ 0 → (a ≡ 0) × (b ≡ 0)
bit_or-eq_zero a b e =
    let d : or_digits a a b ≡ 0 = sym (bit_or-bitwise a b) ∙ e in
    (or_digits_left a a b (omega arith) d, or_digits_right a a b (omega arith) d)

zero-bit_or : (b : ℕ) → bit_or 0 b ≡ b
zero-bit_or b = bit_or-bitwise 0 b

bit_or-zero_test : (a b : ℕ) → (bit_or a b == 0) ≡ (a == 0 && b == 0)
bit_or-zero_test zero b = rw (zero-bit_or b)
bit_or-zero_test (suc a) b = ground (arith, bit_or-eq_zero (suc a) b)

pub combine-eq_zero : (c : ℕ) (xs : List ℕ) → (combine c xs == 0) ≡ (c == 0 && bytes_are_zero xs)
unfolding combine
combine-eq_zero c [] = ground arith
combine-eq_zero c (x ∷ xs) = ground (arith, combine-eq_zero (bit_or c x) xs, bit_or-zero_test c x)

-- The test by accumulated bits answers yes exactly when every one of the first 32 bytes is zero.
pub digest_is_zero-eq : (d : List ℕ) → digest_is_zero d ≡ bytes_are_zero (take digest_size d)
unfolding digest_is_zero
digest_is_zero-eq d = combine-eq_zero 0 (take digest_size d)

-- ===== src/Prelude/Words.antt =====
-- The C integer types as native numbers, and byte strings as lists of them.
use Prim.Native.Nat.{ℕ, ◌-◌, ◌%◌, ◌^◌}
use mathlib.Core.Bool.{Bool, true, false, ◌&&◌}
use mathlib.Core.List.{List, [], ◌∷◌}
use kobox.Prelude.Tests.{◌==◌}

-- UINT64_MAX, which is SIZE_MAX of a 64-bit target.
abbrev pub u64_max : ℕ
u64_max = 2 ^ 64 - 1

abbrev pub u16 : ℕ → ℕ
u16 n = n % 2 ^ 16

abbrev pub u32 : ℕ → ℕ
u32 n = n % 2 ^ 32

abbrev pub u64 : ℕ → ℕ
u64 n = n % 2 ^ 64

-- memcmp(xs, ys, n) == 0 of two strings of length n, or a comparison of lengths and bytes.
abbrev pub bytes_eq : List ℕ → List ℕ → Bool
bytes_eq [] [] = true
bytes_eq [] (y ∷ ys) = false
bytes_eq (x ∷ xs) [] = false
bytes_eq (x ∷ xs) (y ∷ ys) = x == y && bytes_eq xs ys

-- Whether every byte is 0.
abbrev pub bytes_are_zero : List ℕ → Bool
bytes_are_zero [] = true
bytes_are_zero (x ∷ xs) = x == 0 && bytes_are_zero xs

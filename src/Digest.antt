-- ===== src/Digest.antt =====
-- Digests: `kb2_digest_is_zero` of src/controller/controller.c and src/closure.c.
pub mod Zero
use Prim.Native.Nat.{bit_or}
use kobox.Prelude.{ℕ, Bool, List, [], ◌∷◌, take, ◌==◌}

-- KB2_DIGEST_SIZE
abbrev pub digest_size : ℕ
digest_size = 32

-- The loop of `kb2_digest_is_zero` from `combined` on; a byte fits the cast to uint8_t.
pub combine : ℕ → List ℕ → ℕ
combine combined [] = combined
combine combined (x ∷ xs) = combine (bit_or combined x) xs

unfoldable pub digest_is_zero : List ℕ → Bool
unfolding combine
digest_is_zero digest = combine 0 (take digest_size digest) == 0

-- ===== src/Protocol/Word.antt =====
-- The bytes of a word make up the word, as the files of protocol/src write and read it.
use kobox.Prelude.{ℕ, ◌<◌, ◌+◌, ◌*◌, ◌/◌, ◌%◌, ◌^◌, ◌≡◌, arith}

pub word32 :
    (n : ℕ)
    → n < 2 ^ 32
    → n % 2 ^ 8
        + n / 2 ^ 8 % 2 ^ 8 * 2 ^ 8
        + n / 2 ^ 16 % 2 ^ 8 * 2 ^ 16
        + n / 2 ^ 24 % 2 ^ 8 * 2 ^ 24
      ≡ n
word32 n l = omega arith

pub word64 :
    (n : ℕ)
    → n < 2 ^ 64
    → (let m = n % 2 ^ 32 in
          m % 2 ^ 8
          + m / 2 ^ 8 % 2 ^ 8 * 2 ^ 8
          + m / 2 ^ 16 % 2 ^ 8 * 2 ^ 16
          + m / 2 ^ 24 % 2 ^ 8 * 2 ^ 24)
        + (let m = n / 2 ^ 32 % 2 ^ 32 in
            m % 2 ^ 8
            + m / 2 ^ 8 % 2 ^ 8 * 2 ^ 8
            + m / 2 ^ 16 % 2 ^ 8 * 2 ^ 16
            + m / 2 ^ 24 % 2 ^ 8 * 2 ^ 24)
          * 2 ^ 32
      ≡ n
word64 n l = omega (arith, word32 (n % 2 ^ 32), word32 (n / 2 ^ 32 % 2 ^ 32))

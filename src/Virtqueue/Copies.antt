-- ===== src/Virtqueue/Copies.antt =====
-- What `copy_data` of protocol/src/virtqueue.c reads from a payload that nobody writes to: a slice of
-- the segments' bytes, one after the other.
pub mod Slices
pub mod Steps
pub mod Request
use kobox.Prelude.{
  ℕ, zero, suc, ◌+◌, ◌-◌, ◌≤◌, ◌<◌, ◌≡◌, ◌^◌, inl, inr, refl, ap, sym, subst, ◌∙◌, Bool, true,
  false, List, [], ◌∷◌, ◌++◌, Option, some, ◌||◌, not, leb, ◌==◌, if◌then◌else◌, length,
  length-append, take, drop, min, u64, arith, Bool-cases, false≢true, ltb, ◌&&◌, dec_lt,
  length-drop,
}
use kobox.Virtqueue.{VqStatus, invalid, accepted, Segment, Vq}
use kobox.Virtqueue.Effects.{
  Outcome, done, stop, M, ◌>>=◌, give, get, require, check, fault_unless, or_fault, read,
}
use kobox.Virtqueue.Chains.{owned}
use kobox.Virtqueue.Publish.{is_device}
use kobox.Virtqueue.Transfer.{copy_from, copy_request}

-- The bytes of a memory from an address on.
unfoldable pub bytes_at : (ℕ → ℕ) → ℕ → ℕ → List ℕ
bytes_at m a zero = []
bytes_at m a (suc n) = m a ∷ bytes_at m (suc a) n

-- The bytes of the segments that are as writable as is asked.
unfoldable pub contents : (ℕ → ℕ) → ℕ → List Segment → List ℕ
unfolding bytes_at
contents m writable [] = []
contents m writable (s ∷ ss) =
    if s.writable == writable
    then bytes_at m s.address s.size ++ contents m writable ss
    else contents m writable ss

-- No segment reaches the end of the address space.
abbrev pub Fitting : List Segment → Type 0
Fitting [] = Unit
Fitting (s ∷ ss) = (s.address + s.size < 2 ^ 64) × Fitting ss

-- The queue after so many calls of the memory.
abbrev pub counted : Vq → ℕ → Vq
counted q n = record q { memory = record (q.memory) { calls = n } }

-- From the call `k` on, a read within a segment that is as writable as is asked succeeds and answers
-- with the bytes of `m`; a read anywhere else may fail.
abbrev pub Backed : (ℕ → ℕ) → ℕ → (ℕ → ℕ → ℕ → Option (List ℕ)) → ℕ → List Segment → Type 0
Backed m writable reads k [] = Unit
Backed m writable reads k (s ∷ ss) =
    ((s.writable == writable) ≡ true
      → (n a size : ℕ) → k ≤ n
      → s.address ≤ a
      → a + size ≤ s.address + s.size
      → reads n a size ≡ some (bytes_at m a size))
    × Backed m writable reads k ss

-- What becomes of the queue, the calls of its memory, with what is given out.
abbrev pub Copied : Vq → Outcome (List ℕ) → List ℕ → Type 0
Copied q o bytes = (n : ℕ) × (o ≡ done bytes (counted q n))

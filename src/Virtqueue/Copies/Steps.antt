-- ===== src/Virtqueue/Copies/Steps.antt =====
-- The turns of `copy_data` of protocol/src/virtqueue.c that reads.
use kobox.Prelude.{
  ℕ, suc, ◌+◌, ◌-◌, ◌≡◌, refl, ap, some, true, false, List, [], ◌∷◌, ◌++◌, leb, ◌==◌, min, u64,
}
use kobox.Virtqueue.{Segment, Vq}
use kobox.Virtqueue.Effects.{done, stop, M, ◌>>=◌, give, or_fault, read}
use kobox.Virtqueue.Transfer.{copy_from}
use kobox.Virtqueue.Copies.{counted}

pub read-done :
    (q : Vq) (a n : ℕ) (bytes : List ℕ)
    → q.memory.reads q.memory.calls a n ≡ some bytes
    → read a n q ≡ done bytes (counted q (suc q.memory.calls))
unfolding read or_fault
read-done q a n bytes e = rw e refl

pub bind-done :
    {A B : Type 0} (x : M A) (f : A → M B) (q r : Vq) (a : A) → x q ≡ done a r → (x >>= f) q ≡ f a r
unfolding ◌>>=◌
bind-done x f q r a e = ap (λ o. elim o [ done b q' ↦ f b q' | stop status q' ↦ stop status q' ]) e

module _ (writable offset size : ℕ) (s : Segment) (ss : List Segment) where
  pub copy_from-none : (size == 0) ≡ true → copy_from writable offset size (s ∷ ss) ≡ give []
  unfolding copy_from
  copy_from-none e = rw e refl

  pub copy_from-other :
      (size == 0) ≡ false
      → (s.writable == writable) ≡ false
      → copy_from writable offset size (s ∷ ss) ≡ copy_from writable offset size ss
  unfolding copy_from
  copy_from-other e w = rw (e, w) refl

  pub copy_from-skip :
      (size == 0) ≡ false
      → (s.writable == writable) ≡ true
      → leb s.size offset ≡ true
      → copy_from writable offset size (s ∷ ss) ≡ copy_from writable (offset - s.size) size ss
  unfolding copy_from
  copy_from-skip e w l = rw (e, w, l) refl

  pub copy_from-part :
      (size == 0) ≡ false
      → (s.writable == writable) ≡ true
      → leb s.size offset ≡ false
      → copy_from writable offset size (s ∷ ss) ≡ (
          read (u64 (s.address + offset)) (min (s.size - offset) size) >>= λ bytes.
          copy_from writable 0 (size - min (s.size - offset) size) ss >>= λ rest.
          give (bytes ++ rest))
  unfolding copy_from
  copy_from-part e w l = rw (e, w, l) refl

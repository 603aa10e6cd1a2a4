-- ===== src/Virtqueue/Copies/Request.antt =====
-- `kb2_vq_copy_request` of protocol/src/virtqueue.c gives out a slice of the request.
use kobox.Prelude.{
  ℕ, zero, suc, ◌+◌, ◌-◌, ◌≤◌, ◌≡◌, inl, inr, refl, ap, sym, subst, ◌∙◌, Bool, true, false, List,
  [], ◌∷◌, ◌++◌, leb, ◌==◌, length, length-append, take, drop, min, u64, arith, Bool-cases,
  false≢true, Option, some,
}
use kobox.Virtqueue.{VqStatus, invalid, accepted, Segment, Vq}
use kobox.Virtqueue.Effects.{done, M, ◌>>=◌, give, get, require, check, fault_unless, read}
use kobox.Virtqueue.Chains.{owned}
use kobox.Virtqueue.Publish.{is_device}
use kobox.Virtqueue.Transfer.{copy_from, copy_request}
use kobox.Virtqueue.Copies.{bytes_at, contents, Fitting, counted, Backed, Copied}
use kobox.Virtqueue.Copies.Slices.{
  length-bytes_at, contents-other, contents-same, slice-skip, slice-part,
}
use kobox.Virtqueue.Copies.Steps.{
  read-done, bind-done, copy_from-none, copy_from-other, copy_from-skip, copy_from-part,
}

carry :
    (q : Vq) (x y : M (List ℕ)) (xs ys : List ℕ)
    → x ≡ y
    → ys ≡ xs
    → Copied q (y q) xs
    → Copied q (x q) ys
carry q x y xs ys e f (n, g) =
    (n, ap (λ z. z q) e ∙ g ∙ ap (λ bytes. done bytes (counted q n)) (sym f))

copy_from-nothing :
    (m : ℕ → ℕ) (writable offset size : ℕ) (q : Vq)
    → offset + size ≤ length (contents m writable [])
    → Copied q
        (copy_from writable offset size [] q)
        (take size (drop offset (contents m writable [])))
unfolding copy_from contents ◌>>=◌ fault_unless give
copy_from-nothing m writable zero zero q l = (q.memory.calls, refl)
copy_from-nothing m writable zero (suc size) q l = absurd (omega arith)
copy_from-nothing m writable (suc offset) size q l = absurd (omega arith)

give-done : {A : Type 0} (a : A) (q : Vq) → give a q ≡ done a q
unfolding give
give-done a q = refl

give-Copied : (q : Vq) → Copied q (give [] q) []
give-Copied q = (q.memory.calls, give-done [] q)

take-zero : (size : ℕ) (xs : List ℕ) → (size == 0) ≡ true → take size xs ≡ []
take-zero zero xs e = refl
take-zero (suc n) xs e = ground (arith, e)

-- A read and what follows it.
read-Copied :
    (m : ℕ → ℕ) (q : Vq) (a part : ℕ) (rest : M (List ℕ)) (xs : List ℕ)
    → q.memory.reads q.memory.calls a part ≡ some (bytes_at m a part)
    → Copied (counted q (suc q.memory.calls)) (rest (counted q (suc q.memory.calls))) xs
    → Copied q
        ((read a part >>= λ bytes. rest >>= λ more. give (bytes ++ more)) q)
        (bytes_at m a part ++ xs)
read-Copied m q a part rest xs answer (n, e) =
    let r = counted q (suc q.memory.calls) in
    (
      n,
      bind-done (read a part) _ q r (bytes_at m a part)
            (read-done q a part (bytes_at m a part) answer)
          ∙ bind-done rest _ r (counted q n) xs e
          ∙ give-done (bytes_at m a part ++ xs) (counted q n),
    )

-- What holds from a call on, holds from the next one on.
Backed-suc :
    (m : ℕ → ℕ) (writable : ℕ) (reads : ℕ → ℕ → ℕ → Option (List ℕ)) (k : ℕ) (ss : List Segment)
    → Backed m writable reads k ss
    → Backed m writable reads (suc k) ss
Backed-suc m writable reads k [] v = tt
Backed-suc m writable reads k (s ∷ ss) v =
    (λ w n a size l. v.0 w n a size (omega (arith, l)), Backed-suc m writable reads k ss v.1)

module _ (m : ℕ → ℕ) (writable : ℕ) where
  pub copy_from-slice :
      (offset size : ℕ) (ss : List Segment) (q : Vq)
      → Backed m writable q.memory.reads q.memory.calls ss
      → Fitting ss
      → offset + size ≤ length (contents m writable ss)
      → Copied q
          (copy_from writable offset size ss q)
          (take size (drop offset (contents m writable ss)))
  copy_from-slice offset size [] q st fit l = copy_from-nothing m writable offset size q l
  copy_from-slice offset size (s ∷ ss) q st fit l =
      let xs = bytes_at m s.address s.size in
      let ys = contents m writable ss in
      elim (Bool-cases (size == 0)) [
        | inl z ↦
            carry q _ (give []) [] _ (copy_from-none writable offset size s ss z)
              (take-zero size _ z) (give-Copied q)
        | inr z ↦ elim (Bool-cases (s.writable == writable)) [
          | inr w ↦
              let same = contents-other m writable offset size s ss w in
              carry q _ _ _ _ (copy_from-other writable offset size s ss z w)
                (ap (λ zs. take size (drop offset zs)) same)
                (copy_from-slice offset size ss q st.1 fit.1
                  (subst (λ zs. offset + size ≤ length zs) same l))
          | inl w ↦
              let same = contents-same m writable offset size s ss w in
              let all : offset + size ≤ s.size + length ys = omega (
                arith,
                l,
                ap length same,
                length-append xs ys,
                length-bytes_at m s.address s.size,
              ) in
              elim (Bool-cases (leb s.size offset)) [
                | inl k ↦
                    carry q _ _ _ _ (copy_from-skip writable offset size s ss z w k)
                      (ap (λ zs. take size (drop offset zs)) same
                        ∙ slice-skip m writable offset size s ss (ground (arith, k)))
                      (copy_from-slice (offset - s.size) size ss q st.1 fit.1
                        (ground (arith, k, all)))
                | inr k ↦
                    let part = min (s.size - offset) size in
                    carry q _ _ _ _ (copy_from-part writable offset size s ss z w k)
                      (ap (λ zs. take size (drop offset zs)) same
                        ∙ slice-part m writable offset size s ss part refl (ground (arith, k))
                        ∙ ap (λ a. bytes_at m a part ++ take (size - part) ys)
                            (ground (arith, k, fit.0)))
                      (read-Copied m q (u64 (s.address + offset)) part
                        (copy_from writable 0 (size - part) ss) (take (size - part) ys)
                        (st.0 w q.memory.calls (u64 (s.address + offset)) part (omega arith)
                          (ground (arith, k, fit.0)) (ground (arith, k, fit.0)))
                        (copy_from-slice 0 (size - part) ss (counted q (suc q.memory.calls))
                          (Backed-suc m writable q.memory.reads q.memory.calls ss st.1) fit.1
                          (ground (arith, k, all))))
              ]
        ]
      ]

require-done : (t : Bool) (status : VqStatus) (q : Vq) → t ≡ true → require t status q ≡ done tt q
unfolding require
require-done true status q e = refl
require-done false status q e = absurd (false≢true e)

-- Where the channel's check passes and the device owns the chain, where each read within a readable
-- segment of the chain succeeds, from this call on, and answers with bytes that nobody changes, and
-- where the segments end before the end of the address space and have at least as many readable bytes
-- as the chain counts: a copy of a part of the request succeeds, gives out that slice of the readable
-- segments' bytes, one segment after the other, and changes nothing but the count of memory calls.
-- Reads outside the readable segments may fail.
pub copy_request-slice :
    (m : ℕ → ℕ) (generation p offset size : ℕ) (q : Vq)
    → check generation q ≡ done tt q
    → is_device q.side ≡ true
    → owned q p accepted ≡ true
    → Backed m 0 q.memory.reads q.memory.calls (q.chains p).segments
    → Fitting (q.chains p).segments
    → (q.chains p).readable ≤ length (contents m 0 (q.chains p).segments)
    → offset + size ≤ (q.chains p).readable
    → (n : ℕ) × (copy_request generation p offset size q
        ≡ done (take size (drop offset (contents m 0 (q.chains p).segments))) (counted q n))
unfolding copy_request get ◌>>=◌
copy_request-slice m generation p offset size q passed side own st fit count l =
    let (n, e) =
      copy_from-slice m 0 offset size (q.chains p).segments q st fit (omega (arith, count, l)) in
    (
      n,
      bind-done (check generation) _ q q tt passed
          ∙ bind-done (require _ invalid) _ q q tt
              (require-done _ invalid q (ground (arith, side, own, l)))
          ∙ e,
    )

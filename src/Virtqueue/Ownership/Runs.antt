-- ===== src/Virtqueue/Ownership/Runs.antt =====
-- What holds of a queue of protocol/src/virtqueue.c after any calls since `kb2_vq_bind`.
use kobox.Prelude.{
  ℕ, zero, suc, ◌<◌, ◌≡◌, refl, ◌^◌, true, List, none, some, length-replicate, replicate, get_or,
  arith, ap, sym, ◌∙◌, some-injective,
}
use kobox.Virtqueue.{Side, Chain, Queue, Memory, Channel, Vq}
use kobox.Virtqueue.Transfer.{bound}
use kobox.Virtqueue.Calls.{Call, run}
use kobox.Virtqueue.Ownership.{holds, slot, occupied, Inv}
use kobox.Virtqueue.Ownership.Kept.{run-Owned}

slot-replicate : (n h p : ℕ) → slot (replicate n none) h ≡ some p → ⊥
slot-replicate zero h p e = ground arith
slot-replicate (suc n) zero p e = ground arith
slot-replicate (suc n) (suc h) p e = slot-replicate n h p e

owner-replicate : (n d : ℕ) → ◌≡◌ {A = ℕ} (get_or (replicate n 0) d 0) 0
owner-replicate zero d = refl
owner-replicate (suc n) zero = refl
owner-replicate (suc n) (suc d) = owner-replicate n d

occupied-replicate : (n : ℕ) → occupied (replicate n none) ≡ 0
unfolding occupied
occupied-replicate zero = refl
occupied-replicate (suc n) = occupied-replicate n

pub bound-Inv :
    (channel : Channel) (queue : Queue) (side : Side) (memory : Memory) (chains : ℕ → Chain)
    → queue.queue_size < 2 ^ 16
    → queue.max_outstanding < 2 ^ 32
    → Inv (bound channel queue side memory chains)
bound-Inv channel queue side memory chains l m = record {
  slots_length = length-replicate queue.queue_size none;
  owners_length = length-replicate queue.queue_size 0;
  size_small = l;
  limit_small = m;
  heads = λ h p e. absurd (slot-replicate queue.queue_size h p e);
  states = λ h p e. absurd (slot-replicate queue.queue_size h p e);
  holders = λ h p d e. absurd (slot-replicate queue.queue_size h p e);
  held = λ d h e. absurd (ground (arith, owner-replicate queue.queue_size d));
  counted = sym (occupied-replicate queue.queue_size);
  bounded = omega arith;
}

module _ (channel : Channel) (queue : Queue) (side : Side) (memory : Memory) (chains : ℕ → Chain)
    (small : queue.queue_size < 2 ^ 16) (limit : queue.max_outstanding < 2 ^ 32)
    (ks : List Call) where
  abbrev reached : Vq
  reached = run (bound channel queue side memory chains) ks

  reached-Inv : Inv reached
  reached-Inv = run-Owned _ ks (bound-Inv channel queue side memory chains small limit)

  -- A queue of less than 2^16 descriptors and a limit below 2^32 that has just been bound, whatever
  -- the memory, and any calls after that: two chains that have a descriptor of the table in common
  -- are the chain of one slot.
  pub run-exclusive :
      (h i p r d : ℕ)
      → slot reached.slots h ≡ some p
      → slot reached.slots i ≡ some r
      → holds (reached.chains p) d ≡ true
      → holds (reached.chains r) d ≡ true
      → (h ≡ i) × (p ≡ r)
  run-exclusive h i p r d e e' g g' =
      let same : h ≡ i =
        omega (arith, reached-Inv.holders h p d e g, reached-Inv.holders i r d e' g') in
      (same, some-injective p r (sym e ∙ ap (slot reached.slots) same ∙ e'))

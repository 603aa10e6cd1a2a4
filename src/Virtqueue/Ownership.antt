-- ===== src/Virtqueue/Ownership.antt =====
-- Who owns the descriptors of a queue of protocol/src/virtqueue.c between two calls.
pub mod Marks
pub mod Claims
pub mod Drops
pub mod Moves
pub mod Validated
pub mod States
pub mod Driver
pub mod Reading
pub mod Device
pub mod Kept
pub mod Runs
use kobox.Prelude.{
  ℕ, suc, ◌+◌, ◌≤◌, ◌<◌, ◌≡◌, ◌≢◌, ◌^◌, Bool, true, false, List, [], ◌∷◌, Option, none, some, ◌&&◌,
  ◌||◌, not, ◌==◌, length, get_or,
}
use kobox.Virtqueue.{
  Side, driver, device, Segment, Chain, ChainState, free, submitted, accepted, returned, Queue, Vq,
}
use kobox.Virtqueue.Chains.{direct_count}

-- One of the first `n` segments has the descriptor.
abbrev pub first_holds : ℕ → ℕ → List Segment → Bool
first_holds d n [] = false
first_holds d ℕ.zero (s ∷ ss) = false
first_holds d (suc n) (s ∷ ss) = s.descriptor == d || first_holds d n ss

-- The descriptor of the queue's table is one of the chain's.
unfoldable pub holds : Chain → ℕ → Bool
holds c d =
    not (c.indirect_length == 0) && c.indirect_descriptor == d
    || first_holds d (direct_count c) c.segments

abbrev pub slot : List (Option ℕ) → ℕ → Option ℕ
slot slots h = get_or slots h none

unfoldable pub occupied : List (Option ℕ) → ℕ
occupied [] = 0
occupied (none ∷ slots) = occupied slots
occupied (some p ∷ slots) = suc (occupied slots)

-- The states that the chains of a side are in.
abbrev pub InUse : Side → ChainState → Type 0
InUse driver submitted = Unit
InUse driver returned = Unit
InUse driver _ = ⊥
InUse device accepted = Unit
InUse device _ = ⊥

-- What a slot has is a chain of that head, in use, that owns its descriptors; and a descriptor that
-- is owned is one of such a chain. The count is that of the slots in use, and within its limit.
pub record Owned (queue : Queue) (side : Side) (slots : List (Option ℕ)) (owners : List ℕ) (n : ℕ)
    (chains : ℕ → Chain) : Type 0 where
  pub slots_length : length slots ≡ queue.queue_size
  pub owners_length : length owners ≡ queue.queue_size
  pub size_small : queue.queue_size < 2 ^ 16
  pub limit_small : queue.max_outstanding < 2 ^ 32
  pub heads : (h p : ℕ) → slot slots h ≡ some p → (chains p).head ≡ h
  pub states : (h p : ℕ) → slot slots h ≡ some p → InUse side (chains p).state
  pub holders :
      (h p d : ℕ) → slot slots h ≡ some p → holds (chains p) d ≡ true → get_or owners d 0 ≡ suc h
  pub held :
      (d h : ℕ)
      → get_or owners d 0 ≡ suc h
      → (p : ℕ) × (slot slots h ≡ some p) × (holds (chains p) d ≡ true)
  pub counted : n ≡ occupied slots
  pub bounded : n ≤ queue.max_outstanding

abbrev pub Inv : Vq → Type 0
Inv q = Owned q.queue q.side q.slots q.descriptor_owner q.owned_count q.chains

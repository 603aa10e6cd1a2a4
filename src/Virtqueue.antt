-- ===== src/Virtqueue.antt =====
-- The virtqueue engine, protocol/src/virtqueue.c with protocol/include/kobox2/virtqueue.h: the state of
-- one queue of a channel, on the driver's or on the device's side.
pub mod Effects
pub mod Ranges
pub mod Chains
pub mod Publish
pub mod Take
pub mod Transfer
pub mod Calls
pub mod Keeping
pub mod Refusals
pub mod Copies
pub mod Payload
pub mod Order
pub mod Fuel
pub mod Words
pub mod Init
pub mod Ownership
pub mod Examples
use kobox.Prelude.{ℕ, Bool, List, Option, ◌==◌, if◌then◌else◌}

-- `kb2_protocol_queue_t`, less its notification identifiers and flags, which the engine does not read
pub record Queue : Type 0 where
  pub queue_id : ℕ
  pub role : ℕ
  pub queue_size : ℕ
  pub descriptor_address : ℕ
  pub available_address : ℕ
  pub used_address : ℕ
  pub max_chain_length : ℕ
  pub max_indirect_length : ℕ
  pub max_outstanding : ℕ

-- `kb2_protocol_region_t`
pub record Region : Type 0 where
  pub region_id : ℕ
  pub rights : ℕ
  pub transport_base : ℕ
  pub region_length : ℕ

-- `kb2_vq_status_t`
pub data VqStatus : Type 0 where
  ok : VqStatus
  empty : VqStatus
  full : VqStatus
  invalid : VqStatus
  stale : VqStatus
  faulted : VqStatus
  io : VqStatus

-- `kb2_vq_side_t`
pub data Side : Type 0 where
  driver : Side
  device : Side

-- The states of a chain
pub data ChainState : Type 0 where
  free : ChainState
  submitted : ChainState
  accepted : ChainState
  returned : ChainState

-- `kb2_vq_segment_t`
pub record Segment : Type 0 where
  pub address : ℕ
  pub size : ℕ  -- `length`
  pub descriptor : ℕ
  pub writable : ℕ

-- `kb2_vq_chain_t`. The array of segments is there where `has_segments` says so; `segments` are the
-- first `count` of it.
pub record Chain : Type 0 where
  pub has_segments : Bool
  pub capacity : ℕ
  pub segments : List Segment
  pub head : ℕ
  pub indirect : ℕ
  pub indirect_length : ℕ
  pub indirect_descriptor : ℕ
  pub indirect_first : ℕ
  pub readable : ℕ
  pub writable : ℕ
  pub written : ℕ
  pub used_length : ℕ
  pub state : ChainState

-- What a call of the memory did to the shared storage
pub data Event : Type 0 where
  wrote : ℕ → List ℕ → Event
  stored : ℕ → ℕ → Event
  fenced : Event

-- `kb2_vq_memory_t`, the host's: what the call of a number answers, `none` and false where it fails.
-- `payload_allowed` is a fixed policy. The log has the latest event first.
pub record Memory : Type 0 where
  pub reads : ℕ → ℕ → ℕ → Option (List ℕ)
  pub writes : ℕ → ℕ → List ℕ → Bool
  pub loads : ℕ → ℕ → Option ℕ
  pub stores : ℕ → ℕ → ℕ → Bool
  pub payload_allowed : ℕ → ℕ → ℕ → ℕ → Bool
  pub calls : ℕ
  pub log : List Event

-- `kb2_vq_channel_t`, of its identity the generation
pub record Channel : Type 0 where
  pub generation : ℕ
  pub queues : List Queue
  pub regions : List Region
  pub is_faulted : Bool

-- `kb2_vq_t` with the channel that it points to, and the chains: a pointer to a chain is the index at
-- which `chains` has it.
pub record Vq : Type 0 where
  pub channel : Channel
  pub queue : Queue
  pub memory : Memory
  pub side : Side
  pub slots : List (Option ℕ)
  pub last_taken : Option ℕ
  pub descriptor_owner : List ℕ
  pub produced : ℕ
  pub consumed : ℕ
  pub owned_count : ℕ  -- `owned`
  pub chains : ℕ → Chain

abbrev pub with_chain : Vq → ℕ → Chain → Vq
with_chain q p c = record q { chains = λ i. if i == p then c else q.chains i }

-- DESC_SIZE and the flags of a descriptor
abbrev pub desc_size : ℕ
desc_size = 16

abbrev pub desc_next : ℕ
desc_next = 1

abbrev pub desc_write : ℕ
desc_write = 2

abbrev pub desc_indirect : ℕ
desc_indirect = 4

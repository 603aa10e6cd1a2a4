-- ===== src/Virtqueue/Take.antt =====
-- Taking chains from the rings: `read_chain`, `pending_index`, `kb2_vq_peek_available`,
-- `kb2_vq_take_available` and `kb2_vq_take_used` of protocol/src/virtqueue.c.
use kobox.Prelude.{
  ℕ, zero, suc, ◌+◌, ◌-◌, ◌*◌, ◌/◌, ◌%◌, ◌^◌, Bool, true, false, List, [], ◌∷◌, ◌++◌, Option, none,
  some, ◌&&◌, not, ltb, leb, ◌==◌, bit_and, if◌then◌else◌, length, get_or, drop, u16, u32, u64,
}
use kobox.Virtqueue.{
  invalid, empty, faulted, Segment, Chain, free, submitted, accepted, returned, Queue, Vq,
  with_chain, desc_size, desc_next, desc_write, desc_indirect,
}
use kobox.Virtqueue.Effects.{
  M, ◌>>=◌, ◌>>◌, give, get, modify, require, fault_unless, fault, check, read, load_acquire,
}
use kobox.Virtqueue.Ranges.{right_read, has_item, payload_range}
use kobox.Virtqueue.Chains.{same_state, is_none, owner_of, owned, validate_chain, claim}
use kobox.Virtqueue.Publish.{is_driver, is_device, available_entry, used_entry, ring_slot}

-- `read_u16`, `read_u32` and `read_u64`: the shifted parts have no bits in common.
abbrev pub read_u16 : List ℕ → ℕ → ℕ
read_u16 bytes p = get_or bytes p 0 + get_or bytes (p + 1) 0 * 2 ^ 8

abbrev pub read_u32 : List ℕ → ℕ → ℕ
read_u32 bytes p = read_u16 bytes p + read_u16 bytes (p + 2) * 2 ^ 16

abbrev pub read_u64 : List ℕ → ℕ → ℕ
read_u64 bytes p = read_u32 bytes p + read_u32 bytes (p + 4) * 2 ^ 32

-- The variables of the loop of `read_chain`
pub record Cursor : Type 0 where
  pub table : ℕ
  pub limit : ℕ
  pub index : ℕ
  pub is_indirect : Bool

-- How a turn ends: by `break`, or in the next turn.
pub data Turn : Type 0 where
  finished : Turn
  again : Cursor → Turn

-- The flag is set.
abbrev pub has_flag : ℕ → ℕ → Bool
has_flag flags flag = not (bit_and flags flag == 0)

-- The test of the flags and of the descriptor's index against those read from the same table.
unfoldable pub descriptor_fresh : Chain → Cursor → ℕ → Bool
descriptor_fresh c k flags =
    bit_and flags (2 ^ 32 - 1 - 7) == 0
    && not (
        has_item (λ (s : Segment). s.descriptor == k.index)
          (drop (if k.is_indirect then c.indirect_first else 0) c.segments))

-- The test of a reference to an indirect table.
unfoldable pub reference_valid : Vq → Cursor → ℕ → ℕ → ℕ → Bool
reference_valid q k address size flags =
    not k.is_indirect
    && (not (has_flag flags desc_next)
        && (bit_and address 15 == 0
            && (not (size == 0)
                && (size % desc_size == 0
                    && (leb (size / desc_size) q.queue.max_indirect_length
                        && payload_range q address size right_read)))))

abbrev pub enter_table : Chain → Cursor → ℕ → ℕ → Chain
enter_table c k address size = record c {
  indirect = address;
  indirect_length = size;
  indirect_first = length c.segments;
  indirect_descriptor = k.index;
}

abbrev add_segment : Chain → Cursor → ℕ → ℕ → ℕ → Chain
add_segment c k address size flags = record c {
  segments =
      c.segments
      ++ (record {
        address = address;
        size = size;
        descriptor = k.index;
        writable = if has_flag flags desc_write then 1 else 0;
      }
          ∷ []);
}

-- What a turn does with a descriptor of an indirect table.
unfoldable pub take_reference : ℕ → Cursor → ℕ → ℕ → ℕ → M Turn
unfolding reference_valid
take_reference p k address size flags = do
  q ← get
  fault_unless (reference_valid q k address size flags)
  modify (λ r. with_chain r p (enter_table (r.chains p) k address size))
  give (again (record { table = address; limit = size / desc_size; index = 0; is_indirect = true }))

unfoldable pub take_segment : ℕ → Cursor → ℕ → ℕ → ℕ → ℕ → M Turn
take_segment p k address size flags next = do
  modify (λ r. with_chain r p (add_segment (r.chains p) k address size flags))
  give (if has_flag flags desc_next then again (record k { index = next }) else finished)

-- What a turn does with the bytes of a descriptor.
unfoldable pub take_descriptor : ℕ → Cursor → List ℕ → M Turn
unfolding descriptor_fresh take_reference take_segment
take_descriptor p k bytes = do
  q ← get
  fault_unless (descriptor_fresh (q.chains p) k (read_u16 bytes 12))
  if has_flag (read_u16 bytes 12) desc_indirect
      then take_reference p k (read_u64 bytes 0) (read_u32 bytes 8) (read_u16 bytes 12)
      else take_segment p k (read_u64 bytes 0) (read_u32 bytes 8) (read_u16 bytes 12)
          (read_u16 bytes 14)

unfoldable pub read_turn : ℕ → Cursor → M Turn
unfolding read take_descriptor
read_turn p k = do
  q ← get
  fault_unless (
      ltb k.index k.limit
      && (ltb (length (q.chains p).segments) q.queue.max_chain_length
          && ltb (length (q.chains p).segments) (q.chains p).capacity))
  bytes ← read (u64 (k.table + k.index * desc_size)) desc_size
  take_descriptor p k bytes

-- The loop. Where its turns are used up it faults, as it does at the limit of a chain's length.
unfoldable pub read_turns : ℕ → ℕ → Cursor → M (Unit {0})
unfolding read_turn fault
read_turns zero p k = fault faulted
read_turns (suc turns) p k =
    read_turn p k >>= λ t. elim t [ finished ↦ give tt | again k' ↦ read_turns turns p k' ]

-- The chain that was read, if it is valid.
unfoldable pub keep_valid : ℕ → Option Chain → M (Unit {0})
unfolding fault
keep_valid p none = fault faulted
keep_valid p (some c) = modify (λ q. with_chain q p c)

-- Each turn but the one that enters a table adds a segment, and the last one may fault.
abbrev pub turns_of : Queue → ℕ
turns_of q = q.max_chain_length + 2

unfoldable pub read_chain : ℕ → M (Unit {0})
unfolding read_turns validate_chain keep_valid
read_chain p = do
  modify (λ r. with_chain r p (record (r.chains p) {
    segments = [];
    indirect = 0;
    indirect_length = 0;
    indirect_first = 0;
    indirect_descriptor = 0;
  }))
  q ← get
  read_turns (turns_of q.queue) p (record {
    table = q.queue.descriptor_address;
    limit = q.queue.queue_size;
    index = (q.chains p).head;
    is_indirect = false;
  })
  r ← get
  keep_valid p (validate_chain r (r.chains p))

-- How far the peer is ahead; 0 stands for KB2_VQ_EMPTY.
unfoldable pub pending_index : M ℕ
unfolding load_acquire
pending_index = do
  q ← get
  index ←
      load_acquire
        (u64 ((if is_driver q.side then q.queue.used_address else q.queue.available_address) + 2))
  let distance = u16 (index + 2 ^ 16 - q.consumed)
  fault_unless (
      leb distance q.queue.max_outstanding
      && not (is_driver q.side && ltb (u16 (q.produced + 2 ^ 16 - q.consumed)) distance))
  give distance

-- Whether the driver has published something.
unfoldable pub peek_available : ℕ → M Bool
unfolding check pending_index
peek_available generation = do
  check generation
  q ← get
  require (is_device q.side) invalid
  distance ← pending_index
  give (not (distance == 0))

-- The chain of a head that was read, accepted.
unfoldable pub accept : ℕ → ℕ → M (Unit {0})
unfolding read_chain claim
accept p head = do
  modify (λ r. with_chain r p (record (r.chains p) { head = head }))
  q ← get
  fault_unless
      (ltb head q.queue.queue_size && (is_none (get_or q.slots head none) && owner_of q head == 0))
  read_chain p
  modify (claim p accepted)
  modify (λ r. record r { consumed = u16 (r.consumed + 1); last_taken = some p })

unfoldable pub take_available : ℕ → ℕ → M (Unit {0})
unfolding check pending_index read accept
take_available generation p = do
  check generation
  q ← get
  require
      (is_device q.side
        && (same_state (q.chains p).state free
            && ((q.chains p).has_segments && leb q.queue.max_chain_length (q.chains p).capacity)))
      invalid
  distance ← pending_index
  require (not (distance == 0)) empty
  fault_unless (leb (u32 (q.owned_count + distance)) q.queue.max_outstanding)
  bytes ← read (available_entry q.queue (ring_slot q.queue q.consumed)) 2
  accept p (read_u16 bytes 0)

-- The chain in the slot of a used entry, given back to the driver.
unfoldable pub give_back : ℕ → ℕ → Option ℕ → M ℕ
unfolding owned fault
give_back head size none = fault faulted
give_back head size (some p) = do
  q ← get
  fault_unless (owned q p submitted && leb size (q.chains p).writable)
  modify (λ r.
      record (with_chain r p (record (r.chains p) { used_length = size; state = returned })) {
        consumed = u16 (r.consumed + 1);
      })
  give p

unfoldable pub take_used : ℕ → M ℕ
unfolding check pending_index read give_back
take_used generation = do
  check generation
  q ← get
  require (is_driver q.side) invalid
  distance ← pending_index
  require (not (distance == 0)) empty
  bytes ← read (used_entry q.queue (ring_slot q.queue q.consumed)) 8
  fault_unless (ltb (read_u32 bytes 0) q.queue.queue_size)
  give_back (read_u32 bytes 0) (read_u32 bytes 4) (get_or q.slots (read_u32 bytes 0) none)

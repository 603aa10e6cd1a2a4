-- ===== src/Virtqueue/Publish.antt =====
-- The driver's side of a publication: the byte order of protocol/src/virtqueue.c, `publish_index` and
-- `kb2_vq_publish`.
use kobox.Prelude.{
  ℕ, suc, ◌+◌, ◌-◌, ◌*◌, ◌/◌, ◌%◌, ◌^◌, Bool, true, false, List, [], ◌∷◌, ◌++◌, Option, none, some,
  ◌&&◌, not, ltb, leb, ◌==◌, bit_and, if◌then◌else◌, u16, u64,
}
use kobox.Virtqueue.{
  invalid, full, Side, driver, device, Segment, Chain, free, submitted, Queue, with_chain,
  desc_size, desc_next, desc_write, desc_indirect,
}
use kobox.Virtqueue.Effects.{
  M, ◌>>=◌, ◌>>◌, give, get, modify, return_status, require, check, write, load_acquire,
  store_release, fence,
}
use kobox.Virtqueue.Chains.{same_state, direct_count, validate_chain, claim}

-- `write_u16`, `write_u32` and `write_u64`
abbrev pub bytes_u16 : ℕ → List ℕ
bytes_u16 v = v % 2 ^ 8 ∷ v / 2 ^ 8 % 2 ^ 8 ∷ []

abbrev pub bytes_u32 : ℕ → List ℕ
bytes_u32 v = bytes_u16 (v % 2 ^ 16) ++ bytes_u16 (v / 2 ^ 16 % 2 ^ 16)

abbrev pub bytes_u64 : ℕ → List ℕ
bytes_u64 v = bytes_u32 (v % 2 ^ 32) ++ bytes_u32 (v / 2 ^ 32 % 2 ^ 32)

abbrev pub is_driver : Side → Bool
is_driver driver = true
is_driver device = false

abbrev pub is_device : Side → Bool
is_device s = not (is_driver s)

-- The places of the rings' fields.
abbrev pub available_entry : Queue → ℕ → ℕ
available_entry q slot = u64 (q.available_address + 4 + 2 * slot)

abbrev pub used_entry : Queue → ℕ → ℕ
used_entry q slot = u64 (q.used_address + 4 + 8 * slot)

-- The event index behind a ring.
abbrev pub available_event : Queue → ℕ
available_event q = u64 (q.available_address + 4 + q.queue_size * 2)

abbrev pub used_event : Queue → ℕ
used_event q = u64 (q.used_address + 4 + q.queue_size * 8)

abbrev pub ring_slot : Queue → ℕ → ℕ
ring_slot q index = bit_and index (q.queue_size - 1)

-- Whether the peer is to be notified.
unfoldable pub passes_event : ℕ → ℕ → ℕ → Bool
passes_event old next threshold =
    ltb (u16 (next + 2 * 2 ^ 16 - threshold - 1)) (u16 (next + 2 ^ 16 - old))

unfoldable pub publish_index : ℕ → ℕ → M Bool
unfolding store_release fence load_acquire passes_event
publish_index ring event = do
  q ← get
  let next = u16 (q.produced + 1)
  store_release (u64 (ring + 2)) next
  modify (λ r. record r { produced = next })
  fence
  threshold ← load_acquire event
  give (passes_event q.produced next threshold)

-- The bytes of a descriptor.
abbrev pub descriptor_bytes : ℕ → ℕ → ℕ → ℕ → List ℕ
descriptor_bytes address size flags next =
    bytes_u64 address ++ (bytes_u32 size ++ (bytes_u16 flags ++ bytes_u16 next))

-- The descriptor of the segment at `i`, with the segments after it.
unfoldable pub segment_bytes : Chain → ℕ → Segment → List Segment → List ℕ
unfolding direct_count
segment_bytes c i s [] =
    descriptor_bytes s.address s.size (if s.writable == 0 then 0 else desc_write) 0
segment_bytes c i s (t ∷ ss) =
    descriptor_bytes s.address s.size ((if s.writable == 0 then 0 else desc_write) + desc_next)
      (if suc i == direct_count c then c.indirect_descriptor else t.descriptor)

unfoldable pub segment_place : Queue → Chain → ℕ → Segment → ℕ
unfolding direct_count
segment_place q c i s = u64 (
    (if leb (direct_count c) i then c.indirect else q.descriptor_address)
    + s.descriptor * desc_size)

-- The loop over the segments, from `i` on.
unfoldable pub write_segments : Queue → Chain → ℕ → List Segment → M (Unit {0})
unfolding segment_bytes segment_place write
write_segments q c i [] = give tt
write_segments q c i (s ∷ ss) =
    write (segment_place q c i s) (segment_bytes c i s ss) >> write_segments q c (suc i) ss

unfoldable pub write_indirect : Queue → Chain → M (Unit {0})
unfolding write
write_indirect q c =
    if c.indirect_length == 0
    then give tt
    else write (u64 (q.descriptor_address + c.indirect_descriptor * desc_size))
        (descriptor_bytes c.indirect c.indirect_length desc_indirect 0)

-- The writes after the chain has been claimed.
unfoldable pub publish_chain : ℕ → M Bool
unfolding write_segments write_indirect write publish_index
publish_chain p = do
  q ← get
  let c = q.chains p
  write_segments q.queue c 0 c.segments
  write_indirect q.queue c
  write (available_entry q.queue (ring_slot q.queue q.produced)) (bytes_u16 c.head)
  publish_index q.queue.available_address (used_event q.queue)

-- The chain that was found valid is stored, and claimed.
unfoldable pub claim_valid : ℕ → Option Chain → M (Unit {0})
unfolding claim
claim_valid p none = return_status invalid
claim_valid p (some c) = modify (λ q. claim p submitted (with_chain q p c))

unfoldable pub publish : ℕ → ℕ → M Bool
unfolding check validate_chain claim_valid publish_chain
publish generation p = do
  check generation
  q ← get
  require (is_driver q.side && same_state (q.chains p).state free) invalid
  require (not (q.owned_count == q.queue.max_outstanding)) full
  claim_valid p (validate_chain q (q.chains p))
  publish_chain p

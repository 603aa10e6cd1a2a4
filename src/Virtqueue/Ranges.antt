-- ===== src/Virtqueue/Ranges.antt =====
-- Ranges of transport addresses: `range_valid`, `overlaps`, `ring_base`, `ring_size` and `payload_range`
-- of protocol/src/virtqueue.c.
use kobox.Prelude.{
  ℕ, ◌+◌, ◌-◌, ◌*◌, Bool, true, false, List, [], ◌∷◌, ◌&&◌, ◌||◌, not, ltb, leb, ◌==◌, bit_and,
  if◌then◌else◌, u64, u64_max,
}
use kobox.Virtqueue.{Queue, Region, Vq}

-- KB2_PROTOCOL_REGION_RIGHT_READ and KB2_PROTOCOL_REGION_RIGHT_WRITE
abbrev pub right_read : ℕ
right_read = 1

abbrev pub right_write : ℕ
right_write = 2

-- A loop that looks for an item.
abbrev pub has_item {ℓ} : {A : Type ℓ} → (A → Bool) → List A → Bool
has_item p [] = false
has_item p (x ∷ xs) = p x || has_item p xs

unfoldable pub range_valid : ℕ → ℕ → Bool
range_valid address size = not (size == 0) && leb address (u64_max - size)

unfoldable pub overlaps : ℕ → ℕ → ℕ → ℕ → Bool
overlaps a n b m = not (n == 0) && (not (m == 0) && (ltb a (u64 (b + m)) && ltb b (u64 (a + n))))

-- The rings by their number: descriptors, available, used.
unfoldable pub ring_base : Queue → ℕ → ℕ
ring_base q ring =
    if ring == 0
    then q.descriptor_address
    else if ring == 1
    then q.available_address
    else q.used_address

unfoldable pub ring_size : Queue → ℕ → ℕ
ring_size q ring =
    if ring == 0 then q.queue_size * 16 else 6 + q.queue_size * (if ring == 1 then 2 else 8)

-- The test of one region.
unfoldable pub within_region : ℕ → ℕ → ℕ → Region → Bool
within_region address size rights r =
    leb r.transport_base address
    && (leb (u64 (address + size)) (u64 (r.transport_base + r.region_length))
        && bit_and r.rights rights == rights)

-- Whether a ring of the queue is touched.
unfoldable pub touches_rings : ℕ → ℕ → Queue → Bool
unfolding overlaps ring_base ring_size
touches_rings address size q =
    overlaps address size (ring_base q 0) (ring_size q 0)
    || (overlaps address size (ring_base q 1) (ring_size q 1)
        || overlaps address size (ring_base q 2) (ring_size q 2))

unfoldable pub payload_range : Vq → ℕ → ℕ → ℕ → Bool
unfolding range_valid within_region touches_rings
payload_range q address size rights =
    if size == 0
    then true
    else if not (range_valid address size)
    then false
    else if not (has_item (within_region address size rights) q.channel.regions)
    then false
    else if has_item (touches_rings address size) q.channel.queues
    then false
    else q.memory.payload_allowed q.queue.queue_id address size rights

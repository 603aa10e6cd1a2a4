-- ===== src/Virtqueue/Payload.antt =====
-- Where the payload of a chain that `kb2_vq_take_available` of protocol/src/virtqueue.c accepts may lie.
pub mod Valid
pub mod Taken
use kobox.Prelude.{
  ℕ, ◌+◌, ◌≤◌, ◌<◌, ◌≡◌, ◌≢◌, ◌⊎◌, ◌^◌, List, Option, some, get_elem?, bit_and, ◌==◌, if◌then◌else◌,
}
use kobox.Virtqueue.{Queue, Region, Segment, Channel}
use kobox.Virtqueue.Ranges.{ring_base, ring_size, right_read, right_write}

abbrev pub right_of : Segment → ℕ
right_of s = if s.writable == 0 then right_read else right_write

-- The segment lies in a region of the channel that grants the right.
abbrev pub InRegion : Channel → Segment → Type 0
InRegion channel s =
    (i : ℕ) × (r : Region) × (get_elem? channel.regions i ≡ some r)
    × (r.transport_base ≤ s.address)
    × (s.address + s.size ≤ r.transport_base + r.region_length)
    × (bit_and r.rights (right_of s) ≡ right_of s)

-- The segment is apart from each ring of each queue that is not empty and ends before the end of the
-- address space.
abbrev pub ApartFromRings : Channel → Segment → Type 0
ApartFromRings channel s =
    (i : ℕ) (n : Queue) (ring : ℕ)
    → get_elem? channel.queues i ≡ some n
    → ring < 3
    → ring_size n ring ≢ 0
    → ring_base n ring + ring_size n ring < 2 ^ 64
    → (s.address + s.size ≤ ring_base n ring) ⊎ (ring_base n ring + ring_size n ring ≤ s.address)

-- So does a segment that is not empty, and whose length fits its type.
abbrev pub Within : Channel → Segment → Type 0
Within channel s = s.size ≢ 0 → s.size < 2 ^ 32 → InRegion channel s × ApartFromRings channel s

abbrev pub AllWithin : Channel → List Segment → Type 0
AllWithin channel ss = (i : ℕ) (s : Segment) → get_elem? ss i ≡ some s → Within channel s

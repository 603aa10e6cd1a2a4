-- ===== src/Protocol/Channel/Rings.antt =====
-- What the validation of a channel in protocol/src/protocol.c guarantees of the rings of its queues.
use kobox.Prelude.{
  ℕ, zero, suc, ◌+◌, ◌≤◌, ◌<◌, ◌≡◌, sym, subst, ◌^◌, true, false, List, [], ◌∷◌, some, get_elem?,
  ◌==◌, bit_and, if◌then◌else◌, arith, ℕ_discrete,
}
use kobox.Protocol.Channel.{
  QueueModel, u64_range_valid, region_has, range_has_rights, queue_range_length, queue_range_base,
  rings_overlap, ring_clashes, ring_unique, queue_ranges_unique, queue_valid, rings_valid,
  validate_queues, ring_rights, queue_size_max, role_event,
}
use kobox.Virtqueue.{Region}
use kobox.Virtqueue.Ranges.{has_item}
use kobox.Virtqueue.Payload.Valid.{has_item-some}
use kobox.Protocol.Channel.Sound.{each_passes}

-- The limits of a queue, and that its rings have their rights and are apart from one another.
pub record QueueSound (regions : List Region) (q : QueueModel) : Type 0 where
  pub size : q.queue_size ≤ queue_size_max
  pub outstanding : q.max_outstanding ≤ q.queue_size
  pub rights :
      (a : ℕ)
      → a < 3
      → range_has_rights (queue_range_base q a) (queue_range_length q a) ring_rights regions ≡ true
  pub own : (a : ℕ) → a < 3 → ring_clashes q a a q ≡ false

abbrev pub Queues : List Region → List QueueModel → List QueueModel → Type 0
Queues regions before queues =
    (events : ℕ) × (requests : ℕ) × (validate_queues before events requests queues regions ≡ true)

queue_valid-limits :
    (before : List QueueModel) (q : QueueModel)
    → queue_valid before q ≡ true
    → (q.queue_size ≤ queue_size_max) × (q.max_outstanding ≤ q.queue_size)
unfolding queue_valid
queue_valid-limits before q e = (ground (arith, e), ground (arith, e))

rings_valid-rights :
    (before : List QueueModel) (q : QueueModel) (regions : List Region) (a : ℕ)
    → rings_valid before q regions ≡ true
    → a < 3
    → range_has_rights (queue_range_base q a) (queue_range_length q a) ring_rights regions ≡ true
unfolding rings_valid queue_range_base
rings_valid-rights before q regions zero e l = ground (arith, e)
rings_valid-rights before q regions (suc zero) e l = ground (arith, e)
rings_valid-rights before q regions (suc (suc zero)) e l = ground (arith, e)
rings_valid-rights before q regions (suc (suc (suc a))) e l = absurd (omega (arith, l))

pub rings_valid_unique :
    (before : List QueueModel) (q : QueueModel) (regions : List Region) (a : ℕ)
    → rings_valid before q regions ≡ true
    → a < 3
    → (has_item (ring_clashes q a 3) before ≡ false) × (ring_clashes q a a q ≡ false)
unfolding rings_valid queue_ranges_unique ring_unique
rings_valid_unique before q regions zero e l = (ground (arith, e), ground (arith, e))
rings_valid_unique before q regions (suc zero) e l = (ground (arith, e), ground (arith, e))
rings_valid_unique before q regions (suc (suc zero)) e l = (ground (arith, e), ground (arith, e))
rings_valid_unique before q regions (suc (suc (suc a))) e l = absurd (omega (arith, l))

pub Queues-turn :
    (regions : List Region) (before : List QueueModel) (q : QueueModel) (queues : List QueueModel)
    → Queues regions before (q ∷ queues)
    → (queue_valid before q ≡ true)
      × (rings_valid before q regions ≡ true)
      × Queues regions (q ∷ before) queues
unfolding validate_queues
Queues-turn regions before q queues (events, requests, e) = (
  ground (arith, e),
  ground (arith, e),
  (
    (if q.role == role_event then suc events else events),
    (if q.role == role_event then requests else suc requests),
    ground (arith, e),
  ),
)

queue_sound :
    (regions : List Region) (before : List QueueModel) (q : QueueModel)
    → queue_valid before q ≡ true
    → rings_valid before q regions ≡ true
    → QueueSound regions q
queue_sound regions before q v r = record {
  size = (queue_valid-limits before q v).0;
  outstanding = (queue_valid-limits before q v).1;
  rights = λ a l. rings_valid-rights before q regions a r l;
  own = λ a l. (rings_valid_unique before q regions a r l).1;
}

pub all_sound :
    (regions : List Region) (queues : List QueueModel) (i : ℕ) (q : QueueModel)
    → Queues regions [] queues
    → get_elem? queues i ≡ some q
    → QueueSound regions q
all_sound regions queues i q v e =
    each_passes (Queues regions) (QueueSound regions)
      (λ before q queues v.
        let (valid, rings, rest) = Queues-turn regions before q queues v in
        (queue_sound regions before q valid rings, rest))
      [] queues i q v e

pub ring_clashes-none :
    (q p : QueueModel) (a n b : ℕ)
    → ring_clashes q a n p ≡ false
    → b < n
    → rings_overlap q a p b ≡ false
unfolding ring_clashes
ring_clashes-none q p a zero b e l = absurd (omega (arith, l))
ring_clashes-none q p a (suc n) b e l = elim (ℕ_discrete b n) [
  | yes same ↦ subst (λ i. rings_overlap q a p i ≡ false) (sym same) (ground (arith, e))
  | no other ↦ ring_clashes-none q p a n b (ground (arith, e)) (omega (arith, l, other))
]

-- A range with rights ends before the end of the address space, in a region with the rights.
abbrev pub RangeWithin : List Region → ℕ → ℕ → Type 0
RangeWithin regions base size =
    (i : ℕ) × (r : Region) × (get_elem? regions i ≡ some r)
    × (r.transport_base ≤ base)
    × (base + size ≤ r.transport_base + r.region_length)
    × (bit_and r.rights ring_rights ≡ ring_rights)

pub range_end :
    (regions : List Region) (base size rights : ℕ)
    → range_has_rights base size rights regions ≡ true
    → size < 2 ^ 64
    → (base + size < 2 ^ 64) × (has_item (region_has base size rights) regions ≡ true)
unfolding range_has_rights u64_range_valid
range_end regions base size rights e l = (ground (arith, e, l), ground (arith, e))

region_has-inside :
    (base size : ℕ) (r : Region)
    → region_has base size ring_rights r ≡ true
    → base + size < 2 ^ 64
    → (r.transport_base ≤ base)
      × (base + size ≤ r.transport_base + r.region_length)
      × (bit_and r.rights ring_rights ≡ ring_rights)
unfolding region_has
region_has-inside base size r e l = (ground (arith, e), ground (arith, e, l), ground (arith, e))

pub range-Within :
    (regions : List Region) (base size : ℕ)
    → range_has_rights base size ring_rights regions ≡ true
    → size < 2 ^ 64
    → RangeWithin regions base size
range-Within regions base size e l =
    let (end, found) = range_end regions base size ring_rights e l in
    let (i, r, g, h) = has_item-some (region_has base size ring_rights) regions found in
    let (low, high, rights) = region_has-inside base size r h end in (i, r, g, low, high, rights)

pub queue_range_small :
    (q : QueueModel) (a : ℕ) → q.queue_size ≤ queue_size_max → queue_range_length q a < 2 ^ 64
unfolding queue_range_length
queue_range_small q zero l = omega (arith, l)
queue_range_small q (suc zero) l = omega (arith, l)
queue_range_small q (suc (suc zero)) l = omega (arith, l)
queue_range_small q (suc (suc (suc a))) l = omega arith

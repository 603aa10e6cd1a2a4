-- ===== src/Protocol/Channel.antt =====
-- The model of a channel and its validation: `kb2_validate_regions`, `kb2_validate_queues` and
-- `kb2_validate_channel_model` of protocol/src/protocol.c with what they call. The channel and the
-- arrays are there; a count is the length of its list.
pub mod Sound
pub mod Rings
pub mod Accepted
pub mod Examples
use kobox.Prelude.{
  ℕ, zero, suc, ◌+◌, ◌-◌, ◌*◌, ◌/◌, ◌≤◌, ◌^◌, Bool, true, false, List, [], ◌∷◌, ◌&&◌, ◌||◌, not,
  ltb, leb, ◌==◌, bit_and, if◌then◌else◌, length, u64, u64_max,
}
use kobox.Protocol.{ProtocolStatus, ok, malformed, invalid_argument, overflow}
use kobox.Virtqueue.{Region}
use kobox.Virtqueue.Ranges.{has_item}

-- `kb2_protocol_channel_t`
pub record ChannelModel : Type 0 where
  pub feature_bits : ℕ
  pub channel_id : ℕ
  pub generation : ℕ
  pub protocol_id : ℕ
  pub flags : ℕ

-- `kb2_protocol_queue_t`
pub record QueueModel : Type 0 where
  pub queue_id : ℕ
  pub role : ℕ
  pub queue_size : ℕ
  pub flags : ℕ
  pub descriptor_address : ℕ
  pub available_address : ℕ
  pub used_address : ℕ
  pub available_notification_id : ℕ
  pub used_notification_id : ℕ
  pub max_chain_length : ℕ
  pub max_indirect_length : ℕ
  pub max_outstanding : ℕ

-- The rights to read and to write.
abbrev pub ring_rights : ℕ
ring_rights = 3

abbrev pub queue_size_max : ℕ
queue_size_max = 32768

abbrev pub role_event : ℕ
role_event = 1

abbrev pub role_request : ℕ
role_request = 2

unfoldable pub u64_range_valid : ℕ → ℕ → Bool
u64_range_valid base size = not (size == 0) && leb base (u64_max - size)

unfoldable pub ranges_overlap : ℕ → ℕ → ℕ → ℕ → Bool
ranges_overlap left_base left_size right_base right_size =
    ltb left_base (u64 (right_base + right_size)) && ltb right_base (u64 (left_base + left_size))

-- The test of one region.
unfoldable pub region_has : ℕ → ℕ → ℕ → Region → Bool
region_has base size rights r =
    bit_and r.rights rights == rights
    && (leb r.transport_base base
        && leb (u64 (base + size)) (u64 (r.transport_base + r.region_length)))

unfoldable pub range_has_rights : ℕ → ℕ → ℕ → List Region → Bool
unfolding u64_range_valid region_has
range_has_rights base size rights regions =
    u64_range_valid base size && has_item (region_has base size rights) regions

unfoldable pub queue_range_length : QueueModel → ℕ → ℕ
queue_range_length q zero = q.queue_size * 16
queue_range_length q (suc zero) = 6 + q.queue_size * 2
queue_range_length q (suc (suc zero)) = 6 + q.queue_size * 8
queue_range_length q (suc (suc (suc n))) = 0

unfoldable pub queue_range_base : QueueModel → ℕ → ℕ
queue_range_base q zero = q.descriptor_address
queue_range_base q (suc zero) = q.available_address
queue_range_base q (suc (suc zero)) = q.used_address
queue_range_base q (suc (suc (suc n))) = 0

-- The test of a region against one before it.
unfoldable pub region_clashes : Region → Region → Bool
unfolding ranges_overlap
region_clashes region right =
    region.region_id == right.region_id
    || ranges_overlap region.transport_base region.region_length right.transport_base
        right.region_length

unfoldable pub region_valid : Region → Bool
unfolding u64_range_valid
region_valid region =
    not (region.region_id == 0)
    && (not (region.rights == 0)
        && (bit_and region.rights (2 ^ 32 - 1 - ring_rights) == 0
            && u64_range_valid region.transport_base region.region_length))

-- The loop over the regions, with those before.
unfoldable pub validate_regions : List Region → List Region → Bool
unfolding region_valid region_clashes
validate_regions before [] = true
validate_regions before (region ∷ regions) =
    let rest = validate_regions (region ∷ before) regions in
    region_valid region && (not (has_item (region_clashes region) before) && rest)

unfoldable pub identity_clashes : QueueModel → QueueModel → Bool
identity_clashes q previous =
    q.queue_id == previous.queue_id
    || (q.available_notification_id == previous.available_notification_id
        || (q.available_notification_id == previous.used_notification_id
            || (q.used_notification_id == previous.available_notification_id
                || q.used_notification_id == previous.used_notification_id)))

unfoldable pub queue_identity_unique : List QueueModel → QueueModel → Bool
unfolding identity_clashes
queue_identity_unique before q =
    not (has_item (identity_clashes q) before)
    && not (q.available_notification_id == q.used_notification_id)

-- Whether a ring of a queue overlaps a ring of a queue.
unfoldable pub rings_overlap : QueueModel → ℕ → QueueModel → ℕ → Bool
unfolding ranges_overlap queue_range_base queue_range_length
rings_overlap q ring previous previous_ring =
    ranges_overlap (queue_range_base q ring) (queue_range_length q ring)
      (queue_range_base previous previous_ring) (queue_range_length previous previous_ring)

-- The first `n` rings of the other queue.
unfoldable pub ring_clashes : QueueModel → ℕ → ℕ → QueueModel → Bool
unfolding rings_overlap
ring_clashes q ring zero previous = false
ring_clashes q ring (suc n) previous =
    ring_clashes q ring n previous || rings_overlap q ring previous n

-- The turn of a ring: all rings of the queues before, and the rings before it of the queue itself.
unfoldable pub ring_unique : List QueueModel → QueueModel → ℕ → Bool
unfolding ring_clashes
ring_unique before q ring =
    not (has_item (ring_clashes q ring 3) before) && not (ring_clashes q ring ring q)

unfoldable pub queue_ranges_unique : List QueueModel → QueueModel → Bool
unfolding ring_unique
queue_ranges_unique before q =
    ring_unique before q 0 && (ring_unique before q 1 && ring_unique before q 2)

-- The first tests of a queue.
unfoldable pub queue_valid : List QueueModel → QueueModel → Bool
unfolding queue_identity_unique
queue_valid before q =
    not (q.queue_id == 0)
    && (q.flags == 0
        && ((q.role == role_event || q.role == role_request)
            && (leb 1 q.queue_size
                && (leb q.queue_size queue_size_max
                    && (bit_and q.queue_size (q.queue_size - 1) == 0
                        && (not (q.available_notification_id == 0)
                            && (not (q.used_notification_id == 0)
                                && (not (q.max_chain_length == 0)
                                    && (leb q.max_chain_length q.queue_size
                                        && (not (q.max_indirect_length == 0)
                                            && (leb q.max_indirect_length queue_size_max
                                                && (not (q.max_outstanding == 0)
                                                    && (leb q.max_outstanding q.queue_size
                                                        && queue_identity_unique before
                                                            q)))))))))))))

-- The tests of its rings.
unfoldable pub rings_valid : List QueueModel → QueueModel → List Region → Bool
unfolding queue_range_length range_has_rights queue_ranges_unique
rings_valid before q regions =
    bit_and q.descriptor_address 15 == 0
    && (bit_and q.available_address 1 == 0
        && (bit_and q.used_address 3 == 0
            && (range_has_rights q.descriptor_address (queue_range_length q 0) ring_rights regions
                && (range_has_rights q.available_address (queue_range_length q 1) ring_rights
                      regions
                    && (range_has_rights q.used_address (queue_range_length q 2) ring_rights regions
                        && queue_ranges_unique before q)))))

-- The loop over the queues, with those before and the counts of the roles.
unfoldable pub validate_queues : List QueueModel → ℕ → ℕ → List QueueModel → List Region → Bool
unfolding queue_valid rings_valid
validate_queues before events requests [] regions = leb events 1 && leb 1 requests
validate_queues before events requests (q ∷ queues) regions =
    let rest =
      validate_queues (q ∷ before) (if q.role == role_event then suc events else events)
        (if q.role == role_event then requests else suc requests) queues regions in
    queue_valid before q && (rings_valid before q regions && rest)

abbrev pub features_required : ℕ
features_required = 805306368

unfoldable pub validate_channel_model : ChannelModel → List QueueModel → List Region → Bool
unfolding validate_regions validate_queues
validate_channel_model channel queues regions =
    leb 1 (length queues)
    && (leb (length queues) 1024
        && (not (length regions == 0)
            && (leb (length regions) 1024
                && (channel.feature_bits == features_required
                    && (not (channel.channel_id == 0)
                        && (not (channel.generation == 0)
                            && (not (channel.protocol_id == 0)
                                && ((channel.flags == 1 || channel.flags == 2)
                                    && (validate_regions [] regions
                                        && validate_queues [] 0 0 queues regions)))))))))

unfoldable pub channel_validate : ChannelModel → List QueueModel → List Region → ProtocolStatus
unfolding validate_channel_model
channel_validate channel queues regions =
    if validate_channel_model channel queues regions then ok else malformed

-- The sum with its test; the division rounds down.
unfoldable pub size_add_multiply : ℕ → ℕ → ℕ → Bool × ℕ
size_add_multiply base count width =
    if not (count == 0) && ltb ((u64_max - base) / count) width
    then (false, 0)
    else (true, base + count * width)

unfoldable pub channel_encoded_size : ℕ → ℕ → ProtocolStatus × ℕ
unfolding size_add_multiply
channel_encoded_size queue_count region_count =
    let (fits, tables) = size_add_multiply 96 queue_count 64 in
    let (all_fit, size) = size_add_multiply tables region_count 32 in
    if not (leb 1 queue_count && leb queue_count 1024)
      || (region_count == 0 || not (leb region_count 1024))
    then (invalid_argument, 0)
    else if not fits || not all_fit
    then (overflow, 0)
    else if ltb (2 ^ 32 - 1) size
    then (overflow, 0)
    else (ok, size)

-- ===== src/Virtqueue/Chains.antt =====
-- The ownership of chains and descriptors: `owned`, `chains_overlap`, `validate_chain`, `claim` and `drop`
-- of protocol/src/virtqueue.c.
use kobox.Prelude.{
  ℕ, suc, ◌+◌, ◌-◌, ◌/◌, ◌%◌, Bool, true, false, List, [], ◌∷◌, Option, none, some, ◌&&◌, ◌||◌, not,
  ltb, leb, ◌==◌, bit_and, if◌then◌else◌, length, get_or, set, u16, u32, u64, ◌^◌,
}
use kobox.Virtqueue.{
  Queue, Segment, Chain, ChainState, free, submitted, accepted, returned, Vq, with_chain, desc_size,
}
use kobox.Virtqueue.Ranges.{right_read, right_write, has_item, overlaps, payload_range}

-- KB2_PROTOCOL_QUEUE_ROLE_REQUEST
abbrev pub role_request : ℕ
role_request = 2

abbrev pub same_state : ChainState → ChainState → Bool
same_state free free = true
same_state submitted submitted = true
same_state accepted accepted = true
same_state returned returned = true
same_state _ _ = false

-- A pointer compared with what a slot has.
abbrev pub points_to : Option ℕ → ℕ → Bool
points_to none p = false
points_to (some i) p = i == p

abbrev pub is_none {ℓ} : {A : Type ℓ} → Option A → Bool
is_none none = true
is_none (some a) = false

-- The pointer is not NULL.
unfoldable pub owned : Vq → ℕ → ChainState → Bool
owned q p state =
    ltb (q.chains p).head q.queue.queue_size
    && (same_state (q.chains p).state state && points_to (get_or q.slots (q.chains p).head none) p)

-- The tests against the segments of the second chain.
unfoldable pub segment_overlaps : Segment → Chain → Bool
segment_overlaps left b =
    overlaps left.address left.size b.indirect b.indirect_length
    || has_item
        (λ (right : Segment).
          (not (left.writable == 0) || not (right.writable == 0))
          && overlaps left.address left.size right.address right.size)
        b.segments

unfoldable pub chains_overlap : Chain → Chain → Bool
unfolding segment_overlaps overlaps
chains_overlap a b =
    overlaps a.indirect a.indirect_length b.indirect b.indirect_length
    || (has_item (λ left. segment_overlaps left b) a.segments
        || has_item (λ (s : Segment). overlaps a.indirect a.indirect_length s.address s.size)
            b.segments)

-- How many segments stand in the queue's own table.
unfoldable pub direct_count : Chain → ℕ
direct_count c = if c.indirect_length == 0 then length c.segments else c.indirect_first

abbrev pub owner_of : Vq → ℕ → ℕ
owner_of q d = get_or q.descriptor_owner d 0

abbrev pub descriptor_at : List Segment → ℕ → ℕ
descriptor_at [] i = 0
descriptor_at (s ∷ ss) ℕ.zero = s.descriptor
descriptor_at (s ∷ ss) (suc i) = descriptor_at ss i

-- The tests of the indirect table.
unfoldable pub table_valid : Vq → Chain → Bool
unfolding direct_count
table_valid q c =
    if c.indirect_length == 0
    then c.indirect == 0 && (c.indirect_first == 0 && c.indirect_descriptor == 0)
    else bit_and c.indirect 15 == 0
      && (c.indirect_length % desc_size == 0
          && (leb (c.indirect_length / desc_size) q.queue.max_indirect_length
              && (ltb (direct_count c) (length c.segments)
                  && (ltb c.indirect_descriptor q.queue.queue_size
                      && (owner_of q c.indirect_descriptor == 0
                          && (descriptor_at c.segments (direct_count c) == 0
                              && payload_range q c.indirect c.indirect_length right_read))))))

-- A segment with whether it stands in the indirect table
pub record Placed : Type 0 where
  pub in_table : Bool
  pub segment : Segment

abbrev pub same_flag : Bool → Bool → Bool
same_flag true b = b
same_flag false b = not b

-- The test against a segment before.
unfoldable pub clashes : Placed → Placed → Bool
clashes x previous =
    same_flag previous.in_table x.in_table && x.segment.descriptor == previous.segment.descriptor
    || (not (x.segment.writable == 0) || not (previous.segment.writable == 0))
      && overlaps x.segment.address x.segment.size previous.segment.address previous.segment.size

-- The tests of a segment by itself: its place, its range and its descriptor.
unfoldable pub segment_valid : Vq → Chain → Placed → Bool → Bool
segment_valid q c x seen_writable =
    let s = x.segment in
    leb s.writable 1
    && (not (s.writable == 0 && seen_writable)
        && (payload_range q s.address s.size (if s.writable == 0 then right_read else right_write)
            && (not (overlaps s.address s.size c.indirect c.indirect_length)
                && (if x.in_table
                    then ltb s.descriptor (c.indirect_length / desc_size)
                    else ltb s.descriptor q.queue.queue_size
                      && (owner_of q s.descriptor == 0
                          && not (
                              not (c.indirect_length == 0)
                              && s.descriptor == c.indirect_descriptor))))))

-- The sums of the loop over the segments.
pub record Sums : Type 0 where
  pub readable : ℕ
  pub writable : ℕ

abbrev pub add_segment : Sums → Segment → Sums
add_segment n s =
    if s.writable == 0
    then record n { readable = u64 (n.readable + s.size) }
    else record n { writable = u64 (n.writable + s.size) }

-- The loop from the segment at `i` on, with the segments before it, the nearest first.
unfoldable pub check_segments :
    Vq → Chain → ℕ → List Placed → Bool → Sums → List Segment → Option Sums
unfolding direct_count segment_valid clashes
check_segments q c i before seen_writable n [] = some n
check_segments q c i before seen_writable n (s ∷ ss) =
    let x : Placed = record { in_table = leb (direct_count c) i; segment = s } in
    let rest =
      check_segments q c (suc i) (x ∷ before) (seen_writable || not (s.writable == 0))
        (add_segment n s) ss in
    if segment_valid q c x seen_writable && not (has_item (clashes x) before) then rest else none

-- The first tests.
unfoldable pub shape_valid : Vq → Chain → Bool
unfolding table_valid direct_count
shape_valid q c =
    c.has_segments
    && (not (length c.segments == 0)
        && (leb (length c.segments) c.capacity
            && (leb (length c.segments) q.queue.max_chain_length
                && (ltb c.head q.queue.queue_size
                    && (is_none (get_or q.slots c.head none)
                        && (owner_of q c.head == 0
                            && (table_valid q c
                                && (if direct_count c == 0
                                    then c.indirect_descriptor
                                    else descriptor_at c.segments 0)
                                  == c.head)))))))

unfoldable pub sums_valid : Queue → Sums → Bool
sums_valid q n =
    not (n.writable == 0)
    && (if q.role == role_request then not (n.readable == 0) else n.readable == 0)

-- The loop over the slots.
unfoldable pub slot_overlaps : Vq → Chain → List (Option ℕ) → Bool
slot_overlaps q c [] = false
slot_overlaps q c (none ∷ slots) = slot_overlaps q c slots
slot_overlaps q c (some p ∷ slots) = chains_overlap c (q.chains p) || slot_overlaps q c slots

-- The chain with its sums, or `none` where it is not valid.
unfoldable pub summed : Vq → Chain → Option Sums → Option Chain
unfolding sums_valid slot_overlaps
summed q c none = none
summed q c (some n) =
    if sums_valid q.queue n && not (slot_overlaps q c q.slots)
    then some
        (record c { readable = n.readable; writable = n.writable; written = 0; used_length = 0 })
    else none

unfoldable pub validate_chain : Vq → Chain → Option Chain
unfolding shape_valid check_segments summed
validate_chain q c =
    if shape_valid q c
    then summed q c
        (check_segments q c 0 [] false (record { readable = 0; writable = 0 }) c.segments)
    else none

-- The loop of `claim` and `drop` over the first `n` segments.
unfoldable pub mark_descriptors : List ℕ → ℕ → ℕ → List Segment → List ℕ
mark_descriptors owners n owner [] = owners
mark_descriptors owners ℕ.zero owner (s ∷ ss) = owners
mark_descriptors owners (suc n) owner (s ∷ ss) =
    mark_descriptors (set owners s.descriptor owner) n owner ss

unfoldable pub mark_chain : List ℕ → Chain → ℕ → List ℕ
unfolding mark_descriptors direct_count
mark_chain owners c owner =
    mark_descriptors
      (if c.indirect_length == 0 then owners else set owners c.indirect_descriptor owner)
      (direct_count c) owner c.segments

unfoldable pub claim : ℕ → ChainState → Vq → Vq
unfolding mark_chain
claim p state q =
    let c = q.chains p in
    with_chain
      (record q {
        slots = set q.slots c.head (some p);
        owned_count = u32 (q.owned_count + 1);
        descriptor_owner = mark_chain q.descriptor_owner c (u16 (c.head + 1));
      })
      p (record c { state = state })

unfoldable pub drop : ℕ → Vq → Vq
unfolding mark_chain
drop p q =
    let c = q.chains p in
    with_chain
      (record q {
        slots = set q.slots c.head none;
        last_taken = if points_to q.last_taken p then none else q.last_taken;
        owned_count = u32 (q.owned_count + (2 ^ 32 - 1));
        descriptor_owner = mark_chain q.descriptor_owner c 0;
      })
      p (record c { state = free })

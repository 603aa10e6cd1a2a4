-- ===== src/Virtqueue/Transfer.antt =====
-- The other operations on chains: `kb2_vq_move_accepted`, `kb2_vq_return_available`, `copy_data` with
-- `kb2_vq_copy_request`, `kb2_vq_write_response` and `kb2_vq_copy_response`, `kb2_vq_complete`,
-- `kb2_vq_release`, `kb2_vq_arm` and `kb2_vq_bind` of protocol/src/virtqueue.c. The buffers that are
-- copied from and to are there.
use kobox.Prelude.{
  ℕ, ◌+◌, ◌-◌, ◌^◌, Bool, List, [], ◌∷◌, ◌++◌, Option, none, some, ◌&&◌, ◌||◌, not, ltb, leb, ◌==◌,
  if◌then◌else◌, length, take, drop, set, min, replicate, u16, u32, u64,
}
use kobox.Virtqueue.{
  VqStatus, ok, invalid, faulted, Side, Segment, Chain, free, accepted, returned, Queue, Memory,
  Channel, Vq, with_chain,
}
use kobox.Virtqueue.Effects.{
  Outcome, M, ◌>>=◌, ◌>>◌, give, get, modify, require, fault_unless, fault, check, read, write,
  load_acquire, store_release, fence,
}
use kobox.Virtqueue.Chains
use kobox.Virtqueue.Chains.{same_state, points_to, owned}
use kobox.Virtqueue.Publish.{
  bytes_u32, is_driver, is_device, used_entry, available_event, used_event, ring_slot,
  publish_index,
}
use kobox.Virtqueue.Take.{pending_index}

-- The destination keeps its own array, and takes the source's segments and all else.
unfoldable pub moved : ℕ → ℕ → Vq → Vq
moved source destination q =
    let c = q.chains source in
    let kept : Chain = record c {
      has_segments = (q.chains destination).has_segments;
      capacity = (q.chains destination).capacity;
    } in
    with_chain
      (with_chain
        (record q {
          slots = set q.slots c.head (some destination);
          last_taken = if points_to q.last_taken source then some destination else q.last_taken;
        })
        destination kept)
      source (record c { state = free })

unfoldable pub move_accepted : ℕ → ℕ → ℕ → M (Unit {0})
unfolding check owned moved
move_accepted generation source destination = do
  check generation
  q ← get
  require
      (is_device q.side
        && (owned q source accepted
            && (not (destination == source)
                && (same_state (q.chains destination).state free
                    && ((q.chains destination).has_segments
                        && leb (length (q.chains source).segments)
                            (q.chains destination).capacity)))))
      invalid
  modify (moved source destination)

unfoldable pub return_available : ℕ → ℕ → M (Unit {0})
unfolding check owned Chains.drop
return_available generation p = do
  check generation
  q ← get
  require
      (is_device q.side
        && (owned q p accepted && (points_to q.last_taken p && (q.chains p).written == 0)))
      invalid
  modify (Chains.drop p)
  modify (λ r. record r { consumed = u16 (r.consumed + (2 ^ 16 - 1)) })

-- `copy_data` that reads, from the segments that are as writable as is asked.
unfoldable pub copy_from : ℕ → ℕ → ℕ → List Segment → M (List ℕ)
unfolding read fault
copy_from writable offset size [] = fault_unless (size == 0) >> give []
copy_from writable offset size (s ∷ ss) =
    let skipped =
      copy_from writable (if s.writable == writable then offset - s.size else offset) size ss in
    if size == 0
    then give []
    else if not (s.writable == writable) || leb s.size offset
    then skipped
    else (read (u64 (s.address + offset)) (min (s.size - offset) size) >>= λ bytes.
        copy_from writable 0 (size - min (s.size - offset) size) ss >>= λ rest.
        give (bytes ++ rest))

-- `copy_data` that writes, to the writable segments.
unfoldable pub copy_to : ℕ → List ℕ → List Segment → M (Unit {0})
unfolding write fault
copy_to offset bytes [] = fault_unless (length bytes == 0)
copy_to offset bytes (s ∷ ss) =
    let skipped = copy_to (if s.writable == 1 then offset - s.size else offset) bytes ss in
    if length bytes == 0
    then give tt
    else if not (s.writable == 1) || leb s.size offset
    then skipped
    else (write (u64 (s.address + offset)) (take (min (s.size - offset) (length bytes)) bytes)
        >> copy_to 0 (drop (min (s.size - offset) (length bytes)) bytes) ss)

unfoldable pub copy_request : ℕ → ℕ → ℕ → ℕ → M (List ℕ)
unfolding check owned copy_from
copy_request generation p offset size = do
  check generation
  q ← get
  require
      (is_device q.side
        && (owned q p accepted
            && (leb offset (q.chains p).readable && leb size ((q.chains p).readable - offset))))
      invalid
  copy_from 0 offset size (q.chains p).segments

abbrev pub u32_max : ℕ
u32_max = 2 ^ 32 - 1

-- A difference of 64-bit words.
abbrev pub u64_minus : ℕ → ℕ → ℕ
u64_minus a b = u64 (a + 2 ^ 64 - b)

unfoldable pub write_response : ℕ → ℕ → List ℕ → M (Unit {0})
unfolding check owned copy_to
write_response generation p bytes = do
  check generation
  q ← get
  require
      (is_device q.side
        && (owned q p accepted
            && (leb (length bytes) (u64_minus (q.chains p).writable (q.chains p).written)
                && leb (length bytes) (u64_minus u32_max (q.chains p).written))))
      invalid
  copy_to (q.chains p).written bytes (q.chains p).segments
  modify (λ r.
      with_chain r p (record (r.chains p) { written = u64 ((r.chains p).written + length bytes) }))

unfoldable pub complete : ℕ → ℕ → M Bool
unfolding check owned write publish_index Chains.drop
complete generation p = do
  check generation
  q ← get
  require (is_device q.side && owned q p accepted) invalid
  write (used_entry q.queue (ring_slot q.queue q.produced))
      (bytes_u32 (q.chains p).head ++ bytes_u32 (u32 (q.chains p).written))
  notify ← publish_index q.queue.used_address (available_event q.queue)
  modify (Chains.drop p)
  give notify

unfoldable pub copy_response : ℕ → ℕ → ℕ → ℕ → M (List ℕ)
unfolding check owned copy_from
copy_response generation p offset size = do
  check generation
  q ← get
  require
      (is_driver q.side
        && (owned q p returned
            && (leb offset (q.chains p).used_length
                && leb size ((q.chains p).used_length - offset))))
      invalid
  copy_from 1 offset size (q.chains p).segments

unfoldable pub release : ℕ → ℕ → M (Unit {0})
unfolding check owned Chains.drop
release generation p = do
  check generation
  q ← get
  require (is_driver q.side && owned q p returned) invalid
  modify (Chains.drop p)

-- Whether the ring is to be drained before sleeping.
unfoldable pub arm : ℕ → M Bool
unfolding check store_release fence pending_index
arm generation = do
  check generation
  q ← get
  store_release (if is_driver q.side then available_event q.queue else used_event q.queue)
      q.consumed
  fence
  distance ← pending_index
  give (not (distance == 0))

-- The last queue of the channel with the identifier.
unfoldable pub find_queue : List Queue → ℕ → Option Queue
find_queue [] queue_id = none
find_queue (r ∷ rs) queue_id = elim (find_queue rs queue_id) [
  | some s ↦ some s
  | none ↦ if r.queue_id == queue_id then some r else none
]

-- The candidate of `kb2_vq_bind`.
abbrev pub bound : Channel → Queue → Side → Memory → (ℕ → Chain) → Vq
bound channel queue side memory chains = record {
  channel = channel;
  queue = queue;
  memory = memory;
  side = side;
  slots = replicate queue.queue_size none;
  last_taken = none;
  descriptor_owner = replicate queue.queue_size 0;
  produced = 0;
  consumed = 0;
  owned_count = 0;
  chains = chains;
}

-- The ring that the side owns must not have been used.
unfoldable pub bind_queue : M (Unit {0})
unfolding load_acquire
bind_queue = do
  q ← get
  index ←
      load_acquire
        (u64 ((if is_driver q.side then q.queue.available_address else q.queue.used_address) + 2))
  fault_unless (index == 0)

-- What follows the search.
unfoldable pub bind_found :
    Channel
    → Side
    → Memory
    → (ℕ → Chain)
    → ℕ
    → Option Queue
    → VqStatus × Option (Outcome (Unit {0}))
unfolding bind_queue
bind_found channel side memory chains capacity none = (invalid, none)
bind_found channel side memory chains capacity (some queue) =
    if ltb capacity queue.queue_size
    then (invalid, none)
    else (ok, some (bind_queue (bound channel queue side memory chains)))

-- `kb2_vq_bind`: a status where there is no candidate, or what becomes of the candidate. `capacity` is
-- that of the arrays of slots and owners.
unfoldable pub bind :
    Channel → ℕ → Side → Memory → (ℕ → Chain) → ℕ → VqStatus × Option (Outcome (Unit {0}))
unfolding find_queue bind_found
bind channel queue_id side memory chains capacity =
    if channel.is_faulted
    then (faulted, none)
    else bind_found channel side memory chains capacity (find_queue channel.queues queue_id)

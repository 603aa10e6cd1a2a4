-- ===== src/Virtqueue/Examples.antt =====
-- Runs of protocol/src/virtqueue.c on concrete queues, and the theorems there.
use kobox.Prelude.{
  ◌-◌, ℕ, ◌+◌, ◌*◌, arith, ◌≡◌, ◌≤◌, ◌⊎◌, refl, true, false, List, [], ◌∷◌, Option, none, some,
  ◌==◌, ◌&&◌, leb, false≢true, if◌then◌else◌, replicate,
}
use kobox.Virtqueue.{Queue, Memory, Channel, driver, device, Chain, free, Vq, ok, stale}
use kobox.Virtqueue.Effects
use kobox.Virtqueue.Ranges
use kobox.Virtqueue.Chains
use kobox.Virtqueue.Publish
use kobox.Virtqueue.Publish.{descriptor_bytes}
use kobox.Virtqueue.Take
use kobox.Virtqueue.Transfer
use kobox.Virtqueue.Transfer.{bound}
use kobox.Virtqueue.Calls
use kobox.Virtqueue.Calls.{Call, step, run}
use kobox.Virtqueue.Ownership
use kobox.Virtqueue.Ownership.{holds, slot, occupied, Inv}
use kobox.Virtqueue.Ownership.Kept.{run-Owned}
use kobox.Virtqueue.Ownership.Runs.{bound-Inv, run-exclusive}
use kobox.Virtqueue.Refusals.{Refusal}
use kobox.Virtqueue.Refusals.Calls.{step-Refusal}
use kobox.Virtqueue.Refusals.Stuck.{run-faulted}
use kobox.Protocol.Channel.Examples as Model
use kobox.Virtqueue.Init
use kobox.Virtqueue.Init.{bind-run-Owned}
use kobox.Virtqueue.Effects.{done}
use kobox.Virtqueue.Copies.{bytes_at, contents, counted}
use kobox.Virtqueue.Copies.Request.{copy_request-slice}
use kobox.Virtqueue.Payload.{AllWithin}
use kobox.Virtqueue.Payload.Taken.{take_available_sound}
use kobox.Virtqueue.Order.{Published, publish-order}
use kobox.Virtqueue.Fuel.{read_turns-enough}
use kobox.Virtqueue.Words.{descriptor_read_back}

-- All that the engine computes with.
computed : ℕ
unfolding Effects.◌>>=◌ Effects.give Effects.get Effects.modify Effects.return_status
    Effects.require Effects.fault_unless Effects.or_fault Effects.channel_fault Effects.fault
    Effects.check Effects.read Effects.write Effects.load_acquire Effects.store_release
    Effects.fence Ranges.payload_range Chains.owned Chains.chains_overlap Chains.validate_chain
    Chains.claim Chains.drop Publish.publish Take.peek_available Take.take_available Take.take_used
    Transfer.move_accepted Transfer.return_available Transfer.copy_request Transfer.write_response
    Transfer.complete Transfer.copy_response Transfer.release Transfer.arm Transfer.bind Calls.step
    Calls.run Ownership.holds Ownership.occupied
computed = 0

abbrev requests : Queue
requests = record {
  queue_id = 1;
  role = 2;
  queue_size = 4;
  descriptor_address = 0x1000;
  available_address = 0x2000;
  used_address = 0x3000;
  max_chain_length = 4;
  max_indirect_length = 0;
  max_outstanding = 4;
}

abbrev channel : Channel
channel = record {
  generation = 7;
  queues = requests ∷ [];
  regions =
      record { region_id = 1; rights = 3; transport_base = 0x10000; region_length = 0x1000 } ∷ [];
  is_faulted = false;
}

-- A memory of which every call succeeds: the ring that the peer writes has the index, and the bytes
-- at an address are given.
abbrev answering : ℕ → (ℕ → List ℕ) → Memory
answering index bytes = record {
  reads = λ n address size. some (bytes address);
  writes = λ n address data'. true;
  loads = λ n address. some index;
  stores = λ n address value. true;
  payload_allowed = λ queue address size rights. true;
  calls = 0;
  log = [];
}

abbrev no_chain : ℕ → Chain
no_chain i = record {
  has_segments = true;
  capacity = 4;
  segments = [];
  head = 0;
  indirect = 0;
  indirect_length = 0;
  indirect_descriptor = 0;
  indirect_first = 0;
  readable = 0;
  writable = 0;
  written = 0;
  used_length = 0;
  state = free;
}

-- A request of 16 bytes with room for 32 bytes of response, in two descriptors from the first on.
abbrev request : ℕ → Chain
request first = record (no_chain 0) {
  segments =
      record { address = 0x10000 + first * 0x40; size = 16; descriptor = first; writable = 0 }
      ∷ record {
        address = 0x10000 + first * 0x40 + 16;
        size = 32;
        descriptor = first + 1;
        writable = 1;
      }
      ∷ [];
  head = first;
}

-- The used entry names head 0, with 8 bytes written.
abbrev driving : Vq
driving =
    bound channel requests driver (answering 0 (λ address. 0 ∷ 0 ∷ 0 ∷ 0 ∷ 8 ∷ 0 ∷ 0 ∷ 0 ∷ []))
      no_chain

-- Two requests are published.
abbrev publishing : List Call
publishing =
    Call.fill 0 (request 0) ∷ Call.fill 1 (request 2) ∷ Call.publish 7 0 ∷ Call.publish 7 1 ∷ []

-- Before anything is published.
abbrev filled : Vq
filled = run driving (Call.fill 0 (request 0) ∷ [])

abbrev published : Vq
published = run driving publishing

published_slots : published.slots ≡ (some 0 ∷ none ∷ some 1 ∷ none ∷ [])
unfolding computed
published_slots = refl

published_owners : published.descriptor_owner ≡ (1 ∷ 1 ∷ 3 ∷ 3 ∷ [])
unfolding computed
published_owners = refl

-- The request of 16 bytes is in descriptor 0 and the response in descriptor 1.
abbrev ring_bytes : ℕ → List ℕ
ring_bytes address =
    if address == 0x1000
    then descriptor_bytes 0x10000 16 1 1
    else if address == 0x1010
    then descriptor_bytes 0x10010 32 2 0
    else replicate 16 0

abbrev serving : Vq
serving = bound channel requests device (answering 1 ring_bytes) no_chain

abbrev taken : Vq
taken = run serving (Call.take_available 7 5 ∷ [])

taken_slots : taken.slots ≡ (some 5 ∷ none ∷ none ∷ none ∷ [])
unfolding computed
taken_slots = refl

taken_sums : ((taken.chains 5).readable ≡ 16) × ((taken.chains 5).writable ≡ 32)
unfolding computed
taken_sums = (refl, refl)

abbrev completing : List Call
completing =
    Call.move_accepted 7 5 6 ∷ Call.write_response 7 6 (1 ∷ 2 ∷ []) ∷ Call.complete 7 6 ∷ []

completed : (run taken completing).owned_count ≡ 0
unfolding computed
completed = refl

stale_call : (step taken (Call.complete 8 5)).0 ≡ stale
unfolding computed
stale_call = refl

driving-Inv : Inv driving
driving-Inv = bound-Inv channel requests driver driving.memory no_chain (omega arith) (omega arith)

run-Owned_example : Inv published
run-Owned_example = run-Owned driving publishing driving-Inv

run-exclusive_example : ◌≡◌ {A = ℕ} 2 2 × ◌≡◌ {A = ℕ} 1 1
unfolding computed
run-exclusive_example =
    run-exclusive channel requests driver driving.memory no_chain (omega arith) (omega arith)
      publishing 2 2 1 1 3 refl refl refl refl

step-Refusal_example :
    ((step taken (Call.complete 8 5)).0 ≡ ok)
    ⊎ Refusal taken (step taken (Call.complete 8 5)).0 (step taken (Call.complete 8 5)).1
step-Refusal_example = step-Refusal taken (Call.complete 8 5)

-- The peer claims to have used what was never published.
abbrev cheated : Vq
cheated =
    run (bound channel requests driver (answering 1 (λ address. [])) no_chain)
      (Call.take_used 7 ∷ [])

run-faulted_example : run cheated (Call.publish 7 0 ∷ Call.arm 7 ∷ []) ≡ cheated
unfolding computed
run-faulted_example = run-faulted cheated (Call.publish 7 0 ∷ Call.arm 7 ∷ []) refl (tt, (tt, tt))

-- The request of 16 bytes counts from 0.
abbrev payload : ℕ → ℕ
payload address = address - 0x10000

-- A memory that maps the 16 bytes from 0x10000 on, and fails outside of them.
abbrev mapped : ℕ → ℕ → Option (List ℕ)
mapped a size =
    if leb 0x10000 a && leb (a + size) 0x10010 then some (bytes_at payload a size) else none

-- A queue that serves a request in such a memory, to which nobody writes.
abbrev still : Vq
still = record taken { memory = record (taken.memory) { reads = λ n a size. mapped a size } }

outside : mapped 0xffff 2 ≡ none
outside = refl

mapped_within :
    (a size : ℕ) → 0x10000 ≤ a → a + size ≤ 0x10010 → mapped a size ≡ some (bytes_at payload a size)
mapped_within a size l k = ground (arith, l, k)

copy_request-slice_example :
    (n : ℕ) × (Transfer.copy_request 7 5 3 4 still ≡ done (3 ∷ 4 ∷ 5 ∷ 6 ∷ []) (counted still n))
unfolding computed bytes_at contents
copy_request-slice_example =
    copy_request-slice payload 7 5 3 4 still refl refl refl
      (
        λ w n a size from l k. mapped_within a size l k,
        (λ w n a size from l k. absurd (false≢true w), tt),
      )
      (omega arith, (omega arith, tt)) (omega arith) (omega arith)

take_available_sound_example :
    AllWithin (Calls.run serving (Call.take_available 7 5 ∷ [])).channel (taken.chains 5).segments
unfolding computed
take_available_sound_example = take_available_sound 7 5 serving taken refl

publish-order_example : Published filled (filled.chains 0) (run filled (Call.publish 7 0 ∷ []))
unfolding computed
publish-order_example = publish-order 7 0 filled (run filled (Call.publish 7 0 ∷ [])) true refl

read_turns-enough_example :
    Take.read_turns
      (Take.turns_of requests + 9)
      5
      (record { table = 0x1000; limit = 4; index = 0; is_indirect = false })
      serving
    ≡ Take.read_turns
        (Take.turns_of requests)
        5
        (record { table = 0x1000; limit = 4; index = 0; is_indirect = false })
        serving
read_turns-enough_example = read_turns-enough 9 5 _ serving

descriptor_read_back_example :
    (Take.read_u64 (descriptor_bytes 0x10000 16 1 3) 0 ≡ 0x10000)
    × (Take.read_u32 (descriptor_bytes 0x10000 16 1 3) 8 ≡ 16)
    × (Take.read_u16 (descriptor_bytes 0x10000 16 1 3) 12 ≡ 1)
    × (Take.read_u16 (descriptor_bytes 0x10000 16 1 3) 14 ≡ 3)
descriptor_read_back_example =
    descriptor_read_back 0x10000 16 1 3 (omega arith) (omega arith) (omega arith) (omega arith)

-- The engine's view of the channel of Protocol/Channel/Examples.
abbrev started : Channel
started = record {
  generation = 7;
  queues = Init.engine_queue Model.requests ∷ Init.engine_queue Model.events ∷ [];
  regions = Model.rings ∷ [];
  is_faulted = false;
}

-- The driver's end of its queue of requests, after the look at the ring that it owns.
abbrev attached : Vq
attached =
    let q =
      bound started (Init.engine_queue Model.requests) driver (answering 0 (λ address. []))
        no_chain in
    record q { memory = record (q.memory) { calls = 1 } }

bind-run-Owned_example : Inv (run attached publishing)
unfolding computed Init.channel_init
bind-run-Owned_example =
    bind-run-Owned started driver (answering 0 (λ address. [])) no_chain 4 Model.identity
      (Model.requests ∷ Model.events ∷ []) (Model.rings ∷ []) 1 attached publishing refl refl

-- ===== src/Lib.antt =====
-- kobox2: a controller that launches and supervises one sandboxed module runtime.
--
-- The controller (include/kobox2/controller.h, src/controller/controller.c) is a state machine that
-- does no input or output: each call advances it and may leave one action for the host, which
-- carries it out and reports its completion. The closure (include/kobox2/closure.h, src/closure.c,
-- src/closure_internal.h) is the immutable description of what is launched; a builder collects it,
-- and the controller keeps a copy of it. The protocol library (protocol/) is the
-- wire format between a sandbox and its providers; modelled of it are the session requests of a GPU.
-- Controller and closure take their memory from an allocator of the host.
--
-- Files
--   Prelude, Prelude/*       Boolean tests, lists and words over the native numbers
--   Status                   kb2_status_t
--   Digest, Digest/Zero      kb2_digest_is_zero
--   Allocator                the host's allocator: a parameter that says which request is granted,
--                            and a ledger of the bytes that are allocated
--   Closure                  the records of src/closure_internal.h
--   Closure/Release          kb2_release_array, kb2_storage_release, kb2_closure_destroy
--   Closure/Sort             the comparisons and kb2_storage_sort; an insertion sort stands for qsort;
--                            Canonical states the documented order by keys, Ordered is about the sort
--   Closure/Clone, Clone/*   kb2_clone_array, kb2_closure_clone, kb2_closure_launch_flags
--   Closure/Builder, */Names, */Add, */Calls
--                            kb2_reserve, the argument checks and the builder's operations
--   Closure/Builder/Room, */Built, */Ledger, */Examples
--                            proofs about them, and concrete runs
--   Closure/NodeMap, NodeMap/*
--                            kb2_build_node_map, kb2_sort_node_map, kb2_node_map_find
--   Closure/Validate, */Sound
--                            kb2_validate_artifacts, _symbols and _resources, with what they search
--   Closure/Graph, Graph/*   kb2_validate_graph: its arrays, its three loops, its memory; Count, Sorting
--                            and Ranks are about the loop that sorts, Linking and Resolved about the
--                            edges, Reaching and Emptied about the loop that marks, Sound about
--                            what is accepted, Queues about the room and the end of the loops
--   Closure/Seal, Seal/*     kb2_validate_storage, kb2_closure_builder_seal
--   Controller               the structures of src/controller/controller.c
--   Controller/Emit          kb2_clear_action, kb2_emit_action
--   Controller/Configure     kb2_controller_create and _destroy, the setters, the validation
--   Controller/Lifecycle     kb2_begin_start, kb2_finish_cleanup, kb2_next_cleanup_action,
--                            kb2_begin_cleanup, kb2_controller_start, _stop and _restart
--   Controller/Complete      kb2_controller_complete_action, _report_ready, _report_fault
--   Controller/Calls         the calls as data, one call as a step, and a run of calls
--   Controller/Invariant, Refusal, Tokens, Graph, Drain, Startup, Ledger, Host, Examples
--                            proofs about them, and concrete runs
--   Protocol, Protocol/Word  kb2_protocol_status_t, and little-endian words in a buffer, of
--                            protocol/src/gpu_session.c
--   Protocol/Channel         kb2_protocol_channel_validate of protocol/src/protocol.c with what it calls,
--                            kb2_protocol_channel_encoded_size; Sound, Rings and Accepted about what
--                            it guarantees
--   Protocol/Envelope        kb2_protocol_message_envelope_encode and _decode
--   Protocol/BlockDevice     the four calls of protocol/src/block_device.c: headers and disks
--   Protocol/GpuSession      gpu_session.c: the requests to open and to close a session
--   Protocol/GpuCompletion   its completions
--   Virtqueue                the structures of protocol/src/virtqueue.c and its header
--   Virtqueue/Effects        fault, check, kb2_vq_channel_fault, and the calls of the host's memory
--   Virtqueue/Ranges         range_valid, overlaps, ring_base, ring_size, payload_range
--   Virtqueue/Chains         owned, chains_overlap, validate_chain, claim, drop
--   Virtqueue/Publish        the writers of words, publish_index, kb2_vq_publish
--   Virtqueue/Take           the readers of words, read_chain, pending_index, kb2_vq_peek_available,
--                            kb2_vq_take_available, kb2_vq_take_used
--   Virtqueue/Transfer       kb2_vq_move_accepted, kb2_vq_return_available, copy_data and its users,
--                            kb2_vq_complete, kb2_vq_release, kb2_vq_arm, kb2_vq_bind
--   Virtqueue/Init           kb2_vq_channel_init
--   Virtqueue/Calls          the calls as data, one call as a step, and a run of calls
--   Virtqueue/Keeping, Ownership, Refusals, Payload, Order, Copies, Fuel, Words, Examples
--                            proofs about them, and concrete runs
--
-- State and operations. An operation takes the record that its pointer refers to and returns the
-- status with the new record, and with the heap where it allocates. A NULL argument is none; NULL
-- result pointers, which return KB2_STATUS_INVALID_ARGUMENT, are left out, and so are the allocator's
-- pointers in each object, since one allocator serves all. An array with its count and capacity is a
-- list with a capacity; the pointer is NULL while the capacity is 0. Sizes of records are those of a
-- 64-bit target. A uint64_t counter wraps by its modulus. An enumerator that a caller may pass out
-- of range is a number (digest, limit, artifact and symbol kinds, resource types); statuses and fault
-- kinds are data types, since every value that is not listed takes the same branch.
--
-- A queue of the engine is passed on by a monad that returns early with a status. The host's memory
-- is a parameter: for each call, by its number, what it answers, so that the peer may change the
-- shared storage between any two reads; a log keeps what was written, stored and fenced. A pointer
-- to a chain is an index into a store of chains. Between two calls the owner of a free chain may fill
-- it in, and another queue of the channel may fault it.
--
-- Loops run over lists, with four exceptions. The loop over the descriptors of a chain in the rings
-- has two turns more than the longest chain: each turn but one adds a segment, and the loop fails at
-- that length. The binary search of the node map has the length of
-- its interval as fuel, which shrinks in each turn. The two loops over a queue in kb2_validate_graph
-- have as many turns as there are artifacts; a turn with an empty queue changes nothing. The walk
-- along the edges of one artifact goes down the list of edges, since each edge leads to an older one.
--
-- Not modelled: the read-only accessors, and the rest of the protocol library under protocol/. Of its
-- generated layouts the sizes and offsets that the modelled codecs use are written as numbers.
pub mod Allocator
pub mod Closure
pub mod Controller
pub mod Digest
pub mod Prelude
pub mod Protocol
pub mod Status
pub mod Virtqueue

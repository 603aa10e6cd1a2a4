-- ===== src/Protocol/GpuSession.antt =====
-- The requests of a GPU session: `kb2_gpu_session_open_encode`, `_open_decode`, `_close_encode` and
-- `_close_decode` of protocol/src/gpu_session.c. The offsets and sizes are the generated ones. A
-- NULL request is `none`; the buffers are there, and a decoder's size is the length of its bytes.
pub mod RoundTrip
mod Examples
use kobox.Prelude.{
  ℕ, Bool, List, [], Option, none, some, ◌&&◌, ◌||◌, not, ◌==◌, if◌then◌else◌, length, replicate,
}
use kobox.Protocol.{
  ProtocolStatus, ok, invalid_argument, malformed, read_u32, read_u64, write_u32, write_u64,
}

abbrev pub node_primary : ℕ
node_primary = 1

abbrev pub node_render : ℕ
node_render = 2

abbrev pub open_request_size : ℕ
open_request_size = 24

abbrev pub close_request_size : ℕ
close_request_size = 16

-- `kb2_gpu_session_open_t`
pub record SessionOpen : Type 0 where
  pub node_type : ℕ
  pub client_id : ℕ

unfoldable pub valid_open : SessionOpen → Bool
valid_open r = not (r.client_id == 0) && (r.node_type == node_render || r.node_type == node_primary)

-- The bytes of the request where it is written, and else the buffer as it was.
unfoldable pub open_encode : List ℕ → ℕ → Option SessionOpen → ProtocolStatus × List ℕ
unfolding valid_open write_u32 write_u64
open_encode buffer size none = (invalid_argument, buffer)
open_encode buffer size (some r) =
    if not (valid_open r)
    then (invalid_argument, buffer)
    else if not (size == open_request_size)
    then (malformed, buffer)
    else (ok, write_u64 (write_u32 (replicate open_request_size 0) 0 r.node_type) 8 r.client_id)

-- The request that is read, before it is judged.
unfoldable pub open_request : List ℕ → SessionOpen
unfolding read_u32 read_u64
open_request bytes = record { node_type = read_u32 bytes 0; client_id = read_u64 bytes 8 }

unfoldable pub open_decode : List ℕ → ProtocolStatus × Option SessionOpen
unfolding valid_open open_request read_u32 read_u64
open_decode bytes =
    if not (length bytes == open_request_size)
    then (malformed, none)
    else if not (valid_open (open_request bytes))
        || (not (read_u32 bytes 4 == 0) || not (read_u64 bytes 16 == 0))
    then (malformed, none)
    else (ok, some (open_request bytes))

unfoldable pub close_encode : List ℕ → ℕ → ℕ → ProtocolStatus × List ℕ
unfolding write_u32 write_u64
close_encode buffer size session_id =
    if session_id == 0
    then (invalid_argument, buffer)
    else if not (size == close_request_size)
    then (malformed, buffer)
    else (ok, write_u64 (replicate close_request_size 0) 0 session_id)

unfoldable pub close_decode : List ℕ → ProtocolStatus × Option ℕ
unfolding read_u32 read_u64
close_decode bytes =
    if not (length bytes == close_request_size)
    then (malformed, none)
    else if read_u64 bytes 0 == 0 || (not (read_u32 bytes 8 == 0) || not (read_u32 bytes 12 == 0))
    then (malformed, none)
    else (ok, some (read_u64 bytes 0))

-- ===== src/Protocol/Envelope.antt =====
-- The envelope of a message: `kb2_protocol_message_envelope_encode` and `_decode` of
-- protocol/src/protocol.c. The offsets, the size and the ABI are the generated ones. A NULL envelope is
-- `none`; the buffers are there, and their size is the length of their bytes.
pub mod RoundTrip
mod Examples
use kobox.Prelude.{
  ℕ, ◌+◌, Bool, true, false, List, [], ◌∷◌, ◌++◌, Option, none, some, ◌&&◌, ◌||◌, not, ltb, ◌==◌,
  bytes_eq, if◌then◌else◌, length, replicate, take, drop,
}
use kobox.Protocol.{
  ProtocolStatus, ok, invalid_argument, buffer_too_small, overflow, malformed, schema_mismatch,
  read_u32, read_u64, write_u32, write_u64,
}
use kobox.Protocol.Channel.{size_add_multiply}
use kobox.Protocol.GpuCompletion.{write_bytes}

-- `kb2_protocol_message_envelope_t`
pub record Envelope : Type 0 where
  pub protocol_id : ℕ
  pub opcode : ℕ
  pub flags : ℕ
  pub generation : ℕ
  pub correlation_id : ℕ
  pub payload_length : ℕ

abbrev pub envelope_size : ℕ
envelope_size = 40

-- KB2_PROTOCOL_ABI_IDENTITY_BYTES
abbrev pub protocol_abi : List ℕ
protocol_abi = 0x64 ∷ 0x65 ∷ 0x76 ∷ 0x00 ∷ []

unfoldable pub envelope_valid : Envelope → Bool
envelope_valid e = not (e.protocol_id == 0) && not (e.generation == 0)

-- The stores into the zeroes of the header.
unfoldable pub envelope_header : Envelope → List ℕ
unfolding write_u32 write_u64
envelope_header e =
    let b0 = write_u32 (replicate envelope_size 0) 0 e.protocol_id in
    let b1 = write_bytes b0 4 protocol_abi in
    let b2 = write_u32 (write_u32 b1 8 e.opcode) 12 e.flags in
    let b3 = write_u64 (write_u64 b2 16 e.generation) 24 e.correlation_id in
    write_u32 b3 32 e.payload_length

-- The total size, where it fits.
unfoldable pub fit_total : Bool × ℕ → List ℕ → Envelope → ProtocolStatus × List ℕ
unfolding envelope_header
fit_total (false, total) buffer e = (overflow, buffer)
fit_total (true, total) buffer e =
    if ltb (length buffer) total
    then (buffer_too_small, buffer)
    else (ok, envelope_header e ++ drop envelope_size buffer)

-- The buffer after the call.
unfoldable pub envelope_encode : List ℕ → Option Envelope → ProtocolStatus × List ℕ
unfolding envelope_valid fit_total size_add_multiply
envelope_encode buffer none = (invalid_argument, buffer)
envelope_encode buffer (some e) =
    if not (envelope_valid e)
    then (invalid_argument, buffer)
    else fit_total (size_add_multiply envelope_size e.payload_length 1) buffer e

unfoldable pub envelope_fields : List ℕ → Envelope
unfolding read_u32 read_u64
envelope_fields bytes = record {
  protocol_id = read_u32 bytes 0;
  opcode = read_u32 bytes 8;
  flags = read_u32 bytes 12;
  generation = read_u64 bytes 16;
  correlation_id = read_u64 bytes 24;
  payload_length = read_u32 bytes 32;
}

unfoldable pub judge_total : Bool × ℕ → ℕ → Envelope → ProtocolStatus × Option Envelope
judge_total (false, total) size e = (overflow, none)
judge_total (true, total) size e = if ltb size total then (buffer_too_small, none) else (ok, some e)

-- The tests of the envelope that was read.
unfoldable pub judge_envelope : ℕ → Envelope → ProtocolStatus × Option Envelope
unfolding envelope_valid judge_total size_add_multiply
judge_envelope size e =
    if not (envelope_valid e)
    then (malformed, none)
    else judge_total (size_add_multiply envelope_size e.payload_length 1) size e

unfoldable pub envelope_decode : List ℕ → ProtocolStatus × Option Envelope
unfolding envelope_fields judge_envelope read_u32
envelope_decode bytes =
    if ltb (length bytes) envelope_size
    then (buffer_too_small, none)
    else if not (bytes_eq (take 4 (drop 4 bytes)) protocol_abi)
    then (schema_mismatch, none)
    else if not (read_u32 bytes 36 == 0)
    then (malformed, none)
    else judge_envelope (length bytes) (envelope_fields bytes)

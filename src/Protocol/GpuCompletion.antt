-- ===== src/Protocol/GpuCompletion.antt =====
-- The completion of a GPU session's request: `kb2_gpu_session_completion_encode` and
-- `kb2_gpu_session_completion_decode` of protocol/src/gpu_session.c. The offsets, the sizes, the ABI
-- and the schema are the generated ones. The pointers are not NULL here.
pub mod RoundTrip
mod Examples
use kobox.Prelude.{
  ℕ, ◌+◌, Bool, List, [], ◌∷◌, Option, none, some, ◌&&◌, ◌||◌, not, ltb, ◌==◌, bytes_eq,
  if◌then◌else◌, length, replicate, set, take, drop,
}
use kobox.Protocol.{
  ProtocolStatus, ok, buffer_too_small, malformed, schema_mismatch, read_u32, read_u64, write_u32,
  write_u64,
}

-- KB2_GPU_ABI_IDENTITY_BYTES
abbrev pub abi : List ℕ
abi = 0x64 ∷ 0x65 ∷ 0x76 ∷ 0x00 ∷ []

-- KB2_GPU_SCHEMA_SHA256_BYTES
abbrev pub schema : List ℕ
schema =
    0xd4 ∷ 0x09 ∷ 0x3c ∷ 0x21 ∷ 0xf4 ∷ 0x7f ∷ 0xba ∷ 0xa7 ∷ 0x6b ∷ 0x0d ∷ 0x87 ∷ 0xe0 ∷ 0x19 ∷ 0x1e
    ∷ 0xd9 ∷ 0x9e ∷ 0x1a ∷ 0x85 ∷ 0x3e ∷ 0x64 ∷ 0x64 ∷ 0x6d ∷ 0x61 ∷ 0x72 ∷ 0x23 ∷ 0xe0 ∷ 0xf4
    ∷ 0x74 ∷ 0xa0 ∷ 0xc6 ∷ 0x40 ∷ 0x04 ∷ []

abbrev pub opcode_session_open : ℕ
opcode_session_open = 2

abbrev pub opcode_session_close : ℕ
opcode_session_close = 3

-- KB2_GPU_STATUS_DEVICE_LOST, the last status
abbrev pub last_status : ℕ
last_status = 15

abbrev pub disposition_completed : ℕ
disposition_completed = 1

abbrev pub header_size : ℕ
header_size = 104

abbrev pub open_response_size : ℕ
open_response_size = 32

-- `kb2_gpu_session_completion_t`
pub record Completion : Type 0 where
  pub opcode : ℕ
  pub status : ℕ
  pub session_id : ℕ
  pub topology_epoch : ℕ
  pub capabilities : ℕ

unfoldable pub valid_completion : Completion → Bool
valid_completion c =
    if ltb last_status c.status
    then Bool.false
    else if c.opcode == opcode_session_open
    then (if c.status == 0
        then not (c.session_id == 0) && not (c.topology_epoch == 0)
        else c.session_id == 0 && (c.topology_epoch == 0 && c.capabilities == 0))
    else c.opcode == opcode_session_close
      && (not (c.session_id == 0) && (c.topology_epoch == 0 && c.capabilities == 0))

-- Whether the completion carries the response of an opening.
abbrev pub opened : ℕ → ℕ → Bool
opened opcode status = opcode == opcode_session_open && status == 0

-- memcpy
abbrev pub write_bytes : List ℕ → ℕ → List ℕ → List ℕ
write_bytes bytes p [] = bytes
write_bytes bytes p (x ∷ xs) = write_bytes (set bytes p x) (p + 1) xs

-- The writes of the header into `size` zeroes.
unfoldable pub write_header : Completion → ℕ → ℕ → List ℕ
unfolding write_u32 write_u64
write_header c size payload =
    let b0 = write_u32 (replicate size 0) 0 size in
    let b1 = write_bytes (write_bytes b0 4 abi) 8 schema in
    let b2 = write_u32 (write_u64 b1 40 c.session_id) 48 c.status in
    let b3 = write_u32 (write_u32 b2 52 disposition_completed) 68 payload in
    let b4 = write_u32 (write_u32 b3 72 header_size) 76 header_size in
    write_u32 (write_u32 b4 80 header_size) 84 header_size

-- The writes of the response behind the header.
unfoldable pub write_response : Completion → List ℕ → List ℕ
unfolding write_u64
write_response c bytes =
    write_u64 (write_u64 (write_u64 bytes 104 c.session_id) 112 c.topology_epoch) 120 c.capabilities

unfoldable pub completion_bytes : Completion → Bool → List ℕ
unfolding write_header write_response
completion_bytes c Bool.true =
    write_response c (write_header c (header_size + open_response_size) open_response_size)
completion_bytes c Bool.false = write_header c header_size 0

-- The status and the bytes up to the size that is returned, where something is written.
unfoldable pub completion_encode : Completion → ℕ → ProtocolStatus × Option (List ℕ)
unfolding valid_completion completion_bytes
completion_encode c capacity =
    if not (valid_completion c)
    then (malformed, none)
    else if ltb capacity
        (header_size + (if opened c.opcode c.status then open_response_size else 0))
    then (buffer_too_small, none)
    else (ok, some (completion_bytes c (opened c.opcode c.status)))

-- The tests of the header, with the payload that the opcode and the status call for.
unfoldable pub header_malformed : List ℕ → ℕ → Bool
unfolding read_u32 read_u64
header_malformed bytes payload =
    not (length bytes == header_size + payload)
    || (not (read_u32 bytes 0 == length bytes)
        || (not (read_u32 bytes 52 == disposition_completed)
            || (not (read_u32 bytes 56 == 0)
                || (not (read_u32 bytes 60 == 0)
                    || (not (read_u32 bytes 64 == 0)
                        || (not (read_u32 bytes 68 == payload)
                            || (not (read_u32 bytes 72 == header_size)
                                || (not (read_u32 bytes 76 == header_size)
                                    || (not (read_u32 bytes 80 == header_size)
                                        || (not (read_u32 bytes 84 == header_size)
                                            || (not (read_u32 bytes 88 == 0)
                                                || (not (read_u32 bytes 92 == 0)
                                                    || not (read_u64 bytes 96 == 0)))))))))))))

-- The last test, and what is returned.
unfoldable pub judge : Completion → ProtocolStatus × Option Completion
unfolding valid_completion
judge c = if valid_completion c then (ok, some c) else (malformed, none)

-- What follows the identities, by whether a response is to be read.
unfoldable pub decode_fields : List ℕ → ℕ → Bool → ProtocolStatus × Option Completion
unfolding header_malformed judge read_u32 read_u64
decode_fields bytes opcode Bool.true =
    if header_malformed bytes open_response_size
    then (malformed, none)
    else if not (read_u64 bytes 104 == read_u64 bytes 40) || not (read_u64 bytes 128 == 0)
    then (malformed, none)
    else judge (record {
      opcode = opcode;
      status = read_u32 bytes 48;
      session_id = read_u64 bytes 40;
      topology_epoch = read_u64 bytes 112;
      capabilities = read_u64 bytes 120;
    })
decode_fields bytes opcode Bool.false =
    if header_malformed bytes 0
    then (malformed, none)
    else judge (record {
      opcode = opcode;
      status = read_u32 bytes 48;
      session_id = read_u64 bytes 40;
      topology_epoch = 0;
      capabilities = 0;
    })

unfoldable pub completion_decode : List ℕ → ℕ → ProtocolStatus × Option Completion
unfolding decode_fields read_u32
completion_decode bytes opcode =
    if ltb (length bytes) header_size
    then (buffer_too_small, none)
    else if not (bytes_eq (take 4 (drop 4 bytes)) abi)
        || not (bytes_eq (take 32 (drop 8 bytes)) schema)
    then (schema_mismatch, none)
    else decode_fields bytes opcode (opened opcode (read_u32 bytes 48))

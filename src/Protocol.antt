-- ===== src/Protocol.antt =====
-- The wire format that the files of protocol/src share: kb2_protocol_status_t of
-- protocol/include/kobox2/protocol.h, and little-endian words in a buffer of bytes.
pub mod Word
pub mod Channel
pub mod Envelope
pub mod BlockDevice
pub mod GpuSession
pub mod GpuCompletion
use kobox.Prelude.{ℕ, ◌+◌, ◌*◌, ◌/◌, ◌%◌, ◌^◌, List, get_or, set}

-- `kb2_protocol_status_t`
pub data ProtocolStatus : Type 0 where
  ok : ProtocolStatus
  invalid_argument : ProtocolStatus
  buffer_too_small : ProtocolStatus
  overflow : ProtocolStatus
  malformed : ProtocolStatus
  schema_mismatch : ProtocolStatus

-- The shifted bytes have no bits in common, so that `|` adds them.
unfoldable pub read_u32 : List ℕ → ℕ → ℕ
read_u32 bytes p =
    get_or bytes p 0
    + get_or bytes (p + 1) 0 * 2 ^ 8
    + get_or bytes (p + 2) 0 * 2 ^ 16
    + get_or bytes (p + 3) 0 * 2 ^ 24

unfoldable pub read_u64 : List ℕ → ℕ → ℕ
unfolding read_u32
read_u64 bytes p = read_u32 bytes p + read_u32 bytes (p + 4) * 2 ^ 32

-- The four turns of the loop; the cast keeps a byte.
unfoldable pub write_u32 : List ℕ → ℕ → ℕ → List ℕ
write_u32 bytes p value =
    let b0 = set bytes p (value % 2 ^ 8) in
    let b1 = set b0 (p + 1) (value / 2 ^ 8 % 2 ^ 8) in
    let b2 = set b1 (p + 2) (value / 2 ^ 16 % 2 ^ 8) in set b2 (p + 3) (value / 2 ^ 24 % 2 ^ 8)

unfoldable pub write_u64 : List ℕ → ℕ → ℕ → List ℕ
unfolding write_u32
write_u64 bytes p value =
    write_u32 (write_u32 bytes p (value % 2 ^ 32)) (p + 4) (value / 2 ^ 32 % 2 ^ 32)

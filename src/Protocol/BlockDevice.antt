-- ===== src/Protocol/BlockDevice.antt =====
-- The codec of the block device, protocol/src/block_device.c. The offsets, the sizes and the bounds are
-- the generated ones. A value that the call refuses with -1 gives `none`, and then nothing is written; a
-- NULL value is `none`. The buffers are there, and their size is the length of their bytes.
pub mod RoundTrip
mod Examples
use kobox.Prelude.{
  ℕ, ◌+◌, Bool, true, false, List, [], ◌∷◌, ◌++◌, Option, none, some, ◌&&◌, ◌||◌, not, ltb, leb,
  ◌==◌, bytes_eq, if◌then◌else◌, length, replicate, take, drop,
}
use kobox.Protocol.{read_u32, read_u64, write_u32, write_u64}
use kobox.Protocol.Envelope.{protocol_abi}
use kobox.Protocol.GpuCompletion.{write_bytes}

-- `kb2_block_header_t`
pub record Header : Type 0 where
  pub opcode : ℕ
  pub status : ℕ
  pub count : ℕ
  pub generation : ℕ
  pub sequence : ℕ
  pub diskseq : ℕ
  pub offset : ℕ
  pub major : ℕ
  pub minor : ℕ
  pub length : ℕ

-- `kb2_block_disk_t`; the name is its 32 bytes.
pub record Disk : Type 0 where
  pub diskseq : ℕ
  pub bytes : ℕ
  pub major : ℕ
  pub minor : ℕ
  pub logical_block_size : ℕ
  pub physical_block_size : ℕ
  pub removable : ℕ
  pub read_only : ℕ
  pub name : List ℕ

abbrev pub header_size : ℕ
header_size = 64

abbrev pub disk_size : ℕ
disk_size = 72

abbrev pub name_offset : ℕ
name_offset = 40

abbrev pub name_size : ℕ
name_size = 32

unfoldable pub valid_opcode : ℕ → Bool
valid_opcode opcode = leb 1 opcode && leb opcode 4

-- One of the bytes is 0.
unfoldable pub name_terminated : List ℕ → Bool
name_terminated [] = false
name_terminated (x ∷ xs) = x == 0 || name_terminated xs

unfoldable pub header_valid : Header → Bool
unfolding valid_opcode
header_valid h =
    valid_opcode h.opcode
    && leb h.status 7
    && leb h.count 32
    && leb h.length 131072
    && not (h.generation == 0)
    && not (h.sequence == 0)

-- The stores into the zeroes of the header.
unfoldable pub header_bytes : Header → List ℕ
unfolding write_u32 write_u64
header_bytes h =
    let b0 = write_bytes (replicate header_size 0) 0 protocol_abi in
    let b1 = write_u32 (write_u32 (write_u32 b0 4 h.opcode) 8 h.status) 12 h.count in
    let b2 = write_u64 (write_u64 b1 16 h.generation) 24 h.sequence in
    let b3 = write_u64 (write_u64 b2 32 h.diskseq) 40 h.offset in
    write_u32 (write_u32 (write_u32 b3 48 h.major) 52 h.minor) 56 h.length

-- The buffer after the call.
unfoldable pub header_encode : List ℕ → Option Header → Option (List ℕ)
unfolding header_valid header_bytes
header_encode buffer none = none
header_encode buffer (some h) =
    if not (ltb (length buffer) header_size) && header_valid h
    then some (header_bytes h ++ drop header_size buffer)
    else none

unfoldable pub header_fields : List ℕ → Header
unfolding read_u32 read_u64
header_fields bytes = record {
  opcode = read_u32 bytes 4;
  status = read_u32 bytes 8;
  count = read_u32 bytes 12;
  generation = read_u64 bytes 16;
  sequence = read_u64 bytes 24;
  diskseq = read_u64 bytes 32;
  offset = read_u64 bytes 40;
  major = read_u32 bytes 48;
  minor = read_u32 bytes 52;
  length = read_u32 bytes 56;
}

unfoldable pub judge_header : Header → Option Header
unfolding header_valid
judge_header h = if header_valid h then some h else none

unfoldable pub header_decode : List ℕ → Option Header
unfolding header_fields judge_header read_u32
header_decode bytes =
    if not (ltb (length bytes) header_size)
      && bytes_eq (take 4 bytes) protocol_abi
      && read_u32 bytes 60 == 0
    then judge_header (header_fields bytes)
    else none

-- The tests of the numbers of a disk.
unfoldable pub disk_valid : Disk → Bool
disk_valid d =
    not (d.diskseq == 0)
    && not (d.bytes == 0)
    && not (d.logical_block_size == 0)
    && not (d.physical_block_size == 0)
    && leb d.removable 1
    && leb d.read_only 1

-- The numbers, in front of the name.
unfoldable pub disk_numbers : Disk → List ℕ
unfolding write_u32 write_u64
disk_numbers d =
    let b0 = write_u64 (write_u64 (replicate disk_size 0) 0 d.diskseq) 8 d.bytes in
    let b1 = write_u32 (write_u32 b0 16 d.major) 20 d.minor in
    let b2 = write_u32 (write_u32 b1 24 d.logical_block_size) 28 d.physical_block_size in
    write_u32 (write_u32 b2 32 d.removable) 36 d.read_only

-- The copy of the name is the last store.
unfoldable pub disk_bytes : Disk → List ℕ
unfolding disk_numbers
disk_bytes d = write_bytes (disk_numbers d) name_offset d.name

unfoldable pub disk_encode : List ℕ → Option Disk → Option (List ℕ)
unfolding disk_valid disk_bytes name_terminated
disk_encode buffer none = none
disk_encode buffer (some d) =
    if not (ltb (length buffer) disk_size) && disk_valid d && name_terminated d.name
    then some (disk_bytes d ++ drop disk_size buffer)
    else none

unfoldable pub disk_fields : List ℕ → Disk
unfolding read_u32 read_u64
disk_fields bytes = record {
  diskseq = read_u64 bytes 0;
  bytes = read_u64 bytes 8;
  major = read_u32 bytes 16;
  minor = read_u32 bytes 20;
  logical_block_size = read_u32 bytes 24;
  physical_block_size = read_u32 bytes 28;
  removable = read_u32 bytes 32;
  read_only = read_u32 bytes 36;
  name = take name_size (drop name_offset bytes);
}

unfoldable pub judge_disk : Disk → Option Disk
unfolding disk_valid
judge_disk d = if disk_valid d then some d else none

unfoldable pub disk_decode : List ℕ → Option Disk
unfolding disk_fields judge_disk name_terminated
disk_decode bytes =
    if not (ltb (length bytes) disk_size)
      && name_terminated (take name_size (drop name_offset bytes))
    then judge_disk (disk_fields bytes)
    else none

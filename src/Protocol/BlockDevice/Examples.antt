-- ===== src/Protocol/BlockDevice/Examples.antt =====
-- The block device codec of protocol/src/block_device.c on concrete values, and the theorems there.
use kobox.Prelude.{ℕ, ◌≡◌, refl, arith, List, [], ◌∷◌, ◌++◌, none, some, replicate, drop}
use kobox.Protocol.BlockDevice.{
  Header, Disk, header_size, disk_size, header_encode, header_decode, disk_encode, disk_decode,
}
use kobox.Protocol.BlockDevice.RoundTrip.{header_decode-header_encode, disk_decode-disk_encode}

-- A read of 16 blocks of the second disk.
abbrev header : Header
header = record {
  opcode = 2;
  status = 0;
  count = 0;
  generation = 7;
  sequence = 0x100000001;
  diskseq = 2;
  offset = 4096;
  major = 259;
  minor = 1;
  length = 8192;
}

abbrev disk : Disk
disk = record {
  diskseq = 2;
  bytes = 0x4000000000;
  major = 259;
  minor = 1;
  logical_block_size = 512;
  physical_block_size = 4096;
  removable = 0;
  read_only = 1;
  name = 0x76 ∷ 0x64 ∷ 0x61 ∷ replicate 29 0;
}

-- Room for a disk, with 2 bytes to spare.
abbrev buffer : List ℕ
buffer = replicate 74 0xff

abbrev header_message : List ℕ
header_message =
    0x64 ∷ 0x65 ∷ 0x76 ∷ 0 ∷ 2 ∷ 0 ∷ 0 ∷ 0 ∷ replicate 8 0
    ++ 7 ∷ 0 ∷ 0 ∷ 0 ∷ 0 ∷ 0 ∷ 0 ∷ 0 ∷ 1 ∷ 0 ∷ 0 ∷ 0 ∷ 1 ∷ 0 ∷ 0 ∷ 0 ∷ 2 ∷ replicate 7 0
    ++ 0 ∷ 16 ∷ replicate 6 0
    ++ 3 ∷ 1 ∷ 0 ∷ 0 ∷ 1 ∷ 0 ∷ 0 ∷ 0 ∷ 0 ∷ 32 ∷ 0 ∷ 0 ∷ replicate 4 0
    ++ replicate 10 0xff

abbrev disk_message : List ℕ
disk_message =
    2 ∷ replicate 7 0
    ++ 0
      ∷ 0
      ∷ 0
      ∷ 0
      ∷ 64
      ∷ 0
      ∷ 0
      ∷ 0
      ∷ 3
      ∷ 1
      ∷ 0
      ∷ 0
      ∷ 1
      ∷ 0
      ∷ 0
      ∷ 0
      ∷ 0
      ∷ 2
      ∷ 0
      ∷ 0
      ∷ 0
      ∷ 16
      ∷ 0
      ∷ 0
      ∷ 0
      ∷ 0
      ∷ 0
      ∷ 0
      ∷ 1
      ∷ 0
      ∷ 0
      ∷ 0
      ∷ 0x76
      ∷ 0x64
      ∷ 0x61
      ∷ replicate 29 0
    ++ 0xff ∷ 0xff ∷ []

short_buffer : header_encode (replicate 63 0) (some header) ≡ none
unfolding header_encode
short_buffer = refl

foreign_bytes : header_decode buffer ≡ none
unfolding header_decode
foreign_bytes = refl

endless_name : disk_decode buffer ≡ none
unfolding disk_decode
endless_name = refl

header_decode-header_encode_example :
    (header_decode header_message ≡ some header)
    × (drop header_size header_message ≡ drop header_size buffer)
unfolding header_encode
header_decode-header_encode_example =
    header_decode-header_encode buffer header_message header
      (record {
        opcode = omega arith;
        status = omega arith;
        count = omega arith;
        generation = omega arith;
        sequence = omega arith;
        diskseq = omega arith;
        offset = omega arith;
        major = omega arith;
        minor = omega arith;
        length = omega arith;
      })
      refl

disk_decode-disk_encode_example :
    (disk_decode disk_message ≡ some disk) × (drop disk_size disk_message ≡ drop disk_size buffer)
unfolding disk_encode
disk_decode-disk_encode_example =
    disk_decode-disk_encode buffer disk_message disk
      (record {
        diskseq = omega arith;
        bytes = omega arith;
        major = omega arith;
        minor = omega arith;
        logical_block_size = omega arith;
        physical_block_size = omega arith;
        removable = omega arith;
        read_only = omega arith;
        name = refl;
      })
      refl

-- ===== src/Protocol/BlockDevice/RoundTrip.antt =====
-- Decoding what was encoded, for the headers and the disks of protocol/src/block_device.c.
use kobox.Prelude.{
  ℕ, ◌+◌, ◌<◌, ◌≡◌, ◌^◌, suc, length-append, take-append, drop-append, refl, ap, sym, ◌∙◌, Bool,
  true, false, List, [], ◌∷◌, ◌++◌, Option, none, some, some-injective, ◌&&◌, not, ltb, ◌==◌,
  bytes_eq, if◌then◌else◌, length, take, drop, arith, set,
}
use kobox.Protocol.{read_u32, read_u64, write_u32, write_u64}
use kobox.Protocol.Word.{word32, word64}
use kobox.Protocol.Envelope.{protocol_abi}
use kobox.Protocol.GpuCompletion.{write_bytes}
use kobox.Protocol.BlockDevice.{
  Header, Disk, header_size, disk_size, name_offset, name_size, name_terminated, header_valid,
  header_bytes, header_encode, header_fields, judge_header, header_decode, disk_valid, disk_numbers,
  disk_bytes, disk_encode, disk_fields, judge_disk, disk_decode,
}

-- The fields of a header fit their types.
pub record HeaderIsWide (h : Header) : Type 0 where
  pub opcode : h.opcode < 2 ^ 32
  pub status : h.status < 2 ^ 32
  pub count : h.count < 2 ^ 32
  pub generation : h.generation < 2 ^ 64
  pub sequence : h.sequence < 2 ^ 64
  pub diskseq : h.diskseq < 2 ^ 64
  pub offset : h.offset < 2 ^ 64
  pub major : h.major < 2 ^ 32
  pub minor : h.minor < 2 ^ 32
  pub length : h.length < 2 ^ 32

-- The fields of a disk fit their types.
pub record DiskIsWide (d : Disk) : Type 0 where
  pub diskseq : d.diskseq < 2 ^ 64
  pub bytes : d.bytes < 2 ^ 64
  pub major : d.major < 2 ^ 32
  pub minor : d.minor < 2 ^ 32
  pub logical_block_size : d.logical_block_size < 2 ^ 32
  pub physical_block_size : d.physical_block_size < 2 ^ 32
  pub removable : d.removable < 2 ^ 32
  pub read_only : d.read_only < 2 ^ 32
  pub name : length d.name ≡ name_size

-- What was chosen, where there is a result.
chosen :
    {A : Type 0} (t : Bool) {x : Option A} {y : A}
    → (if t then x else none) ≡ some y
    → (t ≡ true) × (x ≡ some y)
chosen true e = (refl, e)
chosen false e = cc

both : (s t : Bool) → s && t ≡ true → (s ≡ true) × (t ≡ true)
both true t e = (refl, e)
both false t e = cc

header_back :
    (h : Header) (rest : List ℕ) → HeaderIsWide h → header_fields (header_bytes h ++ rest) ≡ h
unfolding header_fields header_bytes read_u32 read_u64 write_u32 write_u64
header_back h rest w = λ i. record {
  opcode = word32 h.opcode w.opcode i;
  status = word32 h.status w.status i;
  count = word32 h.count w.count i;
  generation = word64 h.generation w.generation i;
  sequence = word64 h.sequence w.sequence i;
  diskseq = word64 h.diskseq w.diskseq i;
  offset = word64 h.offset w.offset i;
  major = word32 h.major w.major i;
  minor = word32 h.minor w.minor i;
  length = word32 h.length w.length i;
}

-- Size, identity and reserved word of what was written.
header_marks :
    (h : Header) (rest : List ℕ)
    → (length (header_bytes h ++ rest) ≡ header_size + length rest)
      × (bytes_eq (take 4 (header_bytes h ++ rest)) protocol_abi ≡ true)
      × (read_u32 (header_bytes h ++ rest) 60 ≡ 0)
unfolding header_bytes read_u32 write_u32 write_u64
header_marks h rest = (omega arith, refl, refl)

long_enough : {m : ℕ} (n k : ℕ) → m ≡ n + k → not (ltb m n) ≡ true
long_enough n k e = ground (arith, e)

-- A test that passes.
passed : {A : Type 0} {t : Bool} {x : Option A} → t ≡ true → (if t then x else none) ≡ x
passed e = rw e refl

and_true : {s t : Bool} → s ≡ true → t ≡ true → s && t ≡ true
and_true e g = rw (e, g) refl

header_decode-bytes :
    (h : Header) (rest : List ℕ)
    → HeaderIsWide h
    → header_valid h ≡ true
    → header_decode (header_bytes h ++ rest) ≡ some h
unfolding header_decode judge_header
header_decode-bytes h rest w v =
    let (size, abi, reserved) = header_marks h rest in
    passed
      (and_true (and_true (long_enough header_size (length rest) size) abi) (zero_word reserved))
    ∙ ap judge_header (header_back h rest w)
    ∙ passed v
  where
    zero_word : {n : ℕ} → n ≡ 0 → n == 0 ≡ true
    zero_word e = ground (arith, e)

header-drop : (h : Header) (rest : List ℕ) → drop header_size (header_bytes h ++ rest) ≡ rest
unfolding header_bytes write_u32 write_u64
header-drop h rest = refl

-- What encoding a header of the block device accepts, decoding returns, where the fields fit their
-- types: the buffer may be longer than the header, and what lies behind it is kept.
pub header_decode-header_encode :
    (buffer bytes : List ℕ) (h : Header)
    → HeaderIsWide h
    → header_encode buffer (some h) ≡ some bytes
    → (header_decode bytes ≡ some h) × (drop header_size bytes ≡ drop header_size buffer)
unfolding header_encode
header_decode-header_encode buffer bytes h w e =
    let (t, same) = chosen (not (ltb (length buffer) header_size) && header_valid h) e in
    let (room, v) = both (not (ltb (length buffer) header_size)) (header_valid h) t in
    let rest = drop header_size buffer in
    let written = sym (some-injective _ _ same) in
    (
      ap header_decode written ∙ header_decode-bytes h rest w v,
      ap (drop header_size) written ∙ header-drop h rest,
    )

-- A store behind the first byte leaves that byte.
write_bytes-suc :
    (x : ℕ) (bytes : List ℕ) (p : ℕ) (xs : List ℕ)
    → write_bytes (x ∷ bytes) (suc p) xs ≡ x ∷ write_bytes bytes p xs
write_bytes-suc x bytes p [] = refl
write_bytes-suc x bytes p (y ∷ ys) =
    ap (λ q. write_bytes (x ∷ set bytes p y) q ys) (next p)
    ∙ write_bytes-suc x (set bytes p y) (p + 1) ys
  where
    next : (p : ℕ) → suc p + 1 ≡ suc (p + 1)
    next p = omega arith

write_bytes-behind :
    (front bytes xs : List ℕ)
    → write_bytes (front ++ bytes) (length front) xs ≡ front ++ write_bytes bytes 0 xs
write_bytes-behind [] bytes xs = refl
write_bytes-behind (x ∷ front) bytes xs =
    write_bytes-suc x (front ++ bytes) (length front) xs
    ∙ ap (λ r. x ∷ r) (write_bytes-behind front bytes xs)

write_bytes-all : (bytes xs : List ℕ) → length bytes ≡ length xs → write_bytes bytes 0 xs ≡ xs
write_bytes-all [] [] e = refl
write_bytes-all [] (x ∷ xs) e = absurd (omega (arith, e))
write_bytes-all (y ∷ bytes) [] e = absurd (omega (arith, e))
write_bytes-all (y ∷ bytes) (x ∷ xs) e =
    write_bytes-suc x bytes 0 xs ∙ ap (λ r. x ∷ r) (write_bytes-all bytes xs (omega (arith, e)))

-- The cells in front of the name, then the name.
disk_cells : Disk → List ℕ
disk_cells d = take name_offset (disk_numbers d) ++ d.name

disk_bytes-cells : (d : Disk) → length d.name ≡ name_size → disk_bytes d ≡ disk_cells d
unfolding disk_bytes disk_numbers write_u32 write_u64 disk_cells
disk_bytes-cells d l =
    let behind = drop name_offset (disk_numbers d) in
    write_bytes-behind (take name_offset (disk_numbers d)) behind d.name
    ∙ ap (λ r. take name_offset (disk_numbers d) ++ r)
        (write_bytes-all behind d.name (omega (arith, l)))

disk_back : (d : Disk) (rest : List ℕ) → DiskIsWide d → disk_fields (disk_cells d ++ rest) ≡ d
unfolding disk_fields disk_cells disk_numbers read_u32 read_u64 write_u32 write_u64
disk_back d rest w = λ i. record {
  diskseq = word64 d.diskseq w.diskseq i;
  bytes = word64 d.bytes w.bytes i;
  major = word32 d.major w.major i;
  minor = word32 d.minor w.minor i;
  logical_block_size = word32 d.logical_block_size w.logical_block_size i;
  physical_block_size = word32 d.physical_block_size w.physical_block_size i;
  removable = word32 d.removable w.removable i;
  read_only = word32 d.read_only w.read_only i;
  name = take-append name_size d.name rest w.name i;
}

disk_marks :
    (d : Disk) (rest : List ℕ)
    → length d.name ≡ name_size
    → (length (disk_cells d ++ rest) ≡ disk_size + length rest)
      × (take name_size (drop name_offset (disk_cells d ++ rest)) ≡ d.name)
      × (drop disk_size (disk_cells d ++ rest) ≡ rest)
unfolding disk_cells disk_numbers write_u32 write_u64
disk_marks d rest l = (
  omega (arith, l, length-append d.name rest),
  take-append name_size d.name rest l,
  drop-append name_size d.name rest l,
)

disk_decode-cells :
    (d : Disk) (rest : List ℕ)
    → DiskIsWide d
    → disk_valid d ≡ true
    → name_terminated d.name ≡ true
    → disk_decode (disk_cells d ++ rest) ≡ some d
unfolding disk_decode judge_disk
disk_decode-cells d rest w v t =
    let (size, name, behind) = disk_marks d rest w.name in
    passed (and_true (long_enough disk_size (length rest) size) (ap name_terminated name ∙ t))
    ∙ ap judge_disk (disk_back d rest w)
    ∙ passed v

-- What encoding a disk of the block device accepts, decoding returns, where the fields fit their
-- types and the name has 32 bytes: the buffer may be longer than the disk, and what lies behind it is
-- kept.
pub disk_decode-disk_encode :
    (buffer bytes : List ℕ) (d : Disk)
    → DiskIsWide d
    → disk_encode buffer (some d) ≡ some bytes
    → (disk_decode bytes ≡ some d) × (drop disk_size bytes ≡ drop disk_size buffer)
unfolding disk_encode
disk_decode-disk_encode buffer bytes d w e =
    let rest = drop disk_size buffer in
    let (t, same) =
      chosen (not (ltb (length buffer) disk_size) && disk_valid d && name_terminated d.name) e in
    let (tests, ended) =
      both (not (ltb (length buffer) disk_size) && disk_valid d) (name_terminated d.name) t in
    let (room, valid) = both (not (ltb (length buffer) disk_size)) (disk_valid d) tests in
    let written = sym (some-injective _ _ same) ∙ ap (λ b. b ++ rest) (disk_bytes-cells d w.name) in
    let (size, name, behind) = disk_marks d rest w.name in
    (
      ap disk_decode written ∙ disk_decode-cells d rest w valid ended,
      ap (drop disk_size) written ∙ behind,
    )

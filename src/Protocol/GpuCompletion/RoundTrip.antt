-- ===== src/Protocol/GpuCompletion/RoundTrip.antt =====
-- Decoding what was encoded, for the completions of protocol/src/gpu_session.c.
use kobox.Prelude.{
  ℕ, ◌<◌, length, take, drop, bytes_eq, ltb, ==_refl, ◌^◌, ◌≡◌, refl, Bool, true, false, List, some,
  arith, ap, sym, ◌∙◌,
}
use kobox.Protocol.{ok, read_u32, read_u64, write_u32, write_u64}
use kobox.Protocol.Word.{word32, word64}
use kobox.Protocol.GpuCompletion.{
  abi, schema, header_size, Completion, valid_completion, opened, write_header, write_response,
  completion_bytes, completion_encode, header_malformed, judge, decode_fields, completion_decode,
}

-- The fields fit their types.
pub record IsWide (c : Completion) : Type 0 where
  pub status : c.status < 2 ^ 32
  pub session_id : c.session_id < 2 ^ 64
  pub topology_epoch : c.topology_epoch < 2 ^ 64
  pub capabilities : c.capabilities < 2 ^ 64

opened_fields :
    (c : Completion)
    → IsWide c
    → let b = completion_bytes c true in
      (read_u32 b 48 ≡ c.status)
      × (read_u64 b 40 ≡ c.session_id)
      × (read_u64 b 112 ≡ c.topology_epoch)
      × (read_u64 b 120 ≡ c.capabilities)
      × (read_u64 b 104 ≡ c.session_id)
      × (read_u64 b 128 ≡ 0)
      × (header_malformed b 32 ≡ false)
unfolding completion_bytes write_header write_response write_u32 write_u64 read_u32 read_u64
    header_malformed
opened_fields c w = (
  word32 c.status w.status,
  word64 c.session_id w.session_id,
  word64 c.topology_epoch w.topology_epoch,
  word64 c.capabilities w.capabilities,
  word64 c.session_id w.session_id,
  refl,
  refl,
)

plain_fields :
    (c : Completion)
    → IsWide c
    → let b = completion_bytes c false in
      (read_u32 b 48 ≡ c.status) × (read_u64 b 40 ≡ c.session_id) × (header_malformed b 0 ≡ false)
unfolding completion_bytes write_header write_u32 write_u64 read_u32 read_u64 header_malformed
plain_fields c w = (word32 c.status w.status, word64 c.session_id w.session_id, refl)

identities :
    (c : Completion) (b : Bool)
    → let bytes = completion_bytes c b in
      (ltb (length bytes) header_size ≡ false)
      × (bytes_eq (take 4 (drop 4 bytes)) abi ≡ true)
      × (bytes_eq (take 32 (drop 8 bytes)) schema ≡ true)
unfolding completion_bytes write_header write_response write_u32 write_u64
identities c true = (refl, refl, refl)
identities c false = (refl, refl, refl)

status_field :
    (c : Completion) (b : Bool) → IsWide c → read_u32 (completion_bytes c b) 48 ≡ c.status
status_field c true w = (opened_fields c w).0
status_field c false w = (plain_fields c w).0

-- Without a response there is no epoch and there are no capabilities.
plain_zeroes :
    (c : Completion)
    → valid_completion c ≡ true
    → opened c.opcode c.status ≡ false
    → (c.topology_epoch ≡ 0) × (c.capabilities ≡ 0)
unfolding valid_completion
plain_zeroes c v e = (ground arith, ground arith)

judge_valid : (c : Completion) → valid_completion c ≡ true → judge c ≡ (ok, some c)
unfolding judge
judge_valid c v = rw v refl

decode_fields-completion_bytes :
    (c : Completion) (b : Bool)
    → IsWide c
    → valid_completion c ≡ true
    → opened c.opcode c.status ≡ b
    → decode_fields (completion_bytes c b) c.opcode b ≡ (ok, some c)
unfolding decode_fields judge
decode_fields-completion_bytes c true w v e =
    let (status, session, epoch, capabilities, again, reserved, header) = opened_fields c w in
    rw (header, again, session, reserved, status, epoch, capabilities, ==_refl c.session_id, v) refl
decode_fields-completion_bytes c false w v e =
    let (status, session, header) = plain_fields c w in
    let (epoch, capabilities) = plain_zeroes c v e in
    let first : c.capabilities ≡ 0 → record c { topology_epoch = 0; capabilities = 0 } ≡ c = λ z.
      ap (λ t. record c { topology_epoch = t; capabilities = 0 }) (sym epoch)
      ∙ ap (λ k. record c { capabilities = k }) (sym z) in
    rw (header, status, session) (ap judge (first capabilities) ∙ judge_valid c v)

completion_decode-completion_bytes :
    (c : Completion) (b : Bool)
    → IsWide c
    → valid_completion c ≡ true
    → opened c.opcode c.status ≡ b
    → completion_decode (completion_bytes c b) c.opcode ≡ (ok, some c)
unfolding completion_decode
completion_decode-completion_bytes c b w v e =
    let (long, has_abi, has_schema) = identities c b in
    rw (long, has_abi, has_schema, status_field c b w, e) (decode_fields-completion_bytes c b w v e)

completion_encode-ok :
    (c : Completion) (capacity : ℕ) (bytes : List ℕ)
    → completion_encode c capacity ≡ (ok, some bytes)
    → (valid_completion c ≡ true) × (completion_bytes c (opened c.opcode c.status) ≡ bytes)
unfolding completion_encode
completion_encode-ok c capacity bytes e = (ground arith, ground arith)

-- What encoding a completion accepts, decoding for its opcode returns, where the fields fit their
-- types.
pub completion_decode-completion_encode :
    (c : Completion) (capacity : ℕ) (bytes : List ℕ)
    → IsWide c
    → completion_encode c capacity ≡ (ok, some bytes)
    → completion_decode bytes c.opcode ≡ (ok, some c)
completion_decode-completion_encode c capacity bytes w e =
    let (valid, same) = completion_encode-ok c capacity bytes e in
    ap (λ b. completion_decode b c.opcode) (sym same)
    ∙ completion_decode-completion_bytes c (opened c.opcode c.status) w valid refl

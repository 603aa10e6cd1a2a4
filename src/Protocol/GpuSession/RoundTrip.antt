-- ===== src/Protocol/GpuSession/RoundTrip.antt =====
-- Decoding what was encoded, for the session requests of protocol/src/gpu_session.c.
use kobox.Prelude.{
  ℕ, ◌<◌, ◌^◌, ◌≡◌, ◌≢◌, ne→==, ◌||◌, if◌then◌else◌, refl, true, false, List, Option, none, some,
  not, ◌==◌, replicate, arith, ap, sym, ◌∙◌,
}
use kobox.Protocol.{ProtocolStatus, ok, malformed, read_u32, read_u64, write_u32, write_u64}
use kobox.Protocol.Word.{word32, word64}
use kobox.Protocol.GpuSession.{
  SessionOpen, open_request_size, close_request_size, valid_open, open_encode, open_request,
  open_decode, close_encode, close_decode,
}

-- The bytes of a request that is written.
abbrev open_bytes : SessionOpen → List ℕ
unfolding write_u32 write_u64
open_bytes r = write_u64 (write_u32 (replicate open_request_size 0) 0 r.node_type) 8 r.client_id

abbrev close_bytes : ℕ → List ℕ
close_bytes session_id = write_u64 (replicate close_request_size 0) 0 session_id

open_bytes_fields :
    (r : SessionOpen)
    → r.node_type < 2 ^ 32
    → r.client_id < 2 ^ 64
    → (read_u32 (open_bytes r) 0 ≡ r.node_type)
      × (read_u64 (open_bytes r) 8 ≡ r.client_id)
      × (read_u32 (open_bytes r) 4 ≡ 0)
      × (read_u64 (open_bytes r) 16 ≡ 0)
unfolding read_u32 read_u64 write_u32 write_u64
open_bytes_fields r n c = (word32 r.node_type n, word64 r.client_id c, refl, refl)

open_encode-ok :
    (buffer bytes : List ℕ) (size : ℕ) (r : SessionOpen)
    → open_encode buffer size (some r) ≡ (ok, bytes)
    → (valid_open r ≡ true) × (open_bytes r ≡ bytes)
unfolding open_encode
open_encode-ok buffer bytes size r e = (ground arith, ground arith)

open_decode-bytes :
    (r : SessionOpen)
    → r.node_type < 2 ^ 32
    → r.client_id < 2 ^ 64
    → valid_open r ≡ true
    → open_decode (open_bytes r) ≡ (ok, some r)
unfolding open_decode open_request write_u32 write_u64
open_decode-bytes r n c v =
    let (node, client, flags, reserved) = open_bytes_fields r n c in
    let first : ℕ → SessionOpen =
      λ m. record { node_type = m; client_id = read_u64 (open_bytes r) 8 } in
    let second : ℕ → SessionOpen = λ m. record { node_type = r.node_type; client_id = m } in
    let same : open_request (open_bytes r) ≡ r = ap first node ∙ ap second client in
    let judge : SessionOpen → ProtocolStatus × Option SessionOpen =
      λ q. if not (valid_open q) || false then (malformed, none) else (ok, some q) in
    let passes : judge r ≡ (ok, some r) = rw v refl in ap judge same ∙ passes

-- What encoding a session's opening accepts, decoding returns, where the fields fit their types.
pub open_decode-open_encode :
    (buffer bytes : List ℕ) (size : ℕ) (r : SessionOpen)
    → r.node_type < 2 ^ 32
    → r.client_id < 2 ^ 64
    → open_encode buffer size (some r) ≡ (ok, bytes)
    → open_decode bytes ≡ (ok, some r)
open_decode-open_encode buffer bytes size r n c e =
    let (valid, same) = open_encode-ok buffer bytes size r e in
    ap open_decode (sym same) ∙ open_decode-bytes r n c valid

close_bytes_fields :
    (session_id : ℕ)
    → session_id < 2 ^ 64
    → (read_u64 (close_bytes session_id) 0 ≡ session_id)
      × (read_u32 (close_bytes session_id) 8 ≡ 0)
      × (read_u32 (close_bytes session_id) 12 ≡ 0)
unfolding read_u32 read_u64 write_u32 write_u64
close_bytes_fields s c = (word64 s c, refl, refl)

close_encode-ok :
    (buffer bytes : List ℕ) (size session_id : ℕ)
    → close_encode buffer size session_id ≡ (ok, bytes)
    → (session_id ≢ 0) × (close_bytes session_id ≡ bytes)
unfolding close_encode
close_encode-ok buffer bytes size s e = (ground arith, ground arith)

close_decode-bytes :
    (session_id : ℕ)
    → session_id < 2 ^ 64
    → session_id ≢ 0
    → close_decode (close_bytes session_id) ≡ (ok, some session_id)
unfolding close_decode write_u32 write_u64
close_decode-bytes s c nonzero =
    let (read, flags, reserved) = close_bytes_fields s c in
    let judge : ℕ → ProtocolStatus × Option ℕ =
      λ q. if q == 0 || false then (malformed, none) else (ok, some q) in
    let passes : judge s ≡ (ok, some s) = rw (ne→== s 0 nonzero) refl in ap judge read ∙ passes

-- What encoding a session's closing accepts, decoding returns, where the identifier fits its type.
pub close_decode-close_encode :
    (buffer bytes : List ℕ) (size session_id : ℕ)
    → session_id < 2 ^ 64
    → close_encode buffer size session_id ≡ (ok, bytes)
    → close_decode bytes ≡ (ok, some session_id)
close_decode-close_encode buffer bytes size s c e =
    let (nonzero, same) = close_encode-ok buffer bytes size s e in
    ap close_decode (sym same) ∙ close_decode-bytes s c nonzero

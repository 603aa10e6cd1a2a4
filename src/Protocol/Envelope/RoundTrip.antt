-- ===== src/Protocol/Envelope/RoundTrip.antt =====
-- Decoding what was encoded, for the envelopes of protocol/src/protocol.c.
use kobox.Prelude.{
  ℕ, ◌+◌, ◌-◌, ◌*◌, ◌/◌, ◌≤◌, ◌<◌, ◌≡◌, ◌^◌, refl, ap, sym, ◌∙◌, inl, inr, Bool, true, false, List,
  ◌++◌, Option, none, some, ◌≢◌, ◌&&◌, not, ltb, ◌==◌, bytes_eq, if◌then◌else◌, length, length-drop,
  take, drop, u64_max, arith, Bool-cases,
}
use kobox.Protocol.{
  ProtocolStatus, ok, buffer_too_small, invalid_argument, schema_mismatch, malformed, read_u32,
  read_u64, write_u32, write_u64,
}
use kobox.Protocol.Word.{word32, word64}
use kobox.Protocol.Channel.{size_add_multiply}
use kobox.Protocol.Envelope.{
  Envelope, envelope_size, protocol_abi, envelope_valid, envelope_header, fit_total,
  envelope_encode, envelope_fields, judge_total, judge_envelope, envelope_decode,
}

-- The fields fit their types.
pub record IsWide (e : Envelope) : Type 0 where
  pub protocol_id : e.protocol_id < 2 ^ 32
  pub opcode : e.opcode < 2 ^ 32
  pub flags : e.flags < 2 ^ 32
  pub generation : e.generation < 2 ^ 64
  pub correlation_id : e.correlation_id < 2 ^ 64
  pub payload_length : e.payload_length < 2 ^ 32

fields_back :
    (e : Envelope) (rest : List ℕ) → IsWide e → envelope_fields (envelope_header e ++ rest) ≡ e
unfolding envelope_fields envelope_header read_u32 read_u64 write_u32 write_u64
fields_back e rest w = λ i. record {
  protocol_id = word32 e.protocol_id w.protocol_id i;
  opcode = word32 e.opcode w.opcode i;
  flags = word32 e.flags w.flags i;
  generation = word64 e.generation w.generation i;
  correlation_id = word64 e.correlation_id w.correlation_id i;
  payload_length = word32 e.payload_length w.payload_length i;
}

header_marks :
    (e : Envelope) (rest : List ℕ)
    → (length (envelope_header e ++ rest) ≡ envelope_size + length rest)
      × (bytes_eq (take 4 (drop 4 (envelope_header e ++ rest))) protocol_abi ≡ true)
      × (read_u32 (envelope_header e ++ rest) 36 ≡ 0)
unfolding envelope_header read_u32 write_u32 write_u64
header_marks e rest = (omega arith, refl, refl)

-- With a length of 32 bits the sum fits.
sum_fits :
    (n : ℕ) → n < 2 ^ 32 → size_add_multiply envelope_size n 1 ≡ (true, envelope_size + n * 1)
unfolding size_add_multiply
sum_fits n l = elim (Bool-cases (not (n == 0) && ltb ((u64_max - envelope_size) / n) 1)) [
  | inl t ↦ absurd (ground (arith, t, l))
  | inr t ↦ rw t refl
]

-- What was chosen, where the status is OK.
picked :
    (t : Bool) (status : ProtocolStatus) (x y bytes : List ℕ)
    → status ≢ ok
    → ◌≡◌ {A = ProtocolStatus × List ℕ} (if t then (status, x) else (ok, y)) (ok, bytes)
    → (t ≡ false) × (y ≡ bytes)
picked true status x y bytes n e = absurd (n (ap (λ r. r.0) e))
picked false status x y bytes n e = (refl, ap (λ r. r.1) e)

fit_total-ok :
    (total : ℕ) (buffer bytes : List ℕ) (e : Envelope)
    → fit_total (true, total) buffer e ≡ (ok, bytes)
    → (total ≤ length buffer) × (envelope_header e ++ drop envelope_size buffer ≡ bytes)
unfolding fit_total
fit_total-ok total buffer bytes e g =
    let (room, same) =
      picked (ltb (length buffer) total) buffer_too_small buffer
        (envelope_header e ++ drop envelope_size buffer) bytes (λ e. cc) g in
    (room_for (length buffer) total room, same)
  where
    room_for : (n total : ℕ) → ltb n total ≡ false → total ≤ n
    room_for n total e = ground (arith, e)

encode-valid :
    (buffer bytes : List ℕ) (e : Envelope)
    → envelope_encode buffer (some e) ≡ (ok, bytes)
    → (envelope_valid e ≡ true)
      × (fit_total (size_add_multiply envelope_size e.payload_length 1) buffer e ≡ (ok, bytes))
unfolding envelope_encode
encode-valid buffer bytes e g = valid_of (envelope_valid e) g
  where
    valid_of :
        (t : Bool)
        → ◌≡◌ {A = ProtocolStatus × List ℕ}
            (if not t
              then (invalid_argument, buffer)
              else fit_total (size_add_multiply envelope_size e.payload_length 1) buffer e)
            (ok, bytes)
        → (t ≡ true)
          × (fit_total (size_add_multiply envelope_size e.payload_length 1) buffer e ≡ (ok, bytes))
    valid_of true g = (refl, g)
    valid_of false g = absurd (not_ok (ap (λ r. r.0) g))
      where
        not_ok : invalid_argument ≡ ok → ⊥
        not_ok e = cc

encode-ok :
    (buffer bytes : List ℕ) (e : Envelope)
    → envelope_encode buffer (some e) ≡ (ok, bytes)
    → IsWide e
    → (envelope_valid e ≡ true)
      × (envelope_size + e.payload_length ≤ length buffer)
      × (envelope_header e ++ drop envelope_size buffer ≡ bytes)
encode-ok buffer bytes e g w =
    let (v, h) = encode-valid buffer bytes e g in
    let (room, same) =
      fit_total-ok (envelope_size + e.payload_length * 1) buffer bytes e
        (ap (λ s. fit_total s buffer e) (sym (sum_fits e.payload_length w.payload_length)) ∙ h) in
    (v, omega (arith, room), same)

judge_envelope-ok :
    (size : ℕ) (e : Envelope)
    → envelope_valid e ≡ true
    → IsWide e
    → envelope_size + e.payload_length ≤ size
    → judge_envelope size e ≡ (ok, some e)
unfolding judge_envelope judge_total
judge_envelope-ok size e v w l =
    rw (v, sum_fits e.payload_length w.payload_length, enough size e.payload_length l) refl
  where
    enough : (size n : ℕ) → envelope_size + n ≤ size → ltb size (envelope_size + n * 1) ≡ false
    enough size n l = ground (arith, l)

decode-header :
    (e : Envelope) (rest : List ℕ)
    → envelope_valid e ≡ true
    → IsWide e
    → e.payload_length ≤ length rest
    → envelope_decode (envelope_header e ++ rest) ≡ (ok, some e)
unfolding envelope_decode
decode-header e rest v w l =
    let (size, abi, reserved) = header_marks e rest in
    passed (ltb (length (envelope_header e ++ rest)) envelope_size)
      (bytes_eq (take 4 (drop 4 (envelope_header e ++ rest))) protocol_abi)
      (read_u32 (envelope_header e ++ rest) 36 == 0) (long size) abi (ground (arith, reserved))
    ∙ ap (judge_envelope (length (envelope_header e ++ rest))) (fields_back e rest w)
    ∙ judge_envelope-ok (length (envelope_header e ++ rest)) e v w (omega (arith, size, l))
  where
    long : {n : ℕ} → n ≡ envelope_size + length rest → ltb n envelope_size ≡ false
    long e = ground (arith, e)

    passed :
        (short abi zero : Bool) {r : ProtocolStatus × Option Envelope}
        → short ≡ false
        → abi ≡ true
        → zero ≡ true
        → (if short
            then (buffer_too_small, none)
            else if not abi
            then (schema_mismatch, none)
            else if not zero
            then (malformed, none)
            else r)
          ≡ r
    passed short abi zero a b c = rw (a, b, c) refl

header-drop : (e : Envelope) (rest : List ℕ) → drop envelope_size (envelope_header e ++ rest) ≡ rest
unfolding envelope_header write_u32 write_u64
header-drop e rest = refl

-- What encoding an envelope accepts, decoding returns, where the fields fit their types: the buffer
-- may be longer than the message, and what lies behind the header is kept.
pub envelope_decode-envelope_encode :
    (buffer bytes : List ℕ) (e : Envelope)
    → IsWide e
    → envelope_encode buffer (some e) ≡ (ok, bytes)
    → (envelope_decode bytes ≡ (ok, some e))
      × (drop envelope_size bytes ≡ drop envelope_size buffer)
envelope_decode-envelope_encode buffer bytes e w g =
    let (v, l, same) = encode-ok buffer bytes e g w in
    let rest = drop envelope_size buffer in
    (
      ap envelope_decode (sym same)
          ∙ decode-header e rest v w (omega (arith, l, length-drop envelope_size buffer)),
      ap (drop envelope_size) (sym same) ∙ header-drop e rest,
    )

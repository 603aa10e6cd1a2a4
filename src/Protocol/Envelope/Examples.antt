-- ===== src/Protocol/Envelope/Examples.antt =====
-- The envelope codec of protocol/src/protocol.c on concrete messages, and the theorem there.
use kobox.Prelude.{ℕ, ◌≡◌, refl, arith, List, some, replicate, drop}
use kobox.Protocol.{ok, buffer_too_small, schema_mismatch}
use kobox.Protocol.Envelope.{Envelope, envelope_size, envelope_encode, envelope_decode}
use kobox.Protocol.Envelope.RoundTrip.{envelope_decode-envelope_encode}

abbrev envelope : Envelope
envelope = record {
  protocol_id = 3;
  opcode = 0x102;
  flags = 0;
  generation = 7;
  correlation_id = 0x10000000001;
  payload_length = 4;
}

-- Room for the header and the payload, with 2 bytes to spare.
abbrev buffer : List ℕ
buffer = replicate 46 0xff

abbrev message : List ℕ
message = (envelope_encode buffer (some envelope)).1

short_buffer : (envelope_encode (replicate 43 0) (some envelope)).0 ≡ buffer_too_small
unfolding envelope_encode
short_buffer = refl

foreign_bytes : (envelope_decode buffer).0 ≡ schema_mismatch
unfolding envelope_decode
foreign_bytes = refl

envelope_decode-envelope_encode_example :
    (envelope_decode message ≡ (ok, some envelope))
    × (drop envelope_size message ≡ drop envelope_size buffer)
unfolding envelope_encode
envelope_decode-envelope_encode_example =
    envelope_decode-envelope_encode buffer message envelope
      (record {
        protocol_id = omega arith;
        opcode = omega arith;
        flags = omega arith;
        generation = omega arith;
        correlation_id = omega arith;
        payload_length = omega arith;
      })
      refl

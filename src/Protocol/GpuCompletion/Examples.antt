-- ===== src/Protocol/GpuCompletion/Examples.antt =====
-- Encoding and decoding concrete completions, and the theorems there.
use kobox.Prelude.{ℕ, ◌≡◌, refl, List, [], ◌∷◌, ◌++◌, some, none, arith, replicate}
use kobox.Protocol
use kobox.Protocol.{ok, malformed, buffer_too_small}
use kobox.Protocol.GpuCompletion.{
  Completion, abi, schema, valid_completion, write_header, write_response, completion_bytes,
  completion_encode, header_malformed, judge, decode_fields, completion_decode,
}
use kobox.Protocol.GpuCompletion.RoundTrip.{completion_decode-completion_encode}

computed : ℕ
unfolding Protocol.read_u32 Protocol.read_u64 Protocol.write_u32 Protocol.write_u64 valid_completion
    write_header write_response completion_bytes completion_encode header_malformed judge
    decode_fields completion_decode
computed = 0

-- The session 5 was opened at the epoch 9, with one capability.
abbrev success : Completion
success = record { opcode = 2; status = 0; session_id = 5; topology_epoch = 9; capabilities = 1 }

abbrev word : ℕ → List ℕ
word n = n ∷ 0 ∷ 0 ∷ 0 ∷ []

abbrev success_bytes : List ℕ
success_bytes =
    word 136
    ++ abi
    ++ schema
    ++ word 5
    ++ word 0
    ++ word 0
    ++ word 1
    ++ replicate 12 0
    ++ word 32
    ++ word 104
    ++ word 104
    ++ word 104
    ++ word 104
    ++ replicate 16 0
    ++ word 5
    ++ word 0
    ++ word 9
    ++ word 0
    ++ word 1
    ++ replicate 12 0

completion_decode-completion_encode_example : completion_decode success_bytes 2 ≡ (ok, some success)
unfolding computed
completion_decode-completion_encode_example =
    completion_decode-completion_encode success 136 success_bytes
      (record {
        status = omega arith;
        session_id = omega arith;
        topology_epoch = omega arith;
        capabilities = omega arith;
      })
      refl

no_room : completion_encode success 135 ≡ (buffer_too_small, none)
unfolding computed
no_room = refl

-- The completion of an opening is none of a closing.
other_opcode_refused : completion_decode success_bytes 3 ≡ (malformed, none)
unfolding computed
other_opcode_refused = refl

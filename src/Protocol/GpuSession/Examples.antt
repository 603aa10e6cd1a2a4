-- ===== src/Protocol/GpuSession/Examples.antt =====
-- Encoding and decoding concrete session requests, and the theorems there.
use kobox.Prelude.{ℕ, ◌≡◌, refl, List, [], ◌∷◌, ◌++◌, some, arith, replicate}
use kobox.Protocol
use kobox.Protocol.{ok, malformed}
use kobox.Protocol.GpuSession.{
  SessionOpen, valid_open, open_encode, open_request, open_decode, close_encode, close_decode,
}
use kobox.Protocol.GpuSession.RoundTrip.{open_decode-open_encode, close_decode-close_encode}

computed : ℕ
unfolding Protocol.read_u32 Protocol.read_u64 Protocol.write_u32 Protocol.write_u64 valid_open
    open_encode open_request open_decode close_encode close_decode
computed = 0

abbrev render : SessionOpen
render = record { node_type = 2; client_id = 0x1_0000_0203 }

abbrev render_bytes : List ℕ
render_bytes = 2 ∷ 0 ∷ 0 ∷ 0 ∷ 0 ∷ 0 ∷ 0 ∷ 0 ∷ 3 ∷ 2 ∷ 0 ∷ 0 ∷ 1 ∷ replicate 11 0

open_decode-open_encode_example : open_decode render_bytes ≡ (ok, some render)
unfolding computed
open_decode-open_encode_example =
    open_decode-open_encode [] render_bytes 24 render (omega arith) (omega arith) refl

close_decode-close_encode_example : close_decode (7 ∷ replicate 15 0) ≡ (ok, some 7)
unfolding computed
close_decode-close_encode_example =
    close_decode-close_encode [] (7 ∷ replicate 15 0) 16 7 (omega arith) refl

-- A flag is not known.
flags_refused : (close_decode (7 ∷ replicate 7 0 ++ (1 ∷ replicate 7 0))).0 ≡ malformed
unfolding computed
flags_refused = refl

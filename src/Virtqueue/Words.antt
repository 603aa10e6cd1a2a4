-- ===== src/Virtqueue/Words.antt =====
-- The words of protocol/src/virtqueue.c in the shared storage: what is written is what is read.
use kobox.Prelude.{ℕ, ◌<◌, ◌≡◌, ◌^◌, arith}
use kobox.Virtqueue.Publish.{descriptor_bytes}
use kobox.Virtqueue.Take.{read_u16, read_u32, read_u64}

-- A descriptor whose fields fit their types, written to the table, is read back: address, length,
-- flags and the next descriptor.
pub descriptor_read_back :
    (address size flags next : ℕ)
    → address < 2 ^ 64
    → size < 2 ^ 32
    → flags < 2 ^ 16
    → next < 2 ^ 16
    → (read_u64 (descriptor_bytes address size flags next) 0 ≡ address)
      × (read_u32 (descriptor_bytes address size flags next) 8 ≡ size)
      × (read_u16 (descriptor_bytes address size flags next) 12 ≡ flags)
      × (read_u16 (descriptor_bytes address size flags next) 14 ≡ next)
descriptor_read_back address size flags next a s f n =
    (omega (arith, a), omega (arith, s), omega (arith, f), omega (arith, n))

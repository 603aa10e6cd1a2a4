-- ===== src/Allocator.antt =====
-- The host's allocator: `kb2_allocate_fn` and `kb2_deallocate_fn` of include/kobox2/controller.h.
-- Which call it grants is the host's choice; the ledger counts the bytes that it has handed out.
use kobox.Prelude.{ℕ, ◌+◌, ◌-◌, Bool, if◌then◌else◌}

pub record Heap : Type 0 where
  pub grants : ℕ → ℕ → Bool  -- the number of the call, the size asked for
  pub calls : ℕ
  pub live : ℕ  -- bytes allocated and not yet given back

-- Whether the pointer is not NULL, and the heap after the call.
unfoldable pub allocate : Heap → ℕ → Bool × Heap
allocate h size =
    let granted = h.grants h.calls size in
    (granted, record h { calls = h.calls + 1; live = if granted then h.live + size else h.live })

unfoldable pub deallocate : Heap → ℕ → Heap
deallocate h size = record h { live = h.live - size }

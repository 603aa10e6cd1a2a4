-- ===== src/Virtqueue/Ownership/Device.antt =====
-- The device's operations of protocol/src/virtqueue.c keep the ownership in order.
use kobox.Prelude.{
  ℕ, ◌+◌, ◌<◌, ◌≡◌, refl, true, List, some, not, leb, ◌==◌, arith, ◌^◌, u32, sym, subst, false≢true,
}
use kobox.Virtqueue.{Side, driver, device, free, accepted, Vq, invalid, empty}
use kobox.Virtqueue.Effects.{channel_fault}
use kobox.Virtqueue.Publish.{is_device}
use kobox.Virtqueue.Take.{peek_available, take_available, read_u16}
use kobox.Virtqueue.Transfer.{
  move_accepted, return_available, copy_request, write_response, complete,
}
use kobox.Virtqueue.Keeping.{
  Frame, Post-give, Post-bind, Post-get, Post-modify, Post-required, Post-checked, Post-weaken,
  read-Keeps, write-Keeps, publish_index-Keeps, pending_index-Keeps, pending_index-short,
  copy_from-Keeps, copy_to-Keeps,
}
use kobox.Virtqueue.Ownership.{slot, Inv}
use kobox.Virtqueue.Ownership.Marks.{occupied-le-length}
use kobox.Virtqueue.Ownership.Drops.{drop-Inv}
use kobox.Virtqueue.Ownership.Moves.{moved-Inv}
use kobox.Virtqueue.Ownership.Reading.{Reading, accept-Inv}
use kobox.Virtqueue.Ownership.States.{
  KeepsInv, Inv-Frame, check-Inv, same_state-eq, owned-slot, held_written, restate-Inv,
}

device_side : (s : Side) → is_device s ≡ true → s ≡ device
device_side device e = refl
device_side driver e = absurd (false≢true e)

-- What `kb2_vq_take_available` knows when it looks at the ring: nothing of the queue has changed since.
record Taking (q : Vq) (p : ℕ) (r : Vq) : Type 0 where
  pub inv : Inv r
  pub is_free : (r.chains p).state ≡ free
  pub on_device : r.side ≡ device
  pub same_count : r.owned_count ≡ q.owned_count
  pub same_queue : r.queue ≡ q.queue

Taking-Frame : (q : Vq) (p : ℕ) → Frame (Taking q p) (λ status. Taking q p)
unfolding channel_fault
Taking-Frame q p = record {
  memory = λ r m v. record {
    inv = v.inv;
    is_free = v.is_free;
    on_device = v.on_device;
    same_count = v.same_count;
    same_queue = v.same_queue;
  };
  fault = λ r status i v. record {
    inv = v.inv;
    is_free = v.is_free;
    on_device = v.on_device;
    same_count = v.same_count;
    same_queue = v.same_queue;
  };
}

Taking-room :
    (q : Vq) (p : ℕ) (r : Vq) (distance : ℕ)
    → Taking q p r
    → not (distance == 0) ≡ true
    → distance < 2 ^ 16
    → leb (u32 (q.owned_count + distance)) q.queue.max_outstanding ≡ true
    → Reading p r
Taking-room q p r distance v d short l = record {
  inv = v.inv;
  is_free = v.is_free;
  on_device = v.on_device;
  room =
      subst (λ n. r.owned_count < n.max_outstanding) (sym v.same_queue)
        (ground (arith, no_wrap, d, short, l, v.same_count));
}
  where
    -- Fewer chains are out than the table has descriptors.
    no_wrap : q.owned_count < 2 ^ 16
    no_wrap = omega (
      arith,
      v.same_count,
      v.inv.counted,
      v.inv.slots_length,
      v.inv.size_small,
      occupied-le-length r.slots,
    )

after_check : (q : Vq) (p : ℕ) → Inv q → (q.chains p).state ≡ free → q.side ≡ device → Taking q p q
after_check q p v f s = record {
  inv = v;
  is_free = f;
  on_device = s;
  same_count = refl;
  same_queue = refl;
}

pub take_available-Inv : (generation p : ℕ) → KeepsInv (take_available generation p)
unfolding take_available
take_available-Inv generation p q v = Post-bind _ _ (check-Inv generation q v) (λ a q v.
    Post-get _ (
      Post-required _ invalid _ v (λ t.
        let k =
          after_check q p v (same_state-eq _ free (ground arith))
            (device_side q.side (ground arith)) in
        Post-bind _ _
          (Post-weaken _ (λ a r x. x) (λ status r x. x.inv)
            (pending_index-short (Taking-Frame q p) q k))
          (λ distance r (k, short). Post-required _ empty _ k.inv (λ d.
            Post-checked Inv-Frame _ _ k.inv (λ l.
              Post-bind _ _
                (Post-weaken _ (λ a r x. x) (λ status r x. x.inv)
                  (read-Keeps (Taking-Frame q p) _ _ r k))
                (λ bytes r k.
                  accept-Inv p (read_u16 bytes 0) r (Taking-room q p r distance k d short l))))))))

pub peek_available-Inv : (generation : ℕ) → KeepsInv (peek_available generation)
unfolding peek_available
peek_available-Inv generation q v = Post-bind _ _ (check-Inv generation q v) (λ a q v. Post-get _ (
    Post-required _ _ _ v
      (λ t. Post-bind _ _ (pending_index-Keeps Inv-Frame q v) (λ a q v. Post-give _ v))))

pub move_accepted-Inv :
    (generation source destination : ℕ) → KeepsInv (move_accepted generation source destination)
unfolding move_accepted
move_accepted-Inv generation source destination q v =
    Post-bind _ _ (check-Inv generation q v) (λ a q v. Post-get _ (
      Post-required _ invalid _ v (λ t. Post-modify _ (
        moved-Inv q source destination v (owned-slot q source accepted (ground arith))
          (ground arith) (same_state-eq _ free (ground arith))))))

pub return_available-Inv : (generation p : ℕ) → KeepsInv (return_available generation p)
unfolding return_available
return_available-Inv generation p q v = Post-bind _ _ (check-Inv generation q v) (λ a q v.
    Post-get _ (
      Post-required _ invalid _ v (λ t.
        Post-bind {R = λ a r. Inv r} _ _
          (Post-modify _ (drop-Inv q p v (owned-slot q p accepted (ground arith))))
          (λ a r v. Post-modify _ v))))

pub copy_request-Inv :
    (generation p offset size : ℕ) → KeepsInv (copy_request generation p offset size)
unfolding copy_request
copy_request-Inv generation p offset size q v = Post-bind _ _ (check-Inv generation q v) (λ a q v.
    Post-get _ (Post-required _ _ _ v (λ t. copy_from-Keeps Inv-Frame 0 offset size _ q v)))

pub write_response-Inv :
    (generation p : ℕ) (bytes : List ℕ) → KeepsInv (write_response generation p bytes)
unfolding write_response
write_response-Inv generation p bytes q v = Post-bind _ _ (check-Inv generation q v) (λ a q v.
    Post-get _ (
      Post-required _ invalid _ v (λ t.
        Post-bind _ _ (copy_to-Keeps Inv-Frame _ bytes _ q v) (λ a r v.
          Post-modify _ (restate-Inv r p _ v refl (λ d. held_written (r.chains p) _ d) (λ u. u))))))

-- The chain stays in its slot until the response is published.
abbrev Holding : ℕ → Vq → Type 0
Holding p q = Inv q × (slot q.slots (q.chains p).head ≡ some p)

Holding-Frame : (p : ℕ) → Frame (Holding p) (λ status. Holding p)
unfolding channel_fault
Holding-Frame p = record { memory = λ q m v. v; fault = λ q status i v. v }

pub complete-Inv : (generation p : ℕ) → KeepsInv (complete generation p)
unfolding complete
complete-Inv generation p q v = Post-bind _ _ (check-Inv generation q v) (λ a q v. Post-get _ (
    Post-required _ invalid _ v (λ t.
      Post-weaken _ (λ a r x. x) (λ status r x. x.0)
        (Post-bind _ _
          (write-Keeps (Holding-Frame p) _ _ q (v, owned-slot q p accepted (ground arith)))
          (λ a r k.
            Post-bind _ _ (publish_index-Keeps (Holding-Frame p) (λ q n v. v) _ _ r k)
              (λ notify r k.
                Post-bind {R = λ a r. Inv r} _ _ (Post-modify _ (drop-Inv r p k.0 k.1))
                  (λ a r v. Post-give _ v)))))))

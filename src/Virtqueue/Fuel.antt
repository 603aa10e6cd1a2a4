-- ===== src/Virtqueue/Fuel.antt =====
-- The turns of the loop of `read_chain` of protocol/src/virtqueue.c are enough: more of them change
-- nothing.
use kobox.Prelude.{
  ℕ, zero, suc, ◌+◌, ◌-◌, ◌≤◌, ◌<◌, ◌≡◌, refl, ap, sym, ◌∙◌, Bool, true, false, List, [], ◌∷◌, ◌++◌,
  if◌then◌else◌, length, length-append, arith,
}
use kobox.Virtqueue.{VqStatus, Segment, Chain, Vq, desc_next, desc_write}
use kobox.Virtqueue.Effects.{M, Outcome, done, stop, ◌>>=◌, give}
use kobox.Virtqueue.Take.{
  Cursor, Turn, finished, again, read_turn, read_turns, take_descriptor, take_reference,
  take_segment, turns_of, has_flag, enter_table, reference_valid, read_u16, read_u32, read_u64,
}
use kobox.Virtqueue.Keeping.{
  After, Post, Frame, Post-give, Post-bind, Post-get, Post-if, Post-modify, Post-checked,
  read-Keeps,
}
use kobox.Virtqueue.Ownership.Claims.{chain-same}

-- How many turns the loop may still take: one for each segment that there is room for, one for the
-- table where it has not been entered, and one to find that there is no room.
abbrev room : Vq → ℕ → Cursor → ℕ
room q p k =
    suc (q.queue.max_chain_length - length (q.chains p).segments + (if k.is_indirect then 0 else 1))

abbrev Whatever : VqStatus → Vq → Type 0
Whatever status q = Unit

-- The queue's bounds and the number of segments are as before.
abbrev SameRoom : ℕ → Vq → Vq → Type 0
SameRoom p q r = (r.queue ≡ q.queue) × (length (r.chains p).segments ≡ length (q.chains p).segments)

SameRoom-Frame : (p : ℕ) (q : Vq) → Frame (SameRoom p q) Whatever
SameRoom-Frame p q = record { memory = λ r m e. e; fault = λ r status i e. tt }

-- A turn that does not end the loop leaves less room.
abbrev Shrinks : ℕ → ℕ → Turn → Vq → Type 0
Shrinks p n finished r = Unit
Shrinks p n (again k) r = room r p k < n

next-Shrinks :
    (p n : ℕ) (k : Cursor) (next : ℕ) (t : Bool) (r : Vq)
    → room r p k < n
    → Shrinks p n (if t then again (record k { index = next }) else finished) r
next-Shrinks p n k next true r l = l
next-Shrinks p n k next false r l = tt

take_segment-Shrinks :
    (p : ℕ) (k : Cursor) (address size flags next n : ℕ) (q : Vq)
    → length (q.chains p).segments < q.queue.max_chain_length
    → room q p k ≤ n
    → Post (λ t r. Shrinks p n t r) Whatever (take_segment p k address size flags next) q
unfolding take_segment
take_segment-Shrinks p k address size flags next n q l m =
    let x : Segment = record {
      address = address;
      size = size;
      descriptor = k.index;
      writable = if has_flag flags desc_write then 1 else 0;
    } in
    let longer =
      ap (λ (c : Chain). length c.segments)
        (chain-same q p (record (q.chains p) { segments = (q.chains p).segments ++ (x ∷ []) }))
      ∙ length-append (q.chains p).segments (x ∷ []) in
    Post-bind {R = λ a r. room r p k < n} _ _ (Post-modify _ (omega (arith, longer, l, m)))
      (λ a r v. Post-give _ (next-Shrinks p n k next (has_flag flags desc_next) r v))

entered :
    (q : Vq) (k : Cursor) (address size flags : ℕ)
    → reference_valid q k address size flags ≡ true
    → k.is_indirect ≡ false
unfolding reference_valid
entered q k address size flags e = ground (arith, e)

take_reference-Shrinks :
    (p : ℕ) (k : Cursor) (address size flags n : ℕ) (q : Vq)
    → room q p k ≤ n
    → Post (λ t r. Shrinks p n t r) Whatever (take_reference p k address size flags) q
unfolding take_reference
take_reference-Shrinks p k address size flags n q m =
    let same =
      ap (λ (c : Chain). length c.segments)
        (chain-same q p (enter_table (q.chains p) k address size)) in
    Post-get _ (
      Post-checked (SameRoom-Frame p q) _ _ (refl, refl)
        (λ t.
          Post-bind {R = λ a r. room r p (record k { is_indirect = true }) < n} _ _
            (Post-modify _ (ground (arith, entered q k address size flags t, same, m)))
            (λ a r v. Post-give _ v)))

take_descriptor-Shrinks :
    (p : ℕ) (k : Cursor) (bytes : List ℕ) (n : ℕ) (q : Vq)
    → length (q.chains p).segments < q.queue.max_chain_length
    → room q p k ≤ n
    → Post (λ t r. Shrinks p n t r) Whatever (take_descriptor p k bytes) q
unfolding take_descriptor
take_descriptor-Shrinks p k bytes n q l m = Post-get _ (
    Post-checked (SameRoom-Frame p q) _ _ (refl, refl)
      (λ t.
        Post-if _
          (take_reference-Shrinks p k (read_u64 bytes 0) (read_u32 bytes 8) (read_u16 bytes 12) n q
            m)
          (take_segment-Shrinks p k (read_u64 bytes 0) (read_u32 bytes 8) (read_u16 bytes 12)
            (read_u16 bytes 14) n q l m)))

read_turn-Shrinks :
    (p : ℕ) (k : Cursor) (q : Vq)
    → Post (λ t r. Shrinks p (room q p k) t r) Whatever (read_turn p k) q
unfolding read_turn
read_turn-Shrinks p k q = Post-get _ (
    Post-checked (SameRoom-Frame p q) _ _ (refl, refl)
      (λ t. Post-bind _ _ (read-Keeps (SameRoom-Frame p q) _ _ q (refl, refl)) (λ bytes r e.
        let bound = ap (λ n. n.max_chain_length) e.0 in
        take_descriptor-Shrinks p k bytes (room q p k) r (ground (arith, t, bound, e.1))
          (omega (arith, bound, e.1)))))

After-cong :
    {A B : Type 0} {R : A → Vq → Type 0} (o : Outcome A) (f g : A → M B)
    → After R Whatever o
    → ((a : A) (r : Vq) → R a r → f a r ≡ g a r)
    → (elim o [ done a r ↦ f a r | stop status r ↦ stop status r ])
      ≡ (elim o [ done a r ↦ g a r | stop status r ↦ stop status r ])
After-cong (done a r) f g x k = k a r x
After-cong (stop status r) f g x k = refl

bind-cong :
    {A B : Type 0} {R : A → Vq → Type 0} (m : M A) (f g : A → M B) (q : Vq)
    → Post R Whatever m q
    → ((a : A) (r : Vq) → R a r → f a r ≡ g a r)
    → (m >>= f) q ≡ (m >>= g) q
unfolding ◌>>=◌
bind-cong {R = R} m f g q x k = After-cong {R = R} (m q) f g x.after k

-- What follows a turn.
abbrev turned : ℕ → ℕ → Turn → M (Unit {0})
turned turns p finished = give tt
turned turns p (again k) = read_turns turns p k

turned-eq :
    (turns p : ℕ) (t : Turn)
    → turned turns p t ≡ (elim t [ finished ↦ give tt | again k ↦ read_turns turns p k ])
turned-eq turns p finished = refl
turned-eq turns p (again k) = refl

turn_equation :
    (turns p : ℕ) (k : Cursor) (q : Vq)
    → (read_turn p k >>= turned turns p) q ≡ read_turns (suc turns) p k q
unfolding read_turns
turn_equation turns p k q = ap (λ f. (read_turn p k >>= f) q) (λ i t. turned-eq turns p t i)

read_turns-room :
    (turns more p : ℕ) (k : Cursor) (q : Vq)
    → room q p k ≤ turns
    → read_turns (turns + more) p k q ≡ read_turns turns p k q
read_turns-room zero more p k q l = absurd (omega (arith, l))
read_turns-room (suc turns) more p k q l =
    ap (λ n. read_turns n p k q) (omega arith)
    ∙ sym (turn_equation (turns + more) p k q)
    ∙ bind-cong {R = λ t r. Shrinks p (room q p k) t r} (read_turn p k) (turned (turns + more) p)
        (turned turns p) q (read_turn-Shrinks p k q)
        (λ t r v.
          turned-same t r v (λ k' v. read_turns-room turns more p k' r (omega (arith, v, l))))
    ∙ turn_equation turns p k q
  where
    turned-same :
        (t : Turn) (r : Vq)
        → Shrinks p (room q p k) t r
        → ((k' : Cursor)
            → room r p k' < room q p k
            → read_turns (turns + more) p k' r ≡ read_turns turns p k' r)
        → turned (turns + more) p t r ≡ turned turns p t r
    turned-same finished r v ih = refl
    turned-same (again k') r v ih = ih k' v

-- The loop that has as many turns as `read_chain` gives it does what it does with any more of them,
-- from whatever queue, chain and place in the tables: the turns never end it.
pub read_turns-enough :
    (more p : ℕ) (k : Cursor) (q : Vq)
    → read_turns (turns_of q.queue + more) p k q ≡ read_turns (turns_of q.queue) p k q
read_turns-enough more p k q = read_turns-room (turns_of q.queue) more p k q (ground arith)

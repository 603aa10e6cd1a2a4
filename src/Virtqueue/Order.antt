-- ===== src/Virtqueue/Order.antt =====
-- The order in which `kb2_vq_publish` of protocol/src/virtqueue.c writes to the shared storage.
use kobox.Prelude.{
  ℕ, suc, ◌+◌, ◌≡◌, inl, inr, refl, ap, sym, subst, ◌∙◌, Bool, List, [], ◌∷◌, ◌++◌, Option, none,
  some, ◌==◌, if◌then◌else◌, length, arith, Bool-cases, u16, u64,
}
use kobox.Virtqueue.{
  VqStatus, invalid, full, Event, wrote, stored, fenced, Segment, Chain, submitted, Queue, Vq,
  with_chain,
}
use kobox.Virtqueue.Effects.{
  done, or_fault, check, channel_fault, fault, ◌>>◌, called, write, load_acquire, store_release,
  fence,
}
use kobox.Virtqueue.Chains.{validate_chain, claim}
use kobox.Virtqueue.Publish.{
  available_entry, ring_slot, bytes_u16, segment_bytes, segment_place, write_segments,
  write_indirect, publish_index, publish_chain, claim_valid, publish,
}
use kobox.Virtqueue.Keeping.{
  After, Post, Post-give, Post-bind, Post-get, Post-modify, Post-return_status, Post-required,
  Post-same, Post-weaken,
}
use kobox.Virtqueue.Ownership.Claims.{chain-same}
use kobox.Virtqueue.Ownership.Validated.{with_sums, validate_chain-some}

-- The queue at a point of the publication, with the log of its memory.
record Logged (q : Vq) (log : List Event) (r : Vq) : Type 0 where
  pub same_log : r.memory.log ≡ log
  pub same_queue : r.queue ≡ q.queue
  pub same_produced : r.produced ≡ q.produced

abbrev Whatever : VqStatus → Vq → Type 0
Whatever status q = Unit

-- Only writes.
abbrev pub AllWrote : List Event → Type 0
AllWrote [] = Unit
AllWrote (wrote address bytes ∷ events) = AllWrote events
AllWrote (_ ∷ events) = ⊥

write-Logged :
    (q r : Vq) (log : List Event) (address : ℕ) (bytes : List ℕ)
    → Logged q log r
    → Post (λ a s. Logged q (wrote address bytes ∷ log) s) Whatever (write address bytes) r
unfolding write fault channel_fault
write-Logged q r log address bytes v = record {
  after = elim (Bool-cases (r.memory.writes r.memory.calls address bytes)) [
    | inl e ↦ simp e (record {
      same_log = ap (λ l. wrote address bytes ∷ l) v.same_log;
      same_queue = v.same_queue;
      same_produced = v.same_produced;
    })
    | inr e ↦ simp e tt
  ];
}

-- So many writes have been made since.
abbrev Writes : Vq → List Event → ℕ → Vq → Type 0
Writes q log n r =
    (events : List Event) × AllWrote events × (length events ≡ n) × Logged q (events ++ log) r

write-Writes :
    (q r : Vq) (log : List Event) (k : ℕ) (address : ℕ) (bytes : List ℕ)
    → Writes q log k r
    → Post (λ a s. Writes q log (k + 1) s) Whatever (write address bytes) r
write-Writes q r log k address bytes (events, all, many, v) =
    Post-weaken (write address bytes)
      (λ a s w. (wrote address bytes ∷ events, all, omega (arith, many), w)) (λ status s w. w)
      (write-Logged q r (events ++ log) address bytes v)

write_segments-Writes :
    (q r : Vq) (log : List Event) (k : ℕ) (n : Queue) (c : Chain) (i : ℕ) (ss : List Segment)
    → Writes q log k r
    → Post (λ a s. Writes q log (k + length ss) s) Whatever (write_segments n c i ss) r
unfolding write_segments
write_segments-Writes q r log k n c i [] (events, all, many, v) =
    Post-give _ (events, all, omega (arith, many), v)
write_segments-Writes q r log k n c i (s ∷ ss) w =
    Post-bind _ _ (write-Writes q r log k (segment_place n c i s) (segment_bytes c i s ss) w)
      (λ a t w.
        let more = write_segments-Writes q t log (k + 1) n c (suc i) ss w in
        Post-weaken (write_segments n c (suc i) ss)
          (λ a u x. let (events, all, many, v) = x in (events, all, omega (arith, many), v))
          (λ status u x. x) more)

-- How many descriptors there are for the indirect table.
abbrev pub table_descriptors : Chain → ℕ
table_descriptors c = if c.indirect_length == 0 then 0 else 1

write_indirect-Writes :
    (q r : Vq) (log : List Event) (k : ℕ) (n : Queue) (c : Chain)
    → Writes q log k r
    → Post (λ a s. Writes q log (k + table_descriptors c) s) Whatever (write_indirect n c) r
unfolding write_indirect
write_indirect-Writes q r log k n c w =
    let (events, all, many, v) = w in
    elim (Bool-cases (c.indirect_length == 0)) [
      | inl e ↦ simp e (Post-give _ (events, all, omega (arith, many), v))
      | inr e ↦ simp e (write-Writes q r log k _ _ w)
    ]

-- The log after the index: the entry, the index and the fence, in that order.
abbrev pub index_log : Queue → ℕ → ℕ → List Event → List Event
index_log n produced head log =
    fenced
    ∷ stored (u64 (n.available_address + 2)) (u16 (produced + 1))
    ∷ wrote (available_entry n (ring_slot n produced)) (bytes_u16 head)
    ∷ log

store_release-Logged :
    (q r : Vq) (log : List Event) (address value : ℕ)
    → Logged q log r
    → Post (λ a s. Logged q (stored address value ∷ log) s) Whatever (store_release address value) r
unfolding store_release fault channel_fault
store_release-Logged q r log address value v = record {
  after = elim (Bool-cases (r.memory.stores r.memory.calls address value)) [
    | inl e ↦ simp e (record {
      same_log = ap (λ l. stored address value ∷ l) v.same_log;
      same_queue = v.same_queue;
      same_produced = v.same_produced;
    })
    | inr e ↦ simp e tt
  ];
}

-- The log alone.
abbrev HasLog : List Event → Vq → Type 0
HasLog log r = r.memory.log ≡ log

After-loaded :
    (o : Option ℕ) (r : Vq) (log : List Event)
    → HasLog log r
    → After (λ a s. HasLog log s) Whatever (or_fault o r)
unfolding or_fault fault
After-loaded none r log e = tt
After-loaded (some value) r log e = e

load_acquire-HasLog :
    (r : Vq) (log : List Event) (address : ℕ)
    → HasLog log r
    → Post (λ a s. HasLog log s) Whatever (load_acquire address) r
unfolding load_acquire
load_acquire-HasLog r log address e =
    Post-bind {R = λ a s. HasLog log s} _ _
      (record {
        after = After-loaded (r.memory.loads r.memory.calls address) (called r r.memory.log) log e;
      })
      (λ a s e. Post-give _ e)

fence-HasLog :
    (log : List Event) (r : Vq)
    → HasLog log r
    → Post (λ a s. HasLog (fenced ∷ log) s) Whatever fence r
unfolding fence
fence-HasLog log r e = record { after = ap (λ l. fenced ∷ l) e }

publish_index-HasLog :
    (q r : Vq) (log : List Event) (ring event : ℕ)
    → Logged q log r
    → Post
        (λ a s. HasLog (fenced ∷ stored (u64 (ring + 2)) (u16 (q.produced + 1)) ∷ log) s)
        Whatever
        (publish_index ring event)
        r
unfolding publish_index
publish_index-HasLog q r log ring event v =
    let index = stored (u64 (ring + 2)) (u16 (q.produced + 1)) in
    Post-get _ (
      Post-bind _ _ (store_release-Logged q r log _ _ v) (λ a s w.
        Post-bind {R = λ a t. HasLog (index ∷ log) t} _ _
          (Post-modify _
            (w.same_log ∙ ap (λ n. stored (u64 (ring + 2)) (u16 (n + 1)) ∷ log) v.same_produced))
          (λ a t e.
            Post-bind {R = λ a u. HasLog (fenced ∷ index ∷ log) u} _ _
              (fence-HasLog (index ∷ log) t e)
              (λ a u e. Post-bind _ _ (load_acquire-HasLog u _ event e) (λ a u e. Post-give _ e)))))

-- What a publication of a chain adds to the log of the queue.
abbrev pub Published : Vq → Chain → Vq → Type 0
Published q c r =
    (events : List Event) × AllWrote events
    × (length events ≡ length c.segments + table_descriptors c)
    × (r.memory.log ≡ index_log q.queue q.produced c.head (events ++ q.memory.log))

publish_chain-Published :
    (p : ℕ) (q : Vq) → Post (λ a s. Published q (q.chains p) s) Whatever (publish_chain p) q
unfolding publish_chain
publish_chain-Published p q =
    let c = q.chains p in
    let none_yet : Writes q q.memory.log 0 q =
      ([], tt, refl, record { same_log = refl; same_queue = refl; same_produced = refl }) in
    Post-get _ (
      Post-bind _ _ (write_segments-Writes q q q.memory.log 0 q.queue c 0 c.segments none_yet)
        (λ a r w. Post-bind _ _ (write_indirect-Writes q r q.memory.log _ q.queue c w) (λ a s w.
          let (events, all, many, v) = w in
          Post-bind _ _ (write-Logged q s (events ++ q.memory.log) _ _ v) (λ a t v.
            Post-weaken _ (λ a u e. (events, all, omega (arith, many), e)) (λ status u e. e)
              (publish_index-HasLog q t _ q.queue.available_address _ v)))))

claimed-Published :
    (q : Vq) (p : ℕ) (o : Option Chain)
    → validate_chain q (q.chains p) ≡ o
    → Post (λ a s. Published q (q.chains p) s) Whatever (claim_valid p o >> publish_chain p) q
unfolding claim_valid claim
claimed-Published q p none e =
    Post-bind {R = λ a r. ⊥} _ _ (Post-return_status _ tt) (λ a r v. absurd v)
claimed-Published q p (some c) e =
    let (n, accepted, same, un) = validate_chain-some q (q.chains p) c e in
    let r = claim p submitted (with_chain q p c) in
    let put : r.chains p ≡ record (with_sums (q.chains p) n) { state = submitted } =
      chain-same (with_chain q p c) p (record ((with_chain q p c).chains p) { state = submitted })
      ∙ ap {A = Chain} (λ x. record x { state = submitted }) (chain-same q p c ∙ sym same) in
    Post-bind {R = λ a s. s ≡ r} _ _ (Post-modify _ refl) (λ a s e. Post-same _ e (
      Post-weaken (publish_chain p) (λ a t x. subst (λ y. Published q y t) put x) (λ status t x. x)
        (publish_chain-Published p r)))

check-same : (generation : ℕ) (q : Vq) → Post (λ a r. r ≡ q) Whatever (check generation) q
unfolding check
check-same generation q = record { after = kept }
  where
    kept : After (λ a r. r ≡ q) Whatever (check generation q)
    kept = elim (Bool-cases (generation == 0)) [
      | inl e ↦ simp e tt
      | inr e ↦ elim (Bool-cases (q.channel.generation == generation)) [
        | inr g ↦ simp (e, g) tt
        | inl g ↦ elim (Bool-cases q.channel.is_faulted) [
          | inl h ↦ simp (e, g, h) tt
          | inr h ↦ simp (e, g, h) refl
        ]
      ]
    ]

publish-Published :
    (generation p : ℕ) (q : Vq)
    → Post (λ a s. Published q (q.chains p) s) Whatever (publish generation p) q
unfolding publish
publish-Published generation p q = Post-bind _ _ (check-same generation q) (λ a r e. Post-same _ e (
    Post-get _ (
      Post-required _ invalid _ tt (λ t.
        Post-required _ full _ tt
          (λ l. claimed-Published q p (validate_chain q (q.chains p)) refl)))))

-- Where publishing a chain succeeds, the log of the memory has grown, in this order, by writes only, as
-- many as the chain has segments and one more where it has an indirect table; by the write of the
-- chain's head into the next entry of the available ring; by the store of the next index; and by the
-- fence: the peer cannot see the index before what it stands for.
pub publish-order :
    (generation p : ℕ) (q r : Vq) (notify : Bool)
    → publish generation p q ≡ done notify r
    → Published q (q.chains p) r
publish-order generation p q r notify e =
    subst (After (λ a s. Published q (q.chains p) s) Whatever) e
      (publish-Published generation p q).after

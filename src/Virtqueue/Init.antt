-- ===== src/Virtqueue/Init.antt =====
-- `kb2_vq_channel_init` of protocol/src/virtqueue.c: a channel of the engine is one that the protocol's
-- validation accepts. The result pointer is there.
use kobox.Prelude.{
  ℕ, ◌≡◌, inl, inr, refl, ap, sym, subst, ◌∙◌, Bool, true, false, not, List, [], ◌∷◌, map, Option,
  none, some, some-injective, get_elem?, if◌then◌else◌, arith, Bool-cases, ◌==◌, ltb,
}
use kobox.Protocol.{ProtocolStatus}
use kobox.Protocol.Channel.{ChannelModel, QueueModel, channel_validate}
use kobox.Protocol.Channel.Accepted.{channel_validate_sound}
use kobox.Virtqueue.{
  VqStatus, invalid, faulted, ok, Side, Chain, Queue, Region, Memory, Channel, Vq,
}
use kobox.Virtqueue.Effects.{Outcome, done}
use kobox.Virtqueue.Transfer.{find_queue, bound, bind_queue, bind_found, bind}
use kobox.Virtqueue.Keeping.{After, Post-get, Post-bind, Post-fault_unless, load_acquire-Keeps}
use kobox.Virtqueue.Calls.{Call, run}
use kobox.Virtqueue.Ownership.{Inv}
use kobox.Virtqueue.Ownership.Kept.{run-Owned}
use kobox.Virtqueue.Ownership.Runs.{bound-Inv}
use kobox.Virtqueue.Ownership.States.{KeepsInv, Inv-Frame}

-- What the engine reads of a queue of the protocol.
abbrev pub engine_queue : QueueModel → Queue
engine_queue q = record {
  queue_id = q.queue_id;
  role = q.role;
  queue_size = q.queue_size;
  descriptor_address = q.descriptor_address;
  available_address = q.available_address;
  used_address = q.used_address;
  max_chain_length = q.max_chain_length;
  max_indirect_length = q.max_indirect_length;
  max_outstanding = q.max_outstanding;
}

abbrev is_ok : ProtocolStatus → Bool
is_ok ProtocolStatus.ok = true
is_ok _ = false

unfoldable pub channel_init :
    ChannelModel → List QueueModel → List Region → VqStatus × Option Channel
unfolding channel_validate
channel_init identity queues regions =
    if is_ok (channel_validate identity queues regions)
    then (
      ok,
      some (record {
        generation = identity.generation;
        queues = map engine_queue queues;
        regions = regions;
        is_faulted = false;
      }),
    )
    else (invalid, none)

is_ok-ok : (s : ProtocolStatus) → is_ok s ≡ true → s ≡ ProtocolStatus.ok
is_ok-ok s e = ground arith

-- What was chosen, from what came out.
picked :
    {A : Type 0} (t : Bool) (a b : A)
    → ◌≡◌ {A = VqStatus × Option A} (if t then (ok, some a) else (invalid, none)) (ok, some b)
    → (t ≡ true) × (a ≡ b)
picked true a b e = (refl, some-injective a b (ap (λ x. x.1) e))
picked false a b e = absurd (not_ok (ap (λ x. x.0) e))
  where
    not_ok : invalid ≡ ok → ⊥
    not_ok e = cc

init-accepted :
    (identity : ChannelModel) (queues : List QueueModel) (regions : List Region) (channel : Channel)
    → channel_init identity queues regions ≡ (ok, some channel)
    → (channel_validate identity queues regions ≡ ProtocolStatus.ok)
      × (channel.queues ≡ map engine_queue queues)
unfolding channel_init
init-accepted identity queues regions channel e =
    let (passed, same) = picked (is_ok (channel_validate identity queues regions)) _ channel e in
    (
      is_ok-ok (channel_validate identity queues regions) passed,
      sym (ap (λ (c : Channel). c.queues) same),
    )

find_queue-get :
    (rs : List Queue) (queue_id : ℕ) (n : Queue)
    → find_queue rs queue_id ≡ some n
    → (i : ℕ) × (get_elem? rs i ≡ some n)
unfolding find_queue
find_queue-get [] queue_id n e = ground arith
find_queue-get (r ∷ rs) queue_id n e =
    here_or_later (find_queue rs queue_id) (find_queue-get rs queue_id n) e
  where
    here_or_later :
        (o : Option Queue)
        → (o ≡ some n → (i : ℕ) × (get_elem? rs i ≡ some n))
        → (elim o [ some s ↦ some s | none ↦ if r.queue_id == queue_id then some r else none ])
          ≡ some n
        → (i : ℕ) × (get_elem? (r ∷ rs) i ≡ some n)
    here_or_later (some s) later e = let (i, g) = later e in (ℕ.suc i, g)
    here_or_later none later e = elim (Bool-cases (r.queue_id == queue_id)) [
      | inl t ↦ (0, sym (chosen t) ∙ e)
      | inr t ↦ ground (arith, t, e)
    ]
      where
        chosen :
            (r.queue_id == queue_id) ≡ true
            → (if r.queue_id == queue_id then some r else none) ≡ some r
        chosen t = rw t refl

get-map :
    {A B : Type 0} (f : A → B) (xs : List A) (i : ℕ) (y : B)
    → get_elem? (map f xs) i ≡ some y
    → (x : A) × (get_elem? xs i ≡ some x) × (f x ≡ y)
get-map f [] i y e = ground arith
get-map f (x ∷ xs) ℕ.zero y e = (x, refl, some-injective (f x) y e)
get-map f (x ∷ xs) (ℕ.suc i) y e = get-map f xs i y e

bind_queue-Inv : KeepsInv bind_queue
unfolding bind_queue
bind_queue-Inv q v = Post-get _ (
    Post-bind _ _ (load_acquire-Keeps Inv-Frame _ q v)
      (λ a r v. Post-fault_unless Inv-Frame _ v (λ t. v)))

module _ (channel : Channel) (side : Side) (memory : Memory) (chains : ℕ → Chain)
    (capacity : ℕ) where
  abbrev Candidate : Type 0
  Candidate = VqStatus × Option (Outcome (Unit {0}))

  abbrev started : Queue → Candidate
  started n = (ok, some (bind_queue (bound channel n side memory chains)))

  found-bound :
      (o : Option Queue) (r : Vq)
      → bind_found channel side memory chains capacity o ≡ (ok, some (done tt r))
      → (n : Queue) × (o ≡ some n) × (bind_queue (bound channel n side memory chains) ≡ done tt r)
  unfolding bind_found
  found-bound none r e = absurd (not_ok (ap (λ x. x.0) e))
    where
      not_ok : invalid ≡ ok → ⊥
      not_ok e = cc
  found-bound (some n) r e = (
    n,
    refl,
    (picked (not (ltb capacity n.queue_size)) _ (done tt r)
        (flipped (ltb capacity n.queue_size) e)).1,
  )
    where
      flipped :
          (t : Bool)
          → ◌≡◌ {A = Candidate} (if t then (invalid, none) else started n) (ok, some (done tt r))
          → ◌≡◌ {A = Candidate}
              (if not t then started n else (invalid, none))
              (ok, some (done tt r))
      flipped true e = e
      flipped false e = e

  bind-bound :
      (queue_id : ℕ) (r : Vq)
      → bind channel queue_id side memory chains capacity ≡ (ok, some (done tt r))
      → (n : Queue) × (find_queue channel.queues queue_id ≡ some n)
        × (bind_queue (bound channel n side memory chains) ≡ done tt r)
  unfolding bind
  bind-bound queue_id r e =
      found-bound (find_queue channel.queues queue_id) r (open_channel channel.is_faulted e)
    where
      open_channel :
          (t : Bool)
          → (if t
              then (faulted, none)
              else bind_found channel side memory chains capacity
                  (find_queue channel.queues queue_id))
            ≡ (ok, some (done tt r))
          → bind_found channel side memory chains capacity (find_queue channel.queues queue_id)
            ≡ (ok, some (done tt r))
      open_channel false e = e
      open_channel true e = absurd (not_ok (ap (λ x. x.0) e))
        where
          not_ok : faulted ≡ ok → ⊥
          not_ok e = cc

  -- Where a channel has been initialised and one of its queues bound, whatever memory there is, the
  -- queue's ownership is in order after any calls.
  pub bind-run-Owned :
      (identity : ChannelModel) (queues : List QueueModel) (regions : List Region) (queue_id : ℕ)
      (r : Vq) (ks : List Call)
      → channel_init identity queues regions ≡ (ok, some channel)
      → bind channel queue_id side memory chains capacity ≡ (ok, some (done tt r))
      → Inv (run r ks)
  bind-run-Owned identity queues regions queue_id r ks e g =
      let (accepted, same) = init-accepted identity queues regions channel e in
      let (n, found, begun) = bind-bound queue_id r g in
      let (i, there) = find_queue-get channel.queues queue_id n found in
      let (q, here, of) =
        get-map engine_queue queues i n (ap (λ xs. get_elem? xs i) (sym same) ∙ there) in
      let (small, limit) =
        (channel_validate_sound identity queues regions accepted).limits i q here in
      let fresh : Inv (bound channel n side memory chains) =
        bound-Inv channel n side memory chains
          (omega (arith, small, ap (λ (x : Queue). x.queue_size) of))
          (omega (arith, small, limit, ap (λ (x : Queue). x.max_outstanding) of)) in
      run-Owned r ks (
        subst (After (λ a s. Inv s) (λ status. Inv)) begun
          (bind_queue-Inv (bound channel n side memory chains) fresh).after)

-- ===== src/Virtqueue/Keeping.antt =====
-- What the effects of protocol/src/virtqueue.c keep: a predicate of the queue that does not read the
-- memory holds after each of them, and another one where they fail.
pub mod Reads
use kobox.Prelude.{
  ◌<◌, ◌^◌, arith, sym, subst, ℕ, suc, ◌≡◌, inl, inr, refl, Bool, true, false, List, [], ◌∷◌,
  Option, none, some, not, ◌==◌, if◌then◌else◌, Bool-cases, u16,
}
use kobox.Virtqueue.{
  VqStatus, invalid, stale, faulted, io, Memory, Channel, Segment, Chain, Queue, Vq,
}
use kobox.Virtqueue.Effects.{
  Outcome, done, stop, M, ◌>>=◌, ◌>>◌, give, get, modify, return_status, require, fault_unless,
  or_fault, fault, channel_fault, check, called, read, write, load_acquire, store_release, fence,
}
use kobox.Virtqueue.Publish.{
  publish_index, write_segments, write_indirect, segment_place, segment_bytes,
}
use kobox.Virtqueue.Take.{pending_index}
use kobox.Virtqueue.Transfer.{copy_from, copy_to}

-- The first predicate holds of what is given out, the second of the status where the function returned
-- early.
abbrev pub After : {A : Type 0} → (A → Vq → Type 0) → (VqStatus → Vq → Type 0) → Outcome A → Type 0
After Q E (done a q) = Q a q
After Q E (stop status q) = E status q

pub record Post {A : Type 0} (Q : A → Vq → Type 0) (E : VqStatus → Vq → Type 0) (m : M A) (q : Vq)
    : Type 0 where
  pub after : After Q E (m q)

-- KB2_VQ_IO and KB2_VQ_FAULTED
abbrev pub IsFault : VqStatus → Type 0
IsFault io = Unit
IsFault faulted = Unit
IsFault _ = ⊥

pub record Frame (P : Vq → Type 0) (E : VqStatus → Vq → Type 0) : Type 0 where
  pub memory : (q : Vq) (m : Memory) → P q → P (record q { memory = m })
  pub fault : (q : Vq) (status : VqStatus) → IsFault status → P q → E status (channel_fault q)

abbrev pub Keeps : (Vq → Type 0) → (VqStatus → Vq → Type 0) → {A : Type 0} → M A → Type 0
Keeps P E m = (q : Vq) → P q → Post (λ a r. P r) E m q

pub Post-give :
    {A : Type 0} {Q : A → Vq → Type 0} {E : VqStatus → Vq → Type 0} (a : A) {q : Vq}
    → Q a q
    → Post Q E (give a) q
unfolding give
Post-give a p = record { after = p }

After-bind :
    {A B : Type 0} {Q : B → Vq → Type 0} {R : A → Vq → Type 0} {E : VqStatus → Vq → Type 0}
    (f : A → M B) (o : Outcome A)
    → ((a : A) (r : Vq) → R a r → Post Q E (f a) r)
    → After R E o
    → After Q E (elim o [ done a q ↦ f a q | stop status q ↦ stop status q ])
After-bind f (done a r) k y = (k a r y).after
After-bind f (stop status r) k y = y

pub Post-bind :
    {A B : Type 0} {Q : B → Vq → Type 0} {R : A → Vq → Type 0} {E : VqStatus → Vq → Type 0}
    (m : M A) (f : A → M B) {q : Vq}
    → Post R E m q
    → ((a : A) (r : Vq) → R a r → Post Q E (f a) r)
    → Post Q E (m >>= f) q
unfolding ◌>>=◌
Post-bind {Q = Q} {R = R} {E = E} m f {q = q} x k = record {
  after = After-bind {Q = Q} {R = R} {E = E} f (m q) k x.after;
}

pub Post-get :
    {B : Type 0} {Q : B → Vq → Type 0} {E : VqStatus → Vq → Type 0} (f : Vq → M B) {q : Vq}
    → Post Q E (f q) q
    → Post Q E (get >>= f) q
unfolding ◌>>=◌ get
Post-get f x = record { after = x.after }

pub Post-modify :
    {Q : Unit {0} → Vq → Type 0} {E : VqStatus → Vq → Type 0} (f : Vq → Vq) {q : Vq}
    → Q tt (f q)
    → Post Q E (modify f) q
unfolding modify
Post-modify f x = record { after = x }

pub Post-return_status :
    {A : Type 0} {Q : A → Vq → Type 0} {E : VqStatus → Vq → Type 0} (status : VqStatus) {q : Vq}
    → E status q
    → Post Q E (return_status status) q
unfolding return_status
Post-return_status status x = record { after = x }

-- The same from an equal queue.
pub Post-same :
    {A : Type 0} {Q : A → Vq → Type 0} {E : VqStatus → Vq → Type 0} (m : M A) {q r : Vq}
    → r ≡ q
    → Post Q E m q
    → Post Q E m r
Post-same {Q = Q} {E = E} m e x = subst (λ s. Post Q E m s) (sym e) x

-- What is required holds after it.
pub Post-require :
    {Q : Unit {0} → Vq → Type 0} {E : VqStatus → Vq → Type 0} (t : Bool) (status : VqStatus)
    {q : Vq}
    → E status q
    → (t ≡ true → Q tt q)
    → Post Q E (require t status) q
unfolding require
Post-require true status p k = record { after = k refl }
Post-require false status p k = record { after = p }

-- A requirement before a continuation.
pub Post-required :
    {B : Type 0} {Q : B → Vq → Type 0} {E : VqStatus → Vq → Type 0} (t : Bool) (status : VqStatus)
    (f : Unit {0} → M B) {q : Vq}
    → E status q
    → (t ≡ true → Post Q E (f tt) q)
    → Post Q E (require t status >>= f) q
unfolding ◌>>=◌ require
Post-required true status f p k = record { after = (k refl).after }
Post-required false status f p k = record { after = p }

pub Post-if :
    {A : Type 0} {Q : A → Vq → Type 0} {E : VqStatus → Vq → Type 0} (t : Bool) {m n : M A} {q : Vq}
    → Post Q E m q
    → Post Q E n q
    → Post Q E (if t then m else n) q
Post-if true x y = x
Post-if false x y = y

-- A weaker statement.
After-weaken :
    {A : Type 0} {Q R : A → Vq → Type 0} {E F : VqStatus → Vq → Type 0} (o : Outcome A)
    → ((a : A) (r : Vq) → R a r → Q a r)
    → ((status : VqStatus) (r : Vq) → F status r → E status r)
    → After R F o
    → After Q E o
After-weaken (done a r) k l x = k a r x
After-weaken (stop status r) k l x = l status r x

pub Post-weaken :
    {A : Type 0} {Q R : A → Vq → Type 0} {E F : VqStatus → Vq → Type 0} (m : M A) {q : Vq}
    → ((a : A) (r : Vq) → R a r → Q a r)
    → ((status : VqStatus) (r : Vq) → F status r → E status r)
    → Post R F m q
    → Post Q E m q
Post-weaken {Q = Q} {R = R} {E = E} {F = F} m {q = q} k l x = record {
  after = After-weaken {Q = Q} {R = R} {E = E} {F = F} (m q) k l x.after;
}

module _ {P : Vq → Type 0} {E : VqStatus → Vq → Type 0} (fr : Frame P E) where
  pub Post-fault :
      {A : Type 0} {Q : A → Vq → Type 0} (status : VqStatus) {q : Vq}
      → IsFault status
      → P q
      → Post Q E (fault status) q
  unfolding fault channel_fault
  Post-fault status {q = q} i p = record { after = fr.fault q status i p }

  pub Post-fault_unless :
      {Q : Unit {0} → Vq → Type 0} (t : Bool) {q : Vq}
      → P q
      → (t ≡ true → Q tt q)
      → Post Q E (fault_unless t) q
  unfolding fault_unless fault channel_fault
  Post-fault_unless true p k = record { after = k refl }
  Post-fault_unless false {q = q} p k = record { after = fr.fault q faulted tt p }

  pub Post-checked :
      {B : Type 0} {Q : B → Vq → Type 0} (t : Bool) (f : Unit {0} → M B) {q : Vq}
      → P q
      → (t ≡ true → Post Q E (f tt) q)
      → Post Q E (fault_unless t >>= f) q
  unfolding ◌>>=◌ fault_unless fault channel_fault
  Post-checked true f p k = record { after = (k refl).after }
  Post-checked false f {q = q} p k = record { after = fr.fault q faulted tt p }

  pub check-Keeps :
      ((q : Vq) (status : VqStatus)
        → (IsFault status → q.channel.is_faulted ≡ true)
        → P q
        → E status q)
      → (generation : ℕ) → Keeps P E (check generation)
  unfolding check
  check-Keeps refuse generation q p = record { after = kept }
    where
      kept : After (λ a r. P r) E (check generation q)
      kept = elim (Bool-cases (generation == 0)) [
        | inl e ↦ simp e (refuse q invalid (λ i. absurd i) p)
        | inr e ↦ elim (Bool-cases (q.channel.generation == generation)) [
          | inr g ↦ simp (e, g) (refuse q stale (λ i. absurd i) p)
          | inl g ↦ elim (Bool-cases q.channel.is_faulted) [
            | inl h ↦ simp (e, g, h) (refuse q faulted (λ i. h) p)
            | inr h ↦ simp (e, g, h) p
          ]
        ]
      ]

  After-or_fault : {A : Type 0} (o : Option A) (q : Vq) → P q → After (λ a r. P r) E (or_fault o q)
  unfolding or_fault fault channel_fault
  After-or_fault none q p = fr.fault q io tt p
  After-or_fault (some a) q p = p

  pub read-Keeps : (address size : ℕ) → Keeps P E (read address size)
  unfolding read
  read-Keeps address size q p = record {
    after =
        After-or_fault (q.memory.reads q.memory.calls address size) (called q q.memory.log)
          (fr.memory q _ p);
  }

  pub write-Keeps : (address : ℕ) (bytes : List ℕ) → Keeps P E (write address bytes)
  unfolding write fault channel_fault
  write-Keeps address bytes q p = record {
    after = elim (Bool-cases (q.memory.writes q.memory.calls address bytes)) [
      | inl e ↦ simp e (fr.memory q _ p)
      | inr e ↦ simp e (fr.fault _ io tt (fr.memory q _ p))
    ];
  }

  pub load_acquire-Keeps : (address : ℕ) → Keeps P E (load_acquire address)
  unfolding load_acquire
  load_acquire-Keeps address q p =
      Post-bind _ _
        (record {
          after =
              After-or_fault (q.memory.loads q.memory.calls address) (called q q.memory.log)
                (fr.memory q _ p);
        })
        (λ a r x. Post-give _ x)

  pub store_release-Keeps : (address value : ℕ) → Keeps P E (store_release address value)
  unfolding store_release fault channel_fault
  store_release-Keeps address value q p = record {
    after = elim (Bool-cases (q.memory.stores q.memory.calls address value)) [
      | inl e ↦ simp e (fr.memory q _ p)
      | inr e ↦ simp e (fr.fault _ io tt (fr.memory q _ p))
    ];
  }

  pub fence-Keeps : Keeps P E fence
  unfolding fence
  fence-Keeps q p = record { after = fr.memory q _ p }

  pub publish_index-Keeps :
      ((q : Vq) (n : ℕ) → P q → P (record q { produced = n }))
      → (ring event : ℕ) → Keeps P E (publish_index ring event)
  unfolding publish_index
  publish_index-Keeps advance ring event q p = Post-get _ (
      Post-bind _ _ (store_release-Keeps _ _ q p) (λ a r x.
        Post-bind {R = λ a r. P r} _ _ (Post-modify _ (advance r _ x)) (λ a r x.
          Post-bind _ _ (fence-Keeps r x)
            (λ a r x. Post-bind _ _ (load_acquire-Keeps event r x) (λ a r x. Post-give _ x)))))

  -- The distance is a 16-bit word.
  pub pending_index-short :
      (q : Vq) → P q → Post (λ distance r. P r × (distance < 2 ^ 16)) E pending_index q
  unfolding pending_index
  pending_index-short q p = Post-get _ (
      Post-bind _ _ (load_acquire-Keeps _ q p) (λ a r x.
        Post-bind {R = λ u r. P r} _ _ (Post-fault_unless _ x (λ t. x))
          (λ u r x. Post-give _ (x, omega arith))))

  pub pending_index-Keeps : Keeps P E pending_index
  pending_index-Keeps q p =
      Post-weaken _ (λ distance r x. x.0) (λ status r x. x) (pending_index-short q p)

  pub write_segments-Keeps :
      (n : Queue) (c : Chain) (i : ℕ) (ss : List Segment) → Keeps P E (write_segments n c i ss)
  unfolding write_segments
  write_segments-Keeps n c i [] q p = Post-give _ p
  write_segments-Keeps n c i (s ∷ ss) q p =
      Post-bind _ _ (write-Keeps (segment_place n c i s) (segment_bytes c i s ss) q p)
        (λ a r x. write_segments-Keeps n c (suc i) ss r x)

  pub write_indirect-Keeps : (n : Queue) (c : Chain) → Keeps P E (write_indirect n c)
  unfolding write_indirect
  write_indirect-Keeps n c q p = elim (Bool-cases (c.indirect_length == 0)) [
    | inl e ↦ simp e (Post-give _ p)
    | inr e ↦ simp e (write-Keeps _ _ q p)
  ]

  pub copy_from-Keeps :
      (writable offset size : ℕ) (ss : List Segment) → Keeps P E (copy_from writable offset size ss)
  unfolding copy_from
  copy_from-Keeps writable offset size [] q p =
      Post-bind {R = λ a r. P r} _ _ (Post-fault_unless _ p (λ t. p)) (λ a r x. Post-give _ x)
  copy_from-Keeps writable offset size (s ∷ ss) q p = Post-if _ (Post-give _ p) (
      Post-if _ (copy_from-Keeps writable _ size ss q p) (
        Post-bind _ _ (read-Keeps _ _ q p) (λ bytes r x.
          Post-bind _ _ (copy_from-Keeps writable 0 _ ss r x) (λ rest r x. Post-give _ x))))

  pub copy_to-Keeps :
      (offset : ℕ) (bytes : List ℕ) (ss : List Segment) → Keeps P E (copy_to offset bytes ss)
  unfolding copy_to
  copy_to-Keeps offset bytes [] q p = Post-fault_unless _ p (λ t. p)
  copy_to-Keeps offset bytes (s ∷ ss) q p = Post-if _ (Post-give _ p) (
      Post-if _ (copy_to-Keeps _ bytes ss q p)
        (Post-bind _ _ (write-Keeps _ _ q p) (λ a r x. copy_to-Keeps 0 _ ss r x)))

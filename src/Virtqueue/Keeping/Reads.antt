-- ===== src/Virtqueue/Keeping/Reads.antt =====
-- What `read_chain` of protocol/src/virtqueue.c keeps while it reads: a predicate of the queue that a
-- change of the chain that is read does not concern.
use kobox.Prelude.{ℕ, zero, suc, ◌≡◌, refl, List}
use kobox.Virtqueue.{VqStatus, Chain, Vq, with_chain, faulted}
use kobox.Virtqueue.Effects.{give}
use kobox.Virtqueue.Take.{
  Cursor, Turn, finished, again, take_reference, take_segment, take_descriptor, read_turn,
  read_turns,
}
use kobox.Virtqueue.Keeping.{
  Frame, Keeps, Post-give, Post-bind, Post-get, Post-if, Post-modify, Post-checked, Post-fault,
  read-Keeps,
}

module _ {P : Vq → Type 0} {E : VqStatus → Vq → Type 0} (fr : Frame P E) (p : ℕ)
    (refill : (q : Vq) (c : Chain)
      → c.state ≡ (q.chains p).state
      → P q
      → P (with_chain q p c)) where
  take_descriptor-Keeps : (k : Cursor) (bytes : List ℕ) → Keeps P E (take_descriptor p k bytes)
  unfolding take_descriptor take_reference take_segment
  take_descriptor-Keeps k bytes q v = Post-get _ (
      Post-checked fr _ _ v (λ t.
        Post-if _
          (Post-get _ (
            Post-checked fr _ _ v (λ t.
              Post-bind {R = λ a r. P r} _ _ (Post-modify _ (refill q _ refl v))
                (λ a r v. Post-give _ v))))
          (Post-bind {R = λ a r. P r} _ _ (Post-modify _ (refill q _ refl v))
            (λ a r v. Post-give _ v))))

  read_turn-Keeps : (k : Cursor) → Keeps P E (read_turn p k)
  unfolding read_turn
  read_turn-Keeps k q v = Post-get _ (
      Post-checked fr _ _ v (λ t.
        Post-bind _ _ (read-Keeps fr _ _ q v) (λ bytes r v. take_descriptor-Keeps k bytes r v)))

  pub read_turns-Keeps : (turns : ℕ) (k : Cursor) → Keeps P E (read_turns turns p k)
  unfolding read_turns
  read_turns-Keeps zero k q v = Post-fault fr faulted tt v
  read_turns-Keeps (suc turns) k q v =
      Post-bind _ _ (read_turn-Keeps k q v) (λ t r v. turned (read_turns-Keeps turns) t r v)
    where
      turned :
          ((k' : Cursor) → Keeps P E (read_turns turns p k'))
          → (t : Turn)
          → Keeps P E (elim t [ finished ↦ give tt | again k' ↦ read_turns turns p k' ])
      turned rest finished r v = Post-give _ v
      turned rest (again k') r v = rest k' r v

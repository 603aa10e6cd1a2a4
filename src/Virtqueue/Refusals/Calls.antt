-- ===== src/Virtqueue/Refusals/Calls.antt =====
-- What each call of protocol/src/virtqueue.c leaves where it does not return KB2_VQ_OK.
use kobox.Prelude.{ℕ, ◌≡◌, ◌⊎◌, inl, inr, refl, List}
use kobox.Virtqueue.{ok, invalid, empty, full, Vq}
use kobox.Virtqueue.Effects.{M, Outcome, done, stop}
use kobox.Virtqueue.Chains.{validate_chain}
use kobox.Virtqueue.Publish.{publish}
use kobox.Virtqueue.Take.{peek_available, take_available, take_used, read_u16, read_u32}
use kobox.Virtqueue.Transfer.{
  move_accepted, return_available, copy_request, write_response, complete, copy_response, release,
  arm,
}
use kobox.Virtqueue.Calls.{Call, ended, step}
use kobox.Virtqueue.Keeping.{
  After, Post, Post-give, Post-bind, Post-get, Post-modify, Post-required, Post-checked, read-Keeps,
  write-Keeps, store_release-Keeps, fence-Keeps, pending_index-Keeps, copy_from-Keeps,
  copy_to-Keeps,
}
use kobox.Virtqueue.Refusals.{
  Refusal, Any, Any-Frame, Unchanged-Frame, refused, check-Refusal, to-Refusal,
}
use kobox.Virtqueue.Refusals.Parts.{
  claim_valid-Refusal, publish_index-Faults, publish_chain-Faults, accept-Faults, give_back-Faults,
}

-- Where the operation does not succeed, it is a refusal.
abbrev Refuses : {A : Type 0} → M A → Type 0
Refuses m = (q : Vq) → Post (λ a r. Any r) (Refusal q) m q

publish-Refuses : (generation p : ℕ) → Refuses (publish generation p)
unfolding publish
publish-Refuses generation p q = Post-bind _ _ (check-Refusal q generation) (λ a r e. Post-get _ (
    Post-required _ invalid _ (refused invalid (λ i. i) e) (λ t.
      Post-required _ full _ (refused full (λ i. i) e) (λ l.
        Post-bind _ _ (claim_valid-Refusal q r p (validate_chain r (r.chains p)) e)
          (λ a r v. to-Refusal q _ r (publish_chain-Faults p r v))))))

peek_available-Refuses : (generation : ℕ) → Refuses (peek_available generation)
unfolding peek_available
peek_available-Refuses generation q = Post-bind _ _ (check-Refusal q generation) (λ a r e.
    Post-get _ (
      Post-required _ invalid _ (refused invalid (λ i. i) e) (λ t.
        Post-bind _ _ (pending_index-Keeps (Unchanged-Frame q) r e) (λ a r e. Post-give _ tt))))

take_available-Refuses : (generation p : ℕ) → Refuses (take_available generation p)
unfolding take_available
take_available-Refuses generation p q = Post-bind _ _ (check-Refusal q generation) (λ a r e.
    Post-get _ (
      Post-required _ invalid _ (refused invalid (λ i. i) e) (λ t.
        Post-bind _ _ (pending_index-Keeps (Unchanged-Frame q) r e) (λ distance r e.
          Post-required _ empty _ (refused empty (λ i. i) e) (λ d.
            Post-checked (Unchanged-Frame q) _ _ e (λ l.
              Post-bind _ _ (read-Keeps (Unchanged-Frame q) _ _ r e)
                (λ bytes r e. to-Refusal q _ r (accept-Faults p (read_u16 bytes 0) r tt))))))))

take_used-Refuses : (generation : ℕ) → Refuses (take_used generation)
unfolding take_used
take_used-Refuses generation q = Post-bind _ _ (check-Refusal q generation) (λ a r e. Post-get _ (
    Post-required _ invalid _ (refused invalid (λ i. i) e) (λ t.
      Post-bind _ _ (pending_index-Keeps (Unchanged-Frame q) r e) (λ distance r e.
        Post-required _ empty _ (refused empty (λ i. i) e) (λ d.
          Post-bind _ _ (read-Keeps (Unchanged-Frame q) _ _ r e) (λ bytes r e.
            Post-checked (Unchanged-Frame q) _ _ e
              (λ l. to-Refusal q _ r (give_back-Faults (read_u32 bytes 0) _ _ r tt))))))))

move_accepted-Refuses :
    (generation source destination : ℕ) → Refuses (move_accepted generation source destination)
unfolding move_accepted
move_accepted-Refuses generation source destination q =
    Post-bind _ _ (check-Refusal q generation) (λ a r e.
      Post-get _ (Post-required _ invalid _ (refused invalid (λ i. i) e) (λ t. Post-modify _ tt)))

return_available-Refuses : (generation p : ℕ) → Refuses (return_available generation p)
unfolding return_available
return_available-Refuses generation p q = Post-bind _ _ (check-Refusal q generation) (λ a r e.
    Post-get _ (
      Post-required _ invalid _ (refused invalid (λ i. i) e)
        (λ t. Post-bind {R = λ a r. Any r} _ _ (Post-modify _ tt) (λ a r v. Post-modify _ tt))))

copy_request-Refuses :
    (generation p offset size : ℕ) → Refuses (copy_request generation p offset size)
unfolding copy_request
copy_request-Refuses generation p offset size q =
    Post-bind _ _ (check-Refusal q generation) (λ a r e. Post-get _ (
      Post-required _ invalid _ (refused invalid (λ i. i) e)
        (λ t. to-Refusal q _ r (copy_from-Keeps Any-Frame 0 offset size _ r tt))))

copy_response-Refuses :
    (generation p offset size : ℕ) → Refuses (copy_response generation p offset size)
unfolding copy_response
copy_response-Refuses generation p offset size q =
    Post-bind _ _ (check-Refusal q generation) (λ a r e. Post-get _ (
      Post-required _ invalid _ (refused invalid (λ i. i) e)
        (λ t. to-Refusal q _ r (copy_from-Keeps Any-Frame 1 offset size _ r tt))))

write_response-Refuses :
    (generation p : ℕ) (bytes : List ℕ) → Refuses (write_response generation p bytes)
unfolding write_response
write_response-Refuses generation p bytes q = Post-bind _ _ (check-Refusal q generation) (λ a r e.
    Post-get _ (
      Post-required _ invalid _ (refused invalid (λ i. i) e) (λ t.
        Post-bind _ _ (to-Refusal q _ r (copy_to-Keeps Any-Frame _ bytes _ r tt))
          (λ a r v. Post-modify _ tt))))

complete-Refuses : (generation p : ℕ) → Refuses (complete generation p)
unfolding complete
complete-Refuses generation p q = Post-bind _ _ (check-Refusal q generation) (λ a r e. Post-get _ (
    Post-required _ invalid _ (refused invalid (λ i. i) e) (λ t.
      Post-bind _ _ (to-Refusal q _ r (write-Keeps Any-Frame _ _ r tt)) (λ a r v.
        Post-bind _ _ (to-Refusal q _ r (publish_index-Faults _ _ r v)) (λ notify r v.
          Post-bind {R = λ a r. Any r} _ _ (Post-modify _ tt) (λ a r v. Post-give _ v))))))

release-Refuses : (generation p : ℕ) → Refuses (release generation p)
unfolding release
release-Refuses generation p q = Post-bind _ _ (check-Refusal q generation) (λ a r e.
    Post-get _ (Post-required _ invalid _ (refused invalid (λ i. i) e) (λ t. Post-modify _ tt)))

arm-Refuses : (generation : ℕ) → Refuses (arm generation)
unfolding arm
arm-Refuses generation q = Post-bind _ _ (check-Refusal q generation) (λ a r e. Post-get _ (
    Post-bind _ _ (to-Refusal q _ r (store_release-Keeps Any-Frame _ _ r tt)) (λ a r v.
      Post-bind _ _ (to-Refusal q _ r (fence-Keeps Any-Frame r v)) (λ a r v.
        Post-bind _ _ (to-Refusal q _ r (pending_index-Keeps Any-Frame r v))
          (λ a r v. Post-give _ v)))))

After-ended :
    {A : Type 0} (q : Vq) (o : Outcome A)
    → After (λ a r. Any r) (Refusal q) o
    → ((ended o).0 ≡ ok) ⊎ Refusal q (ended o).0 (ended o).1
After-ended q (done a r) x = inl refl
After-ended q (stop status r) x = inr x

ended-Refuses :
    {A : Type 0} (m : M A) (q : Vq)
    → Post (λ a r. Any r) (Refusal q) m q
    → ((ended (m q)).0 ≡ ok) ⊎ Refusal q (ended (m q)).0 (ended (m q)).1
ended-Refuses m q x = After-ended q (m q) x.after

-- A call that does not return OK has faulted the channel, where it returns IO or FAULTED, and leaves
-- the queue as it was but for the memory, where it returns another status.
pub step-Refusal : (q : Vq) (k : Call) → ((step q k).0 ≡ ok) ⊎ Refusal q (step q k).0 (step q k).1
unfolding step
step-Refusal q (Call.fill p c) = inl refl
step-Refusal q Call.channel_fault = inl refl
step-Refusal q (Call.publish generation p) = ended-Refuses _ q (publish-Refuses generation p q)
step-Refusal q (Call.peek_available generation) =
    ended-Refuses _ q (peek_available-Refuses generation q)
step-Refusal q (Call.take_available generation p) =
    ended-Refuses _ q (take_available-Refuses generation p q)
step-Refusal q (Call.move_accepted generation source destination) =
    ended-Refuses _ q (move_accepted-Refuses generation source destination q)
step-Refusal q (Call.return_available generation p) =
    ended-Refuses _ q (return_available-Refuses generation p q)
step-Refusal q (Call.copy_request generation p offset size) =
    ended-Refuses _ q (copy_request-Refuses generation p offset size q)
step-Refusal q (Call.write_response generation p bytes) =
    ended-Refuses _ q (write_response-Refuses generation p bytes q)
step-Refusal q (Call.complete generation p) = ended-Refuses _ q (complete-Refuses generation p q)
step-Refusal q (Call.take_used generation) = ended-Refuses _ q (take_used-Refuses generation q)
step-Refusal q (Call.copy_response generation p offset size) =
    ended-Refuses _ q (copy_response-Refuses generation p offset size q)
step-Refusal q (Call.release generation p) = ended-Refuses _ q (release-Refuses generation p q)
step-Refusal q (Call.arm generation) = ended-Refuses _ q (arm-Refuses generation q)

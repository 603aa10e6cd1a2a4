-- ===== src/Virtqueue/Ownership/Driver.antt =====
-- The driver's operations of protocol/src/virtqueue.c keep the ownership in order.
use kobox.Prelude.{ℕ, ◌<◌, ◌≡◌, refl, true, Option, none, some, arith, sym, subst, ◌∙◌, false≢true}
use kobox.Virtqueue.{
  Side, driver, device, Chain, free, submitted, returned, Vq, invalid, full, faulted, with_chain,
}
use kobox.Virtqueue.Chains.{validate_chain}
use kobox.Virtqueue.Publish.{is_driver, claim_valid, publish_chain, publish}
use kobox.Virtqueue.Take.{read_u32, take_used, give_back}
use kobox.Virtqueue.Transfer.{copy_response, release, arm}
use kobox.Virtqueue.Keeping.{
  Post, Post-give, Post-bind, Post-get, Post-modify, Post-return_status, Post-required,
  Post-checked, Post-fault, read-Keeps, write-Keeps, write_segments-Keeps, write_indirect-Keeps,
  pending_index-Keeps, store_release-Keeps, fence-Keeps, copy_from-Keeps,
}
use kobox.Virtqueue.Ownership.{InUse, Inv}
use kobox.Virtqueue.Ownership.Claims.{claim-Inv}
use kobox.Virtqueue.Ownership.Drops.{drop-Inv}
use kobox.Virtqueue.Ownership.States.{
  KeepsInv, Inv-Frame, check-Inv, publish_index-Inv, same_state-eq, owned-slot, owned-state,
  restate-Inv, held_used, refill-Inv, validated-Claimable,
}

driver_side : (s : Side) → is_driver s ≡ true → s ≡ driver
driver_side driver e = refl
driver_side device e = absurd (false≢true e)

claim_valid-Inv :
    (q : Vq) (p : ℕ) (o : Option Chain)
    → Inv q
    → (q.chains p).state ≡ free
    → q.side ≡ driver
    → q.owned_count < q.queue.max_outstanding
    → validate_chain q (q.chains p) ≡ o
    → Post (λ a r. Inv r) (λ status. Inv) (claim_valid p o) q
unfolding claim_valid
claim_valid-Inv q p none v f s l e = Post-return_status _ v
claim_valid-Inv q p (some c) v f s l e =
    let (k, g) = validated-Claimable q p c e in
    Post-modify _ (
      claim-Inv (with_chain q p c) p submitted (refill-Inv q p c v f) (g ∙ f) k
        (subst (λ x. InUse x submitted) (sym s) tt) l)

publish_chain-Inv : (p : ℕ) → KeepsInv (publish_chain p)
unfolding publish_chain
publish_chain-Inv p q v = Post-get _ (
    Post-bind _ _ (write_segments-Keeps Inv-Frame q.queue (q.chains p) 0 (q.chains p).segments q v)
      (λ a r v. Post-bind _ _ (write_indirect-Keeps Inv-Frame q.queue (q.chains p) r v) (λ a r v.
        Post-bind _ _ (write-Keeps Inv-Frame _ _ r v) (λ a r v. publish_index-Inv _ _ r v))))

pub publish-Inv : (generation p : ℕ) → KeepsInv (publish generation p)
unfolding publish
publish-Inv generation p q v = Post-bind _ _ (check-Inv generation q v) (λ a q v. Post-get _ (
    Post-required _ invalid _ v (λ t. Post-required _ full _ v (λ l.
      Post-bind _ _
        (claim_valid-Inv q p (validate_chain q (q.chains p)) v (same_state-eq _ free (ground arith))
          (driver_side q.side (ground arith)) (ground (arith, v.bounded, l)) refl)
        (λ a q v. publish_chain-Inv p q v)))))

returned_state : (s : Side) → InUse s submitted → InUse s returned
returned_state driver u = tt
returned_state device u = u

give_back-Inv : (head size : ℕ) (o : Option ℕ) → KeepsInv (give_back head size o)
unfolding give_back
give_back-Inv head size none q v = Post-fault Inv-Frame faulted tt v
give_back-Inv head size (some p) q v = Post-get _ (
    Post-checked Inv-Frame _ _ v (λ t.
      Post-bind {R = λ a r. Inv r} _ _
        (Post-modify _ (
          restate-Inv q p (record (q.chains p) { used_length = size; state = returned }) v refl
            (λ d. held_used (q.chains p) size returned d)
            (λ u.
              returned_state q.side
                (subst (InUse q.side) (owned-state q p submitted (ground arith)) u))))
        (λ a q v. Post-give _ v)))

pub take_used-Inv : (generation : ℕ) → KeepsInv (take_used generation)
unfolding take_used
take_used-Inv generation q v = Post-bind _ _ (check-Inv generation q v) (λ a q v. Post-get _ (
    Post-required _ _ _ v (λ t. Post-bind _ _ (pending_index-Keeps Inv-Frame q v) (λ a q v.
      Post-required _ _ _ v (λ t. Post-bind _ _ (read-Keeps Inv-Frame _ _ q v) (λ bytes q v.
        Post-checked Inv-Frame _ _ v (λ t. give_back-Inv (read_u32 bytes 0) _ _ q v)))))))

pub copy_response-Inv :
    (generation p offset size : ℕ) → KeepsInv (copy_response generation p offset size)
unfolding copy_response
copy_response-Inv generation p offset size q v = Post-bind _ _ (check-Inv generation q v) (λ a q v.
    Post-get _ (Post-required _ _ _ v (λ t. copy_from-Keeps Inv-Frame 1 offset size _ q v)))

pub release-Inv : (generation p : ℕ) → KeepsInv (release generation p)
unfolding release
release-Inv generation p q v = Post-bind _ _ (check-Inv generation q v) (λ a q v. Post-get _ (
    Post-required _ _ _ v
      (λ t. Post-modify _ (drop-Inv q p v (owned-slot q p returned (ground arith))))))

pub arm-Inv : (generation : ℕ) → KeepsInv (arm generation)
unfolding arm
arm-Inv generation q v = Post-bind _ _ (check-Inv generation q v) (λ a q v. Post-get _ (
    Post-bind _ _ (store_release-Keeps Inv-Frame _ _ q v) (λ a q v.
      Post-bind _ _ (fence-Keeps Inv-Frame q v)
        (λ a q v. Post-bind _ _ (pending_index-Keeps Inv-Frame q v) (λ a q v. Post-give _ v)))))

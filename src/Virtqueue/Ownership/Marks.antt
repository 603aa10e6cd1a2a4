-- ===== src/Virtqueue/Ownership/Marks.antt =====
-- What `claim` and `drop` of protocol/src/virtqueue.c do to the descriptors' owners and the slots.
use kobox.Prelude.{
  ◌≤◌, ℕ, zero, suc, ◌<◌, ◌≡◌, refl, List, [], ◌∷◌, Option, none, some, ◌&&◌, ltb, ◌==◌,
  if◌then◌else◌, length, length-set, get_or, get_or-set_any, set, arith, ap, ◌∙◌,
}
use kobox.Virtqueue.{Segment, Chain}
use kobox.Virtqueue.Chains.{direct_count, mark_descriptors, mark_chain}
use kobox.Virtqueue.Ownership.{first_holds, holds, slot, occupied}

mark_descriptors-length :
    (owners : List ℕ) (n owner : ℕ) (ss : List Segment)
    → length (mark_descriptors owners n owner ss) ≡ length owners
unfolding mark_descriptors
mark_descriptors-length owners n owner [] = refl
mark_descriptors-length owners zero owner (s ∷ ss) = refl
mark_descriptors-length owners (suc n) owner (s ∷ ss) =
    mark_descriptors-length (set owners s.descriptor owner) n owner ss
    ∙ length-set owners s.descriptor owner

get_or-mark_descriptors :
    (owners : List ℕ) (n owner d : ℕ) (ss : List Segment)
    → get_or (mark_descriptors owners n owner ss) d 0
      ≡ (if first_holds d n ss && ltb d (length owners) then owner else get_or owners d 0)
unfolding mark_descriptors
get_or-mark_descriptors owners n owner d [] = refl
get_or-mark_descriptors owners zero owner d (s ∷ ss) = refl
get_or-mark_descriptors owners (suc n) owner d (s ∷ ss) = ground (
  arith,
  get_or-mark_descriptors (set owners s.descriptor owner) n owner d ss,
  get_or-set_any 0 owners s.descriptor d owner,
  length-set owners s.descriptor owner,
)

pub mark_chain-length :
    (owners : List ℕ) (c : Chain) (owner : ℕ) → length (mark_chain owners c owner) ≡ length owners
unfolding mark_chain
mark_chain-length owners c owner = ground (
  arith,
  mark_descriptors-length
      (if c.indirect_length == 0 then owners else set owners c.indirect_descriptor owner)
      (direct_count c) owner c.segments,
  length-set owners c.indirect_descriptor owner,
)

-- The descriptors of the chain have the owner, and the others keep theirs.
pub get_or-mark_chain :
    (owners : List ℕ) (c : Chain) (owner d : ℕ)
    → get_or (mark_chain owners c owner) d 0
      ≡ (if holds c d && ltb d (length owners) then owner else get_or owners d 0)
unfolding mark_chain holds
get_or-mark_chain owners c owner d = ground (
  arith,
  get_or-mark_descriptors
      (if c.indirect_length == 0 then owners else set owners c.indirect_descriptor owner)
      (direct_count c) owner d c.segments,
  length-set owners c.indirect_descriptor owner,
  get_or-set_any 0 owners c.indirect_descriptor d owner,
)

pub occupied-set-some :
    (slots : List (Option ℕ)) (h p : ℕ)
    → h < length slots
    → slot slots h ≡ none
    → occupied (set slots h (some p)) ≡ suc (occupied slots)
unfolding occupied
occupied-set-some [] h p l e = absurd (omega arith)
occupied-set-some (none ∷ slots) zero p l e = refl
occupied-set-some (some i ∷ slots) zero p l e = ground arith
occupied-set-some (none ∷ slots) (suc h) p l e = occupied-set-some slots h p (omega arith) e
occupied-set-some (some i ∷ slots) (suc h) p l e =
    ap suc (occupied-set-some slots h p (omega arith) e)

pub occupied-le-length : (slots : List (Option ℕ)) → occupied slots ≤ length slots
unfolding occupied
occupied-le-length [] = omega arith
occupied-le-length (none ∷ slots) = omega (arith, occupied-le-length slots)
occupied-le-length (some p ∷ slots) = omega (arith, occupied-le-length slots)

pub occupied-set-none :
    (slots : List (Option ℕ)) (h p : ℕ)
    → slot slots h ≡ some p
    → occupied slots ≡ suc (occupied (set slots h none))
unfolding occupied
occupied-set-none [] h p e = ground arith
occupied-set-none (none ∷ slots) zero p e = ground arith
occupied-set-none (some i ∷ slots) zero p e = refl
occupied-set-none (none ∷ slots) (suc h) p e = occupied-set-none slots h p e
occupied-set-none (some i ∷ slots) (suc h) p e = ap suc (occupied-set-none slots h p e)

pub occupied-set_other :
    (slots : List (Option ℕ)) (h p r : ℕ)
    → slot slots h ≡ some p
    → occupied (set slots h (some r)) ≡ occupied slots
unfolding occupied
occupied-set_other [] h p r e = ground arith
occupied-set_other (none ∷ slots) zero p r e = ground arith
occupied-set_other (some i ∷ slots) zero p r e = refl
occupied-set_other (none ∷ slots) (suc h) p r e = occupied-set_other slots h p r e
occupied-set_other (some i ∷ slots) (suc h) p r e = ap suc (occupied-set_other slots h p r e)

pub slot-bound : (slots : List (Option ℕ)) (h p : ℕ) → slot slots h ≡ some p → h < length slots
slot-bound [] h p e = ground arith
slot-bound (s ∷ slots) zero p e = omega arith
slot-bound (s ∷ slots) (suc h) p e = omega (arith, slot-bound slots h p e)

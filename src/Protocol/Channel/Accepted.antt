-- ===== src/Protocol/Channel/Accepted.antt =====
-- What holds of a channel that `kb2_protocol_channel_validate` of protocol/src/protocol.c accepts.
use kobox.Prelude.{
  ℕ, ◌+◌, ◌≤◌, ◌<◌, ◌≡◌, ◌≢◌, ◌⊎◌, ap, sym, subst, ◌∙◌, ◌^◌, true, false, List, [], some,
  some-injective, get_elem?, arith, dec_lt,
}
use kobox.Protocol.{ok}
use kobox.Protocol.Channel.{
  ChannelModel, QueueModel, queue_range_length, queue_range_base, rings_overlap, ring_clashes,
  validate_queues, validate_channel_model, channel_validate, ring_rights, queue_size_max,
}
use kobox.Virtqueue.{Region}
use kobox.Protocol.Channel.Sound.{
  clear_pairs, Disjoint, ranges_overlap-Disjoint, Disjoint-sym, Regions, RegionsApart,
  Regions-Apart,
}
use kobox.Protocol.Channel.Rings.{
  RangeWithin, Queues, Queues-turn, rings_valid_unique, all_sound, ring_clashes-none, range_end,
  range-Within, queue_range_small,
}

-- Different rings, be they of one queue or of two.
abbrev pub RingsApart : List QueueModel → Type 0
RingsApart queues =
    (i j a b : ℕ) (q p : QueueModel)
    → a < 3
    → b < 3
    → (i ≢ j) ⊎ (a ≢ b)
    → get_elem? queues i ≡ some q
    → get_elem? queues j ≡ some p
    → Disjoint (queue_range_base q a) (queue_range_length q a) (queue_range_base p b)
        (queue_range_length p b)

pub record ChannelSound (queues : List QueueModel) (regions : List Region) : Type 0 where
  pub regions_apart : RegionsApart regions
  pub rings_within :
      (i a : ℕ) (q : QueueModel)
      → a < 3
      → get_elem? queues i ≡ some q
      → RangeWithin regions (queue_range_base q a) (queue_range_length q a)
  pub rings_apart : RingsApart queues
  pub limits :
      (i : ℕ) (q : QueueModel)
      → get_elem? queues i ≡ some q
      → (q.queue_size ≤ queue_size_max) × (q.max_outstanding ≤ q.queue_size)

module _ (regions : List Region) (queues : List QueueModel) (v : Queues regions [] queues) where
  ring_end :
      (i a : ℕ) (q : QueueModel)
      → a < 3
      → get_elem? queues i ≡ some q
      → queue_range_base q a + queue_range_length q a < 2 ^ 64
  ring_end i a q l e =
      let s = all_sound regions queues i q v e in
      (range_end regions _ _ ring_rights (s.rights a l) (queue_range_small q a s.size)).0

  overlap-Apart :
      (i j a b : ℕ) (q p : QueueModel)
      → a < 3
      → b < 3
      → get_elem? queues i ≡ some q
      → get_elem? queues j ≡ some p
      → rings_overlap q a p b ≡ false
      → Disjoint
          (queue_range_base q a)
          (queue_range_length q a)
          (queue_range_base p b)
          (queue_range_length p b)
  unfolding rings_overlap
  overlap-Apart i j a b q p l k e g n =
      ranges_overlap-Disjoint _ _ _ _ n (ring_end i a q l e) (ring_end j b p k g)

  later_apart :
      (i j a b : ℕ) (q p : QueueModel)
      → a < 3
      → b < 3
      → j < i
      → get_elem? queues i ≡ some q
      → get_elem? queues j ≡ some p
      → Disjoint
          (queue_range_base q a)
          (queue_range_length q a)
          (queue_range_base p b)
          (queue_range_length p b)
  later_apart i j a b q p l k m e g = overlap-Apart i j a b q p l k e g (
      ring_clashes-none q p a 3 b
        (clear_pairs (Queues regions) (λ q p. ring_clashes q a 3 p)
          (λ before q queues v.
            let (valid, rings, rest) = Queues-turn regions before q queues v in
            ((rings_valid_unique before q regions a rings l).0, rest))
          [] queues i j q p v m e g)
        k)

  own_apart :
      (i a b : ℕ) (q : QueueModel)
      → a < 3
      → b < a
      → get_elem? queues i ≡ some q
      → Disjoint
          (queue_range_base q a)
          (queue_range_length q a)
          (queue_range_base q b)
          (queue_range_length q b)
  own_apart i a b q l m e =
      overlap-Apart i i a b q q l (omega (arith, l, m)) e e
        (ring_clashes-none q q a a b ((all_sound regions queues i q v e).own a l) m)

  Queues-Apart : RingsApart queues
  Queues-Apart i j a b q p l k ne e g = elim (dec_lt j i) [
    | yes m ↦ later_apart i j a b q p l k m e g
    | no m ↦ elim (dec_lt i j) [
      | yes n ↦ Disjoint-sym _ _ _ _ (later_apart j i b a p q k l n g e)
      | no n ↦
          let same : i ≡ j = omega (arith, m, n) in
          let one : q ≡ p = some-injective q p (sym e ∙ ap (get_elem? queues) same ∙ g) in
          subst
            (λ x.
              Disjoint (queue_range_base q a) (queue_range_length q a) (queue_range_base x b)
                (queue_range_length x b))
            one (within_one same)
    ]
  ]
    where
      within_one :
          i ≡ j
          → Disjoint
              (queue_range_base q a)
              (queue_range_length q a)
              (queue_range_base q b)
              (queue_range_length q b)
      within_one same = elim (dec_lt b a) [
        | yes m ↦ own_apart i a b q l m e
        | no m ↦ Disjoint-sym _ _ _ _ (own_apart i b a q k (ground (arith, m, ne, same)) e)
      ]

  Queues-Sound : Regions [] regions → ChannelSound queues regions
  Queues-Sound r = record {
    regions_apart = Regions-Apart regions r;
    rings_within = λ i a q l e.
        let s = all_sound regions queues i q v e in
        range-Within regions _ _ (s.rights a l) (queue_range_small q a s.size);
    rings_apart = Queues-Apart;
    limits = λ i q e. let s = all_sound regions queues i q v e in (s.size, s.outstanding);
  }

model_parts :
    (channel : ChannelModel) (queues : List QueueModel) (regions : List Region)
    → channel_validate channel queues regions ≡ ok
    → Regions [] regions × (validate_queues [] 0 0 queues regions ≡ true)
unfolding channel_validate validate_channel_model
model_parts channel queues regions e = (ground (arith, e), ground (arith, e))

-- In a channel that is accepted, different regions whose lengths fit their type have different
-- identifiers and no address in common; each ring of each queue lies in a region with the rights to
-- read and to write; no two rings, of one queue or of two, have an address in common; and each queue
-- has at most 2^15 descriptors, and a limit of at most its size.
pub channel_validate_sound :
    (channel : ChannelModel) (queues : List QueueModel) (regions : List Region)
    → channel_validate channel queues regions ≡ ok
    → ChannelSound queues regions
channel_validate_sound channel queues regions e =
    let (r, v) = model_parts channel queues regions e in Queues-Sound regions queues (0, 0, v) r

-- ===== src/Closure/Seal/Balance.antt =====
-- The bytes that sealing takes from the allocator and gives back.
use kobox.Prelude.{
  ◌+◌, ◌*◌, ◌≡◌, refl, Option, none, some, List, length, arith, ◌∙◌, Bool-cases, inl, inr, ltb, ◌/◌,
  u64_max,
}
use kobox.Status.{Status, ok}
use kobox.Allocator.{Heap, allocate, deallocate}
use kobox.Closure.{Storage, Closure}
use kobox.Closure.Release.{destroy}
use kobox.Closure.Sort.{storage_sort}
use kobox.Closure.Sort.Canonical.{IsCanonical}
use kobox.Closure.Clone.Balance.{held, copied_storage, CloneOutcome, clone-CloneOutcome}
use kobox.Closure.Builder.{Builder}
use kobox.Closure.NodeMap.{Entry, entry_size, build_node_map}
use kobox.Closure.Graph.Balance.{live-validate_graph}
use kobox.Closure.Seal.{validate_with, validate_rest, validate_storage, seal_valid, seal}

-- A map that is built is accounted for.
abbrev Mapped : Storage → Heap → Status × List Entry × Heap → Type 0
Mapped s h (ok, map, h') = h'.live ≡ h.live + length s.artifacts.items * entry_size
Mapped s h (error, map, h') = h'.live ≡ h.live

build_node_map-Mapped : (s : Storage) (h : Heap) → Mapped s h (build_node_map s h)
unfolding build_node_map allocate
build_node_map-Mapped s h =
    let n = length s.artifacts.items in
    elim (Bool-cases (ltb (u64_max / entry_size) n)) [
      | inl y ↦ rw y refl
      | inr fits ↦ elim (Bool-cases (h.grants h.calls (n * entry_size))) [
        | inl y ↦ rw (fits, y) refl
        | inr n ↦ rw (fits, n) refl
      ]
    ]

live-validate_with :
    (s : Storage) (h : Heap) (m : Status × List Entry × Heap)
    → Mapped s h m
    → (validate_with s m).1.live ≡ h.live
unfolding validate_with deallocate
live-validate_with s h (ok, map, h') e = omega (arith, live-validate_graph s map h', e)
live-validate_with s h (error, map, h') e = e

live-validate_rest :
    (s : Storage) (h : Heap) (status : Status) → (validate_rest s h status).1.live ≡ h.live
unfolding validate_rest
live-validate_rest s h ok = live-validate_with s h (build_node_map s h) (build_node_map-Mapped s h)
live-validate_rest s h error = refl

live-validate_storage : (s : Storage) (h : Heap) → (validate_storage s h).1.live ≡ h.live
unfolding validate_storage
live-validate_storage s h = live-validate_rest s h _

-- A closure that is returned is the builder's sorted storage with no room to grow, is in canonical
-- order, holds all that was taken, and gives it back; else nothing is returned and nothing stays allocated.
abbrev pub SealOutcome : Builder → Heap → Status × Option Closure × Heap → Type 0
SealOutcome b h (ok, some c, h') =
    (c.storage ≡ storage_sort (copied_storage b.storage))
    × IsCanonical c.storage
    × (h'.live ≡ h.live + held (some c))
    × ((destroy (some c) h').live ≡ h.live)
SealOutcome b h (ok, none, h') = ⊥
SealOutcome b h (error, c, h') = (c ≡ none) × (h'.live ≡ h.live)

moved :
    (b : Builder) (h g : Heap) (o : Status × Option Closure × Heap)
    → g.live ≡ h.live
    → CloneOutcome (record { storage = b.storage }) g o
    → SealOutcome b h o
moved b h g (ok, some c, h') e v = (v.0, v.1, omega (arith, v.2, e), v.3 ∙ e)
moved b h g (ok, none, h') e v = absurd v
moved b h g (error, c, h') e v = (v.0, v.1 ∙ e)

seal_valid-SealOutcome :
    (b : Builder) (h : Heap) (r : Status × Heap)
    → r.1.live ≡ h.live
    → SealOutcome b h (seal_valid b.storage r)
unfolding seal_valid
seal_valid-SealOutcome b h (ok, g) e =
    moved b h g _ e (clone-CloneOutcome (record { storage = b.storage }) g)
seal_valid-SealOutcome b h (error, g) e = (refl, e)

-- Sealing either returns the builder's records, sorted, in arrays with no room to grow and in the
-- order that is documented (artifacts by node ID, dependencies by consumer and provider ID, exports
-- and imports by owner and name, then by kind or provider, resources by slot ID, bindings by slot and
-- node ID), and then the bytes taken are those that its destruction gives back, or fails with no
-- closure returned and as many bytes allocated as before.
pub seal-SealOutcome : (b : Builder) (h : Heap) → SealOutcome b h (seal (some b) h)
unfolding seal
seal-SealOutcome b h =
    seal_valid-SealOutcome b h (validate_storage b.storage h) (live-validate_storage b.storage h)

-- ===== src/Closure/Builder.antt =====
-- Building a closure: `kb2_reserve` and the builder's operations of src/closure.c. The builder
-- exists (a NULL one is turned away with KB2_STATUS_INVALID_ARGUMENT); any other NULL is `none`. A
-- name is the bytes at its pointer, as many as its length says.
pub mod Names
pub mod Add
pub mod Calls
pub mod Room
pub mod Built
pub mod Ledger
pub mod Examples
use kobox.Prelude.{
  ℕ, ◌*◌, ◌/◌, Bool, true, false, List, [], ◌∷◌, ◌++◌, Option, none, some, ◌||◌, not, ltb, leb,
  ◌==◌, if◌then◌else◌, take, u64, u64_max,
}
use kobox.Status.{
  Status, ok, invalid_argument, invalid_configuration, no_memory, resource_exhausted,
}
use kobox.Digest.{digest_size, digest_is_zero}
use kobox.Allocator.{Heap, allocate, deallocate}
use kobox.Closure.{Array, count, Storage, Bytes, empty_storage, builder_size}
use kobox.Closure.Release.{storage_release}

-- `struct kb2_closure_builder`, less the allocator's pointers.
pub record Builder : Type 0 where
  pub storage : Storage

-- The capacity that `kb2_reserve` asks for.
unfoldable pub grown : ℕ → ℕ → ℕ
grown capacity maximum =
    let doubled = if capacity == 0 then 8 else u64 (capacity * 2) in
    if ltb doubled capacity || ltb maximum doubled then maximum else doubled

-- Room for one item more. The items that are there are copied.
unfoldable pub reserve : {A : Type 0} → Array A → ℕ → ℕ → Heap → Status × Array A × Heap
unfolding grown allocate deallocate
reserve items item_size maximum h =
    if ltb (count items) items.capacity
    then (ok, items, h)
    else if leb maximum (count items)
    then (resource_exhausted, items, h)
    else if ltb (u64_max / item_size) (grown items.capacity maximum)
    then (resource_exhausted, items, h)
    else let (granted, h') = allocate h (grown items.capacity maximum * item_size) in
      if granted
      then (
        ok,
        record items { capacity = grown items.capacity maximum },
        if items.capacity == 0 then h' else deallocate h' (items.capacity * item_size),
      )
      else (no_memory, items, h')

-- The new record is the next item, where there is room for it.
unfoldable pub put_last : {A : Type 0} → A → Status × Array A × Heap → Status × Array A × Heap
put_last x (ok, items, h) = (ok, record items { items = items.items ++ (x ∷ []) }, h)
put_last x (error, items, h) = (error, items, h)

unfoldable pub append : {A : Type 0} → Array A → A → ℕ → ℕ → Heap → Status × Array A × Heap
append items x item_size maximum h = put_last x (reserve items item_size maximum h)

unfoldable pub create : Option Bytes → ℕ → Heap → Status × Option Builder × Heap
create none size h = (invalid_argument, none, h)
create (some digest) size h =
    if not (size == digest_size)
    then (invalid_argument, none, h)
    else if digest_is_zero digest
    then (invalid_configuration, none, h)
    else let (granted, h') = allocate h builder_size in
      if granted
      then (ok, some (record { storage = empty_storage (take digest_size digest) }), h')
      else (no_memory, none, h')

unfoldable pub destroy : Option Builder → Heap → Heap
destroy none h = h
destroy (some b) h = deallocate (storage_release b.storage h) builder_size

-- ===== src/Closure/Clone.antt =====
-- Copying a closure: `kb2_clone_array` and `kb2_closure_clone` of src/closure.c, and what the
-- controller reads from a closure. NULL is `none`; pointers for results are never NULL here.
pub mod Balance
pub mod Contents
use kobox.Prelude.{
  ℕ, ◌*◌, ◌/◌, Bool, List, [], ◌∷◌, Option, none, some, length, ltb, ◌==◌, not, if◌then◌else◌,
  u64_max, bit_and,
}
use kobox.Status.{Status, ok, invalid_argument, no_memory, resource_exhausted}
use kobox.Allocator.{Heap, allocate}
use kobox.Closure.{
  Array, null, Resource, Storage, Closure, Bytes, empty_storage, artifact_size, dependency_size,
  export_size, import_size, resource_size, resource_binding_size, closure_size,
}
use kobox.Closure.Release.{destroy}
use kobox.Closure.Sort.{storage_sort}

-- The new array is `null` unless the status is `ok`.
unfoldable pub clone_array : {A : Type 0} → List A → ℕ → Heap → Status × Array A × Heap
clone_array source item_size h =
    if length source == 0
    then (ok, null, h)
    else if ltb (u64_max / item_size) (length source)
    then (resource_exhausted, null, h)
    else let (granted, h') = allocate h (length source * item_size) in
      if granted
      then (ok, record { items = source; capacity = length source }, h')
      else (no_memory, null, h')

-- The copy under construction, or the status and the heap after its destruction.
pub data Attempt : Type 0 where
  made : Storage → Heap → Attempt
  failed : Status → Heap → Attempt

infixl 5 ◌>>=◌
abbrev pub ◌>>=◌ : Attempt → (Storage → Heap → Attempt) → Attempt
made s h >>= f = f s h
failed status h >>= f = failed status h

-- KB2_CLONE_FIELD: the field is put in, or the copy so far is destroyed.
unfoldable pub put_field :
    {A : Type 0} → (Array A → Storage) → Storage → Status × Array A × Heap → Attempt
put_field put s (ok, items, h) = made (put items) h
put_field put s (error, items, h) = failed error (destroy (some (record { storage = s })) h)

unfoldable pub clone_field :
    {A : Type 0} → List A → ℕ → (Array A → Storage) → Storage → Heap → Attempt
clone_field source item_size put s h = put_field put s (clone_array source item_size h)

unfoldable pub clone_fields : Storage → Storage → Heap → Attempt
clone_fields source s0 h0 =
    clone_field source.artifacts.items artifact_size (λ a. record s0 { artifacts = a }) s0 h0
    >>= (λ s h.
        clone_field source.dependencies.items dependency_size (λ a. record s { dependencies = a }) s
          h)
    >>= (λ s h. clone_field source.exports.items export_size (λ a. record s { exports = a }) s h)
    >>= (λ s h. clone_field source.imports.items import_size (λ a. record s { imports = a }) s h)
    >>= (λ s h.
        clone_field source.resources.items resource_size (λ a. record s { resources = a }) s h)
    >>= (λ s h.
        clone_field source.resource_bindings.items resource_binding_size
          (λ a. record s { resource_bindings = a }) s h)

abbrev pub finish_clone : Attempt → Status × Option Closure × Heap
finish_clone (made s h) = (ok, some (record { storage = storage_sort s }), h)
finish_clone (failed status h) = (status, none, h)

unfoldable pub clone : Option Closure → Heap → Status × Option Closure × Heap
clone none h = (invalid_argument, none, h)
clone (some source) h =
    let (granted, h') = allocate h closure_size in
    if granted
    then finish_clone
        (clone_fields source.storage (empty_storage source.storage.manifest_digest) h')
    else (no_memory, none, h')

-- KB2_RESOURCE_RESET_REQUIRED and KB2_LAUNCH_RESET_REQUIRED
abbrev pub resource_reset_required : ℕ
resource_reset_required = 4

abbrev pub launch_reset_required : ℕ
launch_reset_required = 1

-- The loop of `kb2_closure_launch_flags`.
unfoldable pub flags_of : List Resource → ℕ
flags_of [] = 0
flags_of (r ∷ rs) =
    let rest = flags_of rs in
    if not (bit_and r.flags resource_reset_required == 0) then launch_reset_required else rest

unfoldable pub launch_flags : Option Closure → ℕ
unfolding flags_of
launch_flags none = 0
launch_flags (some c) = flags_of c.storage.resources.items

unfoldable pub copy_manifest_digest : Option Closure → ℕ → Status × Option Bytes
copy_manifest_digest none size = (invalid_argument, none)
copy_manifest_digest (some c) size =
    if size == 32 then (ok, some c.storage.manifest_digest) else (invalid_argument, none)

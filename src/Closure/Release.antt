-- ===== src/Closure/Release.antt =====
-- Giving storage back: `kb2_release_array`, `kb2_storage_release` and `kb2_closure_destroy`
-- of src/closure.c.
use kobox.Prelude.{ℕ, ◌+◌, ◌*◌, Option, none, some, ◌==◌, if◌then◌else◌}
use kobox.Allocator.{Heap, deallocate}
use kobox.Closure.{
  Array, Storage, Closure, artifact_size, dependency_size, export_size, import_size, resource_size,
  resource_binding_size, closure_size,
}

unfoldable pub release_array : {A : Type 0} → Array A → ℕ → Heap → Heap
unfolding deallocate
release_array items item_size h =
    if items.capacity == 0 then h else deallocate h (items.capacity * item_size)

unfoldable pub storage_release : Storage → Heap → Heap
storage_release s h0 =
    let h1 = release_array s.artifacts artifact_size h0 in
    let h2 = release_array s.dependencies dependency_size h1 in
    let h3 = release_array s.exports export_size h2 in
    let h4 = release_array s.imports import_size h3 in
    let h5 = release_array s.resources resource_size h4 in
    release_array s.resource_bindings resource_binding_size h5

unfoldable pub destroy : Option Closure → Heap → Heap
destroy none h = h
destroy (some c) h = deallocate (storage_release c.storage h) closure_size

-- The bytes that a storage's arrays hold.
abbrev pub storage_bytes : Storage → ℕ
storage_bytes s =
    s.artifacts.capacity * artifact_size
    + s.dependencies.capacity * dependency_size
    + s.exports.capacity * export_size
    + s.imports.capacity * import_size
    + s.resources.capacity * resource_size
    + s.resource_bindings.capacity * resource_binding_size

-- ===== src/Closure/Builder/Ledger.antt =====
-- The bytes that a builder holds, from its creation to its destruction.
use kobox.Prelude.{ℕ, ◌+◌, ◌≡◌, Bool, List, [], ◌∷◌, Option, none, some, arith, take}
use kobox.Digest.{digest_size}
use kobox.Status.{ok}
use kobox.Allocator.{Heap, allocate, deallocate}
use kobox.Closure.{
  Bytes, Artifact, Resource, builder_size, artifact_size, dependency_size, export_size, import_size,
  resource_size, resource_binding_size,
}
use kobox.Closure.Release.{storage_bytes}
use kobox.Closure.Clone.Balance.{live-storage_release}
use kobox.Closure.Builder.{Builder, create, destroy}
use kobox.Closure.Builder.Add.{
  change, add_artifact, set_lifecycle, set_native_lifecycle, mark_root, add_dependency, add_export,
  add_import, add_resource, bind_resource, new_artifact, name_bytes, max_artifacts,
  max_dependencies, max_symbols, max_resources, max_resource_bindings,
}
use kobox.Closure.Builder.Calls.{Call, step, run}
use kobox.Closure.Builder.Room.{append-Pays}

-- The ledger stands at `base`, the builder and its arrays on top.
abbrev Owns : ℕ → Builder → Heap → Type 0
Owns base b h = h.live ≡ base + builder_size + storage_bytes b.storage

add_artifact-Owns :
    (base : ℕ) (b : Builder) (node_id kind : ℕ) (digest : Option Bytes) (size : ℕ)
    (name : Option Bytes) (h : Heap)
    → Owns base b h
    → Owns base
        (add_artifact b node_id kind digest size name h).1
        (add_artifact b node_id kind digest size name h).2
unfolding add_artifact
add_artifact-Owns base b node_id kind none size name h o = o
add_artifact-Owns base b node_id kind (some digest) size name h o = ground (
  arith,
  append-Pays b.storage.artifacts (new_artifact node_id kind digest (name_bytes name)) artifact_size
      max_artifacts h (omega arith),
)

add_dependency-Owns :
    (base : ℕ) (b : Builder) (consumer provider : ℕ) (h : Heap)
    → Owns base b h
    → Owns base (add_dependency b consumer provider h).1 (add_dependency b consumer provider h).2
unfolding add_dependency
add_dependency-Owns base b consumer provider h o = ground (
  arith,
  append-Pays b.storage.dependencies
      (record { consumer_node_id = consumer; provider_node_id = provider }) dependency_size
      max_dependencies h (omega arith),
)

add_export-Owns :
    (base : ℕ) (b : Builder) (node_id : ℕ) (symbol : Option Bytes) (kind : ℕ) (h : Heap)
    → Owns base b h
    → Owns base (add_export b node_id symbol kind h).1 (add_export b node_id symbol kind h).2
unfolding add_export
add_export-Owns base b node_id symbol kind h o = ground (
  arith,
  append-Pays b.storage.exports
      (record { symbol = name_bytes symbol; node_id = node_id; kind = kind }) export_size
      max_symbols h (omega arith),
)

add_import-Owns :
    (base : ℕ) (b : Builder) (consumer : ℕ) (consumer_symbol : Option Bytes) (provider : ℕ)
    (provider_symbol : Option Bytes) (kind flags : ℕ) (h : Heap)
    → Owns base b h
    → let r = add_import b consumer consumer_symbol provider provider_symbol kind flags h in
      Owns base r.1 r.2
unfolding add_import
add_import-Owns base b consumer consumer_symbol provider provider_symbol kind flags h o = ground (
  arith,
  append-Pays b.storage.imports
      (record {
        consumer_symbol = name_bytes consumer_symbol;
        provider_symbol = name_bytes provider_symbol;
        consumer_node_id = consumer;
        provider_node_id = provider;
        kind = kind;
        flags = flags;
      })
      import_size max_symbols h (omega arith),
)

add_resource-Owns :
    (base : ℕ) (b : Builder) (r : Resource) (has_digest : Bool) (size : ℕ) (h : Heap)
    → Owns base b h
    → Owns base (add_resource b r has_digest size h).1 (add_resource b r has_digest size h).2
unfolding add_resource
add_resource-Owns base b r has_digest size h o = ground (
  arith,
  append-Pays b.storage.resources
      (record r { interface_schema_digest = take digest_size r.interface_schema_digest })
      resource_size max_resources h (omega arith),
)

bind_resource-Owns :
    (base : ℕ) (b : Builder) (slot_id node_id : ℕ) (h : Heap)
    → Owns base b h
    → Owns base (bind_resource b slot_id node_id h).1 (bind_resource b slot_id node_id h).2
unfolding bind_resource
bind_resource-Owns base b slot_id node_id h o = ground (
  arith,
  append-Pays b.storage.resource_bindings (record { slot_id = slot_id; node_id = node_id })
      resource_binding_size max_resource_bindings h (omega arith),
)

change-Owns :
    (base : ℕ) (b : Builder) (node_id : ℕ) (locked : Artifact → Bool) (f : Artifact → Artifact)
    (o : Option Artifact) (h : Heap)
    → Owns base b h
    → Owns base (change b node_id locked f o).1 h
unfolding change
change-Owns base b node_id locked f none h w = w
change-Owns base b node_id locked f (some r) h w = ground arith

set_lifecycle-Owns :
    (base : ℕ) (b : Builder) (node_id : ℕ) (init quiesce cleanup : Option Bytes) (h : Heap)
    → Owns base b h
    → Owns base (set_lifecycle b node_id init quiesce cleanup).1 h
unfolding set_lifecycle change
set_lifecycle-Owns base b node_id init quiesce cleanup h w = ground arith

set_native_lifecycle-Owns :
    (base : ℕ) (b : Builder) (node_id : ℕ) (h : Heap)
    → Owns base b h
    → Owns base (set_native_lifecycle b node_id).1 h
unfolding set_native_lifecycle change
set_native_lifecycle-Owns base b node_id h w = ground arith

mark_root-Owns :
    (base : ℕ) (b : Builder) (node_id : ℕ) (h : Heap)
    → Owns base b h
    → Owns base (mark_root b node_id).1 h
unfolding mark_root change
mark_root-Owns base b node_id h w = ground arith

step-Owns :
    (base : ℕ) (b : Builder) (k : Call) (h : Heap)
    → Owns base b h
    → Owns base (step b k h).1 (step b k h).2
unfolding step
step-Owns base b (Call.add_artifact node_id kind digest size name) h w =
    add_artifact-Owns base b node_id kind digest size name h w
step-Owns base b (Call.set_lifecycle node_id init quiesce cleanup) h w =
    set_lifecycle-Owns base b node_id init quiesce cleanup h w
step-Owns base b (Call.set_native_lifecycle node_id) h w =
    set_native_lifecycle-Owns base b node_id h w
step-Owns base b (Call.mark_root node_id) h w = mark_root-Owns base b node_id h w
step-Owns base b (Call.add_dependency consumer provider) h w =
    add_dependency-Owns base b consumer provider h w
step-Owns base b (Call.add_export node_id symbol kind) h w =
    add_export-Owns base b node_id symbol kind h w
step-Owns base b (Call.add_import consumer consumer_symbol provider provider_symbol kind flags) h
      w =
    add_import-Owns base b consumer consumer_symbol provider provider_symbol kind flags h w
step-Owns base b (Call.add_resource r has_digest size) h w =
    add_resource-Owns base b r has_digest size h w
step-Owns base b (Call.bind_resource slot_id node_id) h w =
    bind_resource-Owns base b slot_id node_id h w

run-Owns :
    (base : ℕ) (b : Builder) (h : Heap) (ks : List Call)
    → Owns base b h
    → Owns base (run b h ks).0 (run b h ks).1
unfolding run
run-Owns base b h [] w = w
run-Owns base b h (k ∷ ks) w =
    let (status, b', h') = step b k h in run-Owns base b' h' ks (step-Owns base b k h w)

created :
    (h h' : Heap) (digest : Option Bytes) (size : ℕ) (b : Builder)
    → create digest size h ≡ (ok, some b, h')
    → Owns h.live b h'
unfolding create allocate
created h h' none size b e = cc
created h h' (some digest) size b e = ground arith

-- Nothing leaks: whatever calls were made on a builder, and whatever of them the allocator refused,
-- destroying the builder brings the ledger back to where it stood before the creation.
pub builder_balance :
    (h h' : Heap) (digest : Option Bytes) (size : ℕ) (b : Builder) (ks : List Call)
    → create digest size h ≡ (ok, some b, h')
    → (destroy (some (run b h' ks).0) (run b h' ks).1).live ≡ h.live
unfolding destroy deallocate
builder_balance h h' digest size b ks e =
    let (d, after) = run b h' ks in
    omega (
      arith,
      live-storage_release d.storage after,
      run-Owns h.live b h' ks (created h h' digest size b e),
    )

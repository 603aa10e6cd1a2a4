-- ===== src/Closure/Builder/Add.antt =====
-- The builder's operations of src/closure.c that add and mark records.
use kobox.Prelude.{
  ℕ, ◌-◌, ◌^◌, Bool, true, false, List, [], ◌∷◌, Option, none, some, ◌&&◌, ◌||◌, not, ltb, ◌==◌,
  bit_and, bytes_eq, if◌then◌else◌, take, u64_max,
}
use kobox.Status.{Status, ok, invalid_argument, invalid_configuration}
use kobox.Digest.{digest_size, digest_is_zero}
use kobox.Allocator.{Heap}
use kobox.Closure.{
  Bytes, Array, Artifact, Dependency, Export, Import, Resource, ResourceBinding, relocatable_module,
  artifact_size, dependency_size, export_size, import_size, resource_size, resource_binding_size,
}
use kobox.Closure.Builder.{Builder, append}
use kobox.Closure.Builder.Names.{
  name_valid, artifact_kind_valid, symbol_kind_valid, resource_type_valid, known_resource_rights,
}

abbrev pub max_artifacts : ℕ
max_artifacts = 4096

abbrev pub max_dependencies : ℕ
max_dependencies = 65536

abbrev pub max_symbols : ℕ
max_symbols = 65536

abbrev pub max_resources : ℕ
max_resources = 16384

abbrev pub max_resource_bindings : ℕ
max_resource_bindings = 65536

-- The bytes of a name that has been found valid.
abbrev pub name_bytes : Option Bytes → Bytes
name_bytes none = []
name_bytes (some name) = name

-- A record that is there already makes a loop over the array return.
unfoldable pub any {ℓ} : {A : Type ℓ} → (A → Bool) → List A → Bool
any p [] = false
any p (x ∷ xs) = p x || any p xs

abbrev pub with_artifacts : Builder → Status × Array Artifact × Heap → Status × Builder × Heap
with_artifacts b (status, items, h) =
    (status, record { storage = record (b.storage) { artifacts = items } }, h)

-- The record with memset's zeroes.
abbrev pub new_artifact : ℕ → ℕ → Bytes → Bytes → Artifact
new_artifact node_id kind digest name = record {
  content_digest = take digest_size digest;
  namespace_name = name;
  init_symbol = [];
  quiesce_symbol = [];
  cleanup_symbol = [];
  node_id = node_id;
  kind = kind;
  lifecycle_set = false;
  native_lifecycle = false;
  is_root = false;
}

unfoldable pub add_artifact :
    Builder → ℕ → ℕ → Option Bytes → ℕ → Option Bytes → Heap → Status × Builder × Heap
add_artifact b node_id kind none size name h = (invalid_argument, b, h)
add_artifact b node_id kind (some digest) size name h =
    if node_id == 0
      || (not (artifact_kind_valid kind) || (not (size == digest_size) || not (name_valid name)))
    then (invalid_argument, b, h)
    else if digest_is_zero digest
    then (invalid_configuration, b, h)
    else if any
        (λ (r : Artifact). r.node_id == node_id || bytes_eq r.namespace_name (name_bytes name))
        b.storage.artifacts.items
    then (invalid_configuration, b, h)
    else with_artifacts b (
        append b.storage.artifacts (new_artifact node_id kind digest (name_bytes name))
          artifact_size max_artifacts h)

-- `kb2_builder_find_artifact`
unfoldable pub find_artifact : List Artifact → ℕ → Option Artifact
find_artifact [] node_id = none
find_artifact (r ∷ rs) node_id = if r.node_id == node_id then some r else find_artifact rs node_id

-- A write through the pointer that was found.
unfoldable pub modify_artifact : (Artifact → Artifact) → List Artifact → ℕ → List Artifact
modify_artifact f [] node_id = []
modify_artifact f (r ∷ rs) node_id =
    if r.node_id == node_id then f r ∷ rs else r ∷ modify_artifact f rs node_id

abbrev pub modified : Builder → ℕ → (Artifact → Artifact) → Builder
modified b node_id f = record {
  storage = record (b.storage) {
    artifacts = record (b.storage.artifacts) {
      items = modify_artifact f b.storage.artifacts.items node_id;
    };
  };
}

-- A change that is refused where no artifact is found, or where the one found is locked.
unfoldable pub change :
    Builder → ℕ → (Artifact → Bool) → (Artifact → Artifact) → Option Artifact → Status × Builder
change b node_id locked f none = (invalid_configuration, b)
change b node_id locked f (some r) =
    if locked r then (invalid_configuration, b) else (ok, modified b node_id f)

unfoldable pub set_lifecycle :
    Builder → ℕ → Option Bytes → Option Bytes → Option Bytes → Status × Builder
set_lifecycle b node_id init quiesce cleanup =
    if node_id == 0
      || (not (name_valid init) || (not (name_valid quiesce) || not (name_valid cleanup)))
    then (invalid_argument, b)
    else change b node_id (λ r. r.lifecycle_set)
        (λ r. record r {
          init_symbol = name_bytes init;
          quiesce_symbol = name_bytes quiesce;
          cleanup_symbol = name_bytes cleanup;
          lifecycle_set = true;
        })
        (find_artifact b.storage.artifacts.items node_id)

unfoldable pub set_native_lifecycle : Builder → ℕ → Status × Builder
set_native_lifecycle b node_id =
    if node_id == 0
    then (invalid_argument, b)
    else change b node_id (λ r. r.lifecycle_set)
        (λ r. record r { lifecycle_set = true; native_lifecycle = true })
        (find_artifact b.storage.artifacts.items node_id)

unfoldable pub mark_root : Builder → ℕ → Status × Builder
mark_root b node_id =
    if node_id == 0
    then (invalid_argument, b)
    else change b node_id (λ r. not (r.kind == relocatable_module) || r.is_root)
        (λ r. record r { is_root = true }) (find_artifact b.storage.artifacts.items node_id)

-- `kb2_has_dependency`
unfoldable pub has_dependency : List Dependency → ℕ → ℕ → Bool
unfolding any
has_dependency ds consumer provider =
    any (λ (r : Dependency). r.consumer_node_id == consumer && r.provider_node_id == provider) ds

abbrev pub with_dependencies : Builder → Status × Array Dependency × Heap → Status × Builder × Heap
with_dependencies b (status, items, h) =
    (status, record { storage = record (b.storage) { dependencies = items } }, h)

unfoldable pub add_dependency : Builder → ℕ → ℕ → Heap → Status × Builder × Heap
add_dependency b consumer provider h =
    if consumer == 0 || provider == 0
    then (invalid_argument, b, h)
    else if consumer == provider || has_dependency b.storage.dependencies.items consumer provider
    then (invalid_configuration, b, h)
    else with_dependencies b (
        append b.storage.dependencies
          (record { consumer_node_id = consumer; provider_node_id = provider }) dependency_size
          max_dependencies h)

abbrev pub with_exports : Builder → Status × Array Export × Heap → Status × Builder × Heap
with_exports b (status, items, h) =
    (status, record { storage = record (b.storage) { exports = items } }, h)

unfoldable pub add_export : Builder → ℕ → Option Bytes → ℕ → Heap → Status × Builder × Heap
add_export b node_id symbol kind h =
    if node_id == 0 || (not (name_valid symbol) || not (symbol_kind_valid kind))
    then (invalid_argument, b, h)
    else if any (λ (r : Export). r.node_id == node_id && bytes_eq r.symbol (name_bytes symbol))
        b.storage.exports.items
    then (invalid_configuration, b, h)
    else with_exports b (
        append b.storage.exports
          (record { symbol = name_bytes symbol; node_id = node_id; kind = kind }) export_size
          max_symbols h)

abbrev pub with_imports : Builder → Status × Array Import × Heap → Status × Builder × Heap
with_imports b (status, items, h) =
    (status, record { storage = record (b.storage) { imports = items } }, h)

-- `flags & ~KB2_KNOWN_IMPORT_FLAGS` over 32 bits.
abbrev pub unknown_import_flags : ℕ → ℕ
unknown_import_flags flags = bit_and flags (2 ^ 32 - 1 - 1)

unfoldable pub add_import :
    Builder → ℕ → Option Bytes → ℕ → Option Bytes → ℕ → ℕ → Heap → Status × Builder × Heap
add_import b consumer consumer_symbol provider provider_symbol kind flags h =
    if consumer == 0
      || (not (name_valid consumer_symbol)
          || (not (name_valid provider_symbol)
              || (not (symbol_kind_valid kind) || not (unknown_import_flags flags == 0))))
    then (invalid_argument, b, h)
    else if any
        (λ (r : Import).
          r.consumer_node_id == consumer && bytes_eq r.consumer_symbol (name_bytes consumer_symbol))
        b.storage.imports.items
    then (invalid_configuration, b, h)
    else with_imports b (
        append b.storage.imports
          (record {
            consumer_symbol = name_bytes consumer_symbol;
            provider_symbol = name_bytes provider_symbol;
            consumer_node_id = consumer;
            provider_node_id = provider;
            kind = kind;
            flags = flags;
          })
          import_size max_symbols h)

abbrev pub with_resources : Builder → Status × Array Resource × Heap → Status × Builder × Heap
with_resources b (status, items, h) =
    (status, record { storage = record (b.storage) { resources = items } }, h)

-- `flags & ~KB2_KNOWN_RESOURCE_FLAGS` over 32 bits.
abbrev pub unknown_resource_flags : ℕ → ℕ
unknown_resource_flags flags = bit_and flags (2 ^ 32 - 1 - 7)

-- KB2_RESOURCE_REQUIRED
abbrev pub resource_required : ℕ
resource_required = 1

-- `rights & ~allowed` over 64 bits.
abbrev pub rights_beyond : ℕ → ℕ → ℕ
rights_beyond rights allowed = bit_and rights (u64_max - allowed)

-- Whether the counts or the rights make no sense.
unfoldable pub resource_invalid : Resource → Bool
resource_invalid r =
    r.maximum_count == 0
    || (ltb r.maximum_count r.minimum_count
        || (r.maximum_rights == 0
            || (not (rights_beyond r.maximum_rights (known_resource_rights r.type) == 0)
                || (not (rights_beyond r.required_rights r.maximum_rights == 0)
                    || (not (bit_and r.flags resource_required == 0) && r.minimum_count == 0)))))

-- The arguments of `kb2_closure_builder_add_resource` come as the record that they make up, with
-- the whole digest and the digest's size.
unfoldable pub add_resource : Builder → Resource → Bool → ℕ → Heap → Status × Builder × Heap
add_resource b r has_digest size h =
    if r.slot_id == 0
      || (not (resource_type_valid r.type)
          || (not has_digest
              || (not (size == digest_size) || not (unknown_resource_flags r.flags == 0))))
    then (invalid_argument, b, h)
    else if digest_is_zero r.interface_schema_digest
    then (invalid_configuration, b, h)
    else if resource_invalid r
    then (invalid_configuration, b, h)
    else if any (λ (s : Resource). s.slot_id == r.slot_id) b.storage.resources.items
    then (invalid_configuration, b, h)
    else with_resources b (
        append b.storage.resources
          (record r { interface_schema_digest = take digest_size r.interface_schema_digest })
          resource_size max_resources h)

abbrev pub with_resource_bindings :
    Builder → Status × Array ResourceBinding × Heap → Status × Builder × Heap
with_resource_bindings b (status, items, h) =
    (status, record { storage = record (b.storage) { resource_bindings = items } }, h)

unfoldable pub bind_resource : Builder → ℕ → ℕ → Heap → Status × Builder × Heap
bind_resource b slot_id node_id h =
    if slot_id == 0 || node_id == 0
    then (invalid_argument, b, h)
    else if any (λ (r : ResourceBinding). r.slot_id == slot_id && r.node_id == node_id)
        b.storage.resource_bindings.items
    then (invalid_configuration, b, h)
    else with_resource_bindings b (
        append b.storage.resource_bindings (record { slot_id = slot_id; node_id = node_id })
          resource_binding_size max_resource_bindings h)

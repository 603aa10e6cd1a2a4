-- ===== src/Closure.antt =====
-- The module closure: the records of src/closure_internal.h.
-- A pointer with its count and capacity is an `Array`: the pointer is NULL while the capacity is 0,
-- and the count is the length of `items`. Names are the bytes before the terminating NUL.
pub mod Clone
pub mod Builder
pub mod Sort
pub mod Release
pub mod NodeMap
pub mod Validate
pub mod Graph
pub mod Seal
use kobox.Prelude.{ℕ, Bool, List, [], length}

abbrev pub Bytes : Type 0
Bytes = List ℕ

-- `kb2_artifact_kind_t`
abbrev pub shared_provider : ℕ
shared_provider = 0

abbrev pub relocatable_module : ℕ
relocatable_module = 1

-- `struct kb2_closure_artifact_record`
pub record Artifact : Type 0 where
  pub content_digest : Bytes
  pub namespace_name : Bytes
  pub init_symbol : Bytes
  pub quiesce_symbol : Bytes
  pub cleanup_symbol : Bytes
  pub node_id : ℕ
  pub kind : ℕ
  pub lifecycle_set : Bool
  pub native_lifecycle : Bool
  pub is_root : Bool

-- `struct kb2_closure_dependency_record`
pub record Dependency : Type 0 where
  pub consumer_node_id : ℕ
  pub provider_node_id : ℕ

-- `struct kb2_closure_export_record`
pub record Export : Type 0 where
  pub symbol : Bytes
  pub node_id : ℕ
  pub kind : ℕ

-- `struct kb2_closure_import_record`
pub record Import : Type 0 where
  pub consumer_symbol : Bytes
  pub provider_symbol : Bytes
  pub consumer_node_id : ℕ
  pub provider_node_id : ℕ
  pub kind : ℕ
  pub flags : ℕ

-- `struct kb2_closure_resource_record`
pub record Resource : Type 0 where
  pub interface_schema_digest : Bytes
  pub required_rights : ℕ
  pub maximum_rights : ℕ
  pub slot_id : ℕ
  pub type : ℕ
  pub minimum_count : ℕ
  pub maximum_count : ℕ
  pub flags : ℕ

-- `struct kb2_closure_resource_binding_record`
pub record ResourceBinding : Type 0 where
  pub slot_id : ℕ
  pub node_id : ℕ

pub record Array (A : Type 0) : Type 0 where
  pub items : List A
  pub capacity : ℕ

abbrev pub count : {A : Type 0} → Array A → ℕ
count a = length a.items

abbrev pub null : {A : Type 0} → Array A
null = record { items = []; capacity = 0 }

-- `struct kb2_closure_storage`
pub record Storage : Type 0 where
  pub artifacts : Array Artifact
  pub dependencies : Array Dependency
  pub exports : Array Export
  pub imports : Array Import
  pub resources : Array Resource
  pub resource_bindings : Array ResourceBinding
  pub manifest_digest : Bytes

-- `struct kb2_closure`, less the allocator's pointers: the model has one allocator.
pub record Closure : Type 0 where
  pub storage : Storage

-- memset(storage, 0, …), then the digest.
abbrev pub empty_storage : Bytes → Storage
empty_storage digest = record {
  artifacts = null;
  dependencies = null;
  exports = null;
  imports = null;
  resources = null;
  resource_bindings = null;
  manifest_digest = digest;
}

-- `sizeof` of the records on a 64-bit target.
abbrev pub artifact_size : ℕ
artifact_size = 564

abbrev pub dependency_size : ℕ
dependency_size = 8

abbrev pub export_size : ℕ
export_size = 136

abbrev pub import_size : ℕ
import_size = 272

abbrev pub resource_size : ℕ
resource_size = 72

abbrev pub resource_binding_size : ℕ
resource_binding_size = 8

abbrev pub closure_size : ℕ
closure_size = 192

abbrev pub builder_size : ℕ
builder_size = 200

-- ===== src/Closure/Builder/Built/Kept.antt =====
-- Every call on a builder keeps its storage in order.
use kobox.Prelude.{
  ℕ, ◌≡◌, refl, Bool, true, false, List, [], ◌∷◌, ◌||◌, not, ◌==◌, Option, none, some, arith,
  Bool-cases, inl, inr, ◌∙◌, subst, length, take,
}
use kobox.Digest.{digest_size}
use kobox.Allocator.{Heap}
use kobox.Closure.{
  Bytes, Array, Artifact, Resource, artifact_size, dependency_size, export_size, import_size,
  resource_size, resource_binding_size, relocatable_module,
}
use kobox.Closure.Builder.{Builder}
use kobox.Closure.Builder.Names.{name_valid}
use kobox.Closure.Builder.Add.{
  any, find_artifact, modify_artifact, change, has_dependency, add_artifact, set_lifecycle,
  set_native_lifecycle, mark_root, add_dependency, add_export, add_import, add_resource,
  bind_resource, new_artifact, name_bytes, max_artifacts, max_dependencies, max_symbols,
  max_resources, max_resource_bindings, resource_invalid,
}
use kobox.Closure.Builder.Calls.{Call, step, run}
use kobox.Closure.Builder.Room.{IsBounded}
use kobox.Closure.Builder.Built.{
  Distinct, All, append-Table, artifact_clash, artifact_valid, dependency_clash, dependency_valid,
  export_clash, export_valid, import_clash, import_valid, resource_clash, resource_valid,
  binding_clash, binding_valid, IsBuilt,
}

name_valid-some :
    (name : Option Bytes) → name_valid name ≡ true → name_valid (some (name_bytes name)) ≡ true
unfolding name_valid
name_valid-some none v = v
name_valid-some (some name) v = v

add_artifact-IsBuilt :
    (b : Builder) (node_id kind : ℕ) (digest : Option Bytes) (size : ℕ) (name : Option Bytes)
    (h : Heap)
    → IsBuilt b.storage
    → IsBuilt (add_artifact b node_id kind digest size name h).1.storage
unfolding add_artifact
add_artifact-IsBuilt b node_id kind none size name h v = v
add_artifact-IsBuilt b node_id kind (some digest) size name h v = ground (
  arith,
  append-Table max_artifacts artifact_clash artifact_valid b.storage.artifacts
      (new_artifact node_id kind digest (name_bytes name)) artifact_size h (omega arith)
      v.artifacts,
  name_valid-some name,
)

add_dependency-IsBuilt :
    (b : Builder) (consumer provider : ℕ) (h : Heap)
    → IsBuilt b.storage
    → IsBuilt (add_dependency b consumer provider h).1.storage
unfolding add_dependency has_dependency
add_dependency-IsBuilt b consumer provider h v = ground (
  arith,
  append-Table max_dependencies dependency_clash dependency_valid b.storage.dependencies
      (record { consumer_node_id = consumer; provider_node_id = provider }) dependency_size h
      (omega arith) v.dependencies,
)

add_export-IsBuilt :
    (b : Builder) (node_id : ℕ) (symbol : Option Bytes) (kind : ℕ) (h : Heap)
    → IsBuilt b.storage
    → IsBuilt (add_export b node_id symbol kind h).1.storage
unfolding add_export
add_export-IsBuilt b node_id symbol kind h v = ground (
  arith,
  append-Table max_symbols export_clash export_valid b.storage.exports
      (record { symbol = name_bytes symbol; node_id = node_id; kind = kind }) export_size h
      (omega arith) v.exports,
  name_valid-some symbol,
)

add_import-IsBuilt :
    (b : Builder) (consumer : ℕ) (consumer_symbol : Option Bytes) (provider : ℕ)
    (provider_symbol : Option Bytes) (kind flags : ℕ) (h : Heap)
    → IsBuilt b.storage
    → IsBuilt
        (add_import b consumer consumer_symbol provider provider_symbol kind flags h).1.storage
unfolding add_import
add_import-IsBuilt b consumer consumer_symbol provider provider_symbol kind flags h v = ground (
  arith,
  append-Table max_symbols import_clash import_valid b.storage.imports
      (record {
        consumer_symbol = name_bytes consumer_symbol;
        provider_symbol = name_bytes provider_symbol;
        consumer_node_id = consumer;
        provider_node_id = provider;
        kind = kind;
        flags = flags;
      })
      import_size h (omega arith) v.imports,
  name_valid-some consumer_symbol,
  name_valid-some provider_symbol,
)

same_resource :
    (r : Resource) (digest : Bytes)
    → resource_invalid (record r { interface_schema_digest = digest }) ≡ resource_invalid r
unfolding resource_invalid
same_resource r digest = refl

add_resource-IsBuilt :
    (b : Builder) (r : Resource) (has_digest : Bool) (size : ℕ) (h : Heap)
    → IsBuilt b.storage
    → IsBuilt (add_resource b r has_digest size h).1.storage
unfolding add_resource
add_resource-IsBuilt b r has_digest size h v =
    let s : Resource = record r {
      interface_schema_digest = take digest_size r.interface_schema_digest;
    } in
    ground (
      arith,
      append-Table max_resources resource_clash resource_valid b.storage.resources s resource_size h
          (omega arith) v.resources,
      same_resource r (take digest_size r.interface_schema_digest),
    )

bind_resource-IsBuilt :
    (b : Builder) (slot_id node_id : ℕ) (h : Heap)
    → IsBuilt b.storage
    → IsBuilt (bind_resource b slot_id node_id h).1.storage
unfolding bind_resource
bind_resource-IsBuilt b slot_id node_id h v = ground (
  arith,
  append-Table max_resource_bindings binding_clash binding_valid b.storage.resource_bindings
      (record { slot_id = slot_id; node_id = node_id }) resource_binding_size h (omega arith)
      v.resource_bindings,
)

-- A change of an artifact that keeps its identifier and its name.
module _ (f : Artifact → Artifact)
    (left : (r s : Artifact) → artifact_clash (f r) s ≡ artifact_clash r s)
    (right : (r s : Artifact) → artifact_clash r (f s) ≡ artifact_clash r s) where
  any-modify_artifact :
      (r : Artifact) (xs : List Artifact) (node_id : ℕ)
      → any (λ y. artifact_clash r y) (modify_artifact f xs node_id)
        ≡ any (λ y. artifact_clash r y) xs
  unfolding any modify_artifact
  any-modify_artifact r [] node_id = refl
  any-modify_artifact r (x ∷ xs) node_id = elim (Bool-cases (x.node_id == node_id)) [
    | inl e ↦ rw (e, right r x)
    | inr e ↦ rw (e, any-modify_artifact r xs node_id)
  ]

  any-left :
      (r : Artifact) (xs : List Artifact)
      → any (λ y. artifact_clash (f r) y) xs ≡ any (λ y. artifact_clash r y) xs
  unfolding any
  any-left r [] = refl
  any-left r (x ∷ xs) = rw (left r x, any-left r xs)

  Distinct-modify_artifact :
      (xs : List Artifact) (node_id : ℕ)
      → Distinct artifact_clash xs
      → Distinct artifact_clash (modify_artifact f xs node_id)
  unfolding modify_artifact
  Distinct-modify_artifact [] node_id d = tt
  Distinct-modify_artifact (x ∷ xs) node_id d = elim (Bool-cases (x.node_id == node_id)) [
    | inl e ↦ rw e (any-left x xs ∙ d.0, d.1)
    | inr e ↦ rw e (any-modify_artifact x xs node_id ∙ d.0, Distinct-modify_artifact xs node_id d.1)
  ]

  found :
      (x r : Artifact) → some x ≡ some r → artifact_valid (f r) ≡ true → artifact_valid (f x) ≡ true
  found x r e v = let p : r ≡ x = cc in subst (λ y. artifact_valid (f y) ≡ true) p v

  All-modify_artifact :
      (xs : List Artifact) (node_id : ℕ) (r : Artifact)
      → find_artifact xs node_id ≡ some r
      → artifact_valid (f r) ≡ true
      → All artifact_valid xs
      → All artifact_valid (modify_artifact f xs node_id)
  unfolding modify_artifact find_artifact
  All-modify_artifact [] node_id r e v a = tt
  All-modify_artifact (x ∷ xs) node_id r e v a = elim (Bool-cases (x.node_id == node_id)) [
    | inl here ↦ rw here (found x r (rw (here) at e) v, a.1)
    | inr later ↦ rw later (a.0, All-modify_artifact xs node_id r (rw later at e) v a.1)
  ]

valid_of_found :
    (xs : List Artifact) (node_id : ℕ) (r : Artifact)
    → find_artifact xs node_id ≡ some r
    → All artifact_valid xs
    → artifact_valid r ≡ true
unfolding find_artifact
valid_of_found [] node_id r e a = cc
valid_of_found (x ∷ xs) node_id r e a = ground (arith, valid_of_found xs node_id r)

length-modify_artifact :
    (f : Artifact → Artifact) (xs : List Artifact) (node_id : ℕ)
    → length (modify_artifact f xs node_id) ≡ length xs
unfolding modify_artifact
length-modify_artifact f [] node_id = refl
length-modify_artifact f (x ∷ xs) node_id = ground (arith, length-modify_artifact f xs node_id)

modified-IsBounded :
    (f : Artifact → Artifact) (a : Array Artifact) (node_id : ℕ)
    → IsBounded max_artifacts a
    → IsBounded max_artifacts (record a { items = modify_artifact f a.items node_id })
modified-IsBounded f a node_id v = omega (arith, length-modify_artifact f a.items node_id, v)

change-IsBuilt :
    (b : Builder) (node_id : ℕ) (locked : Artifact → Bool) (f : Artifact → Artifact)
    (o : Option Artifact)
    → ((r s : Artifact) → artifact_clash (f r) s ≡ artifact_clash r s)
    → ((r s : Artifact) → artifact_clash r (f s) ≡ artifact_clash r s)
    → ((r : Artifact) → artifact_valid r ≡ true → locked r ≡ false → artifact_valid (f r) ≡ true)
    → find_artifact b.storage.artifacts.items node_id ≡ o
    → IsBuilt b.storage
    → IsBuilt (change b node_id locked f o).1.storage
unfolding change
change-IsBuilt b node_id locked f none left right keep e v = v
change-IsBuilt b node_id locked f (some r) left right keep e v = elim (Bool-cases (locked r)) [
  | inl shut ↦ rw shut v
  | inr open_ ↦ rw open_ (record {
    artifacts = record {
      bounded = modified-IsBounded f b.storage.artifacts node_id v.artifacts.bounded;
      distinct = Distinct-modify_artifact f left right _ node_id v.artifacts.distinct;
      all_valid =
          All-modify_artifact f left right _ node_id r e
            (keep r (valid_of_found _ node_id r e v.artifacts.all_valid) open_)
            v.artifacts.all_valid;
    };
    dependencies = v.dependencies;
    exports = v.exports;
    imports = v.imports;
    resources = v.resources;
    resource_bindings = v.resource_bindings;
  })
]

set_lifecycle-IsBuilt :
    (b : Builder) (node_id : ℕ) (init quiesce cleanup : Option Bytes)
    → IsBuilt b.storage
    → IsBuilt (set_lifecycle b node_id init quiesce cleanup).1.storage
unfolding set_lifecycle
set_lifecycle-IsBuilt b node_id init quiesce cleanup v = ground (
  arith,
  change-IsBuilt b node_id (λ r. r.lifecycle_set)
      (λ r. record r {
        init_symbol = name_bytes init;
        quiesce_symbol = name_bytes quiesce;
        cleanup_symbol = name_bytes cleanup;
        lifecycle_set = true;
      })
      _ (λ r s. refl) (λ r s. refl) (λ r a l. ground arith) refl v,
)

set_native_lifecycle-IsBuilt :
    (b : Builder) (node_id : ℕ)
    → IsBuilt b.storage
    → IsBuilt (set_native_lifecycle b node_id).1.storage
unfolding set_native_lifecycle
set_native_lifecycle-IsBuilt b node_id v = ground (
  arith,
  change-IsBuilt b node_id (λ r. r.lifecycle_set)
      (λ r. record r { lifecycle_set = true; native_lifecycle = true }) _ (λ r s. refl)
      (λ r s. refl) (λ r a l. ground arith) refl v,
)

mark_root-IsBuilt :
    (b : Builder) (node_id : ℕ) → IsBuilt b.storage → IsBuilt (mark_root b node_id).1.storage
unfolding mark_root
mark_root-IsBuilt b node_id v = ground (
  arith,
  change-IsBuilt b node_id (λ r. not (r.kind == relocatable_module) || r.is_root)
      (λ r. record r { is_root = true }) _ (λ r s. refl) (λ r s. refl) (λ r a l. ground arith) refl
      v,
)

-- Every call keeps the storage in order, whatever it returns.
pub step-IsBuilt :
    (b : Builder) (k : Call) (h : Heap) → IsBuilt b.storage → IsBuilt (step b k h).1.storage
unfolding step
step-IsBuilt b (Call.add_artifact node_id kind digest size name) h v =
    add_artifact-IsBuilt b node_id kind digest size name h v
step-IsBuilt b (Call.set_lifecycle node_id init quiesce cleanup) h v =
    set_lifecycle-IsBuilt b node_id init quiesce cleanup v
step-IsBuilt b (Call.set_native_lifecycle node_id) h v = set_native_lifecycle-IsBuilt b node_id v
step-IsBuilt b (Call.mark_root node_id) h v = mark_root-IsBuilt b node_id v
step-IsBuilt b (Call.add_dependency consumer provider) h v =
    add_dependency-IsBuilt b consumer provider h v
step-IsBuilt b (Call.add_export node_id symbol kind) h v =
    add_export-IsBuilt b node_id symbol kind h v
step-IsBuilt b (Call.add_import consumer consumer_symbol provider provider_symbol kind flags) h v =
    add_import-IsBuilt b consumer consumer_symbol provider provider_symbol kind flags h v
step-IsBuilt b (Call.add_resource r has_digest size) h v =
    add_resource-IsBuilt b r has_digest size h v
step-IsBuilt b (Call.bind_resource slot_id node_id) h v =
    bind_resource-IsBuilt b slot_id node_id h v

-- Where the storage of a builder is in order (each array within its capacity and its limit, no two
-- records with one key, each record valid by itself), it is so after any calls, refused ones
-- included.
pub run-IsBuilt :
    (b : Builder) (h : Heap) (ks : List Call) → IsBuilt b.storage → IsBuilt (run b h ks).0.storage
unfolding run
run-IsBuilt b h [] v = v
run-IsBuilt b h (k ∷ ks) v =
    let (status, b', h') = step b k h in run-IsBuilt b' h' ks (step-IsBuilt b k h v)

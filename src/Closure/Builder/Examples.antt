-- ===== src/Closure/Builder/Examples.antt =====
-- A builder of src/closure.c on concrete calls, copying what it holds, and the theorems there.
use kobox.Prelude.{ℕ, ◌≡◌, refl, Bool, true, some, List, [], ◌∷◌, arith, replicate}
use kobox.Status.{ok, invalid_configuration}
use kobox.Digest.{digest_is_zero}
use kobox.Digest.Zero.{digest_is_zero-eq}
use kobox.Allocator.{Heap, allocate, deallocate}
use kobox.Closure.{Bytes, Closure, Resource, empty_storage}
use kobox.Closure.Release
use kobox.Closure.Sort
use kobox.Closure.Clone.{
  clone_array, put_field, clone_field, clone_fields, clone, launch_flags, flags_of,
}
use kobox.Closure.Clone.Balance.{CloneOutcome, clone-CloneOutcome}
use kobox.Closure.Clone.Contents.{SameContents, clone_contents, clone_total}
use kobox.Closure.Builder.{Builder, reserve, put_last, append, create, destroy}
use kobox.Closure.Builder.Names.{name_valid, known_resource_rights}
use kobox.Closure.Builder.Add
use kobox.Closure.Builder.Calls.{Call, step, run}
use kobox.Closure.Builder.Built.{IsBuilt}
use kobox.Closure.Builder.Built.Kept.{run-IsBuilt}
use kobox.Closure.Builder.Ledger.{builder_balance}

-- All that the calls compute with.
unfoldable pub computed : ℕ
unfolding allocate deallocate Release.release_array Release.storage_release Release.destroy
    Sort.insert Sort.sort Sort.sort_array Sort.storage_sort Sort.strcmp Sort.compare_artifacts
    Sort.compare_dependencies Sort.compare_exports Sort.compare_imports Sort.compare_resources
    Sort.compare_resource_bindings clone_array put_field clone_field clone_fields clone launch_flags
    flags_of reserve put_last append create destroy name_valid known_resource_rights Add.any
    Add.add_artifact Add.find_artifact Add.modify_artifact Add.change Add.set_lifecycle
    Add.set_native_lifecycle Add.mark_root Add.has_dependency Add.add_dependency Add.add_export
    Add.add_import Add.resource_invalid Add.add_resource Add.bind_resource step run digest_is_zero
computed = 0

abbrev pub digest : Bytes
digest = 1 ∷ replicate 31 0

abbrev pub generous : Heap
generous = record { grants = λ n size. true; calls = 0; live = 0 }

-- The first allocation only.
abbrev pub mean : Heap
mean = record { grants = λ n size. elim n [ ℕ.zero ↦ true | _ ↦ Bool.false ]; calls = 0; live = 0 }

-- A memory that is required and wants a reset.
abbrev pub memory : Resource
memory = record {
  interface_schema_digest = digest;
  required_rights = 1;
  maximum_rights = 3;
  slot_id = 1;
  type = 0;
  minimum_count = 1;
  maximum_count = 1;
  flags = 5;
}

-- A provider `kernel`, and a root module `gpu` that depends on it.
abbrev pub building : List Call
building =
    Call.add_artifact 2 1 (some digest) 32 (some (0x67 ∷ 0x70 ∷ 0x75 ∷ []))
    ∷ Call.add_artifact 1 0 (some digest) 32 (some (0x6b ∷ 0x65 ∷ 0x72 ∷ []))
    ∷ Call.add_artifact 1 0 (some digest) 32 (some (0x78 ∷ []))
    ∷ Call.set_native_lifecycle 1
    ∷ Call.set_native_lifecycle 2
    ∷ Call.mark_root 2
    ∷ Call.add_dependency 2 1
    ∷ Call.add_export 1 (some (0x66 ∷ [])) 0
    ∷ Call.add_import 2 (some (0x66 ∷ [])) 1 (some (0x66 ∷ [])) 0 0
    ∷ Call.add_resource memory true 32
    ∷ Call.bind_resource 1 2
    ∷ []

abbrev pub blank : Builder
blank = record { storage = empty_storage digest }

abbrev pub built : Builder
built = (run blank generous building).0

pub blank-IsBuilt : IsBuilt blank.storage
blank-IsBuilt = omega arith

-- The third call reuses a node identifier.
second_node_refused :
    (step
      (run blank generous building).0
      (Call.add_artifact 1 0 (some digest) 32 (some (0x78 ∷ [])))
      generous).0
    ≡ invalid_configuration
unfolding computed
second_node_refused = refl

run-IsBuilt_example : IsBuilt (run blank generous building).0.storage
run-IsBuilt_example = run-IsBuilt blank generous building blank-IsBuilt

builder_balance_example :
    (destroy
      (some (run blank (create (some digest) 32 generous).2 building).0)
      (run blank (create (some digest) 32 generous).2 building).1).live
    ≡ 0
unfolding computed
builder_balance_example =
    builder_balance generous (create (some digest) 32 generous).2 (some digest) 32 blank building
      refl

abbrev sealed : Closure
sealed = record { storage = built.storage }

clone-CloneOutcome_example : CloneOutcome sealed mean (clone (some sealed) mean)
clone-CloneOutcome_example = clone-CloneOutcome sealed mean

copying_fails : (clone (some sealed) mean).2.live ≡ 0
unfolding computed
copying_fails = refl

clone_total_example : (clone (some sealed) generous).0 ≡ ok
unfolding computed
clone_total_example = clone_total sealed generous (omega arith) (λ n size. refl)

abbrev copy : Closure
copy = record {
  storage = Sort.storage_sort (record (sealed.storage) {
    artifacts = record (sealed.storage.artifacts) { capacity = 2 };
    dependencies = record (sealed.storage.dependencies) { capacity = 1 };
    exports = record (sealed.storage.exports) { capacity = 1 };
    imports = record (sealed.storage.imports) { capacity = 1 };
    resources = record (sealed.storage.resources) { capacity = 1 };
    resource_bindings = record (sealed.storage.resource_bindings) { capacity = 1 };
  });
}

clone_contents_example :
    SameContents copy.storage sealed.storage
    × (launch_flags (some copy) ≡ launch_flags (some sealed))
unfolding computed
clone_contents_example = clone_contents sealed copy generous (clone (some sealed) generous).2 refl

digest_is_zero-eq_example : digest_is_zero digest ≡ Bool.false
digest_is_zero-eq_example = digest_is_zero-eq digest

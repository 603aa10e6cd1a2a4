-- ===== src/Closure/Builder/Built.antt =====
-- What holds of a builder's storage after any calls.
pub mod Kept
use kobox.Prelude.{
  ℕ, ◌≤◌, ◌^◌, ◌≡◌, ◌≢◌, refl, Bool, true, false, List, [], ◌∷◌, ◌++◌, ◌&&◌, ◌||◌, not, ◌==◌, ltb,
  some, bytes_eq, arith, sym, subst,
}
use kobox.Status.{Status, ok}
use kobox.Allocator.{Heap}
use kobox.Closure.{
  Array, Artifact, Dependency, Export, Import, Resource, ResourceBinding, Storage,
  relocatable_module,
}
use kobox.Closure.Builder.{append}
use kobox.Closure.Builder.Names.{
  name_valid, artifact_kind_valid, symbol_kind_valid, resource_type_valid,
}
use kobox.Closure.Builder.Add.{
  any, max_artifacts, max_dependencies, max_symbols, max_resources, max_resource_bindings,
  unknown_import_flags, unknown_resource_flags, resource_invalid,
}
use kobox.Closure.Builder.Room.{IsBounded, Appended, append_room}

module _ {A : Type 0} where
  -- No item clashes with a later one.
  abbrev pub Distinct : (A → A → Bool) → List A → Type 0
  Distinct clash [] = Unit
  Distinct clash (x ∷ xs) = (any (λ y. clash x y) xs ≡ false) × Distinct clash xs

  abbrev pub All : (A → Bool) → List A → Type 0
  All valid [] = Unit
  All valid (x ∷ xs) = (valid x ≡ true) × All valid xs

  pub record Table (maximum : ℕ) (clash : A → A → Bool) (valid : A → Bool) (a : Array A)
      : Type 0 where
    pub bounded : IsBounded maximum a
    pub distinct : Distinct clash a.items
    pub all_valid : All valid a.items

  any-append : (p : A → Bool) (xs ys : List A) → any p (xs ++ ys) ≡ (any p xs || any p ys)
  unfolding any
  any-append p [] ys = refl
  any-append p (x ∷ xs) ys = ground (arith, any-append p xs ys)

  Distinct-append :
      (clash : A → A → Bool) (x : A) (xs : List A)
      → Distinct clash xs
      → any (λ y. clash y x) xs ≡ false
      → Distinct clash (xs ++ (x ∷ []))
  unfolding any
  Distinct-append clash x [] d e = (refl, tt)
  Distinct-append clash x (y ∷ ys) d e = (
    ground (arith, any-append (λ z. clash y z) ys (x ∷ []), d.0),
    Distinct-append clash x ys d.1 (ground arith),
  )

  All-append :
      (valid : A → Bool) (x : A) (xs : List A)
      → All valid xs
      → valid x ≡ true
      → All valid (xs ++ (x ∷ []))
  All-append valid x [] v e = (e, tt)
  All-append valid x (y ∷ ys) v e = (v.0, All-append valid x ys v.1 e)

  Appended-Table :
      (maximum : ℕ) (clash : A → A → Bool) (valid : A → Bool) (a : Array A) (x : A)
      (status : Status) (b : Array A)
      → Table maximum clash valid a
      → any (λ y. clash y x) a.items ≡ false
      → valid x ≡ true
      → IsBounded maximum b
      → Appended a x status b
      → Table maximum clash valid b
  Appended-Table maximum clash valid a x ok b t fresh v bounded e = record {
    bounded = bounded;
    distinct = subst (Distinct clash) (sym e) (Distinct-append clash x a.items t.distinct fresh);
    all_valid = subst (All valid) (sym e) (All-append valid x a.items t.all_valid v);
  }
  Appended-Table maximum clash valid a x _ b t fresh v bounded e =
      subst (Table maximum clash valid) (sym e) t

  pub append-Table :
      (maximum : ℕ) (clash : A → A → Bool) (valid : A → Bool) (a : Array A) (x : A) (size : ℕ)
      (h : Heap)
      → maximum ≤ 2 ^ 32
      → Table maximum clash valid a
      → any (λ y. clash y x) a.items ≡ false
      → valid x ≡ true
      → Table maximum clash valid (append a x size maximum h).1
  append-Table maximum clash valid a x size h m t fresh v =
      let (status, b, h') = append a x size maximum h in
      let (bounded, e) = append_room a x size maximum h t.bounded m in
      Appended-Table maximum clash valid a x status b t fresh v bounded e

abbrev pub artifact_clash : Artifact → Artifact → Bool
artifact_clash r s = r.node_id == s.node_id || bytes_eq r.namespace_name s.namespace_name

abbrev pub artifact_valid : Artifact → Bool
artifact_valid r =
    not (r.node_id == 0)
    && (artifact_kind_valid r.kind
        && (name_valid (some r.namespace_name)
            && ((not r.is_root || r.kind == relocatable_module)
                && (not r.native_lifecycle || r.lifecycle_set))))

abbrev pub dependency_clash : Dependency → Dependency → Bool
dependency_clash r s =
    r.consumer_node_id == s.consumer_node_id && r.provider_node_id == s.provider_node_id

abbrev pub dependency_valid : Dependency → Bool
dependency_valid r =
    not (r.consumer_node_id == 0)
    && (not (r.provider_node_id == 0) && not (r.consumer_node_id == r.provider_node_id))

abbrev pub export_clash : Export → Export → Bool
export_clash r s = r.node_id == s.node_id && bytes_eq r.symbol s.symbol

abbrev pub export_valid : Export → Bool
export_valid r = not (r.node_id == 0) && (name_valid (some r.symbol) && symbol_kind_valid r.kind)

abbrev pub import_clash : Import → Import → Bool
import_clash r s =
    r.consumer_node_id == s.consumer_node_id && bytes_eq r.consumer_symbol s.consumer_symbol

abbrev pub import_valid : Import → Bool
import_valid r =
    not (r.consumer_node_id == 0)
    && (name_valid (some r.consumer_symbol)
        && (name_valid (some r.provider_symbol)
            && (symbol_kind_valid r.kind && unknown_import_flags r.flags == 0)))

abbrev pub resource_clash : Resource → Resource → Bool
resource_clash r s = r.slot_id == s.slot_id

abbrev pub resource_valid : Resource → Bool
resource_valid r =
    not (r.slot_id == 0)
    && (resource_type_valid r.type
        && (unknown_resource_flags r.flags == 0 && not (resource_invalid r)))

abbrev pub binding_clash : ResourceBinding → ResourceBinding → Bool
binding_clash r s = r.slot_id == s.slot_id && r.node_id == s.node_id

abbrev pub binding_valid : ResourceBinding → Bool
binding_valid r = not (r.slot_id == 0) && not (r.node_id == 0)

-- Each array is within its limit, has no two records with one key, and holds only records that
-- make sense.
pub record IsBuilt (s : Storage) : Type 0 where
  pub artifacts : Table max_artifacts artifact_clash artifact_valid s.artifacts
  pub dependencies : Table max_dependencies dependency_clash dependency_valid s.dependencies
  pub exports : Table max_symbols export_clash export_valid s.exports
  pub imports : Table max_symbols import_clash import_valid s.imports
  pub resources : Table max_resources resource_clash resource_valid s.resources
  pub resource_bindings :
      Table max_resource_bindings binding_clash binding_valid s.resource_bindings

-- ===== src/Closure/Validate.antt =====
-- The checks of artifacts, symbols and resources before a closure is sealed: `kb2_find_export`,
-- `kb2_validate_artifacts`, `kb2_validate_symbols`, `kb2_find_resource` and `kb2_validate_resources`
-- of src/closure.c. A pointer to a record that was found is an option; only NULL is tested for.
pub mod Sound
use kobox.Prelude.{
  ℕ, suc, ◌+◌, Bool, true, false, List, [], ◌∷◌, Option, none, some, ◌&&◌, ◌||◌, not, ◌==◌, bit_and,
  bytes_eq, if◌then◌else◌,
}
use kobox.Status.{Status, ok, invalid_configuration}
use kobox.Closure.{
  Bytes, Artifact, Dependency, Export, Import, Resource, ResourceBinding, Storage, shared_provider,
  relocatable_module,
}
use kobox.Closure.Builder.Add.{has_dependency}
use kobox.Closure.NodeMap.{Entry, node_map_find}

-- KB2_SYMBOL_FUNCTION
abbrev pub symbol_function : ℕ
symbol_function = 0

-- KB2_IMPORT_OPTIONAL
abbrev pub import_optional : ℕ
import_optional = 1

-- KB2_RESOURCE_SHARED
abbrev pub resource_shared : ℕ
resource_shared = 2

abbrev pub is_none {ℓ} : {A : Type ℓ} → Option A → Bool
is_none none = true
is_none (some a) = false

abbrev pub same_flag : Bool → Bool → Bool
same_flag true b = b
same_flag false b = not b

unfoldable pub find_export : List Export → ℕ → Bytes → ℕ → Option Export
find_export [] node_id symbol kind = none
find_export (r ∷ rs) node_id symbol kind =
    let rest = find_export rs node_id symbol kind in
    if r.node_id == node_id && (r.kind == kind && bytes_eq r.symbol symbol) then some r else rest

-- Whether one of the lifecycle functions is not exported by the artifact.
unfoldable pub lifecycle_missing : List Export → Artifact → Bool
lifecycle_missing es r =
    is_none (find_export es r.node_id r.init_symbol symbol_function)
    || (is_none (find_export es r.node_id r.quiesce_symbol symbol_function)
        || is_none (find_export es r.node_id r.cleanup_symbol symbol_function))

-- The tests of one turn of the loop that make it return.
unfoldable pub artifact_refused : List Export → Bool → Artifact → Bool
artifact_refused es native r =
    not r.lifecycle_set
    || (not (same_flag r.native_lifecycle native)
        || (not r.native_lifecycle && lifecycle_missing es r
            || r.is_root && not (r.kind == relocatable_module)))

-- The loop's counts of roots and of providers, or `none` where it returns.
unfoldable pub count_artifacts : List Export → Bool → List Artifact → ℕ → ℕ → Option (ℕ × ℕ)
count_artifacts es native [] roots providers = some (roots, providers)
count_artifacts es native (r ∷ rs) roots providers =
    let rest =
      count_artifacts es native rs (if r.is_root then suc roots else roots)
        (if r.kind == shared_provider then suc providers else providers) in
    if artifact_refused es native r then none else rest

-- What follows the loop.
unfoldable pub judge_counts : Bool → Option (ℕ × ℕ) → Status
judge_counts native none = invalid_configuration
judge_counts native (some (roots, providers)) =
    if native && not (providers == 1)
    then invalid_configuration
    else if roots == 0
    then invalid_configuration
    else ok

unfoldable pub validate_artifacts : List Artifact → List Export → Status
validate_artifacts [] es = invalid_configuration
validate_artifacts (r ∷ rs) es =
    judge_counts r.native_lifecycle (count_artifacts es r.native_lifecycle (r ∷ rs) 0 0)

unfoldable pub export_refused : List Entry → Export → Bool
export_refused map r = is_none (node_map_find map r.node_id)

unfoldable pub import_refused : Storage → List Entry → Import → Bool
import_refused s map r =
    if is_none (node_map_find map r.consumer_node_id)
    then true
    else if r.provider_node_id == 0
    then false
    else if is_none (node_map_find map r.provider_node_id)
        || not (has_dependency s.dependencies.items r.consumer_node_id r.provider_node_id)
    then true
    else is_none (find_export s.exports.items r.provider_node_id r.provider_symbol r.kind)
      && bit_and r.flags import_optional == 0

-- A loop that returns at the first record that is refused.
unfoldable pub check_all {ℓ} : {A : Type ℓ} → (A → Bool) → List A → Status
check_all refused [] = ok
check_all refused (x ∷ xs) =
    let rest = check_all refused xs in if refused x then invalid_configuration else rest

-- The second check is made where the first has passed.
unfoldable pub and_then : Status → Status → Status
and_then ok next = next
and_then error next = error

unfoldable pub validate_symbols : Storage → List Entry → Status
validate_symbols s map =
    and_then (check_all (export_refused map) s.exports.items)
      (check_all (import_refused s map) s.imports.items)

unfoldable pub find_resource : List Resource → ℕ → Option Resource
find_resource [] slot_id = none
find_resource (r ∷ rs) slot_id =
    let rest = find_resource rs slot_id in if r.slot_id == slot_id then some r else rest

unfoldable pub binding_refused : Storage → List Entry → ResourceBinding → Bool
binding_refused s map b =
    is_none (find_resource s.resources.items b.slot_id) || is_none (node_map_find map b.node_id)

unfoldable pub binding_count : List ResourceBinding → ℕ → ℕ
binding_count [] slot_id = 0
binding_count (b ∷ bs) slot_id =
    let rest = binding_count bs slot_id in if b.slot_id == slot_id then suc rest else rest

unfoldable pub resource_refused : List ResourceBinding → Resource → Bool
resource_refused bs r =
    let n = binding_count bs r.slot_id in
    n == 0 || bit_and r.flags resource_shared == 0 && not (n == 1)

unfoldable pub validate_resources : Storage → List Entry → Status
validate_resources s map =
    and_then (check_all (binding_refused s map) s.resource_bindings.items)
      (check_all (resource_refused s.resource_bindings.items) s.resources.items)

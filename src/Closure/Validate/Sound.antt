-- ===== src/Closure/Validate/Sound.antt =====
-- What the checks of artifacts, symbols and resources of src/closure.c accept.
use kobox.Prelude.{
  ℕ, zero, suc, ◌<◌, ◌≡◌, ◌≢◌, inl, inr, refl, Bool, true, false, List, [], ◌∷◌, Option, none, some,
  get_elem?, ◌==◌, ◌&&◌, bit_and, bytes_eq, arith, Bool-cases, if◌then◌else◌, ap, sym, ◌∙◌,
  ℕ_discrete,
}
use kobox.Status.{Status, ok}
use kobox.Closure.{
  Bytes, Artifact, Export, Import, Resource, ResourceBinding, Storage, shared_provider,
  relocatable_module,
}
use kobox.Closure.Builder.Add.{has_dependency}
use kobox.Closure.NodeMap.{Entry, node_map_find}
use kobox.Closure.Validate.{
  symbol_function, import_optional, resource_shared, is_none, find_export, lifecycle_missing,
  artifact_refused, count_artifacts, judge_counts, validate_artifacts, export_refused,
  import_refused, check_all, and_then, validate_symbols, find_resource, binding_refused,
  binding_count, resource_refused, validate_resources,
}

abbrev pub At : {A : Type 0} → List A → A → Type 0
At xs x = (i : ℕ) × (get_elem? xs i ≡ some x)

abbrev pub HasArtifact : Storage → ℕ → Type 0
HasArtifact s node_id = (r : Artifact) × (At s.artifacts.items r × (r.node_id ≡ node_id))

-- The artifact exports the symbol, as that kind.
abbrev pub Exports : List Export → ℕ → Bytes → ℕ → Type 0
Exports es node_id symbol kind =
    (r : Export) × (At es r
      × ((r.node_id ≡ node_id) × ((r.kind ≡ kind) × (bytes_eq r.symbol symbol ≡ true))))

abbrev pub HasResource : Storage → ℕ → Type 0
HasResource s slot_id = (r : Resource) × (At s.resources.items r × (r.slot_id ≡ slot_id))

At-tail : {A : Type 0} (xs : List A) (x y : A) → At xs x → At (y ∷ xs) x
At-tail xs x y (i, e) = (suc i, e)

check_all-get :
    {A : Type 0} (refused : A → Bool) (xs : List A) (i : ℕ) (x : A)
    → check_all refused xs ≡ ok
    → get_elem? xs i ≡ some x
    → refused x ≡ false
unfolding check_all
check_all-get refused [] i x e at = ground arith
check_all-get refused (y ∷ xs) zero x e at =
    let same : y ≡ x = ground arith in ap refused (sym same) ∙ ground arith
check_all-get refused (y ∷ xs) (suc i) x e at = check_all-get refused xs i x (ground arith) at

pub and_then-ok : (a b : Status) → and_then a b ≡ ok → (a ≡ ok) × (b ≡ ok)
unfolding and_then
and_then-ok a b e = ground arith

find_export-Exports :
    (es : List Export) (node_id : ℕ) (symbol : Bytes) (kind : ℕ)
    → is_none (find_export es node_id symbol kind) ≡ false
    → Exports es node_id symbol kind
unfolding find_export
find_export-Exports [] node_id symbol kind e = ground arith
find_export-Exports (r ∷ rs) node_id symbol kind e =
    elim (Bool-cases (r.node_id == node_id && (r.kind == kind && bytes_eq r.symbol symbol))) [
      | inl y ↦ (r, ((0, refl), (ground arith, (ground arith, ground arith))))
      | inr n ↦
          let (q, (at, same)) = find_export-Exports rs node_id symbol kind (ground arith) in
          (q, (At-tail rs q r at, same))
    ]

find_resource-HasResource :
    (rs : List Resource) (slot_id : ℕ)
    → is_none (find_resource rs slot_id) ≡ false
    → (r : Resource) × (At rs r × (r.slot_id ≡ slot_id))
unfolding find_resource
find_resource-HasResource [] slot_id e = ground arith
find_resource-HasResource (r ∷ rs) slot_id e = elim (ℕ_discrete r.slot_id slot_id) [
  | yes y ↦ (r, ((0, refl), y))
  | no n ↦
      let (q, (at, same)) = find_resource-HasResource rs slot_id (ground arith) in
      (q, (At-tail rs q r at, same))
]

-- What the loop over the artifacts asks of each.
pub record ArtifactReady (es : List Export) (native : Bool) (r : Artifact) : Type 0 where
  pub lifecycle_set : r.lifecycle_set ≡ true
  pub same_lifecycle : r.native_lifecycle ≡ native
  pub init : r.native_lifecycle ≡ false → Exports es r.node_id r.init_symbol symbol_function
  pub quiesce : r.native_lifecycle ≡ false → Exports es r.node_id r.quiesce_symbol symbol_function
  pub cleanup : r.native_lifecycle ≡ false → Exports es r.node_id r.cleanup_symbol symbol_function
  pub root_kind : r.is_root ≡ true → r.kind ≡ relocatable_module

artifact-Ready :
    (es : List Export) (native : Bool) (r : Artifact)
    → artifact_refused es native r ≡ false
    → ArtifactReady es native r
unfolding artifact_refused lifecycle_missing
artifact-Ready es native r e = record {
  lifecycle_set = ground arith;
  same_lifecycle = ground arith;
  init = λ n. find_export-Exports es _ _ _ (ground arith);
  quiesce = λ n. find_export-Exports es _ _ _ (ground arith);
  cleanup = λ n. find_export-Exports es _ _ _ (ground arith);
  root_kind = λ t. ground arith;
}

count_artifacts-get :
    (es : List Export) (native : Bool) (rs : List Artifact) (roots providers : ℕ) (i : ℕ)
    (r : Artifact)
    → is_none (count_artifacts es native rs roots providers) ≡ false
    → get_elem? rs i ≡ some r
    → artifact_refused es native r ≡ false
unfolding count_artifacts
count_artifacts-get es native [] roots providers i r e at = ground arith
count_artifacts-get es native (q ∷ rs) roots providers zero r e at =
    let same : q ≡ r = ground arith in ap (artifact_refused es native) (sym same) ∙ ground arith
count_artifacts-get es native (q ∷ rs) roots providers (suc i) r e at =
    count_artifacts-get es native rs (if q.is_root then suc roots else roots)
      (if q.kind == shared_provider then suc providers else providers) i r (ground arith) at

judge_counts-some :
    (native : Bool) (o : Option (ℕ × ℕ)) → judge_counts native o ≡ ok → is_none o ≡ false
unfolding judge_counts
judge_counts-some native none e = ground arith
judge_counts-some native (some (a, b)) e = refl

-- Every artifact is ready, with one kind of lifecycle for all.
pub validate_artifacts-Ready :
    (rs : List Artifact) (es : List Export)
    → validate_artifacts rs es ≡ ok
    → (native : Bool) × ((i : ℕ) (r : Artifact)
        → get_elem? rs i ≡ some r
        → ArtifactReady es native r)
unfolding validate_artifacts
validate_artifacts-Ready [] es e = ground arith
validate_artifacts-Ready (q ∷ rs) es e = (
  q.native_lifecycle,
  λ i r at.
      artifact-Ready es q.native_lifecycle r
        (count_artifacts-get es q.native_lifecycle (q ∷ rs) 0 0 i r (judge_counts-some _ _ e) at),
)

-- An import names artifacts that are there, depends on its provider, and is optional where the
-- provider does not export the symbol.
pub record ImportReady (s : Storage) (r : Import) : Type 0 where
  pub consumer : HasArtifact s r.consumer_node_id
  pub provider : r.provider_node_id ≢ 0 → HasArtifact s r.provider_node_id
  pub depends :
      r.provider_node_id ≢ 0
      → has_dependency s.dependencies.items r.consumer_node_id r.provider_node_id ≡ true
  pub exported :
      r.provider_node_id ≢ 0
      → bit_and r.flags import_optional ≡ 0
      → Exports s.exports.items r.provider_node_id r.provider_symbol r.kind

-- A resource is bound, and to one artifact only unless it is shared.
pub record ResourceReady (s : Storage) (r : Resource) : Type 0 where
  pub bound : 0 < binding_count s.resource_bindings.items r.slot_id
  pub alone :
      bit_and r.flags resource_shared ≡ 0 → binding_count s.resource_bindings.items r.slot_id ≡ 1

module _ (s : Storage) (map : List Entry)
    (at : (node_id : ℕ) → is_none (node_map_find map node_id) ≡ false → HasArtifact s node_id) where
  import-Ready : (r : Import) → import_refused s map r ≡ false → ImportReady s r
  unfolding import_refused
  import-Ready r e = record {
    consumer = at r.consumer_node_id (ground arith);
    provider = λ p. at r.provider_node_id (ground arith);
    depends = λ p. ground arith;
    exported = λ p n. find_export-Exports s.exports.items _ _ _ (ground arith);
  }

  pub validate_symbols-Ready :
      validate_symbols s map ≡ ok
      → ((i : ℕ) (r : Export) → get_elem? s.exports.items i ≡ some r → HasArtifact s r.node_id)
        × ((i : ℕ) (r : Import) → get_elem? s.imports.items i ≡ some r → ImportReady s r)
  unfolding validate_symbols export_refused
  validate_symbols-Ready e =
      let (x, y) = and_then-ok _ _ e in
      (
        λ i r g. at r.node_id (check_all-get (export_refused map) s.exports.items i r x g),
        λ i r g. import-Ready r (check_all-get (import_refused s map) s.imports.items i r y g),
      )

  pub validate_resources-Ready :
      validate_resources s map ≡ ok
      → ((i : ℕ) (b : ResourceBinding)
          → get_elem? s.resource_bindings.items i ≡ some b
          → HasResource s b.slot_id × HasArtifact s b.node_id)
        × ((i : ℕ) (r : Resource) → get_elem? s.resources.items i ≡ some r → ResourceReady s r)
  unfolding validate_resources binding_refused resource_refused
  validate_resources-Ready e =
      let (x, y) = and_then-ok _ _ e in
      (
        λ i b g.
            let v = check_all-get (binding_refused s map) s.resource_bindings.items i b x g in
            (
              find_resource-HasResource s.resources.items b.slot_id (ground arith),
              at b.node_id (ground arith),
            ),
        λ i r g.
            let v =
              check_all-get (resource_refused s.resource_bindings.items) s.resources.items i r y
                g in
            record { bound = ground arith; alone = λ n. ground arith },
      )

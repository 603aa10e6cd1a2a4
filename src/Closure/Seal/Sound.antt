-- ===== src/Closure/Seal/Sound.antt =====
-- What a builder that is sealed holds.
use kobox.Prelude.{
  ℕ, ◌≡◌, refl, Bool, false, some, List, get_elem?, arith, ap, Option-cases, inl, inr,
}
use kobox.Status.{Status, ok}
use kobox.Allocator.{Heap}
use kobox.Closure.{Artifact, Export, Import, Resource, ResourceBinding, Storage}
use kobox.Closure.Builder.{Builder}
use kobox.Closure.Builder.Built.{IsBuilt}
use kobox.Closure.NodeMap.{Entry, node_map_find, build_node_map}
use kobox.Closure.NodeMap.Found.{node_map_find-eq}
use kobox.Closure.Validate.{is_none, validate_artifacts, validate_symbols, validate_resources}
use kobox.Closure.Validate.Sound.{
  HasArtifact, HasResource, ArtifactReady, ImportReady, ResourceReady, and_then-ok,
  validate_artifacts-Ready, validate_symbols-Ready, validate_resources-Ready,
}
use kobox.Closure.Graph.{check_graph, validate_graph}
use kobox.Closure.Graph.Sound.{Acyclic, AllNeeded, Finds, found_at, check_graph_sound}
use kobox.Closure.Seal.{validate_with, validate_rest, validate_storage, seal_valid, seal}

-- What the checks ask of a storage.
pub record IsSealed (s : Storage) : Type 0 where
  pub acyclic : Acyclic s.dependencies.items
  pub all_needed : AllNeeded s
  pub native : Bool
  pub artifacts :
      (i : ℕ) (r : Artifact)
      → get_elem? s.artifacts.items i ≡ some r
      → ArtifactReady s.exports.items native r
  pub exports :
      (i : ℕ) (r : Export) → get_elem? s.exports.items i ≡ some r → HasArtifact s r.node_id
  pub imports : (i : ℕ) (r : Import) → get_elem? s.imports.items i ≡ some r → ImportReady s r
  pub bindings :
      (i : ℕ) (b : ResourceBinding)
      → get_elem? s.resource_bindings.items i ≡ some b
      → HasResource s b.slot_id × HasArtifact s b.node_id
  pub resources :
      (i : ℕ) (r : Resource) → get_elem? s.resources.items i ≡ some r → ResourceReady s r

validate_graph-ok :
    (s : Storage) (map : List Entry) (h : Heap)
    → (validate_graph s map h).0 ≡ ok
    → check_graph s map ≡ ok
unfolding validate_graph
validate_graph-ok s map h e = ground arith

-- The map that was built, and the checks that passed with it.
record Passed (s : Storage) (m : Status × List Entry × Heap) : Type 0 where
  pub built : m.0 ≡ ok
  pub graph : check_graph s m.1 ≡ ok
  pub symbols : validate_symbols s m.1 ≡ ok
  pub resources : validate_resources s m.1 ≡ ok

validate_with-Passed :
    (s : Storage) (m : Status × List Entry × Heap) → (validate_with s m).0 ≡ ok → Passed s m
unfolding validate_with
validate_with-Passed s (ok, map, h) e =
    let (x, resources) = and_then-ok _ _ e in
    let (graph, symbols) = and_then-ok _ _ x in
    record {
      built = refl;
      graph = validate_graph-ok s map h graph;
      symbols = symbols;
      resources = resources;
    }
validate_with-Passed s (error, map, h) e = absurd cc

validate_rest-Passed :
    (s : Storage) (h : Heap) (status : Status)
    → (validate_rest s h status).0 ≡ ok
    → (status ≡ ok) × Passed s (build_node_map s h)
unfolding validate_rest
validate_rest-Passed s h ok e = (refl, validate_with-Passed s (build_node_map s h) e)
validate_rest-Passed s h error e = absurd cc

seal_valid-ok : (s : Storage) (r : Status × Heap) → (seal_valid s r).0 ≡ ok → r.0 ≡ ok
unfolding seal_valid
seal_valid-ok s (ok, h) e = refl
seal_valid-ok s (error, h) e = e

Finds-HasArtifact :
    (s : Storage) (map : List Entry)
    → Finds s map
    → (node_id : ℕ) → is_none (node_map_find map node_id) ≡ false
    → HasArtifact s node_id
Finds-HasArtifact s map f node_id e = elim (Option-cases (node_map_find map node_id)) [
  | inl q ↦ ground arith
  | inr (i, q) ↦ let (r, at, same) = found_at s map f node_id i q in (r, ((i, at), same))
]

Passed-IsSealed :
    (s : Storage) (h : Heap)
    → IsBuilt s
    → validate_artifacts s.artifacts.items s.exports.items ≡ ok
    → Passed s (build_node_map s h)
    → IsSealed s
Passed-IsSealed s h v a p =
    let map = (build_node_map s h).1 in
    let h' = (build_node_map s h).2 in
    let e : build_node_map s h ≡ (ok, map, h') = ap (λ status. (status, map, h')) p.built in
    let finds = λ (id : ℕ). node_map_find-eq s map h h' id v e in
    let (acyclic, needed) = check_graph_sound s map finds p.graph in
    let (native, ready) = validate_artifacts-Ready s.artifacts.items s.exports.items a in
    let (exports, imports) =
      validate_symbols-Ready s map (Finds-HasArtifact s map finds) p.symbols in
    let (bindings, resources) =
      validate_resources-Ready s map (Finds-HasArtifact s map finds) p.resources in
    record {
      acyclic = acyclic;
      all_needed = needed;
      native = native;
      artifacts = ready;
      exports = exports;
      imports = imports;
      bindings = bindings;
      resources = resources;
    }

-- Where sealing a builder whose storage is in order succeeds: no artifact depends on itself by any
-- chain of dependencies; each is a root or provides for one by such a chain; all have their
-- lifecycle set, of one kind, with the functions exported where it is not native; exports, imports
-- and bindings name artifacts and resources that are there; an import with a provider has its
-- dependency and, unless it is optional, the export; and each resource is bound, once unless shared.
pub seal_sound :
    (b : Builder) (h : Heap) → IsBuilt b.storage → (seal (some b) h).0 ≡ ok → IsSealed b.storage
unfolding seal validate_storage
seal_sound b h v e =
    let s = b.storage in
    let (a, p) =
      validate_rest-Passed s h (validate_artifacts s.artifacts.items s.exports.items)
        (seal_valid-ok s _ e) in
    Passed-IsSealed s h v a p

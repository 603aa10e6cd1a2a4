-- ===== src/Closure/Sort/Canonical.antt =====
-- The order of the sealed description, as docs/module-closure.md documents it, by the keys of the
-- records: what the sort of src/closure.c is for, stated without its comparisons.
use kobox.Prelude.{ℕ, ◌<◌, ◌≡◌, ◌⊎◌, List, [], ◌∷◌}
use kobox.Closure.{Artifact, Dependency, Export, Import, Resource, ResourceBinding, Storage}

-- Smaller as text: a proper prefix, or a smaller byte where they first differ.
abbrev pub TextLess : List ℕ → List ℕ → Type 0
TextLess [] [] = ⊥
TextLess [] (y ∷ ys) = Unit
TextLess (x ∷ xs) [] = ⊥
TextLess (x ∷ xs) (y ∷ ys) = (x < y) ⊎ ((x ≡ y) × TextLess xs ys)

-- By one key, and by the rest where the keys are equal.
abbrev pub By : {A K : Type 0} → (K → K → Type 0) → (A → K) → (A → A → Type 0) → A → A → Type 0
By less key rest a b = less (key a) (key b) ⊎ ((key a ≡ key b) × rest a b)

-- Equal in all keys.
abbrev pub Tied : {A : Type 0} → A → A → Type 0
Tied a b = Unit {0}

-- Artifacts are stored by node ID,
abbrev pub ArtifactBefore : Artifact → Artifact → Type 0
ArtifactBefore = By ◌<◌ (λ (a : Artifact). a.node_id) Tied

-- dependencies by consumer and provider ID,
abbrev pub DependencyBefore : Dependency → Dependency → Type 0
DependencyBefore =
    By ◌<◌ (λ (d : Dependency). d.consumer_node_id)
      (By ◌<◌ (λ (d : Dependency). d.provider_node_id) Tied)

-- symbols by owner and name,
abbrev pub ExportBefore : Export → Export → Type 0
ExportBefore =
    By ◌<◌ (λ (e : Export). e.node_id)
      (By TextLess (λ (e : Export). e.symbol) (By ◌<◌ (λ (e : Export). e.kind) Tied))

abbrev pub ImportBefore : Import → Import → Type 0
ImportBefore =
    By ◌<◌ (λ (i : Import). i.consumer_node_id)
      (By TextLess (λ (i : Import). i.consumer_symbol)
        (By ◌<◌ (λ (i : Import). i.provider_node_id) Tied))

-- resources by slot ID,
abbrev pub ResourceBefore : Resource → Resource → Type 0
ResourceBefore = By ◌<◌ (λ (r : Resource). r.slot_id) Tied

-- and bindings by slot and node ID.
abbrev pub BindingBefore : ResourceBinding → ResourceBinding → Type 0
BindingBefore =
    By ◌<◌ (λ (r : ResourceBinding). r.slot_id) (By ◌<◌ (λ (r : ResourceBinding). r.node_id) Tied)

abbrev pub Each : {A : Type 0} → (A → Type 0) → List A → Type 0
Each p [] = Unit
Each p (x ∷ xs) = p x × Each p xs

-- Each record is before all that follow it.
abbrev pub InOrder : {A : Type 0} → (A → A → Type 0) → List A → Type 0
InOrder before [] = Unit
InOrder before (x ∷ xs) = Each (before x) xs × InOrder before xs

pub record IsCanonical (s : Storage) : Type 0 where
  pub artifacts : InOrder ArtifactBefore s.artifacts.items
  pub dependencies : InOrder DependencyBefore s.dependencies.items
  pub exports : InOrder ExportBefore s.exports.items
  pub imports : InOrder ImportBefore s.imports.items
  pub resources : InOrder ResourceBefore s.resources.items
  pub resource_bindings : InOrder BindingBefore s.resource_bindings.items

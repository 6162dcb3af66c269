-- ===== src/Runtime/Contracts/Registry.antt =====
-- The registry of contracts.py and the readings of it in schema_registry.py.
use phlo_observe.Common.{
  ℕ, String, false, Option, none, some, List, [], ◌∷◌, ◌≡◌, refl, arith, inl, inr, ◌⊎◌, Bool-cases,
  if◌then◌else◌, str_eq, eq_iff, ltb, str_order, nat_order, pair_order, sort_by, map,
}
use phlo_observe.Common.Equality.{
  Equality, lookup, store, lookup-store, text_equality, number_equality, pair_equality,
}
use phlo_observe.Common.Dict.{Dict}
use phlo_observe.Runtime.Contracts.{
  ContractSpec, SchemaId, schema_id, Value, Violation, validate_attributes, sensitive_fields,
}

instance abbrev pub schema_equality : Equality SchemaId
schema_equality = pair_equality text_equality number_equality

abbrev pub Registry : Type 0
Registry = List (SchemaId × ContractSpec)

-- `register_contract` where there is an entry, and where there is none; a ValueError is `none`.
unfoldable pub registered_over : ContractSpec → Registry → Option ContractSpec → Option Registry
registered_over spec registry none = some (store (schema_id spec) spec registry)
registered_over spec registry (some existing) =
    if str_eq existing.schema_hash spec.schema_hash
    then some (store (schema_id spec) spec registry)
    else none

unfoldable pub register_contract : ContractSpec → Registry → Option Registry
register_contract spec registry = registered_over spec registry (lookup (schema_id spec) registry)

-- `max(..., key=version)`, which takes the first of equals.
unfoldable pub newest : ContractSpec → List ContractSpec → ContractSpec
newest best [] = best
newest best (c ∷ cs) = if ltb best.version c.version then newest c cs else newest best cs

unfoldable pub named : String → Registry → List ContractSpec
named name [] = []
named name ((key, spec) ∷ registry) =
    if str_eq spec.name name then spec ∷ named name registry else named name registry

abbrev newest_of : List ContractSpec → Option ContractSpec
newest_of [] = none
newest_of (c ∷ cs) = some (newest c cs)

-- `get_contract`
unfoldable pub get_contract : String → Option ℕ → Registry → Option ContractSpec
get_contract name (some version) registry = lookup (name, version) registry
get_contract name none registry = newest_of (named name registry)

abbrev second : SchemaId × ContractSpec → ContractSpec
second e = e.1

-- `all_contracts`
unfoldable pub all_contracts : Registry → List ContractSpec
all_contracts registry = sort_by (pair_order str_order nat_order) schema_id (map second registry)

unfoldable pub clear_contracts : Registry → Registry
clear_contracts registry = []

pub data ValidationMode : Type 0 where
  off_mode warn_mode strict_mode : ValidationMode

pub data Validation : Type 0 where
  reported : List Violation → Validation
  contract_violation : SchemaId → List Violation → Validation

unfoldable pub judged : ValidationMode → SchemaId → List Violation → Validation
judged mode id [] = reported []
judged strict_mode id (v ∷ vs) = contract_violation id (v ∷ vs)
judged off_mode id (v ∷ vs) = reported (v ∷ vs)
judged warn_mode id (v ∷ vs) = reported (v ∷ vs)

unfoldable pub validated : ValidationMode → Option ContractSpec → Dict Value → Validation
validated off_mode spec attributes = reported []
validated mode none attributes = reported []
validated mode (some spec) attributes =
    judged mode (schema_id spec) (validate_attributes spec attributes)

-- `validate_event_attributes`
unfoldable pub validate_event_attributes :
    ValidationMode → String → Option ℕ → Registry → Dict Value → Validation
validate_event_attributes mode name version registry attributes =
    validated mode (get_contract name version registry) attributes

-- `sensitive_attribute_paths`
unfoldable pub sensitive_paths : List ContractSpec → List (String × List String)
sensitive_paths [] = []
sensitive_paths (c ∷ cs) = elim (sensitive_fields c.fields) [
  | [] ↦ sensitive_paths cs
  | ◌∷◌ f fs ↦ (c.name, sort_by str_order (λ s. s) (f ∷ fs)) ∷ sensitive_paths cs
]

-- What a registration does: the contract is found by its identifier, and no other identifier is
-- touched; the identifier had no contract before, or one of the same hash.
pub record Registered (spec : ContractSpec) (before after : Registry) : Type 0 where
  pub found : lookup (schema_id spec) after ≡ some spec
  pub others :
      (id : SchemaId)
      → schema_equality.same (schema_id spec) id ≡ false
      → lookup id after ≡ lookup id before
  pub agreed :
      (lookup (schema_id spec) before ≡ none)
      ⊎ ((c : ContractSpec) × ((lookup (schema_id spec) before ≡ some c)
            × (c.schema_hash ≡ spec.schema_hash)))

stored :
    (spec : ContractSpec) (registry : Registry)
    → (lookup (schema_id spec) registry ≡ none)
      ⊎ ((c : ContractSpec) × ((lookup (schema_id spec) registry ≡ some c)
            × (c.schema_hash ≡ spec.schema_hash)))
    → Registered spec registry (store (schema_id spec) spec registry)
stored spec registry h = record {
  found =
      rw
        (
          lookup-store (schema_id spec) (schema_id spec) spec registry,
          schema_equality.same_refl (schema_id spec),
        )
        refl;
  others = λ id apart. rw (lookup-store (schema_id spec) id spec registry, apart) refl;
  agreed = h;
}

pub data Registration (spec : ContractSpec) (before : Registry) : Option Registry → Type 0 where
  done : (after : Registry) → Registered spec before after → Registration spec before (some after)
  conflict :
      (c : ContractSpec)
      → lookup (schema_id spec) before ≡ some c
      → str_eq c.schema_hash spec.schema_hash ≡ false
      → Registration spec before none

registered_over-Registration :
    (spec : ContractSpec) (registry : Registry) (existing : Option ContractSpec)
    → lookup (schema_id spec) registry ≡ existing
    → Registration spec registry (registered_over spec registry existing)
unfolding registered_over
registered_over-Registration spec registry none h = done _ (stored spec registry (inl h))
registered_over-Registration spec registry (some c) h =
    elim (Bool-cases (str_eq c.schema_hash spec.schema_hash)) [
      | inl equal ↦ rw equal (
          done _ (
            stored spec registry
              (inr (c, (h, ground (arith, eq_iff c.schema_hash spec.schema_hash, equal))))))
      | inr apart ↦ rw apart (conflict c h apart)
    ]

-- A registration succeeds or is refused. It succeeds where the identifier has no contract or one of
-- the same hash; the contract is then found by its identifier and every other identifier has the
-- contract it had. It is refused where the identifier has a contract of another hash.
pub register_contract-Registration :
    (spec : ContractSpec) (registry : Registry)
    → Registration spec registry (register_contract spec registry)
unfolding register_contract
register_contract-Registration spec registry = registered_over-Registration spec registry _ refl

-- ===== src/Runtime/Contracts.antt =====
-- contracts.py of observe_core: field types, `_matches`, validation and the registry. A union lists
-- its members in one fixed order, so that equal annotations are equal terms. A type without a Python
-- class to test (a Literal) is `opaque`, with a number that tells it from others. The content hash of a schema is given with the contract.
pub mod Schema
pub mod Widening
pub mod Validate
pub mod Compatible
pub mod Registry
mod Tests
use phlo_observe.Common.{
  ℕ, String, Bool, true, false, ◌&&◌, ◌||◌, not, Option, none, some, List, [], ◌∷◌, ◌++◌, ltb, ◌==◌,
  str_eq, if◌then◌else◌, TotalOrder, str_order, nat_order, pair_order, sort_by, map,
}
use phlo_observe.Common.Dict.{Dict, get}

pub data Class : Type 0 where
  str_class bool_class int_class float_class bytes_class dict_class list_class tuple_class set_class
        frozenset_class :
      Class

pub data Container : Type 0 where
  lists tuples sets frozensets : Container

mutual
  pub data PyType : Type 0 where
    none_type : PyType
    any_type : PyType
    plain : Class → PyType
    annotated : PyType → PyType
    union : Types → PyType
    bare_container : Container → PyType
    container : Container → PyType → PyType
    fixed_tuple : Types → PyType
    mapping : PyType → PyType → PyType
    opaque : ℕ → PyType

  pub data Types : Type 0 where
    no_types : Types
    one_type : PyType → Types → Types

mutual
  pub data Value : Type 0 where
    none_value : Value
    bool_value : Bool → Value
    int_value : ℕ → Value
    float_value : ℕ → Value
    str_value : String → Value
    bytes_value : String → Value
    list_value : Values → Value
    tuple_value : Values → Value
    set_value : Values → Value
    frozenset_value : Values → Value
    dict_value : Entries → Value

  pub data Values : Type 0 where
    no_values : Values
    one_value : Value → Values → Values

  pub data Entries : Type 0 where
    no_entries : Entries
    entry : Value → Value → Entries → Entries

abbrev pub is_none_type : PyType → Bool
is_none_type none_type = true
is_none_type _ = false

unfoldable pub has_none : Types → Bool
has_none no_types = false
has_none (one_type t ts) = is_none_type t || has_none ts

-- `_is_optional`
pub is_optional : PyType → Bool
is_optional (union ts) = has_none ts
is_optional _ = false

-- `isinstance(value, py_type)`, with bool apart from int.
pub is_instance : Value → Class → Bool
is_instance (bool_value b) bool_class = true
is_instance (int_value n) int_class = true
is_instance (float_value n) float_class = true
is_instance (str_value s) str_class = true
is_instance (bytes_value s) bytes_class = true
is_instance (list_value vs) list_class = true
is_instance (tuple_value vs) tuple_class = true
is_instance (set_value vs) set_class = true
is_instance (frozenset_value vs) frozenset_class = true
is_instance (dict_value es) dict_class = true
is_instance _ _ = false

-- The items of a value of the container's class.
unfoldable pub items_of : Container → Value → Option Values
items_of lists (list_value vs) = some vs
items_of tuples (tuple_value vs) = some vs
items_of sets (set_value vs) = some vs
items_of frozensets (set_value vs) = some vs
items_of frozensets (frozenset_value vs) = some vs
items_of _ _ = none

unfoldable pub entries_of : Value → Option Entries
entries_of (dict_value es) = some es
entries_of _ = none

unfoldable pub all_values : (Value → Bool) → Values → Bool
all_values test no_values = true
all_values test (one_value v vs) = test v && all_values test vs

unfoldable pub all_entries : (Value → Bool) → (Value → Bool) → Entries → Bool
all_entries key_test test no_entries = true
all_entries key_test test (entry k v es) = (key_test k && test v) && all_entries key_test test es

abbrev pub is_none_value : Value → Bool
is_none_value none_value = true
is_none_value _ = false

abbrev on_items : (Values → Bool) → Option Values → Bool
on_items test none = false
on_items test (some vs) = test vs

abbrev on_entries : (Entries → Bool) → Option Entries → Bool
on_entries test none = false
on_entries test (some es) = test es

abbrev any_items : Values → Bool
any_items vs = true

-- The first two lines of `_matches`, before the answer of the rest of it.
pub decided : PyType → Value → Bool → Bool
decided t v rest = if is_none_value v then is_optional t || is_none_type t else rest

-- The rest of `_matches`.
unfoldable mutual
  pub accepts : PyType → Value → Bool
  accepts none_type v = false
  accepts any_type v = true
  accepts (opaque tag) v = true
  accepts (plain c) v = is_instance v c
  accepts (annotated t) v = decided t v (accepts t v)
  accepts (union ts) v = any_matches ts v
  accepts (bare_container k) v = on_items any_items (items_of k v)
  accepts (container k t) v = on_items (all_values (λ x. decided t x (accepts t x))) (items_of k v)
  accepts (fixed_tuple no_types) v = on_items any_items (items_of tuples v)
  accepts (fixed_tuple (one_type t ts)) v =
      on_items (λ vs. pairwise (one_type t ts) vs) (items_of tuples v)
  accepts (mapping k t) v =
      on_entries (all_entries (λ x. decided k x (accepts k x)) (λ x. decided t x (accepts t x)))
        (entries_of v)

  pub any_matches : Types → Value → Bool
  any_matches no_types v = false
  any_matches (one_type t ts) v = decided t v (accepts t v) || any_matches ts v

  pub pairwise : Types → Values → Bool
  pairwise no_types no_values = true
  pairwise no_types (one_value v vs) = false
  pairwise (one_type t ts) no_values = false
  pairwise (one_type t ts) (one_value v vs) = decided t v (accepts t v) && pairwise ts vs

-- `_matches`
pub matches : PyType → Value → Bool
matches t v = decided t v (accepts t v)

pub record FieldMeta : Type 0 where
  pub sensitive : Bool
  pub deprecated : Option String

pub record FieldSpec : Type 0 where
  pub py_type : PyType
  pub required : Bool
  pub metadata : FieldMeta

pub record ContractSpec : Type 0 where
  pub name : String
  pub version : ℕ
  pub fields : Dict FieldSpec
  pub schema_hash : String

-- `schema_id`: the name and the version.
abbrev pub SchemaId : Type 0
SchemaId = String × ℕ

abbrev pub schema_id : ContractSpec → SchemaId
schema_id spec = (spec.name, spec.version)

pub data Violation : Type 0 where
  missing : String → Violation
  mistyped : String → PyType → Violation

-- The body of the loop of `validate_attributes`.
pub violations_of : String → FieldSpec → Option Value → List Violation
violations_of name spec none = if spec.required then missing name ∷ [] else []
violations_of name spec (some v) =
    if matches spec.py_type v then [] else mistyped name spec.py_type ∷ []

-- `validate_attributes`, over the fields.
pub validate_fields : Dict FieldSpec → Dict Value → List Violation
validate_fields [] attributes = []
validate_fields ((name, spec) ∷ fields) attributes =
    violations_of name spec (get name attributes) ++ validate_fields fields attributes

pub validate_attributes : ContractSpec → Dict Value → List Violation
validate_attributes spec attributes = validate_fields spec.fields attributes

-- `sensitive_fields`
unfoldable pub sensitive_fields : Dict FieldSpec → List String
sensitive_fields [] = []
sensitive_fields ((name, spec) ∷ fields) =
    if spec.metadata.sensitive then name ∷ sensitive_fields fields else sensitive_fields fields

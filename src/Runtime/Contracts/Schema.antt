-- ===== src/Runtime/Contracts/Schema.antt =====
-- schema_registry.py of observe_core: the classification of the change between two versions of a
-- contract. A set of names is walked in the order of the dict it comes from.
use mathlib.Core.HLevel.{Discrete}
use native.Mathlib.Decide.{ℕ_discrete}
use phlo_observe.Common.{
  String, Bool, true, false, ◌&&◌, ◌||◌, not, Option, none, some, List, [], ◌∷◌, ◌++◌, str_eq,
  if◌then◌else◌,
}
use phlo_observe.Common.Dict.{Dict, get}
use phlo_observe.Runtime.Contracts.{
  PyType, Types, none_type, any_type, plain, annotated, union, bare_container, container,
  fixed_tuple, mapping, opaque, no_types, one_type, int_class, float_class, is_none_type, FieldSpec,
  ContractSpec, SchemaId, schema_id,
}

unfoldable pub PyType-discrete : Discrete PyType
PyType-discrete = hlevel ℕ_discrete

-- `==` of annotations.
unfoldable pub same_type : PyType → PyType → Bool
same_type a b = elim (PyType-discrete a b) [ yes _ ↦ true | no _ ↦ false ]

abbrev pub picked : PyType → List PyType → PyType
picked whole [] = whole
picked whole (b ∷ []) = b
picked whole (b ∷ c ∷ rest) = whole

-- `_base_type`, and the bases of a union's members other than None.
unfoldable mutual
  pub base_type : PyType → PyType
  base_type (annotated t) = base_type t
  base_type (union ts) = picked (union ts) (base_members ts)
  base_type none_type = none_type
  base_type any_type = any_type
  base_type (plain c) = plain c
  base_type (bare_container k) = bare_container k
  base_type (container k t) = container k t
  base_type (fixed_tuple ts) = fixed_tuple ts
  base_type (mapping k t) = mapping k t
  base_type (opaque tag) = opaque tag

  pub base_members : Types → List PyType
  base_members no_types = []
  base_members (one_type t ts) =
      let base = base_type t in
      let rest = base_members ts in if is_none_type t then rest else base ∷ rest

abbrev pub is_int : PyType → Bool
is_int (plain int_class) = true
is_int _ = false

abbrev pub is_float : PyType → Bool
is_float (plain float_class) = true
is_float _ = false

-- Has the union one member beside None?
unfoldable pub is_single : Types → Bool
is_single ts = elim (base_members ts) [
  | [] ↦ false
  | ◌∷◌ b rest ↦ elim rest [ [] ↦ true | ◌∷◌ c more ↦ false ]
]

abbrev pub same_or_widened : PyType → PyType → Bool
same_or_widened old new = same_type old new || (is_int old && is_float new)

-- `_types_compatible` of an old type that is its own base; `member_compatible` is the answer of the
-- member that a single union stands for.
unfoldable mutual
  pub compatible : PyType → PyType → Bool
  compatible old (annotated t) = compatible old t
  compatible old (union ts) =
      let member = member_compatible old ts in
      let any_member = any_compatible old ts in
      if is_single ts then member else same_type old (union ts) || any_member
  compatible old none_type = same_or_widened old none_type
  compatible old any_type = same_or_widened old any_type
  compatible old (plain c) = same_or_widened old (plain c)
  compatible old (bare_container k) = same_or_widened old (bare_container k)
  compatible old (container k t) = same_or_widened old (container k t)
  compatible old (fixed_tuple ts) = same_or_widened old (fixed_tuple ts)
  compatible old (mapping k t) = same_or_widened old (mapping k t)
  compatible old (opaque tag) = same_or_widened old (opaque tag)

  pub any_compatible : PyType → Types → Bool
  any_compatible old no_types = false
  any_compatible old (one_type t ts) = compatible old t || any_compatible old ts

  pub member_compatible : PyType → Types → Bool
  member_compatible old no_types = false
  member_compatible old (one_type t ts) =
      (not (is_none_type t) && compatible old t) || member_compatible old ts

-- `_types_compatible`
unfoldable pub types_compatible : PyType → PyType → Bool
types_compatible old new = compatible (base_type old) new

-- `_type_widened`
unfoldable pub type_widened : PyType → PyType → Bool
type_widened old new = not (same_type (base_type old) (base_type new))

pub data Change : Type 0 where
  removed_field added_required_field added_optional_field changed_type widened_type became_required
        became_optional sensitivity_changed deprecation_changed :
      String → Change

abbrev pub when : Bool → Change → List Change
when b c = if b then c ∷ [] else []

-- `old_fields.keys() - new_fields.keys()`
unfoldable pub removed : Dict FieldSpec → Dict FieldSpec → List Change
removed [] new = []
removed ((name, f) ∷ old) new = elim (get name new) [
  | none ↦ removed_field name ∷ removed old new
  | some _ ↦ removed old new
]

abbrev same_note : Option String → Option String → Bool
same_note none none = true
same_note (some a) (some b) = str_eq a b
same_note _ _ = false

abbrev same_flag : Bool → Bool → Bool
same_flag true b = b
same_flag false b = not b

-- What is breaking in one field of the new contract, and what is not.
unfoldable pub breaking_change : String → Option FieldSpec → FieldSpec → List Change
breaking_change name none f = when f.required (added_required_field name)
breaking_change name (some old) f =
    when (not (types_compatible old.py_type f.py_type)) (changed_type name)
    ++ when (not old.required && f.required) (became_required name)

unfoldable pub other_change : String → Option FieldSpec → FieldSpec → List Change
other_change name none f = when (not f.required) (added_optional_field name)
other_change name (some old) f =
    when (types_compatible old.py_type f.py_type && type_widened old.py_type f.py_type)
      (widened_type name)
    ++ (when (old.required && not f.required) (became_optional name)
        ++ (when (not (same_flag old.metadata.sensitive f.metadata.sensitive))
              (sensitivity_changed name)
            ++ when (not (same_note old.metadata.deprecated f.metadata.deprecated))
                (deprecation_changed name)))

unfoldable pub breaking_in : Dict FieldSpec → Dict FieldSpec → List Change
breaking_in old [] = []
breaking_in old ((name, f) ∷ new) = breaking_change name (get name old) f ++ breaking_in old new

unfoldable pub others_in : Dict FieldSpec → Dict FieldSpec → List Change
others_in old [] = []
others_in old ((name, f) ∷ new) = other_change name (get name old) f ++ others_in old new

pub record ContractDiff : Type 0 where
  pub schema_id_old : SchemaId
  pub schema_id_new : SchemaId
  pub breaking : List Change
  pub non_breaking : List Change
  pub is_compatible : Bool

abbrev pub no_changes : List Change → Bool
no_changes [] = true
no_changes (c ∷ cs) = false

-- `diff_contracts`
unfoldable pub diff_contracts : ContractSpec → ContractSpec → ContractDiff
diff_contracts old new = record {
  schema_id_old = schema_id old;
  schema_id_new = schema_id new;
  breaking = removed old.fields new.fields ++ breaking_in old.fields new.fields;
  non_breaking = others_in old.fields new.fields;
  is_compatible = no_changes (removed old.fields new.fields ++ breaking_in old.fields new.fields);
}

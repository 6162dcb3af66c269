-- ===== src/Runtime/Contracts/Tests.antt =====
-- Contracts on concrete fields.
use phlo_observe.Common.{Bool, true, false, none, [], ◌∷◌, ◌≡◌, refl, inl, arith}
use phlo_observe.Common.Dict.{Dict, get}
use phlo_observe.Runtime.Contracts.{
  FieldSpec, ContractSpec, Value, PyType, plain, union, one_type, no_types, none_type, any_type,
  str_class, int_class, float_class, int_value, str_value, none_value, bool_value, matches, decided,
  accepts, is_optional, is_instance, validate_attributes, validate_fields, violations_of,
}
use phlo_observe.Runtime.Contracts.Schema.{
  PyType-discrete, same_type, base_type, diff_contracts, types_compatible, compatible, removed,
  breaking_in, breaking_change, is_single,
}
use phlo_observe.Runtime.Contracts.Compatible.{
  validate_attributes-diff_contracts, NoNone, KnownOnly, KeepsInts,
}
use phlo_observe.Runtime.Contracts.Registry.{
  Registration, register_contract, register_contract-Registration,
}

abbrev field_of : PyType → Bool → FieldSpec
field_of t required = record {
  py_type = t;
  required = required;
  metadata = record { sensitive = false; deprecated = none };
}

-- A bool is no int, None is no instance of Any, and an int is no float.
bool_test : matches (plain int_class) (bool_value true) ≡ false
unfolding matches decided accepts is_instance
bool_test = refl

none_test : matches any_type none_value ≡ false
unfolding matches decided is_optional
none_test = refl

widening_test : matches (plain float_class) (int_value 3) ≡ false
unfolding matches decided accepts is_instance
widening_test = refl

int_float_test : types_compatible (plain int_class) (plain float_class) ≡ true
unfolding types_compatible base_type compatible same_type PyType-discrete
int_float_test = refl

abbrev first_version : ContractSpec
first_version = record {
  name = "asset.loaded";
  version = 1;
  fields = ("asset", field_of (plain str_class) true) ∷ [];
  schema_hash = "a";
}

abbrev second_version : ContractSpec
second_version = record {
  name = "asset.loaded";
  version = 2;
  fields =
      ("asset", field_of (union (one_type (plain str_class) (one_type none_type no_types))) false)
      ∷ ("rows", field_of (plain int_class) false)
      ∷ [];
  schema_hash = "b";
}

abbrev loaded : Dict Value
loaded = ("asset", str_value "a") ∷ []

compatible_test : (diff_contracts first_version second_version).is_compatible ≡ true
unfolding diff_contracts removed breaking_in breaking_change types_compatible base_type compatible
    same_type PyType-discrete is_single get
compatible_test = refl

version-KeepsInts : KeepsInts first_version.fields second_version.fields
unfolding KeepsInts get base_type
version-KeepsInts = (inl refl, (tt, tt))

loaded-NoNone : NoNone loaded
unfolding get
loaded-NoNone name v h = ground (arith, h)

loaded-KnownOnly : KnownOnly first_version.fields loaded
unfolding get
loaded-KnownOnly name h = ground (arith, h)

valid_test : validate_attributes first_version loaded ≡ []
unfolding validate_attributes validate_fields violations_of matches decided accepts is_instance get
valid_test = refl

validate_attributes-diff_contracts_example : validate_attributes second_version loaded ≡ []
validate_attributes-diff_contracts_example =
    validate_attributes-diff_contracts first_version second_version loaded compatible_test
      version-KeepsInts loaded-NoNone loaded-KnownOnly valid_test

register_contract-Registration_example :
    Registration first_version [] (register_contract first_version [])
register_contract-Registration_example = register_contract-Registration first_version []

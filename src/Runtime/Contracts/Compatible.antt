-- ===== src/Runtime/Contracts/Compatible.antt =====
-- What `diff_contracts` of schema_registry.py promises about `validate_attributes` of contracts.py.
use phlo_observe.Common.{
  String, Bool, true, false, not, Option, none, some, List, [], ◌∷◌, ◌≡◌, refl, sym, ap, ◌∙◌, ◌⊎◌,
  arith, inl, inr, All,
}
use phlo_observe.Common.Dict.{Dict, get}
use phlo_observe.Runtime.Contracts.{
  FieldSpec, ContractSpec, Value, PyType, is_none_value, violations_of, validate_fields,
  validate_attributes, matches, accepts,
}
use phlo_observe.Runtime.Contracts.Schema.{
  same_type, base_type, is_int, types_compatible, breaking_change, breaking_in, removed,
  diff_contracts, no_changes, when, changed_type, became_required, Change,
}
use phlo_observe.Runtime.Contracts.Widening.{
  decided-present, same_type_sound, accepts-base_type, accepts-compatible,
}
use phlo_observe.Runtime.Contracts.Validate.{
  append_nil, validate_fields-get, violations_of-absent, violations_of-present,
}

-- An int field keeps its type, up to None.
abbrev pub KeepsInt : Option FieldSpec → FieldSpec → Type 0
KeepsInt none f = Unit
KeepsInt (some old) f =
    (is_int (base_type old.py_type) ≡ false)
    ⊎ (same_type (base_type old.py_type) (base_type f.py_type) ≡ true)

unfoldable pub KeepsInts : Dict FieldSpec → Dict FieldSpec → Type 0
KeepsInts old new = All (λ e. KeepsInt (get e.0 old) e.1) new

matches-present : (t : PyType) (v : Value) → is_none_value v ≡ false → matches t v ≡ accepts t v
unfolding matches
matches-present t v present = decided-present t v (accepts t v) present

matches-compatible :
    (old f : FieldSpec) (v : Value)
    → is_none_value v ≡ false
    → KeepsInt (some old) f
    → types_compatible old.py_type f.py_type ≡ true
    → matches old.py_type v ≡ true
    → matches f.py_type v ≡ true
unfolding types_compatible
matches-compatible old f v present (inl no_int) h m =
    let base_taken : accepts (base_type old.py_type) v ≡ true =
      sym (accepts-base_type v present old.py_type)
      ∙ sym (matches-present old.py_type v present)
      ∙ m in
    matches-present f.py_type v present
    ∙ accepts-compatible v present (base_type old.py_type) base_taken no_int f.py_type h
matches-compatible old f v present (inr equal) h m =
    matches-present f.py_type v present
    ∙ accepts-base_type v present f.py_type
    ∙ ap (λ t. accepts t v) (sym (same_type_sound _ _ equal))
    ∙ sym (accepts-base_type v present old.py_type)
    ∙ sym (matches-present old.py_type v present)
    ∙ m

when-nil : (b : Bool) (c : Change) → when b c ≡ [] → b ≡ false
when-nil true c h = absurd cc
when-nil false c h = refl

unbroken_type :
    (name : String) (o f : FieldSpec)
    → breaking_change name (some o) f ≡ []
    → types_compatible o.py_type f.py_type ≡ true
unfolding breaking_change
unbroken_type name o f h =
    let first =
      when-nil _ (changed_type name)
        (append_nil (when (not (types_compatible o.py_type f.py_type)) (changed_type name)) _
          h).0 in
    ground (arith, first)

unbroken_required :
    (name : String) (o f : FieldSpec)
    → breaking_change name (some o) f ≡ []
    → o.required ≡ false
    → f.required ≡ false
unfolding breaking_change
unbroken_required name o f h optional =
    let second =
      when-nil _ (became_required name)
        (append_nil (when (not (types_compatible o.py_type f.py_type)) (changed_type name)) _
          h).1 in
    ground (arith, second, optional)

-- One field of the new contract, without a breaking change.
field_kept :
    (name : String) (old : Option FieldSpec) (f : FieldSpec) (value : Option Value)
    → ((v : Value) → value ≡ some v → is_none_value v ≡ false)
    → (old ≡ none → value ≡ none)
    → ((o : FieldSpec) → old ≡ some o → violations_of name o value ≡ [])
    → KeepsInt old f
    → breaking_change name old f ≡ []
    → violations_of name f value ≡ []
field_kept name none f value present known valid ints h =
    rw (known refl) (unfold breaking_change violations_of in ground (arith, h))
field_kept name (some o) f none present known valid ints h =
    let optional : o.required ≡ false = violations_of-absent name o (valid o refl) in
    unfold violations_of in rw (unbroken_required name o f h optional) refl
field_kept name (some o) f (some v) present known valid ints h =
    let taken : matches o.py_type v ≡ true = violations_of-present name o v (valid o refl) in
    unfold violations_of in
    rw (matches-compatible o f v (present v refl) ints (unbroken_type name o f h) taken) refl

-- The attributes hold no None.
abbrev pub NoNone : Dict Value → Type 0
NoNone attributes =
    (name : String) (v : Value) → get name attributes ≡ some v → is_none_value v ≡ false

-- The attributes hold fields of the contract only.
abbrev pub KnownOnly : Dict FieldSpec → Dict Value → Type 0
KnownOnly fields attributes = (name : String) → get name fields ≡ none → get name attributes ≡ none

fields_kept :
    (old new : Dict FieldSpec) (attributes : Dict Value)
    → NoNone attributes
    → KnownOnly old attributes
    → validate_fields old attributes ≡ []
    → KeepsInts old new
    → breaking_in old new ≡ []
    → validate_fields new attributes ≡ []
unfolding validate_fields breaking_in KeepsInts
fields_kept old [] attributes present known valid ints h = refl
fields_kept old ((name, f) ∷ new) attributes present known valid ints h =
    let both = append_nil (breaking_change name (get name old) f) (breaking_in old new) h in
    let here : violations_of name f (get name attributes) ≡ [] =
      field_kept name (get name old) f (get name attributes) (present name) (known name)
        (λ o found. validate_fields-get name o old attributes valid found) ints.0 both.0 in
    rw here (fields_kept old new attributes present known valid ints.1 both.1)

no_changes-nil : (cs : List Change) → no_changes cs ≡ true → cs ≡ []
no_changes-nil [] h = refl
no_changes-nil (c ∷ cs) h = absurd cc

-- Of two versions of a contract that `diff_contracts` calls compatible, where an int field keeps its
-- type (up to None), attributes that hold no None and only fields of the old version are
-- without violations of the new version if they are without violations of the old one.
pub validate_attributes-diff_contracts :
    (old new : ContractSpec) (attributes : Dict Value)
    → (diff_contracts old new).is_compatible ≡ true
    → KeepsInts old.fields new.fields
    → NoNone attributes
    → KnownOnly old.fields attributes
    → validate_attributes old attributes ≡ []
    → validate_attributes new attributes ≡ []
unfolding validate_attributes diff_contracts
validate_attributes-diff_contracts old new attributes compatible_ones ints present known valid =
    let nothing = no_changes-nil _ compatible_ones in
    fields_kept old.fields new.fields attributes present known valid ints
      (append_nil (removed old.fields new.fields) (breaking_in old.fields new.fields) nothing).1

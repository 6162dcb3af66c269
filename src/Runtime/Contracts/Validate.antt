-- ===== src/Runtime/Contracts/Validate.antt =====
-- `validate_fields` of contracts.py, field by field.
use phlo_observe.Common.{
  String, true, false, none, some, List, [], ◌∷◌, ◌++◌, ◌≡◌, refl, subst, arith, inl, inr,
  Bool-cases, str_eq, eq_iff,
}
use phlo_observe.Common.Dict.{Dict, get}
use phlo_observe.Runtime.Contracts.{FieldSpec, Value, violations_of, validate_fields, matches}

pub append_nil {ℓ} : {A : Type ℓ} (xs ys : List A) → xs ++ ys ≡ [] → (xs ≡ []) × (ys ≡ [])
append_nil [] ys h = (refl, h)
append_nil (x ∷ xs) ys h = absurd cc

-- Where there is no violation, there is none in a field that the contract has.
pub validate_fields-get :
    (name : String) (spec : FieldSpec) (fields : Dict FieldSpec) (attributes : Dict Value)
    → validate_fields fields attributes ≡ []
    → get name fields ≡ some spec
    → violations_of name spec (get name attributes) ≡ []
unfolding validate_fields get
validate_fields-get name spec [] attributes h found = absurd cc
validate_fields-get name spec ((k, f) ∷ fields) attributes h found =
    let both =
      append_nil (violations_of k f (get k attributes)) (validate_fields fields attributes) h in
    elim (Bool-cases (str_eq k name)) [
      | inl hit ↦
          let equal : k ≡ name = ground (arith, eq_iff k name, hit) in
          let here : f ≡ spec = ground (arith, found, hit) in
          subst (λ n. violations_of n spec (get n attributes) ≡ []) equal
            (subst (λ g. violations_of k g (get k attributes) ≡ []) here both.0)
      | inr miss ↦ validate_fields-get name spec fields attributes both.1 (rw miss at found)
    ]

pub violations_of-absent :
    (name : String) (spec : FieldSpec) → violations_of name spec none ≡ [] → spec.required ≡ false
unfolding violations_of
violations_of-absent name spec h = ground (arith, h)

pub violations_of-present :
    (name : String) (spec : FieldSpec) (v : Value)
    → violations_of name spec (some v) ≡ []
    → matches spec.py_type v ≡ true
unfolding violations_of
violations_of-present name spec v h = ground (arith, h)

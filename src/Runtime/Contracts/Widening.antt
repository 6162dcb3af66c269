-- ===== src/Runtime/Contracts/Widening.antt =====
-- What a type accepts, its base accepts, and a compatible type accepts: contracts.py and
-- schema_registry.py together.
use phlo_observe.Common.{
  Bool, true, false, ◌&&◌, ◌||◌, not, List, [], ◌∷◌, ◌≡◌, refl, ◌∙◌, subst, arith, inl, inr,
  Bool-cases,
}
use phlo_observe.Runtime.Contracts.{
  PyType, Types, none_type, any_type, plain, annotated, union, bare_container, container,
  fixed_tuple, mapping, opaque, no_types, one_type, Value, is_none_value, decided, accepts,
  any_matches, is_none_type,
}
use phlo_observe.Runtime.Contracts.Schema.{
  PyType-discrete, same_type, picked, base_type, base_members, is_int, is_single, compatible,
  any_compatible, member_compatible, same_or_widened,
}

pub decided-present :
    (t : PyType) (v : Value) (b : Bool) → is_none_value v ≡ false → decided t v b ≡ b
unfolding decided
decided-present t v b h = rw h refl

pub same_type_sound : (a b : PyType) → same_type a b ≡ true → a ≡ b
unfolding same_type
same_type_sound a b h =
    elim (PyType-discrete a b)
        as (λ d. elim d as (λ x. Bool) [ yes _ ↦ true | no _ ↦ false ] ≡ true → a ≡ b) [
          | yes e ↦ λ _. e
          | no ne ↦ λ g. absurd cc
        ]
      h

abbrev any_base : List PyType → Value → Bool
any_base [] v = false
any_base (b ∷ bs) v = accepts b v || any_base bs v

accepts-none_type : (t : PyType) (v : Value) → is_none_type t ≡ true → accepts t v ≡ false
unfolding accepts
accepts-none_type none_type v h = refl
accepts-none_type _ v h = absurd cc

module _ (v : Value) (present : is_none_value v ≡ false) where
  any_base-picked :
      (ts : Types) (bs : List PyType)
      → accepts (union ts) v ≡ any_base bs v
      → accepts (union ts) v ≡ accepts (picked (union ts) bs) v
  any_base-picked ts [] h = refl
  any_base-picked ts (b ∷ []) h = ground (arith, h)
  any_base-picked ts (b ∷ c ∷ bs) h = refl

  mutual
    unfolding accepts base_type

    -- Of a value that is not None.
    pub accepts-base_type : (t : PyType) → accepts t v ≡ accepts (base_type t) v
    accepts-base_type (annotated t) =
        decided-present t v (accepts t v) present ∙ accepts-base_type t
    accepts-base_type (union ts) =
        any_base-picked ts (base_members ts) (any_matches-base_members ts)
    accepts-base_type none_type = refl
    accepts-base_type any_type = refl
    accepts-base_type (plain c) = refl
    accepts-base_type (bare_container k) = refl
    accepts-base_type (container k t) = refl
    accepts-base_type (fixed_tuple ts) = refl
    accepts-base_type (mapping k t) = refl
    accepts-base_type (opaque tag) = refl

    any_matches-base_members : (ts : Types) → any_matches ts v ≡ any_base (base_members ts) v
    any_matches-base_members no_types = refl
    any_matches-base_members (one_type t ts) = elim (Bool-cases (is_none_type t)) [
      | inl is_it ↦ ground (
        arith,
        is_it,
        decided-present t v (accepts t v) present,
        accepts-none_type t v is_it,
        any_matches-base_members ts,
      )
      | inr is_not ↦ ground (
        arith,
        is_not,
        decided-present t v (accepts t v) present,
        accepts-base_type t,
        any_matches-base_members ts,
      )
    ]

  same_kept :
      (old new : PyType)
      → accepts old v ≡ true
      → is_int old ≡ false
      → same_or_widened old new ≡ true
      → accepts new v ≡ true
  same_kept old new a n h =
      let equal : same_type old new ≡ true = ground (arith, h, n) in
      subst (λ t. accepts t v ≡ true) (same_type_sound old new equal) a

  module _ (old : PyType) (taken : accepts old v ≡ true) (no_int : is_int old ≡ false) where
    mutual
      unfolding accepts compatible

      pub accepts-compatible : (t : PyType) → compatible old t ≡ true → accepts t v ≡ true
      accepts-compatible (annotated t) h =
          decided-present t v (accepts t v) present ∙ accepts-compatible t h
      accepts-compatible (union ts) h = elim (Bool-cases (is_single ts)) [
        | inl single ↦ any_matches-member ts (ground (arith, h, single))
        | inr several ↦ elim (Bool-cases (same_type old (union ts))) [
          | inl equal ↦ subst (λ t. accepts t v ≡ true) (same_type_sound old (union ts) equal) taken
          | inr apart ↦ any_matches-compatible ts (ground (arith, h, several, apart))
        ]
      ]
      accepts-compatible none_type h = same_kept old none_type taken no_int h
      accepts-compatible any_type h = same_kept old any_type taken no_int h
      accepts-compatible (plain c) h = same_kept old (plain c) taken no_int h
      accepts-compatible (bare_container k) h = same_kept old (bare_container k) taken no_int h
      accepts-compatible (container k t) h = same_kept old (container k t) taken no_int h
      accepts-compatible (fixed_tuple ts) h = same_kept old (fixed_tuple ts) taken no_int h
      accepts-compatible (mapping k t) h = same_kept old (mapping k t) taken no_int h
      accepts-compatible (opaque tag) h = same_kept old (opaque tag) taken no_int h

      any_matches-compatible : (ts : Types) → any_compatible old ts ≡ true → any_matches ts v ≡ true
      any_matches-compatible no_types h = absurd cc
      any_matches-compatible (one_type t ts) h = elim (Bool-cases (compatible old t)) [
        | inl here ↦
            ground (arith, decided-present t v (accepts t v) present, accepts-compatible t here)
        | inr further ↦ ground (arith, any_matches-compatible ts (ground (arith, h, further)))
      ]

      any_matches-member : (ts : Types) → member_compatible old ts ≡ true → any_matches ts v ≡ true
      any_matches-member no_types h = absurd cc
      any_matches-member (one_type t ts) h =
          elim (Bool-cases (not (is_none_type t) && compatible old t)) [
            | inl here ↦ ground (
              arith,
              decided-present t v (accepts t v) present,
              accepts-compatible t (ground (arith, here)),
            )
            | inr further ↦ ground (arith, any_matches-member ts (ground (arith, h, further)))
          ]

-- ===== src/StateEngine/Attributes.antt =====
-- `merge_attributes` and `gated_attr_merge` of state_engine.py: attributes with, beside them, the
-- key of the event that last wrote each.
pub mod Batch
mod Tests
use phlo_observe.Common.{
  ◌≡◌, refl, ◌∙◌, ◌≢◌, sym, Bool, true, false, String, Option, none, some, List, [], ◌∷◌, arith,
  str_eq, eq_iff, if◌then◌else◌, TotalOrder, less_asym, Option-cases, inl, inr, ap,
}
use phlo_observe.Common.Dict
use phlo_observe.Common.Dict.{Dict, Distinct, get-set}
use phlo_observe.StateEngine.Keys.{may_write}

pub record Gated (K V : Type 0) : Type 0 where
  pub attributes : Dict V
  pub attr_at : Dict K

module _ {K V : Type 0} ⦃o : TotalOrder K⦄ where
  unfoldable pub set_attribute : String → V → K → Gated K V → Gated K V
  set_attribute name value key s = record s {
    attributes = Dict.set name value s.attributes;
    attr_at = Dict.set name key s.attr_at;
  }

  -- One turn of the loop over the updates.
  pub merge_one : String → V → K → Gated K V → Gated K V
  merge_one name value key s =
      if may_write (Dict.get name s.attr_at) key then set_attribute name value key s else s

  pub merge_attributes : Dict V → K → Gated K V → Gated K V
  merge_attributes [] key s = s
  merge_attributes ((name, value) ∷ updates) key s =
      merge_attributes updates key (merge_one name value key s)

  -- The key that guards a field of the target; `legacy` stands in where a present field has none.
  pub gate_of : Option K → Gated K V → String → Option K
  gate_of legacy s name = elim (Dict.get name s.attr_at) [
    | some at ↦ some at
    | none ↦ elim (Dict.get name s.attributes) [ none ↦ none | some v ↦ legacy ]
  ]

  pub gated_one : Option K → Dict K → String → V → Gated K V → Gated K V
  gated_one legacy new_at name value s = elim (Dict.get name new_at) [
    | none ↦ s
    | some key ↦ if may_write (gate_of legacy s name) key then set_attribute name value key s else s
  ]

  pub gated_attr_merge : Option K → Dict V → Dict K → Gated K V → Gated K V
  gated_attr_merge legacy [] new_at s = s
  gated_attr_merge legacy ((name, value) ∷ attrs) new_at s =
      gated_attr_merge legacy attrs new_at (gated_one legacy new_at name value s)

  -- A field with the key that guards it.
  abbrev pub field : String → Gated K V → Option V × Option K
  field name s = (Dict.get name s.attributes, Dict.get name s.attr_at)

  -- What an update does to one field.
  abbrev pub updated : Option V → K → Option V × Option K → Option V × Option K
  updated none key cell = cell
  updated (some v) key cell = if may_write cell.1 key then (some v, some key) else cell

  pub field-merge_one :
      (j name : String) (value : V) (key : K) (s : Gated K V)
      → field j (merge_one name value key s)
        ≡ (if str_eq name j then updated (some value) key (field j s) else field j s)
  unfolding merge_one set_attribute
  field-merge_one j name value key s =
      ground (arith, get-set name j value s.attributes, get-set name j key s.attr_at, eq_iff name j)

  pub field-merge :
      (j : String) (updates : Dict V) (key : K) (s : Gated K V)
      → Distinct updates
      → field j (merge_attributes updates key s) ≡ updated (Dict.get j updates) key (field j s)
  unfolding merge_attributes Dict.get
  field-merge j [] key s d = refl
  field-merge j ((name, value) ∷ updates) key s d = ground (
    arith,
    field-merge j updates key (merge_one name value key s) d.1,
    field-merge_one j name value key s,
    eq_iff name j,
    d.0,
  )

  updated_comm :
      (v w : Option V) (k j : K) (cell : Option V × Option K)
      → k ≢ j
      → updated v k (updated w j cell) ≡ updated w j (updated v k cell)
  updated_comm none none k j cell h = refl
  updated_comm none (some w) k j cell h = refl
  updated_comm (some v) none k j cell h = refl
  updated_comm (some v) (some w) k j (u, none) h = ground (arith, less_asym k j, o.less_connex k j)
  updated_comm (some v) (some w) k j (u, some c) h = ground (
    arith,
    less_asym k j,
    o.less_connex k j,
    o.less_trans k j c,
    o.less_trans j k c,
    o.less_trans k c j,
    o.less_trans j c k,
    o.less_trans c j k,
    o.less_trans c k j,
    o.less_connex k c,
    o.less_connex j c,
  )

  -- Two merges of dicts, by events at different positions, give every attribute the same value and
  -- the same guarding key in either order.
  pub merge_attributes_comm :
      (name : String) (us vs : Dict V) (k j : K) (s : Gated K V)
      → Distinct us
      → Distinct vs
      → k ≢ j
      → field name (merge_attributes us k (merge_attributes vs j s))
        ≡ field name (merge_attributes vs j (merge_attributes us k s))
  merge_attributes_comm name us vs k j s d e apart =
      field-merge name us k (merge_attributes vs j s) d
      ∙ ap (updated (Dict.get name us) k) (field-merge name vs j s e)
      ∙ updated_comm (Dict.get name us) (Dict.get name vs) k j (field name s) apart
      ∙ ap (updated (Dict.get name vs) j) (sym (field-merge name us k s d))
      ∙ sym (field-merge name vs j (merge_attributes us k s) e)

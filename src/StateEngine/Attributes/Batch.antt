-- ===== src/StateEngine/Attributes/Batch.antt =====
-- `gated_attr_merge` of state_engine.py: a batch merged into a row at once.
use phlo_observe.Common.{
  ◌≡◌, refl, ◌∙◌, sym, ap, String, Option, none, some, List, [], ◌∷◌, arith, str_eq, eq_iff,
  if◌then◌else◌, TotalOrder, less_asym, fold, All, Option-cases, inl, inr, subst,
}
use phlo_observe.Common.Dict
use phlo_observe.Common.Dict.{Dict, Distinct, get-set, Distinct-set}
use phlo_observe.StateEngine.Attributes.{
  Gated, merge_attributes, merge_one, set_attribute, field, updated, field-merge, field-merge_one,
  gated_attr_merge, gated_one, gate_of,
}

module _ {K V : Type 0} ⦃o : TotalOrder K⦄ where
  -- A batch's field written into a row's.
  abbrev onto : Option V × Option K → Option V × Option K → Option V × Option K
  onto (some v, some key) cell = updated (some v) key cell
  onto _ cell = cell

  gate-none : (s : Gated K V) (name : String) → gate_of none s name ≡ Dict.get name s.attr_at
  unfolding gate_of
  gate-none s name = ground arith

  gated_absent :
      (new_at : Dict K) (name : String) (value : V) (s : Gated K V)
      → Dict.get name new_at ≡ none
      → gated_one none new_at name value s ≡ s
  unfolding gated_one
  gated_absent new_at name value s h = ground (arith, h)

  gated_present :
      (new_at : Dict K) (name : String) (value : V) (key : K) (s : Gated K V)
      → Dict.get name new_at ≡ some key
      → gated_one none new_at name value s ≡ merge_one name value key s
  unfolding gated_one merge_one
  gated_present new_at name value key s h = ground (arith, h, gate-none s name)

  field-gated_one :
      (j name : String) (value : V) (new_at : Dict K) (s : Gated K V)
      → field j (gated_one none new_at name value s)
        ≡ (if str_eq name j then onto (some value, Dict.get name new_at) (field j s) else field j s)
  field-gated_one j name value new_at s = elim (Option-cases (Dict.get name new_at)) [
    | inl absent ↦ rw (gated_absent new_at name value s absent, absent) (ground arith)
    | inr (key, found) ↦
        rw (gated_present new_at name value key s found, found) (field-merge_one j name value key s)
  ]

  field-gated :
      (j : String) (attrs : Dict V) (new_at : Dict K) (s : Gated K V)
      → Distinct attrs
      → field j (gated_attr_merge none attrs new_at s)
        ≡ onto (Dict.get j attrs, Dict.get j new_at) (field j s)
  unfolding gated_attr_merge Dict.get
  field-gated j [] new_at s d = refl
  field-gated j ((name, value) ∷ attrs) new_at s d = ground (
    arith,
    field-gated j attrs new_at (gated_one none new_at name value s) d.1,
    field-gated_one j name value new_at s,
    eq_iff name j,
    d.0,
  )

  -- A field has a value exactly if it has a key.
  abbrev Paired : Option V × Option K → Type 0
  Paired (none, none) = Unit
  Paired (some v, some k) = Unit
  Paired _ = ⊥

  Paired-updated :
      (u : Option V) (key : K) (cell : Option V × Option K)
      → Paired cell
      → Paired (updated u key cell)
  Paired-updated none key cell h = h
  Paired-updated (some v) key (none, none) h = tt
  Paired-updated (some v) key (none, some k) h = elim h [ ]
  Paired-updated (some v) key (some w, none) h = elim h [ ]
  Paired-updated (some v) key (some w, some k) h = ground arith

  -- One more event in the batch, or in the row after the batch.
  onto-updated :
      (u : Option V) (key : K) (b cell : Option V × Option K)
      → Paired b
      → onto (updated u key b) cell ≡ updated u key (onto b cell)
  onto-updated none key b cell h = refl
  onto-updated (some v) key (none, none) cell h = refl
  onto-updated (some v) key (none, some k) cell h = elim h [ ]
  onto-updated (some v) key (some w, none) cell h = elim h [ ]
  onto-updated (some v) key (some w, some k) (c, none) h = ground (arith, o.less_irrefl key)
  onto-updated (some v) key (some w, some k) (c, some i) h = ground (
    arith,
    o.less_trans key k i,
    o.less_trans k key i,
    o.less_trans key i k,
    o.less_trans k i key,
    o.less_trans i k key,
    o.less_trans i key k,
    less_asym key k,
    less_asym k i,
    less_asym key i,
    o.less_connex key k,
    o.less_connex k i,
    o.less_connex key i,
  )

  abbrev pub merge_update : Gated K V → Dict V × K → Gated K V
  merge_update s u = merge_attributes u.0 u.1 s

  Distinct-merge :
      (us : Dict V) (key : K) (s : Gated K V)
      → Distinct s.attributes
      → Distinct (merge_attributes us key s).attributes
  unfolding merge_attributes merge_one set_attribute
  Distinct-merge [] key s h = h
  Distinct-merge ((name, value) ∷ us) key s h =
      Distinct-merge us key (merge_one name value key s)
        (ground (arith, h, Distinct-set name value s.attributes h))

  batch_field :
      (j : String) (updates : List (Dict V × K)) (b row : Gated K V) (cell : Option V × Option K)
      → All (λ u. Distinct u.0) updates
      → Paired (field j b)
      → onto (field j b) cell ≡ field j row
      → onto (field j (fold merge_update b updates)) cell ≡ field j (fold merge_update row updates)
  batch_field j [] b row cell d p h = h
  batch_field j (u ∷ updates) b row cell d p h =
      let own = field-merge j u.0 u.1 b d.0 in
      batch_field j updates (merge_update b u) (merge_update row u) cell d.1
        (subst Paired (sym own) (Paired-updated (Dict.get j u.0) u.1 (field j b) p))
        (ap (λ c. onto c cell) own
          ∙ onto-updated (Dict.get j u.0) u.1 (field j b) cell p
          ∙ ap (updated (Dict.get j u.0) u.1) h
          ∙ sym (field-merge j u.0 u.1 row d.0))

  batch-Distinct :
      (updates : List (Dict V × K)) (b : Gated K V)
      → Distinct b.attributes
      → Distinct (fold merge_update b updates).attributes
  batch-Distinct [] b h = h
  batch-Distinct (u ∷ updates) b h =
      batch-Distinct updates (merge_update b u) (Distinct-merge u.0 u.1 b h)

  abbrev pub no_attributes : Gated K V
  no_attributes = record { attributes = []; attr_at = [] }

  -- A batch that is accumulated apart and then merged into a row gives every attribute the value and
  -- the key that merging its events into the row one by one gives, where no legacy gate applies.
  pub gated_attr_merge-batch :
      (name : String) (updates : List (Dict V × K)) (row : Gated K V)
      → All (λ u. Distinct u.0) updates
      → field name (
          gated_attr_merge none
            (fold merge_update no_attributes updates).attributes
            (fold merge_update no_attributes updates).attr_at
            row)
        ≡ field name (fold merge_update row updates)
  unfolding Dict.get
  gated_attr_merge-batch name updates row d =
      field-gated name (fold merge_update no_attributes updates).attributes
        (fold merge_update no_attributes updates).attr_at row
        (batch-Distinct updates no_attributes tt)
      ∙ batch_field name updates no_attributes row (field name row) d tt refl

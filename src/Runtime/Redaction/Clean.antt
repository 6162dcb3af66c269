-- ===== src/Runtime/Redaction/Clean.antt =====
-- `Redactor._redact` of redaction.py: what is left in a redacted value.
use phlo_observe.Common.{
  ℕ, ◌+◌, ◌<◌, ◌≡◌, refl, sym, subst, ◌∙◌, ◌⊎◌, inl, inr, true, false, List, [], ◌∷◌, ◌++◌, arith,
  ltb, if◌then◌else◌, Bool-cases,
}
use phlo_observe.Common.Codes.{Codes}
use phlo_observe.Runtime.Redaction.{
  Value, Items, Fields, null, boolean, number, text, object, array, no_items, item, no_fields,
  field, redacted, Redactor, key_hit, text_hit, entry_hit, redact, redact_fields, redact_items,
  redact_event,
}

module _ (r : Redactor) (extra : List Codes) where
  -- Down to the depth bound, an entry under a secret key, and an entry or item that is a secret text,
  -- has been replaced.
  unfoldable mutual
    pub Clean : List Codes → ℕ → Value → Type 0
    Clean path depth (object fields) = (r.max_depth < depth) ⊎ CleanFields path depth fields
    Clean path depth (array items) = (r.max_depth < depth) ⊎ CleanItems path depth items
    Clean path depth _ = Unit

    pub CleanFields : List Codes → ℕ → Fields → Type 0
    CleanFields path depth no_fields = Unit
    CleanFields path depth (field key value fields) =
        ((value ≡ text redacted)
          ⊎ (key_hit r key path extra ≡ false)
            × (text_hit r value ≡ false)
            × Clean (path ++ key ∷ []) (depth + 1) value)
        × CleanFields path depth fields

    pub CleanItems : List Codes → ℕ → Items → Type 0
    CleanItems path depth no_items = Unit
    CleanItems path depth (item value items) =
        ((value ≡ text redacted) ⊎ (text_hit r value ≡ false) × Clean path (depth + 1) value)
        × CleanItems path depth items

  -- A redaction makes no secret text out of what was none.
  text_hit-redact :
      (path : List Codes) (depth : ℕ) (value : Value)
      → text_hit r (redact r extra path depth value) ≡ text_hit r value
  unfolding redact text_hit
  text_hit-redact path depth null = refl
  text_hit-redact path depth (boolean b) = refl
  text_hit-redact path depth (number n) = refl
  text_hit-redact path depth (text s) = refl
  text_hit-redact path depth (object _) = ground arith
  text_hit-redact path depth (array _) = ground arith

  entry_miss :
      (path : List Codes) (key : Codes) (value : Value)
      → entry_hit r extra path key value ≡ false
      → (key_hit r key path extra ≡ false) × (text_hit r value ≡ false)
  unfolding entry_hit
  entry_miss path key value h = ground arith

  field-Clean :
      (path : List Codes) (depth : ℕ) (key : Codes) (value : Value)
      → Clean (path ++ key ∷ []) (depth + 1) (redact r extra (path ++ key ∷ []) (depth + 1) value)
      → ((if entry_hit r extra path key value
            then text redacted
            else redact r extra (path ++ key ∷ []) (depth + 1) value)
          ≡ text redacted)
        ⊎ (key_hit r key path extra ≡ false)
          × (text_hit r (
                if entry_hit r extra path key value
                then text redacted
                else redact r extra (path ++ key ∷ []) (depth + 1) value)
              ≡ false)
          × Clean (path ++ key ∷ []) (depth + 1) (
              if entry_hit r extra path key value
              then text redacted
              else redact r extra (path ++ key ∷ []) (depth + 1) value)
  field-Clean path depth key value h = elim (Bool-cases (entry_hit r extra path key value)) [
    | inl hit ↦ rw hit (inl refl)
    | inr miss ↦
        let (key_missed, text_missed) = entry_miss path key value miss in
        rw miss
          (inr (key_missed, text_hit-redact (path ++ key ∷ []) (depth + 1) value ∙ text_missed, h))
  ]

  item-Clean :
      (path : List Codes) (depth : ℕ) (value : Value)
      → Clean path (depth + 1) (redact r extra path (depth + 1) value)
      → ((if text_hit r value then text redacted else redact r extra path (depth + 1) value)
          ≡ text redacted)
        ⊎ (text_hit r
              (if text_hit r value then text redacted else redact r extra path (depth + 1) value)
            ≡ false)
          × Clean path
              (depth + 1)
              (if text_hit r value then text redacted else redact r extra path (depth + 1) value)
  item-Clean path depth value h = elim (Bool-cases (text_hit r value)) [
    | inl hit ↦ rw hit (inl refl)
    | inr miss ↦ rw miss (inr (text_hit-redact path (depth + 1) value ∙ miss, h))
  ]

  mutual
    unfolding redact Clean

    redact-Clean :
        (path : List Codes) (depth : ℕ) (value : Value)
        → Clean path depth (redact r extra path depth value)
    redact-Clean path depth null = tt
    redact-Clean path depth (boolean b) = tt
    redact-Clean path depth (number n) = tt
    redact-Clean path depth (text s) = tt
    redact-Clean path depth (object fields) = elim (Bool-cases (ltb r.max_depth depth)) [
      | inl deep ↦ rw deep (inl (ground (arith, deep)))
      | inr within ↦ rw within (inr (redact-CleanFields path depth fields))
    ]
    redact-Clean path depth (array items) = elim (Bool-cases (ltb r.max_depth depth)) [
      | inl deep ↦ rw deep (inl (ground (arith, deep)))
      | inr within ↦ rw within (inr (redact-CleanItems path depth items))
    ]

    redact-CleanFields :
        (path : List Codes) (depth : ℕ) (fields : Fields)
        → CleanFields path depth (redact_fields r extra path depth fields)
    redact-CleanFields path depth no_fields = tt
    redact-CleanFields path depth (field key value fields) = (
      field-Clean path depth key value (redact-Clean (path ++ key ∷ []) (depth + 1) value),
      redact-CleanFields path depth fields,
    )

    redact-CleanItems :
        (path : List Codes) (depth : ℕ) (items : Items)
        → CleanItems path depth (redact_items r extra path depth items)
    redact-CleanItems path depth no_items = tt
    redact-CleanItems path depth (item value items) = (
      item-Clean path depth value (redact-Clean path (depth + 1) value),
      redact-CleanItems path depth items,
    )

redacted_when :
    (r : Redactor) (extra : List Codes) (envelope : Value)
    → r.enabled ≡ true
    → redact_event r extra envelope ≡ redact r extra [] 0 envelope
unfolding redact_event
redacted_when r extra envelope on = ground (arith, on)

-- Where redaction is enabled, a redacted event holds, down to the depth bound, no value under a
-- secret key and no secret text that is not the marker.
pub redact_event-Clean :
    (r : Redactor) (extra : List Codes) (envelope : Value)
    → r.enabled ≡ true
    → Clean r extra [] 0 (redact_event r extra envelope)
redact_event-Clean r extra envelope on =
    subst (λ v. Clean r extra [] 0 v) (sym (redacted_when r extra envelope on))
      (redact-Clean r extra [] 0 envelope)

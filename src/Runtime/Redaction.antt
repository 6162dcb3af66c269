-- ===== src/Runtime/Redaction.antt =====
-- redaction.py of observe_core: `Redactor` over normalized values. A text is the list of its code
-- points. The value patterns and a caller's key regexes are tests that the redactor is given.
pub mod Keys
pub mod Clean
mod Tests
use phlo_observe.Common.{
  ℕ, ◌+◌, Bool, true, false, ◌&&◌, ◌||◌, not, Option, none, some, List, [], ◌∷◌, ◌++◌, ltb, leb,
  if◌then◌else◌, length,
}
use phlo_observe.Common.Codes.{Codes, codes, same_codes, ends_codes, join_codes}

-- A normalized value: what a JSON document can hold.
mutual
  pub data Value : Type 0 where
    null : Value
    boolean : Bool → Value
    number : ℕ → Value
    text : Codes → Value
    object : Fields → Value
    array : Items → Value

  pub data Items : Type 0 where
    no_items : Items
    item : Value → Items → Items

  pub data Fields : Type 0 where
    no_fields : Fields
    field : Codes → Value → Fields → Fields

abbrev pub redacted : Codes
redacted = codes "[REDACTED]"

-- `key_secret` is the verdict that does not depend on the path.
pub record Redactor : Type 0 where
  pub enabled : Bool
  pub key_secret : Codes → Bool
  pub path_rules : List Codes
  pub value_secret : Codes → Bool
  pub max_depth : ℕ

pub path_matches : Codes → List Codes → Bool
path_matches dotted [] = false
path_matches dotted (rule ∷ rules) =
    (same_codes dotted rule || ends_codes (codes "." ++ rule) dotted) || path_matches dotted rules

-- `_key_hit`
pub key_hit : Redactor → Codes → List Codes → List Codes → Bool
key_hit r key path extra_paths =
    r.key_secret key
    || path_matches (join_codes (codes ".") (path ++ key ∷ [])) (r.path_rules ++ extra_paths)

pub text_hit : Redactor → Value → Bool
text_hit r (text s) = r.value_secret s
text_hit r _ = false

pub entry_hit : Redactor → List Codes → List Codes → Codes → Value → Bool
entry_hit r extra path key value = key_hit r key path extra || text_hit r value

-- `_redact`, with the path and the depth of the node.
unfoldable mutual
  pub redact : Redactor → List Codes → List Codes → ℕ → Value → Value
  redact r extra path depth (object fields) =
      let inside = redact_fields r extra path depth fields in
      if ltb r.max_depth depth then object fields else object inside
  redact r extra path depth (array items) =
      let inside = redact_items r extra path depth items in
      if ltb r.max_depth depth then array items else array inside
  redact r extra path depth null = null
  redact r extra path depth (boolean b) = boolean b
  redact r extra path depth (number n) = number n
  redact r extra path depth (text s) = text s

  pub redact_fields : Redactor → List Codes → List Codes → ℕ → Fields → Fields
  redact_fields r extra path depth no_fields = no_fields
  redact_fields r extra path depth (field key value fields) =
      let inside = redact r extra (path ++ key ∷ []) (depth + 1) value in
      let rest = redact_fields r extra path depth fields in
      field key (if entry_hit r extra path key value then text redacted else inside) rest

  pub redact_items : Redactor → List Codes → List Codes → ℕ → Items → Items
  redact_items r extra path depth no_items = no_items
  redact_items r extra path depth (item value items) =
      let inside = redact r extra path (depth + 1) value in
      let rest = redact_items r extra path depth items in
      item (if text_hit r value then text redacted else inside) rest

pub redact_event : Redactor → List Codes → Value → Value
redact_event r extra envelope = if r.enabled then redact r extra [] 0 envelope else envelope

pub redact_value : Redactor → List Codes → List Codes → Value → Value
redact_value r extra path value = if r.enabled then redact r extra path 0 value else value

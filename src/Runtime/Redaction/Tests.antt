-- ===== src/Runtime/Redaction/Tests.antt =====
-- Tests of the redaction model, and its theorems at a concrete event.
use phlo_observe.Common.{◌≡◌, refl, Bool, true, false, [], ◌∷◌, arith}
use phlo_observe.Common.Codes.{Codes, codes, same_codes, starts_codes, lower}
use phlo_observe.Runtime.Redaction.{
  Value, text, object, array, item, no_items, field, no_fields, Redactor, redact_event,
}
use phlo_observe.Runtime.Redaction.Keys.{
  is_secret_key, key_segments, key_hit_uncached, IsSound, key_verdict, key_verdict-IsSound,
  segments_match,
}
use phlo_observe.Runtime.Redaction.Clean.{Clean, redact_event-Clean}

abbrev no_regex : Codes → Bool
no_regex s = false

abbrev plain_redactor : Redactor
plain_redactor = record {
  enabled = true;
  key_secret = key_hit_uncached [] no_regex;
  path_rules = codes "db.url" ∷ [];
  value_secret = starts_codes (codes "Bearer ");
  max_depth = 8;
}

abbrev login : Value
login = object (
    field (codes "user") (text (codes "ann")) (
      field (codes "accessToken") (text (codes "x1"))
        (field (codes "headers") (array (item (text (codes "Bearer y2")) no_items)) no_fields)))

camel_test : is_secret_key (codes "accessToken") ≡ true
unfolding is_secret_key key_segments segments_match same_codes lower
camel_test = refl

monkey_test : is_secret_key (codes "monkey") ≡ false
unfolding is_secret_key key_segments segments_match same_codes lower
monkey_test = refl

redact_event-Clean_example : Clean plain_redactor [] [] 0 (redact_event plain_redactor [] login)
redact_event-Clean_example = redact_event-Clean plain_redactor [] login refl

empty_cache-IsSound : IsSound is_secret_key []
empty_cache-IsSound = record { agrees = tt; bounded = omega arith }

key_verdict-IsSound_example :
    ((key_verdict is_secret_key (codes "token") []).0 ≡ is_secret_key (codes "token"))
    × IsSound is_secret_key (key_verdict is_secret_key (codes "token") []).1
key_verdict-IsSound_example =
    key_verdict-IsSound is_secret_key (codes "token") [] empty_cache-IsSound

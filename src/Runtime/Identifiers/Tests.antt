-- ===== src/Runtime/Identifiers/Tests.antt =====
-- Identifiers on concrete texts.
use phlo_observe.Common.{All, ◌≡◌, ◌↔◌, refl, Option, none, some, List, [], ◌∷◌}
use phlo_observe.Common.Codes.{Codes, codes, join_codes, starts_codes, is_space}
use phlo_observe.Runtime.Identifiers.{
  EntityId, render, strip, strip_left, strip_right, parse_entity_id, entity_id, parts, iceberg_id,
  parts_from, is_namespace, all_codes, clean_parts, keep_part, from_parts, match_uri, matched,
  span_name, after_scheme, is_path,
}
use phlo_observe.Runtime.Identifiers.RoundTrip.{IsCanonical, parse_entity_id-render}
use phlo_observe.Runtime.Identifiers.Build.{PartNoSpace, entity_id_round_trip}

abbrev table_name : EntityId
table_name = record { namespace = codes "iceberg"; path = codes "lake/raw/events" }

iceberg_test :
    iceberg_id
      (codes "/lake/")
      (some (codes "raw") ∷ none ∷ some (codes "//") ∷ some (codes "events") ∷ [])
    ≡ some table_name
unfolding iceberg_id entity_id is_namespace all_codes clean_parts keep_part from_parts strip
    strip_left strip_right join_codes
iceberg_test = refl

parts_test : parts table_name ≡ codes "lake" ∷ codes "raw" ∷ codes "events" ∷ []
unfolding parts parts_from
parts_test = refl

spaced_test : parse_entity_id (codes "asset://my table") ≡ none
unfolding parse_entity_id match_uri matched span_name after_scheme starts_codes is_namespace is_path
    all_codes strip strip_left strip_right
spaced_test = refl

parse_entity_id-render_example :
    (parse_entity_id (codes " asset://a ")
      ≡ some (record { namespace = codes "asset"; path = codes "a" }))
    ↔ (IsCanonical (record { namespace = codes "asset"; path = codes "a" })
        × (render (record { namespace = codes "asset"; path = codes "a" })
            ≡ strip is_space (codes " asset://a ")))
parse_entity_id-render_example =
    parse_entity_id-render (codes " asset://a ")
      (record { namespace = codes "asset"; path = codes "a" })

abbrev lake_parts : List (Option Codes)
lake_parts = some (codes "lake/") ∷ none ∷ some (codes "raw/events") ∷ []

lake_no_space : All PartNoSpace lake_parts
unfolding all_codes
lake_no_space = (refl, (tt, (refl, tt)))

lake_built : entity_id (codes "iceberg") lake_parts ≡ some table_name
unfolding entity_id is_namespace all_codes clean_parts keep_part from_parts strip strip_left
    strip_right join_codes
lake_built = refl

entity_id_round_trip_example : parse_entity_id (render table_name) ≡ some table_name
entity_id_round_trip_example =
    entity_id_round_trip (codes "iceberg") lake_parts table_name lake_no_space lake_built

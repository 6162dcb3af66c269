-- ===== src/StateEngine/Entities/Tests.antt =====
-- The theorems on entities and edges at a concrete event.
use phlo_observe.Common.{◌≡◌, refl, false, none, some, [], ◌∷◌, All}
use phlo_observe.Common.Dict
use phlo_observe.Common.Dict.{Dict}
use phlo_observe.StateEngine.Event.{Event, Outcome, or_else}
use phlo_observe.StateEngine.Entities.{
  event_entities, derived_entities, edges_of, entity_rows, display_name, after_first, strip,
}
use phlo_observe.StateEngine.Entities.Edges.{Joins, edges-Joins}
use phlo_observe.StateEngine.Entities.Lookup.{get-event_entities}
use phlo_observe.StateEngine.Entities.Rows.{described, get-entity_rows}

abbrev written : Event
written = record {
  event_id = "e1";
  event = "asset.write";
  observed_at = some 10;
  started_at = none;
  ended_at = none;
  outcome = some Outcome.success;
  severity = none;
  has_error = false;
  duration_ms = none;
  correlation = record {
    run_id = some "r1";
    job_id = none;
    asset_key = some "a";
    branch = some "dev";
    table = none;
    snapshot_id = none;
  };
  attributes = record {
    trigger = none;
    freshness_sla_seconds = none;
    base_branch = none;
    target = none;
    snapshot_id = none;
  };
  service_name = some "svc";
  environment = none;
  source_producer = none;
  source_adapter = none;
  entities = ("asset", "asset://other") ∷ [];
}

display_name_test : display_name "table://t" ≡ "t"
unfolding display_name after_first strip
display_name_test = refl

edges-Joins_example : All (Joins (event_entities written)) (edges_of written)
edges-Joins_example = edges-Joins written

get-event_entities_example :
    Dict.get "asset" (event_entities written)
    ≡ or_else (Dict.get "asset" written.entities) (Dict.get "asset" (derived_entities written))
unfolding Dict.get
get-event_entities_example = get-event_entities "asset" written (refl, tt)

get-entity_rows_example :
    Dict.get "branch://phlo/dev" (entity_rows written)
    ≡ described written (event_entities written) "branch://phlo/dev"
get-entity_rows_example = get-entity_rows written "branch://phlo/dev"

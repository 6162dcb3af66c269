-- ===== src/StateEngine/Entities.antt =====
-- The entity registry and the relationship edges of state_engine.py: `event_producer`,
-- `event_entities`, `_branch_attributes`, `entity_rows`, `edges_of` and `derive`. The producer's
-- fallbacks read the `source` and `service` sections, whose fields stand in the event.
pub mod Lookup
pub mod Rows
pub mod Edges
mod Tests
use Prim.Native.Char.{code}
use Prim.Native.String.{◌++◌ as ◌<>◌}
use phlo_observe.Common.{
  ℕ, String, Bool, true, false, ◌||◌, Option, none, some, List, [], ◌∷◌, ◌++◌, ◌==◌, str_eq,
  if◌then◌else◌, ends_with,
}
use phlo_observe.Common.Dict
use phlo_observe.Common.Dict.{Dict}
use phlo_observe.StateEngine.Event.{Event, Time, Outcome, or_else, non_empty, verb_of, is_one_of}

abbrev pub or_text : Option String → String → String
or_text none t = t
or_text (some s) t = s

pub event_producer : Event → String
event_producer e =
    or_text
      (or_else (non_empty e.source_producer)
        (or_else (non_empty e.source_adapter) (non_empty e.service_name)))
      "phlo"

abbrev add_role : String → Option String → Dict String → Dict String
add_role role none d = d
add_role role (some eid) d = Dict.set role eid d

abbrev prefixed : String → Option String → Option String
prefixed scheme none = none
prefixed scheme (some s) = some (scheme <> s)

-- The identifiers that the correlation and the service give.
pub derived_entities : Event → Dict String
unfolding event_producer
derived_entities e =
    let producer = event_producer e in
    let corr = e.correlation in
    let table = or_text (non_empty corr.table) "unknown" in
    add_role "service" (prefixed "service://" (non_empty e.service_name)) (
      add_role "snapshot" (prefixed (("snapshot://" <> table) <> "/") (non_empty corr.snapshot_id))
        (add_role "branch" (prefixed (("branch://" <> producer) <> "/") (non_empty corr.branch)) (
          add_role "table" (prefixed "table://" (non_empty corr.table)) (
            add_role "asset" (prefixed "asset://" (non_empty corr.asset_key)) (
              add_role "run" (prefixed (("run://" <> producer) <> "/") (non_empty corr.run_id))
                [])))))

-- `dict.update`
pub update : Dict String → Dict String → Dict String
update d [] = d
update d ((role, eid) ∷ m) = update (Dict.set role eid d) m

pub event_entities : Event → Dict String
event_entities e = update (derived_entities e) e.entities

pub role_namespaces : Dict String
role_namespaces =
    ("run", "run")
    ∷ ("asset", "asset")
    ∷ ("table", "table")
    ∷ ("iceberg", "iceberg")
    ∷ ("branch", "branch")
    ∷ ("model", "model")
    ∷ ("source", "source")
    ∷ ("snapshot", "snapshot")
    ∷ ("service", "service")
    ∷ ("deployment", "deployment")
    ∷ ("quality_suite", "quality")
    ∷ ("incident", "incident")
    ∷ []

pub verb_edges : Dict String
verb_edges =
    ("read", "reads_from")
    ∷ ("scan", "reads_from")
    ∷ ("query", "reads_from")
    ∷ ("extract", "reads_from")
    ∷ ("write", "writes_to")
    ∷ ("load", "writes_to")
    ∷ ("commit", "writes_to")
    ∷ ("materialize", "produces")
    ∷ ("materialized", "produces")
    ∷ ("produce", "produces")
    ∷ ("execute", "produces")
    ∷ ("validate", "validates")
    ∷ ("check", "validates")
    ∷ ("test", "validates")
    ∷ ("promote", "promotes")
    ∷ ("publish", "promotes")
    ∷ []

-- A value of a branch's attributes.
pub data Value : Type 0 where
  text : Option String → Value
  moment : Option Time → Value
  verdict : Option Outcome → Value

abbrev is_success : Option Outcome → Bool
is_success (some Outcome.success) = true
is_success _ = false

abbrev if_there : String → Option String → Dict Value
if_there name none = []
if_there name (some s) = (name, text (some s)) ∷ []

pub branch_attributes : Event → Dict Value
branch_attributes e =
    let name = e.event in
    let observed = moment e.observed_at in
    if is_one_of ("wap.branch.create" ∷ "nessie.branch.create" ∷ []) name
    then ("state", text (some "open"))
      ∷ ("created_at", observed)
      ∷ if_there "base_branch" (non_empty e.attributes.base_branch)
    else if ends_with ".validate" name
    then ("validation", verdict e.outcome) ∷ ("validated_at", observed) ∷ []
    else if ends_with ".promote" name
    then ("state", text (some (if is_success e.outcome then "promoted" else "promotion_failed")))
      ∷ ("promoted_at", observed)
      ∷ ("target", text e.attributes.target)
      ∷ []
    else if ends_with ".reject" name
    then ("state", text (some "rejected")) ∷ ("rejected_at", observed) ∷ []
    else if ends_with ".cleanup" name
    then ("state", text (some "cleaned")) ∷ ("cleaned_at", observed) ∷ []
    else if ends_with ".commit" name
    then ("last_commit_at", observed)
      ∷ if_there "last_snapshot_id" (non_empty e.attributes.snapshot_id)
    else []

strip : String → String → Option String
strip String.[] s = some s
strip (String.◌∷◌ p ps) String.[] = none
strip (String.◌∷◌ p ps) (String.◌∷◌ c s) =
    let rest = strip ps s in if code p == code c then rest else none

after_first : String → String → Option String
after_first sep String.[] = strip sep String.[]
after_first sep (String.◌∷◌ c s) =
    let later = after_first sep s in or_else (strip sep (String.◌∷◌ c s)) later

-- `eid.split("://", 1)[-1]`
pub display_name : String → String
unfolding after_first strip
display_name eid = or_text (after_first "://" eid) eid

pub record EntityRow : Type 0 where
  pub kind : String
  pub display_name : String
  pub attributes : Dict Value

abbrev pub kind_of : String → String
kind_of role = or_text (Dict.get role role_namespaces) role

abbrev pub row_or : EntityRow → Option EntityRow → EntityRow
row_or new none = new
row_or new (some row) = row

abbrev pub with_updates : Dict Value → EntityRow → EntityRow
with_updates [] row = row
with_updates (u ∷ us) row = record row { attributes = u ∷ us }

-- The rows by identifier: `setdefault`, then the lifecycle fields of a branch.
pub rows_of : Event → Dict String → Dict EntityRow → Dict EntityRow
unfolding display_name role_namespaces
rows_of e [] rows = rows
rows_of e ((role, eid) ∷ m) rows =
    let row =
      row_or (record { kind = kind_of role; display_name = display_name eid; attributes = [] })
        (Dict.get eid rows) in
    let done = if str_eq role "branch" then with_updates (branch_attributes e) row else row in
    rows_of e m (Dict.set eid done rows)

pub entity_rows : Event → Dict EntityRow
entity_rows e = rows_of e (event_entities e) []

-- An edge, `explicit` and of full confidence as every edge of `edges_of`.
pub record Edge : Type 0 where
  pub from_entity : String
  pub to_entity : String
  pub relationship_type : String

-- The identifier in a role, if there is one that counts as true.
abbrev pub present : String → Dict String → Option String
present role d = non_empty (Dict.get role d)

unfoldable pub edge_between : Option String → Option String → String → List Edge
edge_between (some a) (some b) type =
    record { from_entity = a; to_entity = b; relationship_type = type } ∷ []
edge_between _ _ type = []

pub target_edges : Dict String → String → List String → List Edge
target_edges d type [] = []
target_edges d type (role ∷ roles) =
    edge_between (present "run" d) (present role d) type ++ target_edges d type roles

pub edges_among : Dict String → String → List Edge
edges_among d type =
    edge_between (present "service" d) (present "run" d) "executes"
    ++ (target_edges d type ("asset" ∷ "table" ∷ "iceberg" ∷ "model" ∷ "snapshot" ∷ [])
        ++ (edge_between (present "run" d) (present "branch" d) "writes_to"
            ++ (edge_between (present "source" d) (present "asset" d) "produces"
                ++ edge_between (present "run" d) (present "deployment" d) "deployed_as")))

pub edges_of : Event → List Edge
edges_of e =
    edges_among (event_entities e) (or_text (Dict.get (verb_of e.event) verb_edges) "part_of")

pub record DerivedBatch : Type 0 where
  pub run_id : Option String
  pub entities : Dict EntityRow
  pub edges : List Edge
  pub asset_entity_id : Option String

pub derive : Event → DerivedBatch
derive e = record {
  run_id = e.correlation.run_id;
  entities = entity_rows e;
  edges = edges_of e;
  asset_entity_id = present "asset" (event_entities e);
}

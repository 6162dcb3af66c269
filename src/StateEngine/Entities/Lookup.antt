-- ===== src/StateEngine/Entities/Lookup.antt =====
-- `event_entities` of state_engine.py, by lookup.
use phlo_observe.Common.{◌≡◌, refl, String, [], ◌∷◌, arith, eq_iff}
use phlo_observe.Common.Dict
use phlo_observe.Common.Dict.{Dict, Distinct, get-set}
use phlo_observe.StateEngine.Event.{Event, or_else}
use phlo_observe.StateEngine.Entities.{event_entities, derived_entities, update}

get-update :
    (role : String) (d m : Dict String)
    → Distinct m
    → Dict.get role (update d m) ≡ or_else (Dict.get role m) (Dict.get role d)
unfolding update Dict.get
get-update role d [] h = refl
get-update role d ((r, eid) ∷ m) h =
    ground
      (arith, get-update role (Dict.set r eid d) m h.1, get-set r role eid d, eq_iff r role, h.0)

-- An identifier that the envelope declares for a role wins over the one derived from correlation,
-- and every other role keeps its derived one.
pub get-event_entities :
    (role : String) (e : Event)
    → Distinct e.entities
    → Dict.get role (event_entities e)
      ≡ or_else (Dict.get role e.entities) (Dict.get role (derived_entities e))
unfolding event_entities
get-event_entities role e h = get-update role (derived_entities e) e.entities h

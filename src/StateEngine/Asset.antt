-- ===== src/StateEngine/Asset.antt =====
-- The asset reducer of state_engine.py: `new_asset_state`, `_asset_status`, `materialized_before`
-- and `apply_asset_event`.
pub mod Fields
pub mod Order
pub mod AsOf
use phlo_observe.Common.{
  ℕ, String, Bool, true, false, Option, none, some, List, [], ◌∷◌, if◌then◌else◌, TotalOrder, ltb,
  at_least,
}
use phlo_observe.StateEngine.Event.{
  Event, Key, Time, Outcome, success, failure, time_order, key_order, event_key, event_time,
  verb_of, is_one_of,
}
use phlo_observe.StateEngine.Keys.{Latest, unset, set_latest, insert_sorted, newest, record_event}

pub data AssetStatus : Type 0 where
  unknown healthy failing recovering : AssetStatus

-- The reducer never changes the asset's identifiers and its `attributes`; they are left out.
-- `derived_from` is a projection of `derived_keys`.
pub record AssetState : Type 0 where
  pub status : AssetStatus
  pub last_materialized_at : Option Time
  pub last_event_at : Option Time
  pub freshness_sla_seconds : Latest Key ℕ
  pub derived_keys : List Key
  pub materialize_times : List Key
  pub last_failure : Option Key

abbrev pub new_asset_state : AssetState
new_asset_state = record {
  status = unknown;
  last_materialized_at = none;
  last_event_at = none;
  freshness_sla_seconds = unset;
  derived_keys = [];
  materialize_times = [];
  last_failure = none;
}

abbrev pub max_materialize_times : ℕ
max_materialize_times = 64

abbrev pub materialize_verbs : List String
materialize_verbs = "materialize" ∷ "materialized" ∷ "produce" ∷ "write" ∷ "load" ∷ "execute" ∷ []

-- `items[-1]`
abbrev pub last_of {ℓ} : {A : Type ℓ} → List A → Option A
last_of [] = none
last_of (x ∷ []) = some x
last_of (x ∷ y ∷ ys) = last_of (y ∷ ys)

abbrev status_from : Option Key → Option Key → AssetStatus
status_from none none = unknown
status_from (some good) none = healthy
status_from none (some bad) = failing
status_from (some good) (some bad) = if at_least bad good then failing else recovering

unfoldable pub asset_status : AssetState → AssetStatus
asset_status s = status_from (last_of s.materialize_times) s.last_failure

-- The later of the recorded moment and a new one.
abbrev pub later : {A : Type 0} ⦃o : TotalOrder A⦄ → Option A → A → Option A
later none new = some new
later ⦃o⦄ (some old) new = if o.less old new then some new else some old

abbrev pub later_if_any : Option Time → Option Time → Option Time
later_if_any old none = old
later_if_any old (some t) = later old t

-- The branch of a materialization verb, before the status is computed anew.
unfoldable pub note_outcome : Option Outcome → Time → Key → AssetState → AssetState
note_outcome (some success) observed key s = record s {
  materialize_times = insert_sorted newest max_materialize_times key s.materialize_times;
  last_materialized_at = later s.last_materialized_at observed;
}
note_outcome (some failure) observed key s = record s { last_failure = later s.last_failure key }
note_outcome _ observed key s = s

unfoldable pub with_status : AssetState → AssetState
with_status s = record s { status = asset_status s }

unfoldable pub materialization : Option Time → Option Outcome → Key → AssetState → AssetState
materialization none outcome key s = s
materialization (some observed) outcome key s = with_status (note_outcome outcome observed key s)

unfoldable pub apply_asset_event : AssetState → Event → AssetState
unfolding materialization note_outcome with_status
apply_asset_event s e =
    let observed = event_time e in
    let key = event_key e in
    let seen : AssetState = record s {
      derived_keys = record_event e s.derived_keys;
      last_event_at = later_if_any s.last_event_at observed;
    } in
    let done : AssetState =
      if is_one_of materialize_verbs (verb_of e.event)
      then materialization observed e.outcome key seen
      else seen in
    record done {
      freshness_sla_seconds =
          set_latest e.attributes.freshness_sla_seconds key s.freshness_sla_seconds;
    }

-- The entry before the position `bisect.bisect_left` finds in an ascending list.
pub newest_before : {A : Type 0} ⦃o : TotalOrder A⦄ → A → Option A → List A → Option A
newest_before key best [] = best
newest_before ⦃o⦄ key best (x ∷ xs) =
    let rest = newest_before key (some x) xs in if o.less x key then rest else best

abbrev pub moment_of : Option Key → Option Time
moment_of none = none
moment_of (some k) = some k.0

unfoldable pub materialized_before : AssetState → Key → Option Time
materialized_before s key = moment_of (newest_before key none s.materialize_times)

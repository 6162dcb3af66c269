-- ===== src/StateEngine/Asset/Fields.antt =====
-- What one event does to each field of the asset state.
use phlo_observe.Common.{
  ◌≡◌, refl, Option, none, some, List, arith, if◌then◌else◌, TotalOrder, less_asym,
}
use phlo_observe.StateEngine.Event.{
  Event, Key, Time, Outcome, success, failure, time_order, key_order, event_key, event_time,
  verb_of, is_one_of,
}
use phlo_observe.StateEngine.Keys.{insert_sorted, newest, record_event, set_latest}
use phlo_observe.StateEngine.Keys.Windows.{IsWindow, insert_sorted_comm, insert_sorted-IsWindow}
use phlo_observe.StateEngine.Asset.{
  AssetState, later, later_if_any, note_outcome, with_status, materialization, apply_asset_event,
  asset_status, materialize_verbs, max_materialize_times,
}

-- The moment and the outcome of a materialization that the reducer takes into account.
pub materialized : Event → Option (Time × Outcome)
materialized e =
    if is_one_of materialize_verbs (verb_of e.event)
    then (elim (event_time e) [
      | none ↦ none
      | some t ↦ elim e.outcome [ none ↦ none | some o ↦ some (t, o) ]
    ])
    else none

pub times_with : Option (Time × Outcome) → Key → List Key → List Key
times_with (some (t, success)) key times = insert_sorted newest max_materialize_times key times
times_with _ key times = times

pub success_with : Option (Time × Outcome) → Option Time → Option Time
success_with (some (t, success)) old = later old t
success_with _ old = old

pub failure_with : Option (Time × Outcome) → Key → Option Key → Option Key
failure_with (some (t, failure)) key old = later old key
failure_with _ key old = old

module _ (s : AssetState) (e : Event) where
  pub times-apply :
      (apply_asset_event s e).materialize_times
      ≡ times_with (materialized e) (event_key e) s.materialize_times
  unfolding apply_asset_event materialization note_outcome with_status materialized times_with
  times-apply = ground arith

  pub success-apply :
      (apply_asset_event s e).last_materialized_at
      ≡ success_with (materialized e) s.last_materialized_at
  unfolding apply_asset_event materialization note_outcome with_status materialized success_with
  success-apply = ground arith

  pub failure-apply :
      (apply_asset_event s e).last_failure
      ≡ failure_with (materialized e) (event_key e) s.last_failure
  unfolding apply_asset_event materialization note_outcome with_status materialized failure_with
  failure-apply = ground arith

  pub seen-apply :
      (apply_asset_event s e).last_event_at ≡ later_if_any s.last_event_at (event_time e)
  unfolding apply_asset_event materialization note_outcome with_status
  seen-apply = ground arith

  pub derived-apply : (apply_asset_event s e).derived_keys ≡ record_event e s.derived_keys
  unfolding apply_asset_event materialization note_outcome with_status
  derived-apply = ground arith

  pub freshness-apply :
      (apply_asset_event s e).freshness_sla_seconds
      ≡ set_latest e.attributes.freshness_sla_seconds (event_key e) s.freshness_sla_seconds
  unfolding apply_asset_event
  freshness-apply = refl

  -- The status is that of the recorded outcomes, before and after.
  pub status-apply :
      s.status ≡ asset_status s
      → (apply_asset_event s e).status ≡ asset_status (apply_asset_event s e)
  unfolding apply_asset_event materialization note_outcome with_status asset_status
  status-apply h = ground arith

-- Two keepers of the maximum commute.
pub later_comm :
    {A : Type 0} ⦃o : TotalOrder A⦄ (old : Option A) (a b : A)
    → later (later old a) b ≡ later (later old b) a
later_comm ⦃o⦄ none a b = ground (arith, less_asym a b, o.less_connex a b)
later_comm ⦃o⦄ (some c) a b = ground (
  arith,
  less_asym a b,
  o.less_connex a b,
  o.less_trans c a b,
  o.less_trans c b a,
  o.less_trans a c b,
  o.less_trans b c a,
  o.less_trans a b c,
  o.less_trans b a c,
  o.less_connex c a,
  o.less_connex c b,
)

pub later_if_any_comm :
    (old s t : Option Time)
    → later_if_any (later_if_any old s) t ≡ later_if_any (later_if_any old t) s
later_if_any_comm old none t = refl
later_if_any_comm old (some s) none = refl
later_if_any_comm old (some s) (some t) = later_comm old s t

pub success_comm :
    (m n : Option (Time × Outcome)) (old : Option Time)
    → success_with m (success_with n old) ≡ success_with n (success_with m old)
unfolding success_with
success_comm (some (t, success)) (some (u, success)) old = later_comm old u t
success_comm _ _ old = refl

pub failure_comm :
    (m n : Option (Time × Outcome)) (k j : Key) (old : Option Key)
    → failure_with m k (failure_with n j old) ≡ failure_with n j (failure_with m k old)
unfolding failure_with
failure_comm (some (t, failure)) (some (u, failure)) k j old = later_comm old j k
failure_comm _ _ k j old = refl

pub times_comm :
    (m n : Option (Time × Outcome)) (k j : Key) (times : List Key)
    → IsWindow max_materialize_times times
    → times_with m k (times_with n j times) ≡ times_with n j (times_with m k times)
unfolding times_with
times_comm (some (t, success)) (some (u, success)) k j times w =
    insert_sorted_comm newest max_materialize_times k j times w
times_comm _ _ k j times w = refl

pub times-IsWindow :
    (m : Option (Time × Outcome)) (k : Key) (times : List Key)
    → IsWindow max_materialize_times times
    → IsWindow max_materialize_times (times_with m k times)
unfolding times_with
times-IsWindow (some (t, success)) k times w =
    insert_sorted-IsWindow newest max_materialize_times k times w
times-IsWindow _ k times w = w

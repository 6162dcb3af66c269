-- ===== src/Observer/Incidents/Tests.antt =====
-- The grouping of insights on concrete incidents.
use phlo_observe.Common.{
  ℕ, String, false, List, [], ◌∷◌, ◌≡◌, refl, All, map, Option, none, some, ◌*◌, sort_by, insert_by,
  put,
}
use phlo_observe.StateEngine.Event.{Key}
use phlo_observe.Observer.Incidents.{
  Incident, Insight, Severity, error, critical, members_before, members_of, member_key, entry_of,
  attach, signalled, raised, retitled, earliest, rewrite_membership, with_entry, is_recorded,
  same_key, sort_members, put_some, entities_of, insight_ids_of, last_signal, severity_rank,
  first_member_key,
}
use phlo_observe.Observer.Incidents.Grouping.{
  group_insight, detach_member, new_incident, join_or_open, settled, first_accepting, candidates,
  open_ones, open_new, accepts, adopts, continues, shares_entity, anchor, newest_moment, distance,
  grouping_key, replace,
}
use phlo_observe.Observer.Incidents.Attach.{WellFormed, group_insight-WellFormed}
use phlo_observe.Observer.Incidents.Group.{Outcome, group_insight-Outcome, detach_member-Detached}

abbrev minute : ℕ
minute = 60_000_000

abbrev finding : String → Severity → Insight
finding iid s = record {
  insight_id = iid;
  severity = s;
  entity_id = some "asset/a";
  title = iid;
  created_at = some 0;
  last_observed_at = none;
  observed_at = none;
}

abbrev at_minute : ℕ → Option Key
at_minute n = some (n * minute, "")

abbrev first_one : List Incident
first_one = (group_insight 1 0 (finding "i1" critical) (at_minute 100) []).1

abbrev insights_in : List Incident → List (List String)
insights_in cs = map (λ c. c.insight_ids) cs

-- An error within the window joins, a late critical one absorbs, one beyond the window opens another.
join_test :
    insights_in (group_insight 2 0 (finding "i2" error) (at_minute 130) first_one).1
    ≡ ("i1" ∷ "i2" ∷ []) ∷ []
unfolding group_insight join_or_open settled first_accepting candidates sort_by open_ones open_new
    new_incident insert_by accepts adopts continues shares_entity anchor newest_moment distance
    members_before members_of grouping_key member_key entry_of replace attach signalled raised
    retitled earliest rewrite_membership with_entry is_recorded same_key sort_members put put_some
    entities_of insight_ids_of last_signal severity_rank first_member_key
join_test = refl

absorb_test :
    insights_in (group_insight 2 0 (finding "i0" critical) (at_minute 80) first_one).1
    ≡ ("i0" ∷ "i1" ∷ []) ∷ []
unfolding group_insight join_or_open settled first_accepting candidates sort_by open_ones open_new
    new_incident insert_by accepts adopts continues shares_entity anchor newest_moment distance
    members_before members_of grouping_key member_key entry_of replace attach signalled raised
    retitled earliest rewrite_membership with_entry is_recorded same_key sort_members put put_some
    entities_of insight_ids_of last_signal severity_rank first_member_key
absorb_test = refl

apart_test :
    insights_in (group_insight 2 0 (finding "i2" critical) (at_minute 131) first_one).1
    ≡ ("i1" ∷ []) ∷ ("i2" ∷ []) ∷ []
unfolding group_insight join_or_open settled first_accepting candidates sort_by open_ones open_new
    new_incident insert_by accepts adopts continues shares_entity anchor newest_moment distance
    members_before members_of grouping_key member_key entry_of replace attach signalled raised
    retitled earliest rewrite_membership with_entry is_recorded same_key sort_members put put_some
    entities_of insight_ids_of last_signal severity_rank first_member_key
apart_test = refl

group_insight-Outcome_example :
    Outcome 2 0
      (finding "i2" error)
      (grouping_key 0 (finding "i2" error) (at_minute 130))
      first_one
      (group_insight 2 0 (finding "i2" error) (at_minute 130) first_one)
group_insight-Outcome_example =
    group_insight-Outcome 2 0 (finding "i2" error) (at_minute 130) first_one

first_one-WellFormed : All WellFormed first_one
first_one-WellFormed =
    group_insight-WellFormed 1 0 (finding "i1" critical) (at_minute 100) [] refl tt

group_insight-WellFormed_example :
    All WellFormed (group_insight 1 0 (finding "i1" critical) (at_minute 100) []).1
group_insight-WellFormed_example =
    group_insight-WellFormed 1 0 (finding "i1" critical) (at_minute 100) [] refl tt

detach_member-Detached_example :
    All
      (λ c. WellFormed c × (is_recorded "i1" (100 * minute, "") (members_of 0 c) ≡ false))
      (detach_member 0 (finding "i1" critical) (100 * minute, "") first_one)
detach_member-Detached_example =
    detach_member-Detached 0 (finding "i1" critical) (100 * minute, "") first_one
      first_one-WellFormed

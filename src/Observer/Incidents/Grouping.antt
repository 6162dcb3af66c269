-- ===== src/Observer/Incidents/Grouping.antt =====
-- incidents.py of phlo_observer: the choice of an incident for an insight, `group_insight` and
-- `detach_member`.
use phlo_observe.Common.{
  ℕ, ◌+◌, ◌-◌, String, Bool, true, false, ◌&&◌, ◌||◌, not, Option, none, some, List, [], ◌∷◌, ◌++◌,
  map, ◌==◌, str_eq, leb, if◌then◌else◌, str_order, length, sort_by,
}
use phlo_observe.StateEngine.Event.{Time, Key, key_order, time_order}
use phlo_observe.Observer.Incidents.{
  Severity, grouping_window, Insight, Member, Incident, signal_time, member_key, last_signal,
  members_of, members_before, earliest, first_member_key, rewrite_membership, same_key, entry_of,
  later_time, attach, critical, error,
}

abbrev pub is_critical : Severity → Bool
is_critical critical = true
is_critical _ = false

abbrev pub is_driving : Severity → Bool
is_driving error = true
is_driving critical = true
is_driving _ = false

abbrev same_entity : Option String → String → Bool
same_entity none e = false
same_entity (some s) e = str_eq s e

-- `insight.entity_id and any(...)`
unfoldable pub shares_entity : Option String → List Member → Bool
shares_entity none ms = false
shares_entity (some e) [] = false
shares_entity (some e) (m ∷ ms) =
    (not (str_eq e "") && same_entity m.entity e) || shares_entity (some e) ms

unfoldable pub distance : Time → Time → ℕ
distance a b = (a - b) + (b - a)

-- The newest moment of the members.
unfoldable pub newest_moment : List Member → Time
newest_moment [] = 0
newest_moment (m ∷ ms) = later_time (member_key m).0 (newest_moment ms)

-- The window's anchor as of the position: of a legacy row, its high-water mark.
unfoldable pub anchor : Time → List Member → Incident → Time
anchor now prior c = elim c.members [ none ↦ last_signal now c | some _ ↦ newest_moment prior ]

-- An incident whose members all come after the position.
unfoldable pub adopts : Time → Insight → Key → Incident → Bool
unfolding distance
adopts now i key c =
    is_critical i.severity
    && (elim (earliest (members_of now c)) [
      | none ↦ false
      | some first ↦ leb (first.0 - key.0) grouping_window
    ]
        && shares_entity i.entity_id (members_of now c))

unfoldable pub continues : Time → Insight → Key → Incident → List Member → Bool
continues now i key c prior =
    leb (distance key.0 (anchor now prior c)) grouping_window && shares_entity i.entity_id prior

-- Does the loop over the candidates stop at this incident?
unfoldable pub accepts : Time → Insight → Key → Incident → Bool
accepts now i key c = elim (members_before key (members_of now c)) [
  | [] ↦ adopts now i key c
  | ◌∷◌ m ms ↦ continues now i key c (m ∷ ms)
]

unfoldable pub open_ones : List Incident → List Incident
open_ones [] = []
open_ones (c ∷ cs) = if c.is_open then c ∷ open_ones cs else open_ones cs

-- The open incidents, `sort(key=_first_member_key)`.
unfoldable pub candidates : Time → List Incident → List Incident
candidates now cs = sort_by key_order (first_member_key now) (open_ones cs)

unfoldable pub first_accepting : Time → Insight → Key → List Incident → Option Incident
first_accepting now i key [] = none
first_accepting now i key (c ∷ cs) =
    if accepts now i key c then some c else first_accepting now i key cs

-- The candidate is one object of the list of open incidents, which the mutation reaches.
unfoldable pub replace : Incident → List Incident → List Incident
replace c [] = []
replace c (d ∷ ds) = if d.incident_id == c.incident_id then c ∷ ds else d ∷ replace c ds

abbrev pub one_entity : Option String → List String
one_entity none = []
one_entity (some e) = if str_eq e "" then [] else e ∷ []

unfoldable pub new_incident : ℕ → Time → Insight → Key → Incident
new_incident id now i key = record {
  incident_id = id;
  is_open = true;
  title = i.title;
  severity = i.severity;
  started_at = i.created_at;
  updated_at = some now;
  last_signal_at = some key.0;
  members = some (entry_of i key ∷ []);
  entities = one_entity i.entity_id;
  insight_ids = i.insight_id ∷ [];
}

abbrev pub Grouped : Type 0
Grouped = Option Incident × List Incident

unfoldable pub open_new : ℕ → Time → Insight → Key → List Incident → Grouped
open_new id now i key incidents =
    if is_critical i.severity
    then (some (new_incident id now i key), incidents ++ new_incident id now i key ∷ [])
    else (none, incidents)

-- What follows the loop over the candidates, or its early return.
unfoldable pub settled : ℕ → Time → Insight → Key → List Incident → Option Incident → Grouped
settled id now i key incidents none = open_new id now i key incidents
settled id now i key incidents (some c) =
    (some (attach now i key c), replace (attach now i key c) incidents)

unfoldable pub join_or_open : ℕ → Time → Insight → Key → List Incident → Grouped
join_or_open id now i key incidents =
    settled id now i key incidents (first_accepting now i key (candidates now incidents))

-- The position of the insight.
unfoldable pub grouping_key : Time → Insight → Option Key → Key
grouping_key now i none = (signal_time now i, i.insight_id)
grouping_key now i (some k) = k

-- `group_insight`, where `id` is the fresh identifier of an incident that it may create.
unfoldable pub group_insight : ℕ → Time → Insight → Option Key → List Incident → Grouped
group_insight id now i signal_key incidents =
    if is_driving i.severity
    then join_or_open id now i (grouping_key now i signal_key) incidents
    else (none, incidents)

-- What is left of the members without the one an insight recorded at a key.
unfoldable pub without_member : String → Key → List Member → List Member
unfolding same_key
without_member iid key [] = []
without_member iid key (m ∷ ms) =
    if str_eq m.iid iid && same_key (member_key m) key
    then without_member iid key ms
    else m ∷ without_member iid key ms

unfoldable pub detach_from : Time → String → Key → Incident → Incident
detach_from now iid key c =
    let kept = without_member iid key (members_of now c) in
    if length kept == length (members_of now c)
    then c
    else record (rewrite_membership kept c) { updated_at = some now }

-- `detach_member`
unfoldable pub detach_member : Time → Insight → Key → List Incident → List Incident
detach_member now i key incidents = map (detach_from now i.insight_id key) incidents

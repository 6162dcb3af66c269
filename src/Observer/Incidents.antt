-- ===== src/Observer/Incidents.antt =====
-- incidents.py of phlo_observer: the records of incidents and their members, and `_attach`; Grouping
-- chooses the incident, as of the position of the event that raised the insight. A stored key that does not parse is `none`; times are microseconds since
-- the year 1. The open incidents are the batch's preloaded list.
pub mod Grouping
pub mod Members
pub mod Attach
pub mod Group
mod Tests
use phlo_observe.Common.{
  ℕ, ◌+◌, ◌-◌, String, Bool, true, false, ◌&&◌, ◌||◌, not, Option, none, some, List, [], ◌∷◌, ◌++◌,
  map, ◌==◌, str_eq, ltb, leb, if◌then◌else◌, TotalOrder, str_order, at_least, put, take, length,
  sort_by,
}
use phlo_observe.StateEngine.Event.{Time, Key, key_order, time_order, or_else, non_empty}

pub data Severity : Type 0 where
  info warn warning error critical other : Severity

pub severity_rank : Severity → ℕ
severity_rank info = 30
severity_rank warn = 40
severity_rank warning = 40
severity_rank error = 50
severity_rank critical = 60
severity_rank other = 0

-- 30 minutes.
abbrev pub grouping_window : ℕ
grouping_window = 1_800_000_000

abbrev pub max_members : ℕ
max_members = 64

pub record Insight : Type 0 where
  pub insight_id : String
  pub severity : Severity
  pub entity_id : Option String
  pub title : String
  pub created_at : Option Time
  pub last_observed_at : Option Time
  pub observed_at : Option Time

pub record Member : Type 0 where
  pub iid : String
  pub entity : Option String
  pub key : Option Key

-- `members` is `none` in a row written before members were recorded.
pub record Incident : Type 0 where
  pub incident_id : ℕ
  pub is_open : Bool
  pub title : String
  pub severity : Severity
  pub started_at : Option Time
  pub updated_at : Option Time
  pub last_signal_at : Option Time
  pub members : Option (List Member)
  pub entities : List String
  pub insight_ids : List String

abbrev time_or : Option Time → Time → Time
time_or none t = t
time_or (some s) t = s

-- `_signal_time`, of an insight at the wall clock's `now`.
unfoldable pub signal_time : Time → Insight → Time
signal_time now i = time_or (or_else i.last_observed_at (or_else i.observed_at i.created_at)) now

-- `_member_key`: the least key where none parses.
pub member_key : Member → Key
member_key m = elim m.key [ none ↦ (0, "") | some k ↦ k ]

-- `_last_signal`
pub last_signal : Time → Incident → Time
last_signal now c = time_or (or_else c.last_signal_at c.updated_at) now

pub booted : Time → List String → List String → List Member
booted at [] [] = []
booted at [] (e ∷ entities) =
    record { iid = ""; entity = some e; key = some (at, "") } ∷ booted at [] entities
booted at (i ∷ iids) entities =
    record { iid = i; entity = none; key = some (at, "") } ∷ booted at iids entities

-- `_members`
pub members_of : Time → Incident → List Member
unfolding booted last_signal
members_of now c = elim c.members [
  | some ms ↦ ms
  | none ↦
      booted (time_or (or_else c.started_at c.updated_at) (last_signal now c)) c.insight_ids
        c.entities
]

-- `_members_before`
pub members_before : Key → List Member → List Member
members_before key [] = []
members_before key (m ∷ ms) =
    if at_least key (member_key m) then m ∷ members_before key ms else members_before key ms

-- `min` of the members' keys.
pub earliest : List Member → Option Key
earliest [] = none
earliest (m ∷ ms) = elim (earliest ms) [
  | none ↦ some (member_key m)
  | some k ↦ some (if key_order.less k (member_key m) then k else member_key m)
]

-- 9999-12-31T23:59:59.999999
abbrev pub latest_time : Time
latest_time = 315_537_897_599_999_999

-- `_first_member_key`
pub first_member_key : Time → Incident → Key
first_member_key now c = elim (earliest (members_of now c)) [
  | none ↦ (latest_time, "")
  | some k ↦ k
]

-- `sorted(members, key=_member_key)`
pub sort_members : List Member → List Member
sort_members ms = sort_by key_order member_key ms

pub put_some : Option String → List String → List String
put_some none l = l
put_some (some s) l = if str_eq s "" then l else put s l

-- The sorted sets of the members' entities and insights.
pub entities_of : List Member → List String
unfolding put_some
entities_of [] = []
entities_of (m ∷ ms) = put_some m.entity (entities_of ms)

pub insight_ids_of : List Member → List String
unfolding put_some
insight_ids_of [] = []
insight_ids_of (m ∷ ms) = put_some (some m.iid) (insight_ids_of ms)

-- `_rewrite_membership`
pub rewrite_membership : List Member → Incident → Incident
rewrite_membership ms c =
    let kept = take max_members (sort_members ms) in
    record c { members = some kept; entities = entities_of kept; insight_ids = insight_ids_of kept }

pub same_key : Key → Key → Bool
same_key a b = not (key_order.less a b) && not (key_order.less b a)

-- Has the insight been recorded at this key?
pub is_recorded : String → Key → List Member → Bool
unfolding same_key
is_recorded iid key [] = false
is_recorded iid key (m ∷ ms) =
    (str_eq m.iid iid && same_key (member_key m) key) || is_recorded iid key ms

pub entry_of : Insight → Key → Member
entry_of i key = record { iid = i.insight_id; entity = i.entity_id; key = some key }

pub with_entry : Insight → Key → List Member → List Member
with_entry i key ms = if is_recorded i.insight_id key ms then ms else ms ++ entry_of i key ∷ []

-- The insight takes the title and the start over if it precedes every member.
pub retitled : Insight → Key → List Member → Incident → Incident
retitled i key ms c = elim (earliest ms) [
  | none ↦ c
  | some first ↦
      if key_order.less key first
      then record c { title = i.title; started_at = i.created_at }
      else c
]

pub raised : Severity → Incident → Incident
raised s c =
    if ltb (severity_rank c.severity) (severity_rank s) then record c { severity = s } else c

abbrev later_time : Time → Time → Time
later_time a b = if ltb a b then b else a

pub signalled : Time → Key → Incident → Incident
signalled now key c = record c {
  last_signal_at = some (later_time key.0 (last_signal now c));
  updated_at = some now;
}

-- `_attach`
pub attach : Time → Insight → Key → Incident → Incident
attach now i key c =
    let ms = members_of now c in
    signalled now key
      (raised i.severity (rewrite_membership (with_entry i key ms) (retitled i key ms c)))

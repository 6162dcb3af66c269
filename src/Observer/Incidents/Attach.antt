-- ===== src/Observer/Incidents/Attach.antt =====
-- The shape of the incidents of incidents.py: that grouping and detaching keep it.
use phlo_observe.Common.{
  ℕ, ◌≤◌, String, ltb, put-nil, str_order, ap, ◌++◌, Option-cases, false, List, [], ◌∷◌, ◌≡◌, refl,
  Bool-cases, inl, inr, All, take, ◌⊎◌, ◌==◌, str_eq, Option, none, some, length, arith,
}
use phlo_observe.StateEngine.Event.{Time, Key}
use phlo_observe.Observer.Incidents.{
  Incident, Insight, Member, max_members, entities_of, insight_ids_of, rewrite_membership,
  with_entry, retitled, raised, signalled, put_some, attach, members_of, entry_of, sort_members,
  severity_rank,
}
use phlo_observe.Observer.Incidents.Grouping.{
  settled, one_entity, replace, new_incident, detach_from, group_insight, open_new, join_or_open,
  first_accepting, candidates, without_member, is_driving, is_critical,
}
use phlo_observe.Observer.Incidents.Members.{Ordered, one-Ordered, kept-Ordered, length-kept}

-- A row with members has them in the order of their keys, at most 64, and its entities and insights
-- are those of the members.
pub IsConsistent : List Member → Incident → Type 0
IsConsistent ms c =
    (c.members ≡ some ms)
    × Ordered ms
    × (length ms ≤ max_members)
    × (c.entities ≡ entities_of ms)
    × (c.insight_ids ≡ insight_ids_of ms)

-- So it is, or a row written before members were recorded.
pub WellFormed : Incident → Type 0
unfolding IsConsistent
WellFormed c = (c.members ≡ none) ⊎ ((ms : List Member) × IsConsistent ms c)

rewrite_membership-WellFormed :
    (ms : List Member) (c : Incident) → WellFormed (rewrite_membership ms c)
unfolding rewrite_membership WellFormed IsConsistent
rewrite_membership-WellFormed ms c =
    inr (take max_members (sort_members ms), (refl, kept-Ordered ms, length-kept ms, refl, refl))

raised-WellFormed : (i : Insight) (c : Incident) → WellFormed c → WellFormed (raised i.severity c)
unfolding raised
raised-WellFormed i c h =
    elim (Bool-cases (ltb (severity_rank c.severity) (severity_rank i.severity))) [
      | inl up ↦ rw up (unfold WellFormed IsConsistent in h)
      | inr keep ↦ rw keep h
    ]

attach-WellFormed :
    (now : Time) (i : Insight) (key : Key) (c : Incident) → WellFormed (attach now i key c)
unfolding attach signalled WellFormed IsConsistent
attach-WellFormed now i key c = raised-WellFormed i _ (
    rewrite_membership-WellFormed (with_entry i key (members_of now c))
      (retitled i key (members_of now c) c))

entities_of-one :
    (i : Insight) (key : Key) → one_entity i.entity_id ≡ entities_of (entry_of i key ∷ [])
unfolding entities_of entry_of put_some
entities_of-one i key = elim i.entity_id as (λ e. one_entity e ≡ put_some e []) [
  | none ↦ refl
  | some e ↦ ground (arith, put-nil ⦃o = str_order⦄ e)
]

insight_ids_of-one :
    (i : Insight) (key : Key)
    → str_eq i.insight_id "" ≡ false
    → i.insight_id ∷ [] ≡ insight_ids_of (entry_of i key ∷ [])
unfolding insight_ids_of entry_of put_some
insight_ids_of-one i key named = ground (arith, put-nil ⦃o = str_order⦄ i.insight_id)

new_incident-WellFormed :
    (id : ℕ) (now : Time) (i : Insight) (key : Key)
    → str_eq i.insight_id "" ≡ false
    → WellFormed (new_incident id now i key)
unfolding WellFormed IsConsistent new_incident
new_incident-WellFormed id now i key named = inr (
  entry_of i key ∷ [],
  (
    refl,
    one-Ordered (entry_of i key),
    omega arith,
    entities_of-one i key,
    insight_ids_of-one i key named,
  ),
)

replace-WellFormed :
    (c : Incident) (incidents : List Incident)
    → WellFormed c
    → All WellFormed incidents
    → All WellFormed (replace c incidents)
unfolding replace
replace-WellFormed c [] h all = tt
replace-WellFormed c (d ∷ ds) h all = elim (Bool-cases (d.incident_id == c.incident_id)) [
  | inl here ↦ rw here (h, all.1)
  | inr there ↦ rw there (all.0, replace-WellFormed c ds h all.1)
]

All-append-one :
    (c : Incident) (incidents : List Incident)
    → All WellFormed incidents
    → WellFormed c
    → All WellFormed (incidents ++ c ∷ [])
All-append-one c [] all h = (h, tt)
All-append-one c (d ∷ ds) all h = (all.0, All-append-one c ds all.1 h)

open_new-WellFormed :
    (id : ℕ) (now : Time) (i : Insight) (key : Key) (incidents : List Incident)
    → str_eq i.insight_id "" ≡ false
    → All WellFormed incidents
    → All WellFormed (open_new id now i key incidents).1
unfolding open_new
open_new-WellFormed id now i key incidents named all = elim (Bool-cases (is_critical i.severity)) [
  | inl chosen ↦ rw chosen (
      All-append-one (new_incident id now i key) incidents all
        (new_incident-WellFormed id now i key named))
  | inr passed ↦ rw passed all
]

pub join_or_open-joined :
    (id : ℕ) (now : Time) (i : Insight) (key : Key) (incidents : List Incident) (c : Incident)
    → first_accepting now i key (candidates now incidents) ≡ some c
    → join_or_open id now i key incidents
      ≡ (some (attach now i key c), replace (attach now i key c) incidents)
unfolding join_or_open settled
join_or_open-joined id now i key incidents c found = ap (settled id now i key incidents) found

pub join_or_open-opened :
    (id : ℕ) (now : Time) (i : Insight) (key : Key) (incidents : List Incident)
    → first_accepting now i key (candidates now incidents) ≡ none
    → join_or_open id now i key incidents ≡ open_new id now i key incidents
unfolding join_or_open settled
join_or_open-opened id now i key incidents nobody = ap (settled id now i key incidents) nobody

join_or_open-WellFormed :
    (id : ℕ) (now : Time) (i : Insight) (key : Key) (incidents : List Incident)
    → str_eq i.insight_id "" ≡ false
    → All WellFormed incidents
    → All WellFormed (join_or_open id now i key incidents).1
join_or_open-WellFormed id now i key incidents named all =
    elim (Option-cases (first_accepting now i key (candidates now incidents))) [
      | inl nobody ↦
          rw (join_or_open-opened id now i key incidents nobody)
            (open_new-WellFormed id now i key incidents named all)
      | inr (c, found) ↦
          rw (join_or_open-joined id now i key incidents c found)
            (replace-WellFormed (attach now i key c) incidents (attach-WellFormed now i key c) all)
    ]

-- If each incident has the shape (the members recorded are in the order of their keys and at most 64,
-- and the row's entities and insights are those of the members; or the row is a legacy one) and the
-- insight has an identifier, each incident has the shape after `group_insight`.
pub group_insight-WellFormed :
    (id : ℕ) (now : Time) (i : Insight) (signal_key : Option Key) (incidents : List Incident)
    → str_eq i.insight_id "" ≡ false
    → All WellFormed incidents
    → All WellFormed (group_insight id now i signal_key incidents).1
unfolding group_insight
group_insight-WellFormed id now i signal_key incidents named all =
    elim (Bool-cases (is_driving i.severity)) [
      | inl chosen ↦ rw chosen (join_or_open-WellFormed id now i _ incidents named all)
      | inr passed ↦ rw passed all
    ]

pub detach_from-WellFormed :
    (now : Time) (iid : String) (key : Key) (c : Incident)
    → WellFormed c
    → WellFormed (detach_from now iid key c)
unfolding detach_from
detach_from-WellFormed now iid key c h =
    elim (Bool-cases
      (length (without_member iid key (members_of now c)) == length (members_of now c))) [
        | inl same ↦ rw same h
        | inr less ↦ rw less (
            unfold WellFormed IsConsistent in
            rewrite_membership-WellFormed (without_member iid key (members_of now c)) c)
      ]

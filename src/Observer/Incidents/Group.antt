-- ===== src/Observer/Incidents/Group.antt =====
-- What `group_insight` of incidents.py does with an insight, and what `detach_member` takes away.
use phlo_observe.Common.{
  ℕ, ◌∙◌, subst, InOrder, IsLevel, sort_by-InOrder, All-of-sort_by, Any-sort_by, ◌≤◌, String, Bool,
  true, false, List, [], ◌∷◌, ◌++◌, ◌≡◌, refl, Bool-cases, inl, inr, All, Any, take, ◌⊎◌, sym, ◌==◌,
  Option, none, some, length, arith, if◌then◌else◌, ◌&&◌, Option-cases,
}
use phlo_observe.StateEngine.Event.{Time, Key, key_order}
use phlo_observe.Observer.Incidents.{
  Incident, Insight, Member, max_members, attach, members_of, first_member_key, is_recorded,
  rewrite_membership, sort_members,
}
use phlo_observe.Observer.Incidents.Grouping.{
  replace, new_incident, detach_from, detach_member, group_insight, open_new, join_or_open,
  first_accepting, candidates, grouping_key, is_driving, is_critical, accepts, open_ones, Grouped,
  without_member,
}
use phlo_observe.Observer.Incidents.Members.{
  IsOther, not_recorded, without_member-IsOther, All-kept,
}
use phlo_observe.Observer.Incidents.Attach.{
  WellFormed, detach_from-WellFormed, join_or_open-joined, join_or_open-opened,
}

-- Does the insight belong to the open incident, as of the key?
abbrev pub takes : Time → Insight → Key → Incident → Bool
takes now i key c = c.is_open && accepts now i key c

-- The incident precedes another that takes the insight too, or stands level with it.
abbrev IsFirst : Time → Insight → Key → Incident → Incident → Type 0
IsFirst now i key c d =
    (takes now i key d ≡ false)
    ⊎ (key_order.less (first_member_key now d) (first_member_key now c) ≡ false)

pub data Outcome (id : ℕ) (now : Time) (i : Insight) (key : Key) (incidents : List Incident)
    : Grouped → Type 0 where
  not_driving : is_driving i.severity ≡ false → Outcome id now i key incidents (none, incidents)
  joined :
      (c : Incident)
      → Any (λ d. d ≡ c) incidents
      → takes now i key c ≡ true
      → All (IsFirst now i key c) incidents
      → Outcome id now i key incidents
          (some (attach now i key c), replace (attach now i key c) incidents)
  opened :
      is_critical i.severity ≡ true
      → All (λ d. takes now i key d ≡ false) incidents
      → Outcome id now i key incidents
          (some (new_incident id now i key), incidents ++ new_incident id now i key ∷ [])
  left_alone :
      is_critical i.severity ≡ false
      → All (λ d. takes now i key d ≡ false) incidents
      → Outcome id now i key incidents (none, incidents)

All-weaken :
    (P Q : Incident → Type 0) (l : List Incident) → ((c : Incident) → P c → Q c) → All P l → All Q l
All-weaken P Q [] f all = tt
All-weaken P Q (c ∷ cs) f all = (f c all.0, All-weaken P Q cs f all.1)

All-Any :
    (P : Incident → Type 0) (c : Incident) (l : List Incident) → All P l → Any (λ d. d ≡ c) l → P c
All-Any P c [] all there = absurd there
All-Any P c (d ∷ ds) all (inl here) = subst P here all.0
All-Any P c (d ∷ ds) all (inr there) = All-Any P c ds all.1 there

All-open_ones :
    (P : Incident → Type 0) (cs : List Incident)
    → All P (open_ones cs)
    → All (λ d. (d.is_open ≡ false) ⊎ P d) cs
unfolding open_ones
All-open_ones P [] all = tt
All-open_ones P (c ∷ cs) all = elim (Bool-cases c.is_open) [
  | inl opened_one ↦
      let here : All P (c ∷ open_ones cs) =
        subst (λ b. All P (if b then c ∷ open_ones cs else open_ones cs)) opened_one all in
      (inr here.0, All-open_ones P cs here.1)
  | inr closed ↦ (
    inl closed,
    All-open_ones P cs
        (subst (λ b. All P (if b then c ∷ open_ones cs else open_ones cs)) closed all),
  )
]

Any-open_ones :
    (c : Incident) (cs : List Incident) → Any (λ d. d ≡ c) (open_ones cs) → Any (λ d. d ≡ c) cs
unfolding open_ones
Any-open_ones c [] there = there
Any-open_ones c (d ∷ ds) there = elim (Bool-cases d.is_open) [
  | inl opened_one ↦
      elim (subst (λ b. Any (λ x. x ≡ c) (if b then d ∷ open_ones ds else open_ones ds)) opened_one
        there) [ inl here ↦ inl here | inr further ↦ inr (Any-open_ones c ds further) ]
  | inr closed ↦ inr (
      Any-open_ones c ds
        (subst (λ b. Any (λ x. x ≡ c) (if b then d ∷ open_ones ds else open_ones ds)) closed there))
]

open_ones-open : (cs : List Incident) → All (λ c. c.is_open ≡ true) (open_ones cs)
unfolding open_ones
open_ones-open [] = tt
open_ones-open (c ∷ cs) = elim (Bool-cases c.is_open) [
  | inl opened_one ↦
      subst (λ b. All (λ d. d.is_open ≡ true) (if b then c ∷ open_ones cs else open_ones cs))
        (sym opened_one) (opened_one, open_ones-open cs)
  | inr closed ↦
      subst (λ b. All (λ d. d.is_open ≡ true) (if b then c ∷ open_ones cs else open_ones cs))
        (sym closed) (open_ones-open cs)
]

first_accepting-nil : (now : Time) (i : Insight) (key : Key) → first_accepting now i key [] ≡ none
unfolding first_accepting
first_accepting-nil now i key = refl

first_accepting-stop :
    (now : Time) (i : Insight) (key : Key) (c : Incident) (cs : List Incident)
    → accepts now i key c ≡ true
    → first_accepting now i key (c ∷ cs) ≡ some c
unfolding first_accepting
first_accepting-stop now i key c cs h = rw h refl

first_accepting-skip :
    (now : Time) (i : Insight) (key : Key) (c : Incident) (cs : List Incident)
    → accepts now i key c ≡ false
    → first_accepting now i key (c ∷ cs) ≡ first_accepting now i key cs
unfolding first_accepting
first_accepting-skip now i key c cs h = rw h refl

-- No candidate accepts the insight.
first_accepting-none :
    (now : Time) (i : Insight) (key : Key) (cs : List Incident)
    → first_accepting now i key cs ≡ none
    → All (λ c. accepts now i key c ≡ false) cs
first_accepting-none now i key [] h = tt
first_accepting-none now i key (c ∷ cs) h = elim (Bool-cases (accepts now i key c)) [
  | inl stop ↦ absurd (cc (first_accepting-stop now i key c cs stop, h))
  | inr skip ↦
      (skip, first_accepting-none now i key cs (sym (first_accepting-skip now i key c cs skip) ∙ h))
]

-- The candidate that accepts the insight precedes the others that do.
abbrev IsChosen : Time → Insight → Key → Incident → List Incident → Type 0
IsChosen now i key c cs =
    Any (λ d. d ≡ c) cs
    × (accepts now i key c ≡ true)
    × All (λ d. (accepts now i key d ≡ false) ⊎ IsLevel key_order (first_member_key now) c d) cs

first_accepting-some :
    (now : Time) (i : Insight) (key : Key) (cs : List Incident) (c : Incident)
    → first_accepting now i key cs ≡ some c
    → InOrder key_order (first_member_key now) cs
    → IsChosen now i key c cs
first_accepting-some now i key [] c h o = absurd (cc (first_accepting-nil now i key, h))
first_accepting-some now i key (d ∷ ds) c h o = elim (Bool-cases (accepts now i key d)) [
  | inl stop ↦
      let same_one : d ≡ c = cc (first_accepting-stop now i key d ds stop, h) in
      subst (λ x. IsChosen now i key x (d ∷ ds)) same_one
        (
          inl refl,
          stop,
          (
            inr (key_order.less_irrefl (first_member_key now d)),
            All-weaken _ _ ds (λ e level. inr level) o.0,
          ),
        )
  | inr skip ↦
      let later =
        first_accepting-some now i key ds c (sym (first_accepting-skip now i key d ds skip) ∙ h)
          o.1 in
      (inr later.0, later.1, (inl skip, later.2))
]

takes-closed :
    (now : Time) (i : Insight) (key : Key) (d : Incident)
    → (d.is_open ≡ false) ⊎ (accepts now i key d ≡ false)
    → takes now i key d ≡ false
takes-closed now i key d h = ground arith

takes-IsFirst :
    (now : Time) (i : Insight) (key : Key) (c d : Incident)
    → (d.is_open ≡ false)
      ⊎ ((accepts now i key d ≡ false) ⊎ IsLevel key_order (first_member_key now) c d)
    → IsFirst now i key c d
takes-IsFirst now i key c d (inl closed) = inl (takes-closed now i key d (inl closed))
takes-IsFirst now i key c d (inr (inl refused)) = inl (takes-closed now i key d (inr refused))
takes-IsFirst now i key c d (inr (inr level)) = inr level

module _ (id : ℕ) (now : Time) (i : Insight) (key : Key) (incidents : List Incident) where
  nobody_takes :
      first_accepting now i key (candidates now incidents) ≡ none
      → All (λ d. takes now i key d ≡ false) incidents
  unfolding candidates
  nobody_takes h = All-weaken _ _ incidents (takes-closed now i key) (
      All-open_ones _ incidents
        (All-of-sort_by key_order (first_member_key now) _ _ (first_accepting-none now i key _ h)))

  open_new-Outcome :
      All (λ d. takes now i key d ≡ false) incidents
      → Outcome id now i key incidents (open_new id now i key incidents)
  unfolding open_new
  open_new-Outcome h = elim (Bool-cases (is_critical i.severity)) [
    | inl critical_one ↦ rw critical_one (opened critical_one h)
    | inr not_critical ↦ rw not_critical (left_alone not_critical h)
  ]

  joined-Outcome :
      (c : Incident)
      → first_accepting now i key (candidates now incidents) ≡ some c
      → Outcome id now i key incidents
          (some (attach now i key c), replace (attach now i key c) incidents)
  unfolding candidates
  joined-Outcome c h =
      let chosen =
        first_accepting-some now i key _ c h
          (sort_by-InOrder key_order (first_member_key now) (open_ones incidents)) in
      let is_there : Any (λ d. d ≡ c) (open_ones incidents) =
        Any-sort_by key_order (first_member_key now) (λ d. d ≡ c) (open_ones incidents) chosen.0 in
      let is_open =
        All-Any (λ d. d.is_open ≡ true) c (open_ones incidents) (open_ones-open incidents)
          is_there in
      joined c (Any-open_ones c incidents is_there) (ground (arith, is_open, chosen.1)) (
        All-weaken _ _ incidents (takes-IsFirst now i key c) (
          All-open_ones _ incidents (All-of-sort_by key_order (first_member_key now) _ _ chosen.2)))

  join_or_open-Outcome : Outcome id now i key incidents (join_or_open id now i key incidents)
  join_or_open-Outcome =
      elim (Option-cases (first_accepting now i key (candidates now incidents))) [
        | inl nobody ↦
            rw (join_or_open-opened id now i key incidents nobody)
              (open_new-Outcome (nobody_takes nobody))
        | inr (c, found) ↦
            rw (join_or_open-joined id now i key incidents c found) (joined-Outcome c found)
      ]

-- What `group_insight` does: with an insight that is neither an error nor critical, nothing. With
-- another, one of three. It joins an open incident that accepts the insight as of its key, and
-- no accepting open incident begins earlier. Or no open incident accepts it; then a critical one
-- opens a new incident and an error leaves the incidents as they are.
pub group_insight-Outcome :
    (id : ℕ) (now : Time) (i : Insight) (signal_key : Option Key) (incidents : List Incident)
    → Outcome id now i
        (grouping_key now i signal_key)
        incidents
        (group_insight id now i signal_key incidents)
unfolding group_insight
group_insight-Outcome id now i signal_key incidents = elim (Bool-cases (is_driving i.severity)) [
  | inl driving ↦
      rw driving (join_or_open-Outcome id now i (grouping_key now i signal_key) incidents)
  | inr passive ↦ rw passive (not_driving passive)
]

length-without_member :
    (iid : String) (key : Key) (ms : List Member) → length (without_member iid key ms) ≤ length ms
unfolding without_member
length-without_member iid key [] = omega arith
length-without_member iid key (m ∷ ms) = ground (arith, length-without_member iid key ms)

none_removed :
    (iid : String) (key : Key) (ms : List Member)
    → length (without_member iid key ms) ≡ length ms
    → is_recorded iid key ms ≡ false
unfolding without_member is_recorded
none_removed iid key [] h = refl
none_removed iid key (m ∷ ms) h =
    ground (arith, none_removed iid key ms, length-without_member iid key ms)

kept-not_recorded :
    (iid : String) (key : Key) (ms : List Member)
    → is_recorded iid key (take max_members (sort_members (without_member iid key ms))) ≡ false
kept-not_recorded iid key ms =
    not_recorded iid key _
      (All-kept (IsOther iid key) (without_member iid key ms) (without_member-IsOther iid key ms))

detach_from-gone :
    (now : Time) (iid : String) (key : Key) (c : Incident)
    → is_recorded iid key (members_of now (detach_from now iid key c)) ≡ false
unfolding detach_from
detach_from-gone now iid key c =
    elim (Bool-cases
      (length (without_member iid key (members_of now c)) == length (members_of now c))) [
        | inl same_length ↦
            rw same_length (none_removed iid key (members_of now c) (ground (arith, same_length)))
        | inr shorter ↦
            rw shorter
              (unfold members_of rewrite_membership in kept-not_recorded iid key (members_of now c))
      ]

-- Of incidents that have the shape `WellFormed`, each has it after `detach_member`, and none of them
-- holds the membership that the insight recorded at the key.
pub detach_member-Detached :
    (now : Time) (i : Insight) (key : Key) (incidents : List Incident)
    → All WellFormed incidents
    → All
        (λ c. WellFormed c × (is_recorded i.insight_id key (members_of now c) ≡ false))
        (detach_member now i key incidents)
unfolding detach_member
detach_member-Detached now i key [] all = tt
detach_member-Detached now i key (c ∷ cs) all = (
  (detach_from-WellFormed now i.insight_id key c all.0, detach_from-gone now i.insight_id key c),
  detach_member-Detached now i key cs all.1,
)

-- ===== src/Observer/Incidents/Members.antt =====
-- The lists of members of incidents.py: their order and what survives sorting and cutting them.
use phlo_observe.Common.{
  ◌≤◌, String, false, List, [], ◌∷◌, ◌≡◌, refl, Bool-cases, inl, inr, All, take, InOrder,
  take-InOrder, sort_by-InOrder, All-sort_by, All-take, str_eq, ◌&&◌, length, length-take, arith,
}
use phlo_observe.StateEngine.Event.{Key, key_order}
use phlo_observe.Observer.Incidents.{
  Member, member_key, sort_members, is_recorded, same_key, max_members,
}
use phlo_observe.Observer.Incidents.Grouping.{without_member}

-- The members are in the order of their keys.
pub Ordered : List Member → Type 0
Ordered ms = InOrder key_order member_key ms

pub one-Ordered : (m : Member) → Ordered (m ∷ [])
unfolding Ordered
one-Ordered m = (tt, tt)

-- Not the member that an insight recorded at a key.
abbrev pub IsOther : String → Key → Member → Type 0
IsOther iid key m = is_recorded iid key (m ∷ []) ≡ false

pub not_recorded :
    (iid : String) (key : Key) (ms : List Member)
    → All (IsOther iid key) ms
    → is_recorded iid key ms ≡ false
unfolding is_recorded
not_recorded iid key [] all = refl
not_recorded iid key (m ∷ ms) all = ground (arith, not_recorded iid key ms all.1, all.0)

pub without_member-IsOther :
    (iid : String) (key : Key) (ms : List Member)
    → All (IsOther iid key) (without_member iid key ms)
unfolding without_member is_recorded
without_member-IsOther iid key [] = tt
without_member-IsOther iid key (m ∷ ms) =
    elim (Bool-cases (str_eq m.iid iid && same_key (member_key m) key)) [
      | inl gone ↦ rw gone (without_member-IsOther iid key ms)
      | inr kept ↦ rw kept (ground (arith, kept), without_member-IsOther iid key ms)
    ]

-- The members kept by `_rewrite_membership` are sorted and at most 64.
pub kept-Ordered : (ms : List Member) → Ordered (take max_members (sort_members ms))
unfolding Ordered sort_members
kept-Ordered ms =
    take-InOrder key_order member_key max_members _ (sort_by-InOrder key_order member_key ms)

pub length-kept : (ms : List Member) → length (take max_members (sort_members ms)) ≤ max_members
length-kept ms = omega (arith, length-take max_members (sort_members ms))

pub All-kept :
    (P : Member → Type 0) (ms : List Member) → All P ms → All P (take max_members (sort_members ms))
unfolding sort_members
All-kept P ms all = All-take P max_members _ (All-sort_by key_order member_key P ms all)

-- ===== src/StateEngine/Entities/Rows.antt =====
-- `entity_rows` of state_engine.py, by lookup.
use phlo_observe.Common.{
  ◌≡◌, refl, ap, ◌∙◌, String, Bool, true, false, ◌&&◌, ◌||◌, Option, none, some, [], ◌∷◌, arith,
  str_eq, if◌then◌else◌, inl, inr, Bool-cases, eq_iff, subst, sym,
}
use phlo_observe.Common.Dict
use phlo_observe.Common.Dict.{Dict, get-set}
use phlo_observe.StateEngine.Event.{Event}
use phlo_observe.StateEngine.Entities.{
  event_entities, entity_rows, rows_of, EntityRow, Value, branch_attributes, display_name, kind_of,
  row_or, with_updates,
}

-- The first role that names the entity.
pub first_role : String → Dict String → Option String
first_role eid [] = none
first_role eid ((role, x) ∷ m) =
    let later = first_role eid m in if str_eq x eid then some role else later

-- Does the role of a branch name it?
pub names_branch : String → Dict String → Bool
names_branch eid [] = false
names_branch eid ((role, x) ∷ m) = (str_eq x eid && str_eq role "branch") || names_branch eid m

abbrev pub row_with : String → String → Dict Value → EntityRow
row_with role eid attributes = record {
  kind = kind_of role;
  display_name = display_name eid;
  attributes = attributes;
}

-- The row of an entity: of the kind of the first role that names it, with the lifecycle fields of the
-- event where it is the branch.
abbrev pub described : Event → Dict String → String → Option EntityRow
described e m eid = elim (first_role eid m) [
  | none ↦ none
  | some role ↦ some (row_with role eid (if names_branch eid m then branch_attributes e else []))
]

-- The row that the rest of the roles makes of the one there is.
continued : Event → Dict String → String → EntityRow → EntityRow
continued e m eid row = if names_branch eid m then with_updates (branch_attributes e) row else row

resumed : Event → Dict String → String → Option EntityRow → Option EntityRow
resumed e m eid none = described e m eid
resumed e m eid (some row) = some (continued e m eid row)

updates_twice :
    (us : Dict Value) (row : EntityRow)
    → with_updates us (with_updates us row) ≡ with_updates us row
updates_twice [] row = refl
updates_twice (u ∷ us) row = refl

updates_fresh :
    (us : Dict Value) (role eid : String)
    → with_updates us (row_with role eid []) ≡ row_with role eid us
updates_fresh [] role eid = refl
updates_fresh (u ∷ us) role eid = refl

-- One role more, of this entity.
abbrev touched : Event → String → EntityRow → EntityRow
touched e role row = if str_eq role "branch" then with_updates (branch_attributes e) row else row

resumed_here :
    (e : Event) (m : Dict String) (role x eid : String) (r : Option EntityRow)
    → str_eq x eid ≡ true
    → resumed e ((role, x) ∷ m) eid r
      ≡ some (continued e m eid (touched e role (row_or (row_with role eid []) r)))
unfolding resumed continued first_role names_branch
resumed_here e m role x eid none h = ground (
  arith,
  h,
  updates_fresh (branch_attributes e) role eid,
  updates_twice (branch_attributes e) (row_with role eid []),
)
resumed_here e m role x eid (some row) h =
    ground (arith, h, updates_twice (branch_attributes e) row)

resumed_elsewhere :
    (e : Event) (m : Dict String) (role x eid : String) (r : Option EntityRow)
    → str_eq x eid ≡ false
    → resumed e ((role, x) ∷ m) eid r ≡ resumed e m eid r
unfolding resumed continued first_role names_branch
resumed_elsewhere e m role x eid none h = ground (arith, h)
resumed_elsewhere e m role x eid (some row) h = ground (arith, h)

from_nothing : (e : Event) (eid : String) (r : Option EntityRow) → r ≡ resumed e [] eid r
unfolding resumed continued first_role names_branch
from_nothing e eid none = refl
from_nothing e eid (some row) = refl

get-rows_of :
    (e : Event) (eid : String) (m : Dict String) (rows : Dict EntityRow)
    → Dict.get eid (rows_of e m rows) ≡ resumed e m eid (Dict.get eid rows)
unfolding rows_of resumed
get-rows_of e eid [] rows = from_nothing e eid (Dict.get eid rows)
get-rows_of e eid ((role, x) ∷ m) rows =
    let made : EntityRow = touched e role (row_or (row_with role x []) (Dict.get x rows)) in
    elim (Bool-cases (str_eq x eid)) [
      | inl same ↦
          let own : str_eq x x ≡ true = ground (arith, eq_iff x x) in
          let stored : Dict.get x (Dict.set x made rows) ≡ some made =
            ground (arith, own, get-set x x made rows) in
          subst
            (λ i.
              Dict.get i (rows_of e ((role, x) ∷ m) rows)
              ≡ resumed e ((role, x) ∷ m) i (Dict.get i rows))
            (ground (arith, same, eq_iff x eid))
            (get-rows_of e x m (Dict.set x made rows)
              ∙ ap (resumed e m x) stored
              ∙ sym (resumed_here e m role x x (Dict.get x rows) own))
      | inr other ↦
          let stored : Dict.get eid (Dict.set x made rows) ≡ Dict.get eid rows =
            ground (arith, other, get-set x eid made rows) in
          get-rows_of e eid m (Dict.set x made rows)
          ∙ ap (resumed e m eid) stored
          ∙ sym (resumed_elsewhere e m role x eid (Dict.get eid rows) other)
    ]

-- The rows of an event are those of the entities that its roles name, and no others. The row of each
-- has the kind of the first role that names it, the identifier's own display name, and the lifecycle
-- fields of the event exactly where the role of the branch names it.
pub get-entity_rows :
    (e : Event) (eid : String) → Dict.get eid (entity_rows e) ≡ described e (event_entities e) eid
unfolding entity_rows resumed Dict.get
get-entity_rows e eid = get-rows_of e eid (event_entities e) []

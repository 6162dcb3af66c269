-- ===== src/StateEngine/Keys.antt =====
-- The bounded key windows and the newest-writer fields of state_engine.py.
pub mod Windows
pub mod Writers
use phlo_observe.Common.{
  ℕ, ◌-◌, ◌≤◌, ◌≡◌, refl, ap, sym, ◌∙◌, Bool, true, false, ◌&&◌, ◌||◌, not, Option, none, some,
  List, [], ◌∷◌, arith, ltb, str_eq, String, if◌then◌else◌, Bool-cases, inl, inr, length, take,
  drop, All, TotalOrder, put, Ascending, take_last, take_last-drop, at_least, map,
}
use phlo_observe.StateEngine.Event.{Event, Key, key_order, event_key}

-- Which end of a full window stays.
pub data Keep : Type 0 where
  newest earliest : Keep

module _ {ℓ} {A : Type ℓ} ⦃o : TotalOrder A⦄ where
  abbrev same_key : A → A → Bool
  same_key a b = not (o.less a b) && not (o.less b a)

  pub contains : A → List A → Bool
  contains a [] = false
  contains a (x ∷ xs) = same_key a x || contains a xs

  -- `bisect.insort`: to the right of what is not above the key.
  pub insort : A → List A → List A
  insort a [] = a ∷ []
  insort a (x ∷ xs) = if o.less a x then a ∷ x ∷ xs else x ∷ insort a xs

  -- The `del` statements on a window that has grown past `cap`.
  pub trim : Keep → ℕ → List A → List A
  trim earliest cap items = take cap items
  trim newest cap items = drop (length items - cap) items

  unfoldable pub insert_sorted : Keep → ℕ → A → List A → List A
  unfolding contains insort trim
  insert_sorted keep cap key items =
      if contains key items
      then items
      else (let grown = insort key items in
          if ltb cap (length grown) then trim keep cap grown else grown)

-- A field of the state with its entry in `field_at`: the key of the event that last wrote it.
pub record Latest (K A : Type 0) : Type 0 where
  pub value : Option A
  pub at : Option K

abbrev pub unset : {K A : Type 0} → Latest K A
unset = record { value = none; at = none }

module _ {K : Type 0} ⦃o : TotalOrder K⦄ where
  abbrev pub may_write : Option K → K → Bool
  may_write none key = true
  may_write (some current) key = at_least key current

  unfoldable pub set_latest : {A : Type 0} → Option A → K → Latest K A → Latest K A
  set_latest none key cell = cell
  set_latest (some v) key cell =
      if may_write cell.at key then record { value = some v; at = some key } else cell

abbrev pub max_derived_from : ℕ
max_derived_from = 64

-- The provenance window after one more contributing event.
unfoldable pub record_event : Event → List Key → List Key
record_event e keys =
    if str_eq e.event_id ""
    then keys
    else insert_sorted earliest max_derived_from (event_key e) keys

abbrev pub derived_from : List Key → List String
derived_from keys = map (λ k. k.1) keys

-- ===== src/StateEngine/Event.antt =====
-- A canonical event as the reducers of state_engine.py read it, and its position in the fold order.
-- A timestamp is an aware datetime, counted in microseconds from the year 1; an absent field of the
-- dict is `none`.
use phlo_observe.Common.{
  ℕ, ◌*◌, String, Bool, false, ◌||◌, Option, none, some, List, [], ◌∷◌, ◌==◌, str_eq, if◌then◌else◌,
  TotalOrder, nat_order, str_order, pair_order,
}
use Prim.Native.Char.{code}

abbrev pub Time : Type 0
Time = ℕ

-- `(observed_at, event_id)`, ordered as Python orders tuples.
abbrev pub Key : Type 0
Key = Time × String

instance abbrev pub time_order : TotalOrder Time
time_order = nat_order

instance abbrev pub key_order : TotalOrder Key
key_order = pair_order nat_order str_order

pub data Outcome : Type 0 where
  success failure cancelled partial unknown : Outcome

pub data Severity : Type 0 where
  trace debug info warn error critical : Severity

pub record Correlation : Type 0 where
  pub run_id : Option String
  pub job_id : Option String
  pub asset_key : Option String
  pub branch : Option String
  pub table : Option String
  pub snapshot_id : Option String

pub record Attributes : Type 0 where
  pub trigger : Option String
  pub freshness_sla_seconds : Option ℕ
  pub base_branch : Option String
  pub target : Option String
  pub snapshot_id : Option String

pub record Event : Type 0 where
  pub event_id : String
  pub event : String
  pub observed_at : Option Time
  pub started_at : Option Time
  pub ended_at : Option Time
  pub outcome : Option Outcome
  pub severity : Option Severity
  pub has_error : Bool
  pub duration_ms : Option ℕ
  pub correlation : Correlation
  pub attributes : Attributes
  pub service_name : Option String
  pub environment : Option String
  pub source_producer : Option String
  pub source_adapter : Option String
  pub entities : List (String × String)

-- Python's `or` on optional values whose present value is true.
abbrev pub or_else {ℓ} : {A : Type ℓ} → Option A → Option A → Option A
or_else (some a) b = some a
or_else none b = b

-- A text that Python counts as true.
abbrev pub non_empty : Option String → Option String
non_empty none = none
non_empty (some s) = if str_eq s "" then none else some s

abbrev pub epoch : Time
epoch = 62_135_596_800 * 1_000_000

unfoldable pub event_time : Event → Option Time
event_time e = or_else e.observed_at e.started_at

abbrev time_or_epoch : Option Time → Time
time_or_epoch none = epoch
time_or_epoch (some t) = t

unfoldable pub event_key : Event → Key
unfolding event_time
event_key e = (time_or_epoch (event_time e), e.event_id)

-- What follows the last dot, `best` if there is none.
abbrev after_dot : String → String → String
after_dot best String.[] = best
after_dot best (String.◌∷◌ c s) = after_dot (if code c == b'.' then s else best) s

unfoldable pub verb_of : String → String
verb_of name = after_dot name name

unfoldable pub is_one_of : List String → String → Bool
is_one_of [] s = false
is_one_of (t ∷ ts) s = str_eq s t || is_one_of ts s

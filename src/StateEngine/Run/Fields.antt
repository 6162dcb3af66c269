-- ===== src/StateEngine/Run/Fields.antt =====
-- `apply_run_event` of state_engine.py, field by field.
use phlo_observe.Common.{
  ◌+◌, ◌≤◌, ◌≡◌, refl, ◌≢◌, Option, none, some, List, arith, if◌then◌else◌, leb, TotalOrder,
  str_order, put, put_comm, length, length-put-le, String, lt→ltb, less_asym, Bool-cases, inl, inr,
}
use phlo_observe.StateEngine.Event.{Event, Time, key_order}
use phlo_observe.StateEngine.Run.{
  RunStatus, precedence, new_status, is_terminal, status_after, ended_after, min_started_after,
  is_first, add_asset, max_summary_assets,
}

-- The status that one event signals.
signal : Event → RunStatus
signal e = if is_terminal e then new_status e.outcome else RunStatus.running

raise_to : RunStatus → RunStatus → RunStatus
raise_to new old = if leb (precedence old) (precedence new) then new else old

running_alone : (old : RunStatus) → precedence old ≡ 1 → old ≡ RunStatus.running
unfolding precedence
running_alone old h = ground arith

precedence_running : precedence RunStatus.running ≡ 1
unfolding precedence
precedence_running = refl

status-signal : (e : Event) (old : RunStatus) → status_after e old ≡ raise_to (signal e) old
unfolding status_after raise_to signal
status-signal e old = ground (arith, running_alone old, precedence_running)

raise_comm :
    (a b old : RunStatus)
    → (precedence a ≡ precedence b → a ≡ b)
    → raise_to a (raise_to b old) ≡ raise_to b (raise_to a old)
unfolding raise_to
raise_comm a b old h = ground (arith, h)

signals_differ : (e f : Event) → precedence (signal e) ≡ precedence (signal f) → signal e ≡ signal f
unfolding precedence signal new_status
signals_differ e f = ground arith

pub status_comm :
    (e f : Event) (old : RunStatus)
    → status_after e (status_after f old) ≡ status_after f (status_after e old)
status_comm e f old =
    rw
      (
        status-signal e (status_after f old),
        status-signal f old,
        status-signal f (status_after e old),
        status-signal e old,
      )
      (raise_comm (signal e) (signal f) old (signals_differ e f))

-- `first_key` and `first_fallback` after an event at a key with its fallback.
module _ {K B : Type 0} ⦃o : TotalOrder K⦄ where
  abbrev pub first_after : K → B → Option K × B → Option K × B
  first_after key fallback cell = if is_first key cell.0 then (some key, fallback) else cell

  -- The earliest event alone decides the start fallback.
  pub first_comm :
      (k j : K) (a b : B) (cell : Option K × B)
      → k ≢ j
      → first_after k a (first_after j b cell) ≡ first_after j b (first_after k a cell)
  first_comm k j a b (none, c) apart = ground (arith, less_asym k j, o.less_connex k j)
  first_comm k j a b (some m, c) apart = ground (
    arith,
    less_asym k j,
    o.less_connex k j,
    o.less_trans k j m,
    o.less_trans j k m,
    o.less_trans k m j,
    o.less_trans j m k,
    o.less_connex k m,
    o.less_connex j m,
  )

  -- The two fields as `apply_run_event` writes them.
  pub first_fields :
      (k j : K) (a b c : B) (m : Option K)
      → ◌≡◌ {A = Option K × B}
          (let m' : Option K = if is_first j m then some j else m in
            (
              if is_first k m' then some k else m',
              if is_first k m' then a else if is_first j m then b else c,
            ))
          (first_after k a (first_after j b (m, c)))
  first_fields k j a b c m = elim (Bool-cases (is_first j m)) [
    | inl before ↦
        rw before (elim (Bool-cases (is_first k (some j))) [ inl p ↦ rw p | inr p ↦ rw p ])
    | inr after ↦ rw after (elim (Bool-cases (is_first k m)) [ inl p ↦ rw p | inr p ↦ rw p ])
  ]

pub ended_comm :
    (e f : Event) (old : Option Time)
    → ended_after e (ended_after f old) ≡ ended_after f (ended_after e old)
unfolding ended_after
ended_comm e f old = ground arith

pub min_started_comm :
    (s t old : Option Time)
    → min_started_after s (min_started_after t old) ≡ min_started_after t (min_started_after s old)
unfolding min_started_after
min_started_comm s t old = ground arith

pub add_asset_comm :
    (a b : Option String) (keys : List String)
    → length keys + 2 ≤ max_summary_assets
    → add_asset a (add_asset b keys) ≡ add_asset b (add_asset a keys)
unfolding add_asset
add_asset_comm none b keys room = refl
add_asset_comm (some a) none keys room = refl
add_asset_comm (some a) (some b) keys room =
    rw
      (
        lt→ltb (length keys) max_summary_assets (omega arith),
        lt→ltb (length (put a keys)) max_summary_assets (omega (arith, length-put-le a keys)),
        lt→ltb (length (put b keys)) max_summary_assets (omega (arith, length-put-le b keys)),
      )
      (put_comm a b keys)

pub length-add_asset :
    (a : Option String) (keys : List String) → length (add_asset a keys) ≤ length keys + 1
unfolding add_asset
length-add_asset none keys = omega arith
length-add_asset (some a) keys = ground (arith, length-put-le a keys)

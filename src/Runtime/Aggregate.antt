-- ===== src/Runtime/Aggregate.antt =====
-- aggregate.py of observe_core: `MetricAggregator`. The samples are floats other than NaN, in their
-- order; their sum, their quotients and `math.ceil(p * n)` are parameters, and so is the slot that
-- the random source draws. `none` is the infinity that an extreme starts from.
pub mod Samples
pub mod Refines
mod Tests
use phlo_observe.Common.{
  ℕ, ◌+◌, ◌-◌, String, Bool, true, false, not, Option, none, some, List, [], ◌∷◌, ◌++◌, ltb, leb,
  map, if◌then◌else◌, TotalOrder, str_order, length, min, sort_by, pair_order,
}
use phlo_observe.Common.Equality.{
  Equality, lookup, store, text_equality, pair_equality, list_equality, option_equality,
}
use phlo_observe.Common.Dict.{Dict}

-- A dict section of a call; a value is `none` where it is None.
abbrev pub Section : Type 0
Section = Option (Dict (Option String))

present_entries : Dict (Option String) → Dict String
present_entries [] = []
present_entries ((k, none) ∷ rest) = present_entries rest
present_entries ((k, some v) ∷ rest) = (k, v) ∷ present_entries rest

abbrev or_none {ℓ} : {A : Type ℓ} → List A → Option (List A)
or_none [] = none
or_none (x ∷ xs) = some (x ∷ xs)

abbrev entry_id : String × String → String × String
entry_id e = e

-- `_freeze`
pub freeze : Section → Option (Dict String)
unfolding present_entries
freeze none = none
freeze (some m) = or_none (sort_by (pair_order str_order str_order) entry_id (present_entries m))

-- `_SeriesKey`: the name, and the dimensions, entities, correlation and tags.
abbrev pub SeriesKey : Type 0
SeriesKey =
    String
    × (Option (Dict String)
        × (Option (Dict String) × (Option (Dict String) × Option (Dict String))))

abbrev section_equality : Equality (Option (Dict String))
section_equality = option_equality (list_equality (pair_equality text_equality text_equality))

instance abbrev pub series_equality : Equality SeriesKey
series_equality = pair_equality text_equality (
    pair_equality section_equality
      (pair_equality section_equality (pair_equality section_equality section_equality)))

abbrev text_of : Option String → String
text_of none = "None"
text_of (some s) = s

-- `{k: str(v) for k, v in ....items()} if ... else None`
unfoldable pub rendered : Section → Option (Dict String)
rendered none = none
rendered (some m) = or_none (map (λ e. (e.0, text_of e.1)) m)

unfoldable pub rendered_present : Section → Option (Dict String)
unfolding present_entries
rendered_present none = none
rendered_present (some []) = none
rendered_present (some (e ∷ m)) = some (present_entries (e ∷ m))

-- `dict(dimensions) if dimensions else None`
unfoldable pub copied : Section → Section
copied none = none
copied (some m) = or_none m

-- Floats: their order, `+`, 0.0, the quotient by a count, and `math.ceil(p * n)` of a percentage.
pub record Floats (V : Type 0) : Type 0 where
  pub order : TotalOrder V
  pub plus : V → V → V
  pub zero_float : V
  pub quotient : V → ℕ → V
  pub ceil_share : ℕ → ℕ → ℕ

pub record Bucket (V : Type 0) : Type 0 where
  pub values : List V
  pub seen : ℕ
  pub total : V
  pub minimum : Option V
  pub maximum : Option V
  pub dimensions : Section
  pub correlation : Option (Dict String)
  pub entities : Option (Dict String)
  pub tags : Option (Dict String)

pub record Summary (V : Type 0) : Type 0 where
  pub count : ℕ
  pub sum : V
  pub least : Option V
  pub greatest : Option V
  pub mean : V
  pub p50 : V
  pub p95 : V
  pub p99 : V

pub record Payload (V : Type 0) : Type 0 where
  pub metric : String
  pub dimensions : Dict (Option String)
  pub summary : Option (Summary V)
  pub correlation : Option (Dict String)
  pub entities : Option (Dict String)
  pub tags : Option (Dict String)

pub record MetricAggregator (V : Type 0) : Type 0 where
  pub buckets : List (SeriesKey × Bucket V)
  pub max_series : ℕ
  pub max_samples : ℕ
  pub last_flush : ℕ

-- What a call of `record` is given.
pub record Sample (V : Type 0) : Type 0 where
  pub name : String
  pub value : V
  pub dimensions : Section
  pub correlation : Section
  pub entities : Section
  pub tags : Section

module _ {V : Type 0} where
  -- `values[slot] = value`
  pub put_at : ℕ → V → List V → List V
  put_at n v [] = []
  put_at ℕ.zero v (x ∷ xs) = v ∷ xs
  put_at (ℕ.suc n) v (x ∷ xs) = x ∷ put_at n v xs

  unfoldable pub get_at : V → ℕ → List V → V
  get_at v n [] = v
  get_at v ℕ.zero (x ∷ xs) = x
  get_at v (ℕ.suc n) (x ∷ xs) = get_at v n xs

module _ {V : Type 0} (floats : Floats V) where
  pub lower_of : Option V → V → V
  lower_of none v = v
  lower_of (some m) v = if floats.order.less v m then v else m

  pub upper_of : Option V → V → V
  upper_of none v = v
  upper_of (some m) v = if floats.order.less m v then v else m

  -- The reservoir after a value, where the source draws a slot once it is full.
  pub sampled : ℕ → ℕ → V → List V → List V
  sampled cap slot v values =
      if ltb (length values) cap
      then values ++ v ∷ []
      else if ltb slot cap
      then put_at slot v values
      else values

  -- `_Bucket.add`
  pub add : Bucket V → V → ℕ → ℕ → Bucket V
  add b v cap slot = record b {
    seen = b.seen + 1;
    total = floats.plus b.total v;
    minimum = some (lower_of b.minimum v);
    maximum = some (upper_of b.maximum v);
    values = sampled cap slot v b.values;
  }

  -- `_percentile`, of a percentage.
  unfoldable pub percentile : List V → ℕ → V
  percentile [] p = floats.zero_float
  percentile (v ∷ vs) p =
      get_at v (min (length (v ∷ vs) - 1) (floats.ceil_share p (length (v ∷ vs)) - 1)) (v ∷ vs)

  abbrev itself : V → V
  itself v = v

  unfoldable pub sorted_values : List V → List V
  sorted_values vs = sort_by floats.order itself vs

  -- `_Bucket.summary`; the empty dict is `none`.
  unfoldable pub summary_of : Bucket V → Option (Summary V)
  summary_of b =
      let values = sorted_values b.values in
      if leb b.seen 0
      then none
      else some (record {
        count = b.seen;
        sum = b.total;
        least = b.minimum;
        greatest = b.maximum;
        mean = floats.quotient b.total b.seen;
        p50 = percentile values 50;
        p95 = percentile values 95;
        p99 = percentile values 99;
      })

  pub key_of : Sample V → SeriesKey
  key_of s =
      (s.name, (freeze s.dimensions, (freeze s.entities, (freeze s.correlation, freeze s.tags))))

  pub new_bucket : Sample V → Bucket V
  new_bucket s = record {
    values = [];
    seen = 0;
    total = floats.zero_float;
    minimum = none;
    maximum = none;
    dimensions = copied s.dimensions;
    correlation = rendered_present s.correlation;
    entities = rendered s.entities;
    tags = rendered s.tags;
  }

  pub with_bucket : MetricAggregator V → Sample V → Bucket V → ℕ → MetricAggregator V
  with_bucket a s b slot = record a {
    buckets = store (key_of s) (add b s.value a.max_samples slot) a.buckets;
  }

  pub record_in : MetricAggregator V → Sample V → ℕ → Option (Bucket V) → Bool × MetricAggregator V
  record_in a s slot (some b) = (true, with_bucket a s b slot)
  record_in a s slot none =
      if leb a.max_series (length a.buckets)
      then (false, a)
      else (true, with_bucket a s (new_bucket s) slot)

  -- `record`, where `slot` is the slot drawn if one is.
  pub record_sample : MetricAggregator V → Sample V → ℕ → Bool × MetricAggregator V
  record_sample a s slot = record_in a s slot (lookup (key_of s) a.buckets)

  abbrev unless_empty : Option (Dict String) → Option (Dict String)
  unless_empty none = none
  unless_empty (some m) = or_none m

  abbrev or_empty : Section → Dict (Option String)
  or_empty none = []
  or_empty (some m) = m

  unfoldable pub payload_of : SeriesKey × Bucket V → Payload V
  payload_of (key, b) = record {
    metric = key.0;
    dimensions = or_empty b.dimensions;
    summary = summary_of b;
    correlation = unless_empty b.correlation;
    entities = unless_empty b.entities;
    tags = unless_empty b.tags;
  }

  -- `flush`, at a reading of the monotonic clock.
  pub flush : MetricAggregator V → ℕ → List (Payload V) × MetricAggregator V
  flush a now = (map payload_of a.buckets, record a { buckets = []; last_flush = now })

  unfoldable pub due : MetricAggregator V → ℕ → ℕ → Bool
  due a flush_after now = leb flush_after (now - a.last_flush)

  unfoldable pub series_count : MetricAggregator V → ℕ
  series_count a = length a.buckets

  pub new_aggregator : ℕ → ℕ → ℕ → MetricAggregator V
  new_aggregator max_series max_samples now = record {
    buckets = [];
    max_series = max_series;
    max_samples = max_samples;
    last_flush = now;
  }

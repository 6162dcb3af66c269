-- ===== src/Runtime/Aggregate/Refines.antt =====
-- The aggregator of aggregate.py against its specification: the log of the samples accepted since the
-- last flush, each with the key of its series, oldest first.
use phlo_observe.Common.{
  ℕ, ◌≤◌, ◌<◌, ◌≡◌, refl, sym, ap, subst, Bool, true, false, Option, none, some, List, [], ◌∷◌,
  ◌++◌, leb, arith, inl, inr, if◌then◌else◌, length, length-append, Bool-cases, Option-cases,
}
use phlo_observe.Common.Equality.{
  lookup, store, lookup-store, length-store-le, length-store_present,
}
use phlo_observe.Runtime.Aggregate.{
  Floats, Bucket, add, SeriesKey, series_equality, MetricAggregator, Sample, key_of, new_bucket,
  with_bucket, record_in, record_sample, flush, new_aggregator,
}
use phlo_observe.Runtime.Aggregate.Samples.{Represents, add-Represents, sum_of}

abbrev pub Log : Type 0 → Type 0
Log V = List (SeriesKey × V)

module _ {V : Type 0} where
  -- The samples of one series.
  unfoldable pub samples_of : SeriesKey → Log V → List V
  samples_of key [] = []
  samples_of key ((k, v) ∷ log) =
      if series_equality.same k key then v ∷ samples_of key log else samples_of key log

  samples_of-append :
      (key k : SeriesKey) (v : V) (log : Log V)
      → samples_of key (log ++ (k, v) ∷ [])
        ≡ (if series_equality.same k key then samples_of key log ++ v ∷ [] else samples_of key log)
  unfolding samples_of
  samples_of-append key k v [] = ground arith
  samples_of-append key k v ((i, w) ∷ log) = ground (arith, samples_of-append key k v log)

module _ {V : Type 0} (floats : Floats V) where
  -- A series has a bucket exactly if it has samples, and the bucket represents them.
  abbrev pub Holds : ℕ → Option (Bucket V) → List V → Type 0
  Holds cap none vs = vs ≡ []
  Holds cap (some b) vs = Represents floats cap b vs × (0 < length vs)

  pub record Refines (a : MetricAggregator V) (log : Log V) : Type 0 where
    pub holds : (key : SeriesKey) → Holds a.max_samples (lookup key a.buckets) (samples_of key log)
    pub bounded : length a.buckets ≤ a.max_series

  pub data Recorded (a : MetricAggregator V) (log : Log V) (s : Sample V)
      : Bool × MetricAggregator V → Type 0 where
    accepted :
        (a' : MetricAggregator V)
        → Refines a' (log ++ (key_of floats s, s.value) ∷ [])
        → Recorded a log s (true, a')
    rejected :
        samples_of (key_of floats s) log ≡ []
        → length a.buckets ≡ a.max_series
        → Recorded a log s (false, a)

  new_bucket-Represents : (cap : ℕ) (s : Sample V) → Represents floats cap (new_bucket floats s) []
  unfolding new_bucket
  new_bucket-Represents cap s = record {
    seen = refl;
    total = unfold sum_of in refl;
    least = refl;
    greatest = refl;
    kept = omega arith;
    genuine = tt;
  }

  Represents-more :
      (cap slot : ℕ) (b : Bucket V) (v : V) (vs : List V)
      → Represents floats cap b vs
      → Holds cap (some (add floats b v cap slot)) (vs ++ v ∷ [])
  Represents-more cap slot b v vs h =
      (add-Represents floats cap slot b v vs h, omega (arith, length-append vs (v ∷ [])))

  Holds-after :
      (cap slot : ℕ) (k key : SeriesKey) (v : V) (b : Bucket V) (m : List (SeriesKey × Bucket V))
      (log : Log V)
      → Represents floats cap b (samples_of k log)
      → Holds cap (lookup key m) (samples_of key log)
      → Holds cap
          (lookup key (store k (add floats b v cap slot) m))
          (samples_of key (log ++ (k, v) ∷ []))
  Holds-after cap slot k key v b m log represents h =
      subst (λ o. Holds cap o (samples_of key (log ++ (k, v) ∷ [])))
        (sym (lookup-store k key (add floats b v cap slot) m))
        (subst
          (Holds cap
            (if series_equality.same k key then some (add floats b v cap slot) else lookup key m))
          (sym (samples_of-append key k v log))
          (elim (Bool-cases (series_equality.same k key)) [
            | inl hit ↦ rw hit (
                Represents-more cap slot b v (samples_of key log) (
                  subst (λ x. Represents floats cap b (samples_of x log))
                    (series_equality.same_sound k key hit) represents))
            | inr miss ↦ rw miss h
          ]))

  -- The bucket of the sample's series is replaced by one that represents one sample more.
  with_bucket-Refines :
      (a : MetricAggregator V) (log : Log V) (s : Sample V) (b : Bucket V) (slot : ℕ)
      → Refines a log
      → Represents floats a.max_samples b (samples_of (key_of floats s) log)
      → length (store (key_of floats s) (add floats b s.value a.max_samples slot) a.buckets)
        ≤ a.max_series
      → Refines (with_bucket floats a s b slot) (log ++ (key_of floats s, s.value) ∷ [])
  unfolding with_bucket
  with_bucket-Refines a log s b slot h represents fits = record {
    bounded = fits;
    holds = λ key.
        Holds-after a.max_samples slot (key_of floats s) key s.value b a.buckets log represents
          (h.holds key);
  }

  record_in-present :
      (a : MetricAggregator V) (log : Log V) (s : Sample V) (b : Bucket V) (slot : ℕ)
      → Refines a log
      → lookup (key_of floats s) a.buckets ≡ some b
      → Recorded a log s (record_in floats a s slot (some b))
  unfolding record_in
  record_in-present a log s b slot h found =
      let there : Holds a.max_samples (some b) (samples_of (key_of floats s) log) =
        subst (λ o. Holds a.max_samples o (samples_of (key_of floats s) log)) found
          (h.holds (key_of floats s)) in
      let as_long : length
            (store (key_of floats s) (add floats b s.value a.max_samples slot) a.buckets)
          ≡ length a.buckets =
        length-store_present (key_of floats s) (add floats b s.value a.max_samples slot) b a.buckets
          found in
      accepted _ (with_bucket-Refines a log s b slot h there.0 (omega (arith, as_long, h.bounded)))

  record_in-absent :
      (a : MetricAggregator V) (log : Log V) (s : Sample V) (slot : ℕ)
      → Refines a log
      → lookup (key_of floats s) a.buckets ≡ none
      → Recorded a log s (record_in floats a s slot none)
  unfolding record_in
  record_in-absent a log s slot h missing =
      let nothing_yet : samples_of (key_of floats s) log ≡ [] =
        subst (λ o. Holds a.max_samples o (samples_of (key_of floats s) log)) missing
          (h.holds (key_of floats s)) in
      elim (Bool-cases (leb a.max_series (length a.buckets))) [
        | inl full ↦ rw full (rejected nothing_yet (ground (arith, full, h.bounded)))
        | inr room ↦ rw room (
            accepted _ (
              with_bucket-Refines a log s (new_bucket floats s) slot h
                (subst (Represents floats a.max_samples (new_bucket floats s)) (sym nothing_yet)
                  (new_bucket-Represents a.max_samples s))
                (ground (
                  arith,
                  room,
                  length-store-le (key_of floats s)
                      (add floats (new_bucket floats s) s.value a.max_samples slot) a.buckets,
                ))))
      ]

  record_sample-known :
      (a : MetricAggregator V) (s : Sample V) (slot : ℕ) (o : Option (Bucket V))
      → lookup (key_of floats s) a.buckets ≡ o
      → record_in floats a s slot o ≡ record_sample floats a s slot
  unfolding record_sample
  record_sample-known a s slot o e = ap (record_in floats a s slot) (sym e)

  -- Of an aggregator whose buckets represent the log of accepted samples (each series with samples has
  -- one bucket, with their exact count, sum, least and greatest value and a reservoir of them up to the
  -- bound, and there are at most max_series buckets), `record` either accepts the sample, and the
  -- buckets then represent the log with it, or rejects it, where its series has no samples yet and
  -- the bound on series is reached, and changes nothing.
  pub record_sample-Recorded :
      (a : MetricAggregator V) (log : Log V) (s : Sample V) (slot : ℕ)
      → Refines a log
      → Recorded a log s (record_sample floats a s slot)
  record_sample-Recorded a log s slot h = elim (Option-cases (lookup (key_of floats s) a.buckets)) [
    | inl missing ↦
        subst (Recorded a log s) (record_sample-known a s slot none missing)
          (record_in-absent a log s slot h missing)
    | inr (b, found) ↦
        subst (Recorded a log s) (record_sample-known a s slot (some b) found)
          (record_in-present a log s b slot h found)
  ]

  pub new_aggregator-Refines :
      (max_series max_samples now : ℕ)
      → Refines (new_aggregator floats max_series max_samples now) []
  unfolding new_aggregator samples_of lookup
  new_aggregator-Refines max_series max_samples now = record {
    holds = λ key. refl;
    bounded = omega arith;
  }

  -- After a flush, the buckets represent the empty log.
  pub flush-Refines : (a : MetricAggregator V) (now : ℕ) → Refines (flush floats a now).1 []
  unfolding flush samples_of lookup
  flush-Refines a now = record { holds = λ key. refl; bounded = omega arith }

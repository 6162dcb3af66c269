-- ===== src/Runtime/Aggregate/Tests.antt =====
-- The aggregator on concrete samples, with numbers for floats.
use phlo_observe.Common.{
  ℕ, ◌+◌, ◌*◌, ◌/◌, ◌≡◌, refl, true, false, none, some, [], ◌∷◌, nat_order, sort_by, insert_by,
}
use phlo_observe.Common.Equality.{lookup, store}
use phlo_observe.Runtime.Aggregate.{
  Floats, Sample, MetricAggregator, new_aggregator, record_sample, key_of, record_in, with_bucket,
  freeze,
}
use phlo_observe.Runtime.Aggregate.Refines.{
  Recorded, record_sample-Recorded, new_aggregator-Refines,
}

abbrev natural_floats : Floats ℕ
natural_floats = record {
  order = nat_order;
  plus = λ a b. a + b;
  zero_float = 0;
  quotient = λ a b. a / b;
  ceil_share = λ p n. (p * n + 99) / 100;
}

abbrev one_sample : Sample ℕ
one_sample = record {
  name = "rows";
  value = 7;
  dimensions = some (("table", some "t") ∷ ("zone", none) ∷ []);
  correlation = none;
  entities = none;
  tags = none;
}

abbrev small : MetricAggregator ℕ
small = new_aggregator natural_floats 1 2 0

-- The second series of an aggregator for one is rejected, and a value of the first is accepted.
bound_test :
    (record_sample natural_floats
      (record_sample natural_floats small one_sample 0).1
      (record one_sample { name = "other" })
      0).0
    ≡ false
unfolding record_sample record_in with_bucket new_aggregator key_of freeze lookup store sort_by
    insert_by
bound_test = refl

again_test :
    (record_sample natural_floats
      (record_sample natural_floats small one_sample 0).1
      (record one_sample { dimensions = some (("table", some "t") ∷ []) })
      0).0
    ≡ true
unfolding record_sample record_in with_bucket new_aggregator key_of freeze lookup store sort_by
    insert_by
again_test = refl

record_sample-Recorded_example :
    Recorded natural_floats small [] one_sample (record_sample natural_floats small one_sample 0)
record_sample-Recorded_example =
    record_sample-Recorded natural_floats small [] one_sample 0
      (new_aggregator-Refines natural_floats 1 2 0)

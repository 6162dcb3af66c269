-- ===== src/Runtime/Sampling/Tests.antt =====
-- Tests of the sampling model, and its theorems at concrete rules and events.
use phlo_observe.Common.{
  ℕ, ◌≡◌, refl, true, false, String, none, some, List, [], ◌∷◌, arith, fold, map, last_entries,
}
use phlo_observe.Runtime.Canonical.{Delivery, Outcome, is_critical, is_failure}
use phlo_observe.Runtime.Sampling.{
  Sampler, SamplingRule, SamplingContext, evaluate, should_keep, rate_of, whole, glob, any_run,
  one_char, Severity,
}
use phlo_observe.Runtime.Sampling.Policy.{
  RuleSettings, PolicySampler, from_dict, rule_from, rules_from, from_settings,
}
use phlo_observe.Runtime.Sampling.Log.{after_deciding, decisions-fold}
use phlo_observe.Runtime.Sampling.Rules.{evaluate-Decided, Decided, should_keep_monotone}

abbrev half : ℕ
half = 9_223_372_036_854_775_808

-- A hash that gives every event the same fraction.
abbrev quarter_hash : List String → ℕ
quarter_hash parts = 4_611_686_018_427_387_904

abbrev rates : Sampler
rates = record { debug_rate = 0; telemetry_rate = half }

abbrev drop_all : RuleSettings
drop_all = record {
  name = some "quiet";
  event = some "asset.*";
  severity = none;
  outcome = none;
  min_duration_ms = none;
  environment = none;
  service = none;
  queue_pressure = none;
  rate = none;
  keep = some false;
  allow_critical = some true;
}

abbrev context : Delivery → SamplingContext
context delivery = record {
  event = "asset.write";
  delivery = delivery;
  severity = Severity.info;
  outcome = Outcome.success;
  duration_ms = none;
  service = none;
  environment = none;
  sample_key = some "r1";
  queue_depth = 0;
  queue_capacity = 10;
}

abbrev quiet_rule : SamplingRule
quiet_rule = record {
  name = "quiet";
  event = some "asset.*";
  severity = none;
  outcome = none;
  min_duration_ms = none;
  environment = none;
  service = none;
  queue_pressure = none;
  rate = none;
  keep = some false;
  allow_critical = false;
}

abbrev quiet : PolicySampler
quiet = record {
  base = rates;
  rules = quiet_rule ∷ [];
  decision_log_size = 1000;
  decisions = [];
  error_window = [];
}

glob_test : glob "asset.*" "asset.write" ≡ true
unfolding glob any_run one_char
glob_test = refl

built : from_settings rates (drop_all ∷ []) ≡ some quiet
unfolding from_settings rules_from from_dict rule_from
built = refl

evaluate-Decided_example :
    Decided quarter_hash rates
      (context Delivery.telemetry)
      (quiet_rule ∷ [])
      (evaluate quarter_hash rates (quiet_rule ∷ []) (context Delivery.telemetry))
unfolding is_critical is_failure
evaluate-Decided_example =
    evaluate-Decided quarter_hash rates (quiet_rule ∷ []) (context Delivery.telemetry) refl refl

abbrev generous : Sampler
generous = record { debug_rate = half; telemetry_rate = whole }

kept_at_half : should_keep quarter_hash rates Delivery.telemetry "run.started" (some "r1") ≡ true
unfolding should_keep rate_of
kept_at_half = refl

should_keep_monotone_example :
    should_keep quarter_hash generous Delivery.telemetry "run.started" (some "r1") ≡ true
should_keep_monotone_example =
    should_keep_monotone quarter_hash rates generous Delivery.telemetry "run.started" (some "r1")
      (omega arith) (omega arith) kept_at_half

abbrev short_log : PolicySampler
short_log = record quiet { decision_log_size = 1 }

decisions-fold_example :
    (fold
      (after_deciding quarter_hash)
      short_log
      (context Delivery.telemetry ∷ context Delivery.critical ∷ [])).decisions
    ≡ last_entries 1 (
        map
          (evaluate quarter_hash rates (quiet_rule ∷ []))
          (context Delivery.telemetry ∷ context Delivery.critical ∷ []))
decisions-fold_example =
    decisions-fold quarter_hash short_log
      (context Delivery.telemetry ∷ context Delivery.critical ∷ []) refl

-- ===== src/Runtime/Sampling/Rules.antt =====
-- The rules of `PolicySampler._evaluate` of sampling.py.
use phlo_observe.Common.{
  ℕ, ◌≤◌, ◌≡◌, refl, ap, inl, inr, true, false, String, Option, none, some, List, [], ◌∷◌, ◌++◌,
  arith, All, Option-cases,
}
use phlo_observe.Runtime.Canonical.{Delivery, is_critical, is_failure}
use phlo_observe.Runtime.Sampling.{
  Sampler, SamplingRule, SamplingContext, SamplingDecision, evaluate, by_rules, rule_decision,
  base_decision, should_keep, rate_of,
}

module _ (hash : List String → ℕ) where
  -- How the loop over the rules ends.
  pub data Decided (s : Sampler) (ctx : SamplingContext) (rules : List SamplingRule)
      : SamplingDecision → Type 0 where
    -- the first rule that decides, after rules that do not
    by_rule :
        (front : List SamplingRule) (rule : SamplingRule) (back : List SamplingRule)
        (d : SamplingDecision)
        → rules ≡ front ++ rule ∷ back
        → All (λ r. rule_decision hash r ctx ≡ none) front
        → rule_decision hash rule ctx ≡ some d
        → Decided s ctx rules d
    -- no rule decides: the base rate of the delivery class
    by_base :
        All (λ r. rule_decision hash r ctx ≡ none) rules
        → Decided s ctx rules (base_decision hash s ctx)

  after :
      (s : Sampler) (ctx : SamplingContext) (rule : SamplingRule) (rules : List SamplingRule)
      (d : SamplingDecision)
      → rule_decision hash rule ctx ≡ none
      → Decided s ctx rules d
      → Decided s ctx (rule ∷ rules) d
  after s ctx rule rules d h (by_rule front r back e splits skipped found) =
      by_rule (rule ∷ front) r back e (ap (◌∷◌ rule) splits) (h, skipped) found
  after s ctx rule rules d h (by_base skipped) = by_base (h, skipped)

  by_rules_skip :
      (s : Sampler) (ctx : SamplingContext) (rule : SamplingRule) (rules : List SamplingRule)
      → rule_decision hash rule ctx ≡ none
      → by_rules hash s (rule ∷ rules) ctx ≡ by_rules hash s rules ctx
  unfolding by_rules
  by_rules_skip s ctx rule rules h = ground (arith, h)

  by_rules_take :
      (s : Sampler) (ctx : SamplingContext) (rule : SamplingRule) (rules : List SamplingRule)
      (d : SamplingDecision)
      → rule_decision hash rule ctx ≡ some d
      → by_rules hash s (rule ∷ rules) ctx ≡ d
  unfolding by_rules
  by_rules_take s ctx rule rules d h = ground (arith, h)

  by_rules-Decided :
      (s : Sampler) (rules : List SamplingRule) (ctx : SamplingContext)
      → Decided s ctx rules (by_rules hash s rules ctx)
  unfolding by_rules
  by_rules-Decided s [] ctx = by_base tt
  by_rules-Decided s (rule ∷ rules) ctx = elim (Option-cases (rule_decision hash rule ctx)) [
    | inl skipped ↦
        rw (by_rules_skip s ctx rule rules skipped)
          (after s ctx rule rules _ skipped (by_rules-Decided s rules ctx))
    | inr (d, found) ↦
        rw (by_rules_take s ctx rule rules d found) (by_rule [] rule rules d refl tt found)
  ]

  -- Of an event that is no failure and not critical, the first rule that decides has the say, in
  -- the order of the rules, and the base rate only if none does.
  pub evaluate-Decided :
      (s : Sampler) (rules : List SamplingRule) (ctx : SamplingContext)
      → is_failure ctx.outcome ≡ false
      → is_critical ctx.delivery ≡ false
      → Decided s ctx rules (evaluate hash s rules ctx)
  unfolding evaluate
  evaluate-Decided s rules ctx calm plain = rw (calm, plain) (by_rules-Decided s rules ctx)

  -- Where no rate is lower than before, an event that was kept is kept.
  pub should_keep_monotone :
      (s t : Sampler) (delivery : Delivery) (event : String) (key : Option String)
      → s.debug_rate ≤ t.debug_rate
      → s.telemetry_rate ≤ t.telemetry_rate
      → should_keep hash s delivery event key ≡ true
      → should_keep hash t delivery event key ≡ true
  unfolding should_keep rate_of
  should_keep_monotone s t delivery event key h k kept = ground arith

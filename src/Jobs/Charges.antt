-- ===== src/Jobs/Charges.antt =====
-- app/workers/job_worker.py and app/core/pricing.py: the limits of a job, and what a call costs.
use feature_frontend.Prelude.{
  ℕ, suc, ◌+◌, ◌*◌, Bool, false, Option, none, some, List, [], ◌∷◌, ◌==◌, ltb, leb, if◌then◌else◌,
}
use feature_frontend.Prelude.Text.{Text, codes, text_eq}
use feature_frontend.Auth.Database.{first_where}
use feature_frontend.Jobs.Tables.{Money, Job, JobTables, get_job, increment_costs}
use feature_frontend.Jobs.World.{PlanStep, Pricing, Services}

-- What `_check_limits` raises.
pub data LimitError : Type 0 where
  budget_limit request_limit wall_clock_limit : LimitError

abbrev pub text_or : Option Text → Text → Text
text_or none d = d
text_or (some []) d = d
text_or (some (c ∷ s)) d = c ∷ s

-- `step.get("title", default)`
abbrev pub title_or : PlanStep → Text → Text
title_or s d = elim s.title [ none ↦ d | some t ↦ t ]

-- `summary or step.get("title")`
abbrev pub action_of : Text → PlanStep → Option Text
action_of [] s = s.title
action_of (c ∷ summary) s = some (c ∷ summary)

-- `len(plan)`
abbrev pub count_steps : List PlanStep → ℕ
count_steps [] = 0
count_steps (s ∷ ss) = suc (count_steps ss)

-- `now - started_at > timedelta(minutes=minutes)`
abbrev pub outlasted : ℕ → Option ℕ → ℕ → Bool
outlasted now none minutes = false
outlasted now (some t) minutes = ltb (t + minutes * 60) now

module _ {Usd : Type 0} (money : Money Usd) where
  unfoldable pub check_limits : ℕ → Job Usd → Option LimitError
  check_limits now j =
      if money.reaches j.cost_usd j.budget_usd
      then some budget_limit
      else (if leb j.max_requests j.requests_made
          then some request_limit
          else (if outlasted now j.started_at j.max_minutes then some wall_clock_limit else none))

  -- `PricingTable.get`: the model's entry, or the default one.
  abbrev pub price_of : Text → List (Text × Option (Pricing Usd)) → Option (Pricing Usd)
  price_of model prices = elim (first_where (λ e. text_eq e.0 model) prices) [
    | some e ↦ e.1
    | none ↦ elim (first_where (λ e. text_eq e.0 (codes "default")) prices) [
      | some e ↦ e.1
      | none ↦ none
    ]
  ]

  abbrev pub cost_at : Option (Pricing Usd) → ℕ → ℕ → Option Usd
  cost_at none n m = none
  cost_at (some p) n m = some (money.plus (money.share n p.input) (money.share m p.output))

  module _ (o : Services Usd) (id : Text) where
    abbrev pub calculate_cost : Text → ℕ → ℕ → Option Usd
    calculate_cost model n m = cost_at (price_of model o.prices) n m

    abbrev pub charge_with : Text → ℕ → ℕ → JobTables Usd → Option Usd → Option (JobTables Usd)
    charge_with model n m t none = none
    charge_with model n m t (some cost) = some (
        increment_costs money
          (record {
            job_id = id;
            provider = o.provider;
            model = model;
            tokens_in = n;
            tokens_out = m;
            cost_usd = cost;
          })
          t)

    -- `if tokens_in or tokens_out: ...`
    abbrev pub charge_tokens : Text → ℕ → ℕ → JobTables Usd → Option (JobTables Usd)
    charge_tokens model n m t = if n + m == 0 then some t else elim (get_job id t) [
      | none ↦ none
      | some j ↦ charge_with model n m t (calculate_cost model n m)
    ]

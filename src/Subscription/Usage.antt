-- ===== src/Subscription/Usage.antt =====
-- backend/subscription/service.py, with the rows of backend/db/models/user_usage.py and
-- subscription_plan.py. `session.flush` writes the defaults of a new row; until then its counters
-- are `None`, and the sessions of backend/db/session.py do not flush by themselves.
use feature_frontend.Prelude.{
  ℕ, ◌+◌, Bool, true, ◌&&◌, Option, none, some, List, [], ◌∷◌, ◌++◌, ◌==◌, ltb,
}
use feature_frontend.Prelude.Text.{Text, codes, text_eq}
use feature_frontend.Action.{
  Result, ok, err, Action, ◌>>=◌, gets, modify, lift, value_error, type_error,
}
use feature_frontend.Auth.Database.{first_where, update_where}

pub record SubscriptionPlan : Type 0 where
  pub name : Text
  pub max_jobs_per_month : Option ℕ
  pub max_storage_mb : Option ℕ
  pub max_api_calls_per_day : Option ℕ

pub record UserSubscription : Type 0 where
  pub user_id : Text
  pub plan : Option SubscriptionPlan
  pub is_running : Bool

pub record UserUsage : Type 0 where
  pub user_id : Text
  pub period_start : ℕ
  pub api_calls : Option ℕ
  pub jobs_created : Option ℕ
  pub storage_used_mb : Option ℕ
  pub compute_minutes : Option ℕ

pub record Ledger : Type 0 where
  pub plans : List SubscriptionPlan
  pub subscriptions : List UserSubscription
  pub usages : List UserUsage

pub data Metric : Type 0 where
  api_calls jobs storage compute other : Metric

unfoldable pub get_user_subscription : Text → Ledger → Option UserSubscription
get_user_subscription user_id b =
    first_where (λ s. text_eq s.user_id user_id && s.is_running) b.subscriptions

abbrev plan_or_free : Option SubscriptionPlan → Result SubscriptionPlan
plan_or_free none = err value_error
plan_or_free (some plan) = ok plan

abbrev free_plan : Ledger → Result SubscriptionPlan
free_plan b = plan_or_free (first_where (λ p. text_eq p.name (codes "free")) b.plans)

abbrev plan_of : Option UserSubscription → Ledger → Result SubscriptionPlan
plan_of none b = free_plan b
plan_of (some s) b = elim s.plan [ none ↦ free_plan b | some plan ↦ ok plan ]

unfoldable pub get_user_plan : Text → Ledger → Result SubscriptionPlan
get_user_plan user_id b = plan_of (get_user_subscription user_id b) b

abbrev pub is_usage : Text → ℕ → UserUsage → Bool
is_usage user_id period_start u = text_eq u.user_id user_id && u.period_start == period_start

unfoldable pub get_current_period_usage : Text → ℕ → Ledger → Option UserUsage
get_current_period_usage user_id period_start b =
    first_where (is_usage user_id period_start) b.usages

abbrev limit_of : Metric → SubscriptionPlan → Option ℕ
limit_of jobs plan = plan.max_jobs_per_month
limit_of storage plan = plan.max_storage_mb
limit_of api_calls plan = plan.max_api_calls_per_day
limit_of compute plan = none
limit_of other plan = none

abbrev counter_of : Metric → UserUsage → Option ℕ
counter_of jobs u = u.jobs_created
counter_of storage u = u.storage_used_mb
counter_of api_calls u = u.api_calls
counter_of compute u = none
counter_of other u = none

abbrev or_zero : Option ℕ → ℕ
or_zero none = 0
or_zero (some n) = n

abbrev pub current_value : Metric → Option UserUsage → ℕ
current_value quota_type none = 0
current_value quota_type (some u) = or_zero (counter_of quota_type u)

pub record Quota : Type 0 where
  pub within : Bool
  pub current : ℕ
  pub limit : Option ℕ

abbrev judge_quota : ℕ → Option ℕ → Quota
judge_quota current none = record { within = true; current = current; limit = none }
judge_quota current (some limit) = record {
  within = ltb current limit;
  current = current;
  limit = some limit;
}

abbrev with_plan : Text → ℕ → Metric → Ledger → Result SubscriptionPlan → Result Quota
with_plan user_id period_start quota_type b (err e) = err e
with_plan user_id period_start quota_type b (ok plan) = ok (
    judge_quota (current_value quota_type (get_current_period_usage user_id period_start b))
      (limit_of quota_type plan))

unfoldable pub check_quota : Text → (period_start : ℕ) → Metric → Ledger → Result Quota
check_quota user_id period_start quota_type b =
    with_plan user_id period_start quota_type b (get_user_plan user_id b)

abbrev new_usage : Text → ℕ → UserUsage
new_usage user_id period_start = record {
  user_id = user_id;
  period_start = period_start;
  api_calls = none;
  jobs_created = none;
  storage_used_mb = none;
  compute_minutes = none;
}

-- `counter += amount`
abbrev plus : Option ℕ → ℕ → Result (Option ℕ)
plus none amount = err type_error
plus (some n) amount = ok (some (n + amount))

abbrev set_counter : (Option ℕ → UserUsage) → Result (Option ℕ) → Result UserUsage
set_counter f (ok n) = ok (f n)
set_counter f (err e) = err e

abbrev pub count_up : Metric → ℕ → UserUsage → Result UserUsage
count_up api_calls n u = set_counter (λ v. record u { api_calls = v }) (plus u.api_calls n)
count_up jobs n u = set_counter (λ v. record u { jobs_created = v }) (plus u.jobs_created n)
count_up storage n u =
    set_counter (λ v. record u { storage_used_mb = v }) (plus u.storage_used_mb n)
count_up compute n u =
    set_counter (λ v. record u { compute_minutes = v }) (plus u.compute_minutes n)
count_up other n u = err value_error

abbrev pub put_usage : Text → ℕ → UserUsage → Ledger → Ledger
put_usage user_id period_start u b = record b {
  usages = update_where (is_usage user_id period_start) (λ _. u) b.usages;
}

abbrev pub usage_or_new : Text → ℕ → Option UserUsage → Action Ledger UserUsage
usage_or_new user_id period_start (some u) b = (ok u, b)
usage_or_new user_id period_start none b = (
  ok (new_usage user_id period_start),
  record b { usages = b.usages ++ new_usage user_id period_start ∷ [] },
)

unfoldable pub increment_usage :
    Text → (period_start : ℕ) → Metric → (amount : ℕ) → Action Ledger (Unit {0})
increment_usage user_id period_start metric amount = do
  found ← gets (get_current_period_usage user_id period_start)
  usage ← usage_or_new user_id period_start found
  counted ← lift (count_up metric amount usage)
  modify (put_usage user_id period_start counted)

-- The session of a request is rolled back where the request raises.
abbrev keep : {A : Type 0} → Ledger → Result A × Ledger → Ledger
keep b (ok a, b') = b'
keep b (err e, b') = b

abbrev pub request : {A : Type 0} → Action Ledger A → Ledger → Ledger
request m b = keep b (m b)

-- ===== src/Subscription/UsageLaws.antt =====
-- backend/subscription/service.py: what is counted against a quota.
use feature_frontend.Prelude.{ℕ, ◌≡◌, refl, ap, ◌∙◌, none, List, [], ◌∷◌}
use feature_frontend.Prelude.Text.{Text}
use feature_frontend.Auth.Database.{first_where}
use feature_frontend.Subscription.Usage.{
  Metric, api_calls, jobs, storage, compute, other, Ledger, is_usage, get_current_period_usage,
  check_quota, increment_usage, request,
}

-- A request that counts usage: for whom, in which period, what, and how much.
pub record Count : Type 0 where
  pub user_id : Text
  pub period_start : ℕ
  pub metric : Metric
  pub amount : ℕ

abbrev pub count_one : Count → Ledger → Ledger
count_one c = request (increment_usage c.user_id c.period_start c.metric c.amount)

abbrev pub count_all : List Count → Ledger → Ledger
count_all [] b = b
count_all (c ∷ cs) b = count_all cs (count_one c b)

first_count_fails :
    (user_id : Text) (period_start : ℕ) (metric : Metric) (amount : ℕ) (b : Ledger)
    → get_current_period_usage user_id period_start b ≡ none
    → request (increment_usage user_id period_start metric amount) b ≡ b
unfolding increment_usage
first_count_fails user_id period_start api_calls amount b new = rw new
first_count_fails user_id period_start jobs amount b new = rw new
first_count_fails user_id period_start storage amount b new = rw new
first_count_fails user_id period_start compute amount b new = rw new
first_count_fails user_id period_start other amount b new = rw new

-- From a table of usage without rows, whatever requests count usage, of whatever users and amounts,
-- the ledger stays as it is, so every quota is answered as on the first day.
pub count_all-nothing :
    (cs : List Count) (b : Ledger)
    → b.usages ≡ []
    → (count_all cs b ≡ b)
      × ((user_id : Text) (period_start : ℕ) (quota_type : Metric)
          → check_quota user_id period_start quota_type (count_all cs b)
            ≡ check_quota user_id period_start quota_type b)
unfolding get_current_period_usage
count_all-nothing [] b empty = (refl, λ user_id period_start quota_type. refl)
count_all-nothing (c ∷ cs) b empty =
    let same : count_one c b ≡ b =
      first_count_fails c.user_id c.period_start c.metric c.amount b
        (ap (first_where (is_usage c.user_id c.period_start)) empty) in
    let (rest, _) = count_all-nothing cs b empty in
    let all_same : count_all cs (count_one c b) ≡ b = ap (count_all cs) same ∙ rest in
    (
      all_same,
      λ user_id period_start quota_type. ap (check_quota user_id period_start quota_type) all_same,
    )

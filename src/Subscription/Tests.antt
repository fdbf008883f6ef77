-- ===== src/Subscription/Tests.antt =====
-- backend/subscription on sample requests.
use feature_frontend.Prelude.{ℕ, ◌≡◌, refl, none, some, List, [], ◌∷◌}
use feature_frontend.Prelude.Text.{Text, codes}
use feature_frontend.Subscription.Usage.{Metric, jobs, Ledger, check_quota}
use feature_frontend.Subscription.UsageLaws.{Count, count_all, count_all-nothing}

abbrev first_day : Ledger
first_day = record {
  plans =
      record {
        name = codes "free";
        max_jobs_per_month = some 2;
        max_storage_mb = some 100;
        max_api_calls_per_day = none;
      }
      ∷ [];
  subscriptions = [];
  usages = [];
}

abbrev three_jobs : List Count
three_jobs =
    let job : Count = record { user_id = codes "u"; period_start = 1; metric = jobs; amount = 1 } in
    job ∷ job ∷ job ∷ []

count_all-nothing_example :
    (count_all three_jobs first_day ≡ first_day)
    × ((user_id : Text) (period_start : ℕ) (quota_type : Metric)
        → check_quota user_id period_start quota_type (count_all three_jobs first_day)
          ≡ check_quota user_id period_start quota_type first_day)
count_all-nothing_example = count_all-nothing three_jobs first_day refl

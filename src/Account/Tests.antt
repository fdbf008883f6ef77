-- ===== src/Account/Tests.antt =====
-- backend/account on sample books.
use feature_frontend.Prelude.{◌+◌, ◌≡◌, refl, true, false, not, ◌&&◌, none, [], ◌∷◌, arith}
use feature_frontend.Prelude.Text.{codes}
use feature_frontend.Action.{ok, err, integrity_error}
use feature_frontend.Account.Tables.{cap_reached, Plan, active, UserPlan, SpendLimit, Books}
use feature_frontend.Account.Spending.{
  add_log, Month, quantize, usage_of, reaches, enforce_spend_cap, run_enforcement, enforce_cap,
  get_month_totals, record_spend,
}
use feature_frontend.Account.Returns.{switch_to-duplicate}
use feature_frontend.Account.Plans.{
  has_duplicates, switch_to, set_plan, get_plan_by_code, request_plan,
}
use feature_frontend.Account.CapLaws.{
  is_ok, charge_all, Below, charge_all-Below, enforce_spend_cap-refuses,
}
use feature_frontend.Account.PlanLaws.{active_plans}
use feature_frontend.Account.Requests.{returns_to, request_plan-active}

abbrev free : Plan
free = record { id = codes "p1"; code = codes "FREE" }

abbrev pro : Plan
pro = record { id = codes "p2"; code = codes "PRO" }

abbrev ten_dollars : SpendLimit
ten_dollars = record { user_id = codes "u"; monthly_cap = 1000; hard_stop = true }

abbrev on_free : UserPlan
on_free = record { user_id = codes "u"; plan_id = codes "p1"; status = active; cancelled_at = none }

abbrev books : Books
books = record {
  plans = free ∷ pro ∷ [];
  user_plans = on_free ∷ [];
  limits = ten_dollars ∷ [];
  records = [];
  log = [];
}

abbrev may : Month
may = record { start = 100; end = 200 }

-- Three spendings of 4 dollars: the third is refused.
three_spendings :
    usage_of
      (codes "u")
      may
      (charge_all (codes "u") may ((110, 4000) ∷ (120, 4000) ∷ (130, 4000) ∷ []) books).records
    ≡ 800
unfolding enforce_spend_cap run_enforcement enforce_cap get_month_totals quantize record_spend
three_spendings = refl

charge_all-Below_example :
    Below
      (codes "u")
      may
      ten_dollars
      (charge_all (codes "u") may ((110, 4000) ∷ (120, 4000) ∷ (130, 4000) ∷ []) books)
charge_all-Below_example =
    charge_all-Below (codes "u") may ten_dollars ((110, 4000) ∷ (120, 4000) ∷ (130, 4000) ∷ [])
      books refl (refl, omega arith)

enforce_spend_cap-refuses_example :
    let answer = enforce_spend_cap (codes "u") 10000 may true true books in
    (is_ok answer.0 ≡ not (reaches 1000 (0 + quantize 10000) && true))
    × (is_ok answer.0 ≡ false → answer.1 ≡ add_log (codes "u") cap_reached books)
enforce_spend_cap-refuses_example =
    enforce_spend_cap-refuses (codes "u") may 10000 true ten_dollars books refl

abbrev upgraded : Books
upgraded = (set_plan (codes "u") (codes "PRO") 110 books).1

upgrades : set_plan (codes "u") (codes "PRO") 110 books ≡ (ok pro, upgraded)
unfolding set_plan get_plan_by_code
upgrades = refl

-- Back to the free plan, which the table does not take.
refused_return : (request_plan (codes "u") (codes "FREE") 120 upgraded).0 ≡ err integrity_error
unfolding request_plan set_plan get_plan_by_code has_duplicates
refused_return = refl

single : has_duplicates books.user_plans ≡ false
unfolding has_duplicates
single = refl

request_plan-active_example :
    let answer = request_plan (codes "u") (codes "PRO") 110 books in
    (returns_to (codes "u") pro books ≡ true → answer ≡ (err integrity_error, books))
    × (returns_to (codes "u") pro books ≡ false
        → (answer.0 ≡ ok pro)
          × ((p : UserPlan) × (active_plans (codes "u") answer.1.user_plans ≡ p ∷ [])
              × (p.plan_id ≡ pro.id))
          × (has_duplicates answer.1.user_plans ≡ false))
request_plan-active_example =
    request_plan-active (codes "u") (codes "PRO") 110 books pro (omega arith) single refl

-- From the free plan to the other one and back.
switch_to-duplicate_example :
    has_duplicates (switch_to (codes "u") 120 free upgraded).1.user_plans ≡ true
unfolding set_plan get_plan_by_code
switch_to-duplicate_example = switch_to-duplicate (codes "u") free 120 upgraded refl refl

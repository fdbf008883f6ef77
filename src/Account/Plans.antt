-- ===== src/Account/Plans.antt =====
-- backend/account/services.py: `PlanService`.
use feature_frontend.Prelude.{
  ℕ, Bool, true, false, ◌&&◌, Option, none, some, List, [], ◌∷◌, ◌++◌, if◌then◌else◌, any, ◌||◌,
}
use feature_frontend.Prelude.Text.{Text, text_eq}
use feature_frontend.Action.{Result, ok, err, Action, ◌>>=◌, value_error, integrity_error}
use feature_frontend.Auth.Database.{first_where}
use feature_frontend.Account.Tables.{
  Plan, PlanStatus, active, canceled, past_due, UserPlan, plan_changed, Books,
}
use feature_frontend.Account.Spending.{add_log}

abbrev pub is_plan_active : PlanStatus → Bool
is_plan_active active = true
is_plan_active canceled = false
is_plan_active past_due = false

-- The test of the query for the active plan of a user.
abbrev pub is_enrolled : Text → UserPlan → Bool
is_enrolled user_id p = text_eq p.user_id user_id && is_plan_active p.status

abbrev pub found_or_error : Option Plan → Result Plan
found_or_error none = err value_error
found_or_error (some plan) = ok plan

unfoldable pub get_plan_by_code : Text → Action Books Plan
get_plan_by_code code b = (found_or_error (first_where (λ p. text_eq p.code code) b.plans), b)

abbrev pub enrollment : Text → Plan → UserPlan
enrollment user_id plan = record {
  user_id = user_id;
  plan_id = plan.id;
  status = active;
  cancelled_at = none;
}

-- The row that a query found is changed, and no other.
abbrev pub update_first {ℓ} : {A : Type ℓ} → (A → Bool) → (A → A) → List A → List A
update_first p f [] = []
update_first p f (x ∷ xs) = let rest = update_first p f xs in if p x then f x ∷ xs else x ∷ rest

abbrev pub cancel : ℕ → UserPlan → UserPlan
cancel now p = record p { status = canceled; cancelled_at = some now }

abbrev pub has_plan : Plan → Option UserPlan → Bool
has_plan plan none = false
has_plan plan (some p) = text_eq p.plan_id plan.id

abbrev pub change_plan : Text → Plan → ℕ → Books → Books
change_plan user_id plan now b = add_log user_id plan_changed (record b {
  user_plans =
      update_first (is_enrolled user_id) (cancel now) b.user_plans ++ enrollment user_id plan ∷ [];
})

abbrev pub switch_to : Text → ℕ → Plan → Action Books Plan
switch_to user_id now plan b = (
  ok plan,
  if has_plan plan (first_where (is_enrolled user_id) b.user_plans)
      then b
      else change_plan user_id plan now b,
)

-- Of several active plans of a user, `session.scalar` takes the first.
unfoldable pub set_plan : Text → (plan_code : Text) → (now : ℕ) → Action Books Plan
set_plan user_id plan_code now = get_plan_by_code plan_code >>= switch_to user_id now

-- The key of `user_plans` by its unique constraint, which the database checks as it writes the
-- rows.
abbrev pub same_key : UserPlan → UserPlan → Bool
same_key p q = text_eq p.user_id q.user_id && text_eq p.plan_id q.plan_id

unfoldable pub has_duplicates : List UserPlan → Bool
has_duplicates [] = false
has_duplicates (p ∷ ps) = any (same_key p) ps || has_duplicates ps

-- The end of a request: the session is committed, and the writing of the rows fails where they
-- break the unique constraint; after an error it is rolled back.
abbrev pub commit_plans : {A : Type 0} → Books → Result A × Books → Result A × Books
commit_plans b (ok a, b') =
    if has_duplicates b'.user_plans then (err integrity_error, b) else (ok a, b')
commit_plans b (err e, b') = (err e, b)

-- `update_plan` of backend/account/api/routes.py, after its rate limit.
unfoldable pub request_plan : Text → (plan_code : Text) → (now : ℕ) → Action Books Plan
request_plan user_id plan_code now b = commit_plans b (set_plan user_id plan_code now b)

-- ===== src/Account/Requests.antt =====
-- backend/account/services.py: a request for a plan, with the commit that ends it.
use feature_frontend.Prelude.{
  ℕ, ◌≤◌, ◌≡◌, refl, ap, ◌∙◌, sym, Bool, true, false, not, ◌&&◌, ◌||◌, some, List, [], ◌∷◌, ◌++◌,
  any, length, Bool-cases, inl, inr, arith,
}
use mathlib.Core.Path.{subst}
use feature_frontend.Prelude.Text.{Text, text_eq}
use feature_frontend.Action.{ok, err, integrity_error}
use feature_frontend.Auth.Database.{first_where}
use feature_frontend.Account.Tables.{Plan, UserPlan, Books}
use feature_frontend.Account.Plans.{
  is_enrolled, enrollment, update_first, cancel, has_plan, switch_to, get_plan_by_code, set_plan,
  same_key, has_duplicates, commit_plans, request_plan,
}
use feature_frontend.Account.PlanLaws.{active_plans, switched}
use feature_frontend.Account.Returns.{keys_kept, switch_to-duplicate}

any-last :
    (f : UserPlan → Bool) (ps : List UserPlan) (e : UserPlan)
    → any f ps ≡ false
    → f e ≡ false
    → any f (ps ++ e ∷ []) ≡ false
any-last f [] e none_there other = rw other refl
any-last f (p ∷ ps) e none_there other =
    let here : f p ≡ false = ground arith in
    let there : any f ps ≡ false = ground arith in rw here (any-last f ps e there other)

-- A row at the end with a key of its own.
unique_last :
    (e : UserPlan) (ps : List UserPlan)
    → has_duplicates ps ≡ false
    → any (λ q. same_key q e) ps ≡ false
    → has_duplicates (ps ++ e ∷ []) ≡ false
unfolding has_duplicates
unique_last e [] unique own = refl
unique_last e (p ∷ ps) unique own =
    let here : any (same_key p) ps ≡ false = ground arith in
    let rest : has_duplicates ps ≡ false = ground arith in
    let apart : same_key p e ≡ false = ground arith in
    let others : any (λ q. same_key q e) ps ≡ false = ground arith in
    rw (any-last (same_key p) ps e here apart) (unique_last e ps rest others)

keys_kept_after :
    (user_id : Text) (now : ℕ) (p : UserPlan) (ps : List UserPlan)
    → any (same_key p) (update_first (is_enrolled user_id) (cancel now) ps) ≡ any (same_key p) ps
keys_kept_after user_id now p [] = refl
keys_kept_after user_id now p (q ∷ ps) = elim (Bool-cases (is_enrolled user_id q)) [
  | inl its ↦ rw its refl
  | inr other ↦ rw other (ap (λ rest. same_key p q || rest) (keys_kept_after user_id now p ps))
]

cancelled-has_duplicates :
    (user_id : Text) (now : ℕ) (ps : List UserPlan)
    → has_duplicates (update_first (is_enrolled user_id) (cancel now) ps) ≡ has_duplicates ps
unfolding has_duplicates
cancelled-has_duplicates user_id now [] = refl
cancelled-has_duplicates user_id now (p ∷ ps) = elim (Bool-cases (is_enrolled user_id p)) [
  | inl its ↦ rw its refl
  | inr other ↦ rw other (
      ap (λ here. here || has_duplicates (update_first (is_enrolled user_id) (cancel now) ps))
        (keys_kept_after user_id now p ps)
      ∙ ap (λ rest. any (same_key p) ps || rest) (cancelled-has_duplicates user_id now ps))
]

-- The plan is one that the user had before and left.
abbrev pub returns_to : Text → Plan → Books → Bool
returns_to user_id plan b =
    any (λ q. same_key q (enrollment user_id plan)) b.user_plans
    && not (has_plan plan (first_where (is_enrolled user_id) b.user_plans))

switched_unique :
    (user_id : Text) (plan : Plan) (now : ℕ) (b : Books)
    → has_duplicates b.user_plans ≡ false
    → returns_to user_id plan b ≡ false
    → has_duplicates (switch_to user_id now plan b).1.user_plans ≡ false
switched_unique user_id plan now b unique first_time =
    elim (Bool-cases (has_plan plan (first_where (is_enrolled user_id) b.user_plans))) [
      | inl same ↦ rw same unique
      | inr other ↦
          let own : any (λ q. same_key q (enrollment user_id plan)) b.user_plans ≡ false =
            ground arith in
          rw other (
            unique_last (enrollment user_id plan)
              (update_first (is_enrolled user_id) (cancel now) b.user_plans)
              (cancelled-has_duplicates user_id now b.user_plans ∙ unique)
              (keys_kept user_id now (enrollment user_id plan) b.user_plans ∙ own))
    ]

module _ (user_id plan_code : Text) (now : ℕ) (b : Books) (plan : Plan) where
  requested :
      first_where (λ p. text_eq p.code plan_code) b.plans ≡ some plan
      → request_plan user_id plan_code now b ≡ commit_plans b (switch_to user_id now plan b)
  unfolding request_plan set_plan get_plan_by_code
  requested configured = rw configured refl

  -- A user who had at most one active plan asks for a plan that is configured, in a table without
  -- two rows of one user and plan. If it is a plan that the user had before and left, the request
  -- fails as it is committed and changes nothing. Otherwise it is granted, the user then has
  -- exactly one active plan, which is that one, and the table still has no such two rows.
  pub request_plan-active :
      length (active_plans user_id b.user_plans) ≤ 1
      → has_duplicates b.user_plans ≡ false
      → first_where (λ p. text_eq p.code plan_code) b.plans ≡ some plan
      → let answer = request_plan user_id plan_code now b in
        (returns_to user_id plan b ≡ true → answer ≡ (err integrity_error, b))
        × (returns_to user_id plan b ≡ false
            → (answer.0 ≡ ok plan)
              × ((p : UserPlan) × (active_plans user_id answer.1.user_plans ≡ p ∷ [])
                  × (p.plan_id ≡ plan.id))
              × (has_duplicates answer.1.user_plans ≡ false))
  request_plan-active few unique configured = (
    λ left.
        let before : any (λ q. same_key q (enrollment user_id plan)) b.user_plans ≡ true =
          ground arith in
        let other : has_plan plan (first_where (is_enrolled user_id) b.user_plans) ≡ false =
          ground arith in
        let twice = switch_to-duplicate user_id plan now b before other in
        requested configured ∙ rw twice refl,
    λ first_time.
        let once = switched_unique user_id plan now b unique first_time in
        let same : commit_plans b (switch_to user_id now plan b) ≡ switch_to user_id now plan b =
          rw once refl in
        subst
          (λ r.
            (r.0 ≡ ok plan)
            × ((p : UserPlan) × (active_plans user_id r.1.user_plans ≡ p ∷ [])
                × (p.plan_id ≡ plan.id))
            × (has_duplicates r.1.user_plans ≡ false))
          (sym (requested configured ∙ same)) (refl, switched user_id plan now b few, once),
  )

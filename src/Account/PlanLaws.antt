-- ===== src/Account/PlanLaws.antt =====
-- backend/account/services.py: the active plans of a user after a change of plan.
use feature_frontend.Prelude.{
  ℕ, suc, ◌≤◌, ◌≡◌, refl, ap, sym, ◌∙◌, Bool, true, false, ◌&&◌, some, List, [], ◌∷◌, ◌++◌,
  Bool-cases, Option-cases, inl, inr, arith, keep_if, length,
}
use feature_frontend.Prelude.Text.{Text, text_eq, text_eq_refl, text_eq_iff}
use feature_frontend.Auth.Database.{first_where}
use feature_frontend.Account.Tables.{Plan, UserPlan, Books}
use feature_frontend.Account.Plans.{
  is_enrolled, enrollment, update_first, cancel, change_plan, switch_to,
}

-- The active plans of a user.
abbrev pub active_plans : Text → List UserPlan → List UserPlan
active_plans user_id = keep_if (is_enrolled user_id)

and_false : (b : Bool) → (b && false) ≡ false
and_false true = refl
and_false false = refl

empty : (ps : List UserPlan) → length ps ≤ 0 → ps ≡ []
empty [] few = refl
empty (p ∷ ps) few = absurd (omega (arith, few))

-- A user with at most one active plan has none once it is cancelled.
cancelled :
    (user_id : Text) (now : ℕ) (ps : List UserPlan)
    → length (active_plans user_id ps) ≤ 1
    → active_plans user_id (update_first (is_enrolled user_id) (cancel now) ps) ≡ []
cancelled user_id now [] few = refl
cancelled user_id now (p ∷ ps) few = elim (Bool-cases (is_enrolled user_id p)) [
  | inl its ↦
      let more : length (active_plans user_id (p ∷ ps)) ≡ suc (length (active_plans user_id ps)) =
        rw its in
      rw its (rw (and_false (text_eq p.user_id user_id)) (empty _ (omega (arith, more, few))))
  | inr other ↦
      let same : length (active_plans user_id (p ∷ ps)) ≡ length (active_plans user_id ps) =
        rw other in
      rw other (rw other (cancelled user_id now ps (omega (arith, same, few))))
]

active_plans-append :
    (user_id : Text) (ps qs : List UserPlan)
    → active_plans user_id (ps ++ qs) ≡ active_plans user_id ps ++ active_plans user_id qs
active_plans-append user_id [] qs = refl
active_plans-append user_id (p ∷ ps) qs = elim (Bool-cases (is_enrolled user_id p)) [
  | inl its ↦ rw its (ap (λ rest. p ∷ rest) (active_plans-append user_id ps qs))
  | inr other ↦ rw other (active_plans-append user_id ps qs)
]

the_only :
    (user_id : Text) (ps : List UserPlan) (p : UserPlan)
    → length (active_plans user_id ps) ≤ 1
    → first_where (is_enrolled user_id) ps ≡ some p
    → active_plans user_id ps ≡ p ∷ []
the_only user_id [] p few found = absurd (cc)
the_only user_id (q ∷ ps) p few found = elim (Bool-cases (is_enrolled user_id q)) [
  | inl its ↦
      let more : length (active_plans user_id (q ∷ ps)) ≡ suc (length (active_plans user_id ps)) =
        rw its in
      let same : first_where (is_enrolled user_id) (q ∷ ps) ≡ some q = rw its in
      let here : q ≡ p = cc in
      rw its (
        ap (λ rest. q ∷ rest) (empty (active_plans user_id ps) (omega (arith, more, few)))
        ∙ ap (λ x. x ∷ []) here)
  | inr other ↦
      let same : length (active_plans user_id (q ∷ ps)) ≡ length (active_plans user_id ps) =
        rw other in
      rw other (the_only user_id ps p (omega (arith, same, few)) (sym (rw other refl) ∙ found))
]

changed-active :
    (user_id : Text) (plan : Plan) (now : ℕ) (b : Books)
    → length (active_plans user_id b.user_plans) ≤ 1
    → active_plans user_id (change_plan user_id plan now b).user_plans
      ≡ enrollment user_id plan ∷ []
changed-active user_id plan now b few =
    active_plans-append user_id (update_first (is_enrolled user_id) (cancel now) b.user_plans)
      (enrollment user_id plan ∷ [])
    ∙ rw (cancelled user_id now b.user_plans few) (rw (text_eq_refl user_id))

pub switched :
    (user_id : Text) (plan : Plan) (now : ℕ) (b : Books)
    → length (active_plans user_id b.user_plans) ≤ 1
    → (p : UserPlan) × (active_plans user_id (switch_to user_id now plan b).1.user_plans ≡ p ∷ [])
      × (p.plan_id ≡ plan.id)
switched user_id plan now b few =
    elim (Option-cases (first_where (is_enrolled user_id) b.user_plans)) [
      | inl nothing ↦
          (enrollment user_id plan, rw nothing (changed-active user_id plan now b few), refl)
      | inr (p, found) ↦ elim (Bool-cases (text_eq p.plan_id plan.id)) [
        | inl same ↦ (
          p,
          rw (found, same) (the_only user_id b.user_plans p few found),
          (text_eq_iff p.plan_id plan.id).0 same,
        )
        | inr other ↦ (
          enrollment user_id plan,
          rw (found, other) (changed-active user_id plan now b few),
          refl,
        )
      ]
    ]

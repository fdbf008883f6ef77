-- ===== src/Account/Returns.antt =====
-- backend/account/services.py: a plan that was left cannot be taken again.
use feature_frontend.Prelude.{
  ℕ, ◌≡◌, refl, sym, ◌∙◌, Bool, true, false, ◌||◌, List, [], ◌∷◌, ◌++◌, Bool-cases, inl, inr, any,
}
use feature_frontend.Prelude.Text.{Text}
use feature_frontend.Auth.Database.{first_where}
use feature_frontend.Account.Tables.{Plan, UserPlan, Books}
use feature_frontend.Account.Plans.{
  is_enrolled, enrollment, update_first, cancel, has_plan, switch_to, same_key, has_duplicates,
}

or_true : (b : Bool) → (b || true) ≡ true
or_true true = refl
or_true false = refl

-- A row at the end with the key of one before it.
duplicate_last :
    (e : UserPlan) (ps : List UserPlan)
    → any (λ q. same_key q e) ps ≡ true
    → has_duplicates (ps ++ e ∷ []) ≡ true
unfolding has_duplicates
duplicate_last e [] there = absurd (cc)
duplicate_last e (q ∷ ps) there = elim (Bool-cases (same_key q e)) [
  | inl same ↦ rw (any_last (same_key q) ps e same)
  | inr other ↦ rw (duplicate_last e ps (sym (rw other refl) ∙ there)) (or_true _)
]
  where
    any_last :
        (f : UserPlan → Bool) (ps : List UserPlan) (e : UserPlan)
        → f e ≡ true
        → any f (ps ++ e ∷ []) ≡ true
    any_last f [] e h = rw h
    any_last f (x ∷ ps) e h = rw (any_last f ps e h) (or_true (f x))

-- Cancelling keeps the keys.
pub keys_kept :
    (user_id : Text) (now : ℕ) (e : UserPlan) (ps : List UserPlan)
    → any (λ q. same_key q e) (update_first (is_enrolled user_id) (cancel now) ps)
      ≡ any (λ q. same_key q e) ps
keys_kept user_id now e [] = refl
keys_kept user_id now e (p ∷ ps) = elim (Bool-cases (is_enrolled user_id p)) [
  | inl its ↦ rw its
  | inr other ↦ rw other (rw (keys_kept user_id now e ps))
]

-- A user who changes to a plan that they have had before, and whose active plan is another, gets a
-- second row with the same user and plan, which the unique constraint of the table forbids.
pub switch_to-duplicate :
    (user_id : Text) (plan : Plan) (now : ℕ) (b : Books)
    → any (λ q. same_key q (enrollment user_id plan)) b.user_plans ≡ true
    → has_plan plan (first_where (is_enrolled user_id) b.user_plans) ≡ false
    → has_duplicates (switch_to user_id now plan b).1.user_plans ≡ true
switch_to-duplicate user_id plan now b before other = rw other (
    duplicate_last (enrollment user_id plan)
      (update_first (is_enrolled user_id) (cancel now) b.user_plans)
      (keys_kept user_id now (enrollment user_id plan) b.user_plans ∙ before))

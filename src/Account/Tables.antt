-- ===== src/Account/Tables.antt =====
-- backend/db/models/billing.py: the rows behind backend/account. An amount is a whole number of
-- cents, since `_quantize` leaves no others.
use feature_frontend.Prelude.{ℕ, Bool, Option, List}
use feature_frontend.Prelude.Text.{Text}

pub data PlanStatus : Type 0 where
  active canceled past_due : PlanStatus

pub record Plan : Type 0 where
  pub id : Text
  pub code : Text

-- A row of `user_plans`; the newest is the last one.
pub record UserPlan : Type 0 where
  pub user_id : Text
  pub plan_id : Text
  pub status : PlanStatus
  pub cancelled_at : Option ℕ

pub record SpendLimit : Type 0 where
  pub user_id : Text
  pub monthly_cap : ℕ
  pub hard_stop : Bool

pub record SpendRecord : Type 0 where
  pub user_id : Text
  pub amount : ℕ
  pub created_at : ℕ

pub data AccountEvent : Type 0 where
  cap_reached plan_changed limits_changed spend_recorded : AccountEvent

pub record AccountLog : Type 0 where
  pub target_user_id : Text
  pub event : AccountEvent

pub record Books : Type 0 where
  pub plans : List Plan
  pub user_plans : List UserPlan
  pub limits : List SpendLimit
  pub records : List SpendRecord
  pub log : List AccountLog

-- ===== src/Account/Spending.antt =====
-- backend/account/services.py: `SpendLimitService` and `SpendAccountingService`, and
-- backend/account/enforcement.py.
use feature_frontend.Prelude.{
  ℕ, ◌+◌, ◌-◌, ◌/◌, Bool, true, false, not, ◌&&◌, Option, none, some, List, [], ◌∷◌, ◌++◌, leb, ltb,
  if◌then◌else◌,
}
use feature_frontend.Prelude.Text.{Text, text_eq}
use feature_frontend.Action.{Result, ok, err, Action, payment_required}
use feature_frontend.Auth.Database.{first_where, update_where}
use feature_frontend.Account.Tables.{
  SpendLimit, SpendRecord, AccountEvent, cap_reached, limits_changed, spend_recorded, Books,
}

-- The month of a call: its first second, and that of the next month.
pub record Month : Type 0 where
  pub start : ℕ
  pub end : ℕ

-- An amount in thousandths of a dollar as cents: rounded to two decimals, a half upwards. Amounts
-- are not negative.
unfoldable pub quantize : (thousandths : ℕ) → ℕ
quantize thousandths = (thousandths + 5) / 10

abbrev pub add_log : Text → AccountEvent → Books → Books
add_log user_id event b = record b {
  log = b.log ++ record { target_user_id = user_id; event = event } ∷ [];
}

abbrev pub limit_of : Text → Books → Option SpendLimit
limit_of user_id b = first_where (λ l. text_eq l.user_id user_id) b.limits

abbrev pub new_limit : Text → SpendLimit
new_limit user_id = record { user_id = user_id; monthly_cap = 0; hard_stop = false }

abbrev create_limit : Text → Option SpendLimit → Books → Books
create_limit user_id none b = record b { limits = b.limits ++ new_limit user_id ∷ [] }
create_limit user_id (some limit) b = b

-- `get_or_create`
unfoldable pub ensure_limit : Text → Books → Books
ensure_limit user_id b = create_limit user_id (limit_of user_id b) b

unfoldable pub update_limits : Text → (monthly_cap_usd : ℕ) → (hard_stop : Bool) → Books → Books
update_limits user_id monthly_cap_usd hard_stop b =
    let b' = ensure_limit user_id b in
    add_log user_id limits_changed (record b' {
      limits =
          update_where (λ l. text_eq l.user_id user_id)
            (λ l. record l { monthly_cap = quantize monthly_cap_usd; hard_stop = hard_stop })
            b'.limits;
    })

-- `SpendAccountingService.record`
unfoldable pub record_spend : Text → (usd_amount : ℕ) → (now : ℕ) → Books → Books
record_spend user_id usd_amount now b = add_log user_id spend_recorded (record b {
  records =
      b.records
      ++ record { user_id = user_id; amount = quantize usd_amount; created_at = now } ∷ [];
})

pub record SpendTotals : Type 0 where
  pub usage : ℕ
  pub cap : ℕ
  pub remaining : ℕ
  pub reached : Bool
  pub hard_stop : Bool

abbrev pub counts : Text → Month → SpendRecord → Bool
counts user_id month r =
    text_eq r.user_id user_id && leb month.start r.created_at && ltb r.created_at month.end

abbrev pub usage_of : Text → Month → List SpendRecord → ℕ
usage_of user_id month [] = 0
usage_of user_id month (r ∷ rs) =
    let rest = usage_of user_id month rs in if counts user_id month r then r.amount + rest else rest

abbrev cap_of : Option SpendLimit → ℕ
cap_of none = 0
cap_of (some limit) = limit.monthly_cap

abbrev stops : Option SpendLimit → Bool
stops none = false
stops (some limit) = limit.hard_stop

-- A cap of zero is no cap. What remains is not negative.
abbrev pub reaches : (cap usage : ℕ) → Bool
reaches cap usage = ltb 0 cap && leb cap usage

unfoldable pub get_month_totals : Text → Month → Books → SpendTotals
get_month_totals user_id month b =
    let usage = usage_of user_id month b.records in
    let cap = cap_of (limit_of user_id b) in
    record {
      usage = usage;
      cap = cap;
      remaining = cap - usage;
      reached = reaches cap usage;
      hard_stop = stops (limit_of user_id b);
    }

pub record SpendCapState : Type 0 where
  pub cap_reached : Bool
  pub hard_stop : Bool
  pub remaining : ℕ

unfoldable pub enforce_cap : Text → (estimated_usd : ℕ) → Month → Books → SpendCapState × Books
enforce_cap user_id estimated_usd month b =
    let totals = get_month_totals user_id month b in
    let projected_usage = totals.usage + quantize estimated_usd in
    let reached = reaches totals.cap projected_usage in
    (
      record {
        cap_reached = reached;
        hard_stop = totals.hard_stop;
        remaining = totals.cap - projected_usage;
      },
      if reached then add_log user_id cap_reached b else b,
    )

pub record EnforcementResult : Type 0 where
  pub cap_reached : Bool
  pub hard_stop : Bool
  pub remaining : ℕ
  pub warning_header : Bool

abbrev judge : (raise_on_block : Bool) → SpendCapState → Result EnforcementResult
judge raise_on_block state =
    if state.cap_reached && state.hard_stop && raise_on_block
    then err payment_required
    else ok (record {
      cap_reached = state.cap_reached;
      hard_stop = state.hard_stop;
      remaining = state.remaining;
      warning_header = state.cap_reached && not state.hard_stop;
    })

-- `_run_enforcement`
unfoldable pub run_enforcement :
    Text → (estimated_usd : ℕ) → Month → (raise_on_block : Bool) → Action Books EnforcementResult
run_enforcement user_id estimated_usd month raise_on_block b =
    let (state, b') = enforce_cap user_id estimated_usd month b in (judge raise_on_block state, b')

-- `session_scope`: what an action did in a session of its own is kept only if it returns.
abbrev scoped : {A : Type 0} → Books → Result A × Books → Result A × Books
scoped b (ok a, b') = (ok a, b')
scoped b (err e, b') = (err e, b)

-- In a session that the caller gives, it is the caller that commits or rolls back: what was done
-- before the error is still in the session.
abbrev pub in_session : {A : Type 0} → (given : Bool) → Books → Result A × Books → Result A × Books
in_session true b r = r
in_session false b r = scoped b r

unfoldable pub enforce_spend_cap :
    Text
    → (estimated_usd : ℕ) → Month
    → (given raise_on_block : Bool) → Action Books EnforcementResult
enforce_spend_cap user_id estimated_usd month given raise_on_block b =
    in_session given b (run_enforcement user_id estimated_usd month raise_on_block b)

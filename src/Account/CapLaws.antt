-- ===== src/Account/CapLaws.antt =====
-- backend/account: a cap with a hard stop is never reached.
use feature_frontend.Prelude.{
  ℕ, ◌+◌, ◌≤◌, ◌<◌, ◌≡◌, refl, ap, ◌∙◌, Bool, true, false, not, ◌&&◌, some, List, [], ◌∷◌, ◌++◌,
  if◌then◌else◌, Bool-cases, inl, inr, arith,
}
use feature_frontend.Prelude.Text.{Text}
use feature_frontend.Action.{Result, ok, err}
use feature_frontend.Account.Tables.{cap_reached, SpendLimit, SpendRecord, Books}
use feature_frontend.Account.Spending.{
  Month, quantize, add_log, limit_of, record_spend, counts, usage_of, reaches, get_month_totals,
  enforce_cap, run_enforcement, enforce_spend_cap,
}

abbrev pub is_ok : {A : Type 0} → Result A → Bool
is_ok (ok a) = true
is_ok (err e) = false

usage_of-append :
    (user_id : Text) (month : Month) (rs ss : List SpendRecord)
    → usage_of user_id month (rs ++ ss) ≡ usage_of user_id month rs + usage_of user_id month ss
usage_of-append user_id month [] ss = omega arith
usage_of-append user_id month (r ∷ rs) ss = elim (Bool-cases (counts user_id month r)) [
  | inl it_counts ↦ rw it_counts (omega (arith, usage_of-append user_id month rs ss))
  | inr not_counted ↦ rw not_counted (usage_of-append user_id month rs ss)
]

-- A spending that is asked for and, where it is let through, recorded.
abbrev pub charge : Text → Month → (now amount : ℕ) → Books → Books
charge user_id month now amount b =
    let (answer, b') = enforce_spend_cap user_id amount month false true b in
    if is_ok answer then record_spend user_id amount now b' else b'

-- A number of spendings, each with its time.
abbrev pub charge_all : Text → Month → List (ℕ × ℕ) → Books → Books
charge_all user_id month [] b = b
charge_all user_id month ((now, amount) ∷ rest) b =
    charge_all user_id month rest (charge user_id month now amount b)

not_reached : (cap usage : ℕ) {u : ℕ} → reaches cap usage ≡ false → u < cap → usage < cap
not_reached cap usage fits below = ground arith

module _ (user_id : Text) (month : Month) (limit : SpendLimit) where
  -- A cap that is set, with a hard stop, and not reached.
  abbrev pub Below : Books → Type 0
  Below b =
      (limit_of user_id b ≡ some limit) × (usage_of user_id month b.records < limit.monthly_cap)

  abbrev spent : ℕ → ℕ → SpendRecord
  spent now amount = record { user_id = user_id; amount = quantize amount; created_at = now }

  -- What a spending that is let through adds to the usage.
  usage_of-record_spend :
      (now amount : ℕ) (b : Books)
      → usage_of user_id month (record_spend user_id amount now b).records
        ≤ usage_of user_id month b.records + quantize amount
  unfolding record_spend
  usage_of-record_spend now amount b = elim (Bool-cases (counts user_id month (spent now amount))) [
    | inl it_counts ↦
        let single : usage_of user_id month (spent now amount ∷ []) ≡ quantize amount + 0 =
          rw it_counts in
        omega (arith, usage_of-append user_id month b.records (spent now amount ∷ []), single)
    | inr not_counted ↦
        let single : usage_of user_id month (spent now amount ∷ []) ≡ 0 = rw not_counted in
        omega (arith, usage_of-append user_id month b.records (spent now amount ∷ []), single)
  ]

  limit-record_spend :
      (now amount : ℕ) (b : Books)
      → limit_of user_id (record_spend user_id amount now b) ≡ limit_of user_id b
  unfolding record_spend
  limit-record_spend now amount b = refl

  charge-Below :
      (now amount : ℕ) (b : Books)
      → limit.hard_stop ≡ true
      → Below b
      → Below (charge user_id month now amount b)
  unfolding enforce_spend_cap run_enforcement enforce_cap get_month_totals
  charge-Below now amount b stops (limited, below) =
      elim (Bool-cases
        (reaches limit.monthly_cap (usage_of user_id month b.records + quantize amount))) [
          | inl over ↦
              rw (limited, over, stops)
                (limited ∙ ap (λ h. some (record limit { hard_stop = h })) stops, below)
          | inr fits ↦
              rw (limited, fits)
                (
                  limit-record_spend now amount b ∙ limited,
                  omega (
                    arith,
                    usage_of-record_spend now amount b,
                    not_reached limit.monthly_cap _ fits below,
                  ),
                )
        ]

  -- A user whose cap has a hard stop and is not reached does not reach it in a month by spendings
  -- that are asked for first and recorded only where they are let through, however many they are,
  -- whatever their amounts, one after the other.
  pub charge_all-Below :
      (spendings : List (ℕ × ℕ)) (b : Books)
      → limit.hard_stop ≡ true
      → Below b
      → Below (charge_all user_id month spendings b)
  charge_all-Below [] b stops below = below
  charge_all-Below ((now, amount) ∷ rest) b stops below =
      charge_all-Below rest (charge user_id month now amount b) stops
        (charge-Below now amount b stops below)

-- A spending is refused exactly when a cap is set, the usage of the month with it is at the cap or
-- over it, and the cap has a hard stop, in whatever session. A refused one leaves the books as they
-- were, without an entry in the log, where the session is its own; in a session that is given, an
-- entry that the cap was reached stays, and nothing else. The user has a limit, and a refusal is
-- asked for.
pub enforce_spend_cap-refuses :
    (user_id : Text) (month : Month) (amount : ℕ) (given : Bool) (limit : SpendLimit) (b : Books)
    → limit_of user_id b ≡ some limit
    → let answer = enforce_spend_cap user_id amount month given true b in
      (is_ok answer.0
        ≡ not (
            reaches limit.monthly_cap (usage_of user_id month b.records + quantize amount)
            && limit.hard_stop))
      × (is_ok answer.0 ≡ false → answer.1 ≡ (if given then add_log user_id cap_reached b else b))
unfolding enforce_spend_cap run_enforcement enforce_cap get_month_totals
enforce_spend_cap-refuses user_id month amount true limit b limited =
    elim (Bool-cases
      (reaches limit.monthly_cap (usage_of user_id month b.records + quantize amount))) [
        | inl over ↦ elim (Bool-cases limit.hard_stop) [
          | inl stops ↦ rw (limited, over, stops) (refl, λ refused. refl)
          | inr goes_on ↦ rw (limited, over, goes_on) (refl, λ refused. absurd (cc))
        ]
        | inr fits ↦ rw (limited, fits) (refl, λ refused. absurd (cc))
      ]
enforce_spend_cap-refuses user_id month amount false limit b limited =
    elim (Bool-cases
      (reaches limit.monthly_cap (usage_of user_id month b.records + quantize amount))) [
        | inl over ↦ elim (Bool-cases limit.hard_stop) [
          | inl stops ↦ rw (limited, over, stops) (refl, λ refused. refl)
          | inr goes_on ↦ rw (limited, over, goes_on) (refl, λ refused. absurd (cc))
        ]
        | inr fits ↦ rw (limited, fits) (refl, λ refused. absurd (cc))
      ]

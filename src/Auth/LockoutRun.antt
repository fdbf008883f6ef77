-- ===== src/Auth/LockoutRun.antt =====
-- backend/auth/service/auth_service.py: an account through a run of failed logins.
use feature_frontend.Prelude.{
  ℕ, zero, suc, ◌≤◌, ◌≡◌, ap, ◌∙◌, none, some, arith, ltb, leb, if◌then◌else◌, Bool-cases, inl, inr,
}
use feature_frontend.Prelude.Text.{Text, codes, text_eq_refl}
use feature_frontend.Action.{ok, err, locked}
use feature_frontend.Redis.{Redis}
use feature_frontend.Auth.Lockout.{
  login_failure_key, login_lock_key, captcha_force_key, record_login_failure, clear_login_state,
  requires_captcha, ensure_not_locked,
}
use feature_frontend.Auth.LockoutLaws.{
  counter-record_login_failure, lock-record_login_failure, captcha-record_login_failure,
  record_login_failure_locks,
}

-- A run of `n` failed logins.
unfoldable pub fail_times : {Store : Type 0} → Redis Store → ℕ → Text → Store → Store
fail_times redis zero email s = s
fail_times redis (suc n) email s = record_login_failure redis email (fail_times redis n email s)

still_set :
    (b n : ℕ) (v : Text)
    → (if leb b (suc n) then some v else (if leb b n then some v else none))
      ≡ (if leb b (suc n) then some v else none)
still_set b n v = ground arith

module _ {Store : Type 0} (redis : Redis Store) where
  -- A login that succeeds leaves no count, no lock and no captcha of the account.
  pub cleared :
      (email : Text) (s : Store)
      → (redis.counter (clear_login_state redis email s) (login_failure_key email) ≡ 0)
        × (redis.get (clear_login_state redis email s) (login_lock_key email) ≡ none)
        × (redis.get (clear_login_state redis email s) (captcha_force_key email) ≡ none)
  unfolding clear_login_state
  cleared email s = (
    redis.counter-delete _ (captcha_force_key email) (login_failure_key email)
        ∙ redis.counter-delete _ (login_lock_key email) (login_failure_key email)
        ∙ redis.counter-delete s (login_failure_key email) (login_failure_key email)
        ∙ rw (text_eq_refl email),
    redis.get-delete _ (captcha_force_key email) (login_lock_key email)
        ∙ redis.get-delete _ (login_lock_key email) (login_lock_key email)
        ∙ rw (text_eq_refl email),
    redis.get-delete _ (captcha_force_key email) (captcha_force_key email)
        ∙ rw (text_eq_refl email),
  )

  module _ (email : Text) (s : Store) where
    abbrev after : ℕ → Store
    after n = fail_times redis n email (clear_login_state redis email s)

    counter-after : (n : ℕ) → redis.counter (after n) (login_failure_key email) ≡ n
    unfolding fail_times
    counter-after zero = (cleared email s).0
    counter-after (suc n) =
        counter-record_login_failure redis email (after n) ∙ ap suc (counter-after n)

    lock-after :
        (n : ℕ)
        → redis.get (after n) (login_lock_key email) ≡ (if leb 5 n then some (codes "1") else none)
    unfolding fail_times
    lock-after zero = (cleared email s).1
    lock-after (suc n) =
        lock-record_login_failure redis email (after n)
        ∙ rw (counter-after n, lock-after n) (still_set 5 n (codes "1"))

    captcha-after :
        (n : ℕ)
        → redis.get (after n) (captcha_force_key email)
          ≡ (if leb 3 n then some (codes "1") else none)
    unfolding fail_times
    captcha-after zero = (cleared email s).2
    captcha-after (suc n) =
        captcha-record_login_failure redis email (after n)
        ∙ rw (counter-after n, captcha-after n) (still_set 3 n (codes "1"))

    -- From a cleared account, with no expiry in between: after `n` failed logins the account is
    -- locked exactly when `n` is 5 or more, and a captcha is required exactly when it is 3 or more.
    pub lockout :
        (n : ℕ)
        → (ensure_not_locked redis (after n) email none ≡ (if leb 5 n then err locked else ok tt))
          × (requires_captcha redis (after n) email none ≡ leb 3 n)
    unfolding ensure_not_locked requires_captcha
    lockout n = (
      rw (lock-after n) (elim (Bool-cases (leb 5 n)) [ inl many ↦ rw many | inr few ↦ rw few ]),
      rw (captcha-after n) (elim (Bool-cases (leb 3 n)) [ inl many ↦ rw many | inr few ↦ rw few ]),
    )

  -- The lock that a failure sets lasts 300 seconds and no longer: the account is refused before,
  -- and no more from then on.
  pub lockout-lapses :
      (email : Text) (s : Store) (m : ℕ)
      → 4 ≤ redis.counter s (login_failure_key email)
      → ensure_not_locked redis (redis.wait (record_login_failure redis email s) m) email none
        ≡ (if ltb m 300 then err locked else ok tt)
  unfolding ensure_not_locked
  lockout-lapses email s m h = rw (record_login_failure_locks redis email s h) (
      rw redis.get-wait
        (elim (Bool-cases (ltb m 300)) [ inl early ↦ rw early | inr late ↦ rw late ]))

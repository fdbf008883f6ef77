-- ===== src/Auth/LockoutLaws.antt =====
-- backend/auth/service/auth_service.py: when failed logins lock an account or ask for a captcha,
-- and for how long.
use feature_frontend.Prelude.{
  ℕ, suc, ◌≤◌, ◌≡◌, refl, ◌∙◌, true, false, some, arith, leb, if◌then◌else◌, Bool-cases, inl, inr,
}
use feature_frontend.Prelude.Text.{Text, codes, text_eq, text_eq_refl}
use feature_frontend.Redis.{Redis}
use feature_frontend.Auth.RateLimit.{count_hit}
use feature_frontend.Auth.Limits.{counter-count_hit, get-count_hit, current-count_hit}
use feature_frontend.Auth.Lockout.{
  login_failure_key, login_lock_key, captcha_force_key, force_captcha, lock_login,
  record_login_failure,
}

module _ {Store : Type 0} (redis : Redis Store) where
  get-force_captcha :
      (email : Text) (f : ℕ) (s : Store) (j : Text)
      → text_eq (captcha_force_key email) j ≡ false
      → redis.get (force_captcha redis email f s) j ≡ redis.get s j
  get-force_captcha email f s j other = elim (Bool-cases (leb 3 f)) [
    | inl many ↦ rw many (redis.get-set s (captcha_force_key email) (codes "1") 899 j ∙ rw other)
    | inr few ↦ rw few
  ]

  get-lock_login :
      (email : Text) (f : ℕ) (s : Store) (j : Text)
      → text_eq (login_lock_key email) j ≡ false
      → redis.get (lock_login redis email f s) j ≡ redis.get s j
  get-lock_login email f s j other = elim (Bool-cases (leb 5 f)) [
    | inl many ↦ rw many (redis.get-set s (login_lock_key email) (codes "1") 299 j ∙ rw other)
    | inr few ↦ rw few
  ]

  counter-force_captcha :
      (email : Text) (f : ℕ) (s : Store) (j : Text)
      → text_eq (captcha_force_key email) j ≡ false
      → redis.counter (force_captcha redis email f s) j ≡ redis.counter s j
  counter-force_captcha email f s j other = elim (Bool-cases (leb 3 f)) [
    | inl many ↦ rw many (redis.counter-set s (captcha_force_key email) (codes "1") 900 j other)
    | inr few ↦ rw few
  ]

  counter-lock_login :
      (email : Text) (f : ℕ) (s : Store) (j : Text)
      → text_eq (login_lock_key email) j ≡ false
      → redis.counter (lock_login redis email f s) j ≡ redis.counter s j
  counter-lock_login email f s j other = elim (Bool-cases (leb 5 f)) [
    | inl many ↦ rw many (redis.counter-set s (login_lock_key email) (codes "1") 300 j other)
    | inr few ↦ rw few
  ]

  -- The store once the failure has been counted, and the count.
  abbrev pub hit : Text → Store → Store
  hit email s = (count_hit redis (login_failure_key email) 900 s).1

  abbrev pub seen : Text → Store → ℕ
  seen email s = (count_hit redis (login_failure_key email) 900 s).0

  get-hit :
      (email : Text) (s : Store) (j : Text)
      → text_eq (login_failure_key email) j ≡ false
      → redis.get (hit email s) j ≡ redis.get s j
  get-hit email s j other = get-count_hit redis (login_failure_key email) 899 s j other

  -- The counter of an account goes up by one with each failure.
  pub counter-record_login_failure :
      (email : Text) (s : Store)
      → redis.counter (record_login_failure redis email s) (login_failure_key email)
        ≡ suc (redis.counter s (login_failure_key email))
  unfolding record_login_failure
  counter-record_login_failure email s =
      counter-lock_login email (seen email s) _ (login_failure_key email) refl
      ∙ counter-force_captcha email (seen email s) (hit email s) (login_failure_key email) refl
      ∙ counter-count_hit redis (login_failure_key email) 899 s (login_failure_key email)
      ∙ rw (text_eq_refl email)

  -- The lock is set by the failure that reaches the threshold, and by each after it.
  pub lock-record_login_failure :
      (email : Text) (s : Store)
      → redis.get (record_login_failure redis email s) (login_lock_key email) ≡ (
          if leb 5 (suc (redis.counter s (login_failure_key email)))
          then some (codes "1")
          else redis.get s (login_lock_key email))
  unfolding record_login_failure
  lock-record_login_failure email s =
      rw (current-count_hit redis (login_failure_key email) 900 s)
        (elim (Bool-cases (leb 5 (suc (redis.counter s (login_failure_key email))))) [
          | inl many ↦ rw many (
              redis.get-set _ (login_lock_key email) (codes "1") 299 (login_lock_key email)
              ∙ rw (text_eq_refl email))
          | inr few ↦ rw few (
              get-force_captcha email _ (hit email s) (login_lock_key email) refl
              ∙ get-hit email s (login_lock_key email) refl)
        ])

  pub captcha-record_login_failure :
      (email : Text) (s : Store)
      → redis.get (record_login_failure redis email s) (captcha_force_key email) ≡ (
          if leb 3 (suc (redis.counter s (login_failure_key email)))
          then some (codes "1")
          else redis.get s (captcha_force_key email))
  unfolding record_login_failure
  captcha-record_login_failure email s =
      get-lock_login email (seen email s) _ (captcha_force_key email) refl
      ∙ rw (current-count_hit redis (login_failure_key email) 900 s)
          (elim (Bool-cases (leb 3 (suc (redis.counter s (login_failure_key email))))) [
            | inl many ↦ rw many (
                redis.get-set _ (captcha_force_key email) (codes "1") 899 (captcha_force_key email)
                ∙ rw (text_eq_refl email))
            | inr few ↦ rw few (get-hit email s (captcha_force_key email) refl)
          ])

  -- A failure at the threshold ends with the lock being set.
  pub record_login_failure_locks :
      (email : Text) (s : Store)
      → 4 ≤ redis.counter s (login_failure_key email)
      → record_login_failure redis email s
        ≡ redis.set_ex
            (force_captcha redis email (seen email s) (hit email s))
            (login_lock_key email)
            (codes "1")
            300
  unfolding record_login_failure
  record_login_failure_locks email s h =
      let many : leb 5 (seen email s) ≡ true =
        rw (current-count_hit redis (login_failure_key email) 900 s) (ground arith) in
      rw many

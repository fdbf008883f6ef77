-- ===== src/Auth/Lockout.antt =====
-- backend/auth/service/auth_service.py: the keys, and the state that failed logins leave in Redis.
use feature_frontend.Prelude.{
  ℕ, Bool, true, false, Option, none, some, [], ◌∷◌, ◌++◌, ◌||◌, if◌then◌else◌, leb,
}
use feature_frontend.Prelude.Text.{Text, codes}
use feature_frontend.Action.{Result, ok, err, locked}
use feature_frontend.Redis.{Redis}
use feature_frontend.Auth.RateLimit.{count_hit}

abbrev pub login_ip_limit : ℕ
login_ip_limit = 10

abbrev pub login_account_limit : ℕ
login_account_limit = 5

abbrev pub rate_window_seconds : ℕ
rate_window_seconds = 900

abbrev pub login_failure_threshold : ℕ
login_failure_threshold = 3

abbrev pub login_lock_threshold : ℕ
login_lock_threshold = 5

abbrev pub login_lock_seconds : ℕ
login_lock_seconds = 300

abbrev pub mfa_attempt_limit : ℕ
mfa_attempt_limit = 5

abbrev pub mfa_lock_seconds : ℕ
mfa_lock_seconds = 300

abbrev pub challenge_ttl_seconds : ℕ
challenge_ttl_seconds = 300

abbrev pub recovery_login_limit : ℕ
recovery_login_limit = 5

abbrev pub login_failure_key : Text → Text
login_failure_key email = codes "auth:login:failures:" ++ email

abbrev pub login_lock_key : Text → Text
login_lock_key email = codes "auth:login:lock:" ++ email

abbrev pub captcha_force_key : Text → Text
captcha_force_key identifier = codes "auth:login:captcha:" ++ identifier

abbrev pub challenge_key : Text → Text
challenge_key challenge_id = codes "auth:challenge:" ++ challenge_id

abbrev pub mfa_attempts_key : Text → Text
mfa_attempts_key user_id = codes "auth:mfa:attempts:" ++ user_id

abbrev pub mfa_lock_key : Text → Text
mfa_lock_key user_id = codes "auth:mfa:lock:" ++ user_id

abbrev pub mfa_captcha_key : Text → Text
mfa_captcha_key user_id = codes "auth:mfa:captcha:" ++ user_id

-- A value of Redis, or a field of a request, as a condition.
abbrev pub is_truthy : Option Text → Bool
is_truthy none = false
is_truthy (some []) = false
is_truthy (some (c ∷ s)) = true

module _ {Store : Type 0} (redis : Redis Store) where
  abbrev pub force_captcha : Text → ℕ → Store → Store
  force_captcha email failures s =
      if leb login_failure_threshold failures
      then redis.set_ex s (captcha_force_key email) (codes "1") rate_window_seconds
      else s

  abbrev pub lock_login : Text → ℕ → Store → Store
  lock_login email failures s =
      if leb login_lock_threshold failures
      then redis.set_ex s (login_lock_key email) (codes "1") login_lock_seconds
      else s

  unfoldable pub record_login_failure : Text → Store → Store
  record_login_failure email s =
      let (failures, s') = count_hit redis (login_failure_key email) rate_window_seconds s in
      lock_login email failures (force_captcha email failures s')

  unfoldable pub clear_login_state : Text → Store → Store
  clear_login_state email s =
      redis.delete (redis.delete (redis.delete s (login_failure_key email)) (login_lock_key email))
        (captcha_force_key email)

  abbrev holds : (Text → Text) → Option Text → Store → Bool
  holds key none s = false
  holds key (some user_id) s = is_truthy (redis.get s (key user_id))

  unfoldable pub requires_captcha : Store → Text → Option Text → Bool
  requires_captcha s email user_id =
      is_truthy (redis.get s (captcha_force_key email)) || holds mfa_captcha_key user_id s

  -- The locks that `_ensure_not_locked` looks at.
  unfoldable pub is_locked : Store → Text → Option Text → Bool
  is_locked s email user_id =
      is_truthy (redis.get s (login_lock_key email)) || holds mfa_lock_key user_id s

  unfoldable pub ensure_not_locked : Store → Text → Option Text → Result (Unit {0})
  unfolding is_locked
  ensure_not_locked s email user_id = if is_locked s email user_id then err locked else ok tt

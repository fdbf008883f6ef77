-- ===== src/Auth/TwoFactor.antt =====
-- backend/auth/service/auth_service.py: `verify_two_factor`, `init_two_factor`,
-- `complete_two_factor` and `disable_two_factor`.
use feature_frontend.Prelude.{
  ℕ, Bool, true, false, Option, none, some, List, [], ◌∷◌, leb, if◌then◌else◌,
}
use feature_frontend.Prelude.Text.{Text, codes, text_eq}
use feature_frontend.Action.{
  HttpError, Result, ok, err, Action, ◌>>=◌, ◌>>◌, pure, raise, gets, modify, lift, guard,
  invalid_challenge, invalid_code, value_error, bad_credentials,
}
use feature_frontend.Redis.{Redis}
use feature_frontend.Auth.Database.{User, totp_failure, Database, commit, get_user, set_user}
use feature_frontend.Auth.Outside.{Outside, Settings, Call, Challenge, login, mfa_enable}
use feature_frontend.Auth.RateLimit.{count_hit}
use feature_frontend.Auth.Lockout.{
  mfa_attempt_limit, mfa_lock_seconds, rate_window_seconds, challenge_ttl_seconds, challenge_key,
  mfa_attempts_key, mfa_lock_key, mfa_captcha_key, clear_login_state,
}
use feature_frontend.Auth.Refresh.{Tokens, write_audit}
use feature_frontend.Auth.World.{World, on_db, update_store, limit_rate, check_lock, check_captcha}
use feature_frontend.Auth.Login.{sign_in}

pub record TwoFaVerifyRequest : Type 0 where
  pub challenge_id : Text
  pub otp : Text
  pub captcha_token : Option Text

-- `a or b` on optional texts: an empty one counts as none.
abbrev pub or_text : Option Text → Option Text → Option Text
or_text none b = b
or_text (some []) b = b
or_text (some (c ∷ a)) b = some (c ∷ a)

-- `user.mfa_secret`, where it is not empty.
abbrev pub present : Option Text → HttpError → Result Text
present none e = err e
present (some []) e = err e
present (some (c ∷ t)) e = ok (c ∷ t)

abbrev pub change_user : Text → (User → User) → Database → Database
change_user user_id f d = record d { now = record d.now { users = set_user user_id f d.now.users } }

module _ {Store : Type 0} (redis : Redis Store) (outside : Outside) (settings : Settings)
    (call : Call) where
  -- The value under a challenge: absent is an invalid challenge, and one that is no JSON raises.
  abbrev parse_challenge : Result Text → Result Challenge
  parse_challenge (err e) = err e
  parse_challenge (ok raw) = elim (outside.loads raw) [ none ↦ err value_error | some c ↦ ok c ]

  unfoldable pub read_challenge : Text → Action (World Store) Challenge
  read_challenge challenge_id w = (
    parse_challenge (present (redis.get w.store (challenge_key challenge_id)) invalid_challenge),
    w,
  )

  abbrev pub lock_mfa : Text → ℕ → Store → Store
  lock_mfa user_id attempts s =
      if leb mfa_attempt_limit attempts
      then redis.set_ex (redis.set_ex s (mfa_captcha_key user_id) (codes "1") mfa_lock_seconds)
          (mfa_lock_key user_id) (codes "1") mfa_lock_seconds
      else s

  unfoldable pub record_mfa_failure : Text → Store → Store
  record_mfa_failure user_id s =
      let (attempts, s') = count_hit redis (mfa_attempts_key user_id) mfa_lock_seconds s in
      lock_mfa user_id attempts s'

  unfoldable pub fail_two_factor : User → Action (World Store) Tokens
  fail_two_factor user = do
    update_store redis (record_mfa_failure user.id)
    on_db (write_audit call (some user.id) totp_failure call.ip_address call.user_agent)
    on_db (modify commit)
    raise invalid_code

  unfoldable pub clear_mfa_state : Text → Text → Store → Store
  clear_mfa_state challenge_id user_id s =
      redis.delete
        (redis.delete
          (redis.delete (redis.delete s (challenge_key challenge_id)) (mfa_attempts_key user_id))
          (mfa_captcha_key user_id))
        (mfa_lock_key user_id)

  unfoldable pub pass_two_factor :
      TwoFaVerifyRequest → User → (ip ua : Option Text) → Action (World Store) Tokens
  pass_two_factor request user ip ua = do
    update_store redis (clear_mfa_state request.challenge_id user.id)
    update_store redis (clear_login_state redis user.email)
    on_db (
        sign_in outside settings call user.id (or_text call.user_agent ua)
          (or_text call.ip_address ip))

  abbrev pub check_totp :
      TwoFaVerifyRequest → User → (ip ua : Option Text) → Text → Action (World Store) Tokens
  check_totp request user ip ua raw =
      if outside.verify_totp (outside.load_mfa_secret raw) request.otp
      then pass_two_factor request user ip ua
      else fail_two_factor user

  abbrev pub verify_user :
      TwoFaVerifyRequest → (ip ua : Option Text) → Option User → Action (World Store) Tokens
  verify_user request ip ua none = raise invalid_challenge
  verify_user request ip ua (some user) = do
    check_lock redis user.email (some user.id)
    limit_rate redis settings (codes "2fa") user.id 10 rate_window_seconds
    check_captcha redis outside call request.captcha_token user.email (some user.id)
    raw ← lift (present user.mfa_secret invalid_challenge)
    check_totp request user ip ua raw

  abbrev pub verify_challenge : TwoFaVerifyRequest → Challenge → Action (World Store) Tokens
  verify_challenge request (mfa_enable user_id secret) = raise invalid_challenge
  verify_challenge request (login user_id ip ua) =
      gets (λ w. get_user user_id w.db.now.users) >>= verify_user request ip ua

  unfoldable pub verify_two_factor : TwoFaVerifyRequest → Action (World Store) Tokens
  verify_two_factor request = read_challenge request.challenge_id >>= verify_challenge request

  -- The secret that `generate_totp_secret` drew; the answer also shows it as a QR code.
  unfoldable pub init_two_factor : (user_id secret : Text) → Action (World Store) Text
  init_two_factor user_id secret = do
    update_store redis (λ s.
        redis.set_ex s (challenge_key call.challenge_id) (outside.dumps (mfa_enable user_id secret))
          challenge_ttl_seconds)
    pure call.challenge_id

  abbrev pub enable_secret : User → Challenge → Result Text
  enable_secret user (login user_id ip ua) = err invalid_challenge
  enable_secret user (mfa_enable user_id secret) =
      if text_eq user_id user.id then ok secret else err invalid_challenge

  -- The recovery codes are those that `generate_recovery_codes` drew, and their hashes.
  unfoldable pub complete_two_factor :
      (challenge_id otp : Text)
      → (recovery_codes hashed_codes : List Text) → User
      → Action (World Store) (List Text)
  complete_two_factor challenge_id otp recovery_codes hashed_codes user = do
    challenge ← read_challenge challenge_id
    secret ← lift (enable_secret user challenge)
    guard (outside.verify_totp secret otp) invalid_code
    on_db (
        modify (
          change_user user.id (λ u. record u {
            mfa_enabled = true;
            mfa_secret = some (outside.encrypt secret);
            recovery_codes = some (outside.encrypt_json hashed_codes);
          })))
    update_store redis (λ s. redis.delete s (challenge_key challenge_id))
    on_db (modify commit)
    pure recovery_codes

-- Whether the second factor was on.
module _ (outside : Outside) where
  abbrev pub turn_off : (otp : Text) → User → Option Text → Action Database Bool
  turn_off otp user none = pure false
  turn_off otp user (some []) = pure false
  turn_off otp user (some (c ∷ raw)) = do
    guard (outside.verify_totp (outside.load_mfa_secret (c ∷ raw)) otp) invalid_code
    modify (
        change_user user.id
          (λ u. record u { mfa_enabled = false; mfa_secret = none; recovery_codes = none }))
    modify commit
    pure true

  unfoldable pub disable_two_factor : (password otp : Text) → User → Action Database Bool
  disable_two_factor password otp user = do
    guard (outside.verify_password user.password_hash password) bad_credentials
    turn_off otp user user.mfa_secret

-- ===== src/Auth/Recovery.antt =====
-- backend/auth/service/auth_service.py: `recovery_login`.
use feature_frontend.Prelude.{
  Bool, false, not, Option, none, some, List, [], ◌∷◌, if◌then◌else◌, any, keep_if,
}
use feature_frontend.Prelude.Text.{Text, codes, text_eq}
use feature_frontend.Action.{
  Result, ok, err, Action, ◌>>=◌, ◌>>◌, pure, raise, gets, modify, lift, guard, invalid_challenge,
  invalid_code, invalid_request, bad_credentials,
}
use feature_frontend.Redis.{Redis}
use feature_frontend.Auth.Database.{User, recovery_login_used, Database, commit, find_user}
use feature_frontend.Auth.Outside.{Outside, Settings, Call, Challenge, login, mfa_enable}
use feature_frontend.Auth.Lockout.{
  recovery_login_limit, rate_window_seconds, challenge_key, record_login_failure, clear_login_state,
}
use feature_frontend.Auth.Sessions.{hash_token, create_session}
use feature_frontend.Auth.Refresh.{Tokens, write_audit}
use feature_frontend.Auth.World.{World, on_db, update_store, limit_rate, check_lock}
use feature_frontend.Auth.Login.{issue}
use feature_frontend.Auth.TwoFactor.{read_challenge, change_user}

-- A password that is given and not empty is checked before a challenge is looked at.
pub record RecoveryLoginRequest : Type 0 where
  pub email : Text
  pub password : Option Text
  pub challenge_id : Option Text
  pub recovery_code : Text

-- backend/auth/service/mfa_service.py
unfoldable pub rotate_recovery_codes : List Text → Text → List Text
rotate_recovery_codes existing used_hash = keep_if (λ code. not (text_eq code used_hash)) existing

abbrev pub enrolled : Option User → Result User
enrolled none = err bad_credentials
enrolled (some user) = if user.mfa_enabled then ok user else err bad_credentials

abbrev pub same_user : User → Challenge → Bool
same_user user (login user_id ip ua) = text_eq user_id user.id
same_user user (mfa_enable user_id secret) = false

module _ (outside : Outside) where
  abbrev pub keep_codes : List Text → Text → Text → Database → Database
  keep_codes hashed_codes code_hash user_id = change_user user_id (λ u. record u {
    recovery_codes = some (outside.encrypt_json (rotate_recovery_codes hashed_codes code_hash));
  })

  unfoldable pub spend_code : User → Text → Action Database (Unit {0})
  spend_code user recovery_code = do
    let hashed_codes = outside.load_recovery_codes user.recovery_codes
    code_hash ← lift (hash_token outside recovery_code)
    guard (any (λ code. text_eq code code_hash) hashed_codes) invalid_code
    modify (keep_codes hashed_codes code_hash user.id)

module _ {Store : Type 0} (redis : Redis Store) (outside : Outside) (settings : Settings)
    (call : Call) where
  abbrev pub check_secret : Text → User → Text → Action (World Store) (Unit {0})
  check_secret email user password =
      if outside.verify_password user.password_hash password
      then pure tt
      else (update_store redis (record_login_failure redis email) >> raise bad_credentials)

  abbrev pub check_challenge : User → Option Text → Action (World Store) (Unit {0})
  check_challenge user none = raise invalid_request
  check_challenge user (some []) = raise invalid_request
  check_challenge user (some (c ∷ challenge_id)) =
      read_challenge redis outside settings call (c ∷ challenge_id)
      >>= (λ challenge. guard (same_user user challenge) invalid_challenge)

  abbrev pub check_first_factor :
      Text → User → (password challenge_id : Option Text) → Action (World Store) (Unit {0})
  check_first_factor email user none challenge_id = check_challenge user challenge_id
  check_first_factor email user (some []) challenge_id = check_challenge user challenge_id
  check_first_factor email user (some (c ∷ password)) challenge_id =
      check_secret email user (c ∷ password)

  abbrev pub forget_challenge : Option Text → Store → Store
  forget_challenge none s = s
  forget_challenge (some []) s = s
  forget_challenge (some (c ∷ challenge_id)) s = redis.delete s (challenge_key (c ∷ challenge_id))

  unfoldable pub recover : RecoveryLoginRequest → Text → User → Action (World Store) Tokens
  recover request email user = do
    check_lock redis email (some user.id)
    check_first_factor email user request.password request.challenge_id
    on_db (spend_code outside user request.recovery_code)
    on_db (
        create_session outside settings call user.id call.refresh_token call.user_agent
          call.ip_address)
    update_store redis (forget_challenge request.challenge_id)
    update_store redis (clear_login_state redis email)
    on_db (write_audit call (some user.id) recovery_login_used call.ip_address call.user_agent)
    on_db (modify commit)
    pure (issue call)

  unfoldable pub recovery_login : RecoveryLoginRequest → Action (World Store) Tokens
  recovery_login request = do
    let email = outside.lower request.email
    limit_rate redis settings (codes "recovery_login") email recovery_login_limit
        rate_window_seconds
    found ← gets (λ w. find_user email w.db.now.users)
    user ← lift (enrolled found)
    recover request email user

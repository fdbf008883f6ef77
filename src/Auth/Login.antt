-- ===== src/Auth/Login.antt =====
-- backend/auth/service/auth_service.py: `login_user`.
use feature_frontend.Prelude.{Option, none, some, if◌then◌else◌}
use feature_frontend.Prelude.Text.{Text, codes}
use feature_frontend.Action.{
  Action, ◌>>=◌, ◌>>◌, pure, raise, gets, modify, bad_credentials, unconfirmed, forbidden,
}
use feature_frontend.Redis.{Redis}
use feature_frontend.Auth.Database.{
  User, UserStatus, active, unverified, disabled, login_failure, login_success, Database, commit,
  find_user, set_user,
}
use feature_frontend.Auth.Outside.{Outside, Settings, Call, login}
use feature_frontend.Auth.Lockout.{
  login_ip_limit, login_account_limit, rate_window_seconds, challenge_ttl_seconds, challenge_key,
  record_login_failure, clear_login_state,
}
use feature_frontend.Auth.Sessions.{create_session, or_empty}
use feature_frontend.Auth.Refresh.{Tokens, write_audit}
use feature_frontend.Auth.World.{World, on_db, update_store, limit_rate, check_lock, check_captcha}

pub record LoginRequest : Type 0 where
  pub email : Text
  pub password : Text
  pub captcha_token : Option Text

-- What a login answers: tokens, or the challenge of the second factor.
pub data LoginResponse : Type 0 where
  signed_in : Tokens → LoginResponse
  requires_2fa : (challenge_id : Text) → LoginResponse

abbrev pub check_status : {Store : Type 0} → UserStatus → Action (World Store) (Unit {0})
check_status unverified = raise unconfirmed
check_status active = pure tt
check_status disabled = raise forbidden

abbrev pub issue : Call → Tokens
issue call = record { access_token = call.access_token; refresh_token = call.refresh_token }

-- `user.last_login_at = _utcnow()` and `user.last_ip = ...`
abbrev pub set_last_login : Call → Text → Option Text → Database → Database
set_last_login call user_id ip d = record d {
  now = record d.now {
    users =
        set_user user_id (λ u. record u { last_login_at = some call.now; last_ip = ip })
          d.now.users;
  };
}

-- A session is made and its tokens are given out: the end of each way to sign in.
unfoldable pub sign_in :
    Outside → Settings → Call → Text → (user_agent ip : Option Text) → Action Database Tokens
sign_in outside settings call user_id user_agent ip = do
  create_session outside settings call user_id call.refresh_token user_agent ip
  modify (set_last_login call user_id ip)
  write_audit call (some user_id) login_success ip user_agent
  modify commit
  pure (issue call)

module _ {Store : Type 0} (redis : Redis Store) (outside : Outside) (settings : Settings)
    (call : Call) where
  unfoldable pub fail_login : Text → Option Text → Action (World Store) LoginResponse
  fail_login email user_id = do
    update_store redis (record_login_failure redis email)
    on_db (write_audit call user_id login_failure call.ip_address call.user_agent)
    on_db (modify commit)
    raise bad_credentials

  unfoldable pub start_challenge : User → Action (World Store) LoginResponse
  start_challenge user = do
    update_store redis (λ s.
        redis.set_ex s (challenge_key call.challenge_id)
          (outside.dumps (login user.id call.ip_address call.user_agent)) challenge_ttl_seconds)
    pure (requires_2fa call.challenge_id)

  abbrev pub give_tokens : User → Action (World Store) LoginResponse
  give_tokens user = do
    tokens ← on_db (sign_in outside settings call user.id call.user_agent call.ip_address)
    pure (signed_in tokens)

  abbrev pub finish_login : User → Action (World Store) LoginResponse
  finish_login user = if user.mfa_enabled then start_challenge user else give_tokens user

  abbrev pub login_confirmed : LoginRequest → Text → User → Action (World Store) LoginResponse
  login_confirmed request email user = do
    update_store redis (clear_login_state redis email)
    check_captcha redis outside call request.captcha_token email (some user.id)
    finish_login user

  -- The part of the handler from the second check of the lock on: the password was right.
  unfoldable pub login_known : LoginRequest → Text → User → Action (World Store) LoginResponse
  login_known request email user = do
    check_lock redis email (some user.id)
    check_status user.status
    login_confirmed request email user

  abbrev pub check_password : LoginRequest → Text → Option User → Action (World Store) LoginResponse
  check_password request email none = fail_login email none
  check_password request email (some user) =
      if outside.verify_password user.password_hash request.password
      then login_known request email user
      else fail_login email (some user.id)

  -- The checks before the user is looked up.
  abbrev pub admit : LoginRequest → Text → Action (World Store) (Unit {0})
  admit request email = do
    limit_rate redis settings (codes "login:ip") (or_empty call.ip_address) login_ip_limit
        rate_window_seconds
    limit_rate redis settings (codes "login:account") email login_account_limit rate_window_seconds
    check_lock redis email none
    check_captcha redis outside call request.captcha_token email none

  abbrev pub look_up : Text → Action (World Store) (Option User)
  look_up email = gets (λ w. find_user email w.db.now.users)

  unfoldable pub login_user : LoginRequest → Action (World Store) LoginResponse
  login_user request =
      let email = outside.lower request.email in
      (admit request email >> look_up email) >>= check_password request email

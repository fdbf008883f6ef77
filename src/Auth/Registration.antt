-- ===== src/Auth/Registration.antt =====
-- backend/auth/service/registration_service.py
use feature_frontend.Prelude.{
  ℕ, Bool, true, false, ◌&&◌, Option, none, some, List, [], ◌∷◌, ◌++◌, ltb, if◌then◌else◌,
}
use feature_frontend.Prelude.Text.{Text, codes}
use feature_frontend.Action.{
  Action, ◌>>=◌, ◌>>◌, pure, raise, gets, modify, lift, already_registered, invalid_link,
}
use feature_frontend.Redis.{Redis}
use feature_frontend.Auth.Database.{
  User, UserStatus, active, unverified, disabled, LinkRow, Database, find_user, get_user,
}
use feature_frontend.Auth.Outside.{Outside, Settings, Call}
use feature_frontend.Auth.Links.{
  verification_window_hours, build_token, new_link, existing_active_token, purge_tokens,
  validate_token, is_unused,
}
use feature_frontend.Auth.Sessions.{or_empty}
use feature_frontend.Auth.TwoFactor.{change_user}
use feature_frontend.Auth.World.{World, on_db, limit_rate, verify_turnstile}

pub record RegistrationRequest : Type 0 where
  pub email : Text
  pub password : Text
  pub captcha_token : Text

-- A mail that is put in the queue: to whom, and the token in its link.
pub record Mail : Type 0 where
  pub to : Text
  pub token : Text

abbrev pub change_verifications : (List LinkRow → List LinkRow) → Database → Database
change_verifications f d = record d { now = record d.now { verifications = f d.now.verifications } }

abbrev pub add_user : User → Database → Database
add_user user d = record d { now = record d.now { users = d.now.users ++ user ∷ [] } }

abbrev pub is_set : Option ℕ → Bool
is_set none = false
is_set (some t) = true

abbrev pub is_status_active : UserStatus → Bool
is_status_active active = true
is_status_active unverified = false
is_status_active disabled = false

abbrev pub is_unverified : UserStatus → Bool
is_unverified unverified = true
is_unverified active = false
is_unverified disabled = false

module _ (outside : Outside) (settings : Settings) (call : Call) where
  unfoldable pub create_email_verification : User → Action Database Mail
  create_email_verification user = do
    let verification = new_link outside settings call user.id verification_window_hours
    modify (change_verifications (λ rows. rows ++ verification ∷ []))
    pure (record { to = user.email; token = build_token outside settings verification })

  abbrev mail_active : User → Option LinkRow → Action Database Mail → Action Database Mail
  mail_active user none renew = renew
  mail_active user (some row) renew =
      pure (record { to = user.email; token = build_token outside settings row })

  abbrev pub resend_active : User → Action Database Mail → Action Database Mail
  resend_active user renew d =
      mail_active user (existing_active_token call user.id d.now.verifications) renew d

  -- A user whose link has lapsed gets a new link, and the password of the new form.
  abbrev pub renew_registration : User → Text → Action Database Mail
  renew_registration user hashed_password = do
    modify (change_verifications (purge_tokens user.id))
    modify (change_user user.id (λ u. record u { password_hash = hashed_password }))
    create_email_verification user

  abbrev pub new_user : Text → Text → User
  new_user email hashed_password = record {
    id = call.new_user_id;
    email = email;
    email_verified_at = none;
    status = unverified;
    password_hash = hashed_password;
    mfa_enabled = false;
    mfa_secret = none;
    recovery_codes = none;
    last_login_at = none;
    last_ip = none;
  }

  unfoldable pub register_as : Text → Text → Option User → Action Database Mail
  register_as email hashed_password none = do
    modify (add_user (new_user email hashed_password))
    create_email_verification (new_user email hashed_password)
  register_as email hashed_password (some user) =
      if is_status_active user.status && is_set user.email_verified_at
      then raise already_registered
      else resend_active user (renew_registration user hashed_password)

  unfoldable pub register_user :
      {Store : Type 0} → Redis Store → RegistrationRequest → Action (World Store) Mail
  register_user redis request = do
    lift (verify_turnstile outside request.captcha_token call.ip_address)
    limit_rate redis settings (codes "register") (or_empty call.ip_address) 5 3600
    let email = outside.lower request.email
    found ← gets (λ w. find_user email w.db.now.users)
    on_db (register_as email (outside.hash_password request.password) found)

  abbrev renew_verification : User → Action Database Mail
  renew_verification user = do
    modify (change_verifications (purge_tokens user.id))
    create_email_verification user

  abbrev pub resend_to : {Store : Type 0} → Redis Store → User → Action (World Store) (Option Mail)
  resend_to redis user = do
    limit_rate redis settings (codes "resend_verification") user.id 3 86400
    mail ← on_db (resend_active user (renew_verification user))
    pure (some mail)

  abbrev pub resend_found :
      {Store : Type 0} → Redis Store → Option User → Action (World Store) (Option Mail)
  resend_found redis none = pure none
  resend_found redis (some user) =
      if is_unverified user.status then resend_to redis user else pure none

  -- No mail is sent where there is no unverified user; the answer reads the same.
  unfoldable pub resend_verification :
      {Store : Type 0} → Redis Store → Text → Action (World Store) (Option Mail)
  resend_verification redis email =
      gets (λ w. find_user (outside.lower email) w.db.now.users) >>= resend_found redis

  abbrev purge_verifications : Option User → Database → Database
  purge_verifications none d = d
  purge_verifications (some user) d = change_verifications (purge_tokens user.id) d

  abbrev confirm : Option User → Action Database (Unit {0})
  confirm none = raise invalid_link
  confirm (some user) = do
    modify
        (change_user user.id (λ u. record u { status = active; email_verified_at = some call.now }))
    modify (change_verifications (purge_tokens user.id))

  -- An expired link is purged with the others of its user, before the refusal.
  abbrev pub use_verification : LinkRow → Action Database (Unit {0})
  use_verification row =
      if is_unused row
      then (gets (λ d. get_user row.user_id d.now.users) >>= (λ user.
          if ltb call.now row.expires_at
          then confirm user
          else (modify (purge_verifications user) >> raise invalid_link)))
      else raise invalid_link

  unfoldable pub complete_email_verification : Text → Action Database (Unit {0})
  complete_email_verification token =
      (λ d. (validate_token outside settings token d.now.verifications, d)) >>= use_verification

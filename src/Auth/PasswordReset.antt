-- ===== src/Auth/PasswordReset.antt =====
-- backend/auth/service/password_reset_service.py
use feature_frontend.Prelude.{Option, none, some, List, [], ◌∷◌, ◌++◌, ltb, if◌then◌else◌}
use feature_frontend.Prelude.Text.{Text, codes}
use feature_frontend.Action.{Action, ◌>>=◌, ◌>>◌, pure, raise, gets, modify, invalid_link}
use feature_frontend.Redis.{Redis}
use feature_frontend.Auth.Database.{User, LinkRow, Database, find_user, get_user}
use feature_frontend.Auth.Outside.{Outside, Settings, Call}
use feature_frontend.Auth.Links.{
  password_reset_window_hours, build_token, new_link, existing_active_token, purge_tokens,
  validate_token, is_unused,
}
use feature_frontend.Auth.Sessions.{or_empty}
use feature_frontend.Auth.TwoFactor.{change_user}
use feature_frontend.Auth.World.{World, on_db, limit_rate}
use feature_frontend.Auth.Registration.{Mail, is_status_active}

abbrev pub change_resets : (List LinkRow → List LinkRow) → Database → Database
change_resets f d = record d { now = record d.now { resets = f d.now.resets } }

module _ (outside : Outside) (settings : Settings) (call : Call) where
  unfoldable pub create_password_reset : User → Action Database Mail
  create_password_reset user = do
    let reset = new_link outside settings call user.id password_reset_window_hours
    modify (change_resets (λ rows. rows ++ reset ∷ []))
    pure (record { to = user.email; token = build_token outside settings reset })

  abbrev pub mail_reset : User → Option LinkRow → Action Database Mail
  mail_reset user none = do
    modify (change_resets (purge_tokens user.id))
    create_password_reset user
  mail_reset user (some row) =
      pure (record { to = user.email; token = build_token outside settings row })

  abbrev pub mail_user : User → Action Database (Option Mail)
  mail_user user = do
    active_token ← gets (λ d. existing_active_token call user.id d.now.resets)
    mail ← mail_reset user active_token
    pure (some mail)

  abbrev pub request_found : Option User → Action Database (Option Mail)
  request_found none = pure none
  request_found (some user) = if is_status_active user.status then mail_user user else pure none

  -- No mail is sent where there is no active user; the answer reads the same.
  unfoldable pub request_password_reset :
      {Store : Type 0} → Redis Store → Text → Action (World Store) (Option Mail)
  request_password_reset redis email = do
    limit_rate redis settings (codes "password_reset") (or_empty call.ip_address) 3 3600
    found ← gets (λ w. find_user (outside.lower email) w.db.now.users)
    on_db (request_found found)

  abbrev purge_resets : Option User → Database → Database
  purge_resets none d = d
  purge_resets (some user) d = change_resets (purge_tokens user.id) d

  abbrev set_password : Text → Option User → Action Database (Unit {0})
  set_password new_password none = raise invalid_link
  set_password new_password (some user) = do
    modify
        (change_user user.id (λ u. record u { password_hash = outside.hash_password new_password }))
    modify (change_resets (purge_tokens user.id))

  -- An expired link is purged with the others of its user, before the refusal.
  abbrev pub use_reset : Text → LinkRow → Action Database (Unit {0})
  use_reset new_password row =
      if is_unused row
      then (gets (λ d. get_user row.user_id d.now.users) >>= (λ user.
          if ltb call.now row.expires_at
          then set_password new_password user
          else (modify (purge_resets user) >> raise invalid_link)))
      else raise invalid_link

  unfoldable pub complete_password_reset : (token new_password : Text) → Action Database (Unit {0})
  complete_password_reset token new_password =
      (λ d. (validate_token outside settings token d.now.resets, d)) >>= use_reset new_password

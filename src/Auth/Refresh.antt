-- ===== src/Auth/Refresh.antt =====
-- backend/auth/service/auth_service.py: `refresh_tokens`, `logout_session` and
-- `sign_out_other_sessions`.
use feature_frontend.Prelude.{
  ℕ, zero, suc, Bool, ◌&&◌, Option, none, some, List, [], ◌∷◌, ◌++◌, ltb, if◌then◌else◌,
}
use feature_frontend.Prelude.Text.{Text}
use feature_frontend.Action.{Action, ◌>>=◌, ◌>>◌, pure, raise, gets, modify, no_permission}
use feature_frontend.Auth.Database.{
  SessionRow, User, AuditAction, AuditLog, Database, commit, get_user, refresh_rotated, logout,
}
use feature_frontend.Auth.Outside.{Settings, Outside, Call, Payload}
use feature_frontend.Auth.Sessions.{
  find_session_by_refresh, is_live, revoke_session, rotate_session_refresh, revoke_other_sessions,
  validate_session_bindings,
}

abbrev pub add_audit : AuditLog → Database → Database
add_audit entry d = record d { now = record d.now { audit = d.now.audit ++ entry ∷ [] } }

unfoldable pub write_audit :
    Call → Option Text → AuditAction → (ip user_agent : Option Text) → Action Database (Unit {0})
write_audit call user_id action ip user_agent = modify (
    add_audit (record {
      actor_user_id = user_id;
      action = action;
      ip = ip;
      user_agent = user_agent;
      occurred_at = call.now;
    }))

-- The refusal of a session that exists: it is revoked for good first.
unfoldable pub refuse_session : Call → SessionRow → {A : Type 0} → Action Database A
refuse_session call session_record = do
  revoke_session call session_record
  modify commit
  raise no_permission

-- The pair of tokens that a client is given.
pub record Tokens : Type 0 where
  pub access_token : Text
  pub refresh_token : Text

-- The user of a token that decodes as a refresh token.
abbrev pub subject : Option Payload → List User → Option User
subject none users = none
subject (some payload) users =
    if payload.is_refresh
    then (elim payload.sub [ none ↦ none | some id ↦ get_user id users ])
    else none

module _ (outside : Outside) (settings : Settings) (call : Call) where
  unfoldable pub rotate : SessionRow → User → Action Database Tokens
  rotate session_record user = do
    rotate_session_refresh outside settings call session_record call.refresh_token
    write_audit call (some user.id) refresh_rotated call.ip_address call.user_agent
    modify commit
    pure (record { access_token = call.access_token; refresh_token = call.refresh_token })

  abbrev pub refresh_user : SessionRow → Option User → Action Database Tokens
  refresh_user session_record none = refuse_session call session_record
  refresh_user session_record (some user) = rotate session_record user

  -- A session that was found, is not revoked and has not expired, and is bound to the caller.
  abbrev pub is_usable : SessionRow → Bool
  is_usable session_record =
      ltb call.now session_record.expires_at
      && validate_session_bindings outside session_record call.user_agent call.ip_address

  abbrev pub refresh_session : Text → Option SessionRow → Action Database Tokens
  refresh_session token none = raise no_permission
  refresh_session token (some session_record) =
      if is_live session_record
      then (if is_usable session_record
          then (gets (λ d. subject (outside.decode token) d.now.users)
              >>= refresh_user session_record)
          else refuse_session call session_record)
      else raise no_permission

  unfoldable pub refresh_tokens : Text → Action Database Tokens
  refresh_tokens token = find_session_by_refresh outside token >>= refresh_session token

  abbrev logout_found : Option SessionRow → Action Database (Unit {0})
  logout_found none = raise no_permission
  logout_found (some session_record) = do
    revoke_session call session_record
    write_audit call (some session_record.user_id) logout call.ip_address call.user_agent
    modify commit

  unfoldable pub logout_session : Text → Action Database (Unit {0})
  logout_session token = find_session_by_refresh outside token >>= logout_found

abbrev record_sign_out : Call → Text → ℕ → Action Database ℕ
record_sign_out call user_id zero = pure zero
record_sign_out call user_id (suc count) = do
  write_audit call (some user_id) logout none none
  modify commit
  pure (suc count)

unfoldable pub sign_out_other_sessions : Call → (user_id : Text) → Option Text → Action Database ℕ
sign_out_other_sessions call user_id active =
    revoke_other_sessions call user_id active >>= record_sign_out call user_id

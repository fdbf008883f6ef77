-- ===== src/Auth/Database.antt =====
-- backend/db/models/user.py and backend/db/session.py: the rows that the handlers read and write,
-- and the transaction around a request. A table is the list of its rows; times are in seconds.
use feature_frontend.Prelude.{ℕ, Bool, Option, none, some, List, [], ◌∷◌, if◌then◌else◌}
use feature_frontend.Prelude.Text.{Text, text_eq}
use feature_frontend.Action.{Result, ok, err, Action}

pub data UserStatus : Type 0 where
  active unverified disabled : UserStatus

-- The columns that the modelled code uses. `mfa_secret` and `recovery_codes` are as stored,
-- encrypted.
pub record User : Type 0 where
  pub id : Text
  pub email : Text
  pub email_verified_at : Option ℕ
  pub status : UserStatus
  pub password_hash : Text
  pub mfa_enabled : Bool
  pub mfa_secret : Option Text
  pub recovery_codes : Option Text
  pub last_login_at : Option ℕ
  pub last_ip : Option Text

-- A row of `sessions`.
pub record SessionRow : Type 0 where
  pub id : Text
  pub user_id : Text
  pub refresh_token_hash : Text
  pub expires_at : ℕ
  pub rotated_at : Option ℕ
  pub user_agent : Option Text
  pub ip : Option Text
  pub revoked_at : Option ℕ

-- What an entry of the audit log says was done.
pub data AuditAction : Type 0 where
  login_failure login_success totp_failure refresh_rotated logout recovery_login_used : AuditAction

pub record AuditLog : Type 0 where
  pub actor_user_id : Option Text
  pub action : AuditAction
  pub ip : Option Text
  pub user_agent : Option Text
  pub occurred_at : ℕ

-- A link sent by mail: a row of `email_verifications` or of `password_resets`.
pub record LinkRow : Type 0 where
  pub id : Text
  pub user_id : Text
  pub token_hash : Text
  pub expires_at : ℕ
  pub used_at : Option ℕ

pub record Tables : Type 0 where
  pub users : List User
  pub sessions : List SessionRow
  pub audit : List AuditLog
  pub verifications : List LinkRow
  pub resets : List LinkRow

-- What the session of a request sees, and what a later request will see.
pub record Database : Type 0 where
  pub now : Tables
  pub saved : Tables

abbrev pub commit : Database → Database
commit d = record d { saved = d.now }

abbrev pub rollback : Database → Database
rollback d = record d { now = d.saved }

-- `session_scope`: a request that returns is committed, one that raises is rolled back.
abbrev pub settle : {A : Type 0} → Result A × Database → Result A × Database
settle (ok a, d) = (ok a, commit d)
settle (err e, d) = (err e, rollback d)

unfoldable pub session_scope : {A : Type 0} → Action Database A → Action Database A
session_scope m d = settle (m d)

-- The first row that passes a test. The columns that are searched this way are unique.
abbrev pub first_where {ℓ} : {A : Type ℓ} → (A → Bool) → List A → Option A
first_where p [] = none
first_where p (x ∷ xs) = let rest = first_where p xs in if p x then some x else rest

-- The rows with a change made to those that pass a test.
abbrev pub update_where {ℓ} : {A : Type ℓ} → (A → Bool) → (A → A) → List A → List A
update_where p f [] = []
update_where p f (x ∷ xs) = let rest = update_where p f xs in if p x then f x ∷ rest else x ∷ rest

-- `select(User).where(User.email == email)`
unfoldable pub find_user : Text → List User → Option User
find_user email = first_where (λ u. text_eq u.email email)

-- `db.get(User, user_id)`
unfoldable pub get_user : Text → List User → Option User
get_user id = first_where (λ u. text_eq u.id id)

-- An attribute of a loaded user is assigned.
unfoldable pub set_user : Text → (User → User) → List User → List User
set_user id = update_where (λ u. text_eq u.id id)

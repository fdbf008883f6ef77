-- ===== src/Auth/Outside.antt =====
-- What the handlers of backend/auth take from elsewhere: the settings, the libraries for passwords,
-- codes, tokens and hashes, the captcha service, and the values that a call brings with it.
use feature_frontend.Prelude.{ℕ, Bool, Option, List}
use feature_frontend.Prelude.Text.{Text}

-- The fields of `AppConfig` that the modelled code reads.
pub record Settings : Type 0 where
  pub redis_rate_limit_prefix : Text
  pub jwt_refresh_ttl_seconds : ℕ
  pub email_verification_secret : Text

-- The answer of the captcha service.
pub data Verdict : Type 0 where
  success failure unreachable : Verdict

-- How `ipaddress.ip_address` reads a text.
pub data Address : Type 0 where
  not_an_address ipv4 : Address
  ipv6 : Text → Address

-- The value under `auth:challenge:<id>`, which is stored as JSON.
pub data Challenge : Type 0 where
  login : (user_id : Text) (ip ua : Option Text) → Challenge
  mfa_enable : (user_id secret : Text) → Challenge

-- The claims of a token: its type, and the id of the user that it is for, a UUID as text, with
-- `none` where it is missing or empty.
pub record Payload : Type 0 where
  pub is_refresh : Bool
  pub sub : Option Text

pub record Outside : Type 0 where
  pub lower : Text → Text
  pub sha256_hex : Text → Text
  pub verify_password : (password_hash raw : Text) → Bool
  pub verify_totp : (secret otp : Text) → Bool
  pub siteverify : (captcha_token : Text) (remote_ip : Option Text) → Verdict
  pub ip_address : Text → Address
  -- `hmac.new(secret, message, sha256).hexdigest()`
  pub hmac_hex : (secret message : Text) → Text
  -- `uuid.UUID(text)`, in its canonical spelling; `none` where it raises.
  pub parse_uuid : Text → Option Text
  pub hash_password : Text → Text
  pub dumps : Challenge → Text
  pub loads : Text → Option Challenge
  -- `_load_mfa_secret` and `_load_recovery_codes`, with the encryption that they undo.
  pub load_mfa_secret : Text → Text
  pub load_recovery_codes : Option Text → List Text
  pub encrypt : Text → Text
  pub encrypt_json : List Text → Text
  -- `None` where the token does not decode.
  pub decode : Text → Option Payload

-- One call of a handler: who calls, when, and the fresh values that it draws.
pub record Call : Type 0 where
  pub user_agent : Option Text
  pub ip_address : Option Text
  pub now : ℕ
  pub access_token : Text
  pub refresh_token : Text
  pub session_id : Text
  pub challenge_id : Text
  pub link_id : Text
  pub new_user_id : Text

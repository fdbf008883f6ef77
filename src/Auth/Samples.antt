-- ===== src/Auth/Samples.antt =====
-- Instances of what backend/auth takes from elsewhere, and sample tables, for its examples.
use feature_frontend.Prelude.{
  zero, suc, ◌≡◌, refl, ap, ◌∙◌, true, false, Option, none, some, List, [], ◌∷◌, ◌++◌, map,
}
use feature_frontend.Prelude.Text.{Text, codes, text_eq}
use feature_frontend.Auth.Database.{User, active, SessionRow, LinkRow, Tables}
use feature_frontend.Auth.Outside.{
  Outside, Settings, Call, success, ipv4, Challenge, login, mfa_enable,
}
use feature_frontend.Auth.Sessions.{cons_part}

-- Lists of texts as one text, and back.
abbrev joined : List Text → Text
joined [] = []
joined (x ∷ xs) = map suc x ++ zero ∷ joined xs

abbrev parted : Text → List Text
parted [] = []
parted (zero ∷ s) = [] ∷ parted s
parted (suc c ∷ s) = cons_part c (parted s)

parted_one : (x s : Text) → parted (map suc x ++ zero ∷ s) ≡ x ∷ parted s
parted_one [] s = refl
parted_one (c ∷ x) s = rw (parted_one x s)

abbrev loaded : Option Text → List Text
loaded none = []
loaded (some t) = parted t

pub load-encrypt_sample : (codes : List Text) → loaded (some (joined codes)) ≡ codes
load-encrypt_sample [] = refl
load-encrypt_sample (x ∷ xs) =
    parted_one x (joined xs) ∙ ap (λ rest. x ∷ rest) (load-encrypt_sample xs)

abbrev user_of : Challenge → Text
user_of (login user_id ip ua) = user_id
user_of (mfa_enable user_id secret) = user_id

abbrev pub sample_outside : Outside
sample_outside = record {
  lower = λ t. t;
  sha256_hex = λ t. codes "h" ++ t;
  verify_password = text_eq;
  verify_totp = text_eq;
  siteverify = λ token ip. success;
  ip_address = λ t. ipv4;
  hmac_hex = λ secret message. secret ++ message;
  parse_uuid = some;
  hash_password = λ t. t;
  dumps = user_of;
  loads = λ t. some (login t none none);
  load_mfa_secret = λ t. t;
  load_recovery_codes = loaded;
  encrypt = λ t. t;
  encrypt_json = joined;
  decode = λ t. some (record { is_refresh = true; sub = some (codes "u1") });
}

abbrev pub sample_settings : Settings
sample_settings = record {
  redis_rate_limit_prefix = codes "rate";
  jwt_refresh_ttl_seconds = 1000;
  email_verification_secret = codes "k";
}

abbrev pub sample_call : Call
sample_call = record {
  user_agent = some (codes "firefox");
  ip_address = some (codes "10.0.0.1");
  now = 100;
  access_token = codes "access";
  refresh_token = codes "new";
  session_id = codes "s2";
  challenge_id = codes "c1";
  link_id = codes "l2";
  new_user_id = codes "u2";
}

abbrev pub alice : User
alice = record {
  id = codes "u1";
  email = codes "a";
  email_verified_at = some 1;
  status = active;
  password_hash = codes "pw";
  mfa_enabled = false;
  mfa_secret = some (codes "totp");
  recovery_codes = some (joined (codes "hone" ∷ codes "htwo" ∷ []));
  last_login_at = none;
  last_ip = none;
}

abbrev pub alice_session : SessionRow
alice_session = record {
  id = codes "s1";
  user_id = codes "u1";
  refresh_token_hash = codes "htok";
  expires_at = 1000;
  rotated_at = none;
  user_agent = some (codes "firefox");
  ip = some (codes "10.0.0.0/24");
  revoked_at = none;
}

abbrev pub alice_link : LinkRow
alice_link = record {
  id = codes "l1";
  user_id = codes "u1";
  token_hash = codes "hkl1";
  expires_at = 1000;
  used_at = none;
}

abbrev pub sample_tables : Tables
sample_tables = record {
  users = alice ∷ [];
  sessions = alice_session ∷ [];
  audit = [];
  verifications = alice_link ∷ [];
  resets = alice_link ∷ [];
}

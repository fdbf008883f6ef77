-- ===== src/Auth/LoginTests.antt =====
-- backend/auth on sample requests: logins and links.
use feature_frontend.Prelude.{◌≡◌, refl, true, false, none, some, [], ◌∷◌}
use feature_frontend.Prelude.Text.{codes, text_eq}
use feature_frontend.Action.{ok, err, bad_credentials, invalid_challenge, invalid_code}
use feature_frontend.Redis.Model.{Server, empty, redis}
use feature_frontend.Auth.Database.{active, User, Database, find_user, get_user}
use feature_frontend.Auth.RateLimit.{count_hit, enforce_rate_limit}
use feature_frontend.Auth.Lockout.{
  ensure_not_locked, requires_captcha, record_login_failure, clear_login_state,
}
use feature_frontend.Auth.Sessions.{hash_token, create_session}
use feature_frontend.Auth.Refresh.{write_audit}
use feature_frontend.Auth.RefreshLaws.{opened}
use feature_frontend.Auth.World.{World}
use feature_frontend.Auth.Login.{LoginRequest, signed_in, login_user, login_known, sign_in, admit}
use feature_frontend.Auth.LoginLaws.{login_user-signed_in}
use feature_frontend.Auth.LoginFailures.{is_wrong, login_user-wrong}
use feature_frontend.Auth.TwoFactor.{
  TwoFaVerifyRequest, verify_two_factor, read_challenge, pass_two_factor,
}
use feature_frontend.Auth.TwoFactorLaws.{verify_two_factor-once}
use feature_frontend.Auth.Recovery.{spend_code}
use feature_frontend.Auth.RecoveryLaws.{spend_code-once}
use feature_frontend.Auth.Links.{sign_token, build_token, validate_token}
use feature_frontend.Auth.LinkLaws.{validate_token-build_token}
use feature_frontend.Auth.Samples.{
  sample_outside, sample_settings, sample_call, alice, alice_link, sample_tables,
  load-encrypt_sample,
}

abbrev start : World Server
start = record { db = opened sample_tables; store = empty }

abbrev right_request : LoginRequest
right_request = record { email = codes "a"; password = codes "pw"; captcha_token = none }

abbrev wrong_request : LoginRequest
wrong_request = record { email = codes "a"; password = codes "guess"; captcha_token = none }

right_answer :
    (login_user redis sample_outside sample_settings sample_call right_request start).0
    ≡ ok (signed_in (record { access_token = codes "access"; refresh_token = codes "new" }))
unfolding login_user enforce_rate_limit count_hit ensure_not_locked requires_captcha find_user
    login_known clear_login_state sign_in create_session hash_token write_audit
right_answer = refl

login_user-signed_in_example :
    (user : User) × (find_user (codes "a") sample_tables.users ≡ some user)
    × (text_eq user.password_hash (codes "pw") ≡ true)
    × (user.status ≡ active)
    × (user.mfa_enabled ≡ false)
login_user-signed_in_example =
    login_user-signed_in redis sample_outside sample_settings sample_call right_request start _
      right_answer

abbrev admitted : World Server
admitted =
    (admit redis sample_outside sample_settings sample_call wrong_request (codes "a") start).1

passes :
    admit redis sample_outside sample_settings sample_call wrong_request (codes "a") start
    ≡ (ok tt, admitted)
unfolding enforce_rate_limit count_hit ensure_not_locked requires_captcha
passes = refl

guessed : is_wrong sample_outside (codes "guess") (find_user (codes "a") sample_tables.users) ≡ true
unfolding find_user
guessed = refl

login_user-wrong_example :
    ((login_user redis sample_outside sample_settings sample_call wrong_request start).0
      ≡ err bad_credentials)
    × ((login_user redis sample_outside sample_settings sample_call wrong_request start).1.store
        ≡ record_login_failure redis (codes "a") admitted.store)
    × ((login_user redis sample_outside sample_settings sample_call wrong_request
          start).1.db.saved.users
        ≡ sample_tables.users)
    × ((login_user redis sample_outside sample_settings sample_call wrong_request
          start).1.db.saved.sessions
        ≡ sample_tables.sessions)
login_user-wrong_example =
    login_user-wrong redis sample_outside sample_settings sample_call wrong_request start admitted
      passes guessed

abbrev challenged : World Server
challenged = record {
  db = opened sample_tables;
  store = redis.set_ex empty (codes "auth:challenge:c1") (codes "u1") 300;
}

abbrev verify_request : TwoFaVerifyRequest
verify_request = record { challenge_id = codes "c1"; otp = codes "totp"; captcha_token = none }

verified :
    (verify_two_factor redis sample_outside sample_settings sample_call verify_request challenged).0
    ≡ ok (record { access_token = codes "access"; refresh_token = codes "new" })
unfolding verify_two_factor read_challenge get_user ensure_not_locked enforce_rate_limit count_hit
    requires_captcha pass_two_factor sign_in create_session hash_token write_audit
verified = refl

verify_two_factor-once_example :
    (verify_two_factor redis sample_outside sample_settings sample_call verify_request
      (verify_two_factor redis sample_outside sample_settings sample_call verify_request
        challenged).1).0
    ≡ err invalid_challenge
verify_two_factor-once_example =
    verify_two_factor-once redis sample_outside sample_settings sample_call sample_call
      verify_request verify_request challenged _ refl verified

abbrev spent : Database
spent = (spend_code sample_outside alice (codes "one") (opened sample_tables)).1

stored : get_user (codes "u1") sample_tables.users ≡ some alice
unfolding get_user
stored = refl

spends : spend_code sample_outside alice (codes "one") (opened sample_tables) ≡ (ok tt, spent)
unfolding spend_code hash_token
spends = refl

spend_code-once_example :
    (left : User) × (get_user (codes "u1") spent.now.users ≡ some left)
    × ((later : Database)
        → (spend_code sample_outside left (codes "one") later).0 ≡ err invalid_code)
spend_code-once_example =
    spend_code-once sample_outside alice (codes "one") (opened sample_tables) spent
      load-encrypt_sample stored spends

signature_plain : sign_token sample_outside sample_settings (codes "l1") ≡ codes "kl1"
unfolding sign_token
signature_plain = refl

validate_token-build_token_example :
    validate_token sample_outside sample_settings
      (build_token sample_outside sample_settings alice_link)
      (alice_link ∷ [])
    ≡ ok alice_link
validate_token-build_token_example =
    validate_token-build_token sample_outside sample_settings alice_link (alice_link ∷ []) refl
      (rw signature_plain refl) refl refl (rw signature_plain refl)

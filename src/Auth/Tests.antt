-- ===== src/Auth/Tests.antt =====
-- backend/auth on sample requests.
use feature_frontend.Prelude.{◌≡◌, ◌≤◌, refl, true, ◌&&◌, none, some, ltb, arith}
use feature_frontend.Prelude.Text.{codes}
use feature_frontend.Action.{ok, err, too_many_requests, locked, no_permission}
use feature_frontend.Redis.Model.{Server, empty, redis}
use feature_frontend.Auth.Database.{User, SessionRow, session_scope, get_user}
use feature_frontend.Auth.RateLimit.{count_hit, enforce_rate_limit}
use feature_frontend.Auth.Limits.{after_calls, enforce_rate_limit-after}
use feature_frontend.Auth.Lockout.{
  ensure_not_locked, requires_captcha, record_login_failure, clear_login_state, login_failure_key,
}
use feature_frontend.Auth.LockoutRun.{fail_times, lockout, lockout-lapses}
use feature_frontend.Auth.Sessions.{
  new_session, validate_session_bindings, is_live, by_hash, find_session_by_refresh, hash_token,
  normalize_ip, split_dots, rotate_session_refresh,
}
use feature_frontend.Auth.SessionLaws.{validate-new_session}
use feature_frontend.Auth.Refresh.{refresh_tokens, subject, rotate, write_audit}
use feature_frontend.Auth.RefreshLaws.{opened, refresh_tokens-once, refresh_tokens-granted}
use feature_frontend.Auth.Samples.{sample_outside, sample_settings, sample_call, sample_tables}

-- Six calls from one address in a window of five: the sixth is refused.
enforce_rate_limit-after_example :
    (enforce_rate_limit redis sample_settings (codes "register") (codes "10.0.0.1") 5 3600 (
      after_calls redis sample_settings (codes "register") b'1' (codes "0.0.0.1") 5 3599 5 empty)).0
    ≡ err too_many_requests
enforce_rate_limit-after_example =
    enforce_rate_limit-after redis sample_settings (codes "register") b'1' (codes "0.0.0.1") 5 3599
      5 empty

lockout_example :
    (ensure_not_locked redis
        (fail_times redis 5 (codes "a") (clear_login_state redis (codes "a") empty))
        (codes "a")
        none
      ≡ err locked)
    × (requires_captcha redis
          (fail_times redis 5 (codes "a") (clear_login_state redis (codes "a") empty))
          (codes "a")
          none
        ≡ true)
lockout_example = lockout redis (codes "a") empty 5

abbrev four_failures : Server
four_failures = fail_times redis 4 (codes "a") empty

four_failures-counter : 4 ≤ redis.counter four_failures (login_failure_key (codes "a"))
unfolding fail_times record_login_failure count_hit
four_failures-counter = omega arith

lockout-lapses_example :
    ensure_not_locked redis
      (redis.wait (record_login_failure redis (codes "a") four_failures) 299)
      (codes "a")
      none
    ≡ err locked
lockout-lapses_example = lockout-lapses redis (codes "a") four_failures 299 four_failures-counter

validate-new_session_example :
    validate_session_bindings sample_outside
      (new_session sample_outside sample_settings sample_call
        (codes "u1")
        (codes "h")
        (some (codes "firefox"))
        (some (codes "10.0.0.7")))
      (some (codes "firefox"))
      (some (codes "10.0.0.7"))
    ≡ true
validate-new_session_example =
    validate-new_session sample_outside sample_settings sample_call (codes "u1") (codes "h")
      (codes "firefox") (some (codes "10.0.0.7"))

drawn : hash_token sample_outside (codes "new") ≡ ok (codes "hnew")
unfolding hash_token
drawn = refl

refresh_tokens-once_example :
    (refresh_tokens sample_outside sample_settings sample_call
      (codes "tok")
      (session_scope
        (refresh_tokens sample_outside sample_settings sample_call (codes "tok"))
        (opened sample_tables)).1).0
    ≡ err no_permission
refresh_tokens-once_example =
    refresh_tokens-once sample_outside sample_settings sample_call sample_call b't' (codes "ok")
      sample_tables (codes "hnew") drawn refl (omega arith)

granted :
    (refresh_tokens sample_outside sample_settings sample_call
      (codes "tok")
      (opened sample_tables)).0
    ≡ ok (record { access_token = codes "access"; refresh_token = codes "new" })
unfolding refresh_tokens find_session_by_refresh hash_token by_hash validate_session_bindings
    normalize_ip split_dots get_user rotate rotate_session_refresh write_audit
granted = refl

refresh_tokens-granted_example :
    (r : SessionRow) × (by_hash (codes "htok") sample_tables.sessions ≡ some r)
    × (is_live r ≡ true)
    × ((ltb 100 r.expires_at
          && validate_session_bindings sample_outside r
              (some (codes "firefox"))
              (some (codes "10.0.0.1")))
        ≡ true)
    × (user : User) × (subject (sample_outside.decode (codes "tok")) sample_tables.users
        ≡ some user)
refresh_tokens-granted_example =
    refresh_tokens-granted sample_outside sample_settings sample_call b't' (codes "ok")
      (opened sample_tables) _ granted

-- ===== src/Auth/World.antt =====
-- The two stores behind a handler of backend/auth/service: the database and Redis, with the checks
-- that most handlers begin with.
use feature_frontend.Prelude.{ℕ, Bool, true, false, Option, none, some, [], ◌∷◌}
use feature_frontend.Prelude.Text.{Text}
use feature_frontend.Action.{
  Result, ok, err, Action, pure, raise, lift, modify, captcha_required, captcha_failed,
  captcha_unreachable,
}
use feature_frontend.Redis.{Redis}
use feature_frontend.Auth.Database.{Database}
use feature_frontend.Auth.Outside.{Outside, Settings, Call, Verdict, success, failure, unreachable}
use feature_frontend.Auth.RateLimit.{enforce_rate_limit}
use feature_frontend.Auth.Lockout.{ensure_not_locked, requires_captcha}

pub record World (Store : Type 0) : Type 0 where
  pub db : Database
  pub store : Store

module _ {Store A : Type 0} where
  abbrev pub on_db : Action Database A → Action (World Store) A
  on_db m w = let (result, d) = m w.db in (result, record w { db = d })

  abbrev pub on_redis : Action Store A → Action (World Store) A
  on_redis m w = let (result, s) = m w.store in (result, record w { store = s })

abbrev answer : Verdict → Result (Unit {0})
answer success = ok tt
answer failure = err captcha_failed
answer unreachable = err captcha_unreachable

-- The code also strips the address from the form when there is none; `siteverify` gets it as it is.
unfoldable pub verify_turnstile : Outside → Text → Option Text → Result (Unit {0})
verify_turnstile outside [] remote_ip = err captcha_failed
verify_turnstile outside (c ∷ token) remote_ip = answer (outside.siteverify (c ∷ token) remote_ip)

module _ {Store : Type 0} (redis : Redis Store) where
  abbrev pub update_store : (Store → Store) → Action (World Store) (Unit {0})
  update_store f = on_redis (modify f)

  abbrev pub limit_rate : Settings → Text → Text → ℕ → ℕ → Action (World Store) (Unit {0})
  limit_rate settings scope identifier limit window_seconds =
      on_redis (enforce_rate_limit redis settings scope identifier limit window_seconds)

  abbrev pub check_lock : Text → Option Text → Action (World Store) (Unit {0})
  check_lock email user_id w = (ensure_not_locked redis w.store email user_id, w)

  -- `request.captcha_token` is checked first, then the service is asked.
  abbrev pub solve_captcha : Outside → Call → Option Text → Action (World Store) (Unit {0})
  solve_captcha outside call none = raise captcha_required
  solve_captcha outside call (some []) = raise captcha_required
  solve_captcha outside call (some (c ∷ token)) =
      lift (verify_turnstile outside (c ∷ token) call.ip_address)

  abbrev solve_if : Bool → Action (World Store) (Unit {0}) → Action (World Store) (Unit {0})
  solve_if true m = m
  solve_if false m = pure tt

  -- `if await _requires_captcha(...)`, with its body.
  abbrev pub check_captcha :
      Outside → Call → Option Text → Text → Option Text → Action (World Store) (Unit {0})
  check_captcha outside call captcha_token email user_id w =
      solve_if (requires_captcha redis w.store email user_id)
        (solve_captcha outside call captcha_token) w

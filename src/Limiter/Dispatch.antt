-- ===== src/Limiter/Dispatch.antt =====
-- `RateLimiterMiddleware` of backend/middleware/rate_limiter.py.
use feature_frontend.Prelude.{
  ℕ, ◌/◌, Bool, not, ◌&&◌, List, [], ◌∷◌, ◌++◌, any, ltb, ◌==◌, if◌then◌else◌,
}
use feature_frontend.Prelude.Text.{Text, codes, text_eq}
use feature_frontend.Redis.{Redis}

-- Whether Redis fails as the request is counted, and at which call.
pub data Trouble : Type 0 where
  no_trouble incr_fails expire_fails : Trouble

pub record WebRequest : Type 0 where
  pub identifier : Text
  pub path : Text
  -- In upper case.
  pub method : Text
  -- `time.time()`
  pub clock : ℕ
  pub trouble : Trouble

-- The arguments of the constructor; the two lists are in lower case.
pub record Limiter : Type 0 where
  pub requests : ℕ
  pub window : ℕ
  pub prefix : Text
  pub allowlist : List Text
  pub denylist : List Text
  pub high_risk_paths : List Text

-- The request goes on to the application, or it is answered with 429 or with 503.
pub data Answer : Type 0 where
  goes_on refused unavailable : Answer

-- Python's `str.lower`, and `str` of a number.
pub record Printer : Type 0 where
  pub lower : Text → Text
  pub show : ℕ → Text

abbrev pub is_listed : Text → List Text → Bool
is_listed s entries = any (text_eq s) entries

-- `fail_open`
abbrev fails_open : Limiter → WebRequest → Bool
fails_open l r = text_eq r.method (codes "GET") && not (is_listed r.path l.high_risk_paths)

abbrev pub on_redis_error : Limiter → WebRequest → Answer
on_redis_error l r = if fails_open l r then goes_on else unavailable

-- `current > self._requests`
abbrev pub judge_count : Limiter → ℕ → Answer
judge_count l current = if ltb l.requests current then refused else goes_on

abbrev pub build_key : Printer → Limiter → WebRequest → Text
build_key printer l r =
    l.prefix ++ (codes ":" ++ (r.identifier ++ (codes ":" ++ printer.show (r.clock / l.window))))

module _ {Store : Type 0} (redis : Redis Store) (l : Limiter) where
  -- An expiry for the first request of a window.
  abbrev pub set_expiry : Text → Store → Store
  set_expiry key s = if redis.counter s key == 1 then redis.expire s key l.window else s

  -- Without the expiry, Redis is asked for it only by the first request.
  abbrev pub unexpired : WebRequest → Text → Store → Answer
  unexpired r key s =
      if redis.counter s key == 1 then on_redis_error l r else judge_count l (redis.counter s key)

  abbrev pub count_request : WebRequest → Trouble → Text → Store → Answer × Store
  count_request r no_trouble key s =
      let s' = redis.incr s key in (judge_count l (redis.counter s' key), set_expiry key s')
  count_request r incr_fails key s = (on_redis_error l r, s)
  count_request r expire_fails key s = let s' = redis.incr s key in (unexpired r key s', s')

  abbrev pub with_lists : Printer → WebRequest → Store → Answer × Store
  with_lists printer r s =
      let lowered_id = printer.lower r.identifier in
      let counted = count_request r r.trouble (build_key printer l r) s in
      if is_listed lowered_id l.allowlist
      then (goes_on, s)
      else (if is_listed lowered_id l.denylist then (refused, s) else counted)

  abbrev pub with_identifier : Text → Printer → WebRequest → Store → Answer × Store
  with_identifier [] printer r s = (goes_on, s)
  with_identifier (c ∷ identifier) printer r s = with_lists printer r s

  unfoldable pub dispatch : Printer → WebRequest → Store → Answer × Store
  dispatch printer r s = with_identifier r.identifier printer r s

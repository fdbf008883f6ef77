-- ===== src/Auth/RateLimit.antt =====
-- backend/auth/service/rate_limit.py
use feature_frontend.Prelude.{ℕ, [], ◌∷◌, ◌++◌, if◌then◌else◌, ltb, ◌==◌}
use feature_frontend.Prelude.Text.{Text, codes}
use feature_frontend.Action.{Result, ok, err, Action, too_many_requests}
use feature_frontend.Redis.{Redis}
use feature_frontend.Auth.Outside.{Settings}

-- f"{settings.redis_rate_limit_prefix}:{scope}:{identifier}"
abbrev pub rate_key : Settings → Text → Text → Text
rate_key settings scope identifier =
    settings.redis_rate_limit_prefix ++ (codes ":" ++ (scope ++ (codes ":" ++ identifier)))

module _ {Store : Type 0} (redis : Redis Store) where
  -- INCR, and an expiry for the first of a window: the new number, and the store.
  unfoldable pub count_hit : Text → ℕ → Store → ℕ × Store
  count_hit key window_seconds s =
      let s' = redis.incr s key in
      let current = redis.counter s' key in
      (current, if current == 1 then redis.expire s' key window_seconds else s')

  abbrev pub decide : ℕ → ℕ × Store → Result (Unit {0}) × Store
  decide limit hit = if ltb limit hit.0 then (err too_many_requests, hit.1) else (ok tt, hit.1)

  -- A call with no identifier is not limited.
  unfoldable pub enforce_rate_limit : Settings → Text → Text → ℕ → ℕ → Action Store (Unit {0})
  enforce_rate_limit settings scope [] limit window_seconds s = (ok tt, s)
  enforce_rate_limit settings scope (c ∷ identifier) limit window_seconds s =
      decide limit (count_hit (rate_key settings scope (c ∷ identifier)) window_seconds s)

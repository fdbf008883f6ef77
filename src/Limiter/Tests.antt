-- ===== src/Limiter/Tests.antt =====
-- backend/middleware/rate_limiter.py on a sample of requests.
use feature_frontend.Prelude.{◌-◌, ◌≤◌, ◌≡◌, refl, List, [], ◌∷◌, arith}
use feature_frontend.Prelude.Text.{Text, codes}
use feature_frontend.Redis.Model.{redis, empty, counter}
use feature_frontend.Limiter.Dispatch.{
  Trouble, no_trouble, incr_fails, expire_fails, WebRequest, Limiter, goes_on, refused, unavailable,
  Printer, dispatch,
}
use feature_frontend.Limiter.Passed.{passed, passed_at_most, window_key}

abbrev printer : Printer
printer = record { lower = λ s. s; show = λ n. n ∷ [] }

abbrev limiter : Limiter
limiter = record {
  requests = 2;
  window = 60;
  prefix = codes "rl";
  allowlist = codes "::1" ∷ [];
  denylist = codes "bad" ∷ [];
  high_risk_paths = codes "/login" ∷ [];
}

abbrev get_from : Text → Text → Trouble → WebRequest
get_from identifier path trouble = record {
  identifier = identifier;
  path = path;
  method = codes "GET";
  clock = 130;
  trouble = trouble;
}

abbrev visits : List WebRequest
visits =
    get_from (codes "a") (codes "/") no_trouble
    ∷ get_from (codes "b") (codes "/") no_trouble
    ∷ get_from (codes "a") (codes "/") incr_fails
    ∷ get_from (codes "a") (codes "/") no_trouble
    ∷ get_from (codes "a") (codes "/") no_trouble
    ∷ []

denied :
    (dispatch redis limiter printer (get_from (codes "bad") (codes "/") no_trouble) empty).0
    ≡ refused
unfolding dispatch
denied = refl

closed :
    (dispatch redis limiter printer (get_from (codes "a") (codes "/login") expire_fails) empty).0
    ≡ unavailable
unfolding dispatch
closed = refl

unlimited :
    (dispatch redis limiter printer (get_from (codes "::1") (codes "/") no_trouble) empty).0
    ≡ goes_on
unfolding dispatch
unlimited = refl

two_of_three : passed redis limiter printer (codes "a") 2 visits empty ≡ 2
unfolding dispatch
two_of_three = refl

passed_at_most_example :
    passed redis limiter printer (codes "a") 2 visits empty
    ≤ 2 - counter empty (window_key redis limiter printer (codes "a") 2)
passed_at_most_example =
    passed_at_most redis limiter printer 97 [] 2 visits empty (omega arith) refl

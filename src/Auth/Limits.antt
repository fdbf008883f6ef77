-- ===== src/Auth/Limits.antt =====
-- backend/auth/service/rate_limit.py: how many calls of a window pass.
use feature_frontend.Prelude.{
  ℕ, zero, suc, ◌+◌, ◌≡◌, ap, ◌∙◌, false, ◌∷◌, arith, ltb, ◌==◌, if◌then◌else◌, Bool-cases, inl,
  inr,
}
use feature_frontend.Prelude.Text.{Text, text_eq, text_eq_refl}
use feature_frontend.Action.{ok, err, too_many_requests}
use feature_frontend.Redis.{Redis}
use feature_frontend.Auth.Outside.{Settings}
use feature_frontend.Auth.RateLimit.{rate_key, count_hit, decide, enforce_rate_limit}

module _ {Store : Type 0} (redis : Redis Store) where
  pub counter-count_hit :
      (key : Text) (w : ℕ) (s : Store) (j : Text)
      → redis.counter (count_hit redis key (suc w) s).1 j
        ≡ (if text_eq key j then suc (redis.counter s key) else redis.counter s j)
  unfolding count_hit
  counter-count_hit key w s j = elim (Bool-cases (redis.counter (redis.incr s key) key == 1)) [
    | inl first ↦ rw first (rw redis.counter-expire (redis.counter-incr s key j))
    | inr later ↦ rw later (redis.counter-incr s key j)
  ]

  pub current-count_hit :
      (key : Text) (w : ℕ) (s : Store) → (count_hit redis key w s).0 ≡ suc (redis.counter s key)
  unfolding count_hit
  current-count_hit key w s = redis.counter-incr s key key ∙ rw (text_eq_refl key)

  pub get-count_hit :
      (key : Text) (w : ℕ) (s : Store) (j : Text)
      → text_eq key j ≡ false
      → redis.get (count_hit redis key (suc w) s).1 j ≡ redis.get s j
  unfolding count_hit
  get-count_hit key w s j other = elim (Bool-cases (redis.counter (redis.incr s key) key == 1)) [
    | inl first ↦ rw first (rw redis.get-expire (redis.get-incr s key j other))
    | inr later ↦ rw later (redis.get-incr s key j other)
  ]

  decide-state : (limit : ℕ) (hit : ℕ × Store) → (decide redis limit hit).1 ≡ hit.1
  decide-state limit hit = elim (Bool-cases (ltb limit hit.0)) [
    | inl over ↦ rw over
    | inr within ↦ rw within
  ]

  decide-result :
      (limit : ℕ) (hit : ℕ × Store)
      → (decide redis limit hit).0 ≡ (if ltb limit hit.0 then err too_many_requests else ok tt)
  decide-result limit hit = elim (Bool-cases (ltb limit hit.0)) [
    | inl over ↦ rw over
    | inr within ↦ rw within
  ]

  module _ (settings : Settings) (scope : Text) (c : ℕ) (identifier : Text) (limit w : ℕ) where
    abbrev key : Text
    key = rate_key settings scope (c ∷ identifier)

    -- The store after a number of calls, refused or not.
    abbrev pub after_calls : ℕ → Store → Store
    after_calls zero s = s
    after_calls (suc n) s =
        (enforce_rate_limit redis settings scope (c ∷ identifier) limit (suc w) (after_calls n s)).1

    pub decide_state :
        (s : Store)
        → (enforce_rate_limit redis settings scope (c ∷ identifier) limit (suc w) s).1
          ≡ (count_hit redis key (suc w) s).1
    unfolding enforce_rate_limit
    decide_state s = decide-state limit (count_hit redis key (suc w) s)

    counter-after_calls :
        (n : ℕ) (s : Store) → redis.counter (after_calls n s) key ≡ redis.counter s key + n
    counter-after_calls zero s = omega arith
    counter-after_calls (suc n) s =
        rw
          (
            decide_state (after_calls n s),
            counter-count_hit key w (after_calls n s) key,
            text_eq_refl key,
          )
          (omega (arith, counter-after_calls n s))

    -- In a window that has counted some calls of an identifier that is not empty, a further call
    -- after `n` more of them is refused exactly when the calls counted with it are more than the
    -- limit; the calls that were refused count too. The window has at least one second and does
    -- not end in between.
    pub enforce_rate_limit-after :
        (n : ℕ) (s : Store)
        → (enforce_rate_limit redis settings scope
            (c ∷ identifier)
            limit
            (suc w)
            (after_calls n s)).0
          ≡ (if ltb limit (redis.counter s key + n + 1) then err too_many_requests else ok tt)
    unfolding enforce_rate_limit
    enforce_rate_limit-after n s =
        let now : (count_hit redis key (suc w) (after_calls n s)).0 ≡ redis.counter s key + n + 1 =
          current-count_hit key (suc w) (after_calls n s)
          ∙ omega (arith, counter-after_calls n s) in
        decide-result limit (count_hit redis key (suc w) (after_calls n s))
        ∙ ap (λ t. if ltb limit t then err too_many_requests else ok tt) now

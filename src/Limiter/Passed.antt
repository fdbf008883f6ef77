-- ===== src/Limiter/Passed.antt =====
-- backend/middleware/rate_limiter.py: how many requests go on in one window.
use feature_frontend.Prelude.{
  ℕ, zero, suc, ◌≤◌, ◌/◌, ◌-◌, ◌++◌, ◌≡◌, refl, ap, ◌∙◌, sym, Bool, true, false, ◌&&◌, List, [],
  ◌∷◌, inl, inr, ltb, ◌==◌, arith, Bool-cases, ==_iff, if◌then◌else◌,
}
use mathlib.Core.Path.{subst}
use feature_frontend.Prelude.Text.{Text, text_eq, codes, text_eq_iff, text_eq_refl}
use feature_frontend.Redis.{Redis}
use feature_frontend.Limiter.Dispatch.{
  Trouble, no_trouble, incr_fails, expire_fails, WebRequest, Limiter, Answer, goes_on, refused,
  unavailable, Printer, is_listed, judge_count, build_key, set_expiry, count_request, with_lists,
  with_identifier, dispatch,
}

abbrev has_gone_on : Answer → Bool
has_gone_on goes_on = true
has_gone_on refused = false
has_gone_on unavailable = false

abbrev is_counted : Trouble → Bool
is_counted no_trouble = true
is_counted incr_fails = false
is_counted expire_fails = false

module _ {Store : Type 0} (redis : Redis Store) (l : Limiter) (printer : Printer) where
  -- A request of the identifier in the window of that number, which is let through while Redis
  -- does not fail.
  abbrev passes_as : Text → ℕ → WebRequest → Answer → Bool
  passes_as name n r answer =
      text_eq r.identifier name
      && (r.clock / l.window == n && (is_counted r.trouble && has_gone_on answer))

  -- How many of a sequence of requests of all sorts those are.
  abbrev pub passed : Text → ℕ → List WebRequest → Store → ℕ
  passed name n [] s = 0
  passed name n (r ∷ rs) s =
      let p = dispatch redis l printer r s in
      let rest = passed name n rs p.1 in if passes_as name n r p.0 then suc rest else rest

  abbrev pub window_key : Text → ℕ → Text
  window_key name n = l.prefix ++ (codes ":" ++ (name ++ (codes ":" ++ printer.show n)))

  incr-grows : (k key : Text) (s : Store) → redis.counter s key ≤ redis.counter (redis.incr s k) key
  incr-grows k key s = elim (Bool-cases (text_eq k key)) [
    | inl same ↦
        let e : k ≡ key = (text_eq_iff k key).0 same in
        rw (redis.counter-incr s k key, e, text_eq_refl key) (omega arith)
    | inr other ↦ rw (redis.counter-incr s k key, other) (omega arith)
  ]

  incr-hits :
      (key : Text) (s : Store) → redis.counter (redis.incr s key) key ≡ suc (redis.counter s key)
  incr-hits key s = rw (redis.counter-incr s key key, text_eq_refl key) refl

  expire-keeps :
      (n : ℕ) (s : Store) (k key : Text)
      → 1 ≤ n
      → redis.counter (redis.expire s k n) key ≡ redis.counter s key
  expire-keeps zero s k key h = absurd (omega (arith, h))
  expire-keeps (suc n) s k key h = redis.counter-expire s k key n

  set_expiry-keeps :
      (k key : Text) (s : Store)
      → 1 ≤ l.window
      → redis.counter (set_expiry redis l k s) key ≡ redis.counter s key
  set_expiry-keeps k key s h = elim (Bool-cases (redis.counter s k == 1)) [
    | inl first ↦ rw first (expire-keeps l.window s k key h)
    | inr later ↦ rw later refl
  ]

  count_request-grows :
      (r : WebRequest) (t : Trouble) (k key : Text) (s : Store)
      → 1 ≤ l.window
      → redis.counter s key ≤ redis.counter (count_request redis l r t k s).1 key
  count_request-grows r no_trouble k key s h =
      rw (set_expiry-keeps k key (redis.incr s k) h) (incr-grows k key s)
  count_request-grows r incr_fails k key s h = omega arith
  count_request-grows r expire_fails k key s h = incr-grows k key s

  with_lists-grows :
      (r : WebRequest) (key : Text) (s : Store)
      → 1 ≤ l.window
      → redis.counter s key ≤ redis.counter (with_lists redis l printer r s).1 key
  with_lists-grows r key s h =
      elim (Bool-cases (is_listed (printer.lower r.identifier) l.allowlist)) [
        | inl allowed ↦ rw allowed (omega arith)
        | inr checked ↦ elim (Bool-cases (is_listed (printer.lower r.identifier) l.denylist)) [
          | inl denied ↦ rw (checked, denied) (omega arith)
          | inr free ↦
              rw (checked, free) (count_request-grows r r.trouble (build_key printer l r) key s h)
        ]
      ]

  with_identifier-grows :
      (name : Text) (r : WebRequest) (key : Text) (s : Store)
      → 1 ≤ l.window
      → redis.counter s key ≤ redis.counter (with_identifier redis l name printer r s).1 key
  with_identifier-grows [] r key s h = omega arith
  with_identifier-grows (c ∷ name) r key s h = with_lists-grows r key s h

  dispatch-grows :
      (r : WebRequest) (key : Text) (s : Store)
      → 1 ≤ l.window
      → redis.counter s key ≤ redis.counter (dispatch redis l printer r s).1 key
  unfolding dispatch
  dispatch-grows r key s h = with_identifier-grows r.identifier r key s h

  judge_count-goes_on : (n : ℕ) → has_gone_on (judge_count l n) ≡ true → n ≤ l.requests
  judge_count-goes_on n on = elim (Bool-cases (ltb l.requests n)) [
    | inl over ↦ let e : has_gone_on (judge_count l n) ≡ false = rw over refl in absurd (cc)
    | inr within ↦ ground arith
  ]

  -- A request that is let through counts, and the number is then within the limit.
  abbrev Counts : Text → Store → Answer × Store → Type 0
  Counts key s p =
      (redis.counter p.1 key ≡ suc (redis.counter s key)) × (suc (redis.counter s key) ≤ l.requests)

  count_request-Counts :
      (r : WebRequest) (t : Trouble) (key : Text) (s : Store)
      → 1 ≤ l.window
      → is_counted t ≡ true
      → has_gone_on (count_request redis l r t key s).0 ≡ true
      → Counts key s (count_request redis l r t key s)
  count_request-Counts r no_trouble key s h counted on = (
    set_expiry-keeps key key (redis.incr s key) h ∙ incr-hits key s,
    subst (λ n. n ≤ l.requests) (incr-hits key s) (judge_count-goes_on _ on),
  )
  count_request-Counts r incr_fails key s h counted on = absurd (cc)
  count_request-Counts r expire_fails key s h counted on = absurd (cc)

  with_lists-Counts :
      (r : WebRequest) (s : Store)
      → 1 ≤ l.window
      → is_listed (printer.lower r.identifier) l.allowlist ≡ false
      → is_counted r.trouble ≡ true
      → has_gone_on (with_lists redis l printer r s).0 ≡ true
      → Counts (build_key printer l r) s (with_lists redis l printer r s)
  with_lists-Counts r s h checked counted on =
      elim (Bool-cases (is_listed (printer.lower r.identifier) l.denylist)) [
        | inl denied ↦
            let e : has_gone_on (with_lists redis l printer r s).0 ≡ false =
              rw (checked, denied) refl in
            absurd (cc)
        | inr free ↦
            let e : with_lists redis l printer r s
                ≡ count_request redis l r r.trouble (build_key printer l r) s =
              rw (checked, free) refl in
            subst (Counts (build_key printer l r) s) (sym e) (
              count_request-Counts r r.trouble (build_key printer l r) s h counted
                (subst (λ p. has_gone_on p.0 ≡ true) e on))
      ]

  module _ (c : ℕ) (name : Text) (n : ℕ) where
    dispatch-Counts :
        (r : WebRequest) (s : Store)
        → 1 ≤ l.window
        → is_listed (printer.lower (c ∷ name)) l.allowlist ≡ false
        → passes_as (c ∷ name) n r (dispatch redis l printer r s).0 ≡ true
        → Counts (window_key (c ∷ name) n) s (dispatch redis l printer r s)
    unfolding dispatch
    dispatch-Counts r s h checked passes =
        let same : text_eq r.identifier (c ∷ name) ≡ true = ground arith in
        let named : r.identifier ≡ c ∷ name = (text_eq_iff r.identifier (c ∷ name)).0 same in
        let clock : (r.clock / l.window) == n ≡ true = ground arith in
        let number : r.clock / l.window ≡ n = (==_iff (r.clock / l.window) n).0 clock in
        let counted : is_counted r.trouble ≡ true = ground arith in
        let on : has_gone_on (dispatch redis l printer r s).0 ≡ true = ground arith in
        let e : dispatch redis l printer r s ≡ with_lists redis l printer r s =
          ap (λ i. with_identifier redis l i printer r s) named in
        let key : build_key printer l r ≡ window_key (c ∷ name) n = rw (named, number) refl in
        subst (Counts (window_key (c ∷ name) n) s) (sym e) (
          subst (λ k. Counts k s (with_lists redis l printer r s)) key
            (with_lists-Counts r s h
              (ap (λ i. is_listed (printer.lower i) l.allowlist) named ∙ checked) counted
              (subst (λ p. has_gone_on p.0 ≡ true) e on)))

    -- Whatever requests arrive, of whatever clients, and whether or not Redis fails in some of
    -- them: of the requests of an identifier in one window that go on while Redis does not fail,
    -- there are no more than the limit leaves after those that were counted before. The identifier
    -- is not empty and not on the allowlist, a window has at least one second, and the number of
    -- the window is not dropped by Redis in between.
    pub passed_at_most :
        (rs : List WebRequest) (s : Store)
        → 1 ≤ l.window
        → is_listed (printer.lower (c ∷ name)) l.allowlist ≡ false
        → passed (c ∷ name) n rs s ≤ l.requests - redis.counter s (window_key (c ∷ name) n)
    passed_at_most [] s h checked = omega arith
    passed_at_most (r ∷ rs) s h checked =
        let p = dispatch redis l printer r s in
        let rest = passed_at_most rs p.1 h checked in
        elim (Bool-cases (passes_as (c ∷ name) n r p.0)) [
          | inl passes ↦
              let (hit, room) = dispatch-Counts r s h checked passes in
              rw passes (omega (arith, rest, hit, room))
          | inr other ↦
              rw other (omega (arith, rest, dispatch-grows r (window_key (c ∷ name) n) s h))
        ]

-- ===== src/Action.antt =====
-- A handler of the backend: it changes a state and returns a value or raises. What was changed
-- before the raise stays changed, so the state comes back beside the error too.
use feature_frontend.Prelude.{◌≡◌, refl, Bool, true, false}

-- The errors that the handlers raise, with the details that tell them apart.
pub data HttpError : Type 0 where
  too_many_requests locked captcha_required captcha_failed captcha_unreachable : HttpError
  bad_credentials unconfirmed forbidden no_permission : HttpError
  invalid_challenge invalid_code invalid_request : HttpError
  invalid_link already_registered : HttpError
  payment_required : HttpError
  value_error type_error integrity_error : HttpError

pub data Result {ℓ} (A : Type ℓ) : Type ℓ where
  ok : A → Result A
  err : HttpError → Result A

abbrev pub Action : Type 0 → Type 0 → Type 0
Action S A = S → Result A × S

module _ {S A B : Type 0} where
  abbrev pub continue : Result A × S → (A → Action S B) → Result B × S
  continue (ok a, s) f = f a s
  continue (err e, s) f = (err e, s)

  infixl 10 ◌>>=◌ ◌>>◌
  abbrev pub ◌>>=◌ : Action S A → (A → Action S B) → Action S B
  ◌>>=◌ m f s = continue (m s) f

  abbrev pub ◌>>◌ : Action S A → Action S B → Action S B
  ◌>>◌ m n s = continue (m s) (λ _. n)

module _ {S : Type 0} where
  abbrev pub modify : (S → S) → Action S (Unit {0})
  modify f s = (ok tt, f s)

  -- `if not test: raise error`
  abbrev pub guard : Bool → HttpError → Action S (Unit {0})
  guard true e s = (ok tt, s)
  guard false e s = (err e, s)

module _ {S A : Type 0} where
  abbrev pub pure : A → Action S A
  pure a s = (ok a, s)

  abbrev pub raise : HttpError → Action S A
  raise e s = (err e, s)

  abbrev pub gets : (S → A) → Action S A
  gets f s = (ok (f s), s)

  abbrev pub lift : Result A → Action S A
  lift r s = (r, s)

-- A handler that returned had each of its steps return.
module _ {S A B : Type 0} where
  pub bind-ok :
      (p : Result A × S) (f : A → Action S B) {b : B} {t : S}
      → continue p f ≡ (ok b, t)
      → (a : A) × (s : S) × (p ≡ (ok a, s)) × (f a s ≡ (ok b, t))
  bind-ok (ok a, s) f h = (a, s, refl, h)
  bind-ok (err e, s) f h = absurd (cc)

module _ {S : Type 0} where
  pub guard-ok :
      (b : Bool) (e : HttpError) (s : S) {u : Unit {0}} {t : S}
      → guard b e s ≡ (ok u, t)
      → (b ≡ true) × (s ≡ t)
  guard-ok true e s h = (refl, cc)
  guard-ok false e s h = absurd (cc)

pub ok-injective : {A : Type 0} {a b : A} → ok a ≡ ok b → a ≡ b
ok-injective h = cc

-- ===== src/Rows.antt =====
-- Searches of a table of the database after its rows were changed, for the components of both
-- servers.
use feature_frontend.Prelude.{
  keep_if, map, ap, ◌≡◌, refl, Bool, true, false, List, [], ◌∷◌, Bool-cases, inl, inr,
}
use feature_frontend.Auth.Database.{first_where, update_where}
use feature_frontend.Prelude.{Option, none, some}

abbrev pub option_map : {A B : Type 0} → (A → B) → Option A → Option B
option_map f none = none
option_map f (some a) = some (f a)

module _ {A : Type 0} (p : A → Bool) (f : A → A) where
  pub first_where-changed :
      ((x : A) → p (f x) ≡ p x)
      → (xs : List A) → first_where p (update_where p f xs) ≡ option_map f (first_where p xs)
  first_where-changed keeps [] = refl
  first_where-changed keeps (x ∷ xs) = elim (Bool-cases (p x)) [
    | inl this ↦ rw this (rw (keeps x, this) refl)
    | inr later ↦ rw later (rw later (first_where-changed keeps xs))
  ]

  pub first_where-unchanged :
      (q : A → Bool)
      → ((x : A) → p (f x) ≡ p x)
      → ((x : A) → q x ≡ true → p x ≡ false)
      → (xs : List A) → first_where p (update_where q f xs) ≡ first_where p xs
  first_where-unchanged q keeps apart [] = refl
  first_where-unchanged q keeps apart (x ∷ xs) = elim (Bool-cases (q x)) [
    | inl changed ↦
        rw changed (rw (keeps x, apart x changed) (first_where-unchanged q keeps apart xs))
    | inr kept ↦ rw kept (rw (first_where-unchanged q keeps apart xs) refl)
  ]

  pub keep_if-changed :
      ((x : A) → p (f x) ≡ p x)
      → (xs : List A) → keep_if p (update_where p f xs) ≡ map f (keep_if p xs)
  keep_if-changed keeps [] = refl
  keep_if-changed keeps (x ∷ xs) = elim (Bool-cases (p x)) [
    | inl this ↦ rw this (rw (keeps x, this) (ap (◌∷◌ (f x)) (keep_if-changed keeps xs)))
    | inr other ↦ rw other (rw other (keep_if-changed keeps xs))
  ]

  pub keep_if-unchanged :
      (q : A → Bool)
      → ((x : A) → p (f x) ≡ p x)
      → ((x : A) → q x ≡ true → p x ≡ false)
      → (xs : List A) → keep_if p (update_where q f xs) ≡ keep_if p xs
  keep_if-unchanged q keeps apart [] = refl
  keep_if-unchanged q keeps apart (x ∷ xs) = elim (Bool-cases (q x)) [
    | inl changed ↦ rw changed (rw (keeps x, apart x changed) (keep_if-unchanged q keeps apart xs))
    | inr kept ↦ rw kept (rw (keep_if-unchanged q keeps apart xs) refl)
  ]

-- ===== src/Auth/Search.antt =====
-- Searches of a table by a column, after some of its rows were changed.
use feature_frontend.Prelude.{
  suc, ◌≡◌, refl, ap, ◌∙◌, sym, Bool, true, false, none, some, List, [], ◌∷◌, arith, Bool-cases,
  inl, inr, ◌≤◌, length, keep_if,
}
use feature_frontend.Auth.Database.{first_where, update_where}

module _ {A : Type 0} (p q : A → Bool) (f : A → A) where
  -- A search finds the same row after a change of it, when the change keeps what is searched for.
  pub first_where-update_where :
      ((x : A) → p (f x) ≡ p x)
      → (xs : List A) (r : A) → first_where p xs ≡ some r
      → q r ≡ true
      → first_where p (update_where q f xs) ≡ some (f r)
  first_where-update_where keeps [] r found chosen = absurd (cc)
  first_where-update_where keeps (x ∷ xs) r found chosen = elim (Bool-cases (p x)) [
    | inl this ↦
        let same : first_where p (x ∷ xs) ≡ some x = rw this in
        let here : x ≡ r = cc in
        let picked : q x ≡ true = ap q here ∙ chosen in
        rw (picked) (rw (keeps x, this) (ap (λ y. some (f y)) here))
    | inr later ↦ elim (Bool-cases (q x)) [
      | inl changed ↦ rw changed (
          rw (keeps x, later)
            (first_where-update_where keeps xs r (sym (rw later refl) ∙ found) chosen))
      | inr kept ↦
          rw kept
            (rw later (first_where-update_where keeps xs r (sym (rw later refl) ∙ found) chosen))
    ]
  ]

  none_left :
      (xs : List A)
      → ((x : A) → p (f x) ≡ false)
      → length (keep_if p xs) ≤ 0
      → first_where p (update_where q f xs) ≡ none
  none_left [] lost few = refl
  none_left (x ∷ xs) lost few = elim (Bool-cases (p x)) [
    | inl this ↦
        let one : 1 ≤ length (keep_if p (x ∷ xs)) = rw this (omega arith) in
        absurd (omega (arith, one, few))
    | inr later ↦
        let same_count : length (keep_if p (x ∷ xs)) ≡ length (keep_if p xs) = rw later in
        let rest : length (keep_if p xs) ≤ 0 = omega (arith, same_count, few) in
        elim (Bool-cases (q x)) [
          | inl changed ↦ rw changed (rw (lost x) (none_left xs lost rest))
          | inr kept ↦ rw kept (rw later (none_left xs lost rest))
        ]
  ]

  -- The only row that a search finds is not found after a change that it does not survive.
  pub first_where-lost :
      (xs : List A) (r : A)
      → ((x : A) → p (f x) ≡ false)
      → length (keep_if p xs) ≤ 1
      → first_where p xs ≡ some r
      → q r ≡ true
      → first_where p (update_where q f xs) ≡ none
  first_where-lost [] r lost few found chosen = refl
  first_where-lost (x ∷ xs) r lost few found chosen = elim (Bool-cases (p x)) [
    | inl this ↦
        let same : first_where p (x ∷ xs) ≡ some x = rw this in
        let here : x ≡ r = cc in
        let picked : q x ≡ true = ap q here ∙ chosen in
        let all_of_them : length (keep_if p (x ∷ xs)) ≡ suc (length (keep_if p xs)) = rw this in
        rw picked (rw (lost x) (none_left xs lost (omega (arith, all_of_them, few))))
    | inr later ↦
        let same_count : length (keep_if p (x ∷ xs)) ≡ length (keep_if p xs) = rw later in
        let rest : length (keep_if p xs) ≤ 1 = omega (arith, same_count, few) in
        let found_later = sym (rw later refl) ∙ found in
        elim (Bool-cases (q x)) [
          | inl changed ↦
              rw changed (rw (lost x) (first_where-lost xs r lost rest found_later chosen))
          | inr kept ↦ rw kept (rw later (first_where-lost xs r lost rest found_later chosen))
        ]
  ]

module _ {A : Type 0} (p : A → Bool) where
  pub first_where-passes : (xs : List A) (r : A) → first_where p xs ≡ some r → p r ≡ true
  first_where-passes [] r found = absurd (cc)
  first_where-passes (x ∷ xs) r found = elim (Bool-cases (p x)) [
    | inl this ↦
        let same : first_where p (x ∷ xs) ≡ some x = rw this in
        let here : x ≡ r = cc in ap p (sym here) ∙ this
    | inr later ↦ first_where-passes xs r (sym (rw later refl) ∙ found)
  ]

  none_kept :
      (kept : A → Bool) (xs : List A)
      → length (keep_if p xs) ≤ 0
      → first_where p (keep_if kept xs) ≡ none
  none_kept kept [] few = refl
  none_kept kept (x ∷ xs) few = elim (Bool-cases (p x)) [
    | inl this ↦
        let one : 1 ≤ length (keep_if p (x ∷ xs)) = rw this (omega arith) in
        absurd (omega (arith, one, few))
    | inr later ↦
        let same_count : length (keep_if p (x ∷ xs)) ≡ length (keep_if p xs) = rw later in
        let rest = none_kept kept xs (omega (arith, same_count, few)) in
        elim (Bool-cases (kept x)) [
          | inl stays ↦ rw stays (rw later rest)
          | inr goes ↦ rw goes rest
        ]
  ]

  -- The only row that a search finds is not found among the rows that are kept, when it is not.
  pub first_where-deleted :
      (kept : A → Bool) (xs : List A) (r : A)
      → length (keep_if p xs) ≤ 1
      → first_where p xs ≡ some r
      → kept r ≡ false
      → first_where p (keep_if kept xs) ≡ none
  first_where-deleted kept [] r few found gone = refl
  first_where-deleted kept (x ∷ xs) r few found gone = elim (Bool-cases (p x)) [
    | inl this ↦
        let same : first_where p (x ∷ xs) ≡ some x = rw this in
        let here : x ≡ r = cc in
        let dropped : kept x ≡ false = ap kept here ∙ gone in
        let all_of_them : length (keep_if p (x ∷ xs)) ≡ suc (length (keep_if p xs)) = rw this in
        rw dropped (none_kept kept xs (omega (arith, all_of_them, few)))
    | inr later ↦
        let same_count : length (keep_if p (x ∷ xs)) ≡ length (keep_if p xs) = rw later in
        let rest =
          first_where-deleted kept xs r (omega (arith, same_count, few))
            (sym (rw later refl) ∙ found) gone in
        elim (Bool-cases (kept x)) [
          | inl stays ↦ rw stays (rw later rest)
          | inr goes ↦ rw goes rest
        ]
  ]

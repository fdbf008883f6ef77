-- ===== src/Context/Cap.antt =====
-- app/context/engine.py: the loop that keeps the messages under the hard cap.
use feature_frontend.Prelude.{
  ℕ, ◌+◌, ◌≤◌, ◌<◌, ◌≡◌, ◌⊎◌, refl, ap, sym, ◌∙◌, true, List, [], ◌∷◌, ◌++◌, ltb, Bool-cases, inl,
  inr, arith,
}
use feature_frontend.Context.Compactor.{RankedCandidate}
use feature_frontend.Context.Selection.{reverse, drop_over}
use feature_frontend.Context.Budget.{total_tokens, ltb-false}

append_nil : (xs : List RankedCandidate) → xs ++ [] ≡ xs
append_nil [] = refl
append_nil (x ∷ xs) = ap (λ rest. x ∷ rest) (append_nil xs)

append_assoc : (xs ys zs : List RankedCandidate) → (xs ++ ys) ++ zs ≡ xs ++ (ys ++ zs)
append_assoc [] ys zs = refl
append_assoc (x ∷ xs) ys zs = ap (λ rest. x ∷ rest) (append_assoc xs ys zs)

reverse-append : (xs ys : List RankedCandidate) → reverse (xs ++ ys) ≡ reverse ys ++ reverse xs
reverse-append [] ys = sym (append_nil (reverse ys))
reverse-append (x ∷ xs) ys =
    ap (λ rest. rest ++ x ∷ []) (reverse-append xs ys)
    ∙ append_assoc (reverse ys) (reverse xs) (x ∷ [])

reverse-reverse : (xs : List RankedCandidate) → reverse (reverse xs) ≡ xs
reverse-reverse [] = refl
reverse-reverse (x ∷ xs) =
    reverse-append (reverse xs) (x ∷ []) ∙ ap (λ rest. x ∷ rest) (reverse-reverse xs)

ltb-true : (a b : ℕ) → ltb a b ≡ true → a < b
ltb-true a b h = ground arith

module _ (count : List RankedCandidate → ℕ) (hard_cap : ℕ) where
  fits_or_empty :
      (backwards dropped : List RankedCandidate) (clipped : ℕ)
      → (count (drop_over count hard_cap backwards dropped clipped).kept ≤ hard_cap)
        ⊎ ((drop_over count hard_cap backwards dropped clipped).kept ≡ [])
  unfolding drop_over
  fits_or_empty [] dropped clipped = inr refl
  fits_or_empty (r ∷ rs) dropped clipped =
      elim (Bool-cases (ltb hard_cap (count (reverse (r ∷ rs))))) [
        | inl over ↦ rw over (fits_or_empty rs (dropped ++ r ∷ []) (clipped + r.tokens))
        | inr under ↦ rw under (inl (ltb-false hard_cap _ under))
      ]

  -- What is dropped goes after what was dropped before, the last candidate first.
  keeps_all :
      (backwards dropped : List RankedCandidate) (clipped : ℕ)
      → (gone : List RankedCandidate) × ((drop_over count hard_cap backwards dropped
            clipped).dropped
          ≡ dropped ++ gone)
        × (reverse backwards
            ≡ (drop_over count hard_cap backwards dropped clipped).kept ++ reverse gone)
        × ((drop_over count hard_cap backwards dropped clipped).clipped
            ≡ clipped + total_tokens gone)
  unfolding drop_over
  keeps_all [] dropped clipped = ([], sym (append_nil dropped), refl, omega arith)
  keeps_all (r ∷ rs) dropped clipped = elim (Bool-cases (ltb hard_cap (count (reverse (r ∷ rs))))) [
    | inl over ↦
        let (gone, after, split, total) = keeps_all rs (dropped ++ r ∷ []) (clipped + r.tokens) in
        rw over (
          r ∷ gone,
          after ∙ append_assoc dropped (r ∷ []) gone,
          ap (λ xs. xs ++ r ∷ []) split ∙ append_assoc _ (reverse gone) (r ∷ []),
          omega (arith, total),
        )
    | inr under ↦ rw under ([], sym (append_nil dropped), sym (append_nil _), omega arith)
  ]

  -- Nothing was dropped, or the messages had too many tokens with the last one that was.
  dropped_for_cause :
      (backwards dropped : List RankedCandidate) (clipped : ℕ)
      → let t = drop_over count hard_cap backwards dropped clipped in
        ((t.dropped ≡ dropped) × (t.kept ≡ reverse backwards))
        ⊎ ((earlier : List RankedCandidate) × (last : RankedCandidate) × (t.dropped
              ≡ earlier ++ last ∷ [])
            × (hard_cap < count (t.kept ++ last ∷ [])))
  unfolding drop_over
  dropped_for_cause [] dropped clipped = inl (refl, refl)
  dropped_for_cause (r ∷ rs) dropped clipped =
      elim (Bool-cases (ltb hard_cap (count (reverse (r ∷ rs))))) [
        | inl over ↦ rw over (elim (dropped_for_cause rs (dropped ++ r ∷ []) (clipped + r.tokens)) [
          | inl (same, all_kept) ↦ inr (dropped, r, same, rw all_kept (ltb-true hard_cap _ over))
          | inr more ↦ inr more
        ])
        | inr under ↦ rw under (inl (refl, refl))
      ]

  -- The loop under the hard cap ends, and splits the selected candidates: those that are kept stand
  -- in front, and those that are dropped follow, which were taken from the end one by one. The
  -- messages then have no more tokens than the cap, or no candidate is kept; and none is dropped
  -- that the cap did not demand: with the last one dropped there were too many tokens. The tokens
  -- dropped are counted as clipped.
  pub drop_over-splits :
      (selected : List RankedCandidate) (clipped : ℕ)
      → let t = drop_over count hard_cap (reverse selected) [] clipped in
        (selected ≡ t.kept ++ reverse t.dropped)
        × ((count t.kept ≤ hard_cap) ⊎ (t.kept ≡ []))
        × ((t.dropped ≡ [])
            ⊎ ((earlier : List RankedCandidate) × (last : RankedCandidate) × (t.dropped
                  ≡ earlier ++ last ∷ [])
                × (hard_cap < count (t.kept ++ last ∷ []))))
        × (t.clipped ≡ clipped + total_tokens t.dropped)
  drop_over-splits selected clipped =
      let (gone, same, split, total) = keeps_all (reverse selected) [] clipped in
      (
        sym (reverse-reverse selected)
            ∙ split
            ∙ ap (λ xs. (drop_over count hard_cap (reverse selected) [] clipped).kept ++ reverse xs)
                (sym same),
        fits_or_empty (reverse selected) [] clipped,
        elim (dropped_for_cause (reverse selected) [] clipped) [
          | inl (nothing, _) ↦ inl nothing
          | inr more ↦ inr more
        ],
        total ∙ ap (λ xs. clipped + total_tokens xs) (sym same),
      )

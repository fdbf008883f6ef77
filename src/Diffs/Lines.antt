-- ===== src/Diffs/Lines.antt =====
-- Lines that are joined by newlines are read back by `splitlines`.
use feature_frontend.Prelude.{
  ℕ, ◌≡◌, refl, ap, ◌∙◌, Bool, true, false, not, ◌&&◌, List, [], ◌∷◌, ◌++◌, arith, All, all, ◌==◌,
}
use feature_frontend.Prelude.Text.{Text, is_line_break, cons_line, splitlines, ends_with_newline}

-- No character of the line ends a line.
abbrev pub Unbroken : Text → Type 0
Unbroken l = all (λ c. not (is_line_break c)) l ≡ true

-- A text of whole lines.
abbrev pub unlines : List Text → Text
unlines [] = []
unlines (l ∷ ls) = l ++ 10 ∷ unlines ls

not_return : (c : ℕ) → is_line_break c ≡ false → (c == 13) ≡ false
unfolding is_line_break
not_return c h = ground arith

splitlines-newline : (s : Text) → splitlines (10 ∷ s) ≡ [] ∷ splitlines s
unfolding splitlines is_line_break
splitlines-newline [] = refl
splitlines-newline (c ∷ s) = refl

splitlines-plain :
    (c d : ℕ) (s : Text)
    → is_line_break c ≡ false
    → splitlines (c ∷ d ∷ s) ≡ cons_line c (splitlines (d ∷ s))
unfolding splitlines
splitlines-plain c d s h = rw (not_return c h, h)

plain : (b : Bool) (r : Bool) → (not b && r) ≡ true → b ≡ false
plain b r h = ground arith

later : (b : Bool) (r : Bool) → (not b && r) ≡ true → r ≡ true
later b r h = ground arith

splitlines-line : (l s : Text) → Unbroken l → splitlines (l ++ 10 ∷ s) ≡ l ∷ splitlines s
splitlines-line [] s h = splitlines-newline s
splitlines-line (c ∷ []) s h =
    splitlines-plain c 10 s (plain _ _ h) ∙ ap (cons_line c) (splitlines-newline s)
splitlines-line (c ∷ d ∷ l) s h =
    splitlines-plain c d (l ++ 10 ∷ s) (plain _ _ h)
    ∙ ap (cons_line c) (splitlines-line (d ∷ l) s (later (is_line_break c) _ h))

pub splitlines-unlines : (ls : List Text) → All Unbroken ls → splitlines (unlines ls) ≡ ls
unfolding splitlines
splitlines-unlines [] h = refl
splitlines-unlines (l ∷ ls) (h, hs) =
    splitlines-line l (unlines ls) h ∙ ap (◌∷◌ l) (splitlines-unlines ls hs)

ends-append : (l s : Text) → ends_with_newline (l ++ 10 ∷ s) ≡ ends_with_newline (10 ∷ s)
ends-append [] s = refl
ends-append (c ∷ []) s = refl
ends-append (c ∷ d ∷ l) s = ends-append (d ∷ l) s

pub ends_with_newline-unlines :
    (l : Text) (ls : List Text) → ends_with_newline (unlines (l ∷ ls)) ≡ true
ends_with_newline-unlines l [] = ends-append l []
ends_with_newline-unlines l ([] ∷ ls) =
    ends-append l (unlines ([] ∷ ls)) ∙ ends_with_newline-unlines [] ls
ends_with_newline-unlines l ((c ∷ m) ∷ ls) =
    ends-append l (unlines ((c ∷ m) ∷ ls)) ∙ ends_with_newline-unlines (c ∷ m) ls

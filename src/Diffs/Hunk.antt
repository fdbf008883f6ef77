-- ===== src/Diffs/Hunk.antt =====
-- app/core/diffs.py: `HUNK_RE`, and the number that the program reads from its match.
use feature_frontend.Prelude.{ℕ, ◌+◌, ◌*◌, Option, none, some, List, [], ◌∷◌, if◌then◌else◌}
use feature_frontend.Prelude.{◌==◌, ltb, drop, drop_while, length}
use feature_frontend.Prelude.Text.{Text, codes, starts_with, is_space, digit_value}

infixl 5 ◌>>=◌
abbrev ◌>>=◌ {ℓ κ} : {A : Type ℓ} {B : Type κ} → Option A → (A → Option B) → Option B
none >>= f = none
some a >>= f = f a

-- `\s*`
abbrev pub skip_spaces : Text → Text
skip_spaces = drop_while is_space

-- `\s+`
abbrev pub some_spaces : Text → Option Text
some_spaces [] = none
some_spaces (c ∷ s) = if is_space c then some (skip_spaces s) else none

-- a literal of the pattern
abbrev pub lit : Text → Text → Option Text
lit p s = if starts_with p s then some (drop (length p) s) else none

-- `\d*`: the values of the leading digits, and what follows them.
unfoldable pub span_digits : Text → List ℕ × Text
span_digits [] = ([], [])
span_digits (c ∷ s) =
    let rest = span_digits s in
    elim (digit_value c) [ none ↦ ([], c ∷ s) | some d ↦ (d ∷ rest.0, rest.1) ]

-- `\d+`
abbrev pub nonempty : List ℕ × Text → Option (List ℕ × Text)
nonempty ([], s) = none
nonempty (d ∷ ds, s) = some (d ∷ ds, s)

abbrev pub digits : Text → Option (List ℕ × Text)
digits s = nonempty (span_digits s)

-- `(?:,(\d+))?`: a comma with no digit behind it is left where it is.
abbrev pub after_comma : Text → Option (List ℕ × Text) → Text
after_comma s none = s
after_comma s (some (ds, rest)) = rest

abbrev pub skip_length : Text → Text
skip_length [] = []
skip_length (c ∷ s) = if c == b',' then after_comma (c ∷ s) (digits s) else c ∷ s

-- `HUNK_RE.match`: the digits of the group `old_start`. No part of the pattern can give back what
-- it has taken and match more, so the leftmost greedy choice decides.
unfoldable pub match_hunk : Text → Option (List ℕ)
unfolding span_digits digit_value is_space
match_hunk line = do
  s ← lit (codes "@@") line
  s ← lit (codes "-") (skip_spaces s)
  (old_start, s) ← digits s
  s ← some_spaces (skip_length s)
  s ← lit (codes "+") s
  (new_start, s) ← digits s
  s ← lit (codes "@@") (skip_spaces (skip_length s))
  some old_start

-- The most digits that `int` reads.
abbrev pub int_max_str_digits : ℕ
int_max_str_digits = 4300

pub number_from : ℕ → List ℕ → ℕ
number_from n [] = n
number_from n (d ∷ ds) = number_from (n * 10 + d) ds

-- `int(digits)`; `none` is its ValueError.
unfoldable pub int_of : List ℕ → Option ℕ
unfolding number_from
int_of ds = if ltb int_max_str_digits (length ds) then none else some (number_from 0 ds)

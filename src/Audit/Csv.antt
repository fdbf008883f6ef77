-- ===== src/Audit/Csv.antt =====
-- A reader of comma-separated values, with quotes as RFC 4180 has them and rows that a carriage
-- return, a line feed or both end, and what `_escape_csv_field` of backend/admin/services.py
-- writes for it.
use feature_frontend.Prelude.{
  ℕ, Bool, true, not, any, ◌||◌, ◌≤◌, length, All, ◌≡◌, refl, ap, ◌∙◌, false, List, [], ◌∷◌, ◌++◌,
  ◌==◌, map, arith, Bool-cases, inl, inr, if◌then◌else◌,
}
use mathlib.Core.List.{append_assoc}
use feature_frontend.Prelude.Text.{Text}
use feature_frontend.Audit.Log.{
  needs_quotes, double_quotes, escape_csv_field, join_commas, csv_line,
}

-- What ends a field, and so stands before the next one.
pub data Separator : Type 0 where
  comma newline : Separator

pub data Position : Type 0 where
  fresh : Separator → Position
  after_return unquoted quoted quote_seen : Position

-- The first field of the first row grows by a character.
abbrev cons_char : ℕ → List (List Text) → List (List Text)
cons_char c [] = ((c ∷ []) ∷ []) ∷ []
cons_char c ([] ∷ rows) = ((c ∷ []) ∷ []) ∷ rows
cons_char c ((f ∷ fs) ∷ rows) = ((c ∷ f) ∷ fs) ∷ rows

abbrev close : Separator → List (List Text) → List (List Text)
close comma [] = ([] ∷ []) ∷ []
close comma (row ∷ rows) = ([] ∷ row) ∷ rows
close newline rows = ([] ∷ []) ∷ rows

pub data Step : Type 0 where
  keeps skips : Position → Step
  closes : Separator → Step
  returns : Step

abbrev outside_quotes : ℕ → Step → Step
outside_quotes c other =
    if c == 44
    then closes comma
    else (if c == 10 then closes newline else (if c == 13 then returns else other))

abbrev step : Position → ℕ → Step
step (fresh s) c = outside_quotes c (if c == 34 then skips quoted else keeps unquoted)
step after_return c =
    if c == 10
    then skips (fresh newline)
    else outside_quotes c (if c == 34 then skips quoted else keeps unquoted)
step unquoted c = outside_quotes c (keeps unquoted)
step quoted c = if c == 34 then skips quote_seen else keeps quoted
step quote_seen c = outside_quotes c (if c == 34 then keeps quoted else keeps unquoted)

abbrev after : Step → Position
after (keeps p) = p
after (skips p) = p
after (closes s) = fresh s
after returns = after_return

abbrev taken : Step → ℕ → List (List Text) → List (List Text)
taken (keeps p) c rows = cons_char c rows
taken (skips p) c rows = rows
taken (closes s) c rows = close s rows
taken returns c rows = close newline rows

-- At the end of the text a row that was begun ends.
abbrev at_end : Position → List (List Text)
at_end (fresh newline) = []
at_end after_return = []
at_end _ = ([] ∷ []) ∷ []

abbrev read_from : Position → Text → List (List Text)
read_from p [] = at_end p
read_from p (c ∷ s) = taken (step p c) c (read_from (after (step p c)) s)

-- The rows of a text, each the list of its fields.
unfoldable pub read_csv : Text → List (List Text)
read_csv s = read_from (fresh newline) s

abbrev code_of : Separator → ℕ
code_of comma = 44
code_of newline = 10

abbrev prepend : Text → List (List Text) → List (List Text)
prepend [] rows = rows
prepend (c ∷ s) rows = cons_char c (prepend s rows)

prepend-empty :
    (s : Text) (fs : List Text) (rows : List (List Text))
    → prepend s (([] ∷ fs) ∷ rows) ≡ (s ∷ fs) ∷ rows
prepend-empty [] fs rows = refl
prepend-empty (c ∷ s) fs rows = ap (cons_char c) (prepend-empty s fs rows)

-- The text after a field, which the separator ends.
abbrev rest_of : Separator → Text → List (List Text)
rest_of s t = close s (read_from (fresh s) t)

read_unquoted-end : (s : Separator) (t : Text) → read_from unquoted (code_of s ∷ t) ≡ rest_of s t
read_unquoted-end comma t = refl
read_unquoted-end newline t = refl

read_unquoted :
    (v : Text) (s : Separator) (t : Text)
    → needs_quotes v ≡ false
    → any (λ c. c == 13) v ≡ false
    → read_from unquoted (v ++ code_of s ∷ t) ≡ prepend v (rest_of s t)
read_unquoted [] s t h k = read_unquoted-end s t
read_unquoted (c ∷ v) s t h k =
    let comma_free : (c == 44) ≡ false = ground arith in
    let newline_free : (c == 10) ≡ false = ground arith in
    let return_free : (c == 13) ≡ false = ground arith in
    let rest_free : needs_quotes v ≡ false = ground arith in
    let no_return : any (λ c. c == 13) v ≡ false = ground arith in
    rw (comma_free, newline_free, return_free)
      (ap (cons_char c) (read_unquoted v s t rest_free no_return))

read_quoted :
    (v : Text) (s : Separator) (t : Text)
    → read_from quoted (double_quotes v ++ 34 ∷ code_of s ∷ t) ≡ prepend v (rest_of s t)
read_quoted [] comma t = refl
read_quoted [] newline t = refl
read_quoted (c ∷ v) s t = elim (Bool-cases (c == 34)) [
  | inl quote ↦ let same : c ≡ 34 = ground arith in rw same (ap (cons_char 34) (read_quoted v s t))
  | inr other ↦ rw other (rw other (ap (cons_char c) (read_quoted v s t)))
]

read_fresh-end : (p s : Separator) (t : Text) → read_from (fresh p) (code_of s ∷ t) ≡ rest_of s t
read_fresh-end p comma t = refl
read_fresh-end p newline t = refl

read_fresh :
    (p s : Separator) (v t : Text)
    → needs_quotes v ≡ false
    → any (λ c. c == 13) v ≡ false
    → read_from (fresh p) (v ++ code_of s ∷ t) ≡ prepend v (rest_of s t)
read_fresh p s [] t h k = read_fresh-end p s t
read_fresh p s (c ∷ v) t h k =
    let comma_free : (c == 44) ≡ false = ground arith in
    let newline_free : (c == 10) ≡ false = ground arith in
    let quote_free : (c == 34) ≡ false = ground arith in
    let return_free : (c == 13) ≡ false = ground arith in
    let rest_free : needs_quotes v ≡ false = ground arith in
    let no_return : any (λ c. c == 13) v ≡ false = ground arith in
    rw (comma_free, newline_free, return_free, quote_free)
      (ap (cons_char c) (read_unquoted v s t rest_free no_return))

-- A value with a carriage return is written in quotes, for something else that it has.
abbrev pub returns_quoted : Text → Bool
returns_quoted v = not (any (λ c. c == 13) v) || needs_quotes v

abbrev pub IsSafe : Text → Type 0
IsSafe v = returns_quoted v ≡ true

-- A field that was written is read as it was.
read_field :
    (p s : Separator) (v t : Text)
    → IsSafe v
    → read_from (fresh p) (escape_csv_field v ++ code_of s ∷ t) ≡ prepend v (rest_of s t)
unfolding escape_csv_field
read_field p s v t safe = elim (Bool-cases (needs_quotes v)) [
  | inl quotes ↦ rw quotes (
      ap (read_from quoted) (append_assoc (double_quotes v) (34 ∷ []) (code_of s ∷ t))
      ∙ read_quoted v s t)
  | inr free ↦
      let no_return : any (λ c. c == 13) v ≡ false = ground arith in
      rw free (read_fresh p s v t free no_return)
]

-- A line that was written is read as its fields.
read_row :
    (p : Separator) (f : Text) (fs : List Text) (t : Text)
    → IsSafe f
    → All IsSafe fs
    → read_from (fresh p) (join_commas (map escape_csv_field (f ∷ fs)) ++ 10 ∷ t)
      ≡ (f ∷ fs) ∷ read_from (fresh newline) t
read_row p f [] t safe others =
    read_field p newline f t safe ∙ prepend-empty f [] (read_from (fresh newline) t)
read_row p f (g ∷ fs) t safe (next, others) =
    ap (read_from (fresh p)) (
      append_assoc (escape_csv_field f) (44 ∷ join_commas (map escape_csv_field (g ∷ fs))) (10 ∷ t))
    ∙ read_field p comma f (join_commas (map escape_csv_field (g ∷ fs)) ++ 10 ∷ t) safe
    ∙ ap (λ rows. prepend f (close comma rows)) (read_row comma g fs t next others)
    ∙ prepend-empty f (g ∷ fs) (read_from (fresh newline) t)

-- A row of at least one field, whose values are safe.
abbrev pub IsRow : List Text → Type 0
IsRow row = (1 ≤ length row) × All IsSafe row

abbrev pub concat_texts : List Text → Text
concat_texts [] = []
concat_texts (s ∷ ss) = s ++ concat_texts ss

line_before :
    (row : List Text) (t : Text)
    → IsRow row
    → read_from (fresh newline) (csv_line row ++ t) ≡ row ∷ read_from (fresh newline) t
line_before [] t (some_field, safe) = absurd (omega (arith, some_field))
line_before (f ∷ fs) t (some_field, (safe, others)) =
    ap (read_from (fresh newline))
      (append_assoc (join_commas (map escape_csv_field (f ∷ fs))) (10 ∷ []) t)
    ∙ read_row newline f fs t safe others

-- Rows that are written one after the other are read as they were.
pub read_csv-csv_line :
    (rows : List (List Text)) → All IsRow rows → read_csv (concat_texts (map csv_line rows)) ≡ rows
unfolding read_csv
read_csv-csv_line [] h = refl
read_csv-csv_line (row ∷ rows) (h, hs) =
    line_before row (concat_texts (map csv_line rows)) h
    ∙ ap (λ rest. row ∷ rest) (read_csv-csv_line rows hs)

-- ===== src/Diffs/Render.antt =====
-- What a unified diff of one file means, and how it is written: the specification that the reader
-- of app/core/diffs.py is held to.
use feature_frontend.Prelude.{ℕ, suc, ◌+◌, ◌≡◌, true, false, some, List, [], ◌∷◌, ◌++◌, map, length}
use feature_frontend.Prelude.Text.{Text, codes, strip, text_eq}
use feature_frontend.Diffs.Rebuild.{is_range}
use feature_frontend.Diffs.Hunk.{match_hunk, int_of}

-- A line of the source that stays, one that goes, or one that comes in.
pub data Edit : Type 0 where
  keep delete insert : Text → Edit

-- Source lines that no hunk shows, the range line, and the edits behind it.
pub record Hunk : Type 0 where
  pub gap : List Text
  pub range : Text
  pub edits : List Edit

-- The source lines that the edits are about, and the lines that they leave.
abbrev pub old_lines : List Edit → List Text
old_lines [] = []
old_lines (keep x ∷ es) = x ∷ old_lines es
old_lines (delete x ∷ es) = x ∷ old_lines es
old_lines (insert x ∷ es) = old_lines es

abbrev pub new_lines : List Edit → List Text
new_lines [] = []
new_lines (keep x ∷ es) = x ∷ new_lines es
new_lines (delete x ∷ es) = new_lines es
new_lines (insert x ∷ es) = x ∷ new_lines es

-- The file before and after the hunks, with the lines behind the last of them.
abbrev pub before : List Hunk → List Text → List Text
before [] tail = tail
before (h ∷ hs) tail = h.gap ++ (old_lines h.edits ++ before hs tail)

abbrev pub after : List Hunk → List Text → List Text
after [] tail = tail
after (h ∷ hs) tail = h.gap ++ (new_lines h.edits ++ after hs tail)

abbrev pub render_edit : Edit → Text
render_edit (keep x) = b' ' ∷ x
render_edit (delete x) = b'-' ∷ x
render_edit (insert x) = b'+' ∷ x

abbrev pub render : List Hunk → List Text
render [] = []
render (h ∷ hs) = h.range ∷ (map render_edit h.edits ++ render hs)

-- A range line that `HUNK_RE` reads, and whose old range begins at the given number of lines.
pub record IsRangeAt (start : ℕ) (line : Text) : Type 0 where
  pub opens : is_range line ≡ true
  pub ranged : text_eq (strip line) (codes "@@") ≡ false
  pub digits : List ℕ
  pub matched : match_hunk line ≡ some digits
  pub value : int_of digits ≡ some (suc start)

-- Every range line says where its hunk stands.
abbrev pub Placed : ℕ → List Hunk → Type 0
Placed position [] = Unit
Placed position (h ∷ hs) =
    IsRangeAt (position + length h.gap) h.range
    × Placed (position + length h.gap + length (old_lines h.edits)) hs

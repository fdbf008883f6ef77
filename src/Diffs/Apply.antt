-- ===== src/Diffs/Apply.antt =====
-- app/core/diffs.py: `_collect_new_lines`, `apply_unified_diff` and `_sanitize_write_path`.
-- A file tree is a function from the paths below `base_path` to what stands there. The caller
-- collects all results before it writes the first, so every read is of the same tree.
use feature_frontend.Prelude.{Bool, true, false, not, ◌||◌, Option, none, some, List, [], ◌∷◌, ◌++◌}
use feature_frontend.Prelude.{if◌then◌else◌, drop, take_while}
use feature_frontend.Prelude.Int.{pos, slice_from}
use feature_frontend.Prelude.Text.{
  Text, codes, starts_with, strip, splitlines, join_lines, ends_with_newline,
}
use feature_frontend.Diffs.Header.{
  Marker, full, patch, DiffHeader, parse_diff_headers, split_marker,
}
use feature_frontend.Diffs.Rebuild.{Rebuild, is_range, hunk_loop}

pub data Node : Type 0 where
  missing directory : Node
  file : Text → Node

abbrev pub Tree : Type 0
Tree = Text → Node

-- The lines that the diff gives when it is read as a whole file.
unfoldable pub collect_new_lines : List Text → List Text
collect_new_lines [] = []
collect_new_lines (line ∷ rest) =
    let more = collect_new_lines rest in
    if starts_with (codes "+") line || starts_with (codes " ") line
    then drop 1 line ∷ more
    else if starts_with (codes "\\") line
    then more
    else if not (starts_with (codes "-") line)
    then (if is_range line then more else line ∷ more)
    else more

abbrev pub is_empty {ℓ} : {A : Type ℓ} → List A → Bool
is_empty [] = true
is_empty (x ∷ xs) = false

-- `header.new_path or header.old_path`: an empty path is no path.
abbrev pub path_or : Option Text → Option Text → Option Text
path_or none other = other
path_or (some []) other = other
path_or (some (c ∷ path)) other = some (c ∷ path)

abbrev pub text_of : Node → Text
text_of missing = []
text_of directory = []
text_of (file content) = content

-- The text that the hunks are applied to.
unfoldable pub original_content : Tree → Option Text → Text
original_content tree none = []
original_content tree (some []) = []
original_content tree (some (c ∷ path)) = text_of (tree (c ∷ path))

abbrev pub is_full : Marker → Bool
is_full full = true
is_full patch = false

abbrev pub is_given {ℓ} : {A : Type ℓ} → Option A → Bool
is_given none = false
is_given (some a) = true

-- `use_full_fallback`
abbrev pub takes_whole : Rebuild → Bool
takes_whole r = is_full r.effective_mode || not r.handled_hunk || is_given r.fallback_reason

abbrev pub newline : Text
newline = 10 ∷ []

-- The text of a file that is taken whole.
unfoldable pub whole_content : Bool → List Text → Text
whole_content ends [] = if ends then newline else []
whole_content ends (l ∷ ls) = if ends then join_lines (l ∷ ls) ++ newline else join_lines (l ∷ ls)

unfoldable pub new_content : Text → Bool → List Text → Rebuild → Text
unfolding whole_content collect_new_lines
new_content original trailing chunk r =
    let ends = trailing || ends_with_newline original in
    if takes_whole r
    then whole_content ends
        (collect_new_lines (if is_empty r.fallback_lines then chunk else r.fallback_lines))
    else (let rebuilt = join_lines (r.rebuilt ++ slice_from (splitlines original) r.cursor) in
        if ends then rebuilt ++ newline else rebuilt)

abbrev pub initial : DiffHeader → Rebuild
initial header = record {
  rebuilt = [];
  cursor = pos 0;
  handled_hunk = false;
  fallback_reason = header.reason;
  fallback_lines = [];
  effective_mode = header.diff_mode;
}

unfoldable pub patch_file : Tree → Bool → DiffHeader → List Text → Text
patch_file tree trailing header chunk =
    let original = original_content tree header.old_path in
    new_content original trailing chunk
      (hunk_loop (splitlines original) chunk chunk (initial header))

abbrev pub is_directory : Node → Bool
is_directory directory = true
is_directory _ = false

-- One file of the diff: nothing when the path is blank or names a directory.
unfoldable pub apply_file : Tree → Bool → DiffHeader → List Text → List (Text × Text)
apply_file tree trailing header chunk = elim (path_or header.new_path header.old_path) [
  | none ↦ []
  | some target ↦
      if is_empty (strip target) || is_directory (tree target)
      then []
      else (target, patch_file tree trailing header chunk) ∷ []
]

-- The lines of a file's part: up to the next old path.
abbrev pub chunk_of : List Text → List Text
chunk_of = take_while (λ line. not (starts_with (codes "--- ") line))

-- The loop over the lines of the diff. The lines of a part that has been read do not begin with
-- `--- `, so the test passes over them.
unfoldable pub apply_lines : Tree → Bool → List Text → List (Text × Text)
apply_lines tree trailing [] = []
apply_lines tree trailing (line ∷ rest) =
    let later = apply_lines tree trailing rest in
    if starts_with (codes "--- ") line
    then (let (header, behind) = parse_diff_headers line rest in
        apply_file tree trailing header (chunk_of behind) ++ later)
    else later

unfoldable pub apply_unified_diff : Tree → Text → List (Text × Text)
apply_unified_diff tree diff_text =
    apply_lines tree (ends_with_newline diff_text) (splitlines diff_text)

-- The path that `safe_write` writes: a marker that is left on it is taken off.
abbrev base_path : Text → Option Text → Text
base_path raw none = raw
base_path raw (some base) = base

unfoldable pub sanitize_write_path : Text → Text
unfolding split_marker
sanitize_write_path raw = base_path raw (split_marker raw).0

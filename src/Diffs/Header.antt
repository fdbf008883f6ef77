-- ===== src/Diffs/Header.antt =====
-- app/core/diffs.py: `_parse_diff_path` and `_parse_diff_headers`.
use feature_frontend.Prelude.{◌||◌, Option, none, some, List, [], ◌∷◌, if◌then◌else◌}
use feature_frontend.Prelude.{drop}
use feature_frontend.Prelude.Text.{Text, codes, text_eq, starts_with, strip}

-- The two markers, which are the two modes as well.
pub data Marker : Type 0 where
  full patch : Marker

pub data HeaderState : Type 0 where
  incomplete valid : HeaderState

-- Why a file is taken whole from its diff.
pub data Reason : Type 0 where
  missing_new_header missing_ranges invalid_hunk hunk_parse_error : Reason

pub record DiffHeader : Type 0 where
  pub old_path : Option Text
  pub new_path : Option Text
  pub diff_mode : Marker
  pub header_state : HeaderState
  pub marker : Option Marker
  pub old_raw : Text
  pub new_raw : Text
  pub reason : Option Reason

-- `s.rsplit("::", 1)`: what stands before and behind the last "::".
unfoldable pub rsplit_marker : Text → Option (Text × Text)
rsplit_marker [] = none
rsplit_marker (c ∷ s) = elim (rsplit_marker s) [
  | some (base, candidate) ↦ some (c ∷ base, candidate)
  | none ↦ if starts_with (codes "::") (c ∷ s) then some ([], drop 2 (c ∷ s)) else none
]

-- `candidate in {MARKER_FULL, MARKER_PATCH}`
unfoldable pub marker_of : Text → Option Marker
marker_of candidate =
    if text_eq candidate (codes "FULL")
    then some full
    else if text_eq candidate (codes "PATCH")
    then some patch
    else none

-- The path without its side prefix.
unfoldable pub strip_side : Text → Text
strip_side raw =
    if starts_with (codes "a/") raw || starts_with (codes "b/") raw then drop 2 raw else raw

abbrev marked : Text → Text → Text → Option Marker → Option Text × Option Marker
marked path base candidate none = (some path, none)
marked path base candidate (some m) = (some base, some m)

unfoldable pub split_marker : Text → Option Text × Option Marker
unfolding rsplit_marker marker_of
split_marker path = elim (rsplit_marker path) [
  | none ↦ (some path, none)
  | some (base, candidate) ↦ marked path base candidate (marker_of candidate)
]

unfoldable pub parse_diff_path : Text → Option Text × Option Marker
unfolding strip_side split_marker
parse_diff_path raw =
    if text_eq raw (codes "/dev/null") then (none, none) else split_marker (strip_side raw)

-- `a or b`
abbrev pub or_else {ℓ} : {A : Type ℓ} → Option A → Option A → Option A
or_else none b = b
or_else (some a) b = some a

-- `MARKER_FULL if marker == MARKER_FULL else MARKER_PATCH`
abbrev mode_of : Option Marker → Marker
mode_of (some full) = full
mode_of _ = patch

abbrev pub old_raw_of : Text → Text
old_raw_of line = if starts_with (codes "--- ") line then strip (drop 4 line) else strip line

complete : Text → Text → DiffHeader
complete old_raw new_raw =
    let (old_path, old_marker) = parse_diff_path old_raw in
    let (new_path, new_marker) = parse_diff_path new_raw in
    record {
      old_path = old_path;
      new_path = new_path;
      diff_mode = mode_of (or_else new_marker old_marker);
      header_state = valid;
      marker = or_else new_marker old_marker;
      old_raw = old_raw;
      new_raw = new_raw;
      reason = none;
    }

-- With no second line the first path stands for both, and the mode is FULL.
without_new : Text → DiffHeader
without_new old_raw =
    let (path, marker) = parse_diff_path old_raw in
    record {
      old_path = path;
      new_path = path;
      diff_mode = full;
      header_state = incomplete;
      marker = or_else marker marker;
      old_raw = old_raw;
      new_raw = old_raw;
      reason = some missing_new_header;
    }

-- The header that begins with the given line, and the lines behind it.
unfoldable pub parse_diff_headers : Text → List Text → DiffHeader × List Text
unfolding complete without_new
parse_diff_headers old_line [] = (without_new (old_raw_of old_line), [])
parse_diff_headers old_line (l ∷ rest) =
    if starts_with (codes "+++ ") l
    then (complete (old_raw_of old_line) (strip (drop 4 l)), rest)
    else (without_new (old_raw_of old_line), l ∷ rest)

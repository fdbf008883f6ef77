-- ===== src/Diffs/Rebuild.antt =====
-- app/core/diffs.py: the loop over the hunks of one file, in `apply_unified_diff`.
use feature_frontend.Prelude.{
  ℕ, Bool, true, false, not, ◌||◌, Option, none, some, List, [], ◌∷◌, ◌++◌, map,
}
use feature_frontend.Prelude.{if◌then◌else◌, ltb, drop, keep_if, take_while, length}
use feature_frontend.Prelude.Int.{ℤ, pos, negsuc, pred_ℤ, suc_ℤ, ltb_ℤ, slice, index?}
use feature_frontend.Prelude.Text.{Text, codes, starts_with, strip, text_eq}
use feature_frontend.Diffs.Header.{
  Marker, full, Reason, missing_ranges, invalid_hunk, hunk_parse_error, or_else,
}
use feature_frontend.Diffs.Hunk.{match_hunk, int_of}

-- The variables of the loop, and what it leaves to the code behind it.
pub record Rebuild : Type 0 where
  pub rebuilt : List Text
  pub cursor : ℤ
  pub handled_hunk : Bool
  pub fallback_reason : Option Reason
  pub fallback_lines : List Text
  pub effective_mode : Marker

abbrev pub is_range : Text → Bool
is_range line = starts_with (codes "@@") line

-- The lines of a hunk: up to the next range line.
abbrev pub body_of : List Text → List Text
body_of = take_while (λ line. not (is_range line))

abbrev pub is_new_line : Text → Bool
is_new_line line = starts_with (codes "+") line || starts_with (codes " ") line

-- The lines taken from a hunk with no ranges.
unfoldable pub fallback_segment : List Text → List Text
fallback_segment body = map (drop 1) (keep_if is_new_line body)

-- What the lines of a hunk change.
pub record Place : Type 0 where
  pub rebuilt : List Text
  pub cursor : ℤ

module _ (source : List Text) where
  -- One line of a hunk; `none` is an IndexError.
  unfoldable pub hunk_line : Place → Text → Option Place
  hunk_line p line =
      if starts_with (codes " ") line
      then (if ltb_ℤ p.cursor (length source)
          then (elim (index? source p.cursor) [
            | none ↦ none
            | some x ↦ some (record { rebuilt = p.rebuilt ++ x ∷ []; cursor = suc_ℤ p.cursor })
          ])
          else some (record { rebuilt = p.rebuilt ++ drop 1 line ∷ []; cursor = suc_ℤ p.cursor }))
      else if starts_with (codes "-") line
      then some (record p { cursor = suc_ℤ p.cursor })
      else if starts_with (codes "+") line
      then some (record p { rebuilt = p.rebuilt ++ drop 1 line ∷ [] })
      else some p

  unfoldable pub hunk_lines : List Text → Place → Option Place
  hunk_lines [] p = some p
  hunk_lines (line ∷ body) p = elim (hunk_line p line) [ none ↦ none | some q ↦ hunk_lines body q ]

  -- `old_start`, which is at most the number of source lines.
  abbrev pub clamp_start : ℤ → ℤ
  clamp_start (pos i) = if ltb (length source) i then pos (length source) else pos i
  clamp_start (negsuc i) = negsuc i

  -- The source up to the hunk is copied.
  unfoldable pub start_hunk : ℕ → Place → Place
  start_hunk n p =
      let old_start = clamp_start (pred_ℤ n) in
      record { rebuilt = p.rebuilt ++ slice source p.cursor old_start; cursor = old_start }

  -- A hunk with ranges: `none` is a ValueError of `int` or an IndexError.
  unfoldable pub run_hunk : List ℕ → List Text → Place → Option Place
  run_hunk ds body p = elim (int_of ds) [ none ↦ none | some n ↦ hunk_lines body (start_hunk n p) ]

  -- The handler of the `except` clause.
  abbrev pub failed : List Text → Rebuild → Rebuild
  failed chunk r = record r {
    handled_hunk = false;
    fallback_reason = or_else r.fallback_reason (some hunk_parse_error);
    fallback_lines = chunk;
    effective_mode = full;
  }

  abbrev pub broken : List Text → Rebuild → Rebuild
  broken rest r = record r {
    handled_hunk = false;
    fallback_reason = some invalid_hunk;
    fallback_lines = rest;
    effective_mode = full;
  }

  abbrev pub without_ranges : List Text → Rebuild → Rebuild
  without_ranges body r = record r {
    rebuilt = fallback_segment body;
    cursor = pos (length source);
    handled_hunk = true;
    fallback_reason = or_else r.fallback_reason (some missing_ranges);
  }

  abbrev pub place_of : Rebuild → Place
  place_of r = record { rebuilt = r.rebuilt; cursor = r.cursor }

  abbrev pub move_to : Place → Rebuild → Rebuild
  move_to p r = record r { rebuilt = p.rebuilt; cursor = p.cursor; handled_hunk = true }

  -- The loop over the chunk. The lines of a hunk that has been read are no range lines, so the
  -- first test passes over them.
  unfoldable pub hunk_loop : List Text → List Text → Rebuild → Rebuild
  hunk_loop chunk [] r = r
  hunk_loop chunk (line ∷ rest) r = elim (is_range line) [
    | false ↦ hunk_loop chunk rest r
    | true ↦ elim (text_eq (strip line) (codes "@@")) [
      | true ↦ hunk_loop chunk rest (without_ranges (body_of rest) r)
      | false ↦ elim (match_hunk line) [
        | none ↦ broken rest r
        | some ds ↦ elim (run_hunk ds (body_of rest) (place_of r)) [
          | none ↦ failed chunk r
          | some p ↦ hunk_loop chunk rest (move_to p r)
        ]
      ]
    ]
  ]

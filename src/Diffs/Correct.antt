-- ===== src/Diffs/Correct.antt =====
-- app/core/diffs.py: a unified diff is applied as it is meant.
use mathlib.Core.Bool.{false≢true}
use mathlib.Core.List.{append-nil}
use feature_frontend.Prelude.{
  ℕ, ◌≡◌, refl, sym, ap, ◌∙◌, Bool, true, false, none, some, List, [], ◌∷◌, ◌++◌, All,
}
use feature_frontend.Prelude.Int.{slice_from}
use feature_frontend.Prelude.Text.{
  Text, codes, starts_with, strip, splitlines, join_lines, is_line_break,
}
use feature_frontend.Diffs.Header.{
  rsplit_marker, patch, parse_diff_path, parse_diff_headers, DiffHeader, valid,
}
use feature_frontend.Diffs.Rebuild.{Rebuild}
use feature_frontend.Diffs.Apply.{
  Tree, file, is_empty, newline, new_content, initial, original_content, patch_file, apply_file,
  chunk_of, apply_lines, apply_unified_diff,
}
use feature_frontend.Diffs.Lines.{Unbroken, unlines, splitlines-unlines, ends_with_newline-unlines}
use feature_frontend.Diffs.Render.{Hunk, before, after, render, Placed}
use feature_frontend.Diffs.Hunks.{hunk_loop-Finished}

-- A path that the two header lines give back: no white space at its ends and no "::".
pub record IsPlainPath (path : Text) : Type 0 where
  pub old_side : strip (codes "a/" ++ path) ≡ codes "a/" ++ path
  pub new_side : strip (codes "b/" ++ path) ≡ codes "b/" ++ path
  pub unmarked : rsplit_marker path ≡ none
  pub named : is_empty (strip path) ≡ false

-- A line of the diff that ends neither the file's part nor itself.
abbrev pub IsReadable : Text → Type 0
IsReadable l = (starts_with (codes "--- ") l ≡ false) × Unbroken l

abbrev header_of : Text → DiffHeader
header_of path = record {
  old_path = some path;
  new_path = some path;
  diff_mode = patch;
  header_state = valid;
  marker = none;
  old_raw = codes "a/" ++ path;
  new_raw = codes "b/" ++ path;
  reason = none;
}

parse_diff_path-side :
    (path : Text)
    → rsplit_marker path ≡ none
    → (parse_diff_path (codes "a/" ++ path) ≡ (some path, none))
      × (parse_diff_path (codes "b/" ++ path) ≡ (some path, none))
unfolding parse_diff_path
parse_diff_path-side path h = (rw h, rw h)

parse_diff_headers-plain :
    (path : Text) (rest : List Text)
    → IsPlainPath path
    → parse_diff_headers (codes "--- a/" ++ path) ((codes "+++ b/" ++ path) ∷ rest)
      ≡ (header_of path, rest)
unfolding parse_diff_headers
parse_diff_headers-plain path rest h =
    let (old, new) = parse_diff_path-side path h.unmarked in rw (h.old_side, h.new_side, old, new)

new_content-rebuilt :
    (original : Text) (chunk source new : List Text) (r : Rebuild)
    → splitlines original ≡ source
    → r.effective_mode ≡ patch
    → r.handled_hunk ≡ true
    → r.fallback_reason ≡ none
    → r.rebuilt ++ slice_from source r.cursor ≡ new
    → new_content original true chunk r ≡ join_lines new ++ newline
unfolding new_content
new_content-rebuilt original chunk source new r e mode handled reason text =
    rw (mode, handled, reason) (rw e (ap (λ t. join_lines t ++ newline) text))

-- The loop begins with no line rebuilt, at the start of the source.
patch_file-render :
    (tree : Tree) (c : ℕ) (path : Text) (hs : List Hunk) (tail : List Text)
    → tree (c ∷ path) ≡ file (unlines (before hs tail))
    → All Unbroken (before hs tail)
    → Placed 0 hs
    → is_empty hs ≡ false
    → patch_file tree true (header_of (c ∷ path)) (render hs)
      ≡ join_lines (after hs tail) ++ newline
unfolding patch_file original_content
patch_file-render tree c path hs tail e u p some_hunk =
    let lines : splitlines (unlines (before hs tail)) ≡ before hs tail =
      splitlines-unlines (before hs tail) u in
    let done =
      hunk_loop-Finished (before hs tail) (render hs) [] hs tail [] 0
        (initial (header_of (c ∷ path))) refl refl p in
    rw (e, lines)
      (new_content-rebuilt (unlines (before hs tail)) (render hs) (before hs tail) (after hs tail) _
        lines done.mode (done.handled ∙ rw some_hunk) done.reason done.text)

apply_file-render :
    (tree : Tree) (path : Text) (hs : List Hunk) (tail : List Text)
    → is_empty (strip path) ≡ false
    → tree path ≡ file (unlines (before hs tail))
    → All Unbroken (before hs tail)
    → Placed 0 hs
    → is_empty hs ≡ false
    → apply_file tree true (header_of path) (render hs)
      ≡ (path, join_lines (after hs tail) ++ newline) ∷ []
unfolding apply_file
apply_file-render tree [] hs tail named e u p some_hunk =
    absurd (false≢true (sym (unfold strip in named)))
apply_file-render tree (c ∷ path) hs tail named e u p some_hunk =
    rw (named, e)
      (ap (λ t. (c ∷ path, t) ∷ []) (patch_file-render tree c path hs tail e u p some_hunk))

-- Lines that begin no file belong to the file that is being read.
chunk_of-readable : (ls : List Text) → All IsReadable ls → chunk_of ls ≡ ls
chunk_of-readable [] h = refl
chunk_of-readable (l ∷ ls) ((plain, _), h) = rw plain (ap (◌∷◌ l) (chunk_of-readable ls h))

apply_lines-readable :
    (tree : Tree) (trailing : Bool) (ls : List Text)
    → All IsReadable ls
    → apply_lines tree trailing ls ≡ []
unfolding apply_lines
apply_lines-readable tree trailing [] h = refl
apply_lines-readable tree trailing (l ∷ ls) ((plain, _), h) =
    rw plain (apply_lines-readable tree trailing ls h)

readable-Unbroken : (ls : List Text) → All IsReadable ls → All Unbroken ls
readable-Unbroken [] h = tt
readable-Unbroken (l ∷ ls) ((_, u), h) = (u, readable-Unbroken ls h)

-- The diff of one file, as `git diff` and `difflib` write it.
abbrev pub diff_of : Text → List Hunk → List Text
diff_of path hs = (codes "--- a/" ++ path) ∷ (codes "+++ b/" ++ path) ∷ render hs

headers-Unbroken :
    (path : Text)
    → Unbroken path
    → Unbroken (codes "--- a/" ++ path) × Unbroken (codes "+++ b/" ++ path)
unfolding is_line_break
headers-Unbroken path u = (u, u)

diff_of-Unbroken :
    (path : Text) (hs : List Hunk)
    → Unbroken path
    → All IsReadable (render hs)
    → All Unbroken (diff_of path hs)
diff_of-Unbroken path hs u readable =
    let (old, new) = headers-Unbroken path u in (old, (new, readable-Unbroken (render hs) readable))

diff_of-apply_lines :
    (tree : Tree) (path : Text) (hs : List Hunk)
    → IsPlainPath path
    → All IsReadable (render hs)
    → apply_lines tree true (diff_of path hs) ≡ apply_file tree true (header_of path) (render hs)
unfolding apply_lines
diff_of-apply_lines tree path hs plain readable =
    rw (parse_diff_headers-plain path (render hs) plain) (
      rw
        (
          chunk_of-readable (render hs) readable,
          apply_lines-readable tree true (render hs) readable,
        )
        (append-nil _))

-- Applying the diff of one file gives that file's new text and touches no other file: the lines
-- kept and the lines inserted, with the lines outside the hunks as they were, and a newline at the
-- end. The conditions: the tree holds the file that the diff was made from; the path is plain; each
-- range line states the place of its hunk, with at least one hunk; no line contains a line break;
-- and no line of the hunks reads as the start of another file.
pub apply_unified_diff-render :
    (tree : Tree) (path : Text) (hs : List Hunk) (tail : List Text)
    → tree path ≡ file (unlines (before hs tail))
    → IsPlainPath path
    → Unbroken path
    → Placed 0 hs
    → is_empty hs ≡ false
    → All Unbroken (before hs tail)
    → All IsReadable (render hs)
    → apply_unified_diff tree (unlines (diff_of path hs))
      ≡ (path, join_lines (after hs tail) ++ newline) ∷ []
unfolding apply_unified_diff
apply_unified_diff-render tree path hs tail e plain u p some_hunk us readable =
    rw
      (
        splitlines-unlines (diff_of path hs) (diff_of-Unbroken path hs u readable),
        ends_with_newline-unlines (codes "--- a/" ++ path) ((codes "+++ b/" ++ path) ∷ render hs),
      )
      (diff_of-apply_lines tree path hs plain readable
        ∙ apply_file-render tree path hs tail plain.named e us p some_hunk)

-- ===== src/Diffs/Tests.antt =====
-- Runs of the diff reader on the inputs of tests/unit/test_diffs.py, and the uses of its theorems.
use feature_frontend.Prelude.{◌≡◌, refl, List, [], ◌∷◌, if◌then◌else◌}
use feature_frontend.Prelude.Text.{Text, codes, text_eq}
use feature_frontend.Prelude.{All, ◌++◌, map, some, none}
use feature_frontend.Prelude.Int.{slice_from}
use feature_frontend.Prelude.Text.{splitlines, is_line_break, strip, join_lines}
use feature_frontend.Diffs.Header.{parse_diff_headers, parse_diff_path}
use feature_frontend.Diffs.Hunk.{match_hunk, int_of}
use feature_frontend.Diffs.Rebuild.{
  Place, fallback_segment, hunk_loop, run_hunk, start_hunk, hunk_lines, hunk_line,
}
use feature_frontend.Diffs.Apply.{
  Tree, missing, directory, file, newline, original_content, new_content, patch_file, apply_file,
  apply_lines, apply_unified_diff, sanitize_write_path,
}
use feature_frontend.Diffs.Lines.{unlines}
use feature_frontend.Diffs.Render.{Hunk, keep, delete, insert, after, IsRangeAt}
use feature_frontend.Diffs.Hunks.{place}
use feature_frontend.Diffs.Correct.{IsPlainPath, diff_of, apply_unified_diff-render}
use feature_frontend.Diffs.Edges.{Writable, added, apply_unified_diff-Writable, run_hunk-zero}

abbrev one_file : Text → Text → Tree
one_file path content p = if text_eq p path then file content else missing

abbrev sample : Tree
sample = one_file (codes "sample.txt") (codes "hello\nworld\n")

-- What the runs compute with.
reader : Unit {0}
unfolding apply_unified_diff apply_lines apply_file patch_file original_content new_content
    splitlines is_line_break strip parse_diff_headers parse_diff_path match_hunk int_of
    fallback_segment hunk_loop run_hunk start_hunk hunk_lines hunk_line
reader = tt

test_apply_unified_diff :
    apply_unified_diff sample
      (codes "--- a/sample.txt\n+++ b/sample.txt\n@@ -1,2 +1,2 @@\n hello\n-world\n+python\n")
    ≡ (codes "sample.txt", codes "hello\npython\n") ∷ []
unfolding reader
test_apply_unified_diff = refl

without_space_after_hunk_prefix :
    apply_unified_diff
      (λ p. missing)
      (codes "--- /dev/null\n+++ b/new_file.txt\n@@-0,0 +1 @@\n+content line\n")
    ≡ (codes "new_file.txt", codes "content line\n") ∷ []
unfolding reader
without_space_after_hunk_prefix = refl

with_minimal_hunk_header :
    apply_unified_diff
      (one_file (codes "script.py") (codes "print('old')\n"))
      (codes "--- a/script.py\n+++ b/script.py\n@@\n-print('old')\n+print('new')\n")
    ≡ (codes "script.py", codes "print('new')\n") ∷ []
unfolding reader
with_minimal_hunk_header = refl

full_marker_without_hunks :
    apply_unified_diff
      (λ p. missing)
      (codes "--- a/module.py::FULL\n+++ b/module.py::FULL\n+def greet():\n+    return 'hello'\n")
    ≡ (codes "module.py", codes "def greet():\n    return 'hello'\n") ∷ []
unfolding reader
full_marker_without_hunks = refl

invalid_hunk_header :
    apply_unified_diff
      (one_file (codes "sample.txt") (codes "line one\n"))
      (codes "--- a/sample.txt\n+++ b/sample.txt\n@@ invalid header\n+line two\n")
    ≡ (codes "sample.txt", codes "line two\n") ∷ []
unfolding reader
invalid_hunk_header = refl

missing_new_header_line :
    apply_unified_diff
      (one_file (codes "sample.txt") (codes "old line\n"))
      (codes "--- a/sample.txt\n+new line\n")
    ≡ (codes "sample.txt", codes "new line\n") ∷ []
unfolding reader
missing_new_header_line = refl

skips_directory_targets :
    apply_unified_diff
      (λ p. directory)
      (codes "--- a/nested/\n+++ b/nested/\n@@ -0,0 +1 @@\n+content\n")
    ≡ []
unfolding reader
skips_directory_targets = refl

skips_empty_paths :
    apply_unified_diff (λ p. missing) (codes "--- \n+++ \n@@ -0,0 +1 @@\n+ignored\n") ≡ []
unfolding reader
skips_empty_paths = refl

strips_markers : sanitize_write_path (codes "HelloWorld.java::FULL") ≡ codes "HelloWorld.java"
unfolding sanitize_write_path
strips_markers = refl

abbrev range : Text
range = codes "@@ -2,2 +2,2 @@"

abbrev hunks : List Hunk
hunks =
    record {
      gap = codes "zero" ∷ [];
      range = range;
      edits = keep (codes "hello") ∷ delete (codes "world") ∷ insert (codes "python") ∷ [];
    }
    ∷ []

abbrev tail : List Text
tail = codes "end" ∷ []

abbrev changed : Tree
changed = one_file (codes "sample.txt") (codes "zero\nhello\nworld\nend\n")

range-IsRangeAt : IsRangeAt 1 range
unfolding reader
range-IsRangeAt = record {
  opens = refl;
  ranged = refl;
  digits = 2 ∷ [];
  matched = refl;
  value = refl;
}

sample-IsPlainPath : IsPlainPath (codes "sample.txt")
unfolding reader
sample-IsPlainPath = record { old_side = refl; new_side = refl; unmarked = refl; named = refl }

apply_unified_diff-render_example :
    apply_unified_diff changed (unlines (diff_of (codes "sample.txt") hunks))
    ≡ (codes "sample.txt", join_lines (after hunks tail) ++ newline) ∷ []
unfolding is_line_break
apply_unified_diff-render_example =
    apply_unified_diff-render changed (codes "sample.txt") hunks tail refl sample-IsPlainPath refl
      (range-IsRangeAt, tt) refl (refl, (refl, (refl, (refl, tt))))
      ((refl, refl), ((refl, refl), ((refl, refl), ((refl, refl), tt))))

apply_unified_diff-Writable_example :
    All
      (Writable changed)
      (apply_unified_diff changed (unlines (diff_of (codes "sample.txt") hunks)))
apply_unified_diff-Writable_example =
    apply_unified_diff-Writable changed (unlines (diff_of (codes "sample.txt") hunks))

context_on_nothing : run_hunk [] (0 ∷ []) (codes " hello" ∷ []) (place [] 0) ≡ none
unfolding reader
context_on_nothing = refl

zero-value : int_of (0 ∷ []) ≡ some 0
unfolding int_of
zero-value = refl

run_hunk-zero_example :
    (p : Place) × (run_hunk
        (codes "a" ∷ codes "b" ∷ [])
        (0 ∷ [])
        (map added (codes "new" ∷ []))
        (place [] 0)
      ≡ some p)
    × (p.rebuilt ++ slice_from (codes "a" ∷ codes "b" ∷ []) p.cursor
        ≡ codes "a" ∷ codes "new" ∷ codes "b" ∷ [])
run_hunk-zero_example =
    run_hunk-zero (codes "a" ∷ []) (codes "b") (codes "new" ∷ []) (0 ∷ []) zero-value

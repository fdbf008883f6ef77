-- ===== src/Context/Compactor.antt =====
-- app/context/compactor.py, `estimate_tokens` of app/llm/provider.py and `RankedCandidate` of
-- app/context/curator.py.
use feature_frontend.Prelude.{
  ℕ, ◌+◌, ◌*◌, ◌/◌, Bool, false, not, ◌||◌, List, [], ◌∷◌, ◌++◌, leb, if◌then◌else◌, take, length,
}
use feature_frontend.Prelude.Text.{Text, codes, starts_with, strip, splitlines, join_lines}

-- The score and the metadata take no part in the cutting and are left out.
pub record RankedCandidate : Type 0 where
  pub id : Text
  pub source : Text
  pub content : Text
  pub tokens : ℕ

abbrev pub max : ℕ → ℕ → ℕ
max m n = if leb m n then n else m

unfoldable pub estimate_tokens : Text → ℕ
estimate_tokens text = max 1 (length text / 4)

-- `"```" in text`
abbrev has_fence : Text → Bool
has_fence [] = false
has_fence (c ∷ s) = starts_with (codes "```") (c ∷ s) || has_fence s

abbrev is_fence : Text → Bool
is_fence line = starts_with (codes "```") (strip line)

abbrev total_length : List Text → ℕ
total_length [] = 0
total_length (p ∷ ps) = length p + total_length ps

abbrev with_line : Bool → List Text → Text → List Text
with_line collect parts line = if collect then parts ++ line ∷ [] else parts

-- The lines between fences, until there are enough characters.
abbrev pub fenced_lines : ℕ → Bool → List Text → List Text → List Text
fenced_lines max_chars collect parts [] = parts
fenced_lines max_chars collect parts (line ∷ lines) =
    let after_fence = fenced_lines max_chars (not collect) parts lines in
    let next = fenced_lines max_chars collect (with_line collect parts line) lines in
    if is_fence line
    then after_fence
    else (if leb max_chars (total_length (with_line collect parts line))
        then with_line collect parts line
        else next)

abbrev snippet_or : Text → ℕ → Text → Text
snippet_or text max_chars [] = take max_chars text
snippet_or text max_chars (c ∷ snippet) = take max_chars (c ∷ snippet)

unfoldable pub preferred_excerpt : Text → ℕ → Text
preferred_excerpt text max_chars =
    if has_fence text
    then snippet_or text max_chars
        (strip (join_lines (fenced_lines max_chars false [] (splitlines text))))
    else take max_chars text

unfoldable pub truncate_to_tokens : Text → ℕ → Text
truncate_to_tokens text max_tokens =
    let approx_chars = max_tokens * 4 in
    let excerpt = preferred_excerpt text approx_chars in
    if leb (length excerpt) approx_chars then excerpt else take approx_chars excerpt

-- One candidate: as it is up to the threshold, else cut to half its tokens or to the threshold.
unfoldable pub compact_one : ℕ → RankedCandidate → RankedCandidate × ℕ
compact_one threshold candidate =
    let tokens = estimate_tokens candidate.content in
    if leb tokens threshold
    then (record candidate { tokens = tokens }, 0)
    else (let truncated = truncate_to_tokens candidate.content (max threshold (tokens / 2)) in
        (record candidate { content = truncated; tokens = estimate_tokens truncated }, 1))

abbrev pub compact_all : ℕ → List RankedCandidate → List RankedCandidate × ℕ
compact_all threshold [] = ([], 0)
compact_all threshold (candidate ∷ candidates) =
    let (compacted, operations) = compact_all threshold candidates in
    let (first, operation) = compact_one threshold candidate in
    (first ∷ compacted, operation + operations)

-- `scaled` is `int(available_tokens * threshold_ratio)`, which is computed with floats.
unfoldable pub compact_candidates : List RankedCandidate → (scaled : ℕ) → List RankedCandidate × ℕ
compact_candidates candidates scaled = compact_all (max 1 scaled) candidates

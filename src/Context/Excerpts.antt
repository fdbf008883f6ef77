-- ===== src/Context/Excerpts.antt =====
-- app/context/compactor.py: what compaction leaves.
use feature_frontend.Prelude.{
  ℕ, ◌+◌, ◌*◌, ◌/◌, ◌≤◌, ◌≡◌, refl, ◌∙◌, List, [], ◌∷◌, leb, length, All, leb→le, Bool-cases, inl,
  inr, arith,
}
use feature_frontend.Prelude.Text.{Text}
use feature_frontend.Context.Compactor.{
  RankedCandidate, max, estimate_tokens, preferred_excerpt, truncate_to_tokens, compact_one,
  compact_all, compact_candidates,
}
use feature_frontend.Context.Budget.{
  Accurate, estimate_tokens-most, length-take_most, total_tokens, select_items-total,
}
use feature_frontend.Context.Selection.{none_selected, select_items}

truncate_to_tokens-fits : (text : Text) (n : ℕ) → length (truncate_to_tokens text n) ≤ n * 4
unfolding truncate_to_tokens
truncate_to_tokens-fits text n =
    elim (Bool-cases (leb (length (preferred_excerpt text (n * 4))) (n * 4))) [
      | inl short ↦ rw short (leb→le _ _ short)
      | inr long ↦ rw long (length-take_most (n * 4) _)
    ]

-- What a candidate may have left: the threshold, or half of what it had.
abbrev pub allowance : ℕ → RankedCandidate → ℕ
allowance threshold c = max threshold (estimate_tokens c.content / 2)

abbrev pub Compact : ℕ → RankedCandidate → RankedCandidate → Type 0
Compact threshold c d = (d.id ≡ c.id) × Accurate d × (d.tokens ≤ allowance threshold c)

compact_one-Compact :
    (threshold : ℕ) (c : RankedCandidate)
    → 1 ≤ threshold
    → Compact threshold c (compact_one threshold c).0
unfolding compact_one
compact_one-Compact threshold c positive =
    elim (Bool-cases (leb (estimate_tokens c.content) threshold)) [
      | inl short ↦ rw short (refl, refl, ground arith)
      | inr long ↦
          let n = allowance threshold c in
          let some : 1 ≤ n = ground arith in
          rw long (refl, refl, estimate_tokens-most n _ some (truncate_to_tokens-fits c.content n))
    ]

-- The candidates and what is left of them, in the same order.
abbrev pub AllCompact : ℕ → List RankedCandidate → List RankedCandidate → Type 0
AllCompact threshold [] ds = ds ≡ []
AllCompact threshold (c ∷ cs) ds =
    (d : RankedCandidate) × (rest : List RankedCandidate) × (ds ≡ d ∷ rest)
    × Compact threshold c d
    × AllCompact threshold cs rest

compact_all-AllCompact :
    (threshold : ℕ) (cs : List RankedCandidate)
    → 1 ≤ threshold
    → AllCompact threshold cs (compact_all threshold cs).0
compact_all-AllCompact threshold [] positive = refl
compact_all-AllCompact threshold (c ∷ cs) positive = (
  (compact_one threshold c).0,
  (compact_all threshold cs).0,
  refl,
  compact_one-Compact threshold c positive,
  compact_all-AllCompact threshold cs positive,
)

-- Compaction keeps the candidates and their order; each then states the tokens of its own content,
-- and has no more of them than the threshold or half of what it had, whichever is more.
compact_candidates-AllCompact :
    (cs : List RankedCandidate) (scaled : ℕ)
    → AllCompact (max 1 scaled) cs (compact_candidates cs scaled).0
unfolding compact_candidates
compact_candidates-AllCompact cs scaled = compact_all-AllCompact (max 1 scaled) cs (ground arith)

compact_all-Accurate :
    (threshold : ℕ) (cs : List RankedCandidate)
    → 1 ≤ threshold
    → All Accurate (compact_all threshold cs).0
compact_all-Accurate threshold [] positive = tt
compact_all-Accurate threshold (c ∷ cs) positive =
    ((compact_one-Compact threshold c positive).1, compact_all-Accurate threshold cs positive)

-- Every token of the compacted candidates is either used by a selected one or counted as clipped.
pub selected-total :
    (cs : List RankedCandidate) (scaled budget : ℕ)
    → let compacted = (compact_candidates cs scaled).0 in
      (select_items budget none_selected compacted).tokens_used
        + (select_items budget none_selected compacted).tokens_clipped
      ≡ total_tokens compacted
unfolding compact_candidates
selected-total cs scaled budget =
    select_items-total budget none_selected (compact_candidates cs scaled).0
      (compact_all-Accurate (max 1 scaled) cs (ground arith))
    ∙ omega arith

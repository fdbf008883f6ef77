-- ===== src/Context/Selection.antt =====
-- app/context/engine.py: the two loops of `build_context`.
use feature_frontend.Prelude.{ℕ, ◌+◌, ◌-◌, ◌*◌, List, [], ◌∷◌, ◌++◌, leb, ltb, if◌then◌else◌, take}
use feature_frontend.Context.Compactor.{RankedCandidate, max, estimate_tokens}

pub record Selection : Type 0 where
  pub selected : List RankedCandidate
  pub tokens_used : ℕ
  pub tokens_clipped : ℕ

abbrev pub none_selected : Selection
none_selected = record { selected = []; tokens_used = 0; tokens_clipped = 0 }

-- A subtraction of a larger budget would be negative in the source; `max(1, …)` makes both 1.
abbrev pub available_budget : (budget reserve : ℕ) → ℕ
available_budget budget reserve = max 1 (budget - reserve)

abbrev pub add_item : RankedCandidate → Selection → Selection
add_item item s = record s {
  selected = s.selected ++ item ∷ [];
  tokens_used = s.tokens_used + item.tokens;
}

abbrev pub clip : ℕ → Selection → Selection
clip n s = record s { tokens_clipped = s.tokens_clipped + n }

-- `item.content[: remaining * 4]`, as a candidate.
abbrev pub cut : ℕ → RankedCandidate → RankedCandidate
cut remaining item = record item {
  content = take (remaining * 4) item.content;
  tokens = estimate_tokens (take (remaining * 4) item.content);
}

unfoldable pub select_item : ℕ → Selection → RankedCandidate → Selection
select_item budget s item =
    if ltb budget (s.tokens_used + item.tokens)
    then (if leb budget s.tokens_used
        then clip item.tokens s
        else (let current = cut (budget - s.tokens_used) item in
            add_item current (clip (item.tokens - current.tokens) s)))
    else add_item item s

abbrev pub select_items : ℕ → Selection → List RankedCandidate → Selection
select_items budget s [] = s
select_items budget s (item ∷ items) = select_items budget (select_item budget s item) items

pub record Trimmed : Type 0 where
  pub kept : List RankedCandidate
  pub dropped : List RankedCandidate
  pub clipped : ℕ

abbrev pub reverse : List RankedCandidate → List RankedCandidate
reverse [] = []
reverse (x ∷ xs) = reverse xs ++ x ∷ []

-- The loop that takes the last candidate away while the messages have too many tokens. It runs on
-- the selected candidates from the last to the first; `count` is the number of tokens of the
-- messages with some candidates, which the provider counts.
unfoldable pub drop_over :
    (List RankedCandidate → ℕ)
    → (hard_cap : ℕ) → List RankedCandidate
    → List RankedCandidate
    → ℕ
    → Trimmed
drop_over count hard_cap [] dropped clipped = record {
  kept = [];
  dropped = dropped;
  clipped = clipped;
}
drop_over count hard_cap (removed ∷ backwards) dropped clipped =
    let rest =
      drop_over count hard_cap backwards (dropped ++ removed ∷ []) (clipped + removed.tokens) in
    if ltb hard_cap (count (reverse (removed ∷ backwards)))
    then rest
    else record { kept = reverse (removed ∷ backwards); dropped = dropped; clipped = clipped }

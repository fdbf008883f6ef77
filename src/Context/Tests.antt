-- ===== src/Context/Tests.antt =====
-- app/context on sample candidates.
use feature_frontend.Prelude.{◌+◌, ◌≤◌, ◌<◌, ◌≡◌, ◌⊎◌, refl, List, [], ◌∷◌, ◌++◌}
use feature_frontend.Prelude.Text.{codes}
use feature_frontend.Context.Compactor.{RankedCandidate, estimate_tokens}
use feature_frontend.Context.Selection.{
  none_selected, select_item, select_items, reverse, drop_over,
}
use feature_frontend.Context.Budget.{total_tokens, select_items-budget}
use feature_frontend.Context.Cap.{drop_over-splits}

abbrev task : RankedCandidate
task = record {
  id = codes "task";
  source = codes "task";
  content = codes "add a login page";
  tokens = 4;
}

abbrev note : RankedCandidate
note = record {
  id = codes "note";
  source = codes "memory";
  content = codes "the page has a form";
  tokens = 4;
}

abbrev sample : List RankedCandidate
sample = task ∷ note ∷ []

note_is_cut :
    (select_items 6 none_selected sample).selected
    ≡ task ∷ (record note { content = codes "the page"; tokens = 2 }) ∷ []
unfolding select_item estimate_tokens
note_is_cut = refl

select_items-budget_example :
    (total_tokens (select_items 6 none_selected sample).selected
      ≡ (select_items 6 none_selected sample).tokens_used)
    × ((select_items 6 none_selected sample).tokens_used ≤ 6)
select_items-budget_example = select_items-budget 6 sample

drop_over-splits_example :
    let t = drop_over total_tokens 5 (reverse sample) [] 0 in
    (sample ≡ t.kept ++ reverse t.dropped)
    × ((total_tokens t.kept ≤ 5) ⊎ (t.kept ≡ []))
    × ((t.dropped ≡ [])
        ⊎ ((earlier : List RankedCandidate) × (last : RankedCandidate) × (t.dropped
              ≡ earlier ++ last ∷ [])
            × (5 < total_tokens (t.kept ++ last ∷ []))))
    × (t.clipped ≡ 0 + total_tokens t.dropped)
drop_over-splits_example = drop_over-splits total_tokens 5 sample 0

-- ===== src/Context/Budget.antt =====
-- app/context/engine.py: what is selected stays within the budget, and every token is accounted
-- for.
use feature_frontend.Prelude.{
  ℕ, zero, suc, ◌+◌, ◌-◌, ◌*◌, ◌≤◌, ◌<◌, ◌≡◌, refl, false, List, [], ◌∷◌, ◌++◌, leb, ltb, take,
  length, All, Bool-cases, inl, inr, arith,
}
use feature_frontend.Prelude.Text.{Text}
use feature_frontend.Context.Compactor.{RankedCandidate, estimate_tokens}
use feature_frontend.Context.Selection.{Selection, none_selected, cut, select_item, select_items}

pub length-take_most : {A : Type 0} (n : ℕ) (xs : List A) → length (take n xs) ≤ n
length-take_most zero xs = omega arith
length-take_most (suc n) [] = omega arith
length-take_most (suc n) (x ∷ xs) = omega (arith, length-take_most n xs)

pub length-take_less : {A : Type 0} (n : ℕ) (xs : List A) → length (take n xs) ≤ length xs
length-take_less zero xs = omega arith
length-take_less (suc n) [] = omega arith
length-take_less (suc n) (x ∷ xs) = omega (arith, length-take_less n xs)

-- A text of four characters for each of some tokens has no more tokens than those.
pub estimate_tokens-most : (n : ℕ) (s : Text) → 1 ≤ n → length s ≤ n * 4 → estimate_tokens s ≤ n
unfolding estimate_tokens
estimate_tokens-most n s some few = ground arith

pub estimate_tokens-less :
    (s t : Text) → length s ≤ length t → estimate_tokens s ≤ estimate_tokens t
unfolding estimate_tokens
estimate_tokens-less s t less = ground arith

abbrev pub total_tokens : List RankedCandidate → ℕ
total_tokens [] = 0
total_tokens (c ∷ cs) = c.tokens + total_tokens cs

total_tokens-append :
    (cs ds : List RankedCandidate) → total_tokens (cs ++ ds) ≡ total_tokens cs + total_tokens ds
total_tokens-append [] ds = omega arith
total_tokens-append (c ∷ cs) ds = omega (arith, total_tokens-append cs ds)

leb-false : (a b : ℕ) → leb a b ≡ false → b < a
leb-false a b h = ground arith

pub ltb-false : (a b : ℕ) → ltb a b ≡ false → b ≤ a
ltb-false a b h = ground arith

-- The tokens used are those of the selected, and within the budget.
pub WithinBudget : ℕ → Selection → Type 0
WithinBudget budget s = (total_tokens s.selected ≡ s.tokens_used) × (s.tokens_used ≤ budget)

added :
    (s : Selection) (item : RankedCandidate)
    → total_tokens s.selected ≡ s.tokens_used
    → total_tokens (s.selected ++ item ∷ []) ≡ s.tokens_used + item.tokens
added s item h = omega (arith, total_tokens-append s.selected (item ∷ []), h)

select_item-WithinBudget :
    (budget : ℕ) (s : Selection) (item : RankedCandidate)
    → WithinBudget budget s
    → WithinBudget budget (select_item budget s item)
unfolding WithinBudget select_item
select_item-WithinBudget budget s item (exact, within) =
    elim (Bool-cases (ltb budget (s.tokens_used + item.tokens))) [
      | inl over ↦ elim (Bool-cases (leb budget s.tokens_used)) [
        | inl full ↦ rw (over, full) (exact, within)
        | inr room ↦
            let below : s.tokens_used < budget = leb-false budget s.tokens_used room in
            let remaining = budget - s.tokens_used in
            let fits : estimate_tokens (take (remaining * 4) item.content) ≤ remaining =
              estimate_tokens-most remaining _ (omega (arith, below))
                (length-take_most (remaining * 4) item.content) in
            rw (over, room) (added s (cut remaining item) exact, omega (arith, fits, below))
      ]
      | inr fits ↦ rw fits (added s item exact, ltb-false budget (s.tokens_used + item.tokens) fits)
    ]

select_items-WithinBudget :
    (budget : ℕ) (s : Selection) (items : List RankedCandidate)
    → WithinBudget budget s
    → WithinBudget budget (select_items budget s items)
select_items-WithinBudget budget s [] h = h
select_items-WithinBudget budget s (item ∷ items) h =
    select_items-WithinBudget budget (select_item budget s item) items
      (select_item-WithinBudget budget s item h)

-- Whatever the candidates and the numbers of tokens that they state, the selected ones state no
-- more tokens than the budget together, and exactly those that are counted as used.
pub select_items-budget :
    (budget : ℕ) (items : List RankedCandidate)
    → (total_tokens (select_items budget none_selected items).selected
        ≡ (select_items budget none_selected items).tokens_used)
      × ((select_items budget none_selected items).tokens_used ≤ budget)
unfolding WithinBudget
select_items-budget budget items =
    select_items-WithinBudget budget none_selected items (refl, omega arith)

-- A candidate that states the tokens of its own content.
abbrev pub Accurate : RankedCandidate → Type 0
Accurate c = c.tokens ≡ estimate_tokens c.content

select_item-total :
    (budget : ℕ) (s : Selection) (item : RankedCandidate)
    → Accurate item
    → (select_item budget s item).tokens_used + (select_item budget s item).tokens_clipped
      ≡ s.tokens_used + s.tokens_clipped + item.tokens
unfolding select_item
select_item-total budget s item accurate =
    elim (Bool-cases (ltb budget (s.tokens_used + item.tokens))) [
      | inl over ↦ elim (Bool-cases (leb budget s.tokens_used)) [
        | inl full ↦ rw (over, full) (omega arith)
        | inr room ↦
            let n = (budget - s.tokens_used) * 4 in
            let less : estimate_tokens (take n item.content) ≤ estimate_tokens item.content =
              estimate_tokens-less _ _ (length-take_less n item.content) in
            rw (over, room) (omega (arith, less, accurate))
      ]
      | inr fits ↦ rw fits (omega arith)
    ]

-- Where each candidate states the tokens of its content, every token is either used or counted as
-- clipped.
pub select_items-total :
    (budget : ℕ) (s : Selection) (items : List RankedCandidate)
    → All Accurate items
    → (select_items budget s items).tokens_used + (select_items budget s items).tokens_clipped
      ≡ s.tokens_used + s.tokens_clipped + total_tokens items
select_items-total budget s [] accurate = omega arith
select_items-total budget s (item ∷ items) (first, rest) = omega (
  arith,
  select_items-total budget (select_item budget s item) items rest,
  select_item-total budget s item first,
)

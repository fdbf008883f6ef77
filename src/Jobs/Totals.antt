-- ===== src/Jobs/Totals.antt =====
-- app/db/repo.py: the totals of a job against its cost entries, and its times.
use feature_frontend.Prelude.{
  ℕ, suc, ◌+◌, ◌≡◌, refl, sym, ap, ◌∙◌, true, Option, none, some, List, [], ◌∷◌, Bool-cases,
  Option-cases, inl, inr, if◌then◌else◌,
}
use mathlib.Core.Path.{subst}
use feature_frontend.Prelude.Text.{Text, text_eq, text_eq_iff, text_eq_refl}
use feature_frontend.Jobs.Tables.{
  Money, Job, JobTables, CostEntry, is_job, get_job, change_job, update_job_status, append_pr_link,
  mark_job_cancelled, increment_costs, add_cost,
}
use feature_frontend.Jobs.World.{Services, Run, Event}
use feature_frontend.Jobs.Worker.{react_all}
use feature_frontend.Rows.{option_map, first_where-changed, first_where-unchanged}
use feature_frontend.Jobs.Writes.{
  Write, same, both, status, action, link, cancels, bill, steps, summary, react_all-Writes,
}

-- What was used, and how often.
pub record Total (Usd : Type 0) : Type 0 where
  pub tokens_in : ℕ
  pub tokens_out : ℕ
  pub cost_usd : Usd
  pub requests : ℕ

abbrev pub total_of : {Usd : Type 0} → Job Usd → Total Usd
total_of j = record {
  tokens_in = j.tokens_in;
  tokens_out = j.tokens_out;
  cost_usd = j.cost_usd;
  requests = j.requests_made;
}

module _ {Usd : Type 0} (money : Money Usd) (id : Text) where
  abbrev plus_entry : CostEntry Usd → Total Usd → Total Usd
  plus_entry c s = record {
    tokens_in = s.tokens_in + c.tokens_in;
    tokens_out = s.tokens_out + c.tokens_out;
    cost_usd = money.plus s.cost_usd c.cost_usd;
    requests = suc s.requests;
  }

  -- The sum of the entries of a job, from the oldest on.
  abbrev pub sum_entries : List (CostEntry Usd) → Total Usd
  sum_entries [] = record { tokens_in = 0; tokens_out = 0; cost_usd = money.no_cost; requests = 0 }
  sum_entries (c ∷ cs) =
      let rest = sum_entries cs in if text_eq c.job_id id then plus_entry c rest else rest

  module _ {B : Type 0} (view : Job Usd → B) where
    abbrev viewed : JobTables Usd → Option B
    viewed t = option_map view (get_job id t)

    -- A change of some job that keeps its id and what is viewed of it.
    viewed-change_job :
        (job_id : Text) (f : Job Usd → Job Usd)
        → ((j : Job Usd) → (f j).id ≡ j.id)
        → ((j : Job Usd) → view (f j) ≡ view j)
        → (t : JobTables Usd) → viewed (change_job job_id f t) ≡ viewed t
    viewed-change_job job_id f ids hides t = elim (Bool-cases (text_eq job_id id)) [
      | inl this ↦
          let e : job_id ≡ id = (text_eq_iff job_id id).0 this in
          rw e (elim (Option-cases (get_job id t)) [
            | inl missing ↦ rw (first_where-changed (is_job id) f keeps t.jobs, missing) refl
            | inr (j, found) ↦
                rw (first_where-changed (is_job id) f keeps t.jobs, found) (ap some (hides j))
          ])
      | inr other ↦ ap (option_map view) (
          first_where-unchanged (is_job id) f (is_job job_id) keeps
            (λ j h. ap (λ t. text_eq t id) ((text_eq_iff j.id job_id).0 h) ∙ other) t.jobs)
    ]
      where
        keeps : (j : Job Usd) → is_job id (f j) ≡ is_job id j
        keeps j = ap (λ t. text_eq t id) (ids j)

  abbrev SumsTo : Option (Total Usd) → List (CostEntry Usd) → Type 0
  SumsTo none cs = Unit
  SumsTo (some s) cs = s ≡ sum_entries cs

  abbrev pub Balanced : JobTables Usd → Type 0
  Balanced t = SumsTo (viewed total_of t) t.costs

  hidden-Balanced :
      (job_id : Text) (f : Job Usd → Job Usd)
      → ((j : Job Usd) → (f j).id ≡ j.id)
      → ((j : Job Usd) → total_of (f j) ≡ total_of j)
      → (t : JobTables Usd) → Balanced t
      → Balanced (change_job job_id f t)
  hidden-Balanced job_id f ids hides t h =
      subst (λ s. SumsTo s t.costs) (sym (viewed-change_job total_of job_id f ids hides t)) h

  SumsTo-plus_entry :
      (c : CostEntry Usd) (s : Option (Total Usd)) (cs : List (CostEntry Usd))
      → text_eq c.job_id id ≡ true
      → SumsTo s cs
      → SumsTo (option_map (plus_entry c) s) (c ∷ cs)
  SumsTo-plus_entry c none cs this h = tt
  SumsTo-plus_entry c (some s) cs this h = rw this (ap (plus_entry c) h)

  total-add_cost :
      (c : CostEntry Usd) (j : Option (Job Usd))
      → option_map total_of (option_map (add_cost money c) j)
        ≡ option_map (plus_entry c) (option_map total_of j)
  total-add_cost c none = refl
  total-add_cost c (some j) = refl

  bill-Balanced :
      (c : CostEntry Usd) (t : JobTables Usd)
      → c.job_id ≡ id
      → Balanced t
      → Balanced (increment_costs money c t)
  bill-Balanced c t this h =
      subst (λ s. SumsTo s (c ∷ t.costs)) (sym billed)
        (SumsTo-plus_entry c (viewed total_of t) t.costs
          (ap (λ x. text_eq x id) this ∙ text_eq_refl id) h)
    where
      billed :
          viewed total_of (increment_costs money c t)
          ≡ option_map (plus_entry c) (viewed total_of t)
      billed = rw this (
          ap (option_map total_of)
            (first_where-changed (is_job id) (add_cost money c) (λ j. refl) t.jobs)
          ∙ total-add_cost c (get_job id t))

  Write-Balanced : (t u : JobTables Usd) → Write money id t u → Balanced t → Balanced u
  Write-Balanced t u same h = h
  Write-Balanced t u (both first second) h = Write-Balanced _ u second (Write-Balanced t _ first h)
  Write-Balanced t u (status now s) h =
      hidden-Balanced id (update_job_status now s) (λ j. refl) (λ j. refl) t h
  Write-Balanced t u (action a) h =
      hidden-Balanced id (λ j. record j { last_action = a }) (λ j. refl) (λ j. refl) t h
  Write-Balanced t u (link url) h =
      hidden-Balanced id (append_pr_link url) (λ j. refl) (λ j. refl) t h
  Write-Balanced t u (cancels now job_id) h =
      hidden-Balanced job_id (mark_job_cancelled now) (λ j. refl) (λ j. refl) t h
  Write-Balanced t u (bill c this) h = bill-Balanced c t this h
  Write-Balanced t u (steps ss) h = h
  Write-Balanced t u (summary m) h = h

  -- Whatever happens in a run: the tokens, the cost and the requests of its job are the sums over
  -- the entries of costs of that job, if they were so before.
  pub run-Balanced :
      (o : Services Usd) (es : List Event) (w : Run Usd)
      → Balanced w.tables
      → Balanced (react_all money o id es w).tables
  run-Balanced o es w h = Write-Balanced _ _ (react_all-Writes money id o es w) h

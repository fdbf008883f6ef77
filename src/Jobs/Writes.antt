-- ===== src/Jobs/Writes.antt =====
-- app/db/repo.py: what the run of a job, and whatever else happens meanwhile, writes to the tables.
use feature_frontend.Prelude.{
  ℕ, suc, ◌+◌, ◌≡◌, refl, sym, ◌∙◌, Option, none, some, List, [], ◌∷◌, Bool-cases, Option-cases,
  inl, inr, ◌==◌,
}
use mathlib.Core.Path.{subst}
use mathlib.Core.Option.{some-injective}
use feature_frontend.Prelude.Text.{Text}
use feature_frontend.Jobs.Tables.{
  Money, Job, JobStatus, JobStep, JobTables, CostEntry, MessageSummary, get_job, change_job,
  completed, failed, update_job_status, append_pr_link, mark_job_cancelled, increment_costs,
  add_message_summary,
}
use feature_frontend.Jobs.World.{
  PlanStep, PlanReply, StepReply, Services, Locals, Phase, start, failing, skipped, done, raised,
  planning, listing, stepping, coding, closing, Run, Event, work, cancel, wait,
}
use feature_frontend.Jobs.Charges.{
  charge_tokens, charge_with, calculate_cost, check_limits, LimitError,
}
use feature_frontend.Jobs.Worker.{
  advance, advance_from, react, react_all, add_plan, apply_diff, begin_with, plan_with, after_plan,
  list_with, limited, code_with, save_step, after_step, complete_with, close_run, linked, step_with,
  open_step,
}

module _ {Usd : Type 0} (money : Money Usd) (id : Text) where
  -- The writes of the run of one job, and the cancelling of any.
  pub data Write : JobTables Usd → JobTables Usd → Type 0 where
    same : {t : JobTables Usd} → Write t t
    both : {t u v : JobTables Usd} → Write t u → Write u v → Write t v
    status :
        {t : JobTables Usd} (now : ℕ) (s : JobStatus)
        → Write t (change_job id (update_job_status now s) t)
    action :
        {t : JobTables Usd} (a : Option Text)
        → Write t (change_job id (λ j. record j { last_action = a }) t)
    link : {t : JobTables Usd} (url : Text) → Write t (change_job id (append_pr_link url) t)
    cancels :
        {t : JobTables Usd} (now : ℕ) (job_id : Text)
        → Write t (change_job job_id (mark_job_cancelled now) t)
    bill :
        {t : JobTables Usd} (c : CostEntry Usd)
        → c.job_id ≡ id
        → Write t (increment_costs money c t)
    steps : {t : JobTables Usd} (ss : List JobStep) → Write t (record t { steps = ss })
    summary : {t : JobTables Usd} (m : MessageSummary) → Write t (add_message_summary m t)

  module _ (o : Services Usd) where
    abbrev Writes : Run Usd → Run Usd → Type 0
    Writes w v = Write w.tables v.tables

    begin_with-Writes : (w : Run Usd) (a : Option (Job Usd)) → Writes w (begin_with money o id w a)
    begin_with-Writes w none = same
    begin_with-Writes w (some j) = elim (Bool-cases j.is_cancelled) [
      | inl before ↦ rw before same
      | inr live ↦ rw live ((status w.now _))
    ]

    charge_with-Write :
        (model : Text) (n m : ℕ) (t : JobTables Usd) (cost : Option Usd) (u : JobTables Usd)
        → charge_with money o id model n m t cost ≡ some u
        → Write t u
    charge_with-Write model n m t none u h = absurd (cc)
    charge_with-Write model n m t (some cost) u h =
        subst (Write t) (some-injective _ u h) (bill _ refl)

    charge_tokens-Write :
        (model : Text) (n m : ℕ) (t u : JobTables Usd)
        → charge_tokens money o id model n m t ≡ some u
        → Write t u
    charge_tokens-Write model n m t u h = elim (Bool-cases (n + m == 0)) [
      | inl no_token ↦
          let unchanged : charge_tokens money o id model n m t ≡ some t = rw no_token refl in
          subst (Write t) (some-injective t u (sym unchanged ∙ h)) same
      | inr counted ↦ elim (Option-cases (get_job id t)) [
        | inl missing ↦
            let raised_then : charge_tokens money o id model n m t ≡ none =
              rw counted (rw missing refl) in
            absurd (cc)
        | inr (j, found) ↦
            let charged_then : charge_tokens money o id model n m t
                ≡ charge_with money o id model n m t (calculate_cost money o id model n m) =
              rw counted (rw found refl) in
            charge_with-Write model n m t _ u (sym charged_then ∙ h)
      ]
    ]

    after_plan-Writes :
        (w : Run Usd) (l : Locals) (r : PlanReply) (t : Option (JobTables Usd))
        → ((u : JobTables Usd) → t ≡ some u → Write w.tables u)
        → Writes w (after_plan money o id w l r t)
    after_plan-Writes w l r none h = same
    after_plan-Writes w l r (some t) h = (both (h t refl) (summary _))

    plan_with-Writes :
        (w : Run Usd) (l : Locals) (r : Option PlanReply) → Writes w (plan_with money o id w l r)
    plan_with-Writes w l none = same
    plan_with-Writes w l (some r) =
        after_plan-Writes w l r (charge_tokens money o id l.cto r.tokens_in r.tokens_out w.tables)
          (charge_tokens-Write l.cto r.tokens_in r.tokens_out w.tables)

    add_plan-Write :
        (now : ℕ) (ss : List PlanStep) (n : ℕ) (t : JobTables Usd)
        → Write t (add_plan money o id now ss n t)
    add_plan-Write now [] n t = same
    add_plan-Write now (s ∷ ss) n t = both (steps _) (add_plan-Write now ss (suc n) _)

    list_with-Writes :
        (w : Run Usd) (l : Locals) (ss : List PlanStep) (a : Option (Job Usd))
        → Writes w (list_with money o id w l ss a)
    list_with-Writes w l ss none = same
    list_with-Writes w l ss (some j) = (both (action _) (add_plan-Write w.now ss w.drawn _))

    limited-Writes :
        (w v : Run Usd) (e : Option LimitError) → Writes w v → Writes w (limited money o id w e v)
    limited-Writes w v none h = h
    limited-Writes w v (some e) h = same

    step_with-Writes :
        (w : Run Usd) (l : Locals) (s : PlanStep) (ss : List PlanStep) (a : Option (Job Usd))
        → Writes w (step_with money o id w l s ss a)
    step_with-Writes w l s ss none = same
    step_with-Writes w l s ss (some j) =
        limited-Writes w (open_step money o id w l s ss) (check_limits money w.now j) (steps _)

    after_step-Writes :
        (w : Run Usd) (l : Locals) (s : PlanStep) (step_id : Text) (ss : List PlanStep)
        → (r : StepReply) (t : Option (JobTables Usd))
        → ((u : JobTables Usd) → t ≡ some u → Write w.tables u)
        → Writes w (after_step money o id w l s step_id ss r t)
    after_step-Writes w l s step_id ss r none h = same
    after_step-Writes w l s step_id ss r (some t) h =
        both (h t refl) (both (summary _) (both (action _) (steps _)))

    save_step-Writes :
        (w : Run Usd) (l : Locals) (s : PlanStep) (step_id : Text) (ss : List PlanStep)
        → (r : StepReply) (a : Option (Job Usd))
        → Writes w (save_step money o id w l s step_id ss r a)
    save_step-Writes w l s step_id ss r none = same
    save_step-Writes w l s step_id ss r (some j) =
        after_step-Writes w l s step_id ss r
          (charge_tokens money o id l.coder r.tokens_in r.tokens_out w.tables)
          (charge_tokens-Write l.coder r.tokens_in r.tokens_out w.tables)

    code_with-Writes :
        (w : Run Usd) (l : Locals) (s : PlanStep) (step_id : Text) (ss : List PlanStep)
        → (r : Option StepReply) → Writes w (code_with money o id w l s step_id ss r)
    code_with-Writes w l s step_id ss none = same
    code_with-Writes w l s step_id ss (some r) =
        elim (Bool-cases (apply_diff money o id step_id r.diff)) [
          | inl applied ↦ rw applied (save_step-Writes w l s step_id ss r (get_job id w.tables))
          | inr refused ↦ rw refused same
        ]

    complete_with-Writes :
        (w : Run Usd) (t : JobTables Usd) (a : Option (Job Usd))
        → Write w.tables t
        → Writes w (complete_with money o id w t a)
    complete_with-Writes w t none h = same
    complete_with-Writes w t (some j) h = (both h (status w.now completed))

    linked-Writes : (w : Run Usd) (url : Option Text) → Writes w (linked money o id w url)
    linked-Writes w none = same
    linked-Writes w (some url) = complete_with-Writes w _ (get_job id w.tables) (link url)

    close_run-Writes : (w : Run Usd) → Writes w (close_run money o id w)
    close_run-Writes w = elim (Bool-cases o.dry_run) [
      | inl dry ↦ rw dry (complete_with-Writes w w.tables (get_job id w.tables) same)
      | inr wet ↦ rw wet (linked-Writes w o.open_pull_request)
    ]

    advance_from-Writes : (phase : Phase) (w : Run Usd) → Writes w (advance_from money o id phase w)
    advance_from-Writes start w = begin_with-Writes w (get_job id w.tables)
    advance_from-Writes (planning l) w = plan_with-Writes w l (o.create_plan l.cto l.task)
    advance_from-Writes (listing l ss) w = list_with-Writes w l ss (get_job id w.tables)
    advance_from-Writes (stepping l []) w = same
    advance_from-Writes (stepping l (s ∷ ss)) w = step_with-Writes w l s ss (get_job id w.tables)
    advance_from-Writes (coding l s step_id ss) w =
        code_with-Writes w l s step_id ss (o.implement_step l.coder l.task step_id s)
    advance_from-Writes closing w = close_run-Writes w
    advance_from-Writes failing w = (status w.now failed)
    advance_from-Writes skipped w = same
    advance_from-Writes done w = same
    advance_from-Writes raised w = same

    react-Writes : (e : Event) (w : Run Usd) → Writes w (react money o id e w)
    unfolding advance
    react-Writes work w = advance_from-Writes w.phase w
    react-Writes (cancel job_id) w = (cancels w.now job_id)
    react-Writes (wait n) w = same

    pub react_all-Writes :
        (es : List Event) (w : Run Usd) → Write w.tables (react_all money o id es w).tables
    react_all-Writes [] w = same
    react_all-Writes (e ∷ es) w =
        both (react-Writes e w) (react_all-Writes es (react money o id e w))

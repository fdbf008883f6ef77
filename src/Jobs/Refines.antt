-- ===== src/Jobs/Refines.antt =====
-- app/workers/job_worker.py: each event of a run does to the tables what the specification says.
use feature_frontend.Prelude.{
  ℕ, suc, ◌≡◌, refl, ap, ◌∙◌, Option, none, some, List, [], ◌∷◌, arith, Bool-cases, Option-cases,
  inl, inr, ◌+◌, ◌==◌,
}
use feature_frontend.Prelude.Text.{codes, Text, text_eq, text_eq_iff}
use feature_frontend.Auth.Database.{first_where}
use feature_frontend.Rows.{option_map, first_where-changed, first_where-unchanged}
use feature_frontend.Jobs.Tables.{
  Money, Job, JobTables, is_job, get_job, change_job, mark_job_cancelled, update_job_status,
  start_time, running, completed, failed, append_pr_link, CostEntry, add_cost, increment_costs,
}
use feature_frontend.Jobs.World.{
  PlanStep, PlanReply, StepReply, Services, Locals, Phase, start, failing, skipped, done, raised,
  planning, listing, stepping, coding, closing, Run, Event, work, cancel, wait, cancel_job,
}
use feature_frontend.Jobs.Charges.{charge_tokens, calculate_cost, check_limits, action_of}
use feature_frontend.Jobs.Worker.{
  advance, advance_from, react, react_all, add_plan, apply_diff, begin_with, plan_with, after_plan,
  list_with, code_with, after_step, save_step, complete_with, close_run, linked, give_up, step_with,
}
use feature_frontend.Jobs.Spec.{
  Deciding, Progress, account_of, progress, spec_from, spec_react, spec_all, spec_charge, spent,
  set_cancelled, spec_start, spec_plan, spec_list, spec_step, spec_code, spec_save, spec_close,
  spec_done, spec_linked, at, charged,
}

module _ {Usd : Type 0} (money : Money Usd) (o : Services Usd) (id : Text) where
  pub get_job-change_job :
      (f : Job Usd → Job Usd)
      → ((j : Job Usd) → is_job id (f j) ≡ is_job id j)
      → (t : JobTables Usd) → get_job id (change_job id f t) ≡ option_map f (get_job id t)
  get_job-change_job f keeps t = first_where-changed (is_job id) f keeps t.jobs

  -- Of a job, only what the specification keeps is looked at.
  abbrev seen : JobTables Usd → Option (Deciding Usd)
  seen t = option_map account_of (get_job id t)

  seen-change_job :
      (f : Job Usd → Job Usd) (g : Deciding Usd → Deciding Usd)
      → ((j : Job Usd) → is_job id (f j) ≡ is_job id j)
      → ((j : Job Usd) → account_of (f j) ≡ g (account_of j))
      → (t : JobTables Usd) → seen (change_job id f t) ≡ option_map g (seen t)
  seen-change_job f g keeps same t = elim (Option-cases (get_job id t)) [
    | inl missing ↦ rw (get_job-change_job f keeps t, missing) refl
    | inr (j, found) ↦ rw (get_job-change_job f keeps t, found) (ap some (same j))
  ]

  seen-increment_costs :
      (c : CostEntry Usd)
      → c.job_id ≡ id
      → (t : JobTables Usd)
      → seen (increment_costs money c t) ≡ option_map (spent money c.cost_usd) (seen t)
  seen-increment_costs c this t = rw this (
      seen-change_job (add_cost money c) (spent money c.cost_usd) (λ j. refl) (λ j. refl)
        (record t { costs = c ∷ t.costs }))

  pub jobs-add_plan :
      (now : ℕ) (ss : List PlanStep) (n : ℕ) (t : JobTables Usd)
      → (add_plan money o id now ss n t).jobs ≡ t.jobs
  jobs-add_plan now [] n t = refl
  jobs-add_plan now (s ∷ ss) n t = jobs-add_plan now ss (suc n) _

  seen-charge_tokens :
      (model : Text) (n m : ℕ) (t : JobTables Usd)
      → option_map seen (charge_tokens money o id model n m t)
        ≡ spec_charge money o id model n m (seen t)
  seen-charge_tokens model n m t = elim (Bool-cases (n + m == 0)) [
    | inl no_token ↦ rw no_token refl
    | inr counted ↦ rw counted (elim (Option-cases (get_job id t)) [
      | inl missing ↦ rw missing refl
      | inr (j, found) ↦ elim (Option-cases (calculate_cost money o id model n m)) [
        | inl unknown ↦ rw (found, unknown) refl
        | inr (cost, known) ↦
            rw (found, known)
              (ap some (
                seen-increment_costs
                  (record {
                    job_id = id;
                    provider = o.provider;
                    model = model;
                    tokens_in = n;
                    tokens_out = m;
                    cost_usd = cost;
                  })
                  refl t
                ∙ rw found refl))
      ]
    ])
  ]

  abbrev stand : Run Usd → Phase → (drawn : ℕ) → Option (Deciding Usd) → Progress Usd
  stand w phase drawn account = record {
    phase = phase;
    now = w.now;
    drawn = drawn;
    account = account;
  }

  -- A change of the job that the specification does not see.
  seen-hidden :
      (f : Job Usd → Job Usd)
      → ((j : Job Usd) → is_job id (f j) ≡ is_job id j)
      → ((j : Job Usd) → account_of (f j) ≡ account_of j)
      → (t : JobTables Usd) → seen (change_job id f t) ≡ seen t
  seen-hidden f keeps same t = elim (Option-cases (get_job id t)) [
    | inl missing ↦ rw (get_job-change_job f keeps t, missing) refl
    | inr (j, found) ↦ rw (get_job-change_job f keeps t, found) (ap some (same j))
  ]

  begin_with-progress :
      (w : Run Usd) (a : Option (Job Usd))
      → get_job id w.tables ≡ a
      → progress id (begin_with money o id w a)
        ≡ spec_start money o id (progress id w) (option_map account_of a)
  unfolding progress
  begin_with-progress w none found = refl
  begin_with-progress w (some j) found = elim (Bool-cases j.is_cancelled) [
    | inl cancelled_before ↦ rw cancelled_before refl
    | inr live ↦ rw live (
        ap (stand w _ w.drawn) (
          seen-change_job (update_job_status w.now running)
            (λ a. record a { started_at = start_time w.now running a.started_at }) (λ j. refl)
            (λ j. refl) w.tables
          ∙ rw found (rw live refl)))
  ]

  after_plan-progress :
      (w : Run Usd) (l : Locals) (r : PlanReply) (t : Option (JobTables Usd))
      → progress id (after_plan money o id w l r t)
        ≡ charged money o id (progress id w) (listing l r.steps) (option_map seen t)
  unfolding progress
  after_plan-progress w l r none = refl
  after_plan-progress w l r (some t) = refl

  plan_with-progress :
      (w : Run Usd) (l : Locals) (r : Option PlanReply)
      → progress id (plan_with money o id w l r) ≡ spec_plan money o id (progress id w) l r
  unfolding progress
  plan_with-progress w l none = refl
  plan_with-progress w l (some r) =
      after_plan-progress w l r (charge_tokens money o id l.cto r.tokens_in r.tokens_out w.tables)
      ∙ ap (charged money o id (progress id w) (listing l r.steps))
          (seen-charge_tokens l.cto r.tokens_in r.tokens_out w.tables)

  list_steps-progress :
      (w : Run Usd) (l : Locals) (ss : List PlanStep) (a : Option (Job Usd))
      → get_job id w.tables ≡ a
      → progress id (list_with money o id w l ss a)
        ≡ spec_list money o id (progress id w) l ss (option_map account_of a)
  unfolding progress
  list_steps-progress w l ss none found = refl
  list_steps-progress w l ss (some j) found = ap (stand w _ _) (
      ap (λ jobs. option_map account_of (first_where (is_job id) jobs))
        (jobs-add_plan w.now ss w.drawn _)
      ∙ seen-hidden (λ j. record j { last_action = some (codes "plan") }) (λ j. refl) (λ j. refl)
          w.tables
      ∙ ap (option_map account_of) refl)

  step_with-progress :
      (w : Run Usd) (l : Locals) (s : PlanStep) (ss : List PlanStep) (a : Option (Job Usd))
      → progress id (step_with money o id w l s ss a)
        ≡ spec_step money o id (progress id w) l (s ∷ ss) (option_map account_of a)
  unfolding progress check_limits
  step_with-progress w l s ss none = refl
  step_with-progress w l s ss (some j) = ground arith

  account-progress :
      (w : Run Usd) → option_map account_of (get_job id w.tables) ≡ (progress id w).account
  unfolding progress
  account-progress w = refl

  at_failing :
      (w : Run Usd) → progress id (record w { phase = failing }) ≡ at failing (progress id w)
  unfolding progress
  at_failing w = refl

  after_step-progress :
      (w : Run Usd) (l : Locals) (s : PlanStep) (step_id : Text) (ss : List PlanStep)
      → (r : StepReply) (t : Option (JobTables Usd))
      → progress id (after_step money o id w l s step_id ss r t)
        ≡ charged money o id (progress id w) (stepping l ss) (option_map seen t)
  unfolding progress
  after_step-progress w l s step_id ss r none = refl
  after_step-progress w l s step_id ss r (some t) = ap (stand w (stepping l ss) w.drawn) (
      seen-hidden (λ j. record j { last_action = action_of r.summary s }) (λ j. refl) (λ j. refl) t)

  save_step-progress :
      (w : Run Usd) (l : Locals) (s : PlanStep) (step_id : Text) (ss : List PlanStep)
      → (r : StepReply) (a : Option (Job Usd)) → get_job id w.tables ≡ a
      → progress id (save_step money o id w l s step_id ss r a)
        ≡ spec_save money o id (progress id w) l ss r (option_map account_of a)
  save_step-progress w l s step_id ss r none found = at_failing w
  save_step-progress w l s step_id ss r (some j) found =
      after_step-progress w l s step_id ss r _
      ∙ ap (charged money o id (progress id w) (stepping l ss)) (
          seen-charge_tokens l.coder r.tokens_in r.tokens_out w.tables
          ∙ ap (spec_charge money o id l.coder r.tokens_in r.tokens_out)
              (ap (option_map account_of) found))

  code_with-progress :
      (w : Run Usd) (l : Locals) (s : PlanStep) (step_id : Text) (ss : List PlanStep)
      → (r : Option StepReply)
      → progress id (code_with money o id w l s step_id ss r)
        ≡ spec_code money o id (progress id w) l step_id ss r
  unfolding progress
  code_with-progress w l s step_id ss none = refl
  code_with-progress w l s step_id ss (some r) =
      elim (Bool-cases (apply_diff money o id step_id r.diff)) [
        | inl applied ↦
            rw applied (save_step-progress w l s step_id ss r (get_job id w.tables) refl)
        | inr refused ↦ rw refused refl
      ]

  complete-progress :
      (w : Run Usd) (t : JobTables Usd) (a : Option (Job Usd))
      → seen t ≡ seen w.tables
      → progress id (complete_with money o id w t a)
        ≡ spec_done money o id (progress id w) (option_map account_of a)
  unfolding progress
  complete-progress w t none same = refl
  complete-progress w t (some j) same =
      ap (stand w done w.drawn)
        (seen-hidden (update_job_status w.now completed) (λ j. refl) (λ j. refl) t ∙ same)

  linked-progress :
      (w : Run Usd) (url : Option Text)
      → progress id (linked money o id w url) ≡ spec_linked money o id (progress id w) url
  linked-progress w none = at_failing w
  linked-progress w (some url) =
      complete-progress w _ (get_job id w.tables)
        (seen-hidden (append_pr_link url) (λ j. refl) (λ j. refl) w.tables)
      ∙ ap (λ a. spec_done money o id (progress id w) a) (account-progress w)

  close_run-progress :
      (w : Run Usd) → progress id (close_run money o id w) ≡ spec_close money o id (progress id w)
  close_run-progress w = elim (Bool-cases o.dry_run) [
    | inl dry ↦ rw dry (
        complete-progress w w.tables (get_job id w.tables) refl
        ∙ ap (λ a. spec_done money o id (progress id w) a) (account-progress w))
    | inr wet ↦ rw wet (linked-progress w o.open_pull_request)
  ]

  give_up-progress : (w : Run Usd) → progress id (give_up money o id w) ≡ at raised (progress id w)
  unfolding progress
  give_up-progress w =
      ap (stand w raised w.drawn)
        (seen-hidden (update_job_status w.now failed) (λ j. refl) (λ j. refl) w.tables)

  advance_from-progress :
      (phase : Phase) (w : Run Usd)
      → progress id (advance_from money o id phase w) ≡ spec_from money o id phase (progress id w)
  unfolding progress
  advance_from-progress start w = begin_with-progress w (get_job id w.tables) refl
  advance_from-progress (planning l) w = plan_with-progress w l (o.create_plan l.cto l.task)
  advance_from-progress (listing l ss) w = list_steps-progress w l ss (get_job id w.tables) refl
  advance_from-progress (stepping l []) w = refl
  advance_from-progress (stepping l (s ∷ ss)) w = step_with-progress w l s ss (get_job id w.tables)
  advance_from-progress (coding l s step_id ss) w =
      code_with-progress w l s step_id ss (o.implement_step l.coder l.task step_id s)
  advance_from-progress closing w = close_run-progress w
  advance_from-progress failing w = give_up-progress w
  advance_from-progress skipped w = refl
  advance_from-progress done w = refl
  advance_from-progress raised w = refl

  pub cancel-progress :
      (job_id : Text) (w : Run Usd)
      → progress id (cancel_job job_id w) ≡ spec_react money o id (cancel job_id) (progress id w)
  unfolding progress spec_react
  cancel-progress job_id w = elim (Bool-cases (text_eq job_id id)) [
    | inl this ↦
        let same : job_id ≡ id = (text_eq_iff job_id id).0 this in
        rw this (
          rw same (
            ap (stand w w.phase w.drawn) (
              seen-change_job (mark_job_cancelled w.now) set_cancelled (λ j. refl) (λ j. refl)
                w.tables)))
    | inr other ↦ rw other (
        ap (stand w w.phase w.drawn) (
          ap (option_map account_of) (
            first_where-unchanged (is_job id) (mark_job_cancelled w.now) (is_job job_id) (λ j. refl)
              (λ j h. ap (λ t. text_eq t id) ((text_eq_iff j.id job_id).0 h) ∙ other)
              w.tables.jobs)))
  ]

  react-progress :
      (e : Event) (w : Run Usd)
      → progress id (react money o id e w) ≡ spec_react money o id e (progress id w)
  unfolding progress advance spec_react
  react-progress work w = advance_from-progress w.phase w
  react-progress (cancel job_id) w = cancel-progress job_id w
  react-progress (wait n) w = refl

  -- Whatever happens, in whatever order, the run of a job and the columns of the job that decide
  -- what it does go on as the specification says.
  pub react_all-progress :
      (es : List Event) (w : Run Usd)
      → progress id (react_all money o id es w) ≡ spec_all money o id es (progress id w)
  react_all-progress [] w = refl
  react_all-progress (e ∷ es) w =
      react_all-progress es (react money o id e w)
      ∙ ap (spec_all money o id es) (react-progress e w)

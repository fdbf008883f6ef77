-- ===== src/Jobs/Final.antt =====
-- app/workers/job_worker.py: the status in which a run leaves its job.
use feature_frontend.Prelude.{
  ℕ, zero, suc, ◌≤◌, ◌≡◌, refl, sym, ap, ◌∙◌, true, Option, none, some, List, [], ◌∷◌, ◌⊎◌, ◌||◌,
  Bool-cases, inl, inr,
}
use mathlib.Core.Path.{subst}
use feature_frontend.Prelude.Text.{Text}
use feature_frontend.Jobs.Tables.{
  Money, Job, JobStatus, completed, failed, JobTables, get_job, change_job, update_job_status,
  is_job,
}
use feature_frontend.Jobs.World.{
  PlanStep, PlanReply, StepReply, Services, Locals, Phase, start, failing, skipped, done, raised,
  planning, listing, stepping, coding, closing, Run, Event, work,
}
use feature_frontend.Jobs.Charges.{charge_tokens, check_limits, LimitError}
use feature_frontend.Jobs.Worker.{
  advance, advance_from, execute_job, react_all, apply_diff, begin_with, plan_with, after_plan,
  list_with, limited, code_with, save_step, after_step, complete_with, close_run, linked, give_up,
  step_with, open_step,
}
use feature_frontend.Rows.{option_map, first_where-changed}
use feature_frontend.Jobs.Spec.{progress}
use feature_frontend.Jobs.Ends.{is_over, left, run-over, works}

module _ {Usd : Type 0} (money : Money Usd) (o : Services Usd) (id : Text) where
  abbrev EndedWith : JobStatus → ℕ → Job Usd → Type 0
  EndedWith s now j = (j.status ≡ s) × (j.finished_at ≡ some now)

  abbrev EndsWith : JobStatus → ℕ → Option (Job Usd) → Type 0
  EndsWith s now none = Unit
  EndsWith s now (some j) = EndedWith s now j

  abbrev WasSkipped : Option (Job Usd) → Type 0
  WasSkipped none = Unit
  WasSkipped (some j) = j.is_cancelled ≡ true

  -- What a run that is over says of its job.
  abbrev PhaseOutcome : Phase → ℕ → Option (Job Usd) → Type 0
  PhaseOutcome done now a = EndsWith completed now a
  PhaseOutcome raised now a = EndsWith failed now a
  PhaseOutcome skipped now a = WasSkipped a
  PhaseOutcome _ now a = Unit

  abbrev Outcome : Run Usd → Type 0
  Outcome w = PhaseOutcome w.phase w.now (get_job id w.tables)

  completed_now :
      (now : ℕ) (a : Option (Job Usd))
      → EndsWith completed now (option_map (update_job_status now completed) a)
  completed_now now none = tt
  completed_now now (some j) = (refl, refl)

  failed_now :
      (now : ℕ) (a : Option (Job Usd))
      → EndsWith failed now (option_map (update_job_status now failed) a)
  failed_now now none = tt
  failed_now now (some j) = (refl, refl)

  changed :
      (f : Job Usd → Job Usd)
      → ((j : Job Usd) → is_job id (f j) ≡ is_job id j)
      → (t : JobTables Usd) → get_job id (change_job id f t) ≡ option_map f (get_job id t)
  changed f keeps t = first_where-changed (is_job id) f keeps t.jobs

  begin_with-Outcome :
      (w : Run Usd) (a : Option (Job Usd))
      → get_job id w.tables ≡ a
      → Outcome (begin_with money o id w a)
  begin_with-Outcome w none found = tt
  begin_with-Outcome w (some j) found = elim (Bool-cases j.is_cancelled) [
    | inl before ↦ rw before (rw found before)
    | inr live ↦ rw live (tt)
  ]

  after_plan-Outcome :
      (w : Run Usd) (l : Locals) (r : PlanReply) (t : Option (JobTables Usd))
      → Outcome (after_plan money o id w l r t)
  after_plan-Outcome w l r none = tt
  after_plan-Outcome w l r (some t) = tt

  plan_with-Outcome :
      (w : Run Usd) (l : Locals) (r : Option PlanReply) → Outcome (plan_with money o id w l r)
  plan_with-Outcome w l none = tt
  plan_with-Outcome w l (some r) =
      after_plan-Outcome w l r (charge_tokens money o id l.cto r.tokens_in r.tokens_out w.tables)

  list_with-Outcome :
      (w : Run Usd) (l : Locals) (ss : List PlanStep) (a : Option (Job Usd))
      → Outcome (list_with money o id w l ss a)
  list_with-Outcome w l ss none = tt
  list_with-Outcome w l ss (some j) = elim (Bool-cases (o.dry_run || o.clone_or_update_repo)) [
    | inl made ↦ rw made tt
    | inr refused ↦ rw refused tt
  ]

  limited-Outcome :
      (w v : Run Usd) (e : Option LimitError) → Outcome v → Outcome (limited money o id w e v)
  limited-Outcome w v none h = h
  limited-Outcome w v (some e) h = tt

  step_with-Outcome :
      (w : Run Usd) (l : Locals) (s : PlanStep) (ss : List PlanStep) (a : Option (Job Usd))
      → Outcome (step_with money o id w l s ss a)
  step_with-Outcome w l s ss none = tt
  step_with-Outcome w l s ss (some j) =
      limited-Outcome w (open_step money o id w l s ss) (check_limits money w.now j) tt

  after_step-Outcome :
      (w : Run Usd) (l : Locals) (s : PlanStep) (step_id : Text) (ss : List PlanStep)
      → (r : StepReply) (t : Option (JobTables Usd))
      → Outcome (after_step money o id w l s step_id ss r t)
  after_step-Outcome w l s step_id ss r none = tt
  after_step-Outcome w l s step_id ss r (some t) = tt

  save_step-Outcome :
      (w : Run Usd) (l : Locals) (s : PlanStep) (step_id : Text) (ss : List PlanStep)
      → (r : StepReply) (a : Option (Job Usd)) → Outcome (save_step money o id w l s step_id ss r a)
  save_step-Outcome w l s step_id ss r none = tt
  save_step-Outcome w l s step_id ss r (some j) =
      after_step-Outcome w l s step_id ss r
        (charge_tokens money o id l.coder r.tokens_in r.tokens_out w.tables)

  code_with-Outcome :
      (w : Run Usd) (l : Locals) (s : PlanStep) (step_id : Text) (ss : List PlanStep)
      → (r : Option StepReply) → Outcome (code_with money o id w l s step_id ss r)
  code_with-Outcome w l s step_id ss none = tt
  code_with-Outcome w l s step_id ss (some r) =
      elim (Bool-cases (apply_diff money o id step_id r.diff)) [
        | inl applied ↦ rw applied (save_step-Outcome w l s step_id ss r (get_job id w.tables))
        | inr refused ↦ rw refused tt
      ]

  complete_with-Outcome :
      (w : Run Usd) (t : JobTables Usd) (a : Option (Job Usd))
      → Outcome (complete_with money o id w t a)
  complete_with-Outcome w t none = tt
  complete_with-Outcome w t (some j) =
      (subst (EndsWith completed w.now)
        (sym (changed (update_job_status w.now completed) (λ j. refl) t))
        (completed_now w.now (get_job id t)))

  linked-Outcome : (w : Run Usd) (url : Option Text) → Outcome (linked money o id w url)
  linked-Outcome w none = tt
  linked-Outcome w (some url) = complete_with-Outcome w _ (get_job id w.tables)

  close_run-Outcome : (w : Run Usd) → Outcome (close_run money o id w)
  close_run-Outcome w = elim (Bool-cases o.dry_run) [
    | inl dry ↦ rw dry (complete_with-Outcome w w.tables (get_job id w.tables))
    | inr wet ↦ rw wet (linked-Outcome w o.open_pull_request)
  ]

  give_up-Outcome : (w : Run Usd) → Outcome (give_up money o id w)
  give_up-Outcome w =
      (subst (EndsWith failed w.now)
        (sym (changed (update_job_status w.now failed) (λ j. refl) w.tables))
        (failed_now w.now (get_job id w.tables)))

  advance_from-Outcome :
      (phase : Phase) (w : Run Usd)
      → w.phase ≡ phase
      → Outcome w
      → Outcome (advance_from money o id phase w)
  advance_from-Outcome start w here h = begin_with-Outcome w (get_job id w.tables) refl
  advance_from-Outcome (planning l) w here h = plan_with-Outcome w l (o.create_plan l.cto l.task)
  advance_from-Outcome (listing l ss) w here h = list_with-Outcome w l ss (get_job id w.tables)
  advance_from-Outcome (stepping l []) w here h = tt
  advance_from-Outcome (stepping l (s ∷ ss)) w here h =
      step_with-Outcome w l s ss (get_job id w.tables)
  advance_from-Outcome (coding l s step_id ss) w here h =
      code_with-Outcome w l s step_id ss (o.implement_step l.coder l.task step_id s)
  advance_from-Outcome closing w here h = close_run-Outcome w
  advance_from-Outcome failing w here h = give_up-Outcome w
  advance_from-Outcome skipped w here h = h
  advance_from-Outcome done w here h = h
  advance_from-Outcome raised w here h = h

  execute_job-Outcome :
      (fuel : ℕ) (w : Run Usd) → Outcome w → Outcome (execute_job money o id fuel w)
  unfolding advance
  execute_job-Outcome zero w h = h
  execute_job-Outcome (suc n) w h =
      execute_job-Outcome n (advance money o id w) (advance_from-Outcome w.phase w refl h)

  abbrev many : ℕ → List Event
  many zero = []
  many (suc n) = work ∷ many n

  works-many : (n : ℕ) → works (many n) ≡ n
  works-many zero = refl
  works-many (suc n) = ap suc (works-many n)

  execute_job-react_all :
      (fuel : ℕ) (w : Run Usd) → execute_job money o id fuel w ≡ react_all money o id (many fuel) w
  execute_job-react_all zero w = refl
  execute_job-react_all (suc n) w = execute_job-react_all n (advance money o id w)

  abbrev pub Ending : Phase → ℕ → Job Usd → Type 0
  Ending phase now j =
      ((phase ≡ done) × (j.status ≡ completed) × (j.finished_at ≡ some now))
      ⊎ (((phase ≡ raised) × (j.status ≡ failed) × (j.finished_at ≡ some now))
          ⊎ ((phase ≡ skipped) × (j.is_cancelled ≡ true)))

  ending :
      (phase : Phase) (now : ℕ) (j : Job Usd)
      → is_over phase ≡ true
      → PhaseOutcome phase now (some j)
      → Ending phase now j
  ending done now j h (s, f) = inl (refl, s, f)
  ending raised now j h (s, f) = inr (inl (refl, s, f))
  ending skipped now j h c = inr (inr (refl, c))
  ending start now j h c = absurd (cc)
  ending failing now j h c = absurd (cc)
  ending closing now j h c = absurd (cc)
  ending (planning l) now j h c = absurd (cc)
  ending (listing l ss) now j h c = absurd (cc)
  ending (stepping l ss) now j h c = absurd (cc)
  ending (coding l s step_id ss) now j h c = absurd (cc)

  begun-Outcome : (w : Run Usd) → w.phase ≡ start → Outcome w
  begun-Outcome w h = rw h tt

  -- A run that nothing interferes with, from the start, comes to an end within twice the length of
  -- its plan and 6 transactions. It leaves its job completed, or failed because something raised,
  -- with the time as its end, or it was not begun because the job was cancelled before.
  pub execute_job-ends :
      (fuel : ℕ) (w : Run Usd)
      → w.phase ≡ start
      → left money o id (progress id w) ≤ fuel
      → (j : Job Usd) → get_job id (execute_job money o id fuel w).tables ≡ some j
      → Ending (execute_job money o id fuel w).phase (execute_job money o id fuel w).now j
  execute_job-ends fuel w h enough j found =
      let v = execute_job money o id fuel w in
      let is_last : is_over v.phase ≡ true =
        ap (λ (v : Run Usd). is_over v.phase) (execute_job-react_all fuel w)
        ∙ run-over money o id (many fuel) w (rw (works-many fuel) enough) in
      ending v.phase v.now j is_last
        (subst (PhaseOutcome v.phase v.now) found (execute_job-Outcome fuel w (begun-Outcome w h)))

-- ===== src/Jobs/Worker.antt =====
-- app/workers/job_worker.py, `execute_job`, as the transactions that it commits, one after the
-- other.
use feature_frontend.Prelude.{
  ℕ, zero, suc, ◌+◌, Bool, true, Option, none, some, List, [], ◌∷◌, ◌||◌, take, if◌then◌else◌,
}
use feature_frontend.Prelude.Text.{Text, codes}
use feature_frontend.Jobs.Tables.{
  Money, running, completed, failed, Job, JobTables, plan, execution, update_job_status,
  update_step, append_pr_link, get_job, change_job, create_step, change_step, add_message_summary,
  MessageSummary,
}
use feature_frontend.Jobs.Charges.{
  LimitError, action_of, charge_tokens, check_limits, count_steps, text_or, title_or,
}
use feature_frontend.Jobs.World.{
  PlanStep, PlanReply, StepReply, Services, Locals, Phase, start, failing, skipped, done, raised,
  planning, listing, stepping, coding, closing, job_updated, job_completed, job_failed, Run, Event,
  work, cancel, wait, emit, cancel_job,
}

module _ {Usd : Type 0} where
  abbrev fail : Run Usd → Run Usd
  fail w = record w { phase = failing }

module _ {Usd : Type 0} (money : Money Usd) where
  module _ (o : Services Usd) (id : Text) where
    abbrev pub go : Phase → JobTables Usd → Run Usd → Run Usd
    go phase t w = record w { phase = phase; tables = t }

    abbrev locals_of : Job Usd → Locals
    locals_of j = record {
      task = j.task;
      cto = text_or j.model_cto o.model_cto;
      coder = text_or j.model_coder o.model_coder;
    }

    abbrev pub begin_with : Run Usd → Option (Job Usd) → Run Usd
    begin_with w none = fail w
    begin_with w (some j) =
        if j.is_cancelled
        then record w { phase = skipped }
        else emit job_updated id (
            go (planning (locals_of j)) (change_job id (update_job_status w.now running) w.tables)
              w)

    abbrev pub after_plan : Run Usd → Locals → PlanReply → Option (JobTables Usd) → Run Usd
    after_plan w l r none = fail w
    after_plan w l r (some t) = emit job_updated id (
        go (listing l r.steps)
          (add_message_summary
            (record {
              job_id = id;
              step_id = none;
              role = codes "cto-plan";
              summary = take 2000 (o.dumps r.steps);
              tokens = r.tokens_out;
            })
            t)
          w)

    abbrev pub plan_with : Run Usd → Locals → Option PlanReply → Run Usd
    plan_with w l none = fail w
    plan_with w l (some r) =
        after_plan w l r (charge_tokens money o id l.cto r.tokens_in r.tokens_out w.tables)

    -- The steps of the plan, each of them a row that is completed.
    abbrev pub add_plan : ℕ → List PlanStep → ℕ → JobTables Usd → JobTables Usd
    add_plan now [] n t = t
    add_plan now (s ∷ ss) n t = add_plan now ss (suc n) (
        change_step (o.uuid n) (update_step now completed (some (codes "planned")))
          (create_step (o.uuid n) id (title_or s (codes "Step")) plan t))

    abbrev pub list_with : Run Usd → Locals → List PlanStep → Option (Job Usd) → Run Usd
    list_with w l ss none = fail w
    list_with w l ss (some j) =
        let t = change_job id (λ j. record j { last_action = some (codes "plan") }) w.tables in
        let next = if o.dry_run || o.clone_or_update_repo then stepping l ss else failing in
        emit job_updated id
          (go next (add_plan w.now ss w.drawn t) (record w { drawn = w.drawn + count_steps ss }))

    -- The steps are written, and the working copy is made.
    abbrev pub list_steps : Run Usd → Locals → List PlanStep → Run Usd
    list_steps w l ss = list_with w l ss (get_job id w.tables)

    abbrev pub open_step : Run Usd → Locals → PlanStep → List PlanStep → Run Usd
    open_step w l s ss =
        go (coding l s (o.uuid w.drawn) ss)
          (change_step (o.uuid w.drawn) (update_step w.now running none)
            (create_step (o.uuid w.drawn) id (title_or s (codes "step")) execution w.tables))
          (record w { drawn = suc w.drawn })

    abbrev pub limited : Run Usd → Option LimitError → Run Usd → Run Usd
    limited w none v = v
    limited w (some e) v = fail w

    abbrev pub step_with : Run Usd → Locals → PlanStep → List PlanStep → Option (Job Usd) → Run Usd
    step_with w l s ss none = fail w
    step_with w l s ss (some j) = limited w (check_limits money w.now j) (open_step w l s ss)

    abbrev pub next_step : Run Usd → Locals → List PlanStep → Run Usd
    next_step w l [] = record w { phase = closing }
    next_step w l (s ∷ ss) = step_with w l s ss (get_job id w.tables)

    abbrev step_summary : Text → StepReply → MessageSummary
    step_summary step_id r = record {
      job_id = id;
      step_id = some step_id;
      role = codes "coder-step";
      summary = take 2000 r.summary;
      tokens = r.tokens_out;
    }

    abbrev pub after_step :
        Run Usd
        → Locals
        → PlanStep
        → Text
        → List PlanStep
        → StepReply
        → Option (JobTables Usd)
        → Run Usd
    after_step w l s step_id ss r none = fail w
    after_step w l s step_id ss r (some t) =
        let summarised = add_message_summary (step_summary step_id r) t in
        let acted =
          change_job id (λ j. record j { last_action = action_of r.summary s }) summarised in
        go (stepping l ss)
          (change_step step_id (update_step w.now completed (some r.summary)) acted) w

    abbrev pub save_step :
        Run Usd → Locals → PlanStep → Text → List PlanStep → StepReply → Option (Job Usd) → Run Usd
    save_step w l s step_id ss r none = fail w
    save_step w l s step_id ss r (some j) =
        after_step w l s step_id ss r
          (charge_tokens money o id l.coder r.tokens_in r.tokens_out w.tables)

    -- `if diff_text: ...`
    abbrev pub apply_diff : Text → Text → Bool
    apply_diff step_id [] = true
    apply_diff step_id (c ∷ diff) = o.apply_and_commit step_id (c ∷ diff)

    abbrev pub code_with :
        Run Usd → Locals → PlanStep → Text → List PlanStep → Option StepReply → Run Usd
    code_with w l s step_id ss none = fail w
    code_with w l s step_id ss (some r) =
        if apply_diff step_id r.diff
        then save_step w l s step_id ss r (get_job id w.tables)
        else fail w

    abbrev pub complete_with : Run Usd → JobTables Usd → Option (Job Usd) → Run Usd
    complete_with w t none = fail w
    complete_with w t (some j) =
        emit job_completed id (go done (change_job id (update_job_status w.now completed) t) w)

    abbrev pub linked : Run Usd → Option Text → Run Usd
    linked w none = fail w
    linked w (some url) =
        complete_with w (change_job id (append_pr_link url) w.tables) (get_job id w.tables)

    abbrev pub close_run : Run Usd → Run Usd
    close_run w =
        if o.dry_run
        then complete_with w w.tables (get_job id w.tables)
        else linked w o.open_pull_request

    -- The `except` branch.
    abbrev pub give_up : Run Usd → Run Usd
    give_up w =
        emit job_failed id (go raised (change_job id (update_job_status w.now failed) w.tables) w)

    -- The worker gets to the end of its next transaction.
    abbrev pub advance_from : Phase → Run Usd → Run Usd
    advance_from start w = begin_with w (get_job id w.tables)
    advance_from (planning l) w = plan_with w l (o.create_plan l.cto l.task)
    advance_from (listing l ss) w = list_steps w l ss
    advance_from (stepping l ss) w = next_step w l ss
    advance_from (coding l s step_id ss) w =
        code_with w l s step_id ss (o.implement_step l.coder l.task step_id s)
    advance_from closing w = close_run w
    advance_from failing w = give_up w
    advance_from skipped w = w
    advance_from done w = w
    advance_from raised w = w

    unfoldable pub advance : Run Usd → Run Usd
    unfolding check_limits
    advance w = advance_from w.phase w

    -- `execute_job` with nothing in between, for as many transactions as the fuel.
    abbrev pub execute_job : (fuel : ℕ) → Run Usd → Run Usd
    execute_job zero w = w
    execute_job (suc n) w = execute_job n (advance w)

    -- Something happens: the worker gets on, a user cancels a job, or time passes.
    abbrev pub react : Event → Run Usd → Run Usd
    react work w = advance w
    react (cancel job_id) w = cancel_job job_id w
    react (wait n) w = record w { now = w.now + n }

    abbrev pub react_all : List Event → Run Usd → Run Usd
    react_all [] w = w
    react_all (e ∷ es) w = react_all es (react e w)

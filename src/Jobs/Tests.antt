-- ===== src/Jobs/Tests.antt =====
-- app/workers/job_worker.py on a sample job: a plan of two steps, with a cost of one cent a call.
use feature_frontend.Prelude.{
  ℕ, ◌+◌, ◌≤◌, ◌≡◌, refl, true, false, none, some, List, [], ◌∷◌, leb, arith,
}
use feature_frontend.Prelude.Text.{codes}
use feature_frontend.Jobs.Tables.{
  Money, Job, pending, completed, failed, JobTables, TaskRequest, get_job, create_job,
}
use feature_frontend.Jobs.World.{
  PlanStep, Services, start, done, Run, Event, work, cancel, wait, cancel_job,
}
use feature_frontend.Jobs.Worker.{execute_job, react_all, advance}
use feature_frontend.Jobs.Spec.{progress, spec_all}
use feature_frontend.Jobs.Refines.{react_all-progress}
use feature_frontend.Jobs.Ends.{is_over, run-over}
use feature_frontend.Jobs.Bounds.{run-requests}
use feature_frontend.Jobs.Totals.{Balanced, run-Balanced}
use feature_frontend.Jobs.Cancel.{cancel-ignored}
use feature_frontend.Jobs.Final.{Ending, execute_job-ends}

abbrev cents : Money ℕ
cents = record { no_cost = 0; plus = ◌+◌; reaches = λ a b. leb b a; share = λ n p. p }

abbrev two_steps : List PlanStep
two_steps =
    let step : PlanStep = record { title = some (codes "a"); body = codes "" } in step ∷ step ∷ []

abbrev sample : Services ℕ
sample = record {
  dry_run = false;
  model_cto = codes "m";
  model_coder = codes "m";
  provider = codes "p";
  prices = (codes "default", some (record { input = 1; output = 0 })) ∷ [];
  create_plan = λ model task. some (record { steps = two_steps; tokens_in = 5; tokens_out = 1 });
  implement_step = λ model task step_id step.
      some (record { diff = codes "d"; summary = codes "s"; tokens_in = 5; tokens_out = 1 });
  dumps = λ steps. codes "plan";
  uuid = λ n. n ∷ [];
  clone_or_update_repo = true;
  apply_and_commit = λ step_id diff. true;
  open_pull_request = some (codes "url");
}

abbrev request_for : (max_requests : ℕ) → TaskRequest ℕ
request_for max_requests = record {
  task = codes "t";
  repo_owner = codes "o";
  repo_name = codes "r";
  branch_base = codes "main";
  budget_usd = 100;
  max_requests = max_requests;
  max_minutes = 10;
  model_cto = none;
  model_coder = none;
  agents_hash = none;
}

abbrev no_rows : JobTables ℕ
no_rows = record { jobs = []; steps = []; costs = []; summaries = [] }

abbrev world : (max_requests : ℕ) → Run ℕ
unfolding create_job
world max_requests = record {
  phase = start;
  tables = create_job cents (codes "j") 0 (request_for max_requests) no_rows;
  now = 0;
  drawn = 0;
  events = [];
}

-- The job is cancelled after the plan was made.
abbrev meanwhile : List Event
meanwhile =
    work ∷ wait 1 ∷ work ∷ cancel (codes "j") ∷ work ∷ work ∷ work ∷ work ∷ work ∷ work ∷ work ∷ []

all_done : (react_all cents sample (codes "j") meanwhile (world 3)).phase ≡ done
unfolding advance world
all_done = refl

react_all-progress_example :
    progress (codes "j") (react_all cents sample (codes "j") meanwhile (world 3))
    ≡ spec_all cents sample (codes "j") meanwhile (progress (codes "j") (world 3))
react_all-progress_example = react_all-progress cents sample (codes "j") meanwhile (world 3)

run-over_example :
    is_over (react_all cents sample (codes "j") (work ∷ meanwhile) (world 3)).phase ≡ true
unfolding progress world
run-over_example = run-over cents sample (codes "j") (work ∷ meanwhile) (world 3) (omega arith)

-- The row before the run, and after it.
abbrev fresh : Job ℕ
fresh = record {
  id = codes "j";
  task = codes "t";
  repo_owner = codes "o";
  repo_name = codes "r";
  branch_base = codes "main";
  status = pending;
  budget_usd = 100;
  max_requests = 3;
  max_minutes = 10;
  model_cto = none;
  model_coder = none;
  cost_usd = 0;
  tokens_in = 0;
  tokens_out = 0;
  requests_made = 0;
  started_at = none;
  finished_at = none;
  is_cancelled = false;
  last_action = none;
  pr_links = [];
  agents_hash = none;
  created_at = 0;
}

abbrev ended : Job ℕ
ended = record fresh {
  status = completed;
  cost_usd = 3;
  tokens_in = 15;
  tokens_out = 3;
  requests_made = 3;
  started_at = some 0;
  finished_at = some 0;
  last_action = some (codes "s");
  pr_links = codes "url" ∷ [];
}

created : get_job (codes "j") (world 3).tables ≡ some fresh
unfolding world
created = refl

ran : get_job (codes "j") (execute_job cents sample (codes "j") 10 (world 3)).tables ≡ some ended
unfolding advance world
ran = refl

execute_job-ends_example : Ending cents sample (codes "j") done 0 ended
unfolding world progress advance
execute_job-ends_example =
    execute_job-ends cents sample (codes "j") 10 (world 3) refl (omega arith) ended refl

-- With a limit of two requests the second step is not begun.
abbrev stopped : Job ℕ
stopped = record fresh {
  status = failed;
  max_requests = 2;
  cost_usd = 2;
  tokens_in = 10;
  tokens_out = 2;
  requests_made = 2;
  started_at = some 0;
  finished_at = some 0;
  last_action = some (codes "s");
}

limited_run :
    get_job (codes "j") (execute_job cents sample (codes "j") 10 (world 2)).tables ≡ some stopped
unfolding advance world
limited_run = refl

run-requests_example : 2 ≤ 2
unfolding progress world advance
run-requests_example =
    run-requests cents sample (codes "j") (work ∷ work ∷ work ∷ work ∷ work ∷ work ∷ work ∷ [])
      (world 2) (omega arith) stopped refl

run-Balanced_example :
    Balanced cents (codes "j") (react_all cents sample (codes "j") meanwhile (world 3)).tables
unfolding world
run-Balanced_example = run-Balanced cents (codes "j") sample meanwhile (world 3) refl

cancel-ignored_example :
    (react_all cents sample
      (codes "j")
      (work ∷ work ∷ [])
      (cancel_job (codes "j") (execute_job cents sample (codes "j") 2 (world 3)))).phase
    ≡ (react_all cents sample
        (codes "j")
        (work ∷ work ∷ [])
        (execute_job cents sample (codes "j") 2 (world 3))).phase
unfolding advance world
cancel-ignored_example =
    cancel-ignored cents sample (codes "j") (work ∷ work ∷ [])
      (execute_job cents sample (codes "j") 2 (world 3)) refl

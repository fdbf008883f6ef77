-- ===== src/Jobs/Tables.antt =====
-- app/db/models.py and app/db/repo.py: the tables of the agent server and their operations. A table
-- is the list of its rows, the newest first. A cost is a floating-point number, so its arithmetic
-- is a parameter.
use feature_frontend.Prelude.{
  ℕ, suc, ◌+◌, Bool, true, false, Option, none, some, List, [], ◌∷◌, ◌++◌,
}
use feature_frontend.Prelude.Text.{Text, text_eq}
use feature_frontend.Auth.Database.{first_where, update_where}

pub record Money (Usd : Type 0) : Type 0 where
  pub no_cost : Usd
  pub plus : Usd → Usd → Usd
  -- `>=`
  pub reaches : Usd → Usd → Bool
  -- `(tokens / 1000) * price`
  pub share : (tokens : ℕ) → (price : Usd) → Usd

-- The texts of the columns `jobs.status` and `job_steps.status`.
pub data JobStatus : Type 0 where
  pending running completed failed cancelled : JobStatus

pub record Job (Usd : Type 0) : Type 0 where
  pub id : Text
  pub task : Text
  pub repo_owner : Text
  pub repo_name : Text
  pub branch_base : Text
  pub status : JobStatus
  pub budget_usd : Usd
  pub max_requests : ℕ
  pub max_minutes : ℕ
  pub model_cto : Option Text
  pub model_coder : Option Text
  pub cost_usd : Usd
  pub tokens_in : ℕ
  pub tokens_out : ℕ
  pub requests_made : ℕ
  pub started_at : Option ℕ
  pub finished_at : Option ℕ
  pub is_cancelled : Bool
  pub last_action : Option Text
  pub pr_links : List Text
  pub agents_hash : Option Text
  pub created_at : ℕ

pub data StepType : Type 0 where
  plan execution : StepType

pub record JobStep : Type 0 where
  pub id : Text
  pub job_id : Text
  pub name : Text
  pub step_type : StepType
  pub status : JobStatus
  pub details : Option Text
  pub started_at : Option ℕ
  pub finished_at : Option ℕ

pub record CostEntry (Usd : Type 0) : Type 0 where
  pub job_id : Text
  pub provider : Text
  pub model : Text
  pub tokens_in : ℕ
  pub tokens_out : ℕ
  pub cost_usd : Usd

pub record MessageSummary : Type 0 where
  pub job_id : Text
  pub step_id : Option Text
  pub role : Text
  pub summary : Text
  pub tokens : ℕ

pub record JobTables (Usd : Type 0) : Type 0 where
  pub jobs : List (Job Usd)
  pub steps : List JobStep
  pub costs : List (CostEntry Usd)
  pub summaries : List MessageSummary

-- The fields of a request for a job.
pub record TaskRequest (Usd : Type 0) : Type 0 where
  pub task : Text
  pub repo_owner : Text
  pub repo_name : Text
  pub branch_base : Text
  pub budget_usd : Usd
  pub max_requests : ℕ
  pub max_minutes : ℕ
  pub model_cto : Option Text
  pub model_coder : Option Text
  pub agents_hash : Option Text

-- `now` for a status that starts, or ends, what it is the status of.
abbrev pub start_time : ℕ → JobStatus → Option ℕ → Option ℕ
start_time now running none = some now
start_time now running (some t) = some t
start_time now _ t = t

abbrev pub finish_time : ℕ → JobStatus → Option ℕ → Option ℕ
finish_time now completed t = some now
finish_time now failed t = some now
finish_time now cancelled t = some now
finish_time now pending t = t
finish_time now running t = t

-- `update_step` sets no time for a step that is cancelled.
abbrev step_finish_time : ℕ → JobStatus → Option ℕ → Option ℕ
step_finish_time now completed t = some now
step_finish_time now failed t = some now
step_finish_time now _ t = t

abbrev pub update_step : ℕ → JobStatus → Option Text → JobStep → JobStep
update_step now status details s = record s {
  status = status;
  details = details;
  started_at = start_time now status s.started_at;
  finished_at = step_finish_time now status s.finished_at;
}

abbrev new_step : (id job_id name : Text) → StepType → JobStep
new_step id job_id name step_type = record {
  id = id;
  job_id = job_id;
  name = name;
  step_type = step_type;
  status = pending;
  details = none;
  started_at = none;
  finished_at = none;
}

module _ {Usd : Type 0} where
  abbrev pub update_job_status : ℕ → JobStatus → Job Usd → Job Usd
  update_job_status now status j = record j {
    status = status;
    started_at = start_time now status j.started_at;
    finished_at = finish_time now status j.finished_at;
  }

  abbrev pub mark_job_cancelled : ℕ → Job Usd → Job Usd
  mark_job_cancelled now j = record j {
    is_cancelled = true;
    status = cancelled;
    finished_at = some now;
  }

  abbrev pub append_pr_link : Text → Job Usd → Job Usd
  append_pr_link link j = record j { pr_links = j.pr_links ++ link ∷ [] }

  abbrev pub is_job : Text → Job Usd → Bool
  is_job id j = text_eq j.id id

  abbrev pub get_job : Text → JobTables Usd → Option (Job Usd)
  get_job id t = first_where (is_job id) t.jobs

  -- Columns of a job that was loaded are assigned.
  abbrev pub change_job : Text → (Job Usd → Job Usd) → JobTables Usd → JobTables Usd
  change_job id f t = record t { jobs = update_where (is_job id) f t.jobs }

  abbrev pub create_step : (id job_id name : Text) → StepType → JobTables Usd → JobTables Usd
  create_step id job_id name step_type t = record t {
    steps = new_step id job_id name step_type ∷ t.steps;
  }

  -- `get_step`, and `update_step` where there is one.
  abbrev pub change_step : Text → (JobStep → JobStep) → JobTables Usd → JobTables Usd
  change_step id f t = record t { steps = update_where (λ s. text_eq s.id id) f t.steps }

  abbrev pub add_message_summary : MessageSummary → JobTables Usd → JobTables Usd
  add_message_summary m t = record t { summaries = m ∷ t.summaries }

module _ {Usd : Type 0} (money : Money Usd) where
  abbrev pub add_cost : CostEntry Usd → Job Usd → Job Usd
  add_cost c j = record j {
    tokens_in = j.tokens_in + c.tokens_in;
    tokens_out = j.tokens_out + c.tokens_out;
    cost_usd = money.plus j.cost_usd c.cost_usd;
    requests_made = suc j.requests_made;
  }

  abbrev pub increment_costs : CostEntry Usd → JobTables Usd → JobTables Usd
  increment_costs c t = change_job c.job_id (add_cost c) (record t { costs = c ∷ t.costs })

  unfoldable pub create_job :
      (id : Text) → (now : ℕ) → TaskRequest Usd → JobTables Usd → JobTables Usd
  create_job id now r t = record t {
    jobs =
        record {
          id = id;
          task = r.task;
          repo_owner = r.repo_owner;
          repo_name = r.repo_name;
          branch_base = r.branch_base;
          status = pending;
          budget_usd = r.budget_usd;
          max_requests = r.max_requests;
          max_minutes = r.max_minutes;
          model_cto = r.model_cto;
          model_coder = r.model_coder;
          cost_usd = money.no_cost;
          tokens_in = 0;
          tokens_out = 0;
          requests_made = 0;
          started_at = none;
          finished_at = none;
          is_cancelled = false;
          last_action = none;
          pr_links = [];
          agents_hash = r.agents_hash;
          created_at = now;
        }
        ∷ t.jobs;
  }

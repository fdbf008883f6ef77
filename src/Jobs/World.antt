-- ===== src/Jobs/World.antt =====
-- What a run of app/workers/job_worker.py sees: its place in the code, `Phase`, the tables, and
-- what it calls. Between two of its transactions other programs change the tables, so a run is a
-- sequence of events. An exception rolls its transaction back and leads to `failing`, the `except`
-- branch. The agents, the Git commands and the working copy are parameters.
use feature_frontend.Prelude.{ℕ, Bool, Option, none, some, List, ◌∷◌}
use feature_frontend.Prelude.Text.{Text}
use feature_frontend.Jobs.Tables.{Job, JobTables, get_job, change_job, mark_job_cancelled}

-- A step of a plan: its title, where it has one, and the rest of its JSON.
pub record PlanStep : Type 0 where
  pub title : Option Text
  pub body : Text

pub record PlanReply : Type 0 where
  pub steps : List PlanStep
  pub tokens_in : ℕ
  pub tokens_out : ℕ

pub record StepReply : Type 0 where
  pub diff : Text
  pub summary : Text
  pub tokens_in : ℕ
  pub tokens_out : ℕ

pub record Pricing (Usd : Type 0) : Type 0 where
  pub input : Usd
  pub output : Usd

-- What the worker calls; `none` and `false` are exceptions.
pub record Services (Usd : Type 0) : Type 0 where
  pub dry_run : Bool
  pub model_cto : Text
  pub model_coder : Text
  pub provider : Text
  -- pricing.json; an entry without prices is `none`.
  pub prices : List (Text × Option (Pricing Usd))
  -- `_prepare_messages`, then `CTOAgent.create_plan` or `CoderAgent.implement_step`
  pub create_plan : (model task : Text) → Option PlanReply
  pub implement_step : (model task step_id : Text) → PlanStep → Option StepReply
  pub dumps : List PlanStep → Text
  -- `uuid4`, by how many were drawn before.
  pub uuid : ℕ → Text
  -- The working copy: cloned and on a new branch; changed by a diff, and committed; pushed, and a
  -- pull request opened, with its address.
  pub clone_or_update_repo : Bool
  pub apply_and_commit : (step_id diff : Text) → Bool
  pub open_pull_request : Option Text

-- The variables that the run reads from the job once.
pub record Locals : Type 0 where
  pub task : Text
  pub cto : Text
  pub coder : Text

pub data Phase : Type 0 where
  start failing skipped done raised : Phase
  planning : Locals → Phase
  listing : Locals → List PlanStep → Phase
  stepping : Locals → List PlanStep → Phase
  coding : Locals → PlanStep → Text → List PlanStep → Phase
  closing : Phase

pub data EventType : Type 0 where
  job_updated job_completed job_failed job_cancelled : EventType

pub record Run (Usd : Type 0) : Type 0 where
  pub phase : Phase
  pub tables : JobTables Usd
  pub now : ℕ
  pub drawn : ℕ
  -- The events that were published, the newest first, with the job as `serialize_job` found it.
  pub events : List (EventType × Job Usd)

pub data Event : Type 0 where
  work : Event
  cancel : Text → Event
  wait : ℕ → Event

module _ {Usd : Type 0} where
  abbrev published :
      EventType → Option (Job Usd) → List (EventType × Job Usd) → List (EventType × Job Usd)
  published kind none events = events
  published kind (some j) events = (kind, j) ∷ events

  -- `emit_job_event_for_id`
  abbrev pub emit : EventType → Text → Run Usd → Run Usd
  emit kind id w = record w { events = published kind (get_job id w.tables) w.events }

  -- The route of app/routers/jobs.py that cancels a job.
  abbrev pub cancel_job : Text → Run Usd → Run Usd
  cancel_job id w =
      emit job_cancelled id
        (record w { tables = change_job id (mark_job_cancelled w.now) w.tables })

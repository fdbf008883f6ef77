-- ===== src/Jobs/Spec.antt =====
-- What a run of app/workers/job_worker.py promises, without the tables: where it is, and the few
-- columns of its job that decide what it does next.
use feature_frontend.Prelude.{
  ℕ, suc, ◌+◌, Bool, true, not, ◌&&◌, Option, none, some, List, [], ◌∷◌, ◌==◌, ◌||◌, ltb,
  if◌then◌else◌,
}
use feature_frontend.Prelude.Text.{Text, text_eq}
use feature_frontend.Rows.{option_map}
use feature_frontend.Jobs.Tables.{Money, running, Job, get_job, start_time}
use feature_frontend.Jobs.World.{
  PlanStep, PlanReply, StepReply, Services, Locals, Phase, start, failing, skipped, done, raised,
  planning, listing, stepping, coding, closing, Run, Event, work, cancel, wait,
}
use feature_frontend.Jobs.Charges.{text_or, outlasted, calculate_cost, count_steps}
use feature_frontend.Jobs.Worker.{apply_diff}

-- The columns that decide.
pub record Deciding (Usd : Type 0) : Type 0 where
  pub task : Text
  pub model_cto : Option Text
  pub model_coder : Option Text
  pub is_cancelled : Bool
  pub cost_usd : Usd
  pub budget_usd : Usd
  pub requests_made : ℕ
  pub max_requests : ℕ
  pub started_at : Option ℕ
  pub max_minutes : ℕ

pub record Progress (Usd : Type 0) : Type 0 where
  pub phase : Phase
  pub now : ℕ
  pub drawn : ℕ
  pub account : Option (Deciding Usd)

module _ {Usd : Type 0} where
  abbrev pub account_of : Job Usd → Deciding Usd
  account_of j = record {
    task = j.task;
    model_cto = j.model_cto;
    model_coder = j.model_coder;
    is_cancelled = j.is_cancelled;
    cost_usd = j.cost_usd;
    budget_usd = j.budget_usd;
    requests_made = j.requests_made;
    max_requests = j.max_requests;
    started_at = j.started_at;
    max_minutes = j.max_minutes;
  }

  unfoldable pub progress : Text → Run Usd → Progress Usd
  progress id w = record {
    phase = w.phase;
    now = w.now;
    drawn = w.drawn;
    account = option_map account_of (get_job id w.tables);
  }

  abbrev pub set_cancelled : Deciding Usd → Deciding Usd
  set_cancelled a = record a { is_cancelled = true }

  abbrev pub at : Phase → Progress Usd → Progress Usd
  at phase p = record p { phase = phase }

module _ {Usd : Type 0} (money : Money Usd) where
  -- There is budget, request and time left for another step.
  abbrev pub within_limits : ℕ → Deciding Usd → Bool
  within_limits now a =
      not (money.reaches a.cost_usd a.budget_usd)
      && ltb a.requests_made a.max_requests
      && not (outlasted now a.started_at a.max_minutes)

  abbrev pub spent : Usd → Deciding Usd → Deciding Usd
  spent cost a = record a {
    cost_usd = money.plus a.cost_usd cost;
    requests_made = suc a.requests_made;
  }

  module _ (o : Services Usd) (id : Text) where
    -- A call that used no token is not counted.
    abbrev pub spec_charge : Text → ℕ → ℕ → Option (Deciding Usd) → Option (Option (Deciding Usd))
    spec_charge model n m account = if n + m == 0 then some account else elim account [
      | none ↦ none
      | some a ↦ option_map (λ cost. some (spent cost a)) (calculate_cost money o id model n m)
    ]

    -- The next phase, unless something was raised.
    abbrev pub charged : Progress Usd → Phase → Option (Option (Deciding Usd)) → Progress Usd
    charged p phase none = at failing p
    charged p phase (some account) = record p { phase = phase; account = account }

    abbrev pub spec_start : Progress Usd → Option (Deciding Usd) → Progress Usd
    spec_start p none = at failing p
    spec_start p (some a) = if a.is_cancelled then at skipped p else record p {
      phase = planning (record {
        task = a.task;
        cto = text_or a.model_cto o.model_cto;
        coder = text_or a.model_coder o.model_coder;
      });
      account = some (record a { started_at = start_time p.now running a.started_at });
    }

    abbrev pub spec_plan : Progress Usd → Locals → Option PlanReply → Progress Usd
    spec_plan p l none = at failing p
    spec_plan p l (some r) =
        charged p (listing l r.steps) (spec_charge l.cto r.tokens_in r.tokens_out p.account)

    abbrev pub spec_list :
        Progress Usd → Locals → List PlanStep → Option (Deciding Usd) → Progress Usd
    spec_list p l ss none = at failing p
    spec_list p l ss (some a) = record p {
      phase = if o.dry_run || o.clone_or_update_repo then stepping l ss else failing;
      drawn = p.drawn + count_steps ss;
    }

    abbrev pub spec_step :
        Progress Usd → Locals → List PlanStep → Option (Deciding Usd) → Progress Usd
    spec_step p l [] account = at closing p
    spec_step p l (s ∷ ss) none = at failing p
    spec_step p l (s ∷ ss) (some a) =
        if within_limits p.now a
        then record p { phase = coding l s (o.uuid p.drawn) ss; drawn = suc p.drawn }
        else at failing p

    abbrev pub spec_save :
        Progress Usd → Locals → List PlanStep → StepReply → Option (Deciding Usd) → Progress Usd
    spec_save p l ss r none = at failing p
    spec_save p l ss r (some a) =
        charged p (stepping l ss) (spec_charge l.coder r.tokens_in r.tokens_out (some a))

    abbrev pub spec_code :
        Progress Usd → Locals → Text → List PlanStep → Option StepReply → Progress Usd
    spec_code p l step_id ss none = at failing p
    spec_code p l step_id ss (some r) =
        if apply_diff money o id step_id r.diff then spec_save p l ss r p.account else at failing p

    abbrev pub spec_done : Progress Usd → Option (Deciding Usd) → Progress Usd
    spec_done p none = at failing p
    spec_done p (some a) = at done p

    abbrev pub spec_linked : Progress Usd → Option Text → Progress Usd
    spec_linked p none = at failing p
    spec_linked p (some url) = spec_done p p.account

    abbrev pub spec_close : Progress Usd → Progress Usd
    spec_close p = if o.dry_run then spec_done p p.account else spec_linked p o.open_pull_request

    abbrev pub spec_from : Phase → Progress Usd → Progress Usd
    spec_from start p = spec_start p p.account
    spec_from (planning l) p = spec_plan p l (o.create_plan l.cto l.task)
    spec_from (listing l ss) p = spec_list p l ss p.account
    spec_from (stepping l ss) p = spec_step p l ss p.account
    spec_from (coding l s step_id ss) p =
        spec_code p l step_id ss (o.implement_step l.coder l.task step_id s)
    spec_from closing p = spec_close p
    spec_from failing p = at raised p
    spec_from skipped p = p
    spec_from done p = p
    spec_from raised p = p

    -- A user who cancels the job sets its flag, and no more.
    unfoldable pub spec_react : Event → Progress Usd → Progress Usd
    spec_react work p = spec_from p.phase p
    spec_react (cancel job_id) p =
        if text_eq job_id id then record p { account = option_map set_cancelled p.account } else p
    spec_react (wait n) p = record p { now = p.now + n }

    abbrev pub spec_all : List Event → Progress Usd → Progress Usd
    spec_all [] p = p
    spec_all (e ∷ es) p = spec_all es (spec_react e p)

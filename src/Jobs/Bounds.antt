-- ===== src/Jobs/Bounds.antt =====
-- app/workers/job_worker.py: the limit on the requests of a job.
use feature_frontend.Prelude.{
  ℕ, ◌+◌, ◌≤◌, ◌≡◌, refl, sym, arith, true, Option, none, some, List, [], ◌∷◌, Bool-cases, inl, inr,
  ◌==◌, ◌||◌,
}
use mathlib.Core.Path.{subst}
use feature_frontend.Prelude.Text.{Text, text_eq}
use feature_frontend.Jobs.Tables.{Money, Job, get_job}
use feature_frontend.Jobs.World.{
  PlanStep, PlanReply, StepReply, Services, Locals, Phase, start, failing, skipped, done, raised,
  planning, listing, stepping, coding, closing, Run, Event, work, cancel, wait,
}
use feature_frontend.Jobs.Charges.{calculate_cost}
use feature_frontend.Jobs.Worker.{react_all, apply_diff}
use feature_frontend.Rows.{option_map}
use feature_frontend.Jobs.Spec.{
  Deciding, Progress, account_of, progress, spec_from, spec_react, spec_all, spec_charge, charged,
  within_limits, spec_start, spec_plan, spec_list, spec_step, spec_save, spec_code, spec_done,
  spec_linked, spec_close, set_cancelled, spent,
}
use feature_frontend.Jobs.Refines.{react_all-progress}

-- What a run may still add to the requests before its next check: one where a model is asked.
abbrev pub request_due : Phase → ℕ
request_due start = 1
request_due (planning l) = 1
request_due (coding l s step_id ss) = 1
request_due _ = 0

module _ {Usd : Type 0} where
  -- The requests made, with the one that is due, are within the limit.
  abbrev Room : ℕ → Option (Deciding Usd) → Type 0
  Room due none = Unit
  Room due (some a) = due + a.requests_made ≤ a.max_requests

  abbrev pub Fits : Progress Usd → Type 0
  Fits p = Room (request_due p.phase) p.account

  Room-less : (due : ℕ) (a : Option (Deciding Usd)) → Room due a → Room 0 a
  Room-less due none h = tt
  Room-less due (some a) h = omega arith

module _ {Usd : Type 0} (money : Money Usd) (o : Services Usd) (id : Text) where
  Room-paid : (c : Usd) (a : Deciding Usd) → Room 1 (some a) → Room 0 (some (spent money c a))
  Room-paid c a h = omega arith

  paid-Fits :
      (p : Progress Usd) (phase : Phase) (a : Deciding Usd) (cost : Option Usd)
      → request_due phase ≡ 0
      → Room 0 p.account
      → Room 1 (some a)
      → Fits (charged money o id p phase (option_map (λ c. some (spent money c a)) cost))
  paid-Fits p phase a none free hp h = hp
  paid-Fits p phase a (some c) free hp h = rw free (Room-paid c a h)

  charged-Fits :
      (p : Progress Usd) (phase : Phase) (model : Text) (n m : ℕ) (a : Option (Deciding Usd))
      → request_due phase ≡ 0
      → Room 0 p.account
      → Room 1 a
      → Fits (charged money o id p phase (spec_charge money o id model n m a))
  charged-Fits p phase model n m a free hp h = elim (Bool-cases (n + m == 0)) [
    | inl no_token ↦ rw no_token (rw free (Room-less 1 a h))
    | inr counted ↦ rw counted (paid_for a h)
  ]
    where
      paid_for :
          (a : Option (Deciding Usd))
          → Room 1 a
          → Fits (
              charged money o id p phase (elim a [
                | none ↦ none
                | some a ↦
                    option_map
                      (λ cost. some (spent money cost a))
                      (calculate_cost money o id model n m)
              ]))
      paid_for none h = hp
      paid_for (some a) h = paid-Fits p phase a (calculate_cost money o id model n m) free hp h

  start-Fits :
      (p : Progress Usd) (a : Option (Deciding Usd))
      → p.account ≡ a
      → Room 1 a
      → Fits (spec_start money o id p a)
  start-Fits p none same h = rw same tt
  start-Fits p (some a) same h = elim (Bool-cases a.is_cancelled) [
    | inl before ↦ rw before (rw same (Room-less 1 (some a) h))
    | inr live ↦ rw live h
  ]

  plan-Fits :
      (p : Progress Usd) (l : Locals) (r : Option PlanReply)
      → Room 1 p.account
      → Fits (spec_plan money o id p l r)
  plan-Fits p l none h = Room-less 1 p.account h
  plan-Fits p l (some r) h =
      charged-Fits p (listing l r.steps) l.cto r.tokens_in r.tokens_out p.account refl
        (Room-less 1 p.account h) h

  list-Fits :
      (p : Progress Usd) (l : Locals) (ss : List PlanStep) (a : Option (Deciding Usd))
      → Room 0 p.account
      → Fits (spec_list money o id p l ss a)
  list-Fits p l ss none h = h
  list-Fits p l ss (some a) h = elim (Bool-cases (o.dry_run || o.clone_or_update_repo)) [
    | inl made ↦ rw made h
    | inr refused ↦ rw refused h
  ]

  within-lt : (now : ℕ) (a : Deciding Usd) → within_limits money now a ≡ true → Room 1 (some a)
  within-lt now a h = ground arith

  step-Fits :
      (p : Progress Usd) (l : Locals) (s : PlanStep) (ss : List PlanStep)
      (a : Option (Deciding Usd))
      → p.account ≡ a
      → Room 0 p.account
      → Fits (spec_step money o id p l (s ∷ ss) a)
  step-Fits p l s ss none same h = h
  step-Fits p l s ss (some a) same h = elim (Bool-cases (within_limits money p.now a)) [
    | inl within ↦ rw within (rw same (within-lt p.now a within))
    | inr over ↦ rw over h
  ]

  save-Fits :
      (p : Progress Usd) (l : Locals) (ss : List PlanStep) (r : StepReply)
      (a : Option (Deciding Usd))
      → Room 0 p.account
      → Room 1 a
      → Fits (spec_save money o id p l ss r a)
  save-Fits p l ss r none hp h = hp
  save-Fits p l ss r (some a) hp h =
      charged-Fits p (stepping l ss) l.coder r.tokens_in r.tokens_out (some a) refl hp h

  code-Fits :
      (p : Progress Usd) (l : Locals) (step_id : Text) (ss : List PlanStep) (r : Option StepReply)
      → Room 1 p.account
      → Fits (spec_code money o id p l step_id ss r)
  code-Fits p l step_id ss none h = Room-less 1 p.account h
  code-Fits p l step_id ss (some r) h = elim (Bool-cases (apply_diff money o id step_id r.diff)) [
    | inl applied ↦ rw applied (save-Fits p l ss r p.account (Room-less 1 p.account h) h)
    | inr refused ↦ rw refused (Room-less 1 p.account h)
  ]

  done-Fits :
      (p : Progress Usd) (a : Option (Deciding Usd))
      → Room 0 p.account
      → Fits (spec_done money o id p a)
  done-Fits p none h = h
  done-Fits p (some a) h = h

  linked-Fits :
      (p : Progress Usd) (url : Option Text)
      → Room 0 p.account
      → Fits (spec_linked money o id p url)
  linked-Fits p none h = h
  linked-Fits p (some url) h = done-Fits p p.account h

  close-Fits : (p : Progress Usd) → Room 0 p.account → Fits (spec_close money o id p)
  close-Fits p h = elim (Bool-cases o.dry_run) [
    | inl dry ↦ rw dry (done-Fits p p.account h)
    | inr wet ↦ rw wet (linked-Fits p o.open_pull_request h)
  ]

  spec_from-Fits :
      (phase : Phase) (p : Progress Usd)
      → Room (request_due phase) p.account
      → p.phase ≡ phase
      → Fits (spec_from money o id phase p)
  spec_from-Fits start p h here = start-Fits p p.account refl h
  spec_from-Fits (planning l) p h here = plan-Fits p l (o.create_plan l.cto l.task) h
  spec_from-Fits (listing l ss) p h here = list-Fits p l ss p.account h
  spec_from-Fits (stepping l []) p h here = h
  spec_from-Fits (stepping l (s ∷ ss)) p h here = step-Fits p l s ss p.account refl h
  spec_from-Fits (coding l s step_id ss) p h here =
      code-Fits p l step_id ss (o.implement_step l.coder l.task step_id s) h
  spec_from-Fits closing p h here = close-Fits p h
  spec_from-Fits failing p h here = h
  spec_from-Fits skipped p h here = rw here h
  spec_from-Fits done p h here = rw here h
  spec_from-Fits raised p h here = rw here h

  Room-cancelled :
      (due : ℕ) (a : Option (Deciding Usd)) → Room due a → Room due (option_map set_cancelled a)
  Room-cancelled due none h = tt
  Room-cancelled due (some a) h = h

  spec_react-Fits : (e : Event) (p : Progress Usd) → Fits p → Fits (spec_react money o id e p)
  unfolding spec_react
  spec_react-Fits work p h = spec_from-Fits p.phase p h refl
  spec_react-Fits (cancel job_id) p h = elim (Bool-cases (text_eq job_id id)) [
    | inl this ↦ rw this (Room-cancelled (request_due p.phase) p.account h)
    | inr other ↦ rw other h
  ]
  spec_react-Fits (wait n) p h = h

  spec_all-Fits : (es : List Event) (p : Progress Usd) → Fits p → Fits (spec_all money o id es p)
  spec_all-Fits [] p h = h
  spec_all-Fits (e ∷ es) p h = spec_all-Fits es _ (spec_react-Fits e p h)

  Room-within :
      (phase : Phase) (a : Deciding Usd)
      → Room (request_due phase) (some a)
      → a.requests_made ≤ a.max_requests
  Room-within phase a h = omega arith

  -- From a world in which the job has a request left, or none is due, whatever happens: the
  -- requests that are counted stay within the limit of the job.
  pub run-requests :
      (es : List Event) (w : Run Usd)
      → Fits (progress id w)
      → (j : Job Usd) → get_job id (react_all money o id es w).tables ≡ some j
      → j.requests_made ≤ j.max_requests
  unfolding progress
  run-requests es w h j found =
      let v = react_all money o id es w in
      let kept : Fits (progress id v) =
        subst Fits (sym (react_all-progress money o id es w))
          (spec_all-Fits es (progress id w) h) in
      Room-within v.phase (account_of j)
        (subst (λ a. Room (request_due v.phase) (option_map account_of a)) found kept)

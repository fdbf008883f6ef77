-- ===== src/Jobs/Cancel.antt =====
-- app/workers/job_worker.py and the route of app/routers/jobs.py that cancels: a run that was begun
-- does not look at the flag again.
use feature_frontend.Prelude.{
  ℕ, ◌+◌, ◌≡◌, refl, sym, ap, ◌∙◌, Bool, true, false, Option, none, some, List, [], ◌∷◌, ◌==◌, ◌||◌,
  Bool-cases, inl, inr,
}
use feature_frontend.Prelude.Text.{Text, text_eq, text_eq_refl}
use feature_frontend.Jobs.Tables.{Money}
use feature_frontend.Jobs.World.{
  PlanStep, PlanReply, StepReply, Services, Locals, Phase, start, failing, skipped, done, raised,
  planning, listing, stepping, coding, closing, Run, Event, work, cancel, wait, cancel_job,
}
use feature_frontend.Jobs.Charges.{calculate_cost}
use feature_frontend.Jobs.Worker.{react_all, apply_diff}
use feature_frontend.Rows.{option_map}
use feature_frontend.Jobs.Spec.{
  Deciding, Progress, progress, spec_from, spec_react, spec_all, spec_charge, charged,
  within_limits, spec_plan, spec_list, spec_step, spec_save, spec_code, spec_done, spec_linked,
  spec_close, set_cancelled, spent,
}
use feature_frontend.Jobs.Refines.{react_all-progress, cancel-progress}

abbrev pub is_begun : Phase → Bool
is_begun start = false
is_begun _ = true

module _ {Usd : Type 0} where
  abbrev flagged : Progress Usd → Progress Usd
  flagged p = record p { account = option_map set_cancelled p.account }

  -- The same run, begun, and with the flag set.
  record Follows (p q : Progress Usd) : Type 0 where
    flag_set : q ≡ flagged p
    begun : is_begun p.phase ≡ true

module _ {Usd : Type 0} (money : Money Usd) (o : Services Usd) (id : Text) where
  charged-flagged :
      (p : Progress Usd) (phase : Phase) (a : Option (Option (Deciding Usd)))
      → is_begun phase ≡ true
      → Follows
          (charged money o id p phase a)
          (charged money o id (flagged p) phase (option_map (option_map set_cancelled) a))
  charged-flagged p phase none h = record { flag_set = refl; begun = refl }
  charged-flagged p phase (some a) h = record { flag_set = refl; begun = h }

  paid-flagged :
      (a : Deciding Usd) (cost : Option Usd)
      → option_map (λ c. some (spent money c (set_cancelled a))) cost
        ≡ option_map (option_map set_cancelled) (option_map (λ c. some (spent money c a)) cost)
  paid-flagged a none = refl
  paid-flagged a (some c) = refl

  spec_charge-flagged :
      (model : Text) (n m : ℕ) (a : Option (Deciding Usd))
      → spec_charge money o id model n m (option_map set_cancelled a)
        ≡ option_map (option_map set_cancelled) (spec_charge money o id model n m a)
  spec_charge-flagged model n m none = elim (Bool-cases (n + m == 0)) [
    | inl no_token ↦ rw no_token refl
    | inr counted ↦ rw counted refl
  ]
  spec_charge-flagged model n m (some a) = elim (Bool-cases (n + m == 0)) [
    | inl no_token ↦ rw no_token refl
    | inr counted ↦ rw counted (paid-flagged a (calculate_cost money o id model n m))
  ]

  spending-flagged :
      (p : Progress Usd) (phase : Phase) (model : Text) (n m : ℕ) (a : Option (Deciding Usd))
      → is_begun phase ≡ true
      → Follows (charged money o id p phase (spec_charge money o id model n m a)) (
          charged money o id
            (flagged p)
            phase
            (spec_charge money o id model n m (option_map set_cancelled a)))
  spending-flagged p phase model n m a h =
      rw (spec_charge-flagged model n m a)
        (charged-flagged p phase (spec_charge money o id model n m a) h)

  plan-flagged :
      (p : Progress Usd) (l : Locals) (r : Option PlanReply)
      → Follows (spec_plan money o id p l r) (spec_plan money o id (flagged p) l r)
  plan-flagged p l none = record { flag_set = refl; begun = refl }
  plan-flagged p l (some r) =
      spending-flagged p (listing l r.steps) l.cto r.tokens_in r.tokens_out p.account refl

  list-flagged :
      (p : Progress Usd) (l : Locals) (ss : List PlanStep) (a : Option (Deciding Usd))
      → Follows
          (spec_list money o id p l ss a)
          (spec_list money o id (flagged p) l ss (option_map set_cancelled a))
  list-flagged p l ss none = record { flag_set = refl; begun = refl }
  list-flagged p l ss (some a) = elim (Bool-cases (o.dry_run || o.clone_or_update_repo)) [
    | inl made ↦ rw made (record { flag_set = refl; begun = refl })
    | inr refused ↦ rw refused (record { flag_set = refl; begun = refl })
  ]

  step-flagged :
      (p : Progress Usd) (l : Locals) (ss : List PlanStep) (a : Option (Deciding Usd))
      → Follows
          (spec_step money o id p l ss a)
          (spec_step money o id (flagged p) l ss (option_map set_cancelled a))
  step-flagged p l [] a = record { flag_set = refl; begun = refl }
  step-flagged p l (s ∷ ss) none = record { flag_set = refl; begun = refl }
  step-flagged p l (s ∷ ss) (some a) = elim (Bool-cases (within_limits money p.now a)) [
    | inl within ↦ rw within (record { flag_set = refl; begun = refl })
    | inr over ↦ rw over (record { flag_set = refl; begun = refl })
  ]

  save-flagged :
      (p : Progress Usd) (l : Locals) (ss : List PlanStep) (r : StepReply)
      (a : Option (Deciding Usd))
      → Follows
          (spec_save money o id p l ss r a)
          (spec_save money o id (flagged p) l ss r (option_map set_cancelled a))
  save-flagged p l ss r none = record { flag_set = refl; begun = refl }
  save-flagged p l ss r (some a) =
      spending-flagged p (stepping l ss) l.coder r.tokens_in r.tokens_out (some a) refl

  code-flagged :
      (p : Progress Usd) (l : Locals) (step_id : Text) (ss : List PlanStep) (r : Option StepReply)
      → Follows
          (spec_code money o id p l step_id ss r)
          (spec_code money o id (flagged p) l step_id ss r)
  code-flagged p l step_id ss none = record { flag_set = refl; begun = refl }
  code-flagged p l step_id ss (some r) = elim (Bool-cases (apply_diff money o id step_id r.diff)) [
    | inl applied ↦ rw applied (save-flagged p l ss r p.account)
    | inr refused ↦ rw refused (record { flag_set = refl; begun = refl })
  ]

  done-flagged :
      (p : Progress Usd) (a : Option (Deciding Usd))
      → Follows
          (spec_done money o id p a)
          (spec_done money o id (flagged p) (option_map set_cancelled a))
  done-flagged p none = record { flag_set = refl; begun = refl }
  done-flagged p (some a) = record { flag_set = refl; begun = refl }

  linked-flagged :
      (p : Progress Usd) (url : Option Text)
      → Follows (spec_linked money o id p url) (spec_linked money o id (flagged p) url)
  linked-flagged p none = record { flag_set = refl; begun = refl }
  linked-flagged p (some url) = done-flagged p p.account

  close-flagged :
      (p : Progress Usd) → Follows (spec_close money o id p) (spec_close money o id (flagged p))
  close-flagged p = elim (Bool-cases o.dry_run) [
    | inl dry ↦ rw dry (done-flagged p p.account)
    | inr wet ↦ rw wet (linked-flagged p o.open_pull_request)
  ]

  spec_from-flagged :
      (phase : Phase) (p : Progress Usd)
      → p.phase ≡ phase
      → is_begun phase ≡ true
      → Follows (spec_from money o id phase p) (spec_from money o id phase (flagged p))
  spec_from-flagged start p here h = absurd (cc)
  spec_from-flagged (planning l) p here h = plan-flagged p l (o.create_plan l.cto l.task)
  spec_from-flagged (listing l ss) p here h = list-flagged p l ss p.account
  spec_from-flagged (stepping l ss) p here h = step-flagged p l ss p.account
  spec_from-flagged (coding l s step_id ss) p here h =
      code-flagged p l step_id ss (o.implement_step l.coder l.task step_id s)
  spec_from-flagged closing p here h = close-flagged p
  spec_from-flagged failing p here h = record { flag_set = refl; begun = refl }
  spec_from-flagged skipped p here h = record { flag_set = refl; begun = ap is_begun here }
  spec_from-flagged done p here h = record { flag_set = refl; begun = ap is_begun here }
  spec_from-flagged raised p here h = record { flag_set = refl; begun = ap is_begun here }

  spec_react-flagged :
      (e : Event) (p : Progress Usd)
      → is_begun p.phase ≡ true
      → Follows (spec_react money o id e p) (spec_react money o id e (flagged p))
  unfolding spec_react
  spec_react-flagged work p h = spec_from-flagged p.phase p refl h
  spec_react-flagged (cancel job_id) p h = elim (Bool-cases (text_eq job_id id)) [
    | inl this ↦ rw this (record { flag_set = refl; begun = h })
    | inr other ↦ rw other (record { flag_set = refl; begun = h })
  ]
  spec_react-flagged (wait n) p h = record { flag_set = refl; begun = h }

  spec_all-flagged :
      (es : List Event) (p : Progress Usd)
      → is_begun p.phase ≡ true
      → spec_all money o id es (flagged p) ≡ flagged (spec_all money o id es p)
  spec_all-flagged [] p h = refl
  spec_all-flagged (e ∷ es) p h =
      let next = spec_react-flagged e p h in
      ap (spec_all money o id es) next.flag_set ∙ spec_all-flagged es _ next.begun

  cancel-flagged : (p : Progress Usd) → spec_react money o id (cancel id) p ≡ flagged p
  unfolding spec_react
  cancel-flagged p = rw (text_eq_refl id) refl

  begun_progress : (w : Run Usd) → is_begun w.phase ≡ true → is_begun (progress id w).phase ≡ true
  unfolding progress
  begun_progress w h = h

  cancelled-flagged :
      (es : List Event) (w : Run Usd)
      → is_begun w.phase ≡ true
      → progress id (react_all money o id es (cancel_job id w))
        ≡ flagged (progress id (react_all money o id es w))
  cancelled-flagged es w h =
      react_all-progress money o id es (cancel_job id w)
      ∙ ap (spec_all money o id es)
          (cancel-progress money o id id w ∙ cancel-flagged (progress id w))
      ∙ spec_all-flagged es (progress id w) (begun_progress w h)
      ∙ ap flagged (sym (react_all-progress money o id es w))

  -- Once a run was begun, a user who cancels its job changes nothing of it: whatever happens after,
  -- the run is where it would be without, so it asks the models and completes the same.
  pub cancel-ignored :
      (es : List Event) (w : Run Usd)
      → is_begun w.phase ≡ true
      → (react_all money o id es (cancel_job id w)).phase ≡ (react_all money o id es w).phase
  unfolding progress
  cancel-ignored es w h = ap (λ (p : Progress Usd). p.phase) (cancelled-flagged es w h)

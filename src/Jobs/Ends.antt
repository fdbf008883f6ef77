-- ===== src/Jobs/Ends.antt =====
-- app/workers/job_worker.py: a run comes to an end.
use feature_frontend.Prelude.{
  ℕ, suc, ◌+◌, ◌-◌, ◌*◌, ◌≤◌, ◌≡◌, refl, arith, Bool, true, false, Option, none, some, List, [],
  ◌∷◌, Bool-cases, inl, inr, ◌||◌,
}
use feature_frontend.Prelude.Text.{Text, text_eq}
use feature_frontend.Jobs.Tables.{Money}
use feature_frontend.Jobs.World.{
  PlanStep, PlanReply, StepReply, Services, Locals, Phase, start, failing, skipped, done, raised,
  planning, listing, stepping, coding, closing, Run, Event, work, cancel, wait,
}
use feature_frontend.Jobs.Charges.{text_or, count_steps}
use feature_frontend.Jobs.Worker.{react_all, apply_diff}
use feature_frontend.Rows.{option_map}
use feature_frontend.Jobs.Spec.{
  Deciding, Progress, progress, spec_from, spec_react, spec_all, set_cancelled, spec_charge,
  charged, within_limits, spec_start, spec_plan, spec_list, spec_step, spec_save, spec_code,
  spec_done, spec_linked, spec_close,
}
use feature_frontend.Jobs.Refines.{react_all-progress}

-- The run is over: nothing that the worker does is left.
abbrev pub is_over : Phase → Bool
is_over done = true
is_over raised = true
is_over skipped = true
is_over _ = false

abbrev pub works : List Event → ℕ
works [] = 0
works (work ∷ es) = suc (works es)
works (cancel j ∷ es) = works es
works (wait n ∷ es) = works es

abbrev steps_in : Option PlanReply → ℕ
steps_in none = 0
steps_in (some r) = count_steps r.steps

module _ {Usd : Type 0} (money : Money Usd) (o : Services Usd) (id : Text) where
  -- How many transactions are left at most, from where the run is.
  abbrev left_from : Phase → Option (Deciding Usd) → ℕ
  left_from start none = 2
  left_from start (some a) =
      6 + 2 * steps_in (o.create_plan (text_or a.model_cto o.model_cto) a.task)
  left_from (planning l) a = 5 + 2 * steps_in (o.create_plan l.cto l.task)
  left_from (listing l ss) a = 4 + 2 * count_steps ss
  left_from (stepping l ss) a = 3 + 2 * count_steps ss
  left_from (coding l s step_id ss) a = 4 + 2 * count_steps ss
  left_from closing a = 2
  left_from failing a = 1
  left_from skipped a = 0
  left_from done a = 0
  left_from raised a = 0

  abbrev pub left : Progress Usd → ℕ
  left p = left_from p.phase p.account

  charged-left :
      (p : Progress Usd) (phase : Phase) (n : ℕ) (a : Option (Option (Deciding Usd)))
      → ((a : Option (Deciding Usd)) → left_from phase a ≤ n)
      → 1 ≤ n
      → left (charged money o id p phase a) ≤ n
  charged-left p phase n none h one = one
  charged-left p phase n (some a) h one = h a

  start-left :
      (p : Progress Usd) (a : Option (Deciding Usd))
      → left (spec_start money o id p a) ≤ left_from start a - 1
  start-left p none = omega arith
  start-left p (some a) = elim (Bool-cases a.is_cancelled) [
    | inl before ↦ rw before (omega arith)
    | inr live ↦ rw live (omega arith)
  ]

  plan-left :
      (p : Progress Usd) (l : Locals) (r : Option PlanReply)
      → left (spec_plan money o id p l r) ≤ 4 + 2 * steps_in r
  plan-left p l none = omega arith
  plan-left p l (some r) =
      charged-left p (listing l r.steps) (4 + 2 * count_steps r.steps)
        (spec_charge money o id l.cto r.tokens_in r.tokens_out p.account) (λ a. omega arith)
        (omega arith)

  list-left :
      (p : Progress Usd) (l : Locals) (ss : List PlanStep) (a : Option (Deciding Usd))
      → left (spec_list money o id p l ss a) ≤ 3 + 2 * count_steps ss
  list-left p l ss none = omega arith
  list-left p l ss (some a) = elim (Bool-cases (o.dry_run || o.clone_or_update_repo)) [
    | inl made ↦ rw made (omega arith)
    | inr refused ↦ rw refused (omega arith)
  ]

  step-left :
      (p : Progress Usd) (l : Locals) (s : PlanStep) (ss : List PlanStep)
      (a : Option (Deciding Usd))
      → left (spec_step money o id p l (s ∷ ss) a) ≤ 4 + 2 * count_steps ss
  step-left p l s ss none = omega arith
  step-left p l s ss (some a) = elim (Bool-cases (within_limits money p.now a)) [
    | inl within ↦ rw within (omega arith)
    | inr over ↦ rw over (omega arith)
  ]

  save-left :
      (p : Progress Usd) (l : Locals) (ss : List PlanStep) (r : StepReply)
      (a : Option (Deciding Usd))
      → left (spec_save money o id p l ss r a) ≤ 3 + 2 * count_steps ss
  save-left p l ss r none = omega arith
  save-left p l ss r (some a) =
      charged-left p (stepping l ss) (3 + 2 * count_steps ss)
        (spec_charge money o id l.coder r.tokens_in r.tokens_out (some a)) (λ a. omega arith)
        (omega arith)

  code-left :
      (p : Progress Usd) (l : Locals) (step_id : Text) (ss : List PlanStep) (r : Option StepReply)
      → left (spec_code money o id p l step_id ss r) ≤ 3 + 2 * count_steps ss
  code-left p l step_id ss none = omega arith
  code-left p l step_id ss (some r) = elim (Bool-cases (apply_diff money o id step_id r.diff)) [
    | inl applied ↦ rw applied (save-left p l ss r p.account)
    | inr refused ↦ rw refused (omega arith)
  ]

  done-left : (p : Progress Usd) (a : Option (Deciding Usd)) → left (spec_done money o id p a) ≤ 1
  done-left p none = omega arith
  done-left p (some a) = omega arith

  linked-left : (p : Progress Usd) (url : Option Text) → left (spec_linked money o id p url) ≤ 1
  linked-left p none = omega arith
  linked-left p (some url) = done-left p p.account

  close-left : (p : Progress Usd) → left (spec_close money o id p) ≤ 1
  close-left p = elim (Bool-cases o.dry_run) [
    | inl dry ↦ rw dry (done-left p p.account)
    | inr wet ↦ rw wet (linked-left p o.open_pull_request)
  ]

  spec_from-left :
      (phase : Phase) (p : Progress Usd)
      → p.phase ≡ phase
      → left (spec_from money o id phase p) ≤ left_from phase p.account - 1
  spec_from-left start p here = start-left p p.account
  spec_from-left (planning l) p here = omega (arith, plan-left p l (o.create_plan l.cto l.task))
  spec_from-left (listing l ss) p here = omega (arith, list-left p l ss p.account)
  spec_from-left (stepping l []) p here = omega arith
  spec_from-left (stepping l (s ∷ ss)) p here = omega (arith, step-left p l s ss p.account)
  spec_from-left (coding l s step_id ss) p here =
      omega (arith, code-left p l step_id ss (o.implement_step l.coder l.task step_id s))
  spec_from-left closing p here = close-left p
  spec_from-left failing p here = omega arith
  spec_from-left skipped p here = rw here (omega arith)
  spec_from-left done p here = rw here (omega arith)
  spec_from-left raised p here = rw here (omega arith)

  left_from-cancelled :
      (phase : Phase) (a : Option (Deciding Usd))
      → left_from phase (option_map set_cancelled a) ≡ left_from phase a
  left_from-cancelled start none = refl
  left_from-cancelled start (some a) = refl
  left_from-cancelled (planning l) a = refl
  left_from-cancelled (listing l ss) a = refl
  left_from-cancelled (stepping l ss) a = refl
  left_from-cancelled (coding l s step_id ss) a = refl
  left_from-cancelled closing a = refl
  left_from-cancelled failing a = refl
  left_from-cancelled skipped a = refl
  left_from-cancelled done a = refl
  left_from-cancelled raised a = refl

  cancel-left :
      (job_id : Text) (p : Progress Usd) → left (spec_react money o id (cancel job_id) p) ≡ left p
  unfolding spec_react
  cancel-left job_id p = elim (Bool-cases (text_eq job_id id)) [
    | inl this ↦ rw this (left_from-cancelled p.phase p.account)
    | inr other ↦ rw other refl
  ]

  spec_all-left :
      (es : List Event) (p : Progress Usd) → left (spec_all money o id es p) ≤ left p - works es
  unfolding spec_react
  spec_all-left [] p = omega arith
  spec_all-left (work ∷ es) p =
      omega
        (arith, spec_from-left p.phase p refl, spec_all-left es (spec_from money o id p.phase p))
  spec_all-left (cancel job_id ∷ es) p =
      let kept = cancel-left job_id p in
      omega (arith, kept, spec_all-left es (spec_react money o id (cancel job_id) p))
  spec_all-left (wait n ∷ es) p = spec_all-left es (record p { now = p.now + n })

  over : (phase : Phase) (a : Option (Deciding Usd)) → left_from phase a ≤ 0 → is_over phase ≡ true
  over start none h = absurd (omega (arith, h))
  over start (some a) h = absurd (omega (arith, h))
  over (planning l) a h = absurd (omega (arith, h))
  over (listing l ss) a h = absurd (omega (arith, h))
  over (stepping l ss) a h = absurd (omega (arith, h))
  over (coding l s step_id ss) a h = absurd (omega (arith, h))
  over closing a h = absurd (omega (arith, h))
  over failing a h = absurd (omega (arith, h))
  over skipped a h = refl
  over done a h = refl
  over raised a h = refl

  none_left :
      (es : List Event) (w : Run Usd)
      → left (progress id w) ≤ works es
      → left (progress id (react_all money o id es w)) ≤ 0
  none_left es w enough =
      let few = spec_all-left es (progress id w) in
      rw (react_all-progress money o id es w) (omega (arith, few, enough))

  -- From anywhere in a run, whatever users and the clock do in between, the run is over once the
  -- worker got on as often as `left` says, which is twice the length of the plan and 6 at the
  -- start.
  pub run-over :
      (es : List Event) (w : Run Usd)
      → left (progress id w) ≤ works es
      → is_over (react_all money o id es w).phase ≡ true
  unfolding progress
  run-over es w enough = over (react_all money o id es w).phase _ (none_left es w enough)

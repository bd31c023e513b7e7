-- ===== src/Scheduler/Operators/Progress.antt =====
-- What a check of an operator (scheduler/server/schedule/operator/operator.go, Check) checks off.
use tiny_kv_practice.Prelude.{
  ℕ, zero, suc, ◌+◌, ◌≡◌, ◌⊎◌, inl, inr, refl, sym, ap, ◌∙◌, true, false, Option, none, some, List,
  [], ◌∷◌, ◌++◌, length, drop, All, arith, Bool-cases, length-drop,
}
use tiny_kv_practice.Scheduler.Regions.{RegionInfo}
use tiny_kv_practice.Scheduler.Operators.{
  OpStep, Operator, step_finished, check_steps, check, is_finish,
}

-- The steps that were passed are finished in the region, the one that is returned comes next and is not,
-- and the operator is finished if nothing is returned.
pub record Checked (region : RegionInfo) (o o' : Operator) (next : Option OpStep) : Type 0 where
  pub passed : List OpStep
  pub steps_kept : o'.steps ≡ o.steps
  pub moved : o'.current_step ≡ o.current_step + length passed
  pub split : drop o.current_step o.steps ≡ passed ++ drop o'.current_step o.steps
  pub finished : All (λ s. step_finished s region ≡ true) passed
  pub at_next :
      ((drop o'.current_step o.steps ≡ []) × (next ≡ none) × (is_finish o' ≡ true))
      ⊎ ((s : OpStep) × (others : List OpStep) × (drop o'.current_step o.steps ≡ s ∷ others)
          × (next ≡ some s)
          × (step_finished s region ≡ false)
          × (is_finish o' ≡ false))

drop_next :
    {A : Type 0} (n : ℕ) (l : List A) {x : A} {rest : List A}
    → drop n l ≡ x ∷ rest
    → drop (suc n) l ≡ rest
drop_next zero [] h = cc
drop_next (suc n) [] h = cc
drop_next zero (y ∷ l) h = cc
drop_next (suc n) (y ∷ l) h = drop_next n l h

finished_at_end : (o : Operator) → drop o.current_step o.steps ≡ [] → is_finish o ≡ true
unfolding is_finish
finished_at_end o h =
    let count = sym (length-drop o.current_step o.steps) ∙ ap length h in ground (arith, count)

unfinished_before :
    (o : Operator) {s : OpStep} {l : List OpStep}
    → drop o.current_step o.steps ≡ s ∷ l
    → is_finish o ≡ false
unfolding is_finish
unfinished_before o h =
    let count = sym (length-drop o.current_step o.steps) ∙ ap length h in ground (arith, count)

module _ (now : ℕ → ℕ) (region : RegionInfo) where
  -- The operator after one step is found finished
  abbrev passed_one : Operator → Operator
  passed_one o = record o { current_step = suc o.current_step; step_time = now o.current_step }

  passed-Checked :
      (o o' : Operator) (step : OpStep) {steps : List OpStep} {next : Option OpStep}
      → drop o.current_step o.steps ≡ step ∷ steps
      → step_finished step region ≡ true
      → Checked region (passed_one o) o' next
      → Checked region o o' next
  passed-Checked o o' step h done c = record {
    passed = step ∷ c.passed;
    steps_kept = c.steps_kept;
    moved = c.moved ∙ omega arith;
    split = h ∙ ap (λ l. step ∷ l) (sym (drop_next o.current_step o.steps h) ∙ c.split);
    finished = (done, c.finished);
    at_next = c.at_next;
  }

  waiting-Checked :
      (o : Operator) (step : OpStep) {steps : List OpStep}
      → drop o.current_step o.steps ≡ step ∷ steps
      → step_finished step region ≡ false
      → Checked region o o (some step)
  waiting-Checked o step {steps} h unfinished = record {
    passed = [];
    steps_kept = refl;
    moved = omega arith;
    split = refl;
    finished = tt;
    at_next = inr (step, steps, h, refl, unfinished, unfinished_before o h);
  }

  check_steps-Checked :
      (steps : List OpStep) (o : Operator)
      → drop o.current_step o.steps ≡ steps
      → Checked region o (check_steps now region o steps).0 (check_steps now region o steps).1
  unfolding check_steps
  check_steps-Checked [] o h = record {
    passed = [];
    steps_kept = refl;
    moved = omega arith;
    split = refl;
    finished = tt;
    at_next = inl (h, refl, finished_at_end o h);
  }
  check_steps-Checked (step ∷ steps) o h = elim (Bool-cases (step_finished step region)) [
    | inl done ↦ rw done (
        passed-Checked o _ step h done
          (check_steps-Checked steps (passed_one o) (drop_next o.current_step o.steps h)))
    | inr unfinished ↦ rw unfinished (waiting-Checked o step h unfinished)
  ]

  -- Check passes the steps that the region shows as finished, from the current step on and in their order,
  -- and returns the first one that is not, or nothing exactly when all are passed and the operator is
  -- finished.
  pub check-Checked :
      (o : Operator) → Checked region o (check now region o).0 (check now region o).1
  unfolding check
  check-Checked o = check_steps-Checked (drop o.current_step o.steps) o refl

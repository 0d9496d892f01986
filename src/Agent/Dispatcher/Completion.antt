-- ===== src/Agent/Dispatcher/Completion.antt =====
-- What executeWorkers returns (internal/agent/orchestrated.go).
use mathlib.Core.List.{Memᴰ}
use kyoci_agent.Prelude.{
  ℕ, suc, ◌≤◌, ◌<◌, String, ◌≡◌, ◌≢◌, refl, sym, subst, ◌∙◌, ◌⊎◌, inl, inr, true, false, none, some,
  List, [], ◌∷◌, arith, length, all, All, All-intro, All-elim, all-elim, all-perm, Option-cases,
}
use kyoci_agent.Prelude.Int.{ℤ, eq_ℤ}
use kyoci_agent.Prelude.Map.{Map, lookup}
use kyoci_agent.Agent.Dispatcher.{
  OrchStep, Agent, Progress, Outcome, is_done, all_deps_done, step_output, is_stalled_result,
  result_of, run_steps, next_batch, count_stalls, execute_workers,
}
use kyoci_agent.Agent.Dispatcher.Rounds.{OnlyTrue, IsSchedule, run_steps-all_done}
use kyoci_agent.Agent.Dispatcher.Loop.{next_batch-ready, round_rule, dispatch_loop_rule}
use kyoci_agent.Agent.Dispatcher.Counting.{
  HasDistinctIds, IsRanked, all_done_of_count, count_done-nil, next_batch-ne-nil,
}
use kyoci_agent.Agent.Dispatcher.Solution.{IsSolved, run_step-IsSolved}

-- The result of the step is its output on the results of its dependencies.
abbrev pub IsAnswered : Agent → String → Map ℤ String → OrchStep → Type 0
IsAnswered a task results s = lookup s.id results ≡ some (step_output a task s results)

abbrev pub NotRun : Map ℤ String → OrchStep → Type 0
NotRun results s = lookup s.id results ≡ none

-- No step of any plan gives an output that counts as a stall.
pub record NeverStalls (a : Agent) (task : String) : Type 0 where
  pub at :
      (s : OrchStep) (results : Map ℤ String)
      → is_stalled_result (step_output a task s results) ≡ false

abbrev pub start : Progress
start = record { results = []; done = [] }

pub start-OnlyTrue : OnlyTrue start.done
unfolding lookup
start-OnlyTrue = record { at = λ k. refl }

calm_batch :
    (ss : List OrchStep) (results : Map ℤ String) (n : ℕ)
    → All (λ s. is_stalled_result (result_of s.id results) ≡ false) ss
    → count_stalls ss results n ≢ none
unfolding count_stalls
calm_batch [] results n h = cc
calm_batch (s ∷ ss) results n h = rw h.0 (calm_batch ss results 0 h.1)

-- executeWorkers returns, whatever the plan (with cycles, missing dependencies or repeated ids),
-- the worker, the skills and the order in which the goroutines of a batch take the lock.
pub execute_workers-total :
    (a : Agent) (task : String) (steps : List OrchStep) (schedule : List OrchStep → List OrchStep)
    → IsSchedule schedule
    → (o : Outcome) × (execute_workers a task steps schedule ≡ some o)
unfolding execute_workers
execute_workers-total a task steps schedule fair =
    let (o, e, _) =
      dispatch_loop_rule a task steps fair {Inv = λ p. Unit {0}} {Post = λ o. Unit {0}}
        (λ p h m. tt) (λ p h m e. tt) (λ p s ss n h e c. tt) (λ p s ss h e. tt) (suc (length steps))
        0 start (omega arith) (omega arith) start-OnlyTrue tt in
    (o, e)

start-IsSolved :
    (a : Agent) (task : String) (steps : List OrchStep) (distinct : HasDistinctIds steps)
    → IsSolved a task steps distinct start
unfolding lookup
start-IsSolved a task steps distinct = record {
  only_true = start-OnlyTrue;
  counted = sym (count_done-nil steps);
  keys = λ k. refl;
  closed = λ s m d. cc;
  solved = λ s m d. cc;
}

module _ (a : Agent) (task : String) (steps : List OrchStep)
    (schedule : List OrchStep → List OrchStep) (rank : ℤ → ℕ) (distinct : HasDistinctIds steps)
    (ranked : IsRanked rank steps) (fair : IsSchedule schedule) where
  never_blocked :
      {A : Type 0} (p : Progress)
      → IsSolved a task steps distinct p
      → length p.done < length steps
      → next_batch steps p.done ≡ []
      → A
  never_blocked p h m e =
      absurd (next_batch-ne-nil rank steps p.done ranked (omega (arith, h.counted)) e)

  IsAnswered-or_not :
      (p : Progress) (s : OrchStep)
      → IsSolved a task steps distinct p
      → Memᴰ s steps
      → NotRun p.results s ⊎ IsAnswered a task p.results s
  IsAnswered-or_not p s h m = elim (Option-cases (lookup s.id p.results)) [
    | inl e ↦ inl e
    | inr (r, e) ↦ inr (h.solved s m (ground (arith, h.keys s.id)))
  ]

  All-IsAnswered_or_not :
      (p : Progress)
      → IsSolved a task steps distinct p
      → All (λ s. NotRun p.results s ⊎ IsAnswered a task p.results s) steps
  All-IsAnswered_or_not p h = All-intro _ steps (λ s. IsAnswered-or_not p s h)

  All-IsAnswered :
      (p : Progress)
      → IsSolved a task steps distinct p
      → length steps ≤ length p.done
      → All (IsAnswered a task p.results) steps
  All-IsAnswered p h m = All-intro _ steps λ s ms.
      h.solved s ms (all-elim _ ms (all_done_of_count steps p.done (omega (arith, h.counted))))

  IsSolved-round :
      (p : Progress) (s : OrchStep) (ss : List OrchStep)
      → IsSolved a task steps distinct p
      → next_batch steps p.done ≡ s ∷ ss
      → IsSolved a task steps distinct (run_steps a task (schedule (s ∷ ss)) p)
  IsSolved-round p s ss h e =
      round_rule a task steps fair {Inv = IsSolved a task steps distinct}
        (run_step-IsSolved a task steps distinct) p s ss e h

  -- For a plan with distinct ids whose dependencies name steps of the plan and have no cycle,
  -- executeWorkers returns no error. Every step then has no result, or the result that its worker
  -- or skill gives on the results of its dependencies.
  pub execute_workers-never_stuck :
      (o : Outcome) × (execute_workers a task steps schedule ≡ some o)
      × (o.error ≡ none)
      × All (λ s. NotRun o.results s ⊎ IsAnswered a task o.results s) steps
  unfolding execute_workers
  execute_workers-never_stuck =
      let (o, e, q) =
        dispatch_loop_rule a task steps fair {Inv = IsSolved a task steps distinct}
          {Post = λ o.
            (o.error ≡ none) × All (λ s. NotRun o.results s ⊎ IsAnswered a task o.results s) steps}
          (λ p h m. (refl, All-IsAnswered_or_not p h)) (λ p h m e. never_blocked p h m e)
          (λ p s ss n h e c. (
            refl,
            All-IsAnswered_or_not (run_steps a task (schedule (s ∷ ss)) p)
                (IsSolved-round p s ss h e),
          ))
          IsSolved-round (suc (length steps)) 0 start (omega arith) (omega arith) start-OnlyTrue
          (start-IsSolved a task steps distinct) in
      (o, e, q.0, q.1)

  module _ (calm : NeverStalls a task) where
    batch-calm :
        (p : Progress) (s : OrchStep) (ss : List OrchStep)
        → IsSolved a task steps distinct p
        → next_batch steps p.done ≡ s ∷ ss
        → All
            (λ t.
              is_stalled_result (result_of t.id (run_steps a task (schedule (s ∷ ss)) p).results)
              ≡ false)
            (s ∷ ss)
    batch-calm p s ss h e =
        let p' : Progress = run_steps a task (schedule (s ∷ ss)) p in
        let h' = IsSolved-round p s ss h e in
        let done : all (λ t. is_done t.id p'.done) (s ∷ ss) ≡ true =
          sym (all-perm (λ t. is_done t.id p'.done) (fair.perm (s ∷ ss)))
          ∙ run_steps-all_done a task (schedule (s ∷ ss)) p in
        let planned =
          subst (All (λ t. Memᴰ t steps × (all_deps_done t p.done ≡ true))) e
            (next_batch-ready steps p.done) in
        All-intro _ (s ∷ ss) λ t m. ground (
          arith,
          h'.solved t (All-elim _ m planned).0 (all-elim (λ u. is_done u.id p'.done) m done),
          calm.at t p'.results,
        )

    -- For a plan with distinct ids whose dependencies are steps of the plan and have no cycle, and
    -- of which no output counts as a stall, whatever the orders in which the goroutines of a batch
    -- take the lock, the run returns no error, and every step has the result that its worker or
    -- skill gives on the results of its dependencies.
    pub execute_workers_complete :
        (o : Outcome) × (execute_workers a task steps schedule ≡ some o)
        × (o.error ≡ none)
        × All (IsAnswered a task o.results) steps
    unfolding execute_workers
    execute_workers_complete =
        let (o, e, q) =
          dispatch_loop_rule a task steps fair {Inv = IsSolved a task steps distinct}
            {Post = λ o. (o.error ≡ none) × All (IsAnswered a task o.results) steps}
            (λ p h m. (refl, All-IsAnswered p h m)) (λ p h m e. never_blocked p h m e)
            (λ p s ss n h e c. absurd (calm_batch (s ∷ ss) _ n (batch-calm p s ss h e) c))
            IsSolved-round (suc (length steps)) 0 start (omega arith) (omega arith) start-OnlyTrue
            (start-IsSolved a task steps distinct) in
        (o, e, q.0, q.1)

-- ===== src/Agent/Dispatcher/Tests.antt =====
-- Runs of the dispatcher (internal/agent/orchestrated.go), and instances of its theorems.
use mathlib.Core.List.{reverse}
use mathlib.Core.List.Permᴰ
use kyoci_agent.Prelude.{
  ℕ, String, ◌≡◌, refl, ◌⊎◌, false, none, some, List, [], ◌∷◌, arith, All, ◌==◌, if◌then◌else◌,
}
use kyoci_agent.Prelude.Int.{ℤ, pos, negsuc, eq_ℤ}
use kyoci_agent.Prelude.Map.{Map, lookup, insert}
use kyoci_agent.Prelude.Text.{trim_space}
use kyoci_agent.Agent.Dispatcher.{
  OrchStep, Agent, Outcome, stuck, answered, failed, all_deps_done, is_stalled_result, fast_path,
  step_output, run_step, run_steps, next_batch, count_stalls, execute_workers,
}
use kyoci_agent.Agent.Dispatcher.Rounds.{IsSchedule}
use kyoci_agent.Agent.Dispatcher.Counting.{HasDistinctIds, IsRanked}
use kyoci_agent.Agent.Dispatcher.Completion.{
  NotRun, IsAnswered, NeverStalls, execute_workers-never_stuck, execute_workers_complete,
}
use kyoci_agent.Agent.Dispatcher.Determinism.{SameAt, execute_workers-deterministic}

abbrev diligent : Agent
diligent = record { worker = λ task s prior. answered "finished"; skills = none }

abbrev broken : Agent
broken = record { worker = λ task s prior. failed "timeout"; skills = none }

abbrev plan : List OrchStep
plan =
    record { id = pos 3; description = "join"; depends_on = pos 1 ∷ pos 2 ∷ []; tool_hint = "" }
    ∷ record { id = pos 1; description = "left"; depends_on = negsuc 0 ∷ []; tool_hint = "file" }
    ∷ record { id = pos 2; description = "right"; depends_on = negsuc 0 ∷ []; tool_hint = " skill" }
    ∷ record { id = negsuc 0; description = "setup"; depends_on = []; tool_hint = "terminal" }
    ∷ []

abbrev cyclic : List OrchStep
cyclic =
    record { id = pos 1; description = "a"; depends_on = pos 2 ∷ []; tool_hint = "" }
    ∷ record { id = pos 2; description = "b"; depends_on = pos 1 ∷ []; tool_hint = "" }
    ∷ []

abbrev in_order : List OrchStep → List OrchStep
in_order batch = batch

in_order-IsSchedule : IsSchedule in_order
in_order-IsSchedule = record { perm = Permᴰ.refl }

reverse-IsSchedule : IsSchedule reverse
reverse-IsSchedule = record { perm = Permᴰ.reverse }

abbrev depth : ℤ → ℕ
depth (negsuc n) = 0
depth (pos n) = if n == 3 then 2 else 1

plan_runs :
    execute_workers diligent "t" plan in_order
    ≡ some (record {
      results =
          (negsuc 0, "finished")
          ∷ (pos 1, "finished")
          ∷ (pos 2, "finished")
          ∷ (pos 3, "finished")
          ∷ [];
      error = none;
    })
unfolding execute_workers next_batch all_deps_done count_stalls is_stalled_result trim_space
    run_steps run_step step_output fast_path lookup insert
plan_runs = refl

cyclic_plan_stops :
    execute_workers diligent "t" cyclic in_order
    ≡ some (record { results = []; error = some stuck })
unfolding execute_workers next_batch all_deps_done count_stalls is_stalled_result trim_space
    run_steps run_step step_output fast_path lookup insert
cyclic_plan_stops = refl

-- Three steps in a row without progress stop the task; here the whole plan had run.
broken-plan_stops :
    execute_workers broken "t" plan in_order
    ≡ some (record {
      results =
          (negsuc 0, "[worker error: timeout]")
          ∷ (pos 1, "[worker error: timeout]")
          ∷ (pos 2, "[worker error: timeout]")
          ∷ [];
      error = none;
    })
unfolding execute_workers next_batch all_deps_done count_stalls is_stalled_result trim_space
    run_steps run_step step_output fast_path lookup insert
broken-plan_stops = refl

plan-IsRanked : IsRanked depth plan
plan-IsRanked = ground arith

plan-HasDistinctIds : HasDistinctIds plan
plan-HasDistinctIds = ground arith

step_output-diligent :
    (s : OrchStep) (results : Map ℤ String) → step_output diligent "t" s results ≡ "finished"
unfolding step_output fast_path
step_output-diligent s results = ground arith

finished_no_stall : is_stalled_result "finished" ≡ false
unfolding is_stalled_result trim_space
finished_no_stall = refl

diligent-NeverStalls : NeverStalls diligent "t"
diligent-NeverStalls = record {
  at = λ s results. rw (step_output-diligent s results) finished_no_stall;
}

execute_workers-never_stuck_example :
    (o : Outcome) × (execute_workers broken "t" plan reverse ≡ some o)
    × (o.error ≡ none)
    × All (λ s. NotRun o.results s ⊎ IsAnswered broken "t" o.results s) plan
execute_workers-never_stuck_example =
    execute_workers-never_stuck broken "t" plan reverse depth plan-HasDistinctIds plan-IsRanked
      reverse-IsSchedule

execute_workers_complete_example :
    (o : Outcome) × (execute_workers diligent "t" plan reverse ≡ some o)
    × (o.error ≡ none)
    × All (IsAnswered diligent "t" o.results) plan
execute_workers_complete_example =
    execute_workers_complete diligent "t" plan reverse depth plan-HasDistinctIds plan-IsRanked
      reverse-IsSchedule diligent-NeverStalls

abbrev all_finished : Outcome
all_finished = record {
  results =
      (negsuc 0, "finished") ∷ (pos 1, "finished") ∷ (pos 2, "finished") ∷ (pos 3, "finished") ∷ [];
  error = none;
}

abbrev all_finished_backwards : Outcome
all_finished_backwards = record {
  results =
      (negsuc 0, "finished") ∷ (pos 2, "finished") ∷ (pos 1, "finished") ∷ (pos 3, "finished") ∷ [];
  error = none;
}

plan_runs_backwards : execute_workers diligent "t" plan reverse ≡ some all_finished_backwards
unfolding execute_workers next_batch all_deps_done count_stalls is_stalled_result trim_space
    run_steps run_step step_output fast_path lookup insert
plan_runs_backwards = refl

execute_workers-deterministic_example :
    (all_finished.error ≡ none)
    × (all_finished_backwards.error ≡ none)
    × All (λ s. SameAt all_finished.results all_finished_backwards.results s.id) plan
execute_workers-deterministic_example =
    execute_workers-deterministic diligent "t" plan in_order reverse depth all_finished
      all_finished_backwards plan-HasDistinctIds plan-IsRanked in_order-IsSchedule
      reverse-IsSchedule diligent-NeverStalls plan_runs plan_runs_backwards

-- The second step depends on a step that was cut.
abbrev cut_plan : List OrchStep
cut_plan =
    record { id = pos 1; description = "a"; depends_on = []; tool_hint = "" }
    ∷ record { id = pos 2; description = "b"; depends_on = pos 1 ∷ pos 9 ∷ []; tool_hint = "" }
    ∷ []

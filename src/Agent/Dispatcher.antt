-- ===== src/Agent/Dispatcher.antt =====
-- The dispatcher of the orchestrated pipeline (internal/agent/orchestrated.go, executeWorkers and
-- its helpers). A worker is an argument, as `workerFunc` is in the source: it calls the model and
-- tools. So is the skill registry. The steps of a batch run concurrently and write their results
-- under one lock: `schedule` is the order in which they take it. The log lines are left out.
pub mod Rounds
pub mod Loop
pub mod Counting
pub mod Solution
pub mod Completion
pub mod Determinism
pub mod Missing
mod Tests
use kyoci_agent.Prelude.{
  ℕ, zero, suc, ◌+◌, String, str_eq, str_append, Bool, true, false, not, ◌&&◌, ◌||◌, Option, none,
  some, List, [], ◌∷◌, length, leb, if◌then◌else◌,
}
use kyoci_agent.Prelude.Int.{ℤ, eq_ℤ}
use kyoci_agent.Prelude.Map.{Map, lookup, insert}
use kyoci_agent.Prelude.Text.{trim_space, has_prefix}

pub record OrchStep : Type 0 where
  pub id : ℤ
  pub description : String
  pub depends_on : List ℤ
  pub tool_hint : String

-- What a worker returns: its answer, or the text of its error.
pub data WorkerResult : Type 0 where
  answered : String → WorkerResult
  failed : String → WorkerResult

-- The calls of `SkillProvider`: the name of a matching skill, and its output if it succeeds.
pub record SkillProvider : Type 0 where
  pub match : String → Option String
  pub execute : String → String → Option String

pub record Agent : Type 0 where
  pub worker : String → OrchStep → Map ℤ String → WorkerResult
  pub skills : Option SkillProvider

-- The two maps that the goroutines of a batch share.
pub record Progress : Type 0 where
  pub results : Map ℤ String
  pub done : Map ℤ Bool

-- done[id], which is false where there is no entry
abbrev pub is_done : ℤ → Map ℤ Bool → Bool
is_done id done = elim (lookup id done) [ none ↦ false | some b ↦ b ]

unfoldable pub deps_done : List ℤ → Map ℤ Bool → Bool
deps_done [] done = true
deps_done (d ∷ ds) done = is_done d done && deps_done ds done

unfoldable pub all_deps_done : OrchStep → Map ℤ Bool → Bool
unfolding deps_done
all_deps_done s done = deps_done s.depends_on done

add_prior : Option String → ℤ → Map ℤ String → Map ℤ String
add_prior none d prior = prior
add_prior (some r) d prior = insert d r prior

prior_of : List ℤ → Map ℤ String → Map ℤ String → Map ℤ String
unfolding add_prior
prior_of [] results prior = prior
prior_of (d ∷ ds) results prior = prior_of ds results (add_prior (lookup d results) d prior)

unfoldable pub snapshot_prior : OrchStep → Map ℤ String → Map ℤ String
unfolding prior_of
snapshot_prior step results = prior_of step.depends_on results []

any_prefix : String → List String → Bool
any_prefix out [] = false
any_prefix out (tag ∷ tags) = has_prefix out tag || any_prefix out tags

abbrev pub stall_tags : List String
stall_tags =
    "[worker error" ∷ "[VERIFICATION FAILED" ∷ "[no tool evidence" ∷ "[circuit breaker" ∷ "[step "
    ∷ []

unfoldable pub is_stalled_result : String → Bool
unfolding any_prefix
is_stalled_result out = let t = trim_space out in str_eq t "" || any_prefix t stall_tags

-- The zero-AI path: the output of the skill that matches the task, if it runs without an error.
skill_output : Option SkillProvider → String → Option String
skill_output none task = none
skill_output (some skills) task = elim (skills.match task) [
  | none ↦ none
  | some name ↦ skills.execute name task
]

unfoldable pub fast_path : Agent → String → OrchStep → Option String
unfolding skill_output
fast_path a task step =
    if str_eq (trim_space step.tool_hint) "skill" then skill_output a.skills task else none

abbrev pub worker_output : WorkerResult → String
worker_output (answered out) = out
worker_output (failed werr) = str_append "[worker error: " (str_append werr "]")

unfoldable pub step_output : Agent → String → OrchStep → Map ℤ String → String
step_output a task step results = elim (fast_path a task step) [
  | some out ↦ out
  | none ↦ worker_output (a.worker task step (snapshot_prior step results))
]

-- One goroutine of a batch.
unfoldable pub run_step : Agent → String → OrchStep → Progress → Progress
run_step a task step p = record {
  results = insert step.id (step_output a task step p.results) p.results;
  done = insert step.id true p.done;
}

unfoldable pub run_steps : Agent → String → List OrchStep → Progress → Progress
run_steps a task [] p = p
run_steps a task (s ∷ ss) p = run_steps a task ss (run_step a task s p)

-- The steps not yet done whose dependencies are all done.
unfoldable pub next_batch : List OrchStep → Map ℤ Bool → List OrchStep
next_batch [] done = []
next_batch (s ∷ ss) done =
    let rest = next_batch ss done in
    if is_done s.id done then rest else if all_deps_done s done then s ∷ rest else rest

abbrev pub max_consecutive_stalls : ℕ
max_consecutive_stalls = 3

-- results[id], which is "" where there is no entry
abbrev pub result_of : ℤ → Map ℤ String → String
result_of id results = elim (lookup id results) [ none ↦ "" | some r ↦ r ]

-- The counter of consecutive stalls after a batch, or `none` where the breaker stops the task.
unfoldable pub count_stalls : List OrchStep → Map ℤ String → ℕ → Option ℕ
count_stalls [] results stalls = some stalls
count_stalls (s ∷ ss) results stalls =
    let now : ℕ = if is_stalled_result (result_of s.id results) then stalls + 1 else 0 in
    let rest = count_stalls ss results now in if leb max_consecutive_stalls now then none else rest

pub data DispatchError : Type 0 where
  stuck : DispatchError

pub record Outcome : Type 0 where
  pub results : Map ℤ String
  pub error : Option DispatchError

-- The `for` loop; `none` means that the fuel ran out.
unfoldable pub dispatch_loop :
    Agent
    → String
    → List OrchStep
    → (List OrchStep → List OrchStep)
    → ℕ
    → ℕ
    → Progress
    → Option Outcome
dispatch_loop a task steps schedule zero stalls p = none
dispatch_loop a task steps schedule (suc fuel) stalls p =
    elim (leb (length steps) (length p.done)) [
      | true ↦ some (record { results = p.results; error = none })
      | false ↦ elim (next_batch steps p.done) [
        | [] ↦ some (record { results = p.results; error = some stuck })
        | s ∷ ss ↦
            (let p' = run_steps a task (schedule (s ∷ ss)) p in
              elim (count_stalls (s ∷ ss) p'.results stalls) [
                | none ↦ some (record { results = p'.results; error = none })
                | some stalls' ↦ dispatch_loop a task steps schedule fuel stalls' p'
              ])
      ]
    ]

unfoldable pub execute_workers :
    Agent → String → List OrchStep → (List OrchStep → List OrchStep) → Option Outcome
unfolding dispatch_loop
execute_workers a task steps schedule =
    dispatch_loop a task steps schedule (suc (length steps)) 0 (record { results = []; done = [] })

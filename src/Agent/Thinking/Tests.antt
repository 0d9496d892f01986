-- ===== src/Agent/Thinking/Tests.antt =====
-- Runs of the thinking loop (internal/agent/thinking.go) with scripted answers, and its theorems at them.
use kyoci_agent.Prelude.{
  ℕ, ◌+◌, ◌≤◌, ◌≡◌, ◌≢◌, refl, String, str_eq, true, false, Option, none, some, List, [], ◌∷◌, ◌⊎◌,
  inl, inr, arith, if◌then◌else◌,
}
use kyoci_agent.Prelude.Int.{ℤ, pos}
use kyoci_agent.Agent.Context.{Context, ToolCall, new_context}
use kyoci_agent.Agent.ThinkingData.{
  FailureEntry, ActionType, tool_call, final_answer, replan, Thought, state_assess, state_plan,
  state_execute, state_verify, state_reflect, can_reflect, last_thought, LoopData, is_looping,
  budget_exhausted, has_tool_execution_failure, positive_or,
}
use kyoci_agent.Agent.ThinkingEnv.{Env, Machine, goes, answered, run_thought_step}
use kyoci_agent.Agent.ThinkingSteps.{execute_step, plan_step, reflect_step, verify_step}
use kyoci_agent.Agent.Thinking.{
  Config, finished, ran_out, compact_guard, drive, start, compose, execute_with_thinking,
}
use kyoci_agent.Agent.Thinking.Ending.{tool_calls_bounded, drive_never_runs_out}
use kyoci_agent.Agent.Thinking.Recovery.{
  IsStuck, replan_cannot_recover, rounds_later, escalation_rejects,
}
use kyoci_agent.Agent.Thinking.Rejected.{judged, reflecting, rejected_answer_stays}

abbrev make_call : ToolCall
make_call = record { id = "1"; name = "terminal"; arguments = "make" }

abbrev thought : ActionType → Option ToolCall → Thought
thought type call = record {
  plan = [];
  next_action = record { type = type; call = call; answer = "done"; clarification_question = "" };
  is_confident = true;
  verification_evidence = [];
  root_cause = "";
}

abbrev parse_answer : String → String ⊎ Thought
parse_answer s =
    if str_eq s "call"
    then inr (thought tool_call (some make_call))
    else if str_eq s "bare call"
    then inr (thought tool_call none)
    else if str_eq s "answer"
    then inr (thought final_answer none)
    else if str_eq s "replan"
    then inr (thought replan none)
    else inl "no thought"

abbrev next_answer : List String → Context → List String × (String ⊎ String)
next_answer [] c = ([], inl "no answer")
next_answer (a ∷ rest) c = (rest, inr a)

-- Every call of the tool fails.
abbrev scripted : Env
scripted = record {
  World = List String;
  think = next_answer;
  act = λ world tc. (world, inl "exit status 2");
  parse_thought = parse_answer;
  is_complex = λ task failures. false;
  hash_tool_call = λ name args. name;
  is_file_search_call = λ name args. false;
  sanitize_content = λ s. s;
  system_prompt = λ task. "";
  assess_prompt = λ task. "";
  plan_prompt = λ task. "";
  execute_prompt = "";
  loop_break_nudge = "";
  search_budget_nudge = "";
  reflect_prompt = λ failures. "";
  forced_json_reminder = "";
  narrative_fallback_prompt = "";
}

abbrev config : ℤ → Config
config budget = record {
  thinking_tool_budget = budget;
  thinking_max_reflections = pos 3;
  thinking_max_replans = pos 2;
  max_iterations = pos 40;
  max_continuations = pos 3;
  max_context_tokens = pos 8000;
}

abbrev calls : List String
calls = "call" ∷ "call" ∷ "call" ∷ "call" ∷ "call" ∷ "call" ∷ []

-- A budget of one tool call, and four calls: three come out of reflections.
over_budget : (execute_with_thinking scripted (config (pos 1)) calls "build").tool_calls_made ≡ 4
unfolding execute_with_thinking
over_budget = refl

-- One unreadable answer, the call, and an answer that is accepted.
parsed_again :
    (execute_with_thinking scripted
      (config (pos 9))
      ("answer" ∷ "??" ∷ "answer" ∷ [])
      "ask").content
    ≡ "done"
unfolding execute_with_thinking
parsed_again = refl

tool_calls_bounded_example :
    (execute_with_thinking scripted (config (pos 1)) calls "build").tool_calls_made
    ≤ positive_or (pos 1) 25 + positive_or (pos 3) 3
tool_calls_bounded_example = tool_calls_bounded scripted (config (pos 1)) calls "build"

drive_never_runs_out_example :
    (drive scripted 57
      (pos 8000)
      "build"
      state_assess
      0
      (start scripted (config (pos 1)) calls "build")).1
    ≢ ran_out
drive_never_runs_out_example =
    drive_never_runs_out scripted (config (pos 1)) calls "build" 57 (omega arith)

-- The record after some thoughts, two calls and some failures.
abbrev later_data : List Thought → List FailureEntry → ℕ → LoopData
later_data thoughts failures nudges = record {
  caps = record { tool_budget = 25; max_reflections = 3; max_replans = 2 };
  thoughts = thoughts;
  current_plan = [];
  tool_calls_used = 2;
  recent_call_hashes = "h" ∷ "h" ∷ [];
  unique_call_hashes = ("h", 2) ∷ [];
  failure_history = failures;
  reflections_used = 0;
  replans_used = 0;
  final_content = "done";
  loop_break_attempted = nudges;
  searches_used = 0;
}

-- The same call was made twice, without a failure, and the nudge did not help.
abbrev stuck_data : LoopData
stuck_data = later_data [] [] 1

abbrev stuck_machine : Machine scripted
stuck_machine = record { world = "replan" ∷ "replan" ∷ []; convo = new_context; ls = stuck_data }

stuck_data-IsStuck : IsStuck stuck_data
unfolding is_looping budget_exhausted
stuck_data-IsStuck = (refl, λ e. absurd (omega (arith, e)), refl)

stuck_to_plan : (reflect_step scripted stuck_machine).1 ≡ goes state_plan
unfolding reflect_step
stuck_to_plan = refl

stuck_to_execute :
    (plan_step scripted "build" (reflect_step scripted stuck_machine).0).1 ≡ goes state_execute
unfolding plan_step reflect_step
stuck_to_execute = refl

replan_cannot_recover_example :
    let planned = (plan_step scripted "build" (reflect_step scripted stuck_machine).0).0 in
    let (again, next) = execute_step scripted planned in
    (next ≡ goes state_reflect) × (again.world ≡ planned.world) × IsStuck again.ls
replan_cannot_recover_example =
    replan_cannot_recover scripted "build" stuck_machine stuck_data-IsStuck stuck_to_plan
      stuck_to_execute

abbrev call_with : String → Thought
call_with args = thought tool_call (some (record { id = "1"; name = "terminal"; arguments = args }))

-- Tools that never fail, each call with another hash.
abbrev helpful : Env
helpful = record scripted {
  act = λ world tc. (world, inr "ok");
  parse_thought =
      λ s. if str_eq s "answer" then inr (thought final_answer none) else inr (call_with s);
  hash_tool_call = λ name args. args;
}

-- Three new calls, by which the loop is left, and an answer.
abbrev stuck_then_done : Machine helpful
stuck_then_done = record {
  world = "make" ∷ "test" ∷ "lint" ∷ "answer" ∷ [];
  convo = new_context;
  ls = stuck_data;
}

claims_done :
    last_thought (rounds_later helpful 6 (pos 8000) "build" stuck_then_done).ls.thoughts
    ≡ some (thought final_answer none)
unfolding execute_step drive new_context
claims_done = refl

escalation_rejects_example :
    ((execute_step helpful stuck_then_done).1 ≡ goes state_reflect)
    × (has_tool_execution_failure (rounds_later helpful 6 (pos 8000) "build" stuck_then_done).ls
        ≡ true)
    × ((verify_step helpful (rounds_later helpful 6 (pos 8000) "build" stuck_then_done)).1
        ≡ goes state_reflect)
escalation_rejects_example =
    escalation_rejects helpful stuck_then_done 6 (pos 8000) "build" (thought final_answer none)
      stuck_data-IsStuck (λ e. absurd (omega (arith, e))) claims_done refl

-- A tool has failed, and the model claims to be done.
abbrev claimed : Machine scripted
claimed = record {
  world = "bare call" ∷ [];
  convo = new_context;
  ls =
      later_data (thought final_answer none ∷ [])
        (record { iteration = 0; tool = "terminal"; args = "make"; error = "exit status 2" } ∷ [])
        0;
}

claimed_rejected : (judged scripted (pos 8000) claimed).1 ≡ goes state_reflect
unfolding verify_step compact_guard new_context
claimed_rejected = refl

claimed_left : can_reflect claimed.ls ≡ true
unfolding can_reflect
claimed_left = refl

bare_call :
    (run_thought_step scripted
      (reflecting scripted (pos 8000) claimed)
      (scripted.reflect_prompt (reflecting scripted (pos 8000) claimed).ls.failure_history)
      "reflect").1
    ≡ answered (thought tool_call none)
unfolding run_thought_step verify_step compact_guard new_context
bare_call = refl

rejected_answer_stays_example :
    let ended = drive scripted 50 (pos 8000) "build" state_verify 0 claimed in
    let result = compose scripted 50 ended in
    (ended.1 ≡ finished) × (result.content ≡ "done") × (result.error ≡ none)
rejected_answer_stays_example =
    rejected_answer_stays scripted claimed (thought tool_call none) (pos 8000) "build" 48 0 50
      claimed_rejected claimed_left bare_call refl refl refl

-- ===== src/Agent/Thinking.antt =====
-- The driver of the thinking loop (executeWithThinking of internal/agent/thinking.go) over the states of
-- Agent/ThinkingSteps. Its flag narrativeFallbackUsed is left out: the fallback always ends the loop.
-- Progress events, logs and the record of the experience are left out too.
pub mod Caps
pub mod Advance
pub mod Ending
pub mod Failures
pub mod Recovery
pub mod Rejected
mod Tests
use Prim.Native.String.{slice}
use kyoci_agent.Prelude.{
  ℕ, zero, suc, ◌+◌, ◌-◌, ◌*◌, ◌/◌, String, len, str_append, str_eq, Bool, true, false, not, ◌&&◌,
  ◌||◌, Option, none, some, List, [], ◌∷◌, ◌++◌, ◌⊎◌, inl, inr, ◌==◌, leb, ltb, if◌then◌else◌,
  length,
}
use kyoci_agent.Prelude.Int.{ℤ, pos, negsuc, int_suc, int_leb, int_half, int_product}
use kyoci_agent.Prelude.Text.{itoa, contains, trim_space}
use kyoci_agent.Agent.Context.{
  Context, ToolCall, role_system, role_user, new_context, add_message, add_tool_result, token_count,
  smart_compact,
}
use kyoci_agent.Agent.ThinkingData.{
  FailureEntry, PlanStep, ActionType, tool_call, final_answer, need_info_from_user, replan,
  other_action, Thought, LoopState, state_assess, state_plan, state_execute, state_verify,
  state_reflect, state_done, LoopData, new_loop_state, record_tool_call, search_budget_exceeded,
  is_looping, budget_exhausted, near_exhausted_no_progress, can_reflect, can_replan, record_failure,
  has_tool_execution_failure, cap_plan, reflect_exhaustion_message, last_thought, escalation_reason,
}
use kyoci_agent.Agent.ThinkingEnv.{
  is_done, Env, Next, goes, fails, Answer, answered, failed, Machine, with_data, run_thought_step,
}
use kyoci_agent.Agent.ThinkingSteps.{step}

pub record Config : Type 0 where
  pub thinking_tool_budget : ℤ
  pub thinking_max_reflections : ℤ
  pub thinking_max_replans : ℤ
  pub max_iterations : ℤ
  pub max_continuations : ℤ
  pub max_context_tokens : ℤ

-- How the driver's loop ends: in StateDone, with lastError, or at its ceiling.
pub data Ended : Type 0 where
  finished : Ended
  stopped : String → Ended
  ran_out : Ended

pub record TaskResult : Type 0 where
  pub content : String
  pub tool_calls_made : ℕ
  pub iterations : ℕ
  pub error : Option String

unfoldable pub is_parse_error : String → Bool
is_parse_error e = contains e "parse failed"

unfoldable pub max_thought_transitions : Config → ℕ
max_thought_transitions cfg =
    elim (int_product cfg.max_iterations (int_suc cfg.max_continuations)) [
      | negsuc _ ↦ 50
      | pos n ↦ if ltb n 50 then 50 else n
    ]

module _ (env : Env) where
  open env use {
    World, think, act, parse_thought, is_complex, hash_tool_call, is_file_search_call,
    sanitize_content, system_prompt, assess_prompt, plan_prompt, execute_prompt, loop_break_nudge,
    search_budget_nudge, reflect_prompt, forced_json_reminder, narrative_fallback_prompt,
  }

  unfoldable pub compact_guard : ℤ → Machine env → Machine env
  unfolding token_count smart_compact
  compact_guard limit m =
      if int_leb (pos (token_count m.convo)) limit
      then m
      else record m { convo = smart_compact m.convo (int_half limit) }

  abbrev pub narrated : Machine env → String → String ⊎ String → Machine env × Ended
  narrated m e (inl _) = (m, stopped e)
  narrated m e (inr content) =
      if str_eq (trim_space content) ""
      then (m, stopped e)
      else (with_data env m (record m.ls { final_content = trim_space content }), finished)

  -- The one turn in plain prose after the reminders.
  unfoldable pub narrative_fallback : Machine env → String → Machine env × Ended
  unfolding add_message trim_space
  narrative_fallback m e =
      let convo = add_message m.convo role_user narrative_fallback_prompt in
      let (world, reply) = think m.world convo in
      narrated (record m { world = world; convo = convo }) e reply

  -- What the driver does with the outcome of a step env; `again` are the rounds that are left.
  unfoldable pub after_step :
      (LoopState → ℕ → Machine env → Machine env × Ended)
      → LoopState
      → ℕ
      → Machine env × Next
      → Machine env × Ended
  unfolding is_parse_error narrative_fallback
  after_step again s nudges (m, goes s') = if is_done s' then (m, finished) else again s' 0 m
  after_step again s nudges (m, fails e) =
      if is_parse_error e
      then if ltb nudges 2
        then again s (suc nudges)
            (record m { convo = add_message m.convo role_user forced_json_reminder })
        else narrative_fallback m e
      else (m, stopped e)

  -- transitionLoop
  unfoldable pub drive : ℕ → ℤ → String → LoopState → ℕ → Machine env → Machine env × Ended
  unfolding after_step step compact_guard
  drive zero limit task s nudges m = (m, ran_out)
  drive (suc n) limit task s nudges m =
      after_step (drive n limit task) s nudges (step env task s (compact_guard limit m))

  unfoldable pub start : Config → World → String → Machine env
  unfolding new_loop_state new_context add_message
  start cfg world task = record {
    world = world;
    convo = add_message (add_message new_context role_system (system_prompt task)) role_user task;
    ls =
        new_loop_state cfg.thinking_tool_budget cfg.thinking_max_reflections
          cfg.thinking_max_replans;
  }

  abbrev pub exhausted_text : ℕ → LoopData → String
  exhausted_text transitions d = str_append "Task ended: thinking loop exhausted after " (
      str_append (itoa transitions) (
        str_append " transitions (" (
          str_append (itoa d.tool_calls_used)
            (str_append " tool calls, " (str_append (itoa (length d.thoughts)) " thoughts).")))))

  abbrev pub error_of : Ended → Option String
  error_of finished = none
  error_of (stopped e) = some e
  error_of ran_out = none

  abbrev pub content_of : ℕ → LoopData → Option String → String
  content_of transitions d none =
      if str_eq d.final_content "" then exhausted_text transitions d else d.final_content
  content_of transitions d (some e) = d.final_content

  unfoldable pub compose : ℕ → Machine env × Ended → TaskResult
  unfolding itoa
  compose transitions (m, ended) = record {
    content = sanitize_content (content_of transitions m.ls (error_of ended));
    tool_calls_made = m.ls.tool_calls_used;
    iterations = length m.ls.thoughts;
    error = error_of ended;
  }

  unfoldable pub execute_with_thinking : Config → World → String → TaskResult
  unfolding max_thought_transitions start drive compose
  execute_with_thinking cfg world task = compose (max_thought_transitions cfg) (
      drive (max_thought_transitions cfg) cfg.max_context_tokens task state_assess 0
        (start cfg world task))

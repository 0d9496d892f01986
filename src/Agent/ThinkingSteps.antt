-- ===== src/Agent/ThinkingSteps.antt =====
-- The states of the thinking loop (internal/agent/thinking.go): one function for each, from the machine
-- to the machine and the next state.
use kyoci_agent.Prelude.{
  suc, String, str_append, str_eq, Bool, not, ◌&&◌, ◌||◌, Option, none, some, ◌⊎◌, inl, inr, ◌==◌,
  if◌then◌else◌, length,
}
use kyoci_agent.Agent.Context.{ToolCall, add_tool_result}
use kyoci_agent.Agent.ThinkingData.{
  ActionType, tool_call, final_answer, need_info_from_user, replan, other_action, Thought,
  LoopState, state_assess, state_plan, state_execute, state_verify, state_reflect, state_done,
  LoopData, record_tool_call, search_budget_exceeded, is_looping, budget_exhausted,
  near_exhausted_no_progress, can_reflect, can_replan, record_failure, has_tool_execution_failure,
  cap_plan, reflect_exhaustion_message, last_thought, escalation_reason,
}
use kyoci_agent.Agent.ThinkingEnv.{
  truncate_tool_result, failure_of, is_fast_action, has_items, plan_if_any, Env, Next, goes, fails,
  Answer, answered, failed, Machine, with_data, run_thought_step,
}

module _ (env : Env) where
  open env use {
    World, think, act, parse_thought, is_complex, hash_tool_call, is_file_search_call,
    sanitize_content, system_prompt, assess_prompt, plan_prompt, execute_prompt, loop_break_nudge,
    search_budget_nudge, reflect_prompt, forced_json_reminder, narrative_fallback_prompt,
  }

  unfoldable pub after_assess : String → Machine env × Answer → Machine env × Next
  after_assess task (m, failed e) = (m, fails e)
  after_assess task (m, answered th) =
      if not (is_complex task m.ls.failure_history)
        && (th.is_confident && is_fast_action th.next_action.type)
      then (with_data env m (plan_if_any th.plan m.ls), goes state_execute)
      else (m, goes state_plan)

  unfoldable pub assess_step : String → Machine env → Machine env × Next
  unfolding run_thought_step after_assess
  assess_step task m = after_assess task (run_thought_step env m (assess_prompt task) "assess")

  unfoldable pub after_plan : Machine env × Answer → Machine env × Next
  unfolding cap_plan
  after_plan (m, failed e) = (m, fails e)
  after_plan (m, answered th) =
      (with_data env m (record m.ls { current_plan = cap_plan th.plan }), goes state_execute)

  unfoldable pub plan_step : String → Machine env → Machine env × Next
  unfolding run_thought_step after_plan
  plan_step task m = after_plan (run_thought_step env m (plan_prompt task) "plan")

  abbrev pub tool_replied : Machine env → ToolCall → String ⊎ String → Machine env × Next
  tool_replied m tc (inl e) = (
    record m {
      convo = add_tool_result m.convo tc.id (str_append "Error: " e);
      ls = record_failure (failure_of (length m.ls.thoughts) tc.name tc.arguments e) m.ls;
    },
    goes state_reflect,
  )
  tool_replied m tc (inr result) = (
    record m { convo = add_tool_result m.convo tc.id (truncate_tool_result result 4000) },
    goes state_execute,
  )

  unfoldable pub run_tool_call : Machine env → ToolCall → Machine env × Next
  unfolding record_tool_call record_failure add_tool_result truncate_tool_result
  run_tool_call m tc =
      let d =
        record_tool_call (hash_tool_call tc.name tc.arguments)
          (is_file_search_call tc.name tc.arguments) m.ls in
      let (world, reply) = act m.world tc in
      tool_replied (record m { world = world; ls = d }) tc reply

  -- The call of a thought, or what happens where it is missing. (The text for an unknown action is that
  -- of a name without characters that %q escapes.)
  unfoldable pub with_call : Machine env × Next → Machine env → Option ToolCall → Machine env × Next
  unfolding run_tool_call
  with_call missing m none = missing
  with_call missing m (some tc) = run_tool_call m tc

  unfoldable pub on_action : ActionType → Thought → Machine env → Machine env × Next
  unfolding with_call record_failure
  on_action final_answer th m =
      (with_data env m (record m.ls { final_content = th.next_action.answer }), goes state_verify)
  on_action replan th m = (
    (if str_eq th.root_cause ""
        then m
        else with_data env m (record_failure (failure_of 0 "replan" "" th.root_cause) m.ls)),
    goes state_reflect,
  )
  on_action need_info_from_user th m = (
    with_data env m (record m.ls {
      final_content =
          str_append "Need clarification from user: " th.next_action.clarification_question;
    }),
    goes state_done,
  )
  on_action tool_call th m =
      with_call
        (
          with_data env m
              (record_failure (failure_of 0 "" "" "tool_call action missing tool_call field") m.ls),
          goes state_reflect,
        )
        m th.next_action.call
  on_action (other_action s) th m = (
    with_data env m (
        record_failure
          (failure_of 0 "unknown" "" (str_append "unknown next_action type \"" (str_append s "\"")))
          m.ls),
    goes state_reflect,
  )

  unfoldable pub after_execute : Machine env × Answer → Machine env × Next
  unfolding on_action
  after_execute (m, failed e) = (m, fails e)
  after_execute (m, answered th) = on_action th.next_action.type th m

  -- A turn with the prompt that was chosen.
  abbrev pub execute_turn : Machine env → String → Machine env × Next
  execute_turn m prompt = after_execute (run_thought_step env m prompt "execute")

  abbrev pub nudge_allowed : LoopData → Bool
  nudge_allowed d =
      is_looping d
      && (d.loop_break_attempted == 0
          && (not (has_tool_execution_failure d) && not (near_exhausted_no_progress d)))

  unfoldable pub escalate : Machine env → Machine env
  unfolding escalation_reason record_failure
  escalate m = with_data env m (
      record_failure (failure_of (length m.ls.thoughts) "execute" "" (escalation_reason m.ls)) m.ls)

  unfoldable pub execute_step : Machine env → Machine env × Next
  unfolding budget_exhausted is_looping has_tool_execution_failure near_exhausted_no_progress
      escalate run_thought_step after_execute
  execute_step m =
      if budget_exhausted m.ls
      then (
        with_data env m (record m.ls {
          final_content = "Task terminated: tool-call budget exhausted without completion.";
        }),
        goes state_done,
      )
      else if nudge_allowed m.ls
      then execute_turn
          (with_data env m (record m.ls { loop_break_attempted = suc m.ls.loop_break_attempted }))
          loop_break_nudge
      else if is_looping m.ls || near_exhausted_no_progress m.ls
      then (escalate m, goes state_reflect)
      else execute_turn m
          (if search_budget_exceeded m.ls then search_budget_nudge else execute_prompt)

  abbrev pub verify_last : Machine env → Option Thought → Machine env × Next
  verify_last m none = (m, goes state_done)
  verify_last m (some last) =
      if has_items last.verification_evidence
        || (m.ls.tool_calls_used == 0 || not (has_tool_execution_failure m.ls))
      then (m, goes state_done)
      else (
        with_data env m (
            record_failure
              (failure_of (length m.ls.thoughts) "verify" ""
                "claimed done without verification_evidence after tool failure")
              m.ls),
        goes state_reflect,
      )

  unfoldable pub verify_step : Machine env → Machine env × Next
  unfolding has_tool_execution_failure record_failure
  verify_step m = verify_last m (last_thought m.ls.thoughts)

  abbrev pub give_up : Machine env → Machine env × Next
  give_up m = (
    with_data env m (record m.ls { final_content = reflect_exhaustion_message m.ls }),
    goes state_done,
  )

  abbrev pub replanned : LoopData → LoopData
  replanned d = record d { replans_used = suc d.replans_used }

  unfoldable pub on_reflection : ActionType → Thought → Machine env → Machine env × Next
  unfolding can_replan cap_plan record_failure with_call reflect_exhaustion_message
  on_reflection replan th m =
      if can_replan m.ls
      then (with_data env m (plan_if_any th.plan (replanned m.ls)), goes state_plan)
      else give_up m
  on_reflection tool_call th m =
      with_call
        (
          with_data env m (
              record_failure
                (failure_of 0 "" "" "reflect: tool_call action missing tool_call field") m.ls),
          goes state_done,
        )
        m th.next_action.call
  on_reflection final_answer th m =
      (with_data env m (record m.ls { final_content = th.next_action.answer }), goes state_done)
  on_reflection need_info_from_user th m =
      if can_replan m.ls then (with_data env m (replanned m.ls), goes state_plan) else give_up m
  on_reflection (other_action s) th m =
      if can_replan m.ls then (with_data env m (replanned m.ls), goes state_plan) else give_up m

  unfoldable pub after_reflect : Machine env × Answer → Machine env × Next
  unfolding on_reflection
  after_reflect (m, failed e) = (m, fails e)
  after_reflect (m, answered th) =
      on_reflection th.next_action.type th
        (with_data env m (record m.ls { reflections_used = suc m.ls.reflections_used }))

  unfoldable pub reflect_step : Machine env → Machine env × Next
  unfolding can_reflect run_thought_step after_reflect reflect_exhaustion_message
  reflect_step m =
      if can_reflect m.ls
      then after_reflect (run_thought_step env m (reflect_prompt m.ls.failure_history) "reflect")
      else give_up m

  unfoldable pub step : String → LoopState → Machine env → Machine env × Next
  unfolding assess_step plan_step execute_step verify_step reflect_step
  step task state_assess m = assess_step task m
  step task state_plan m = plan_step task m
  step task state_execute m = execute_step m
  step task state_verify m = verify_step m
  step task state_reflect m = reflect_step m
  step task state_done m = (m, goes state_done)

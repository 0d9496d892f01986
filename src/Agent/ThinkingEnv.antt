-- ===== src/Agent/ThinkingEnv.antt =====
-- What the thinking loop (internal/agent/thinking.go) calls, and its state: `Env` has the model, its parser
-- of thoughts, the tools, the estimate of a task's complexity, the hash of a call and the prompts, with
-- a state of their own. The front that the states with a turn of the model share, runThoughtStep, is
-- here too, with truncateToolResult of internal/agent/loop.go.
use kyoci_agent.Prelude.{
  String, str_append, Bool, List, [], ◌∷◌, ◌++◌, ◌⊎◌, inl, inr, ℕ, ◌-◌, ◌*◌, ◌/◌, len, true, false,
  leb, if◌then◌else◌,
}
use kyoci_agent.Agent.Context.{Context, ToolCall, role_user, add_message}
use kyoci_agent.Agent.ThinkingData.{
  FailureEntry, Thought, LoopState, LoopData, PlanStep, ActionType, tool_call, final_answer,
  need_info_from_user, replan, other_action, state_assess, state_plan, state_execute, state_verify,
  state_reflect, state_done, cap_plan,
}
use Prim.Native.String.{slice}
use kyoci_agent.Prelude.Text.{itoa}

pub record Env : Type 1 where
  pub World : Type 0
  pub think : World → Context → World × (String ⊎ String)
  pub act : World → ToolCall → World × (String ⊎ String)
  pub parse_thought : String → String ⊎ Thought
  pub is_complex : String → List FailureEntry → Bool
  pub hash_tool_call : String → String → String
  pub is_file_search_call : String → String → Bool
  pub sanitize_content : String → String
  pub system_prompt : String → String
  pub assess_prompt : String → String
  pub plan_prompt : String → String
  pub execute_prompt : String
  pub loop_break_nudge : String
  pub search_budget_nudge : String
  pub reflect_prompt : List FailureEntry → String
  pub forced_json_reminder : String
  pub narrative_fallback_prompt : String

-- The next state, or the text of an error.
pub data Next : Type 0 where
  goes : LoopState → Next
  fails : String → Next

pub data Answer : Type 0 where
  answered : Thought → Answer
  failed : String → Answer

-- The head and the tail that stay; for 4000, the only limit in use, the source's products of
-- floating-point numbers are these.
unfoldable pub truncate_tool_result : String → ℕ → String
unfolding itoa
truncate_tool_result result max_len =
    let head_len = max_len * 6 / 10 in
    let tail_len = max_len * 3 / 10 in
    if leb (len result) max_len
    then result
    else str_append (slice result 0 head_len) (
        str_append "\n\n... [" (
          str_append (itoa (len result - head_len - tail_len)) (
            str_append " characters truncated] ...\n\n"
              (slice result (len result - tail_len) (len result)))))

abbrev pub failure_of : ℕ → String → String → String → FailureEntry
failure_of iteration tool args error = record {
  iteration = iteration;
  tool = tool;
  args = args;
  error = error;
}

abbrev pub is_done : LoopState → Bool
is_done state_assess = false
is_done state_plan = false
is_done state_execute = false
is_done state_verify = false
is_done state_reflect = false
is_done state_done = true

abbrev pub is_fast_action : ActionType → Bool
is_fast_action tool_call = true
is_fast_action final_answer = true
is_fast_action need_info_from_user = false
is_fast_action replan = false
is_fast_action (other_action s) = false

abbrev pub has_items {ℓ} : {A : Type ℓ} → List A → Bool
has_items [] = false
has_items (x ∷ xs) = true

-- A plan that is not empty becomes the current one.
abbrev pub plan_if_any : List PlanStep → LoopData → LoopData
plan_if_any plan d = record d {
  current_plan = if has_items plan then cap_plan plan else d.current_plan;
}

module _ (env : Env) where
  open env use {
    World, think, act, parse_thought, is_complex, hash_tool_call, is_file_search_call,
    sanitize_content, system_prompt, assess_prompt, plan_prompt, execute_prompt, loop_break_nudge,
    search_budget_nudge, reflect_prompt, forced_json_reminder, narrative_fallback_prompt,
  }

  pub record Machine : Type 0 where
    pub world : World
    pub convo : Context
    pub ls : LoopData

  abbrev pub with_data : Machine → LoopData → Machine
  with_data m d = record m { ls = d }

  abbrev pub parsed : Machine → String → String ⊎ Thought → Machine × Answer
  parsed m label (inl e) = (m, failed (str_append label (str_append ": parse failed: " e)))
  parsed m label (inr th) =
      (with_data m (record m.ls { thoughts = m.ls.thoughts ++ th ∷ [] }), answered th)

  abbrev pub replied : Machine → String → String ⊎ String → Machine × Answer
  replied m label (inl e) = (m, failed (str_append label (str_append ": LLM call failed: " e)))
  replied m label (inr content) = parsed m label (parse_thought content)

  unfoldable pub run_thought_step : Machine → String → String → Machine × Answer
  unfolding add_message
  run_thought_step m prompt label =
      let convo = add_message m.convo role_user prompt in
      let (world, reply) = think m.world convo in
      replied (record m { world = world; convo = convo }) label reply

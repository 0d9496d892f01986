-- ===== src/Agent/ThinkingData.antt =====
-- The data of the thinking loop (internal/agent/thinking.go): thoughts, the record of a task, its
-- counters and the tests on them. A Thought keeps of its confidence whether it reaches the threshold
-- of the fast path; the fields that only the model reads are left out, and so are times.
use kyoci_agent.Prelude.{
  ℕ, zero, suc, ◌-◌, ◌*◌, String, str_append, str_eq, Bool, true, false, not, ◌&&◌, Option, none,
  some, List, [], ◌∷◌, ◌++◌, any, ◌==◌, leb, ltb, if◌then◌else◌, length, take, drop, eq_String,
}
use kyoci_agent.Prelude.Int.{ℤ, pos, negsuc}
use kyoci_agent.Prelude.Map.{Map, lookup, insert}
use kyoci_agent.Prelude.Text.{itoa}
use kyoci_agent.Agent.Context.{ToolCall}

pub record FailureEntry : Type 0 where
  pub iteration : ℕ
  pub tool : String
  pub args : String
  pub error : String

pub record PlanStep : Type 0 where
  pub description : String
  pub tool : String
  pub status : String

pub data ActionType : Type 0 where
  tool_call : ActionType
  final_answer : ActionType
  need_info_from_user : ActionType
  replan : ActionType
  other_action : String → ActionType

pub record NextAction : Type 0 where
  pub type : ActionType
  pub call : Option ToolCall
  pub answer : String
  pub clarification_question : String

pub record Thought : Type 0 where
  pub plan : List PlanStep
  pub next_action : NextAction
  pub is_confident : Bool
  pub verification_evidence : List String
  pub root_cause : String

pub data LoopState : Type 0 where
  state_assess : LoopState
  state_plan : LoopState
  state_execute : LoopState
  state_verify : LoopState
  state_reflect : LoopState
  state_done : LoopState

-- The fields of loopState that stay as they are.
pub record Caps : Type 0 where
  pub tool_budget : ℕ
  pub max_reflections : ℕ
  pub max_replans : ℕ

pub record LoopData : Type 0 where
  pub caps : Caps
  pub thoughts : List Thought
  pub current_plan : List PlanStep
  pub tool_calls_used : ℕ
  pub recent_call_hashes : List String
  pub unique_call_hashes : Map String ℕ
  pub failure_history : List FailureEntry
  pub reflections_used : ℕ
  pub replans_used : ℕ
  pub final_content : String
  pub loop_break_attempted : ℕ
  pub searches_used : ℕ

abbrev pub positive_or : ℤ → ℕ → ℕ
positive_or (pos zero) default = default
positive_or (pos (suc n)) default = suc n
positive_or (negsuc n) default = default

unfoldable pub new_loop_state : ℤ → ℤ → ℤ → LoopData
new_loop_state budget reflections replans = record {
  caps = record {
    tool_budget = positive_or budget 25;
    max_reflections = positive_or reflections 3;
    max_replans = positive_or replans 2;
  };
  thoughts = [];
  current_plan = [];
  tool_calls_used = 0;
  recent_call_hashes = [];
  unique_call_hashes = [];
  failure_history = [];
  reflections_used = 0;
  replans_used = 0;
  final_content = "";
  loop_break_attempted = 0;
  searches_used = 0;
}

abbrev pub count_in : Map String ℕ → String → ℕ
count_in m h = elim (lookup h m) [ none ↦ 0 | some n ↦ n ]

abbrev pub last_four : List String → List String
last_four hs = if ltb 4 (length hs) then drop (length hs - 4) hs else hs

-- For a call with hash h; `searches` says whether it is a search of the file tool.
unfoldable pub record_tool_call : String → Bool → LoopData → LoopData
record_tool_call h searches d = record d {
  tool_calls_used = suc d.tool_calls_used;
  unique_call_hashes = insert h (suc (count_in d.unique_call_hashes h)) d.unique_call_hashes;
  recent_call_hashes = last_four (d.recent_call_hashes ++ h ∷ []);
  searches_used = if searches then suc d.searches_used else d.searches_used;
}

abbrev pub search_budget_exceeded : LoopData → Bool
search_budget_exceeded d = leb 3 d.searches_used

-- Whether some hash comes a second time; `seen` are the earlier ones.
unfoldable pub repeats : List String → List String → Bool
repeats seen [] = false
repeats seen (h ∷ hs) =
    let later = repeats (h ∷ seen) hs in if any (λ s. str_eq s h) seen then true else later

unfoldable pub is_looping : LoopData → Bool
unfolding repeats
is_looping d = repeats [] d.recent_call_hashes

unfoldable pub budget_exhausted : LoopData → Bool
budget_exhausted d = leb d.caps.tool_budget d.tool_calls_used

-- used < 0.75 * budget and unique / used < 0.5, without fractions.
unfoldable pub near_exhausted_no_progress : LoopData → Bool
near_exhausted_no_progress d =
    if d.tool_calls_used == 0
    then false
    else if ltb (4 * d.tool_calls_used) (3 * d.caps.tool_budget)
    then false
    else ltb (2 * length d.unique_call_hashes) d.tool_calls_used

unfoldable pub can_reflect : LoopData → Bool
can_reflect d = ltb d.reflections_used d.caps.max_reflections

unfoldable pub can_replan : LoopData → Bool
can_replan d = ltb d.replans_used d.caps.max_replans

unfoldable pub record_failure : FailureEntry → LoopData → LoopData
record_failure entry d = record d { failure_history = d.failure_history ++ entry ∷ [] }

abbrev pub is_tool_failure : FailureEntry → Bool
is_tool_failure f =
    not (str_eq f.tool "verify")
    && (not (str_eq f.tool "replan") && (not (str_eq f.tool "unknown") && not (str_eq f.tool "")))

unfoldable pub has_tool_execution_failure : LoopData → Bool
has_tool_execution_failure d = any is_tool_failure d.failure_history

unfoldable pub cap_plan : List PlanStep → List PlanStep
cap_plan plan = if leb (length plan) 8 then plan else take 8 plan

abbrev pub last_of_failures : List FailureEntry → Option FailureEntry
last_of_failures [] = none
last_of_failures (f ∷ []) = some f
last_of_failures (f ∷ g ∷ fs) = last_of_failures (g ∷ fs)

unfoldable pub last_failure_summary : List FailureEntry → String
last_failure_summary history = elim (last_of_failures history) [
  | none ↦ "none"
  | some f ↦
      if str_eq f.args ""
      then str_append f.tool (str_append " → " f.error)
      else str_append f.tool (str_append "(" (str_append f.args (str_append ") → " f.error)))
]

abbrev pub out_of : ℕ → ℕ → String
out_of used cap = str_append (itoa used) (str_append "/" (itoa cap))

unfoldable pub reflect_exhaustion_message : LoopData → String
unfolding itoa last_failure_summary
reflect_exhaustion_message d = str_append "Task terminated: thinking budget exhausted (" (
    str_append (out_of d.reflections_used d.caps.max_reflections) (
      str_append " reflections, " (
        str_append (out_of d.replans_used d.caps.max_replans)
          (str_append " replans). Last failure: " (last_failure_summary d.failure_history)))))

abbrev pub last_thought : List Thought → Option Thought
last_thought [] = none
last_thought (t ∷ []) = some t
last_thought (t ∷ u ∷ ts) = last_thought (u ∷ ts)

-- The text of a failure that the step before a turn of Execute records when it gives up.
unfoldable pub escalation_reason : LoopData → String
unfolding itoa near_exhausted_no_progress has_tool_execution_failure
escalation_reason d =
    if near_exhausted_no_progress d
    then str_append "budget " (
        str_append (out_of d.tool_calls_used d.caps.tool_budget) (
          str_append " used with low unique-call ratio ("
            (str_append (itoa (length d.unique_call_hashes)) " unique)")))
    else if ltb 0 d.loop_break_attempted
    then "loop detected after loop-break nudge (model did not transition to final_answer)"
    else if has_tool_execution_failure d
    then "loop detected with prior tool failure"
    else "loop detected: repeating same tool call"

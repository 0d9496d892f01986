-- ===== src/Orchestrator/RetryTexts.antt =====
-- The texts of the verify and retry loop (internal/orchestrator/hitl.go): prompts, summaries and the
-- request for help.
use kyoci_agent.Prelude.{
  ℕ, ◌-◌, String, len, str_eq, str_append, Bool, true, false, Option, none, some, List, [], ◌∷◌,
  ◌==◌, if◌then◌else◌,
}
use kyoci_agent.Prelude.Text.{trim_space, itoa}
use kyoci_agent.Orchestrator.Verify.{truncate_for_hitl}
use kyoci_agent.Orchestrator.RetryData.{TaskResult, HelpRequest, VerifyRun, Env, Loop, Job, passed}

infixr 64 ◌+s◌
abbrev ◌+s◌ : String → String → String
s +s t = str_append s t

-- The text that the agent gets in an attempt.
pub task_for_run : Job → ℕ → Loop → String
task_for_run j attempt l =
    if attempt == 1
    then j.clean_task
    else if l.hint_injected
    then j.clean_task
      +s "\n\n---\nHINT FROM HUMAN OPERATOR (attempt "
      +s itoa attempt
      +s " of "
      +s itoa j.total_attempts
      +s "):\n"
      +s l.hint
      +s "\n---\nApply this hint to your next fix. Do not repeat previous mistakes."
    else j.clean_task
      +s "\n\n---\nPREVIOUS ATTEMPT "
      +s itoa (attempt - 1)
      +s " FAILED verification (attempt "
      +s itoa attempt
      +s " of "
      +s itoa j.total_attempts
      +s ").\nVerify output:\n"
      +s truncate_for_hitl l.last_verify_out 1500
      +s "\n---\nTry a different approach. Do not repeat the same fix."

pub bool_text : Bool → String
bool_text true = "true"
bool_text false = "false"

pub error_text : Option String → String
error_text none = "<nil>"
error_text (some e) = e

pub attempt_summary : ℕ → VerifyRun → String
attempt_summary attempt v =
    "attempt "
    +s itoa attempt
    +s ": pass="
    +s bool_text (passed v)
    +s " verify_err="
    +s error_text v.error
    +s " output_len="
    +s itoa (len v.output)

pub lesson_fix_summary : Option TaskResult → String
lesson_fix_summary none = "(no agent output)"
lesson_fix_summary (some r) =
    let c = trim_space r.content in
    if str_eq c "" then "(empty agent output)" else truncate_for_hitl c 500

-- attempts[0]; an attempt has been added before it is read.
pub first_attempt : List String → String
first_attempt [] = ""
first_attempt (a ∷ _) = a

unfoldable pub help_request : Env → Job → ℕ → Loop → HelpRequest
help_request e j attempt l = record {
  task_id = e.task_id;
  role = j.role;
  attempt = attempt;
  question =
      "I am stuck on task: "
      +s truncate_for_hitl j.clean_task 300
      +s "\n\nLast verification output:\n"
      +s truncate_for_hitl l.last_verify_out 800
      +s "\n\nI've tried "
      +s itoa attempt
      +s " attempt(s). Can you provide a hint?";
  last_error = truncate_for_hitl l.last_verify_out 1500;
  attempted_fixes = l.attempts;
}

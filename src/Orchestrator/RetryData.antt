-- ===== src/Orchestrator/RetryData.antt =====
-- The data of the verify and retry loop (internal/orchestrator/hitl.go, internal/hitl/hook.go). What
-- the loop calls and does not implement is a field of `Env`: the agent's run, the shell that runs the
-- VERIFY command, the operator behind the hook. Each answers by the number of the attempt. `calls` is
-- the list of these calls, oldest first, which the source does not keep.
use kyoci_agent.Prelude.{ℕ, String, Bool, true, false, Option, none, some, List}
use kyoci_agent.Prelude.Int.{ℤ}

-- The fields of `TaskResult` that the loop reads or writes; `more` stands for the others.
pub record TaskResult : Type 0 where
  pub content : String
  pub role : String
  pub more : ℕ

pub record HelpRequest : Type 0 where
  pub task_id : String
  pub role : String
  pub attempt : ℕ
  pub question : String
  pub last_error : String
  pub attempted_fixes : List String

pub data HookReply : Type 0 where
  hint : String → HookReply
  no_subscriber : HookReply
  hook_failed : String → HookReply

pub record LessonInput : Type 0 where
  pub task_id : String
  pub task : String
  pub failure : String
  pub hint : String
  pub fix : String
  pub verify_cmd : String

-- The output of the command, and the error of `exec` where it did not exit with 0.
pub record VerifyRun : Type 0 where
  pub output : String
  pub error : Option String

pub record AgentRun : Type 0 where
  pub result : Option TaskResult
  pub error : Option String

pub record HitlConfig : Type 0 where
  pub max_retries : ℤ
  pub hook : Option (HelpRequest → HookReply)

pub record Env : Type 0 where
  pub execute : ℕ → String → AgentRun
  pub run_verify : ℕ → String → VerifyRun
  pub config : Option HitlConfig
  pub keeps_lessons : Bool
  pub task_id : String

pub data Call : Type 0 where
  executed : String → Call
  verified : String → Call
  asked : HelpRequest → Call
  learned : LessonInput → Call

pub data RetryError : Type 0 where
  agent_error : String → RetryError
  verify_failed : ℕ → String → RetryError
  hitl_exhausted : String → RetryError
  hitl_unavailable : ℕ → String → RetryError
  hook_error : String → String → RetryError

pub record Outcome : Type 0 where
  pub result : Option TaskResult
  pub error : Option RetryError
  pub calls : List Call

-- The variables of the loop; `attempts` holds the summaries.
pub record Loop : Type 0 where
  pub attempts : List String
  pub last_result : Option TaskResult
  pub last_verify_out : String
  pub hint : String
  pub hint_injected : Bool
  pub calls : List Call

-- The constants of one call of executeWithRetry.
pub record Job : Type 0 where
  pub clean_task : String
  pub verify_cmd : String
  pub role : String
  pub pre_hitl_attempts : ℕ
  pub total_attempts : ℕ
  pub hook : Option (HelpRequest → HookReply)

abbrev pub passed : VerifyRun → Bool
passed v = elim (v.error) [ none ↦ true | some _ ↦ false ]

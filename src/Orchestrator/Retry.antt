-- ===== src/Orchestrator/Retry.antt =====
-- The verify and retry loop with a human in the loop (internal/orchestrator/hitl.go,
-- executeWithRetry). The log lines are left out.
pub mod Spec
pub mod Steps
pub mod Refinement
mod Tests
use kyoci_agent.Prelude.{
  ℕ, zero, suc, String, str_eq, Bool, true, false, not, ◌&&◌, Option, none, some, List, [], ◌∷◌,
  ◌++◌, ◌==◌, if◌then◌else◌,
}
use kyoci_agent.Prelude.Int.{ℤ, pos, negsuc, int_suc}
use kyoci_agent.Orchestrator.Verify.{
  extract_verify_command, strip_verify_directive, truncate_for_hitl,
}
use kyoci_agent.Orchestrator.RetryData.{
  TaskResult, HelpRequest, HookReply, hint, no_subscriber, hook_failed, LessonInput, HitlConfig,
  Env, Call, executed, verified, asked, learned, RetryError, agent_error, verify_failed,
  hitl_exhausted, hitl_unavailable, hook_error, Outcome, Loop, Job, passed,
}
use kyoci_agent.Orchestrator.RetryTexts.{
  task_for_run, attempt_summary, lesson_fix_summary, first_attempt, help_request,
}

-- The loop's bound for an `int`: it counts from 1, so nothing is run below 1.
pub rounds : ℤ → ℕ
rounds (pos n) = n
rounds (negsuc n) = 0

unfoldable pub max_retries_of : Option HitlConfig → ℤ
max_retries_of none = pos 0
max_retries_of (some c) = c.max_retries

unfoldable pub hook_of : Option HitlConfig → Option (HelpRequest → HookReply)
hook_of none = none
hook_of (some c) = c.hook

pub total_of : Option (HelpRequest → HookReply) → ℤ → ℤ
total_of none pre = pre
total_of (some _) pre = int_suc pre

pub record_lesson : Env → Job → Loop → Loop
record_lesson e j l =
    if l.hint_injected && e.keeps_lessons
    then record l {
      calls =
          l.calls
          ++ learned (record {
            task_id = e.task_id;
            task = j.clean_task;
            failure = first_attempt l.attempts;
            hint = l.hint;
            fix = lesson_fix_summary l.last_result;
            verify_cmd = j.verify_cmd;
          })
            ∷ [];
    }
    else l

pub result_or_default : Option TaskResult → TaskResult
result_or_default none = record { content = "verification passed"; role = ""; more = 0 }
result_or_default (some r) = r

-- The success path. The lesson is written before the role is set.
pub succeed : Env → Job → Loop → Outcome
unfolding record_lesson result_or_default
succeed e j l = record {
  result = some (record (result_or_default l.last_result) { role = j.role });
  error = none;
  calls = (record_lesson e j l).calls;
}

pub fail : Loop → RetryError → Outcome
fail l err = record { result = l.last_result; error = some err; calls = l.calls }

-- One attempt: the agent runs, whatever error it returns, and the command verifies.
pub attempt_once : Env → Job → ℕ → Loop → Loop × Bool
attempt_once e j attempt l =
    let text = task_for_run j attempt l in
    let r = e.execute attempt text in
    let v = e.run_verify attempt j.verify_cmd in
    (
      record l {
        attempts = l.attempts ++ attempt_summary attempt v ∷ [];
        last_result = r.result;
        last_verify_out = v.output;
        calls = l.calls ++ executed text ∷ verified j.verify_cmd ∷ [];
      },
      passed v,
    )

-- What an attempt leads to: the next one, or the end.
pub data Next : Type 0 where
  again : Loop → Next
  stop : Outcome → Next

pub after_reply : Job → ℕ → Loop → HookReply → Next
after_reply j attempt l (hint h) = again (record l { hint = h; hint_injected = true })
after_reply j attempt l no_subscriber = stop (fail l (hitl_unavailable attempt l.last_verify_out))
after_reply j attempt l (hook_failed err) =
    stop (fail l (hook_error err (truncate_for_hitl l.last_verify_out 200)))

pub ask_hook : Env → Job → ℕ → Loop → (HelpRequest → HookReply) → Next
unfolding after_reply
ask_hook e j attempt l hook =
    let req = help_request e j attempt l in
    after_reply j attempt (record l { calls = l.calls ++ asked req ∷ [] }) (hook req)

pub give_up_or_retry : Job → ℕ → Loop → Next
give_up_or_retry j attempt l =
    if attempt == j.total_attempts
    then stop (
        fail l (
          if l.hint_injected
          then hitl_exhausted l.last_verify_out
          else verify_failed attempt l.last_verify_out))
    else again l

-- The failure path: the hook is asked once, after the last attempt without a hint.
pub after_failure : Env → Job → ℕ → Loop → Next
unfolding ask_hook give_up_or_retry
after_failure e j attempt l = elim (j.hook) [
  | none ↦ give_up_or_retry j attempt l
  | some hook ↦
      if not l.hint_injected && attempt == j.pre_hitl_attempts
      then ask_hook e j attempt l hook
      else give_up_or_retry j attempt l
]

pub after_attempt : Env → Job → ℕ → Loop × Bool → Next
unfolding after_failure succeed
after_attempt e j attempt (l, pass) =
    if pass then stop (succeed e j l) else after_failure e j attempt l

-- `for attempt := 1; attempt <= totalAttempts; attempt++`, by the attempts that are left.
pub retry_loop : Env → Job → ℕ → ℕ → Loop → Outcome
unfolding attempt_once after_attempt
retry_loop e j zero attempt l = fail l (verify_failed j.total_attempts l.last_verify_out)
retry_loop e j (suc left) attempt l =
    elim (after_attempt e j attempt (attempt_once e j attempt l)) [
      | again l' ↦ retry_loop e j left (suc attempt) l'
      | stop o ↦ o
    ]

abbrev first_loop : Loop
first_loop = record {
  attempts = [];
  last_result = none;
  last_verify_out = "";
  hint = "";
  hint_injected = false;
  calls = [];
}

-- No directive: one run with the task as it came.
pub single_shot : Env → String → Outcome
single_shot e task =
    let r = e.execute 1 task in
    record {
      result = r.result;
      error = elim (r.error) [ none ↦ none | some err ↦ some (agent_error err) ];
      calls = executed task ∷ [];
    }

pub job_of : Env → String → String → String → Job
unfolding hook_of max_retries_of total_of rounds
job_of e task verify_cmd role =
    let pre = int_suc (max_retries_of e.config) in
    record {
      clean_task = strip_verify_directive task;
      verify_cmd = verify_cmd;
      role = role;
      pre_hitl_attempts = rounds pre;
      total_attempts = rounds (total_of (hook_of e.config) pre);
      hook = hook_of e.config;
    }

pub execute_with_retry : Env → String → String → Outcome
unfolding single_shot job_of retry_loop
execute_with_retry e task role =
    let cmd = extract_verify_command task in
    if str_eq cmd ""
    then single_shot e task
    else (let j = job_of e task cmd role in retry_loop e j j.total_attempts 1 first_loop)

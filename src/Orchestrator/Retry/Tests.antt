-- ===== src/Orchestrator/Retry/Tests.antt =====
-- The retry loop (internal/orchestrator/hitl.go) on concrete runs, and the witnesses.
use kyoci_agent.Prelude.{
  String, str_eq_iff, ◌≡◌, ◌≢◌, refl, true, false, Option, none, some, ◌==◌, arith, if◌then◌else◌,
}
use kyoci_agent.Prelude.Int.{ℤ, pos}
use kyoci_agent.Prelude.Text.{trim_space, split_lines, strip_prefix_fold}
use kyoci_agent.Orchestrator.Verify.{verify_line, extract_verify_command}
use kyoci_agent.Orchestrator.RetryData.{HelpRequest, HookReply, hint, Env}
use kyoci_agent.Orchestrator.Retry.{execute_with_retry, max_retries_of, hook_of}
use kyoci_agent.Orchestrator.Retry.Spec.{count_calls, observe, expected}
use kyoci_agent.Orchestrator.Retry.Refinement.{execute_with_retry-expected}

abbrev fix_task : String
fix_task = "fix the bug\nVERIFY: go test\n"

-- The command passes on the third attempt.
abbrev passes_third : ℤ → Option (HelpRequest → HookReply) → Env
passes_third retries hook = record {
  execute = λ k text. record { result = none; error = none };
  run_verify =
      λ k cmd. record { output = "FAIL"; error = if k == 3 then none else some "exit status 1" };
  config = some (record { max_retries = retries; hook = hook });
  keeps_lessons = true;
  task_id = "task-1";
}

abbrev with_operator : Env
with_operator = passes_third (pos 1) (some (λ req. hint "off by one"))

fix_task_directive : extract_verify_command fix_task ≢ ""
unfolding extract_verify_command split_lines verify_line strip_prefix_fold trim_space
fix_task_directive q = let p : false ≡ true = (str_eq_iff "go test" "").1 q in ground arith

execute_with_retry-expected_example :
    (req : HelpRequest) × (req.attempt ≡ 2)
    × (observe (execute_with_retry with_operator fix_task "coder")
        ≡ expected with_operator
            (extract_verify_command fix_task)
            1
            (hook_of with_operator.config)
            req)
unfolding max_retries_of
execute_with_retry-expected_example =
    execute_with_retry-expected with_operator fix_task "coder" fix_task_directive 1 refl

hinted_run :
    observe (execute_with_retry with_operator fix_task "coder")
    ≡ record { error = none; runs = 3; asks = 1; lessons = 1 }
unfolding observe execute_with_retry extract_verify_command count_calls split_lines verify_line
    strip_prefix_fold trim_space
hinted_run = refl

-- ===== src/Orchestrator/Retry/Spec.antt =====
-- What executeWithRetry promises (internal/orchestrator/hitl.go), without its texts: how often the
-- agent runs, whether the operator is asked, and the error.
use kyoci_agent.Prelude.{
  ℕ, zero, suc, ◌+◌, String, ◌≡◌, Bool, true, false, Option, none, some, List, [], ◌∷◌, ◌++◌, arith,
  if◌then◌else◌,
}
use kyoci_agent.Orchestrator.Verify.{truncate_for_hitl}
use kyoci_agent.Orchestrator.RetryData.{
  HelpRequest, HookReply, hint, no_subscriber, hook_failed, Env, Call, executed, asked, learned,
  RetryError, verify_failed, hitl_exhausted, hitl_unavailable, hook_error, Outcome, passed,
}

pub record Observed : Type 0 where
  pub error : Option RetryError
  pub runs : ℕ
  pub asks : ℕ
  pub lessons : ℕ

abbrev pub is_executed : Call → Bool
is_executed (executed _) = true
is_executed _ = false

abbrev pub is_asked : Call → Bool
is_asked (asked _) = true
is_asked _ = false

abbrev pub is_learned : Call → Bool
is_learned (learned _) = true
is_learned _ = false

unfoldable pub count_calls : (Call → Bool) → List Call → ℕ
count_calls p [] = 0
count_calls p (c ∷ cs) = let rest = count_calls p cs in if p c then suc rest else rest

pub count_calls-append :
    (p : Call → Bool) (cs ds : List Call)
    → count_calls p (cs ++ ds) ≡ count_calls p cs + count_calls p ds
unfolding count_calls
count_calls-append p [] ds = ground arith
count_calls-append p (c ∷ cs) ds = ground (arith, count_calls-append p cs ds)

unfoldable pub observe : Outcome → Observed
observe o = record {
  error = o.error;
  runs = count_calls is_executed o.calls;
  asks = count_calls is_asked o.calls;
  lessons = count_calls is_learned o.calls;
}

-- The first of `n` attempts, from `attempt` on, that passes.
unfoldable pub first_pass : (ℕ → Bool) → ℕ → ℕ → Option ℕ
first_pass passes attempt zero = none
first_pass passes attempt (suc n) =
    let rest = first_pass passes (suc attempt) n in if passes attempt then some attempt else rest

abbrev pub passes : Env → String → ℕ → Bool
passes e cmd k = passed (e.run_verify k cmd)

abbrev pub output : Env → String → ℕ → String
output e cmd k = (e.run_verify k cmd).output

-- After `last` attempts have failed and the operator has replied.
unfoldable pub after_help : Env → String → ℕ → HookReply → Observed
after_help e cmd last (hint _) =
    if passes e cmd (suc last)
    then record {
      error = none;
      runs = suc last;
      asks = 1;
      lessons = if e.keeps_lessons then 1 else 0;
    }
    else record {
      error = some (hitl_exhausted (output e cmd (suc last)));
      runs = suc last;
      asks = 1;
      lessons = 0;
    }
after_help e cmd last no_subscriber = record {
  error = some (hitl_unavailable last (output e cmd last));
  runs = last;
  asks = 1;
  lessons = 0;
}
after_help e cmd last (hook_failed err) = record {
  error = some (hook_error err (truncate_for_hitl (output e cmd last) 200));
  runs = last;
  asks = 1;
  lessons = 0;
}

-- After all of `last` attempts without a hint have failed.
unfoldable pub after_failures :
    Env → String → ℕ → Option (HelpRequest → HookReply) → HelpRequest → Observed
after_failures e cmd last none req = record {
  error = some (verify_failed last (output e cmd last));
  runs = last;
  asks = 0;
  lessons = 0;
}
after_failures e cmd last (some hook) req = after_help e cmd last (hook req)

unfoldable pub after_first_pass :
    Env → String → ℕ → Option (HelpRequest → HookReply) → HelpRequest → Option ℕ → Observed
after_first_pass e cmd last hook req none = after_failures e cmd last hook req
after_first_pass e cmd last hook req (some k) = record {
  error = none;
  runs = k;
  asks = 0;
  lessons = 0;
}

-- The whole contract for `retries` retries: the attempts without a hint are numbered from 1.
unfoldable pub expected :
    Env → String → ℕ → Option (HelpRequest → HookReply) → HelpRequest → Observed
unfolding after_first_pass after_failures after_help first_pass
expected e cmd retries hook req =
    after_first_pass e cmd (suc retries) hook req (first_pass (passes e cmd) 1 (suc retries))

-- ===== src/Orchestrator/Retry/Steps.antt =====
-- One attempt of executeWithRetry (internal/orchestrator/hitl.go), a lemma for each way that it can
-- go, and what it adds to the calls.
use kyoci_agent.Prelude.{
  ℕ, suc, String, ◌≡◌, ◌≢◌, refl, inl, inr, true, false, ◌&&◌, none, some, [], ◌∷◌, ◌++◌, arith,
  Bool-cases, if◌then◌else◌,
}
use kyoci_agent.Orchestrator.Verify.{truncate_for_hitl}
use kyoci_agent.Orchestrator.RetryData.{
  HelpRequest, HookReply, hint, no_subscriber, hook_failed, Env, asked, RetryError, verify_failed,
  hitl_exhausted, hitl_unavailable, hook_error, Loop, Job,
}
use kyoci_agent.Orchestrator.RetryTexts.{help_request}
use kyoci_agent.Orchestrator.Retry.{attempt_once, retry_loop, fail, succeed, record_lesson}
use kyoci_agent.Orchestrator.Retry.Spec.{
  observe, count_calls, count_calls-append, is_executed, is_asked, is_learned, passes, output,
}

-- What was called so far.
pub record HasCalled (l : Loop) (runs asks : ℕ) : Type 0 where
  pub executions : count_calls is_executed l.calls ≡ runs
  pub requests : count_calls is_asked l.calls ≡ asks
  pub no_lesson : count_calls is_learned l.calls ≡ 0

abbrev pub state_after : Env → Job → ℕ → Loop → Loop
state_after e j attempt l = (attempt_once e j attempt l).0

pub attempt_once-HasCalled :
    (e : Env) (j : Job) (attempt : ℕ) (l : Loop) (runs asks : ℕ)
    → HasCalled l runs asks
    → HasCalled (state_after e j attempt l) (suc runs) asks
unfolding attempt_once count_calls
attempt_once-HasCalled e j attempt l runs asks h = record {
  executions = rw (count_calls-append is_executed l.calls _) (omega (arith, h.executions));
  requests = rw (count_calls-append is_asked l.calls _) (omega (arith, h.requests));
  no_lesson = rw (count_calls-append is_learned l.calls _) (omega (arith, h.no_lesson));
}

abbrev pub request_after : Env → Job → ℕ → Loop → HelpRequest
request_after e j attempt l = help_request e j attempt (state_after e j attempt l)

abbrev pub asked_after : Env → Job → ℕ → Loop → Loop
asked_after e j attempt l =
    let l' = state_after e j attempt l in
    record l' { calls = l'.calls ++ asked (request_after e j attempt l) ∷ [] }

-- The ways that an attempt can go, one lemma for each.
module _ (e : Env) (j : Job) (left attempt : ℕ) (l : Loop) where
  pub loop_passes :
      passes e j.verify_cmd attempt ≡ true
      → retry_loop e j (suc left) attempt l ≡ succeed e j (state_after e j attempt l)
  unfolding retry_loop
  loop_passes p = ground arith

  module _ (p : passes e j.verify_cmd attempt ≡ false) where
    module _ (t : attempt ≡ j.total_attempts) where
      pub loop_gives_up :
          j.hook ≡ none
          → l.hint_injected ≡ false
          → retry_loop e j (suc left) attempt l
            ≡ fail
                (state_after e j attempt l)
                (verify_failed attempt (output e j.verify_cmd attempt))
      unfolding retry_loop
      loop_gives_up n i = ground arith

      pub loop_exhausts :
          l.hint_injected ≡ true
          → retry_loop e j (suc left) attempt l
            ≡ fail (state_after e j attempt l) (hitl_exhausted (output e j.verify_cmd attempt))
      unfolding retry_loop
      loop_exhausts i = ground arith

    pub loop_retries :
        attempt ≢ j.total_attempts
        → attempt ≢ j.pre_hitl_attempts
        → retry_loop e j (suc left) attempt l
          ≡ retry_loop e j left (suc attempt) (state_after e j attempt l)
    unfolding retry_loop
    loop_retries t h = ground arith

    module _ (f : HelpRequest → HookReply) (hooked : j.hook ≡ some f)
        (fresh : l.hint_injected ≡ false) (last : attempt ≡ j.pre_hitl_attempts) where
      pub loop_gets_hint :
          (text : String)
          → f (request_after e j attempt l) ≡ hint text
          → retry_loop e j (suc left) attempt l
            ≡ retry_loop e j left
                (suc attempt)
                (record (asked_after e j attempt l) { hint = text; hint_injected = true })
      unfolding retry_loop
      loop_gets_hint text r = ground arith

      pub loop_finds_nobody :
          f (request_after e j attempt l) ≡ no_subscriber
          → retry_loop e j (suc left) attempt l
            ≡ fail
                (asked_after e j attempt l)
                (hitl_unavailable attempt (output e j.verify_cmd attempt))
      unfolding retry_loop
      loop_finds_nobody r = ground arith

      pub loop_hook_fails :
          (err : String)
          → f (request_after e j attempt l) ≡ hook_failed err
          → retry_loop e j (suc left) attempt l
            ≡ fail
                (asked_after e j attempt l)
                (hook_error err (truncate_for_hitl (output e j.verify_cmd attempt) 200))
      unfolding retry_loop
      loop_hook_fails err r = ground arith

pub observe-succeed :
    (e : Env) (j : Job) (l : Loop) (runs asks : ℕ)
    → HasCalled l runs asks
    → observe (succeed e j l) ≡ record {
      error = none;
      runs = runs;
      asks = asks;
      lessons = if l.hint_injected && e.keeps_lessons then 1 else 0;
    }
unfolding observe succeed record_lesson count_calls
observe-succeed e j l runs asks h = elim (Bool-cases (l.hint_injected && e.keeps_lessons)) [
  | inl b ↦ rw b (
      rw
        (
          count_calls-append is_executed l.calls _,
          count_calls-append is_asked l.calls _,
          count_calls-append is_learned l.calls _,
        )
        (ground (arith, h.executions, h.requests, h.no_lesson)))
  | inr b ↦ rw b (ground (arith, h.executions, h.requests, h.no_lesson))
]

pub observe-fail :
    (l : Loop) (err : RetryError) (runs asks : ℕ)
    → HasCalled l runs asks
    → observe (fail l err) ≡ record { error = some err; runs = runs; asks = asks; lessons = 0 }
unfolding observe fail
observe-fail l err runs asks h = ground (arith, h.executions, h.requests, h.no_lesson)

pub asked_after-HasCalled :
    (e : Env) (j : Job) (attempt : ℕ) (l : Loop) (runs asks : ℕ) (text : String)
    → HasCalled l runs asks
    → HasCalled
        (record (asked_after e j attempt l) { hint = text; hint_injected = true })
        (suc runs)
        (suc asks)
      × HasCalled (asked_after e j attempt l) (suc runs) (suc asks)
unfolding count_calls
asked_after-HasCalled e j attempt l runs asks text h =
    let h' = attempt_once-HasCalled e j attempt l runs asks h in
    let more : HasCalled (asked_after e j attempt l) (suc runs) (suc asks) = record {
      executions =
          rw (count_calls-append is_executed (state_after e j attempt l).calls _)
            (omega (arith, h'.executions));
      requests =
          rw (count_calls-append is_asked (state_after e j attempt l).calls _)
            (omega (arith, h'.requests));
      no_lesson =
          rw (count_calls-append is_learned (state_after e j attempt l).calls _)
            (omega (arith, h'.no_lesson));
    } in
    (
      record { executions = more.executions; requests = more.requests; no_lesson = more.no_lesson },
      more,
    )

-- The flag is set by a hint alone.
pub hint_injected-state_after :
    (e : Env) (j : Job) (attempt : ℕ) (l : Loop)
    → (state_after e j attempt l).hint_injected ≡ l.hint_injected
unfolding attempt_once
hint_injected-state_after e j attempt l = refl

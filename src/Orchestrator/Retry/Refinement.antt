-- ===== src/Orchestrator/Retry/Refinement.antt =====
-- executeWithRetry (internal/orchestrator/hitl.go) keeps its promise.
use kyoci_agent.Prelude.{
  ℕ, zero, suc, ◌+◌, String, str_eq, str_eq_iff, ◌≡◌, ◌≢◌, ◌∙◌, refl, sym, ap, subst, inl, inr,
  true, false, Option, none, some, [], arith, Bool-cases,
}
use kyoci_agent.Prelude.Int.{pos, negsuc, int_suc}
use kyoci_agent.Orchestrator.Verify.{extract_verify_command}
use kyoci_agent.Orchestrator.RetryData.{
  HelpRequest, HookReply, hint, no_subscriber, hook_failed, Env, verify_failed, Loop, Job,
}
use kyoci_agent.Orchestrator.RetryTexts.{help_request}
use kyoci_agent.Orchestrator.Retry.{
  rounds, max_retries_of, hook_of, total_of, retry_loop, fail, job_of, first_loop,
  execute_with_retry,
}
use kyoci_agent.Orchestrator.Retry.Spec.{
  observe, count_calls, first_pass, passes, after_help, after_failures, after_first_pass, expected,
}
use kyoci_agent.Orchestrator.Retry.Steps.{
  HasCalled, state_after, request_after, asked_after, attempt_once-HasCalled, asked_after-HasCalled,
  loop_passes, loop_gives_up, loop_exhausts, loop_retries, loop_gets_hint, loop_finds_nobody,
  loop_hook_fails, observe-succeed, observe-fail, hint_injected-state_after,
}

module _ (e : Env) (j : Job) (last : ℕ) where
  -- The one attempt after a hint.
  after_hint :
      (l : Loop) (text : String)
      → HasCalled l last 1
      → l.hint_injected ≡ true
      → j.total_attempts ≡ suc last
      → observe (retry_loop e j 1 (suc last) l) ≡ after_help e j.verify_cmd last (hint text)
  unfolding after_help
  after_hint l text h i t =
      let h' = attempt_once-HasCalled e j (suc last) l last 1 h in
      elim (Bool-cases (passes e j.verify_cmd (suc last))) [
        | inl p ↦
            rw (p, loop_passes e j 0 (suc last) l p)
              (rw (observe-succeed e j (state_after e j (suc last) l) (suc last) 1 h')
                (ground (arith, hint_injected-state_after e j (suc last) l)))
        | inr p ↦
            rw (p, loop_exhausts e j 0 (suc last) l p (sym t) i)
              (observe-fail (state_after e j (suc last) l) _ (suc last) 1 h')
      ]

  -- An attempt without a hint that passes.
  early_pass :
      (left runs : ℕ) (l : Loop)
      → HasCalled l runs 0
      → l.hint_injected ≡ false
      → passes e j.verify_cmd (suc runs) ≡ true
      → observe (retry_loop e j (suc left) (suc runs) l)
        ≡ record { error = none; runs = suc runs; asks = 0; lessons = 0 }
  early_pass left runs l h i p = rw (loop_passes e j left (suc runs) l p) (
      rw
        (observe-succeed e j (state_after e j (suc runs) l) (suc runs) 0
          (attempt_once-HasCalled e j (suc runs) l runs 0 h))
        (ground (arith, hint_injected-state_after e j (suc runs) l)))

  module _ (pre : j.pre_hitl_attempts ≡ last) where
    without_hook :
        (c runs : ℕ) (l : Loop) (req : HelpRequest)
        → runs + suc c ≡ last
        → j.hook ≡ none
        → j.total_attempts ≡ last
        → HasCalled l runs 0
        → l.hint_injected ≡ false
        → observe (retry_loop e j (suc c) (suc runs) l)
          ≡ after_first_pass e j.verify_cmd last none req
              (first_pass (passes e j.verify_cmd) (suc runs) (suc c))
    unfolding after_first_pass after_failures first_pass
    without_hook zero runs l req s n t h i = elim (Bool-cases (passes e j.verify_cmd (suc runs))) [
      | inl p ↦ rw p (early_pass 0 runs l h i p)
      | inr p ↦
          (let end : suc runs ≡ last = omega arith in
            rw (p, loop_gives_up e j 0 (suc runs) l p (omega (arith, t)) n i)
              (rw (← end) (
                observe-fail (state_after e j (suc runs) l) _ (suc runs) 0
                  (attempt_once-HasCalled e j (suc runs) l runs 0 h))))
    ]
    without_hook (suc c) runs l req s n t h i =
        elim (Bool-cases (passes e j.verify_cmd (suc runs))) [
          | inl p ↦ rw p (early_pass (suc c) runs l h i p)
          | inr p ↦
              rw
                (p, loop_retries e j (suc c) (suc runs) l p (omega (arith, t)) (omega (arith, pre)))
                (without_hook c (suc runs) (state_after e j (suc runs) l) req (omega arith) n t
                  (attempt_once-HasCalled e j (suc runs) l runs 0 h)
                  (hint_injected-state_after e j (suc runs) l ∙ i))
        ]

    module _ (f : HelpRequest → HookReply) (hooked : j.hook ≡ some f)
        (total : j.total_attempts ≡ suc last) where
      boundary :
          (runs : ℕ) (l : Loop)
          → suc runs ≡ last
          → HasCalled l runs 0
          → l.hint_injected ≡ false
          → passes e j.verify_cmd (suc runs) ≡ false
          → observe (retry_loop e j 2 (suc runs) l)
            ≡ after_help e j.verify_cmd last (f (request_after e j (suc runs) l))
      unfolding after_help
      boundary runs l s h i p = go (f (request_after e j (suc runs) l)) refl
        where
          called :
              (text : String)
              → HasCalled
                  (record (asked_after e j (suc runs) l) { hint = text; hint_injected = true })
                  (suc runs)
                  1
                × HasCalled (asked_after e j (suc runs) l) (suc runs) 1
          called text = asked_after-HasCalled e j (suc runs) l runs 0 text h

          go :
              (r : HookReply)
              → f (request_after e j (suc runs) l) ≡ r
              → observe (retry_loop e j 2 (suc runs) l) ≡ after_help e j.verify_cmd last r
          go (hint text) r =
              rw (loop_gets_hint e j 1 (suc runs) l p f hooked i (s ∙ sym pre) text r, s)
                (after_hint (record (asked_after e j last l) { hint = text; hint_injected = true })
                  text (rw s at (called text).0) refl total)
          go no_subscriber r =
              rw (loop_finds_nobody e j 1 (suc runs) l p f hooked i (s ∙ sym pre) r)
                (rw (← s) (observe-fail _ _ (suc runs) 1 (called "").1))
          go (hook_failed err) r =
              rw (loop_hook_fails e j 1 (suc runs) l p f hooked i (s ∙ sym pre) err r)
                (rw (← s) (observe-fail _ _ (suc runs) 1 (called "").1))

      -- With a hook: the request that the operator gets, if it comes to that.
      with_hook :
          (c runs : ℕ) (l : Loop)
          → runs + suc c ≡ last
          → HasCalled l runs 0
          → l.hint_injected ≡ false
          → (req : HelpRequest) × (req.attempt ≡ last)
            × (observe (retry_loop e j (suc (suc c)) (suc runs) l)
                ≡ after_first_pass e j.verify_cmd last
                    (some f)
                    req
                    (first_pass (passes e j.verify_cmd) (suc runs) (suc c)))
      unfolding after_first_pass after_failures first_pass help_request
      with_hook zero runs l s h i = (request_after e j (suc runs) l, omega arith, last_attempt)
        where
          last_attempt :
              observe (retry_loop e j 2 (suc runs) l)
              ≡ after_first_pass e j.verify_cmd last
                  (some f)
                  (request_after e j (suc runs) l)
                  (first_pass (passes e j.verify_cmd) (suc runs) 1)
          last_attempt = elim (Bool-cases (passes e j.verify_cmd (suc runs))) [
            | inl p ↦ rw p (early_pass 1 runs l h i p)
            | inr p ↦ rw p (boundary runs l (omega arith) h i p)
          ]
      with_hook (suc c) runs l s h i = elim (Bool-cases (passes e j.verify_cmd (suc runs))) [
        | inl p ↦ (
          record (request_after e j (suc runs) l) { attempt = last },
          refl,
          rw p (early_pass (suc (suc c)) runs l h i p),
        )
        | inr p ↦
            rw
              (
                p,
                loop_retries e j (suc (suc c)) (suc runs) l p (omega (arith, total))
                    (omega (arith, pre)),
              )
              (with_hook c (suc runs) (state_after e j (suc runs) l) (omega arith)
                (attempt_once-HasCalled e j (suc runs) l runs 0 h)
                (hint_injected-state_after e j (suc runs) l ∙ i))
      ]

start-HasCalled : HasCalled first_loop 0 0
unfolding count_calls
start-HasCalled = record { executions = refl; requests = refl; no_lesson = refl }

-- The whole loop, by the hook that the job has.
loop_as_expected :
    (e : Env) (j : Job) (n : ℕ) (hook : Option (HelpRequest → HookReply))
    → j.hook ≡ hook
    → j.pre_hitl_attempts ≡ suc n
    → j.total_attempts ≡ rounds (total_of hook (pos (suc n)))
    → (req : HelpRequest) × (req.attempt ≡ suc n)
      × (observe (retry_loop e j j.total_attempts 1 first_loop)
          ≡ after_first_pass e j.verify_cmd
              (suc n)
              hook
              req
              (first_pass (passes e j.verify_cmd) 1 (suc n)))
unfolding total_of rounds help_request
loop_as_expected e j n none h pre t =
    let req = record (help_request e j 1 first_loop) { attempt = suc n } in
    (
      req,
      refl,
      subst
          (λ k.
            observe (retry_loop e j k 1 first_loop)
            ≡ after_first_pass e j.verify_cmd (suc n) none req
                (first_pass (passes e j.verify_cmd) 1 (suc n)))
          (sym t)
          (without_hook e j (suc n) pre n 0 first_loop req (omega arith) h t start-HasCalled refl),
    )
loop_as_expected e j n (some f) h pre t =
    subst
      (λ k.
        (req : HelpRequest) × (req.attempt ≡ suc n)
        × (observe (retry_loop e j k 1 first_loop)
            ≡ after_first_pass e j.verify_cmd (suc n) (some f) req
                (first_pass (passes e j.verify_cmd) 1 (suc n))))
      (sym t) (with_hook e j (suc n) pre f h t n 0 first_loop (omega arith) start-HasCalled refl)

module _ (e : Env) (task role : String) (directive : extract_verify_command task ≢ "") where
  run_of_job : execute_with_retry e task role ≡ (
      let j = job_of e task (extract_verify_command task) role in
      retry_loop e j j.total_attempts 1 first_loop)
  unfolding execute_with_retry
  run_of_job = elim (Bool-cases (str_eq (extract_verify_command task) "")) [
    | inl q ↦ elim (directive ((str_eq_iff _ _).0 q)) [ ]
    | inr q ↦ rw q refl
  ]

  -- For a task with a VERIFY directive and a budget of n retries, the runs of the agent, the requests to
  -- the operator, the lessons and the error are those of `expected`: the first of the n + 1 attempts
  -- that passes ends the task without a request; where all fail, an operator is asked once, after
  -- attempt n + 1, a hint gives one more attempt (and a lesson when it passes and lessons are kept),
  -- and without a hook, without a subscriber, on an error of the hook and after a hint that does not
  -- help, the error is the one of that case, with the output of the last verification.
  pub execute_with_retry-expected :
      (n : ℕ)
      → max_retries_of e.config ≡ pos n
      → (req : HelpRequest) × (req.attempt ≡ suc n)
        × (observe (execute_with_retry e task role)
            ≡ expected e (extract_verify_command task) n (hook_of e.config) req)
  unfolding expected job_of
  execute_with_retry-expected n retries = rw run_of_job (
      loop_as_expected e (job_of e task (extract_verify_command task) role) n (hook_of e.config)
        refl (ap (λ m. rounds (int_suc m)) retries)
        (ap (λ m. rounds (total_of (hook_of e.config) (int_suc m))) retries))

  -- For a task with a VERIFY directive, a negative number of retries and no hook, neither the agent nor
  -- the command runs: the result is empty and the error says that verification failed on attempt 0.
  pub execute_with_retry-negative_retries :
      (n : ℕ)
      → max_retries_of e.config ≡ negsuc n
      → hook_of e.config ≡ none
      → execute_with_retry e task role
        ≡ record { result = none; error = some (verify_failed 0 ""); calls = [] }
  unfolding job_of retry_loop fail total_of rounds
  execute_with_retry-negative_retries n retries hook = rw (run_of_job, retries, hook) (ground arith)

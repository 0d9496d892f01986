-- ===== src/Agent/Thinking/Rejected.antt =====
-- What becomes of an answer that Verify has rejected (internal/agent/thinking.go).
use kyoci_agent.Prelude.{
  ℕ, suc, ◌≡◌, refl, ap, ◌∙◌, String, str_eq, true, false, Option, none, some, ltb, arith,
  if◌then◌else◌,
}
use kyoci_agent.Prelude.Int.{ℤ}
use kyoci_agent.Agent.ThinkingData.{
  tool_call, Thought, LoopState, state_verify, state_reflect, state_done, can_reflect,
  record_failure, last_thought,
}
use kyoci_agent.Agent.ThinkingEnv.{
  is_done, Env, Machine, Next, goes, Answer, answered, run_thought_step,
}
use kyoci_agent.Agent.ThinkingSteps.{
  with_call, verify_last, verify_step, on_reflection, after_reflect, reflect_step, step,
}
use kyoci_agent.Agent.Thinking.{Ended, finished, compact_guard, after_step, drive, compose}
use kyoci_agent.Agent.Thinking.Caps.{thought_rule}
use kyoci_agent.Agent.Thinking.Ending.{compact_guard_ls}

module _ (env : Env) where
  verify_step-content :
      (m : Machine env)
      → ((verify_step env m).0.ls.final_content ≡ m.ls.final_content)
        × ((verify_step env m).0.ls.caps ≡ m.ls.caps)
        × ((verify_step env m).0.ls.reflections_used ≡ m.ls.reflections_used)
  unfolding verify_step record_failure
  verify_step-content m = kept (last_thought m.ls.thoughts)
    where
      kept :
          (o : Option Thought)
          → ((verify_last env m o).0.ls.final_content ≡ m.ls.final_content)
            × ((verify_last env m o).0.ls.caps ≡ m.ls.caps)
            × ((verify_last env m o).0.ls.reflections_used ≡ m.ls.reflections_used)
      kept none = (refl, refl, refl)
      kept (some last) = ground arith

  run_thought_step-content :
      (m : Machine env) (prompt label : String)
      → (run_thought_step env m prompt label).0.ls.final_content ≡ m.ls.final_content
  run_thought_step-content m prompt label =
      thought_rule env (λ r. r.0.ls.final_content ≡ m.ls.final_content) m prompt label
        (λ _ _ _. refl) (λ _ _ _. refl)

  after_reflect_bare_call :
      (r : Machine env × Answer) (th : Thought)
      → r.1 ≡ answered th
      → th.next_action.type ≡ tool_call
      → th.next_action.call ≡ none
      → ((after_reflect env r).1 ≡ goes state_done)
        × ((after_reflect env r).0.ls.final_content ≡ r.0.ls.final_content)
  unfolding after_reflect on_reflection with_call record_failure
  after_reflect_bare_call (m, a) th answers asks no_call = rw (answers, asks, no_call) (refl, refl)

  reflect_step_bare_call :
      (m : Machine env) (th : Thought)
      → can_reflect m.ls ≡ true
      → (run_thought_step env m (env.reflect_prompt m.ls.failure_history) "reflect").1 ≡ answered th
      → th.next_action.type ≡ tool_call
      → th.next_action.call ≡ none
      → ((reflect_step env m).1 ≡ goes state_done)
        × ((reflect_step env m).0.ls.final_content ≡ m.ls.final_content)
  unfolding reflect_step
  reflect_step_bare_call m th left answers asks no_call =
      let (done, same) = after_reflect_bare_call _ th answers asks no_call in
      rw left (done, same ∙ run_thought_step-content m _ _)

  after_step-goes :
      (again : LoopState → ℕ → Machine env → Machine env × Ended) (s s' : LoopState) (k : ℕ)
      (r : Machine env × Next)
      → r.1 ≡ goes s'
      → after_step env again s k r ≡ (if is_done s' then (r.0, finished) else again s' 0 r.0)
  unfolding after_step
  after_step-goes again s s' k (m, next) e = rw e refl

  -- What Verify makes of an answer, and what Reflect then works on, both as the driver calls them.
  abbrev pub judged : ℤ → Machine env → Machine env × Next
  judged limit m = verify_step env (compact_guard env limit m)

  abbrev pub reflecting : ℤ → Machine env → Machine env
  reflecting limit m = compact_guard env limit (judged limit m).0

  reflecting_same :
      (limit : ℤ) (m : Machine env)
      → ((reflecting limit m).ls.final_content ≡ m.ls.final_content)
        × (can_reflect (reflecting limit m).ls ≡ can_reflect m.ls)
  unfolding can_reflect
  reflecting_same limit m =
      let (content, caps, used) = verify_step-content (compact_guard env limit m) in
      let here = compact_guard_ls env limit m in
      let there = compact_guard_ls env limit (judged limit m).0 in
      (
        ap (λ d. d.final_content) there ∙ content ∙ ap (λ d. d.final_content) here,
        ap can_reflect there
            ∙ ap (λ c. ltb (judged limit m).0.ls.reflections_used c.max_reflections) caps
            ∙ ap (λ u. ltb u (compact_guard env limit m).ls.caps.max_reflections) used
            ∙ ap can_reflect here,
      )

  rejected_rounds :
      (m : Machine env) (limit : ℤ) (task : String) (n k : ℕ)
      → (judged limit m).1 ≡ goes state_reflect
      → (reflect_step env (reflecting limit m)).1 ≡ goes state_done
      → drive env (suc (suc n)) limit task state_verify k m
        ≡ ((reflect_step env (reflecting limit m)).0, finished)
  unfolding drive step
  rejected_rounds m limit task n k rejected done =
      after_step-goes (drive env (suc n) limit task) state_verify state_reflect k (judged limit m)
        rejected
      ∙ after_step-goes (drive env n limit task) state_reflect state_done 0
          (reflect_step env (reflecting limit m)) done

  compose_finished :
      (transitions : ℕ) (m : Machine env) (content : String)
      → m.ls.final_content ≡ content
      → str_eq content "" ≡ false
      → ((compose env transitions (m, finished)).content ≡ env.sanitize_content content)
        × ((compose env transitions (m, finished)).error ≡ none)
  unfolding compose
  compose_finished transitions m content same given = rw (same, given) (refl, refl)

  -- An answer that Verify has rejected is the result all the same where a reflection is left and the
  -- model asks in it for a tool call but gives none: two rounds from Verify on, the driver's loop ends, and
  -- the result of the task has that answer, if it is not empty, as its content, and no error.
  pub rejected_answer_stays :
      (m : Machine env) (th : Thought) (limit : ℤ) (task : String) (n k transitions : ℕ)
      → (judged limit m).1 ≡ goes state_reflect
      → can_reflect m.ls ≡ true
      → (run_thought_step env
          (reflecting limit m)
          (env.reflect_prompt (reflecting limit m).ls.failure_history)
          "reflect").1
        ≡ answered th
      → th.next_action.type ≡ tool_call
      → th.next_action.call ≡ none
      → str_eq m.ls.final_content "" ≡ false
      → let ended = drive env (suc (suc n)) limit task state_verify k m in
        let result = compose env transitions ended in
        (ended.1 ≡ finished)
        × (result.content ≡ env.sanitize_content m.ls.final_content)
        × (result.error ≡ none)
  rejected_answer_stays m th limit task n k transitions rejected left answers asks no_call given =
      let (content, can) = reflecting_same limit m in
      let (done, same) =
        reflect_step_bare_call (reflecting limit m) th (can ∙ left) answers asks no_call in
      let (composed, no_error) =
        compose_finished transitions (reflect_step env (reflecting limit m)).0 m.ls.final_content
          (same ∙ content) given in
      let rounds = rejected_rounds m limit task n k rejected done in
      (
        ap (λ r. r.1) rounds,
        ap (λ r. (compose env transitions r).content) rounds ∙ composed,
        ap (λ r. (compose env transitions r).error) rounds ∙ no_error,
      )

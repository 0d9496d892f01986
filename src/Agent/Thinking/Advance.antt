-- ===== src/Agent/Thinking/Advance.antt =====
-- Every step of the thinking loop (internal/agent/thinking.go) lowers the potential of Caps.
use kyoci_agent.Prelude.{
  suc, ◌<◌, ◌≡◌, refl, String, false, Option, none, some, [], ◌∷◌, ◌++◌, arith, if_rule, Bool-cases,
  inl, inr,
}
use kyoci_agent.Agent.ThinkingData.{
  ActionType, tool_call, final_answer, need_info_from_user, replan, other_action, Thought,
  LoopState, state_assess, state_plan, state_execute, state_verify, state_reflect, state_done,
  budget_exhausted, can_reflect, can_replan, record_failure, last_thought,
}
use kyoci_agent.Agent.ThinkingEnv.{is_done, Env, Machine}
use kyoci_agent.Agent.ThinkingSteps.{
  after_assess, assess_step, after_plan, plan_step, after_execute, execute_turn, execute_step,
  escalate, verify_last, verify_step, on_reflection, after_reflect, reflect_step, step,
}
use kyoci_agent.Agent.Thinking.Caps.{
  IsCapped, Advances, thought_rule, with_call-Advances, on_action-Advances,
}

module _ (env : Env) where
  on_reflection-Advances :
      (a : ActionType) (th : Thought) (m : Machine env)
      → IsCapped m.ls
      → m.ls.reflections_used < m.ls.caps.max_reflections
      → Advances env state_reflect m.ls (
          on_reflection env a th
            (record m { ls = record m.ls { reflections_used = suc m.ls.reflections_used } }))
  unfolding on_reflection record_failure can_replan
  on_reflection-Advances replan th m h room = ground (arith, h, room)
  on_reflection-Advances tool_call th m h room =
      with_call-Advances env state_reflect m.ls _
        (record m { ls = record m.ls { reflections_used = suc m.ls.reflections_used } })
        th.next_action.call (refl, (omega arith, h.1, omega arith), omega arith) refl
        (omega arith, h.1, omega arith) (omega arith) (omega arith)
  on_reflection-Advances final_answer th m h room =
      (refl, (omega arith, h.1, omega arith), omega arith)
  on_reflection-Advances need_info_from_user th m h room = ground (arith, h, room)
  on_reflection-Advances (other_action s) th m h room = ground (arith, h, room)

  assess_step-Advances :
      (task : String) (m : Machine env)
      → IsCapped m.ls
      → Advances env state_assess m.ls (assess_step env task m)
  unfolding assess_step after_assess
  assess_step-Advances task m h =
      thought_rule env (λ r. Advances env state_assess m.ls (after_assess env task r)) m _ _
        (λ _ _ _. (refl, h, omega arith)) (λ _ _ _. ground (arith, h))

  plan_step-Advances :
      (task : String) (m : Machine env)
      → IsCapped m.ls
      → Advances env state_plan m.ls (plan_step env task m)
  unfolding plan_step after_plan
  plan_step-Advances task m h =
      thought_rule env (λ r. Advances env state_plan m.ls (after_plan env r)) m _ _
        (λ _ _ _. (refl, h, omega arith)) (λ _ _ _. (refl, h, omega arith))

  execute_turn-Advances :
      (m : Machine env) (prompt : String)
      → IsCapped m.ls
      → m.ls.tool_calls_used < m.ls.caps.tool_budget
      → Advances env state_execute m.ls (execute_turn env m prompt)
  unfolding after_execute
  execute_turn-Advances m prompt h room =
      thought_rule env (λ r. Advances env state_execute m.ls (after_execute env r)) m _ _
        (λ _ _ _. (refl, h, omega arith))
        (λ world convo th. on_action-Advances env th.next_action.type th _ h room)

  execute_step-Advances :
      (m : Machine env) → IsCapped m.ls → Advances env state_execute m.ls (execute_step env m)
  unfolding execute_step budget_exhausted escalate record_failure
  execute_step-Advances m h = elim (Bool-cases (budget_exhausted m.ls)) [
    | inl gone ↦ ground (arith, h, gone)
    | inr left ↦
        (let room : m.ls.tool_calls_used < m.ls.caps.tool_budget = ground (arith, left) in
          ground (
            arith,
            left,
            h,
            execute_turn-Advances
                (record m {
                  ls = record m.ls { loop_break_attempted = suc m.ls.loop_break_attempted };
                })
                env.loop_break_nudge h room,
            execute_turn-Advances m env.search_budget_nudge h room,
            execute_turn-Advances m env.execute_prompt h room,
          ))
  ]

  verify_step-Advances :
      (m : Machine env) → IsCapped m.ls → Advances env state_verify m.ls (verify_step env m)
  unfolding verify_step record_failure
  verify_step-Advances m h = at_last (last_thought m.ls.thoughts)
    where
      at_last : (o : Option Thought) → Advances env state_verify m.ls (verify_last env m o)
      at_last none = (refl, h, omega arith)
      at_last (some last) = ground (arith, h)

  reflect_step-Advances :
      (m : Machine env) → IsCapped m.ls → Advances env state_reflect m.ls (reflect_step env m)
  unfolding reflect_step after_reflect can_reflect
  reflect_step-Advances m h =
      if_rule (Advances env state_reflect m.ls) (can_reflect m.ls)
        (λ c.
          (let room : m.ls.reflections_used < m.ls.caps.max_reflections = ground (arith, c) in
            thought_rule env (λ r. Advances env state_reflect m.ls (after_reflect env r)) m
              (env.reflect_prompt m.ls.failure_history) "reflect" (λ _ _ _. (refl, h, omega arith))
              (λ world convo th.
                on_reflection-Advances th.next_action.type th
                  (record m {
                    world = world;
                    convo = convo;
                    ls = record m.ls { thoughts = m.ls.thoughts ++ th ∷ [] };
                  })
                  h room)))
        (λ _. (refl, h, omega arith))

  pub step-Advances :
      (task : String) (s : LoopState) (m : Machine env)
      → is_done s ≡ false
      → IsCapped m.ls
      → Advances env s m.ls (step env task s m)
  unfolding step
  step-Advances task state_assess m e h = assess_step-Advances task m h
  step-Advances task state_plan m e h = plan_step-Advances task m h
  step-Advances task state_execute m e h = execute_step-Advances m h
  step-Advances task state_verify m e h = verify_step-Advances m h
  step-Advances task state_reflect m e h = reflect_step-Advances m h
  step-Advances task state_done m e h = ground (arith, e)

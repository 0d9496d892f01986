-- ===== src/Agent/Thinking/Recovery.antt =====
-- What the recovery of the thinking loop (internal/agent/thinking.go) does after a loop was detected.
use kyoci_agent.Prelude.{
  ℕ, ◌≡◌, ◌≢◌, refl, ap, String, Bool, true, false, Option, none, some, List, [], ◌∷◌, ◌++◌, ◌⊎◌,
  inl, inr, any, arith, if_rule,
}
use kyoci_agent.Prelude.Int.{ℤ}
use kyoci_agent.Agent.ThinkingData.{
  ActionType, tool_call, final_answer, need_info_from_user, replan, other_action, Thought,
  LoopState, state_plan, state_execute, state_reflect, LoopData, budget_exhausted, is_looping,
  has_tool_execution_failure, is_tool_failure, can_reflect, record_failure, last_thought,
}
use kyoci_agent.Agent.ThinkingEnv.{Env, Machine, Next, goes}
use kyoci_agent.Agent.ThinkingSteps.{
  after_plan, plan_step, tool_replied, run_tool_call, with_call, execute_step, escalate,
  verify_step, on_reflection, after_reflect, reflect_step,
}
use kyoci_agent.Agent.Thinking.{drive}
use kyoci_agent.Agent.Thinking.Caps.{thought_rule}
use kyoci_agent.Agent.Thinking.Failures.{HasFailed, drive-HasFailed, verify_rejects}

-- A loop was detected, the nudge was spent, and the budget is not.
abbrev pub IsStuck : LoopData → Type 0
IsStuck d = (is_looping d ≡ true) × (d.loop_break_attempted ≢ 0) × (budget_exhausted d ≡ false)

pub any_snoc {ℓ} :
    {A : Type ℓ} (p : A → Bool) (xs : List A) (x : A) → p x ≡ true → any p (xs ++ x ∷ []) ≡ true
any_snoc p [] x h = ground (arith, h)
any_snoc p (y ∷ xs) x h = ground (arith, any_snoc p xs x h)

module _ (env : Env) where
  stuck_execute :
      (m : Machine env) → IsStuck m.ls → execute_step env m ≡ (escalate env m, goes state_reflect)
  unfolding execute_step
  stuck_execute m (looping, nudged, left) = ground (arith, looping, nudged, left)

  -- The state that a step leads to is stuck too, if it is Plan or Execute.
  abbrev StaysStuck : LoopState → Machine env × Next → Type 0
  StaysStuck s (m, next) = next ≡ goes s → IsStuck m.ls

  plan_step-StaysStuck :
      (task : String) (m : Machine env)
      → IsStuck m.ls
      → StaysStuck state_execute (plan_step env task m)
  unfolding plan_step after_plan is_looping budget_exhausted
  plan_step-StaysStuck task m stuck =
      thought_rule env (λ r. StaysStuck state_execute (after_plan env r)) m (env.plan_prompt task)
        "plan" (λ _ _ _ _. stuck) (λ _ _ _ _. stuck)

  run_tool_call_not_plan :
      (m : Machine env) (missing : Machine env × Next) (o : Option _)
      → StaysStuck state_plan missing
      → StaysStuck state_plan (with_call env missing m o)
  unfolding with_call run_tool_call
  run_tool_call_not_plan m missing none h = h
  run_tool_call_not_plan m missing (some tc) h = replied_too _ _ (env.act m.world tc).1
    where
      replied_too :
          (world : env.World) (d : LoopData) (reply : String ⊎ String)
          → StaysStuck state_plan (tool_replied env (record m { world = world; ls = d }) tc reply)
      replied_too world d (inl e) = λ x. ground (arith, x)
      replied_too world d (inr result) = λ x. ground (arith, x)

  on_reflection-StaysStuck :
      (a : ActionType) (th : Thought) (m : Machine env)
      → IsStuck m.ls
      → StaysStuck state_plan (on_reflection env a th m)
  unfolding on_reflection is_looping budget_exhausted
  on_reflection-StaysStuck replan th m stuck = ground (arith, stuck)
  on_reflection-StaysStuck tool_call th m stuck =
      run_tool_call_not_plan m _ th.next_action.call (λ x. ground (arith, x))
  on_reflection-StaysStuck final_answer th m stuck = λ x. ground (arith, x)
  on_reflection-StaysStuck need_info_from_user th m stuck = ground (arith, stuck)
  on_reflection-StaysStuck (other_action s) th m stuck = ground (arith, stuck)

  reflect_step-StaysStuck :
      (m : Machine env) → IsStuck m.ls → StaysStuck state_plan (reflect_step env m)
  unfolding reflect_step after_reflect is_looping budget_exhausted
  reflect_step-StaysStuck m stuck =
      if_rule (StaysStuck state_plan) (can_reflect m.ls)
        (λ _.
          thought_rule env (λ r. StaysStuck state_plan (after_reflect env r)) m
            (env.reflect_prompt m.ls.failure_history) "reflect" (λ _ _ _ x. ground (arith, x))
            (λ world convo th. on_reflection-StaysStuck th.next_action.type th _ stuck))
        (λ _ x. ground (arith, x))

  -- Once a loop was detected and the nudge is spent, a new plan cannot help while tool calls are left:
  -- where a reflection leads to Plan, and Plan to Execute, Execute goes back to Reflect at once,
  -- without asking the model or calling a tool, and the same holds there again.
  pub replan_cannot_recover :
      (task : String) (m : Machine env)
      → IsStuck m.ls
      → (reflect_step env m).1 ≡ goes state_plan
      → (plan_step env task (reflect_step env m).0).1 ≡ goes state_execute
      → let planned = (plan_step env task (reflect_step env m).0).0 in
        let (again, next) = execute_step env planned in
        (next ≡ goes state_reflect) × (again.world ≡ planned.world) × IsStuck again.ls
  unfolding escalate record_failure is_looping budget_exhausted
  replan_cannot_recover task m stuck to_plan to_execute =
      let r = reflect_step env m in
      let stuck' = reflect_step-StaysStuck m stuck to_plan in
      let planned = (plan_step env task r.0).0 in
      let stuck'' = plan_step-StaysStuck task r.0 stuck' to_execute in
      rw (stuck_execute planned stuck'') (refl, refl, stuck'')

  -- The machine after n more rounds of the driver, from the step of Execute on that leads to Reflect.
  abbrev pub rounds_later : ℕ → ℤ → String → Machine env → Machine env
  rounds_later n limit task m = (drive env n limit task state_reflect 0 (execute_step env m).0).0

  -- Where a loop was detected, the nudge is spent and tool calls are left, Execute leads to Reflect, and
  -- the failure that it records there counts as the failure of a tool, even if no call ever failed, and
  -- for good: where a tool was called before, then after any number of further rounds of the driver,
  -- through whatever states, Verify sends back to Reflect an answer whose thought gives no evidence.
  pub escalation_rejects :
      (m : Machine env) (n : ℕ) (limit : ℤ) (task : String) (last : Thought)
      → IsStuck m.ls
      → m.ls.tool_calls_used ≢ 0
      → last_thought (rounds_later n limit task m).ls.thoughts ≡ some last
      → last.verification_evidence ≡ []
      → ((execute_step env m).1 ≡ goes state_reflect)
        × (has_tool_execution_failure (rounds_later n limit task m).ls ≡ true)
        × ((verify_step env (rounds_later n limit task m)).1 ≡ goes state_reflect)
  unfolding escalate record_failure has_tool_execution_failure
  escalation_rejects m n limit task last stuck used is_last none_given =
      let counts : has_tool_execution_failure (escalate env m).ls ≡ true =
        any_snoc is_tool_failure m.ls.failure_history _ refl in
      let escalated : HasFailed (execute_step env m).0.ls =
        rw (stuck_execute m stuck) (counts, used) in
      let later : HasFailed (rounds_later n limit task m).ls =
        drive-HasFailed env n limit task state_reflect 0 (execute_step env m).0 escalated in
      (
        ap (λ r. r.1) (stuck_execute m stuck),
        later.0,
        verify_rejects env (rounds_later n limit task m) last later is_last none_given,
      )

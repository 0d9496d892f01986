-- ===== src/Agent/Thinking/Failures.antt =====
-- The failures on record in the thinking loop (internal/agent/thinking.go): none is ever taken back.
use kyoci_agent.Prelude.{
  ℕ, zero, suc, ◌≡◌, ◌≢◌, subst, sym, String, Bool, true, Option, none, some, List, [], ◌∷◌, ◌++◌,
  ◌⊎◌, inl, inr, ◌||◌, any, arith, if_rule, ltb,
}
use kyoci_agent.Prelude.Int.{ℤ}
use kyoci_agent.Agent.Context.{Context, ToolCall}
use kyoci_agent.Agent.ThinkingData.{
  FailureEntry, ActionType, tool_call, final_answer, need_info_from_user, replan, other_action,
  Thought, LoopState, state_assess, state_plan, state_execute, state_verify, state_reflect,
  state_done, LoopData, budget_exhausted, is_looping, near_exhausted_no_progress,
  has_tool_execution_failure, is_tool_failure, can_reflect, can_replan, record_tool_call,
  record_failure, last_thought,
}
use kyoci_agent.Agent.ThinkingEnv.{is_done, Env, Machine, Next, goes, fails}
use kyoci_agent.Agent.ThinkingSteps.{
  after_assess, assess_step, after_plan, plan_step, tool_replied, run_tool_call, with_call,
  on_action, after_execute, execute_turn, nudge_allowed, execute_step, escalate, verify_last,
  verify_step, on_reflection, after_reflect, reflect_step, step,
}
use kyoci_agent.Agent.Thinking.{
  Ended, compact_guard, narrated, narrative_fallback, is_parse_error, after_step, drive,
}
use kyoci_agent.Agent.Thinking.Caps.{thought_rule}
use kyoci_agent.Agent.Thinking.Ending.{compact_guard_ls}

any_before {ℓ} :
    {A : Type ℓ} (p : A → Bool) (xs : List A) (x : A)
    → any p xs ≡ true
    → any p (xs ++ x ∷ []) ≡ true
any_before p [] x h = absurd (ground (arith, h))
any_before p (y ∷ xs) x h = ground (arith, h, any_before p xs x)

-- A failure is on record that counts as a tool's, and a tool was called.
abbrev pub HasFailed : LoopData → Type 0
HasFailed d = (has_tool_execution_failure d ≡ true) × (d.tool_calls_used ≢ 0)

record_failure-HasFailed :
    (entry : FailureEntry) (d : LoopData) → HasFailed d → HasFailed (record_failure entry d)
unfolding record_failure has_tool_execution_failure
record_failure-HasFailed entry d (failed, used) =
    (any_before is_tool_failure d.failure_history entry failed, used)

record_tool_call-HasFailed :
    (hash : String) (search : Bool) (d : LoopData)
    → HasFailed d
    → HasFailed (record_tool_call hash search d)
unfolding record_tool_call has_tool_execution_failure
record_tool_call-HasFailed hash search d (failed, used) = (failed, λ e. omega (arith, e))

module _ (env : Env) where
  abbrev StaysFailed : Machine env × Next → Type 0
  StaysFailed r = HasFailed r.0.ls

  with_call-StaysFailed :
      (missing : Machine env × Next) (m : Machine env) (o : Option ToolCall)
      → HasFailed m.ls
      → StaysFailed missing
      → StaysFailed (with_call env missing m o)
  unfolding with_call run_tool_call
  with_call-StaysFailed missing m none h at_missing = at_missing
  with_call-StaysFailed missing m (some tc) h at_missing =
      replied_too _ _ (env.act m.world tc).1 (record_tool_call-HasFailed _ _ m.ls h)
    where
      replied_too :
          (world : env.World) (d : LoopData) (reply : String ⊎ String)
          → HasFailed d
          → StaysFailed (tool_replied env (record m { world = world; ls = d }) tc reply)
      replied_too world d (inl e) h = record_failure-HasFailed _ d h
      replied_too world d (inr result) h = h

  on_action-StaysFailed :
      (a : ActionType) (th : Thought) (m : Machine env)
      → HasFailed m.ls
      → StaysFailed (on_action env a th m)
  unfolding on_action has_tool_execution_failure
  on_action-StaysFailed final_answer th m h = h
  on_action-StaysFailed replan th m h =
      if_rule (λ (m' : Machine env). HasFailed m'.ls) _ (λ _. h)
        (λ _. record_failure-HasFailed _ m.ls h)
  on_action-StaysFailed need_info_from_user th m h = h
  on_action-StaysFailed tool_call th m h =
      with_call-StaysFailed _ m th.next_action.call h (record_failure-HasFailed _ m.ls h)
  on_action-StaysFailed (other_action s) th m h = record_failure-HasFailed _ m.ls h

  on_reflection-StaysFailed :
      (a : ActionType) (th : Thought) (m : Machine env)
      → HasFailed m.ls
      → StaysFailed (on_reflection env a th m)
  unfolding on_reflection has_tool_execution_failure
  on_reflection-StaysFailed replan th m h = if_rule StaysFailed (can_replan m.ls) (λ _. h) (λ _. h)
  on_reflection-StaysFailed tool_call th m h =
      with_call-StaysFailed _ m th.next_action.call h (record_failure-HasFailed _ m.ls h)
  on_reflection-StaysFailed final_answer th m h = h
  on_reflection-StaysFailed need_info_from_user th m h =
      if_rule StaysFailed (can_replan m.ls) (λ _. h) (λ _. h)
  on_reflection-StaysFailed (other_action s) th m h =
      if_rule StaysFailed (can_replan m.ls) (λ _. h) (λ _. h)

  execute_turn-StaysFailed :
      (m : Machine env) (prompt : String) → HasFailed m.ls → StaysFailed (execute_turn env m prompt)
  unfolding after_execute has_tool_execution_failure
  execute_turn-StaysFailed m prompt h =
      thought_rule env (λ r. StaysFailed (after_execute env r)) m prompt "execute" (λ _ _ _. h)
        (λ world convo th. on_action-StaysFailed th.next_action.type th _ h)

  verify_step-StaysFailed : (m : Machine env) → HasFailed m.ls → StaysFailed (verify_step env m)
  unfolding verify_step
  verify_step-StaysFailed m h = at_last (last_thought m.ls.thoughts)
    where
      at_last : (o : Option Thought) → StaysFailed (verify_last env m o)
      at_last none = h
      at_last (some last) = if_rule StaysFailed _ (λ _. h) (λ _. record_failure-HasFailed _ m.ls h)

  -- A step of any state keeps it.
  step-StaysFailed :
      (task : String) (s : LoopState) (m : Machine env)
      → HasFailed m.ls
      → StaysFailed (step env task s m)
  unfolding step assess_step after_assess plan_step after_plan execute_step escalate reflect_step
      after_reflect has_tool_execution_failure
  step-StaysFailed task state_assess m h =
      thought_rule env (λ r. StaysFailed (after_assess env task r)) m _ _ (λ _ _ _. h)
        (λ _ _ _. if_rule StaysFailed _ (λ _. h) (λ _. h))
  step-StaysFailed task state_plan m h =
      thought_rule env (λ r. StaysFailed (after_plan env r)) m _ _ (λ _ _ _. h) (λ _ _ _. h)
  step-StaysFailed task state_execute m h =
      if_rule StaysFailed (budget_exhausted m.ls) (λ _. h)
        (λ _.
          if_rule StaysFailed (nudge_allowed env m.ls)
            (λ _. execute_turn-StaysFailed _ env.loop_break_nudge h)
            (λ _.
              if_rule StaysFailed (is_looping m.ls || near_exhausted_no_progress m.ls)
                (λ _. record_failure-HasFailed _ m.ls h) (λ _. execute_turn-StaysFailed m _ h)))
  step-StaysFailed task state_verify m h = verify_step-StaysFailed m h
  step-StaysFailed task state_reflect m h =
      if_rule StaysFailed (can_reflect m.ls)
        (λ _.
          thought_rule env (λ r. StaysFailed (after_reflect env r)) m
            (env.reflect_prompt m.ls.failure_history) "reflect" (λ _ _ _. h)
            (λ world convo th. on_reflection-StaysFailed th.next_action.type th _ h))
        (λ _. h)
  step-StaysFailed task state_done m h = h

  abbrev EndsFailed : Machine env × Ended → Type 0
  EndsFailed r = HasFailed r.0.ls

  narrative_fallback-EndsFailed :
      (m : Machine env) (e : String) → HasFailed m.ls → EndsFailed (narrative_fallback env m e)
  unfolding narrative_fallback has_tool_execution_failure
  narrative_fallback-EndsFailed m e h = narrated_too _ _ (env.think _ _).1
    where
      narrated_too :
          (world : env.World) (convo : Context) (reply : String ⊎ String)
          → EndsFailed (narrated env (record m { world = world; convo = convo }) e reply)
      narrated_too world convo (inl _) = h
      narrated_too world convo (inr content) = if_rule EndsFailed _ (λ _. h) (λ _. h)

  after_step-EndsFailed :
      (again : LoopState → ℕ → Machine env → Machine env × Ended)
      → ((s : LoopState) (k : ℕ) (m : Machine env) → HasFailed m.ls → EndsFailed (again s k m))
      → (s : LoopState) (k : ℕ) (r : Machine env × Next) → StaysFailed r
      → EndsFailed (after_step env again s k r)
  unfolding after_step
  after_step-EndsFailed again ih s k (m, goes s') h =
      if_rule EndsFailed (is_done s') (λ _. h) (λ _. ih s' 0 m h)
  after_step-EndsFailed again ih s k (m, fails e) h =
      if_rule EndsFailed (is_parse_error e)
        (λ _.
          if_rule EndsFailed (ltb k 2) (λ _. ih s (suc k) _ h)
            (λ _. narrative_fallback-EndsFailed m e h))
        (λ _. h)

  -- Any number of rounds of the driver keeps it.
  pub drive-HasFailed :
      (n : ℕ) (limit : ℤ) (task : String) (s : LoopState) (k : ℕ) (m : Machine env)
      → HasFailed m.ls
      → HasFailed (drive env n limit task s k m).0.ls
  unfolding drive
  drive-HasFailed zero limit task s k m h = h
  drive-HasFailed (suc n) limit task s k m h =
      after_step-EndsFailed (drive env n limit task)
        (λ s' k' m'. drive-HasFailed n limit task s' k' m') s k
        (step env task s (compact_guard env limit m))
        (step-StaysFailed task s (compact_guard env limit m)
          (subst HasFailed (sym (compact_guard_ls env limit m)) h))

  -- Verify rejects an answer without evidence while it holds.
  pub verify_rejects :
      (m : Machine env) (last : Thought)
      → HasFailed m.ls
      → last_thought m.ls.thoughts ≡ some last
      → last.verification_evidence ≡ []
      → (verify_step env m).1 ≡ goes state_reflect
  unfolding verify_step
  verify_rejects m last (failed, used) is_last none_given =
      rw is_last (ground (arith, failed, used, none_given))

-- ===== src/Agent/Thinking/Ending.antt =====
-- How the thinking loop ends (executeWithThinking of internal/agent/thinking.go): the counters at its
-- end, and the number of transitions that is always enough.
use kyoci_agent.Prelude.{
  ℕ, zero, suc, ◌+◌, ◌-◌, ◌*◌, ◌≤◌, ◌<◌, ◌≡◌, ◌≢◌, ◌∙◌, refl, sym, subst, ap, String, false, ◌⊎◌,
  inl, inr, arith, tests, ltb, if_rule,
}
use kyoci_agent.Prelude.Int.{ℤ, pos, int_leb}
use kyoci_agent.Agent.Context.{token_count}
use kyoci_agent.Agent.ThinkingData.{LoopState, state_assess, LoopData, new_loop_state, positive_or}
use kyoci_agent.Agent.ThinkingEnv.{is_done, Env, Machine, Next, goes, fails}
use kyoci_agent.Agent.ThinkingSteps.{step}
use kyoci_agent.Agent.Thinking.{
  Config, Ended, ran_out, is_parse_error, compact_guard, narrated, narrative_fallback, after_step,
  drive, start, max_thought_transitions, compose, execute_with_thinking,
}
use kyoci_agent.Agent.Thinking.Caps.{IsCapped, potential, Advances}
use kyoci_agent.Agent.Thinking.Advance.{step-Advances}

module _ (env : Env) where
  -- What n rounds from state s on with k reminders in a row lead to, for the record d at their start.
  abbrev Ends : ℕ → LoopState → ℕ → LoopData → Machine env × Ended → Type 0
  Ends n s k d (m, e) =
      (m.ls.caps ≡ d.caps) × IsCapped m.ls × (e ≡ ran_out → n ≤ 3 * potential s d + (2 - k))

  narrative_fallback-Ends :
      (n : ℕ) (s : LoopState) (k : ℕ) (d : LoopData) (m : Machine env) (e : String)
      → m.ls.caps ≡ d.caps
      → IsCapped m.ls
      → Ends n s k d (narrative_fallback env m e)
  unfolding narrative_fallback
  narrative_fallback-Ends n s k d m e same h = narrated_too _ _ (env.think _ _).1
    where
      narrated_too :
          (world : env.World) (convo : _) (reply : String ⊎ String)
          → Ends n s k d (narrated env (record m { world = world; convo = convo }) e reply)
      narrated_too world convo (inl _) = (same, h, λ x. ground (arith, x))
      narrated_too world convo (inr content) = ground (arith, same, h)

  after_step-Ends :
      (n : ℕ) (again : LoopState → ℕ → Machine env → Machine env × Ended)
      → ((s : LoopState) (k : ℕ) (m : Machine env)
          → is_done s ≡ false
          → k ≤ 2
          → IsCapped m.ls
          → Ends n s k m.ls (again s k m))
      → (s : LoopState) (k : ℕ) (d : LoopData) (r : Machine env × Next) → is_done s ≡ false
      → k ≤ 2
      → Advances env s d r
      → Ends (suc n) s k d (after_step env again s k r)
  unfolding after_step
  after_step-Ends n again ih s k d (m, goes s') going few (same, h, less) =
      if_rule (Ends (suc n) s k d) (is_done s') (λ _. (same, h, λ x. ground (arith, x)))
        (λ more.
          (let (c, i, rounds) = ih s' 0 m more (omega arith) h in
            (c ∙ same, i, λ x. omega (arith, rounds x))))
  after_step-Ends n again ih s k d (m, fails e) going few (same, h, less) =
      if_rule (Ends (suc n) s k d) (is_parse_error e)
        (λ _.
          if_rule (Ends (suc n) s k d) (ltb k 2)
            (λ nudge.
              (let (c, i, rounds) = ih s (suc k) _ going (omega (tests, nudge)) h in
                (c ∙ same, i, λ x. omega (tests, nudge, rounds x))))
            (λ _. narrative_fallback-Ends (suc n) s k d m e same h))
        (λ _. (same, h, λ x. ground (arith, x)))

  pub compact_guard_ls : (limit : ℤ) (m : Machine env) → (compact_guard env limit m).ls ≡ m.ls
  unfolding compact_guard
  compact_guard_ls limit m =
      if_rule (λ (m' : Machine env). m'.ls ≡ m.ls) (int_leb (pos (token_count m.convo)) limit)
        (λ _. refl) (λ _. refl)

  drive-Ends :
      (n : ℕ) (limit : ℤ) (task : String) (s : LoopState) (k : ℕ) (m : Machine env)
      → is_done s ≡ false
      → k ≤ 2
      → IsCapped m.ls
      → Ends n s k m.ls (drive env n limit task s k m)
  unfolding drive
  drive-Ends zero limit task s k m going few h = (refl, h, λ _. omega arith)
  drive-Ends (suc n) limit task s k m going few h =
      let m' = compact_guard env limit m in
      let same = compact_guard_ls limit m in
      after_step-Ends n (drive env n limit task) (λ s' k' m''. drive-Ends n limit task s' k' m'') s
        k m.ls (step env task s m') going few
        (subst (λ d. Advances env s d (step env task s m')) same
          (step-Advances env task s m' going (subst IsCapped (sym same) h)))

  new_loop_state-IsCapped : (b r q : ℤ) → IsCapped (new_loop_state b r q)
  unfolding new_loop_state
  new_loop_state-IsCapped b r q = (omega arith, omega arith, omega arith)

  -- A run of the thinking loop makes at most as many tool calls as the budget and the cap on
  -- reflections together allow.
  pub tool_calls_bounded :
      (cfg : Config) (world : env.World) (task : String)
      → (execute_with_thinking env cfg world task).tool_calls_made
        ≤ positive_or cfg.thinking_tool_budget 25 + positive_or cfg.thinking_max_reflections 3
  unfolding execute_with_thinking compose start new_loop_state
  tool_calls_bounded cfg world task =
      let m = start env cfg world task in
      let (same, (r, q, t), _) =
        drive-Ends (max_thought_transitions cfg) cfg.max_context_tokens task state_assess 0 m refl
          (omega arith) (new_loop_state-IsCapped _ _ _) in
      let budget = ap (λ c. c.tool_budget) same in
      let reflections = ap (λ c. c.max_reflections) same in omega (arith, r, t, budget, reflections)

  -- Whatever the model and the tools answer, the driver's loop ends by itself, in StateDone or with an
  -- error, where its ceiling on transitions is greater than 3 (B + 4 R + 5) + 2, for a budget of B
  -- tool calls and at most R reflections.
  pub drive_never_runs_out :
      (cfg : Config) (world : env.World) (task : String) (transitions : ℕ)
      → 3
            * (5
                + (4 * positive_or cfg.thinking_max_reflections 3
                    + positive_or cfg.thinking_tool_budget 25))
          + 2
        < transitions
      → (drive env transitions cfg.max_context_tokens task state_assess 0
          (start env cfg world task)).1
        ≢ ran_out
  unfolding start new_loop_state
  drive_never_runs_out cfg world task transitions enough x =
      let m = start env cfg world task in
      let (_, _, rounds) =
        drive-Ends transitions cfg.max_context_tokens task state_assess 0 m refl (omega arith)
          (new_loop_state-IsCapped _ _ _) in
      absurd (omega (arith, rounds x))

-- ===== src/Agent/Thinking/Caps.antt =====
-- The counters of the thinking loop (internal/agent/thinking.go): each step of the state machine keeps
-- them within the caps and lowers a potential, which bounds the number of steps.
use kyoci_agent.Prelude.{
  ℕ, ◌+◌, ◌-◌, ◌*◌, ◌≤◌, ◌<◌, ◌≡◌, refl, String, Option, none, some, [], ◌∷◌, ◌++◌, ◌⊎◌, inl, inr,
  arith, if_rule,
}
use kyoci_agent.Agent.Context.{Context, ToolCall}
use kyoci_agent.Agent.ThinkingData.{
  ActionType, tool_call, final_answer, need_info_from_user, replan, other_action, Thought,
  LoopState, state_assess, state_plan, state_execute, state_verify, state_reflect, state_done,
  LoopData, record_tool_call, record_failure,
}
use kyoci_agent.Agent.ThinkingEnv.{
  Env, Machine, Next, goes, fails, Answer, answered, failed, parsed, replied, run_thought_step,
}
use kyoci_agent.Agent.ThinkingSteps.{tool_replied, run_tool_call, with_call, on_action}

abbrev pub IsCapped : LoopData → Type 0
IsCapped d =
    (d.reflections_used ≤ d.caps.max_reflections)
    × (d.replans_used ≤ d.caps.max_replans)
    × (d.tool_calls_used ≤ d.caps.tool_budget + d.reflections_used)

abbrev pub rank : LoopState → ℕ
rank state_assess = 5
rank state_plan = 4
rank state_execute = 3
rank state_verify = 2
rank state_reflect = 1
rank state_done = 0

-- A reflection costs 4, which is more than the way from Reflect back to Plan.
abbrev pub potential : LoopState → LoopData → ℕ
potential s d =
    rank s
    + (4 * (d.caps.max_reflections - d.reflections_used) + (d.caps.tool_budget - d.tool_calls_used))

module _ (env : Env) where
  abbrev pub Advances : LoopState → LoopData → Machine env × Next → Type 0
  Advances s d (m, goes s') =
      (m.ls.caps ≡ d.caps) × IsCapped m.ls × (potential s' m.ls < potential s d)
  Advances s d (m, fails e) =
      (m.ls.caps ≡ d.caps) × IsCapped m.ls × (potential s m.ls ≤ potential s d)

  -- What the call of the model may change: the world, the conversation, and the thoughts.
  pub thought_rule :
      (P : Machine env × Answer → Type 0) (m : Machine env) (prompt label : String)
      → ((world : env.World) (convo : Context) (e : String)
          → P (record m { world = world; convo = convo }, failed e))
      → ((world : env.World) (convo : Context) (th : Thought)
          → P (
            record m {
              world = world;
              convo = convo;
              ls = record m.ls { thoughts = m.ls.thoughts ++ th ∷ [] };
            },
            answered th,
          ))
      → P (run_thought_step env m prompt label)
  unfolding run_thought_step
  thought_rule P m prompt label on_failure on_thought = replied_rule _ _ (env.think _ _).1
    where
      parsed_rule :
          (world : env.World) (convo : Context) (r : String ⊎ Thought)
          → P (parsed env (record m { world = world; convo = convo }) label r)
      parsed_rule world convo (inl e) = on_failure world convo _
      parsed_rule world convo (inr th) = on_thought world convo th

      replied_rule :
          (world : env.World) (convo : Context) (reply : String ⊎ String)
          → P (replied env (record m { world = world; convo = convo }) label reply)
      replied_rule world convo (inl e) = on_failure world convo _
      replied_rule world convo (inr content) = parsed_rule world convo _

  -- The potential after a tool call that goes on with Execute.
  abbrev pub next_potential : LoopData → ℕ
  next_potential d =
      3
      + (4 * (d.caps.max_reflections - d.reflections_used)
          + (d.caps.tool_budget - (d.tool_calls_used + 1)))

  -- A tool call counts against the budget, whether or not the tool succeeds.
  run_tool_call-Advances :
      (s : LoopState) (d : LoopData) (m : Machine env) (tc : ToolCall)
      → m.ls.caps ≡ d.caps
      → IsCapped m.ls
      → m.ls.tool_calls_used < m.ls.caps.tool_budget + m.ls.reflections_used
      → next_potential m.ls < potential s d
      → Advances s d (run_tool_call env m tc)
  unfolding run_tool_call record_tool_call record_failure
  run_tool_call-Advances s d m tc same h room less = replied_too (env.act m.world tc).1
    where
      replied_too :
          (reply : String ⊎ String)
          → Advances s d (
              tool_replied env
                (record m {
                  world = (env.act m.world tc).0;
                  ls =
                      record_tool_call
                        (env.hash_tool_call tc.name tc.arguments)
                        (env.is_file_search_call tc.name tc.arguments)
                        m.ls;
                })
                tc
                reply)
      replied_too (inl e) = (same, (h.0, h.1, omega arith), omega arith)
      replied_too (inr result) = (same, (h.0, h.1, omega arith), omega arith)

  pub with_call-Advances :
      (s : LoopState) (d : LoopData) (missing : Machine env × Next) (m : Machine env)
      (o : Option ToolCall)
      → Advances s d missing
      → m.ls.caps ≡ d.caps
      → IsCapped m.ls
      → m.ls.tool_calls_used < m.ls.caps.tool_budget + m.ls.reflections_used
      → next_potential m.ls < potential s d
      → Advances s d (with_call env missing m o)
  unfolding with_call
  with_call-Advances s d missing m none at_missing same h room less = at_missing
  with_call-Advances s d missing m (some tc) at_missing same h room less =
      run_tool_call-Advances s d m tc same h room less

  pub on_action-Advances :
      (a : ActionType) (th : Thought) (m : Machine env)
      → IsCapped m.ls
      → m.ls.tool_calls_used < m.ls.caps.tool_budget
      → Advances state_execute m.ls (on_action env a th m)
  unfolding on_action record_failure
  on_action-Advances final_answer th m h room = (refl, h, omega arith)
  on_action-Advances replan th m h room =
      if_rule (λ m'. Advances state_execute m.ls (m', goes state_reflect)) _
        (λ _. (refl, h, omega arith)) (λ _. (refl, h, omega arith))
  on_action-Advances need_info_from_user th m h room = (refl, h, omega arith)
  on_action-Advances tool_call th m h room =
      with_call-Advances state_execute m.ls _ m th.next_action.call (refl, h, omega arith) refl h
        (omega arith) (omega arith)
  on_action-Advances (other_action s) th m h room = (refl, h, omega arith)

-- ===== src/Agent/Dispatcher/Missing.antt =====
-- A step with a dependency that is no step of the plan (internal/agent/orchestrated.go,
-- executeWorkers), as it stands there when the cap of planTask has cut the dependency.
use mathlib.Core.List.{Memᴰ}
use kyoci_agent.Prelude.{
  suc, String, ◌≡◌, refl, subst, ◌∙◌, inl, inr, Bool, true, false, some, List, [], ◌∷◌, arith, any,
  any-intro, Bool-cases, length,
}
use kyoci_agent.Prelude.Int.{ℤ, eq_ℤ, int_eq, int_eq_iff}
use kyoci_agent.Prelude.Map.{Map, lookup, lookup-insert}
use kyoci_agent.Agent.Dispatcher.{
  OrchStep, Agent, Progress, Outcome, is_done, deps_done, all_deps_done, step_output, run_step,
  execute_workers,
}
use kyoci_agent.Agent.Dispatcher.Rounds.{IsSchedule, is_done-insert}
use kyoci_agent.Agent.Dispatcher.Loop.{round_rule, dispatch_loop_rule}
use kyoci_agent.Agent.Dispatcher.Counting.{in_plan, HasDistinctIds}
use kyoci_agent.Agent.Dispatcher.Solution.{id_injective}
use kyoci_agent.Agent.Dispatcher.Completion.{NotRun, start-OnlyTrue}

-- Not done, so not ready.
deps_done-missing :
    (d : ℤ) (ds : List ℤ) (done : Map ℤ Bool)
    → any (λ e. int_eq e d) ds ≡ true
    → is_done d done ≡ false
    → deps_done ds done ≡ false
unfolding deps_done
deps_done-missing d [] done h n = cc
deps_done-missing d (e ∷ ds) done h n = elim (Bool-cases (int_eq e d)) [
  | inl b ↦ rw ((int_eq_iff e d).0 b, n) refl
  | inr b ↦ ground (arith, deps_done-missing d ds done (rw b at h) n)
]

module _ (a : Agent) (task : String) (steps : List OrchStep)
    (schedule : List OrchStep → List OrchStep) (fair : IsSchedule schedule)
    (distinct : HasDistinctIds steps) {s : OrchStep} (member : Memᴰ s steps) (d : ℤ)
    (wanted : any (λ e. int_eq e d) s.depends_on ≡ true) (missing : in_plan d steps ≡ false) where
  abbrev IsWaiting : Progress → Type 0
  IsWaiting p = (is_done d p.done ≡ false) × NotRun p.results s

  other_than_missing : (t : OrchStep) → Memᴰ t steps → int_eq t.id d ≡ false
  other_than_missing t m = elim (Bool-cases (int_eq t.id d)) [
    | inl b ↦ ground (arith, any-intro (λ u. int_eq u.id d) m b, missing)
    | inr b ↦ b
  ]

  never_ready : (p : Progress) → IsWaiting p → all_deps_done s p.done ≡ false
  unfolding all_deps_done
  never_ready p h = deps_done-missing d s.depends_on p.done wanted h.0

  other_than_waiting :
      (p : Progress) (t : OrchStep)
      → Memᴰ t steps
      → all_deps_done t p.done ≡ true
      → IsWaiting p
      → int_eq t.id s.id ≡ false
  other_than_waiting p t m ready h = elim (Bool-cases (int_eq t.id s.id)) [
    | inl b ↦
        (let same : t ≡ s = id_injective steps distinct m member ((int_eq_iff t.id s.id).0 b) in
          let r : all_deps_done s p.done ≡ true =
            subst (λ (u : OrchStep). all_deps_done u p.done ≡ true) same ready in
          ground (arith, r, never_ready p h))
    | inr b ↦ b
  ]

  run_step-IsWaiting :
      (p : Progress) (t : OrchStep)
      → Memᴰ t steps
      → all_deps_done t p.done ≡ true
      → IsWaiting p
      → IsWaiting (run_step a task t p)
  unfolding run_step
  run_step-IsWaiting p t m ready h = (
    is_done-insert t.id d p.done ∙ rw (other_than_missing t m) h.0,
    lookup-insert t.id s.id (step_output a task t p.results) p.results
        ∙ rw (other_than_waiting p t m ready h) h.1,
  )

  -- For a plan with distinct ids, a step that depends on an id which no step of the plan has is never
  -- run: executeWorkers returns, and the step has no result, whatever the other steps do.
  pub execute_workers-NotRun :
      (o : Outcome) × (execute_workers a task steps schedule ≡ some o) × NotRun o.results s
  unfolding execute_workers lookup
  execute_workers-NotRun =
      dispatch_loop_rule a task steps fair {Inv = IsWaiting} {Post = λ o. NotRun o.results s}
        (λ p h m. h.1) (λ p h m e. h.1)
        (λ p t ts n h e c.
          (round_rule a task steps fair {Inv = IsWaiting} run_step-IsWaiting p t ts e h).1)
        (λ p t ts h e. round_rule a task steps fair {Inv = IsWaiting} run_step-IsWaiting p t ts e h)
        (suc (length steps)) 0 (record { results = []; done = [] }) (omega arith) (omega arith)
        start-OnlyTrue (refl, refl)

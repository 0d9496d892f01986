-- ===== src/Agent/Dispatcher/Loop.antt =====
-- The rule for the loop of executeWorkers (internal/agent/orchestrated.go): what the goroutines
-- keep, the rounds keep, and what holds at an exit holds of the outcome.
use mathlib.Core.List.{Memᴰ}
use kyoci_agent.Prelude.{
  ℕ, zero, suc, ◌+◌, ◌≤◌, ◌<◌, String, ◌≡◌, refl, subst, inl, inr, Bool, true, not, none, some,
  List, [], ◌∷◌, arith, length, All, All-mono, All-perm, all-perm, leb, leb→le, List-cases,
  Bool-cases, Option-cases,
}
use kyoci_agent.Prelude.Int.{ℤ, eq_ℤ}
use kyoci_agent.Prelude.Map.{Map}
use kyoci_agent.Agent.Dispatcher.{
  OrchStep, Agent, Progress, Outcome, stuck, is_done, all_deps_done, run_step, run_steps,
  next_batch, count_stalls, dispatch_loop,
}
use kyoci_agent.Agent.Dispatcher.Rounds.{
  OnlyTrue, IsSchedule, not_nil-perm, next_batch-not_done, run_steps-grows, run_steps-OnlyTrue,
  all_deps_done-run_step,
}

-- A step of the plan whose dependencies are done.
abbrev pub IsReady : List OrchStep → Progress → OrchStep → Type 0
IsReady steps p t = Memᴰ t steps × (all_deps_done t p.done ≡ true)

pub next_batch-ready :
    (steps : List OrchStep) (done : Map ℤ Bool)
    → All (λ t. Memᴰ t steps × (all_deps_done t done ≡ true)) (next_batch steps done)
unfolding next_batch
next_batch-ready [] done = tt
next_batch-ready (s ∷ ss) done = elim (Bool-cases (is_done s.id done)) [
  | inl e ↦ rw e (weaker (next_batch-ready ss done))
  | inr e ↦ elim (Bool-cases (all_deps_done s done)) [
    | inl d ↦ rw (e, d) ((Memᴰ.head refl, d), weaker (next_batch-ready ss done))
    | inr d ↦ rw (e, d) (weaker (next_batch-ready ss done))
  ]
]
  where
    weaker :
        All (λ t. Memᴰ t ss × (all_deps_done t done ≡ true)) (next_batch ss done)
        → All (λ t. Memᴰ t (s ∷ ss) × (all_deps_done t done ≡ true)) (next_batch ss done)
    weaker = All-mono _ _ (next_batch ss done) (λ t q. (Memᴰ.tail q.0, q.1))

module _ (a : Agent) (task : String) (steps : List OrchStep)
    {schedule : List OrchStep → List OrchStep} (fair : IsSchedule schedule) where
  -- One round with work to do makes `done` longer.
  pub round-grows :
      (s : OrchStep) (ss : List OrchStep) (p : Progress)
      → OnlyTrue p.done
      → next_batch steps p.done ≡ s ∷ ss
      → length p.done < length (run_steps a task (schedule (s ∷ ss)) p).done
  round-grows s ss p h e =
      let (y, rest, q) = not_nil-perm s ss (schedule (s ∷ ss)) (fair.perm (s ∷ ss)) in
      let fresh = all-perm (λ t. not (is_done t.id p.done)) (fair.perm (s ∷ ss)) in
      let undone = next_batch-not_done steps p.done in
      rw q (run_steps-grows a task y rest p h (ground (arith, q, e, fresh, undone)))

  IsReady-run_step :
      (t u : OrchStep) (p : Progress) → IsReady steps p u → IsReady steps (run_step a task t p) u
  IsReady-run_step t u p h = (h.0, all_deps_done-run_step a task t u p h.1)

  -- What every goroutine keeps that runs a step of the plan whose dependencies are done, a round
  -- keeps.
  module _ {Inv : Progress → Type 0}
      (keep : (p : Progress) (t : OrchStep)
        → Memᴰ t steps
        → all_deps_done t p.done ≡ true
        → Inv p
        → Inv (run_step a task t p)) where
    steps_rule :
        (ts : List OrchStep) (p : Progress)
        → All (IsReady steps p) ts
        → Inv p
        → Inv (run_steps a task ts p)
    unfolding run_steps
    steps_rule [] p r h = h
    steps_rule (t ∷ ts) p r h =
        steps_rule ts (run_step a task t p)
          (All-mono (IsReady steps p) (IsReady steps (run_step a task t p)) ts
            (λ u. IsReady-run_step t u p) r.1)
          (keep p t r.0.0 r.0.1 h)

    pub round_rule :
        (p : Progress) (s : OrchStep) (ss : List OrchStep)
        → next_batch steps p.done ≡ s ∷ ss
        → Inv p
        → Inv (run_steps a task (schedule (s ∷ ss)) p)
    round_rule p s ss e h =
        steps_rule (schedule (s ∷ ss)) p
          (All-perm (IsReady steps p) (fair.perm (s ∷ ss))
            (subst (All (IsReady steps p)) e (next_batch-ready steps p.done)))
          h

  -- The rule for the loop: an invariant of the rounds, and what it gives at each of the three exits.
  module _ {Inv : Progress → Type 0} {Post : Outcome → Type 0}
      (ended : (p : Progress)
        → Inv p
        → length steps ≤ length p.done
        → Post (record { results = p.results; error = none }))
      (blocked : (p : Progress)
        → Inv p
        → length p.done < length steps
        → next_batch steps p.done ≡ []
        → Post (record { results = p.results; error = some stuck }))
      (tripped : (p : Progress) (s : OrchStep) (ss : List OrchStep) (stalls : ℕ)
        → Inv p
        → next_batch steps p.done ≡ s ∷ ss
        → count_stalls (s ∷ ss) (run_steps a task (schedule (s ∷ ss)) p).results stalls ≡ none
        → Post
            (record { results = (run_steps a task (schedule (s ∷ ss)) p).results; error = none }))
      (round : (p : Progress) (s : OrchStep) (ss : List OrchStep)
        → Inv p
        → next_batch steps p.done ≡ s ∷ ss
        → Inv (run_steps a task (schedule (s ∷ ss)) p)) where
    pub dispatch_loop_rule :
        (fuel stalls : ℕ) (p : Progress)
        → 0 < fuel
        → length steps < fuel + length p.done
        → OnlyTrue p.done
        → Inv p
        → (o : Outcome) × (dispatch_loop a task steps schedule fuel stalls p ≡ some o) × Post o
    unfolding dispatch_loop
    dispatch_loop_rule zero stalls p f m t h = absurd (omega arith)
    dispatch_loop_rule (suc fuel) stalls p f m t h =
        elim (Bool-cases (leb (length steps) (length p.done))) [
          | inl e ↦ (
            record { results = p.results; error = none },
            rw (e, dispatch_loop),
            ended p h (omega (arith, leb→le (length steps) (length p.done) e)),
          )
          | inr e ↦ elim (List-cases (next_batch steps p.done)) [
            | inl q ↦ (
              record { results = p.results; error = some stuck },
              rw (e, q, dispatch_loop),
              blocked p h (ground arith) q,
            )
            | inr (s, ss, q) ↦
                (let p' : Progress = run_steps a task (schedule (s ∷ ss)) p in
                  elim (Option-cases (count_stalls (s ∷ ss) p'.results stalls)) [
                    | inl c ↦ (
                      record { results = p'.results; error = none },
                      rw (e, q, c, dispatch_loop),
                      tripped p s ss stalls h q c,
                    )
                    | inr (stalls', c) ↦
                        rw (e, q, c, dispatch_loop)
                          (dispatch_loop_rule fuel stalls' p' (ground arith)
                            (ground (arith, round-grows s ss p t q))
                            (run_steps-OnlyTrue a task (schedule (s ∷ ss)) p t) (round p s ss h q))
                  ])
          ]
        ]

-- ===== src/Agent/Dispatcher/Determinism.antt =====
-- The results of executeWorkers do not depend on the order in which the goroutines of a batch run
-- (internal/agent/orchestrated.go).
use kyoci_agent.Prelude.{
  ℕ, zero, suc, ◌<◌, String, ◌≡◌, refl, sym, subst, ap, ◌∙◌, true, none, some, List, [], ◌∷◌, arith,
  All, All-intro, All-elim, any-elim, any-intro,
}
use kyoci_agent.Prelude.Int.{ℤ, eq_ℤ, int_eq, int_eq_iff}
use kyoci_agent.Prelude.Map.{Map, lookup}
use kyoci_agent.Agent.Dispatcher.{
  OrchStep, Agent, Outcome, add_prior, prior_of, snapshot_prior, step_output, execute_workers,
}
use kyoci_agent.Agent.Dispatcher.Rounds.{IsSchedule}
use kyoci_agent.Agent.Dispatcher.Counting.{in_plan, HasDistinctIds, IsRanked}
use kyoci_agent.Agent.Dispatcher.Completion.{IsAnswered, NeverStalls, execute_workers_complete}

abbrev pub SameAt : Map ℤ String → Map ℤ String → ℤ → Type 0
SameAt r r' d = lookup d r ≡ lookup d r'

prior_of_same :
    (ds : List ℤ) (r r' prior : Map ℤ String)
    → All (SameAt r r') ds
    → prior_of ds r prior ≡ prior_of ds r' prior
unfolding prior_of
prior_of_same [] r r' prior h = refl
prior_of_same (d ∷ ds) r r' prior h =
    rw h.0 (prior_of_same ds r r' (add_prior (lookup d r') d prior) h.1)

step_output_same :
    (a : Agent) (task : String) (s : OrchStep) (r r' : Map ℤ String)
    → All (SameAt r r') s.depends_on
    → step_output a task s r ≡ step_output a task s r'
unfolding step_output snapshot_prior
step_output_same a task s r r' h = ground (arith, prior_of_same s.depends_on r r' [] h)

module _ (a : Agent) (task : String) (steps : List OrchStep) (rank : ℤ → ℕ)
    (ranked : IsRanked rank steps) where
  answers_below :
      (n : ℕ) (r r' : Map ℤ String) (k : ℤ)
      → All (IsAnswered a task r) steps
      → All (IsAnswered a task r') steps
      → in_plan k steps ≡ true
      → rank k < n
      → SameAt r r' k
  answers_below zero r r' k h h' i b = absurd (omega arith)
  answers_below (suc n) r r' k h h' i b =
      let (s, m, e) = any-elim (λ t. int_eq t.id k) steps i in
      let same : s.id ≡ k = (int_eq_iff s.id k).0 e in
      let below = All-intro (SameAt r r') s.depends_on λ d md.
        let q = All-elim _ md (All-elim _ m ranked) in
        answers_below n r r' d h h' q.0 (ground (arith, q.1, ap rank same)) in
      subst (SameAt r r') same
        (All-elim _ m h ∙ ap some (step_output_same a task s r r' below) ∙ sym (All-elim _ m h'))

-- Take a plan with distinct ids whose dependencies name steps of the plan and have no cycle, and an
-- agent no output of which counts as a stall. Whatever the orders in which the goroutines of the
-- batches take the lock, two runs of executeWorkers return no error and, for every step, the same
-- result.
pub execute_workers-deterministic :
    (a : Agent) (task : String) (steps : List OrchStep)
    (schedule schedule' : List OrchStep → List OrchStep) (rank : ℤ → ℕ) (o o' : Outcome)
    → HasDistinctIds steps
    → IsRanked rank steps
    → IsSchedule schedule
    → IsSchedule schedule'
    → NeverStalls a task
    → execute_workers a task steps schedule ≡ some o
    → execute_workers a task steps schedule' ≡ some o'
    → (o.error ≡ none) × (o'.error ≡ none) × All (λ s. SameAt o.results o'.results s.id) steps
execute_workers-deterministic a task steps schedule schedule' rank o o' d r f f' c e e' =
    let (p, q, n, h) = execute_workers_complete a task steps schedule rank d r f c in
    let (p', q', n', h') = execute_workers_complete a task steps schedule' rank d r f' c in
    let same : p ≡ o = cc (q, e) in
    let same' : p' ≡ o' = cc (q', e') in
    (
      subst (λ (x : Outcome). x.error ≡ none) same n,
      subst (λ (x : Outcome). x.error ≡ none) same' n',
      All-intro _ steps λ s m.
          answers_below a task steps rank r (suc (rank s.id)) o.results o'.results s.id
            (subst (λ (x : Outcome). All (IsAnswered a task x.results) steps) same h)
            (subst (λ (x : Outcome). All (IsAnswered a task x.results) steps) same' h')
            (any-intro (λ t. int_eq t.id s.id) m ((int_eq_iff s.id s.id).1 refl)) (omega arith),
    )

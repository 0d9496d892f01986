-- ===== src/Agent/Dispatcher/Solution.antt =====
-- What the results of executeWorkers are (internal/agent/orchestrated.go): the result of every step
-- that ran is its output on the results of its dependencies, in whatever order the goroutines of a
-- batch took the lock.
use mathlib.Core.List.{Memᴰ}
use kyoci_agent.Prelude.{
  String, ◌≡◌, refl, sym, subst, ap, ◌∙◌, ◌⊎◌, inl, inr, Bool, true, some, List, [], ◌∷◌, arith,
  length, any-intro, Bool-cases,
}
use kyoci_agent.Prelude.Int.{ℤ, eq_ℤ, int_eq, int_eq_iff}
use kyoci_agent.Prelude.Map.{Map, lookup, has, lookup-insert, lookup-insert_self, length-insert}
use kyoci_agent.Agent.Dispatcher.{
  OrchStep, Agent, Progress, is_done, deps_done, all_deps_done, add_prior, prior_of, snapshot_prior,
  step_output, run_step,
}
use kyoci_agent.Agent.Dispatcher.Rounds.{
  OnlyTrue, is_done-insert, insert-OnlyTrue, all_deps_done-run_step,
}
use kyoci_agent.Agent.Dispatcher.Counting.{
  HasDistinctIds, count_done, count_done-insert, count_done-insert_done,
}

-- Two maps of results agree on what is done.
record Agree (done : Map ℤ Bool) (r r' : Map ℤ String) : Type 0 where
  at : (j : ℤ) → is_done j done ≡ true → lookup j r' ≡ lookup j r

prior_of-Agree :
    (ds : List ℤ) {done : Map ℤ Bool} {r r' : Map ℤ String} (prior : Map ℤ String)
    → Agree done r r'
    → deps_done ds done ≡ true
    → prior_of ds r' prior ≡ prior_of ds r prior
unfolding prior_of deps_done
prior_of-Agree [] prior g h = refl
prior_of-Agree (d ∷ ds) {done} {r} {r'} prior g h =
    let first : is_done d done ≡ true = ground arith in
    rw (g.at d first) (prior_of-Agree ds (add_prior (lookup d r) d prior) g (ground arith))

step_output-Agree :
    (a : Agent) (task : String) (s : OrchStep) {done : Map ℤ Bool} {r r' : Map ℤ String}
    → Agree done r r'
    → all_deps_done s done ≡ true
    → step_output a task s r' ≡ step_output a task s r
unfolding step_output snapshot_prior all_deps_done
step_output-Agree a task s g h = ground (arith, prior_of-Agree s.depends_on [] g h)

pub id_injective :
    (steps : List OrchStep) {s t : OrchStep}
    → HasDistinctIds steps
    → Memᴰ s steps
    → Memᴰ t steps
    → s.id ≡ t.id
    → s ≡ t
id_injective [] d m n e = elim m [ ]
id_injective (x ∷ xs) d (Memᴰ.head p) (Memᴰ.head q) e = p ∙ sym q
id_injective (x ∷ xs) {s} {t} d (Memᴰ.head p) (Memᴰ.tail n) e =
    let same : t.id ≡ x.id = sym e ∙ ap (λ (y : OrchStep). y.id) p in
    cc (d.0, any-intro (λ y. int_eq y.id x.id) n ((int_eq_iff t.id x.id).1 same))
id_injective (x ∷ xs) {s} {t} d (Memᴰ.tail m) (Memᴰ.head q) e =
    let same : s.id ≡ x.id = e ∙ ap (λ (y : OrchStep). y.id) q in
    cc (d.0, any-intro (λ y. int_eq y.id x.id) m ((int_eq_iff s.id x.id).1 same))
id_injective (x ∷ xs) d (Memᴰ.tail m) (Memᴰ.tail n) e = id_injective xs d.1 m n e

module _ (a : Agent) (task : String) (steps : List OrchStep) (distinct : HasDistinctIds steps) where
  -- What holds of the two maps whenever no goroutine holds the lock.
  pub record IsSolved (p : Progress) : Type 0 where
    pub only_true : OnlyTrue p.done
    pub counted : length p.done ≡ count_done steps p.done
    pub keys : (k : ℤ) → has k p.results ≡ is_done k p.done
    pub closed :
        (s : OrchStep) → Memᴰ s steps → is_done s.id p.done ≡ true → all_deps_done s p.done ≡ true
    pub solved :
        (s : OrchStep)
        → Memᴰ s steps
        → is_done s.id p.done ≡ true
        → lookup s.id p.results ≡ some (step_output a task s p.results)

  run_step-Agree :
      (p : Progress) (t : OrchStep)
      → Memᴰ t steps
      → IsSolved p
      → Agree p.done p.results (run_step a task t p).results
  unfolding run_step
  run_step-Agree p t m h = record {
    at = λ j d. elim (Bool-cases (int_eq t.id j)) [
      | inl e ↦
          (let same : t.id ≡ j = (int_eq_iff t.id j).0 e in
            let old = h.solved t m (subst (λ k. is_done k p.done ≡ true) (sym same) d) in
            rw (lookup-insert t.id j (step_output a task t p.results) p.results, e)
              (sym old ∙ ap (λ k. lookup k p.results) same))
      | inr e ↦ rw (lookup-insert t.id j (step_output a task t p.results) p.results, e)
    ];
  }

  run_step-counted :
      (p : Progress) (t : OrchStep)
      → Memᴰ t steps
      → IsSolved p
      → length (run_step a task t p).done ≡ count_done steps (run_step a task t p).done
  unfolding run_step
  run_step-counted p t m h = elim (Bool-cases (is_done t.id p.done)) [
    | inl e ↦ ground (
      arith,
      h.only_true.at t.id,
      h.counted,
      length-insert t.id true p.done,
      count_done-insert_done steps t.id p.done e,
    )
    | inr e ↦ ground (
      arith,
      h.only_true.at t.id,
      h.counted,
      length-insert t.id true p.done,
      count_done-insert steps t.id p.done distinct
          (any-intro (λ x. int_eq x.id t.id) m ((int_eq_iff t.id t.id).1 refl)) e,
    )
  ]

  run_step-keys :
      (p : Progress) (t : OrchStep) (k : ℤ)
      → IsSolved p
      → has k (run_step a task t p).results ≡ is_done k (run_step a task t p).done
  unfolding run_step
  run_step-keys p t k h = ground (
    arith,
    h.keys k,
    lookup-insert t.id k (step_output a task t p.results) p.results,
    lookup-insert t.id k true p.done,
  )

  -- A step that is done after `t` ran was done before, or is `t`.
  done_before_or_same :
      (p : Progress) {s t : OrchStep}
      → Memᴰ s steps
      → Memᴰ t steps
      → is_done s.id (run_step a task t p).done ≡ true
      → (is_done s.id p.done ≡ true) ⊎ (s ≡ t)
  unfolding run_step
  done_before_or_same p {s} {t} ms mt d = elim (Bool-cases (int_eq t.id s.id)) [
    | inl e ↦ inr (id_injective steps distinct ms mt (sym ((int_eq_iff t.id s.id).0 e)))
    | inr e ↦ inl (ground (arith, is_done-insert t.id s.id p.done))
  ]

  -- A goroutine that runs a step of the plan whose dependencies are done keeps all this.
  pub run_step-IsSolved :
      (p : Progress) (t : OrchStep)
      → Memᴰ t steps
      → all_deps_done t p.done ≡ true
      → IsSolved p
      → IsSolved (run_step a task t p)
  unfolding run_step
  run_step-IsSolved p t m ready h = record {
    only_true = insert-OnlyTrue t.id p.done h.only_true;
    counted = run_step-counted p t m h;
    keys = λ k. run_step-keys p t k h;
    closed = λ s ms d. elim (done_before_or_same p ms m d) [
      | inl before ↦ all_deps_done-run_step a task t s p (h.closed s ms before)
      | inr same ↦
          all_deps_done-run_step a task t s p
            (subst (λ (x : OrchStep). all_deps_done x p.done ≡ true) (sym same) ready)
    ];
    solved = λ s ms d. elim (done_before_or_same p ms m d) [
      | inl before ↦
          (let agree = run_step-Agree p t m h in
            agree.at s.id before
            ∙ h.solved s ms before
            ∙ ap some (sym (step_output-Agree a task s agree (h.closed s ms before))))
      | inr same ↦
          (let agree = run_step-Agree p t m h in
            let own = lookup-insert_self t.id (step_output a task t p.results) p.results in
            subst
              (λ (x : OrchStep).
                lookup x.id (run_step a task t p).results
                ≡ some (step_output a task x (run_step a task t p).results))
              (sym same) (own ∙ ap some (sym (step_output-Agree a task t agree ready))))
    ];
  }

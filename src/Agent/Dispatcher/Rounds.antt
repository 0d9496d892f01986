-- ===== src/Agent/Dispatcher/Rounds.antt =====
-- The loop of executeWorkers (internal/agent/orchestrated.go) makes progress in every round, and so
-- ends.
use mathlib.Core.List.{Permᴰ}
use kyoci_agent.Prelude.{
  ◌≤◌, ◌<◌, String, ◌≡◌, refl, Bool, true, false, not, List, [], ◌∷◌, arith, length, all, all-perm,
  if◌then◌else◌,
}
use kyoci_agent.Prelude.Int.{ℤ, eq_ℤ, int_eq, int_eq_iff}
use kyoci_agent.Prelude.Map.{Map, insert, has, lookup-insert, length-insert}
use kyoci_agent.Agent.Dispatcher.{
  OrchStep, Agent, Progress, is_done, deps_done, all_deps_done, run_step, run_steps, next_batch,
}

-- `done` holds no `false`.
pub record OnlyTrue (done : Map ℤ Bool) : Type 0 where
  pub at : (k : ℤ) → has k done ≡ is_done k done

pub is_done-insert :
    (k j : ℤ) (done : Map ℤ Bool)
    → is_done j (insert k true done) ≡ (if int_eq k j then true else is_done j done)
is_done-insert k j done = ground (arith, lookup-insert k j true done)

pub insert-OnlyTrue : (k : ℤ) (done : Map ℤ Bool) → OnlyTrue done → OnlyTrue (insert k true done)
insert-OnlyTrue k done h = record { at = λ j. ground (arith, lookup-insert k j true done, h.at j) }

module _ (a : Agent) (task : String) where
  pub run_steps-OnlyTrue :
      (ss : List OrchStep) (p : Progress) → OnlyTrue p.done → OnlyTrue (run_steps a task ss p).done
  unfolding run_steps run_step
  run_steps-OnlyTrue [] p h = h
  run_steps-OnlyTrue (s ∷ ss) p h =
      run_steps-OnlyTrue ss (run_step a task s p) (insert-OnlyTrue s.id p.done h)

  pub run_steps-keeps_done :
      (ss : List OrchStep) (p : Progress) (k : ℤ)
      → is_done k p.done ≡ true
      → is_done k (run_steps a task ss p).done ≡ true
  unfolding run_steps run_step
  run_steps-keeps_done [] p k h = h
  run_steps-keeps_done (s ∷ ss) p k h =
      run_steps-keeps_done ss (run_step a task s p) k (ground (arith, is_done-insert s.id k p.done))

  run_step-done : (s : OrchStep) (p : Progress) → is_done s.id (run_step a task s p).done ≡ true
  unfolding run_step
  run_step-done s p = ground (arith, is_done-insert s.id s.id p.done, int_eq_iff s.id s.id)

  is_done-run_step :
      (t : OrchStep) (p : Progress) (k : ℤ)
      → is_done k p.done ≡ true
      → is_done k (run_step a task t p).done ≡ true
  unfolding run_step
  is_done-run_step t p k h = ground (arith, is_done-insert t.id k p.done)

  deps_done-run_step :
      (t : OrchStep) (p : Progress) (ds : List ℤ)
      → deps_done ds p.done ≡ true
      → deps_done ds (run_step a task t p).done ≡ true
  unfolding deps_done
  deps_done-run_step t p [] h = refl
  deps_done-run_step t p (d ∷ ds) h =
      ground (arith, is_done-run_step t p d, deps_done-run_step t p ds)

  pub all_deps_done-run_step :
      (t u : OrchStep) (p : Progress)
      → all_deps_done u p.done ≡ true
      → all_deps_done u (run_step a task t p).done ≡ true
  unfolding all_deps_done
  all_deps_done-run_step t u p h = deps_done-run_step t p u.depends_on h

  -- Every step that was run is done.
  pub run_steps-all_done :
      (ss : List OrchStep) (p : Progress)
      → all (λ s. is_done s.id (run_steps a task ss p).done) ss ≡ true
  unfolding run_steps
  run_steps-all_done [] p = refl
  run_steps-all_done (s ∷ ss) p = ground (
    arith,
    run_steps-keeps_done ss (run_step a task s p) s.id (run_step-done s p),
    run_steps-all_done ss (run_step a task s p),
  )

  length-run_steps :
      (ss : List OrchStep) (p : Progress) → length p.done ≤ length (run_steps a task ss p).done
  unfolding run_steps run_step
  length-run_steps [] p = omega arith
  length-run_steps (s ∷ ss) p =
      ground (arith, length-insert s.id true p.done, length-run_steps ss (run_step a task s p))

  pub run_steps-grows :
      (s : OrchStep) (ss : List OrchStep) (p : Progress)
      → OnlyTrue p.done
      → is_done s.id p.done ≡ false
      → length p.done < length (run_steps a task (s ∷ ss) p).done
  unfolding run_steps run_step
  run_steps-grows s ss p h e =
      ground (
        arith,
        h.at s.id,
        length-insert s.id true p.done,
        length-run_steps ss (run_step a task s p),
      )

pub next_batch-not_done :
    (steps : List OrchStep) (done : Map ℤ Bool)
    → all (λ s. not (is_done s.id done)) (next_batch steps done) ≡ true
unfolding next_batch
next_batch-not_done [] done = refl
next_batch-not_done (s ∷ ss) done = ground (arith, next_batch-not_done ss done)

-- `schedule` puts the goroutines of each batch in some order.
pub record IsSchedule (schedule : List OrchStep → List OrchStep) : Type 0 where
  pub perm : (batch : List OrchStep) → Permᴰ (schedule batch) batch

pub not_nil-perm :
    {A : Type 0} (x : A) (xs ys : List A)
    → Permᴰ ys (x ∷ xs)
    → (y : A) × (rest : List A) × (ys ≡ y ∷ rest)
not_nil-perm x xs [] r = cc (all-perm (λ _. false) r)
not_nil-perm x xs (y ∷ rest) r = (y, rest, refl)

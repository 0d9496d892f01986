-- ===== src/Agent/Sdlc/Cap.antt =====
-- The cap of planTask (internal/agent/orchestrated.go): what is left of an ordered plan when its end is
-- cut off, and what the added steps make of it.
use mathlib.Core.List.{append-nil, append_assoc}
use kyoci_agent.Prelude.{
  ℕ, zero, suc, String, ◌≡◌, refl, sym, subst, Bool, true, false, List, [], ◌∷◌, ◌++◌, arith, All,
  take,
}
use kyoci_agent.Prelude.Int.{ℤ, int_eq, int_eq_iff}
use kyoci_agent.Agent.Dispatcher.{OrchStep}
use kyoci_agent.Agent.Dispatcher.Counting.{in_plan, HasDistinctIds}
use kyoci_agent.Agent.Sdlc.{setup_id, finish_plan}
use kyoci_agent.Agent.Sdlc.Ids.{IsExecutable}
use kyoci_agent.Agent.Sdlc.Extension.{append-IsExecutable, ensure_sdlc_steps-IsExecutable}

-- Every dependency names a step that comes before, here or in `before`.
abbrev pub OrderedAfter : List OrchStep → List OrchStep → Type 0
OrderedAfter before [] = Unit
OrderedAfter before (s ∷ ss) =
    All (λ d. in_plan d before ≡ true) s.depends_on × OrderedAfter (before ++ s ∷ []) ss

in_plan-middle :
    (k : ℤ) (before ss : List OrchStep) (s : OrchStep)
    → in_plan k (before ++ s ∷ ss) ≡ false
    → int_eq s.id k ≡ false
in_plan-middle k [] ss s h = ground (arith, h)
in_plan-middle k (t ∷ before) ss s h = in_plan-middle k before ss s (ground (arith, h))

distinct_middle :
    (before ss : List OrchStep) (s : OrchStep)
    → HasDistinctIds (before ++ s ∷ ss)
    → in_plan s.id before ≡ false
distinct_middle [] ss s h = refl
distinct_middle (t ∷ before) ss s h = ground (
  arith,
  distinct_middle before ss s h.1,
  in_plan-middle t.id before ss s h.0,
  int_eq_iff t.id s.id,
  int_eq_iff s.id t.id,
)

in_plan-take :
    (k : ℤ) (n : ℕ) (steps : List OrchStep)
    → in_plan k steps ≡ false
    → in_plan k (take n steps) ≡ false
in_plan-take k zero steps h = refl
in_plan-take k (suc n) [] h = refl
in_plan-take k (suc n) (s ∷ ss) h = ground (arith, h, in_plan-take k n ss (ground (arith, h)))

-- The steps that are kept join an executable plan one after the other.
kept-IsExecutable :
    (n : ℕ) (before rest : List OrchStep)
    → IsExecutable before
    → HasDistinctIds (before ++ rest)
    → OrderedAfter before rest
    → IsExecutable (before ++ take n rest)
kept-IsExecutable zero before rest h distinct ordered =
    subst IsExecutable (sym (append-nil before)) h
kept-IsExecutable (suc n) before [] h distinct ordered =
    subst IsExecutable (sym (append-nil before)) h
kept-IsExecutable (suc n) before (s ∷ ss) h distinct ordered =
    subst IsExecutable (append_assoc before (s ∷ []) (take n ss)) (
      kept-IsExecutable n (before ++ s ∷ []) ss
        (append-IsExecutable before h s (distinct_middle before ss s distinct) ordered.0)
        (subst HasDistinctIds (sym (append_assoc before (s ∷ []) ss)) distinct) ordered.1)

-- A planner's answer with distinct ids other than -1, in which every step depends on steps before it
-- only, leads to a plan with distinct ids and dependencies on its own steps without a cycle, wherever
-- the cap cuts it off and whatever steps are added then.
pub finish_plan-IsExecutable :
    (is_file_creation_step : String → Bool) (task : String) (max_steps : ℕ) (steps : List OrchStep)
    → HasDistinctIds steps
    → OrderedAfter [] steps
    → in_plan setup_id steps ≡ false
    → IsExecutable (finish_plan is_file_creation_step task max_steps steps)
unfolding finish_plan
finish_plan-IsExecutable p task max_steps steps distinct ordered fresh =
    ensure_sdlc_steps-IsExecutable p task (take max_steps steps)
      (kept-IsExecutable max_steps [] steps (record { rank = λ _. 0; distinct = tt; ranked = tt })
        distinct ordered)
      (in_plan-take setup_id max_steps steps fresh)

-- ===== src/Agent/Sdlc/Structure.antt =====
-- What the added steps wait for (internal/agent/orchestrated.go, ensureSDLCSteps), and the run of the
-- extended plan.
use kyoci_agent.Prelude.{
  String, ◌≡◌, refl, ◌⊎◌, inl, inr, Bool, true, false, not, ◌&&◌, ◌||◌, none, some, ◌||◌, List, [],
  ◌∷◌, ◌++◌, arith, any, All, All-append, All-intro, All-map, Bool-cases, if◌then◌else◌,
}
use kyoci_agent.Prelude.Int.{ℤ, eq_ℤ, int_eq, int_eq_iff}
use kyoci_agent.Agent.Dispatcher.{OrchStep, Agent, Outcome, execute_workers}
use kyoci_agent.Agent.Dispatcher.Rounds.{IsSchedule}
use kyoci_agent.Agent.Dispatcher.Counting.{in_plan}
use kyoci_agent.Agent.Dispatcher.Completion.{IsAnswered, NeverStalls, execute_workers_complete}
use kyoci_agent.Agent.Sdlc.{
  append_unique_int, all_ids, setup_id, wait_for, add_first, add_last, any_step_matches,
  is_serve_task, inject_setup, inject_verify, inject_qa, inject_serve, ensure_sdlc_steps,
  setup_keywords, verify_keywords, qa_keywords, serve_keywords, verify_description, qa_description,
  serve_description,
}
use kyoci_agent.Agent.Sdlc.Ids.{IsExecutable}
use kyoci_agent.Agent.Sdlc.Extension.{ensure_sdlc_steps-IsExecutable}

-- A step depends on SETUP, or is SETUP.
abbrev pub WaitsForSetup : OrchStep → Type 0
WaitsForSetup s = (s.id ≡ setup_id) ⊎ (any (λ d. int_eq d setup_id) s.depends_on ≡ true)

any-snoc : (p : ℤ → Bool) (xs : List ℤ) (y : ℤ) → any p (xs ++ y ∷ []) ≡ any p xs || p y
any-snoc p [] y = ground arith
any-snoc p (x ∷ xs) y = ground (arith, any-snoc p xs y)

append_unique_int-any :
    (xs : List ℤ) (v : ℤ) → any (λ d. int_eq d v) (append_unique_int xs v) ≡ true
unfolding append_unique_int
append_unique_int-any xs v = ground (arith, any-snoc (λ d. int_eq d v) xs v, int_eq_iff v v)

append_unique_int_keeps :
    (xs : List ℤ) (v k : ℤ)
    → any (λ d. int_eq d k) xs ≡ true
    → any (λ d. int_eq d k) (append_unique_int xs v) ≡ true
unfolding append_unique_int
append_unique_int_keeps xs v k h = ground (arith, any-snoc (λ d. int_eq d k) xs v)

-- The collected ids are complete.
all_ids_keeps :
    (ids : List ℤ) (ss : List OrchStep) (k : ℤ)
    → any (λ d. int_eq d k) ids ≡ true
    → any (λ d. int_eq d k) (all_ids ids ss) ≡ true
unfolding all_ids
all_ids_keeps ids [] k h = h
all_ids_keeps ids (s ∷ ss) k h =
    all_ids_keeps (append_unique_int ids s.id) ss k (append_unique_int_keeps ids s.id k h)

all_ids_complete :
    (ids : List ℤ) (ss : List OrchStep) (k : ℤ)
    → in_plan k ss ≡ true
    → any (λ d. int_eq d k) (all_ids ids ss) ≡ true
unfolding all_ids
all_ids_complete ids [] k h = cc
all_ids_complete ids (s ∷ ss) k h = elim (Bool-cases (int_eq s.id k)) [
  | inl e ↦
      all_ids_keeps (append_unique_int ids s.id) ss k
        (rw ((int_eq_iff s.id k).0 e) (append_unique_int-any ids k))
  | inr e ↦ all_ids_complete (append_unique_int ids s.id) ss k (rw e at h)
]

-- A plan with a SETUP step that everything waits for.
record IsSetUp (steps : List OrchStep) : Type 0 where
  has_setup : in_plan setup_id steps ≡ true
  waits : All WaitsForSetup steps

add_first-IsSetUp : (steps : List OrchStep) → IsSetUp (add_first steps)
unfolding add_first wait_for
add_first-IsSetUp steps = record {
  has_setup = refl;
  waits = (
    inl refl,
    All-map WaitsForSetup (wait_for setup_id) steps (
        All-intro (λ s. WaitsForSetup (wait_for setup_id s)) steps
          (λ s m. inr (append_unique_int-any s.depends_on setup_id))),
  );
}

in_plan-snoc :
    (k : ℤ) (xs : List OrchStep) (s : OrchStep)
    → in_plan k xs ≡ true
    → in_plan k (xs ++ s ∷ []) ≡ true
in_plan-snoc k [] s h = cc
in_plan-snoc k (x ∷ xs) s h = ground (arith, in_plan-snoc k xs s)

add_last-IsSetUp :
    (text : String) (steps : List OrchStep) → IsSetUp steps → IsSetUp (add_last text steps)
unfolding add_last
add_last-IsSetUp text steps h = record {
  has_setup = in_plan-snoc setup_id steps _ h.has_setup;
  waits =
      All-append WaitsForSetup steps _ h.waits
        (inr (all_ids_complete [] steps setup_id h.has_setup), tt);
}

either-IsSetUp :
    (b : Bool) (xs ys : List OrchStep) → IsSetUp xs → IsSetUp ys → IsSetUp (if b then xs else ys)
either-IsSetUp true xs ys h g = h
either-IsSetUp false xs ys h g = g

inject-IsSetUp :
    (task : String) (steps : List OrchStep)
    → IsSetUp steps
    → IsSetUp (inject_serve task (inject_qa (inject_verify steps)))
unfolding inject_verify inject_qa inject_serve
inject-IsSetUp task steps h =
    let v =
      either-IsSetUp (any_step_matches steps verify_keywords) steps _ h
        (add_last-IsSetUp verify_description steps h) in
    let q =
      either-IsSetUp (any_step_matches (inject_verify steps) qa_keywords) (inject_verify steps) _ v
        (add_last-IsSetUp qa_description (inject_verify steps) v) in
    let r = inject_qa (inject_verify steps) in
    either-IsSetUp (is_serve_task task && not (any_step_matches r serve_keywords)) _ r
      (add_last-IsSetUp serve_description r q) q

-- When some step of the plan creates a file and no description has a word of setup, SETUP is put in
-- front and every other step of the extended plan depends on it, the added ones included.
pub ensure_sdlc_steps-WaitsForSetup :
    (is_file_creation_step : String → Bool) (task : String) (steps : List OrchStep)
    → any (λ s. is_file_creation_step s.description) steps ≡ true
    → any_step_matches steps setup_keywords ≡ false
    → All WaitsForSetup (ensure_sdlc_steps is_file_creation_step task steps)
unfolding ensure_sdlc_steps inject_setup
ensure_sdlc_steps-WaitsForSetup p task steps code bare =
    rw (code, bare) (inject-IsSetUp task (add_first steps) (add_first-IsSetUp steps)).waits

-- If the plan has distinct ids other than -1, its dependencies name its own steps and have no cycle,
-- no output counts as a stall, and each batch runs its steps in some order, then executeWorkers runs
-- the extended plan completely and without an error, each step on the results of its dependencies.
pub ensure_sdlc_steps_complete :
    (is_file_creation_step : String → Bool) (a : Agent) (task : String) (steps : List OrchStep)
    (schedule : List OrchStep → List OrchStep)
    → IsExecutable steps
    → in_plan setup_id steps ≡ false
    → NeverStalls a task
    → IsSchedule schedule
    → (o : Outcome) × (execute_workers a task
          (ensure_sdlc_steps is_file_creation_step task steps)
          schedule
        ≡ some o)
      × (o.error ≡ none)
      × All (IsAnswered a task o.results) (ensure_sdlc_steps is_file_creation_step task steps)
ensure_sdlc_steps_complete p a task steps schedule h fresh calm fair =
    let e = ensure_sdlc_steps-IsExecutable p task steps h fresh in
    execute_workers_complete a task (ensure_sdlc_steps p task steps) schedule e.rank e.distinct
      e.ranked fair calm

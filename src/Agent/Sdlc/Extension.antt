-- ===== src/Agent/Sdlc/Extension.antt =====
-- How a step at the front or at the end changes a plan (internal/agent/orchestrated.go,
-- ensureSDLCSteps): ids stay distinct and dependencies stay acyclic.
use mathlib.Core.List.{Memᴰ}
use kyoci_agent.Prelude.{
  ℕ, suc, ◌<◌, String, ◌≡◌, refl, ◌∙◌, inl, inr, Bool, true, false, not, ◌&&◌, List, [], ◌∷◌, ◌++◌,
  arith, any, All, All-elim, All-mono, All-append, All-intro, All-map, Bool-cases, if◌then◌else◌,
}
use kyoci_agent.Prelude.Int.{ℤ, eq_ℤ, int_eq, int_eq_iff}
use kyoci_agent.Agent.Dispatcher.{OrchStep}
use kyoci_agent.Agent.Dispatcher.Counting.{in_plan}
use kyoci_agent.Agent.Sdlc.{
  append_unique_int, next_step_id, all_ids, setup_id, wait_for, add_first, add_last,
  any_step_matches, is_serve_task, inject_setup, inject_verify, inject_qa, inject_serve,
  ensure_sdlc_steps, setup_keywords, verify_keywords, qa_keywords, serve_keywords,
  verify_description, qa_description, serve_description,
}
use kyoci_agent.Agent.Sdlc.Ids.{
  next_step_id_fresh, in_plan-append, in_plan-map, members_in_plan, fresh_apart,
  HasDistinctIds-last, HasDistinctIds-map, all_ids-in_plan, top_rank_bound, top_rank, IsExecutable,
}

-- What `IsRanked` says of one step.
abbrev IsBelow : (ℤ → ℕ) → List OrchStep → OrchStep → Type 0
IsBelow rank steps s = All (λ d. (in_plan d steps ≡ true) × (rank d < rank s.id)) s.depends_on

-- A step with a new id behind all others, on top of all ranks.
module _ (steps : List OrchStep) (h : IsExecutable steps) (last : OrchStep)
    (fresh : in_plan last.id steps ≡ false) where
  rank_with_last : ℤ → ℕ
  rank_with_last k = if int_eq k last.id then suc (top_rank h.rank steps) else h.rank k

  old_rank : (k : ℤ) → in_plan k steps ≡ true → rank_with_last k ≡ h.rank k
  unfolding rank_with_last
  old_rank k m = ground (arith, fresh_apart last.id k steps fresh m)

  last_rank : rank_with_last last.id ≡ suc (top_rank h.rank steps)
  unfolding rank_with_last
  last_rank = ground (arith, int_eq_iff last.id last.id)

  still_in_plan : (k : ℤ) → in_plan k steps ≡ true → in_plan k (steps ++ last ∷ []) ≡ true
  still_in_plan k m = ground (arith, in_plan-append k steps last, m)

  old-IsBelow : (s : OrchStep) → Memᴰ s steps → IsBelow rank_with_last (steps ++ last ∷ []) s
  old-IsBelow s m =
      All-mono (λ d. (in_plan d steps ≡ true) × (h.rank d < h.rank s.id))
        (λ d. (in_plan d (steps ++ last ∷ []) ≡ true) × (rank_with_last d < rank_with_last s.id))
        s.depends_on
        (λ d q. (
          still_in_plan d q.0,
          omega (
            arith,
            old_rank d q.0,
            old_rank s.id (All-elim (λ t. in_plan t.id steps ≡ true) m (members_in_plan steps)),
            q.1,
          ),
        ))
        (All-elim (IsBelow h.rank steps) m h.ranked)

  last-IsBelow :
      All (λ d. in_plan d steps ≡ true) last.depends_on
      → IsBelow rank_with_last (steps ++ last ∷ []) last
  last-IsBelow deps =
      All-mono (λ d. in_plan d steps ≡ true)
        (λ d. (in_plan d (steps ++ last ∷ []) ≡ true) × (rank_with_last d < rank_with_last last.id))
        last.depends_on
        (λ d q. (
          still_in_plan d q,
          omega (arith, old_rank d q, last_rank, top_rank_bound h.rank d steps q),
        ))
        deps

  pub append-IsExecutable :
      All (λ d. in_plan d steps ≡ true) last.depends_on → IsExecutable (steps ++ last ∷ [])
  append-IsExecutable deps = record {
    rank = rank_with_last;
    distinct = HasDistinctIds-last steps last h.distinct fresh;
    ranked =
        All-append (IsBelow rank_with_last (steps ++ last ∷ [])) steps (last ∷ [])
          (All-intro (IsBelow rank_with_last (steps ++ last ∷ [])) steps old-IsBelow)
          (last-IsBelow deps, tt);
  }

pub add_last-IsExecutable :
    (text : String) (steps : List OrchStep)
    → IsExecutable steps
    → IsExecutable (add_last text steps)
unfolding add_last
add_last-IsExecutable text steps h =
    append-IsExecutable steps h
      (record {
        id = next_step_id steps;
        description = text;
        depends_on = all_ids [] steps;
        tool_hint = "terminal";
      })
      (next_step_id_fresh steps) (all_ids-in_plan steps [] steps tt (members_in_plan steps))

-- SETUP at the front, below all ranks.
module _ (steps : List OrchStep) (h : IsExecutable steps)
    (fresh : in_plan setup_id steps ≡ false) where
  rank_with_setup : ℤ → ℕ
  rank_with_setup k = if int_eq k setup_id then 0 else suc (h.rank k)

  lifted_rank : (k : ℤ) → in_plan k steps ≡ true → rank_with_setup k ≡ suc (h.rank k)
  unfolding rank_with_setup
  lifted_rank k m = ground (arith, fresh_apart setup_id k steps fresh m)

  setup_rank : rank_with_setup setup_id ≡ 0
  unfolding rank_with_setup
  setup_rank = refl

  kept_in_plan : (k : ℤ) → in_plan k steps ≡ true → in_plan k (add_first steps) ≡ true
  unfolding add_first
  kept_in_plan k m = ground (arith, in_plan-map k setup_id steps, m)

  setup_in_plan : in_plan setup_id (add_first steps) ≡ true
  unfolding add_first
  setup_in_plan = refl

  waiting-IsBelow :
      (s : OrchStep)
      → Memᴰ s steps
      → IsBelow rank_with_setup (add_first steps) (wait_for setup_id s)
  unfolding wait_for append_unique_int
  waiting-IsBelow s m = elim (Bool-cases (any (λ x. int_eq x setup_id) s.depends_on)) [
    | inl e ↦ rw e old
    | inr e ↦ rw e (
        All-append P s.depends_on (setup_id ∷ []) old
          ((setup_in_plan, omega (arith, setup_rank, self)), tt))
  ]
    where
      P : ℤ → Type 0
      P d = (in_plan d (add_first steps) ≡ true) × (rank_with_setup d < rank_with_setup s.id)

      self : rank_with_setup s.id ≡ suc (h.rank s.id)
      self = lifted_rank s.id (All-elim (λ t. in_plan t.id steps ≡ true) m (members_in_plan steps))

      old : All P s.depends_on
      old =
          All-mono (λ d. (in_plan d steps ≡ true) × (h.rank d < h.rank s.id)) P s.depends_on
            (λ d q. (kept_in_plan d q.0, omega (arith, lifted_rank d q.0, self, q.1)))
            (All-elim (IsBelow h.rank steps) m h.ranked)

  pub add_first-IsExecutable : IsExecutable (add_first steps)
  unfolding add_first wait_for
  add_first-IsExecutable = record {
    rank = rank_with_setup;
    distinct =
        (in_plan-map setup_id setup_id steps ∙ fresh, HasDistinctIds-map setup_id steps h.distinct);
    ranked = (
      tt,
      All-map (IsBelow rank_with_setup (add_first steps)) (wait_for setup_id) steps (
          All-intro (λ s. IsBelow rank_with_setup (add_first steps) (wait_for setup_id s)) steps
            waiting-IsBelow),
    );
  }

-- Either the plan stays, or it grows by the step.
either-IsExecutable :
    (b : Bool) (old grown : List OrchStep)
    → IsExecutable old
    → IsExecutable grown
    → IsExecutable (if b then old else grown)
either-IsExecutable true old grown h g = h
either-IsExecutable false old grown h g = g

inject_setup-IsExecutable :
    (steps : List OrchStep)
    → IsExecutable steps
    → in_plan setup_id steps ≡ false
    → IsExecutable (inject_setup steps)
unfolding inject_setup
inject_setup-IsExecutable steps h fresh =
    either-IsExecutable (any_step_matches steps setup_keywords) steps (add_first steps) h
      (add_first-IsExecutable steps h fresh)

inject_verify-IsExecutable :
    (steps : List OrchStep) → IsExecutable steps → IsExecutable (inject_verify steps)
unfolding inject_verify
inject_verify-IsExecutable steps h =
    either-IsExecutable (any_step_matches steps verify_keywords) steps
      (add_last verify_description steps) h (add_last-IsExecutable verify_description steps h)

inject_qa-IsExecutable :
    (steps : List OrchStep) → IsExecutable steps → IsExecutable (inject_qa steps)
unfolding inject_qa
inject_qa-IsExecutable steps h =
    either-IsExecutable (any_step_matches steps qa_keywords) steps (add_last qa_description steps) h
      (add_last-IsExecutable qa_description steps h)

inject_serve-IsExecutable :
    (task : String) (steps : List OrchStep)
    → IsExecutable steps
    → IsExecutable (inject_serve task steps)
unfolding inject_serve
inject_serve-IsExecutable task steps h =
    either-IsExecutable (is_serve_task task && not (any_step_matches steps serve_keywords))
      (add_last serve_description steps) steps (add_last-IsExecutable serve_description steps h) h

-- If a plan has distinct ids other than -1, its dependencies name its own steps and have no cycle, then
-- so is the extended plan: the new ids are new, and no added dependency closes a cycle.
pub ensure_sdlc_steps-IsExecutable :
    (is_file_creation_step : String → Bool) (task : String) (steps : List OrchStep)
    → IsExecutable steps
    → in_plan setup_id steps ≡ false
    → IsExecutable (ensure_sdlc_steps is_file_creation_step task steps)
unfolding ensure_sdlc_steps
ensure_sdlc_steps-IsExecutable p task steps h fresh =
    elim (Bool-cases (any (λ s. p s.description) steps)) [
      | inl e ↦ rw e (
          inject_serve-IsExecutable task _ (
            inject_qa-IsExecutable _
              (inject_verify-IsExecutable _ (inject_setup-IsExecutable steps h fresh))))
      | inr e ↦ rw e h
    ]

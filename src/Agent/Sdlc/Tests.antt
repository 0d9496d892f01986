-- ===== src/Agent/Sdlc/Tests.antt =====
-- Runs of ensureSDLCSteps (internal/agent/orchestrated.go), and instances of its theorems.
use mathlib.Core.List.Permᴰ
use kyoci_agent.Prelude.{ℕ, String, ◌≡◌, refl, Bool, false, none, some, List, [], ◌∷◌, arith, All}
use kyoci_agent.Prelude.Int.{ℤ, pos, negsuc}
use kyoci_agent.Prelude.Map.{Map}
use kyoci_agent.Prelude.Text.{trim_space, lower_text, contains}
use kyoci_agent.Agent.Dispatcher.{
  OrchStep, Agent, Outcome, answered, execute_workers, is_stalled_result, step_output, fast_path,
}
use kyoci_agent.Agent.Dispatcher.Rounds.{IsSchedule}
use kyoci_agent.Agent.Dispatcher.Completion.{NeverStalls, IsAnswered}
use kyoci_agent.Agent.Sdlc.{
  any_step_matches, append_unique_int, max_id, next_step_id, all_ids, is_serve_task, wait_for,
  add_first, add_last, inject_setup, inject_verify, inject_qa, inject_serve, ensure_sdlc_steps,
  finish_plan,
}
use kyoci_agent.Agent.Sdlc.Ids.{IsExecutable}
use kyoci_agent.Agent.Sdlc.Cap.{finish_plan-IsExecutable}
use kyoci_agent.Agent.Sdlc.Structure.{ensure_sdlc_steps_complete}

abbrev writes : String → Bool
writes d = contains d "write"

abbrev page : List OrchStep
page =
    record { id = pos 1; description = "write index.html"; depends_on = []; tool_hint = "file" }
    ∷ record {
      id = pos 2;
      description = "write style.css";
      depends_on = pos 1 ∷ [];
      tool_hint = "file";
    }
    ∷ []

abbrev ids_and_dependencies : List OrchStep → List (ℤ × List ℤ)
ids_and_dependencies [] = []
ids_and_dependencies (s ∷ ss) = (s.id, s.depends_on) ∷ ids_and_dependencies ss

extended :
    ids_and_dependencies (ensure_sdlc_steps writes "make a page, run it" page)
    ≡ (negsuc 0, [])
      ∷ (pos 1, negsuc 0 ∷ [])
      ∷ (pos 2, pos 1 ∷ negsuc 0 ∷ [])
      ∷ (pos 3, negsuc 0 ∷ pos 1 ∷ pos 2 ∷ [])
      ∷ (pos 4, negsuc 0 ∷ pos 1 ∷ pos 2 ∷ pos 3 ∷ [])
      ∷ (pos 5, negsuc 0 ∷ pos 1 ∷ pos 2 ∷ pos 3 ∷ pos 4 ∷ [])
      ∷ []
unfolding ensure_sdlc_steps inject_setup inject_verify inject_qa inject_serve is_serve_task
    add_first add_last wait_for append_unique_int all_ids next_step_id max_id any_step_matches
    lower_text
extended = refl

abbrev depth : ℤ → ℕ
depth (pos n) = n
depth (negsuc n) = 0

page-IsExecutable : IsExecutable page
page-IsExecutable = record {
  rank = depth;
  distinct = (refl, (refl, tt));
  ranked = (tt, (((refl, omega arith), tt), tt));
}

abbrev diligent : Agent
diligent = record { worker = λ task s prior. answered "finished"; skills = none }

finishes :
    (s : OrchStep) (results : Map ℤ String)
    → step_output diligent "make a page" s results ≡ "finished"
unfolding step_output fast_path
finishes s results = ground arith

no_stall : is_stalled_result "finished" ≡ false
unfolding is_stalled_result trim_space
no_stall = refl

diligent-NeverStalls : NeverStalls diligent "make a page"
diligent-NeverStalls = record { at = λ s results. rw (finishes s results) no_stall }

in_order-IsSchedule : IsSchedule (λ batch. batch)
in_order-IsSchedule = record { perm = Permᴰ.refl }

ensure_sdlc_steps_complete_example :
    (o : Outcome) × (execute_workers diligent "make a page"
        (ensure_sdlc_steps writes "make a page" page)
        (λ batch. batch)
      ≡ some o)
    × (o.error ≡ none)
    × All
        (IsAnswered diligent "make a page" o.results)
        (ensure_sdlc_steps writes "make a page" page)
ensure_sdlc_steps_complete_example =
    ensure_sdlc_steps_complete writes diligent "make a page" page (λ batch. batch) page-IsExecutable
      refl diligent-NeverStalls in_order-IsSchedule

-- The second step is cut off, and the steps that are added do not need it.
finish_plan-IsExecutable_example : IsExecutable (finish_plan writes "make a page" 1 page)
finish_plan-IsExecutable_example =
    finish_plan-IsExecutable writes "make a page" 1 page (refl, (refl, tt)) (tt, ((refl, tt), tt))
      refl

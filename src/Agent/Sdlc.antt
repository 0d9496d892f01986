-- ===== src/Agent/Sdlc.antt =====
-- The steps that planTask adds to a plan that writes code (internal/agent/orchestrated.go,
-- ensureSDLCSteps): SETUP first, then VERIFY, QA and SERVE at the end. Whether a step's description
-- asks for a file is a parameter, so every regular expression behind isFileCreationStep is covered.
pub mod Ids
pub mod Extension
pub mod Cap
pub mod Structure
mod Tests
use kyoci_agent.Prelude.{
  ℕ, zero, suc, String, Bool, true, false, not, ◌&&◌, List, [], ◌∷◌, ◌++◌, map, any, take,
  if◌then◌else◌,
}
use kyoci_agent.Prelude.Int.{ℤ, pos, negsuc, int_eq, int_ltb, int_suc}
use kyoci_agent.Prelude.Text.{lower_text, contains}
use kyoci_agent.Agent.Dispatcher.{OrchStep}

abbrev pub setup_keywords : List String
setup_keywords =
    "setup" ∷ "install" ∷ "npm install" ∷ "go mod" ∷ "pip install" ∷ "yarn" ∷ "dependencies" ∷ []

abbrev pub verify_keywords : List String
verify_keywords =
    "verify" ∷ "build" ∷ "test" ∷ "lint" ∷ "npm run build" ∷ "go test" ∷ "go build" ∷ "compile" ∷ []

abbrev pub qa_keywords : List String
qa_keywords = "qa:" ∷ "independently" ∷ "independent review" ∷ []

abbrev pub serve_keywords : List String
serve_keywords =
    "working url" ∷ "give me the url" ∷ "give me a url" ∷ "preview" ∷ "see it" ∷ "to see it"
    ∷ "localhost" ∷ "open it" ∷ "live demo" ∷ "run it" ∷ []

-- strings.Contains for one of several texts.
abbrev pub contains_any : String → List String → Bool
contains_any low keywords = any (λ k. contains low k) keywords

unfoldable pub is_serve_task : String → Bool
is_serve_task task = contains_any (lower_text task) serve_keywords

unfoldable pub any_step_matches : List OrchStep → List String → Bool
any_step_matches steps keywords = any (λ s. contains_any (lower_text s.description) keywords) steps

unfoldable pub append_unique_int : List ℤ → ℤ → List ℤ
append_unique_int xs v = if any (λ x. int_eq x v) xs then xs else xs ++ v ∷ []

unfoldable pub max_id : ℤ → List OrchStep → ℤ
max_id max [] = max
max_id max (s ∷ ss) = max_id (if int_ltb max s.id then s.id else max) ss

unfoldable pub next_step_id : List OrchStep → ℤ
unfolding max_id
next_step_id steps = int_suc (max_id (pos 0) steps)

unfoldable pub all_ids : List ℤ → List OrchStep → List ℤ
unfolding append_unique_int
all_ids ids [] = ids
all_ids ids (s ∷ ss) = all_ids (append_unique_int ids s.id) ss

-- The sentinel -1.
abbrev pub setup_id : ℤ
setup_id = negsuc 0

abbrev pub setup_step : OrchStep
setup_step = record {
  id = setup_id;
  description =
      "SETUP: create the project manifest (package.json/go.mod/requirements.txt) and install dependencies (npm install / go mod download / pip install).";
  depends_on = [];
  tool_hint = "terminal";
}

unfoldable pub wait_for : ℤ → OrchStep → OrchStep
unfolding append_unique_int
wait_for id s = record s { depends_on = append_unique_int s.depends_on id }

unfoldable pub add_first : List OrchStep → List OrchStep
unfolding wait_for
add_first steps = setup_step ∷ map (wait_for setup_id) steps

-- A step behind all others.
unfoldable pub add_last : String → List OrchStep → List OrchStep
unfolding next_step_id all_ids
add_last description steps =
    steps
    ++ record {
      id = next_step_id steps;
      description = description;
      depends_on = all_ids [] steps;
      tool_hint = "terminal";
    }
      ∷ []

abbrev pub verify_description : String
verify_description =
    "VERIFY: run the project build/tests (npm run build / go build ./... / go test ./...) and report pass/fail with the real output."

abbrev pub qa_description : String
qa_description =
    "QA: independently re-run the build/tests and inspect the generated code for bugs. Report PASS or FAIL with specific findings (file:line)."

abbrev pub serve_description : String
serve_description =
    "SERVE: start a background static file server in the project dir (process tool: 'cd projects/<slug> && python3 -m http.server 8000') and report the URL http://localhost:8000."

unfoldable pub inject_setup : List OrchStep → List OrchStep
unfolding add_first
inject_setup steps = if any_step_matches steps setup_keywords then steps else add_first steps

unfoldable pub inject_verify : List OrchStep → List OrchStep
unfolding add_last
inject_verify steps =
    if any_step_matches steps verify_keywords then steps else add_last verify_description steps

unfoldable pub inject_qa : List OrchStep → List OrchStep
unfolding add_last
inject_qa steps =
    if any_step_matches steps qa_keywords then steps else add_last qa_description steps

unfoldable pub inject_serve : String → List OrchStep → List OrchStep
unfolding add_last is_serve_task
inject_serve task steps =
    if is_serve_task task && not (any_step_matches steps serve_keywords)
    then add_last serve_description steps
    else steps

unfoldable pub ensure_sdlc_steps : (String → Bool) → String → List OrchStep → List OrchStep
unfolding inject_setup inject_verify inject_qa inject_serve
ensure_sdlc_steps is_file_creation_step task steps =
    if any (λ s. is_file_creation_step s.description) steps
    then inject_serve task (inject_qa (inject_verify (inject_setup steps)))
    else steps

-- What planTask does with the parsed plan: the cap, then the added steps.
unfoldable pub finish_plan : (String → Bool) → String → ℕ → List OrchStep → List OrchStep
unfolding ensure_sdlc_steps
finish_plan is_file_creation_step task max_steps steps =
    ensure_sdlc_steps is_file_creation_step task (take max_steps steps)

-- ===== src/Agent/Planner/Tests.antt =====
-- Runs of the planner's reader (internal/agent/orchestrated.go), and its theorem at an answer in prose.
use kyoci_agent.Prelude.{
  ◌≡◌, refl, ◌↔◌, String, str_eq, Option, none, some, List, [], ◌∷◌, if◌then◌else◌,
}
use kyoci_agent.Prelude.Int.{pos}
use kyoci_agent.Agent.Dispatcher.{OrchStep}
use kyoci_agent.Agent.Planner.{extract_outermost_array, parse_orch_steps}
use kyoci_agent.Agent.Planner.Array.{IsFirstArray, extract_outermost_array_iff}

abbrev one_step : List OrchStep
one_step = record { id = pos 1; description = "]"; depends_on = []; tool_hint = "" } ∷ []

-- Reads one text only.
abbrev unmarshal : String → Option (List OrchStep)
unmarshal s = if str_eq s "[\"]\"]" then some one_step else none

in_prose : parse_orch_steps unmarshal (λ s. s) "Here is the plan: [\"]\"] Done." ≡ some one_step
unfolding parse_orch_steps
in_prose = refl

fenced : parse_orch_steps unmarshal (λ s. s) " ```json\n[\"]\"]\n```" ≡ some one_step
unfolding parse_orch_steps
fenced = refl

not_closed : extract_outermost_array "[1, [2]" ≡ none
unfolding extract_outermost_array
not_closed = refl

-- A bracket and a quote inside a string, and a bracket inside.
abbrev nested_answer : String
nested_answer = "plan: [\"]\\\"[\", [2]] ok]"

nested_run : extract_outermost_array nested_answer ≡ some "[\"]\\\"[\", [2]]"
unfolding extract_outermost_array
nested_run = refl

extract_outermost_array_iff_example :
    (extract_outermost_array nested_answer ≡ some "[\"]\\\"[\", [2]]")
    ↔ IsFirstArray nested_answer "[\"]\\\"[\", [2]]"
extract_outermost_array_iff_example = extract_outermost_array_iff nested_answer "[\"]\\\"[\", [2]]"

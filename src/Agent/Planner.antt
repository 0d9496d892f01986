-- ===== src/Agent/Planner.antt =====
-- How the answer of the planner is read (internal/agent/orchestrated.go: parseOrchSteps,
-- extractOutermostArray; internal/agent/thinking.go: stripCodeFences). json.Unmarshal and the regular
-- expression for trailing commas are parameters; a text is taken to be read the same way whatever was
-- tried before it.
pub mod Array
pub mod Brackets
pub mod Closing
pub mod Grammar
mod Tests
use Prim.Native.Char.{Char, code}
use kyoci_agent.Prelude.{
  ℕ, zero, suc, ◌+◌, ◌-◌, String, str_eq, Bool, true, false, not, ◌&&◌, Option, none, some, List,
  [], ◌∷◌, ◌==◌, leb, if◌then◌else◌,
}
use kyoci_agent.Prelude.Text.{trim_space, has_prefix, split_lines, join_lines}
use kyoci_agent.Agent.Dispatcher.{OrchStep}

-- The lines between the first two fences.
unfoldable pub fenced_lines : Bool → List String → List String
unfolding trim_space
fenced_lines in_block [] = []
fenced_lines in_block (line ∷ lines) =
    let opened = fenced_lines true lines in
    let rest = fenced_lines in_block lines in
    if has_prefix (trim_space line) "```"
    then (if in_block then [] else opened)
    else if in_block
    then line ∷ rest
    else rest

abbrev pub lines_or : List String → String → String
lines_or [] input = input
lines_or (l ∷ ls) input = join_lines (l ∷ ls)

unfoldable pub strip_code_fences : String → String
unfolding fenced_lines split_lines join_lines
strip_code_fences input =
    if has_prefix input "```"
    then lines_or (fenced_lines false (split_lines input)) input
    else input

-- The variables of the scan for the closing bracket.
pub record Scan : Type 0 where
  pub depth : ℕ
  pub in_str : Bool
  pub escaped : Bool

abbrev pub scan_start : Scan
scan_start = record { depth = 0; in_str = false; escaped = false }

-- What the scan does at a character. Inside an array the depth is not 0.
unfoldable pub scan_char : Scan → ℕ → Scan
scan_char sc c =
    if sc.escaped
    then record sc { escaped = false }
    else if c == 92 && sc.in_str
    then record sc { escaped = true }
    else if c == 34
    then record sc { in_str = not sc.in_str }
    else if sc.in_str
    then sc
    else if c == 91
    then record sc { depth = suc sc.depth }
    else if c == 93
    then record sc { depth = sc.depth - 1 }
    else sc

-- Whether the array ends with this character.
unfoldable pub closes : Scan → ℕ → Bool
closes sc c = not sc.escaped && (not sc.in_str && (c == 93 && leb sc.depth 1))

abbrev pub put_front : Char → Option String → Option String
put_front c none = none
put_front c (some s) = some (String.◌∷◌ c s)

-- The text up to the character that closes the array.
unfoldable pub take_array : Scan → String → Option String
unfolding scan_char closes
take_array sc String.[] = none
take_array sc (String.◌∷◌ c s) =
    let rest = put_front c (take_array (scan_char sc (code c)) s) in
    if closes sc (code c) then some (String.◌∷◌ c String.[]) else rest

-- `none` stands for the empty text.
unfoldable pub extract_outermost_array : String → Option String
unfolding take_array
extract_outermost_array String.[] = none
extract_outermost_array (String.◌∷◌ c s) =
    let later = extract_outermost_array s in
    if code c == 91 then take_array scan_start (String.◌∷◌ c s) else later

abbrev pub or_else {ℓ} : {A : Type ℓ} → Option A → Option A → Option A
or_else (some a) b = some a
or_else none b = b

module _ (unmarshal : String → Option (List OrchStep))
    (strip_trailing_commas : String → String) where
  -- A text is tried where it differs from the one before.
  abbrev pub if_changed : String → String → Option (List OrchStep)
  if_changed text before = if str_eq text before then none else unmarshal text

  abbrev pub parse_array : Option String → Option (List OrchStep)
  parse_array none = none
  parse_array (some arr) = or_else (unmarshal arr) (if_changed (strip_trailing_commas arr) arr)

  abbrev pub parse_tiers : String → String → Option (List OrchStep)
  parse_tiers input stripped = or_else (unmarshal input) (
      or_else (if_changed stripped input) (
        or_else (if_changed (strip_trailing_commas stripped) stripped)
          (parse_array (extract_outermost_array stripped))))

  -- `none` stands for the error.
  unfoldable pub parse_orch_steps : String → Option (List OrchStep)
  unfolding strip_code_fences extract_outermost_array trim_space
  parse_orch_steps input =
      let trimmed = trim_space input in
      if str_eq trimmed "" then none else parse_tiers trimmed (strip_code_fences trimmed)

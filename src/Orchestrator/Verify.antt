-- ===== src/Orchestrator/Verify.antt =====
-- The VERIFY directive of a task (internal/orchestrator/hitl.go): verifyDirectiveRe and the functions
-- around it. The expression is matched line by line, since neither `.` nor `[ \t]` matches a line
-- feed. Where `truncateForHitl` cuts inside a character, the bytes of that character are dropped.
mod Tests
use Prim.Native.Char.{code}
use Prim.Native.String.{slice}
use kyoci_agent.Prelude.{
  ℕ, String, len, str_eq, str_append, Bool, true, false, ◌||◌, Option, none, some, List, [], ◌∷◌,
  map, leb, ◌==◌, if◌then◌else◌,
}
use kyoci_agent.Prelude.Text.{trim_space, split_lines, join_lines, strip_prefix_fold}

-- [ \t]*
skip_blanks : String → String
skip_blanks String.[] = ""
skip_blanks (String.◌∷◌ c s) =
    let rest = skip_blanks s in if code c == 32 || code c == 9 then rest else String.◌∷◌ c s

-- (.+?) takes at least one character, a blank if there is nothing else.
some_unless_empty : String → Option String
some_unless_empty s = if str_eq s "" then none else some (trim_space s)

-- What the expression captures in a line that it matches, trimmed.
unfoldable pub verify_line : String → Option String
unfolding skip_blanks some_unless_empty
verify_line line =
    elim (strip_prefix_fold (b'v' ∷ b'e' ∷ b'r' ∷ b'i' ∷ b'f' ∷ b'y' ∷ b':' ∷ [])
      (skip_blanks line)) [ none ↦ none | some rest ↦ some_unless_empty rest ]

first_verify : List String → String
first_verify [] = ""
first_verify (l ∷ ls) = elim (verify_line l) [ none ↦ first_verify ls | some cmd ↦ cmd ]

unfoldable pub extract_verify_command : String → String
unfolding first_verify
extract_verify_command task = first_verify (split_lines task)

blank_verify : String → String
blank_verify l = elim (verify_line l) [ none ↦ l | some _ ↦ "" ]

unfoldable pub strip_verify_directive : String → String
unfolding blank_verify
strip_verify_directive task = trim_space (join_lines (map blank_verify (split_lines task)))

unfoldable pub truncate_for_hitl : String → ℕ → String
truncate_for_hitl s max =
    let t = trim_space s in
    if leb (len t) max then t else str_append (slice t 0 max) "...(truncated)"

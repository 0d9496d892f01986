-- ===== src/Agent/Planner/Grammar.antt =====
-- Balanced texts as a grammar, against which extractOutermostArray
-- (internal/agent/orchestrated.go) is stated: strings with escapes, brackets inside brackets, and any
-- other characters. The constructors hold the characters of a text in their order.
use Prim.Native.Char.{Char, code}
use kyoci_agent.Prelude.{◌≡◌, ◌≢◌, String}

-- The rest of a string behind its opening quote.
pub data Literal : Type 0 where
  quote_end : (q : Char) → code q ≡ 34 → Literal
  escape : (b c : Char) → code b ≡ 92 → Literal → Literal
  letter : (c : Char) → code c ≢ 34 → code c ≢ 92 → Literal → Literal

-- A text in which each opening bracket outside of strings has its closing one.
pub data Balanced : Type 0 where
  nothing : Balanced
  other : (c : Char) → code c ≢ 34 → code c ≢ 91 → code c ≢ 93 → Balanced → Balanced
  string : (q : Char) → code q ≡ 34 → Literal → Balanced → Balanced
  brackets : (o c : Char) → code o ≡ 91 → code c ≡ 93 → Balanced → Balanced → Balanced

-- The text, with what follows it.
abbrev pub write_literal : Literal → String → String
write_literal (quote_end q h) rest = String.◌∷◌ q rest
write_literal (escape b c h l) rest = String.◌∷◌ b (String.◌∷◌ c (write_literal l rest))
write_literal (letter c h k l) rest = String.◌∷◌ c (write_literal l rest)

abbrev pub write : Balanced → String → String
write nothing rest = rest
write (other c h k j bal) rest = String.◌∷◌ c (write bal rest)
write (string q h l bal) rest = String.◌∷◌ q (write_literal l (write bal rest))
write (brackets o c h k inner bal) rest = String.◌∷◌ o (write inner (String.◌∷◌ c (write bal rest)))

-- An opening bracket, a balanced text, and the closing bracket.
abbrev pub IsArray : String → Type 0
IsArray a =
    (o c : Char) × (inner : Balanced) × (code o ≡ 91)
    × (code c ≡ 93)
    × (a ≡ String.◌∷◌ o (write inner (String.◌∷◌ c String.[])))

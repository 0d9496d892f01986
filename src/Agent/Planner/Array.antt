-- ===== src/Agent/Planner/Array.antt =====
-- Which text extractOutermostArray finds (internal/agent/orchestrated.go).
use Prim.Native.Char.{Char, code}
use kyoci_agent.Prelude.{
  ◌≡◌, refl, sym, ap, ◌∙◌, ◌↔◌, inl, inr, String, str_append, Bool, true, false, not, ◌&&◌, some,
  arith, ◌==◌, Bool-cases, ==_iff,
}
use text.Mathlib.TextLemmas.{nil-append, cons-append}
use kyoci_agent.Agent.Planner.{
  Scan, scan_start, scan_char, closes, put_front, take_array, extract_outermost_array,
}
use kyoci_agent.Agent.Planner.Brackets.{
  some_injective, put_front-some, take_array_last, take_array_more, take_array-IsArray,
}
use kyoci_agent.Agent.Planner.Closing.{take_array_finds}
use kyoci_agent.Agent.Planner.Grammar.{write, IsArray}

-- A text without an opening bracket.
abbrev pub no_bracket : String → Bool
no_bracket String.[] = true
no_bracket (String.◌∷◌ c s) = not (code c == 91) && no_bracket s

-- What is found stays found when a text follows.
take_array_before :
    (sc : Scan) (s a rest : String)
    → take_array sc s ≡ some a
    → take_array sc (str_append s rest) ≡ some a
unfolding take_array
take_array_before sc String.[] a rest e = absurd (ground (arith, e))
take_array_before sc (String.◌∷◌ c s) a rest e =
    ap (take_array sc) (cons-append c s rest) ∙ elim (Bool-cases (closes sc (code c))) [
      | inl last ↦
          take_array_last sc c (str_append s rest) last ∙ sym (take_array_last sc c s last) ∙ e
      | inr more ↦
          (let (b, found, same) = put_front-some c _ a (sym (take_array_more sc c s more) ∙ e) in
            take_array_more sc c (str_append s rest) more
            ∙ ap (put_front c) (take_array_before (scan_char sc (code c)) s b rest found)
            ∙ ap some (sym same))
    ]

-- What is found stands at the front of the text.
take_array_split :
    (sc : Scan) (s a : String)
    → take_array sc s ≡ some a
    → (rest : String) × (s ≡ str_append a rest)
unfolding take_array
take_array_split sc String.[] a e = absurd (ground (arith, e))
take_array_split sc (String.◌∷◌ c s) a e = elim (Bool-cases (closes sc (code c))) [
  | inl last ↦
      (let same : String.◌∷◌ c String.[] ≡ a =
          some_injective (sym (take_array_last sc c s last) ∙ e) in
        (
          s,
          sym (cons-append c String.[] s ∙ ap (String.◌∷◌ c) (nil-append s))
              ∙ ap (λ x. str_append x s) same,
        ))
  | inr more ↦
      (let (b, found, same) = put_front-some c _ a (sym (take_array_more sc c s more) ∙ e) in
        let (rest, split) = take_array_split (scan_char sc (code c)) s b found in
        (
          rest,
          ap (String.◌∷◌ c) split
              ∙ sym (cons-append c b rest)
              ∙ ap (λ x. str_append x rest) (sym same),
        ))
]

module _ (c : Char) (s : String) where
  extract_here :
      (code c == 91) ≡ true
      → extract_outermost_array (String.◌∷◌ c s) ≡ take_array scan_start (String.◌∷◌ c s)
  unfolding extract_outermost_array
  extract_here h = rw (h, extract_outermost_array) refl

  extract_later :
      (code c == 91) ≡ false → extract_outermost_array (String.◌∷◌ c s) ≡ extract_outermost_array s
  unfolding extract_outermost_array
  extract_later h = rw (h, extract_outermost_array) refl

extract_before :
    (s a rest : String)
    → extract_outermost_array s ≡ some a
    → extract_outermost_array (str_append s rest) ≡ some a
unfolding extract_outermost_array
extract_before String.[] a rest e = absurd (ground (arith, e))
extract_before (String.◌∷◌ c s) a rest e =
    ap extract_outermost_array (cons-append c s rest) ∙ elim (Bool-cases (code c == 91)) [
      | inl here ↦
          extract_here c (str_append s rest) here
          ∙ ap (take_array scan_start) (sym (cons-append c s rest))
          ∙ take_array_before scan_start (String.◌∷◌ c s) a rest (sym (extract_here c s here) ∙ e)
      | inr later ↦
          extract_later c (str_append s rest) later
          ∙ extract_before s a rest (sym (extract_later c s later) ∙ e)
    ]

extract_behind :
    (prose s a : String)
    → no_bracket prose ≡ true
    → extract_outermost_array s ≡ some a
    → extract_outermost_array (str_append prose s) ≡ some a
extract_behind String.[] s a h e = ap extract_outermost_array (nil-append s) ∙ e
extract_behind (String.◌∷◌ c prose) s a h e =
    ap extract_outermost_array (cons-append c prose s)
    ∙ extract_later c (str_append prose s) (ground (arith, h))
    ∙ extract_behind prose s a (ground (arith, h)) e

-- Where a text stands in another: behind a text without an opening bracket, and is an array of the
-- grammar.
abbrev pub IsFirstArray : String → String → Type 0
IsFirstArray input a =
    (prose : String) × (rest : String) × (input ≡ str_append prose (str_append a rest))
    × (no_bracket prose ≡ true)
    × IsArray a

extract_outermost_array-IsFirstArray :
    (input a : String) → extract_outermost_array input ≡ some a → IsFirstArray input a
unfolding extract_outermost_array
extract_outermost_array-IsFirstArray String.[] a e = absurd (ground (arith, e))
extract_outermost_array-IsFirstArray (String.◌∷◌ c s) a e = elim (Bool-cases (code c == 91)) [
  | inl here ↦
      (let found = sym (extract_here c s here) ∙ e in
        let (rest, split) = take_array_split scan_start (String.◌∷◌ c s) a found in
        (
          String.[],
          rest,
          split ∙ sym (nil-append (str_append a rest)),
          refl,
          take_array_finds c s a ((==_iff (code c) 91).0 here) found,
        ))
  | inr later ↦
      (let (prose, rest, split, none_in, array) =
          extract_outermost_array-IsFirstArray s a (sym (extract_later c s later) ∙ e) in
        (
          String.◌∷◌ c prose,
          rest,
          ap (String.◌∷◌ c) split ∙ sym (cons-append c prose (str_append a rest)),
          ground (arith, later, none_in),
          array,
        ))
]

extract_itself : (a : String) → IsArray a → extract_outermost_array a ≡ some a
extract_itself a (o, c, inner, opens, ends, same) =
    ap extract_outermost_array same
    ∙ extract_here o (write inner (String.◌∷◌ c String.[])) (rw opens refl)
    ∙ ap (take_array scan_start) (sym same)
    ∙ take_array-IsArray a (o, c, inner, opens, ends, same)

-- extractOutermostArray finds a text exactly where the input is that text, with any text behind it and a
-- text without an opening bracket before it, and where the text is an array of the grammar: an opening
-- bracket, a text of strings with escapes, of brackets in pairs and of other characters, and a closing
-- bracket.
pub extract_outermost_array_iff :
    (input a : String) → (extract_outermost_array input ≡ some a) ↔ IsFirstArray input a
extract_outermost_array_iff input a = (
  extract_outermost_array-IsFirstArray input a,
  λ (prose, rest, split, none_in, array).
      ap extract_outermost_array split
      ∙ extract_behind prose (str_append a rest) a none_in
          (extract_before a a rest (extract_itself a array)),
)

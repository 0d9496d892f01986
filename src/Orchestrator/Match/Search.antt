-- ===== src/Orchestrator/Match/Search.antt =====
-- The search for a trigger (internal/agentdef/match.go, containsNonNegated) ends: it has rounds enough.
use Prim.Native.Char.{len_utf8}
use Prim.Native.String.{slice}
use Prim.Native.String.slice
use Prim.Native.String.len
use Prim.Native.String.find
use text.Mathlib.TextPositions.{len_utf8-pos}
use kyoci_agent.Prelude.{
  ℕ, zero, suc, ◌+◌, ◌-◌, ◌≤◌, ◌<◌, String, len, ◌≡◌, refl, ap, ◌∙◌, inl, inr, true, false, none,
  arith, Option-cases, if◌then◌else◌,
}
use kyoci_agent.Prelude.Text.{index_of}
use kyoci_agent.Orchestrator.Match.{Patterns, is_negated, search_from}

-- Behind the end there is nothing.
slice_past : (s : String) (from : ℕ) → len s ≤ from → slice s from (len s) ≡ ""
slice_past String.[] from l = slice.nil from (len "")
slice_past (String.◌∷◌ c s) zero l =
    let none_left : len_utf8 c + len s ≤ 0 = rw (len.cons c s) at l in
    absurd (omega (arith, none_left, (len_utf8-pos c).1))
slice_past (String.◌∷◌ c s) (suc a) l =
    let within : len_utf8 c + len s ≤ suc a = rw (len.cons c s) at l in
    let rest : (len_utf8 c + len s) - len_utf8 c ≡ len s = omega arith in
    slice.cons-suc c s a (len (String.◌∷◌ c s))
    ∙ ap (λ n. slice s (suc a - len_utf8 c) (n - len_utf8 c)) (len.cons c s)
    ∙ ap (slice s (suc a - len_utf8 c)) rest
    ∙ slice_past s (suc a - len_utf8 c) (omega (arith, within, (len_utf8-pos c).1))

index_of_empty : (needle : String) → 1 ≤ len needle → index_of "" needle ≡ none
unfolding index_of
index_of_empty String.[] l = (let bad : 1 ≤ 0 = rw len.nil at l in absurd (omega arith))
index_of_empty (String.◌∷◌ c s) l = rw (find.nil (String.◌∷◌ c s)) refl

-- Rounds behind the end change nothing.
search_past :
    (p : Patterns) (haystack needle : String) (fuel from : ℕ)
    → 1 ≤ len needle
    → len haystack ≤ from
    → search_from p haystack needle fuel from ≡ false
unfolding search_from
search_past p haystack needle zero from l e = refl
search_past p haystack needle (suc fuel) from l e =
    let ends : index_of (slice haystack from (len haystack)) needle ≡ none =
      ap (λ s. index_of s needle) (slice_past haystack from e) ∙ index_of_empty needle l in
    rw (search_from, ends) refl

search_enough :
    (p : Patterns) (haystack needle : String) (more fuel from : ℕ)
    → 1 ≤ len needle
    → len haystack < fuel + from
    → search_from p haystack needle (fuel + more) from ≡ search_from p haystack needle fuel from
unfolding search_from
search_enough p haystack needle more zero from l e =
    search_past p haystack needle (0 + more) from l (omega arith) ∙ refl
search_enough p haystack needle more (suc fuel) from l e =
    let count_up : suc fuel + more ≡ suc (fuel + more) = omega arith in
    ap (λ k. search_from p haystack needle k from) count_up
    ∙ elim (Option-cases (index_of (slice haystack from (len haystack)) needle)) [
      | inl f ↦ rw (search_from, f) refl
      | inr (i, f) ↦
          rw (search_from, f)
            (ap (λ b. if is_negated p haystack (from + i) then b else true)
              (search_enough p haystack needle more fuel (from + i + len needle) l
                (omega (arith, e, l))))
    ]

-- For a needle that is not empty, more rounds than the haystack has bytes and one do not change the
-- answer of the search: the loop of containsNonNegated has ended by then.
pub search_from_ends :
    (p : Patterns) (haystack needle : String) (more : ℕ)
    → 1 ≤ len needle
    → search_from p haystack needle (suc (len haystack) + more) 0
      ≡ search_from p haystack needle (suc (len haystack)) 0
search_from_ends p haystack needle more l =
    search_enough p haystack needle more (suc (len haystack)) 0 l (omega arith)

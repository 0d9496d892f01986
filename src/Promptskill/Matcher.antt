-- ===== src/Promptskill/Matcher.antt =====
-- Which prompt skills a task brings into the prompt (internal/promptskill/matcher.go). Whether a keyword
-- stands at the beginning of a word of a text, and what a skill's own expressions match, are
-- parameters: they are regular expressions. sort.SliceStable is an insertion sort here, since a
-- stable sort has one result.
pub mod Ranking
pub mod Caps
mod Tests
use kyoci_agent.Prelude.{
  ℕ, zero, suc, ◌+◌, String, len, str_eq, Bool, true, false, not, ◌&&◌, ◌||◌, Option, none, some,
  List, [], ◌∷◌, ltb, leb, ◌==◌, if◌then◌else◌, length, map,
}
use kyoci_agent.Prelude.Int.{ℤ, pos, negsuc, int_ltb}
use kyoci_agent.Prelude.Text.{lower_text}

pub record PromptSkill : Type 0 where
  pub name : String
  pub keywords : List String
  pub regex : List String
  pub priority : String
  pub body : String

pub record MatchOptions : Type 0 where
  pub max_skills : ℤ
  pub max_total_chars : ℤ

pub record MatchResult : Type 0 where
  pub skill : PromptSkill
  pub score : ℕ

-- `begins_word text keyword`, and an expression on a text, none where it does not compile.
pub record Matchers : Type 0 where
  pub begins_word : String → String → Bool
  pub regex_matches : String → String → Option Bool

unfoldable pub keyword_hits : Matchers → String → List String → ℕ
keyword_hits m task_lower [] = 0
keyword_hits m task_lower (k ∷ ks) =
    let rest = keyword_hits m task_lower ks in
    if not (str_eq k "") && m.begins_word task_lower (lower_text k) then suc rest else rest

unfoldable pub regex_hit : Matchers → String → String → Bool
regex_hit m task pat =
    if str_eq pat ""
    then false
    else elim (m.regex_matches pat task) [ none ↦ false | some hit ↦ hit ]

unfoldable pub regex_hits : Matchers → String → List String → ℕ
unfolding regex_hit
regex_hits m task [] = 0
regex_hits m task (r ∷ rs) =
    let rest = regex_hits m task rs in if regex_hit m task r then suc rest else rest

unfoldable pub score_skill : Matchers → PromptSkill → String → ℕ
unfolding keyword_hits regex_hits
score_skill m s task = keyword_hits m (lower_text task) s.keywords + regex_hits m task s.regex

-- "low" has no case of its own.
unfoldable pub priority_rank : String → ℕ
priority_rank p = if str_eq (lower_text p) "high" then 2 else 1

unfoldable pub matching : Matchers → String → List PromptSkill → List MatchResult
unfolding score_skill
matching m task [] = []
matching m task (s ∷ ss) =
    let rest = matching m task ss in
    if ltb 0 (score_skill m s task)
    then record { skill = s; score = score_skill m s task } ∷ rest
    else rest

-- The order of the sort: by priority, then by score.
unfoldable pub comes_before : MatchResult → MatchResult → Bool
unfolding priority_rank
comes_before a b =
    if not (priority_rank a.skill.priority == priority_rank b.skill.priority)
    then ltb (priority_rank b.skill.priority) (priority_rank a.skill.priority)
    else ltb b.score a.score

-- In front of the first that does not come before it.
unfoldable pub insert_stable : MatchResult → List MatchResult → List MatchResult
unfolding comes_before
insert_stable r [] = r ∷ []
insert_stable r (x ∷ xs) =
    let rest = insert_stable r xs in if comes_before x r then x ∷ rest else r ∷ x ∷ xs

unfoldable pub sort_stable : List MatchResult → List MatchResult
unfolding insert_stable
sort_stable [] = []
sort_stable (r ∷ rs) = insert_stable r (sort_stable rs)

-- limit > 0 and the value is at least the limit, or beyond it
abbrev pub reaches : ℤ → ℕ → Bool
reaches limit n = int_ltb (pos 0) limit && not (int_ltb (pos n) limit)

abbrev pub passes_limit : ℤ → ℕ → Bool
passes_limit limit n = int_ltb (pos 0) limit && int_ltb limit (pos n)

-- The loop, with the number and the length of what was taken.
unfoldable pub take_capped : MatchOptions → ℕ → ℕ → List MatchResult → List PromptSkill
take_capped opts taken total [] = []
take_capped opts taken total (r ∷ rs) =
    let rest = take_capped opts (suc taken) (total + len r.skill.body) rs in
    if reaches opts.max_skills taken
    then []
    else if passes_limit opts.max_total_chars (total + len r.skill.body) && ltb 0 taken
    then []
    else r.skill ∷ rest

-- nil and an empty result are both [].
unfoldable pub match_skills : Matchers → List PromptSkill → String → MatchOptions → List PromptSkill
unfolding matching sort_stable take_capped
match_skills m skills task opts = take_capped opts 0 0 (sort_stable (matching m task skills))

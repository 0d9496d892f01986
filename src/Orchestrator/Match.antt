-- ===== src/Orchestrator/Match.antt =====
-- The choice of an agent for a task (internal/agentdef/match.go): scores from triggers, and the best
-- candidate. What a regular expression matches is a parameter: the negation test on the text before a
-- trigger, and the triggers' own expressions, which may not compile. Triggers are ASCII
-- texts, as those of the agents directory are.
pub mod Best
pub mod Search
mod Tests
use Prim.Native.String.{slice}
use kyoci_agent.Prelude.{
  ℕ, zero, suc, ◌+◌, ◌-◌, ◌*◌, String, len, str_eq, Bool, true, false, not, ◌&&◌, ◌||◌, Option,
  none, some, List, [], ◌∷◌, any, ltb, ◌==◌, if◌then◌else◌, length,
}
use kyoci_agent.Prelude.Text.{trim_space, lower_text, index_of}

pub record TriggerSpec : Type 0 where
  pub keywords : List String
  pub anchors : List String
  pub regex : List String

-- The fields that the match reads.
pub record AgentDef : Type 0 where
  pub name : String
  pub triggers : TriggerSpec
  pub priority : String

pub record Patterns : Type 0 where
  pub negation_re : String → Bool
  pub regex_matches : String → String → Option Bool

unfoldable pub is_negated : Patterns → String → ℕ → Bool
is_negated p task_lower idx = p.negation_re (slice task_lower (idx - 32) idx)

-- The loop over the occurrences of the needle, with as many rounds as the haystack has bytes and one
-- more: each round goes on behind an occurrence, which is not empty.
unfoldable pub search_from : Patterns → String → String → ℕ → ℕ → Bool
unfolding is_negated
search_from p haystack needle zero from = false
search_from p haystack needle (suc fuel) from =
    elim (index_of (slice haystack from (len haystack)) needle) [
      | none ↦ false
      | some i ↦
          (let later = search_from p haystack needle fuel (from + i + len needle) in
            if is_negated p haystack (from + i) then later else true)
    ]

unfoldable pub contains_non_negated : Patterns → String → String → Bool
unfolding search_from
contains_non_negated p haystack needle =
    if str_eq (lower_text needle) ""
    then false
    else search_from p haystack (lower_text needle) (suc (len haystack)) 0

-- How many terms fire.
unfoldable pub count_terms : Patterns → String → List String → ℕ
unfolding contains_non_negated
count_terms p task_lower [] = 0
count_terms p task_lower (t ∷ ts) =
    let rest = count_terms p task_lower ts in
    if not (str_eq t "") && contains_non_negated p task_lower t then suc rest else rest

unfoldable pub regex_fires : Patterns → String → String → Bool
regex_fires p task pat =
    if str_eq pat ""
    then false
    else elim (p.regex_matches pat task) [ none ↦ false | some hit ↦ hit ]

unfoldable pub count_regex : Patterns → String → List String → ℕ
unfolding regex_fires
count_regex p task [] = 0
count_regex p task (r ∷ rs) =
    let rest = count_regex p task rs in if regex_fires p task r then suc rest else rest

unfoldable pub match_score : Patterns → AgentDef → String → ℕ
unfolding count_terms count_regex
match_score p def task =
    if length def.triggers.keywords == 0
      && length def.triggers.anchors == 0
      && length def.triggers.regex == 0
    then 0
    else count_terms p (lower_text task) def.triggers.keywords
      + 3 * count_terms p (lower_text task) def.triggers.anchors
      + count_regex p task def.triggers.regex

unfoldable pub priority_rank : String → ℕ
priority_rank priority =
    let p = lower_text (trim_space priority) in
    if str_eq p "high" then 2 else if str_eq p "low" then 0 else 1

abbrev pub min_specialist_score : ℕ
min_specialist_score = 2

pub record Cand : Type 0 where
  pub def : AgentDef
  pub score : ℕ
  pub rank : ℕ
  pub load_order : ℕ

unfoldable pub candidates : Patterns → String → ℕ → List AgentDef → List Cand
unfolding match_score priority_rank
candidates p task i [] = []
candidates p task i (d ∷ ds) =
    record {
      def = d;
      score = match_score p d task;
      rank = priority_rank d.priority;
      load_order = i;
    }
    ∷ candidates p task (suc i) ds

-- Whether a candidate replaces the current one.
unfoldable pub replaces : Cand → Cand → Bool
replaces c cur =
    if not (c.score == cur.score)
    then ltb cur.score c.score
    else if not (c.rank == cur.rank)
    then ltb cur.rank c.rank
    else ltb c.load_order cur.load_order

unfoldable pub consider : Option Cand → Cand → Option Cand
unfolding replaces
consider best c =
    if ltb c.score min_specialist_score
    then best
    else elim best [ none ↦ some c | some cur ↦ if replaces c cur then some c else some cur ]

unfoldable pub pick : Option Cand → List Cand → Option Cand
unfolding consider
pick best [] = best
pick best (c ∷ cs) = pick (consider best c) cs

-- "generalist" if it is loaded, else the first agent.
unfoldable pub fallback : AgentDef → List AgentDef → String
fallback first defs =
    if any (λ d. str_eq d.name "generalist") defs then "generalist" else first.name

unfoldable pub best_match : Patterns → String → List AgentDef → String
unfolding candidates pick fallback
best_match p task [] = ""
best_match p task (first ∷ rest) = elim (pick none (candidates p task 0 (first ∷ rest))) [
  | none ↦ fallback first (first ∷ rest)
  | some c ↦ c.def.name
]

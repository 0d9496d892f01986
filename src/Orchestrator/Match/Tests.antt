-- ===== src/Orchestrator/Match/Tests.antt =====
-- Runs of the match (internal/agentdef/match.go), and an instance of its theorem.
use mathlib.Core.List.{Memᴰ}
use kyoci_agent.Prelude.{str_eq, ◌≡◌, refl, ◌⊎◌, true, false, none, [], ◌∷◌, ltb, All}
use kyoci_agent.Prelude.Text.{index_of, trim_space, lower_text}
use kyoci_agent.Orchestrator.Match.{
  AgentDef, Patterns, Cand, is_negated, search_from, contains_non_negated, count_terms, count_regex,
  regex_fires, match_score, priority_rank, candidates, replaces, consider, pick, fallback,
  best_match, min_specialist_score,
}
use kyoci_agent.Orchestrator.Match.Best.{yields_to, best_match_best}

-- Only "no " negates, and no expression compiles.
abbrev plain : Patterns
plain = record { negation_re = λ w. str_eq w "no "; regex_matches = λ pat task. none }

abbrev generalist : AgentDef
generalist = record {
  name = "generalist";
  triggers = record { keywords = []; anchors = []; regex = [] };
  priority = "";
}

abbrev frontend : AgentDef
frontend = record {
  name = "frontend";
  triggers = record { keywords = "page" ∷ []; anchors = "HTML" ∷ []; regex = "(" ∷ [] };
  priority = " High ";
}

frontend_wins : best_match plain "An html page" (generalist ∷ frontend ∷ []) ≡ "frontend"
unfolding index_of best_match candidates match_score count_terms count_regex regex_fires
    contains_non_negated search_from is_negated priority_rank pick consider replaces lower_text
    trim_space fallback
frontend_wins = refl

negated_anchor : best_match plain "no html" (generalist ∷ frontend ∷ []) ≡ "generalist"
unfolding index_of best_match candidates match_score count_terms count_regex regex_fires
    contains_non_negated search_from is_negated priority_rank pick consider replaces lower_text
    trim_space fallback
negated_anchor = refl

best_match_best_example :
    ((w : Cand) × (best_match plain "An html page" (generalist ∷ frontend ∷ []) ≡ w.def.name)
      × Memᴰ w (candidates plain "An html page" 0 (generalist ∷ frontend ∷ []))
      × (ltb w.score min_specialist_score ≡ false)
      × All
          (λ c. yields_to c w ≡ true)
          (candidates plain "An html page" 0 (generalist ∷ frontend ∷ [])))
    ⊎ ((best_match plain "An html page" (generalist ∷ frontend ∷ [])
          ≡ fallback generalist (generalist ∷ frontend ∷ []))
        × All
            (λ c. ltb c.score min_specialist_score ≡ true)
            (candidates plain "An html page" 0 (generalist ∷ frontend ∷ [])))
best_match_best_example = best_match_best plain "An html page" generalist (frontend ∷ [])

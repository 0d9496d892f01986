-- ===== src/Skill/Distance/Tests.antt =====
-- Runs of the distances (internal/skill/builtin/text.go), and their theorems at two words.
use kyoci_agent.Prelude.{ℕ, ◌≤◌, ◌≡◌, refl, List, [], ◌∷◌}
use kyoci_agent.Prelude.Int.{negsuc}
use kyoci_agent.Skill.Distance.{levenshtein, hamming_distance}
use kyoci_agent.Skill.Distance.Script.{Script, cost}
use kyoci_agent.Skill.Distance.Rows.{levenshtein_least}

-- Two words at distance 2.
abbrev kitten : List ℕ
kitten = 107 ∷ 105 ∷ 116 ∷ 116 ∷ 101 ∷ 110 ∷ []

abbrev smitten : List ℕ
smitten = 115 ∷ 109 ∷ 105 ∷ 116 ∷ 116 ∷ 101 ∷ 110 ∷ []

levenshtein_run : levenshtein kitten smitten ≡ 2
unfolding levenshtein
levenshtein_run = refl

hamming_run : hamming_distance kitten smitten ≡ negsuc 0
unfolding hamming_distance
hamming_run = refl

levenshtein_least_example :
    ((e : Script kitten smitten) × (cost e ≡ levenshtein kitten smitten))
    × ((e : Script kitten smitten) → levenshtein kitten smitten ≤ cost e)
levenshtein_least_example = levenshtein_least kitten smitten

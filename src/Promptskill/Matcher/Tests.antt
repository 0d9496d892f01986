-- ===== src/Promptskill/Matcher/Tests.antt =====
-- Runs of the matcher (internal/promptskill/matcher.go), and instances of its theorems.
use kyoci_agent.Prelude.{◌≤◌, ◌≡◌, refl, ◌⊎◌, none, [], ◌∷◌, length}
use kyoci_agent.Prelude.Int.{pos}
use kyoci_agent.Prelude.Text.{lower_text, has_prefix}
use kyoci_agent.Promptskill.Matcher.{
  PromptSkill, MatchOptions, Matchers, keyword_hits, regex_hit, regex_hits, score_skill,
  priority_rank, matching, comes_before, insert_stable, sort_stable, take_capped, match_skills,
}
use kyoci_agent.Promptskill.Matcher.Caps.{total_chars, match_skills_capped}

-- Keywords at the beginning of the task only, and no expression compiles.
abbrev at_start : Matchers
at_start = record { begins_word = λ text k. has_prefix text k; regex_matches = λ pat task. none }

abbrev git_skill : PromptSkill
git_skill = record {
  name = "git";
  keywords = "GIT" ∷ "svn" ∷ [];
  regex = [];
  priority = "normal";
  body = "use git";
}

abbrev log_skill : PromptSkill
log_skill = record {
  name = "log";
  keywords = "git log" ∷ [];
  regex = "(" ∷ [];
  priority = "High";
  body = "use log";
}

abbrev one_of_ten : MatchOptions
one_of_ten = record { max_skills = pos 5; max_total_chars = pos 10 }

log_only :
    match_skills at_start (git_skill ∷ log_skill ∷ []) "Git log -p" one_of_ten ≡ log_skill ∷ []
unfolding match_skills matching score_skill keyword_hits regex_hits regex_hit sort_stable
    insert_stable comes_before priority_rank take_capped lower_text
log_only = refl

match_skills_capped_example :
    (length (match_skills at_start (git_skill ∷ log_skill ∷ []) "Git log -p" one_of_ten) ≤ 5)
    × ((total_chars (match_skills at_start (git_skill ∷ log_skill ∷ []) "Git log -p" one_of_ten)
          ≤ 10)
        ⊎ (length (match_skills at_start (git_skill ∷ log_skill ∷ []) "Git log -p" one_of_ten) ≤ 1))
match_skills_capped_example =
    match_skills_capped at_start (git_skill ∷ log_skill ∷ []) "Git log -p" one_of_ten 4 9 refl refl

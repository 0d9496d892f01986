-- ===== src/Promptskill/Matcher/Caps.antt =====
-- The caps on the matched skills (internal/promptskill/matcher.go).
use kyoci_agent.Prelude.{
  ℕ, suc, ◌+◌, ◌≤◌, ◌<◌, String, len, ◌≡◌, refl, ◌⊎◌, inl, inr, true, ◌&&◌, List, [], ◌∷◌, arith,
  Bool-cases, ltb, length,
}
use kyoci_agent.Prelude.Int.{pos}
use kyoci_agent.Promptskill.Matcher.{
  PromptSkill, MatchOptions, MatchResult, Matchers, reaches, passes_limit, take_capped,
  match_skills, matching, sort_stable,
}

unfoldable pub total_chars : List PromptSkill → ℕ
total_chars [] = 0
total_chars (s ∷ ss) = len s.body + total_chars ss

take_capped-count :
    (opts : MatchOptions) (taken total : ℕ) (rs : List MatchResult) (cap : ℕ)
    → opts.max_skills ≡ pos (suc cap)
    → taken ≤ suc cap
    → taken + length (take_capped opts taken total rs) ≤ suc cap
unfolding take_capped
take_capped-count opts taken total [] cap e l = omega arith
take_capped-count opts taken total (r ∷ rs) cap e l =
    elim (Bool-cases (reaches opts.max_skills taken)) [
      | inl b ↦ rw b (omega arith)
      | inr b ↦
          (let small : taken ≤ cap = ground (arith, b, e) in
            elim (Bool-cases
              (passes_limit opts.max_total_chars (total + len r.skill.body) && ltb 0 taken)) [
                | inl c ↦ rw (b, c) (omega arith)
                | inr c ↦
                    rw (b, c)
                      (omega (
                        arith,
                        take_capped-count opts (suc taken) (total + len r.skill.body) rs cap e
                            (omega arith),
                      ))
              ])
    ]

-- Behind the first, the length stays within the cap.
take_capped-chars :
    (opts : MatchOptions) (taken total : ℕ) (rs : List MatchResult) (cap : ℕ)
    → opts.max_total_chars ≡ pos (suc cap)
    → total ≤ suc cap
    → total + total_chars (take_capped opts (suc taken) total rs) ≤ suc cap
unfolding take_capped total_chars
take_capped-chars opts taken total [] cap e l = omega arith
take_capped-chars opts taken total (r ∷ rs) cap e l =
    elim (Bool-cases (reaches opts.max_skills (suc taken))) [
      | inl b ↦ rw b (omega arith)
      | inr b ↦
          elim (Bool-cases
            (passes_limit opts.max_total_chars (total + len r.skill.body) && ltb 0 (suc taken))) [
              | inl c ↦ rw (b, c) (omega arith)
              | inr c ↦
                  (let fits : total + len r.skill.body ≤ suc cap = ground (arith, c, e) in
                    rw (b, c)
                      (omega (
                        arith,
                        take_capped-chars opts (suc taken) (total + len r.skill.body) rs cap e fits,
                      )))
            ]
    ]

-- A total beyond the cap takes nothing more.
take_capped-full :
    (opts : MatchOptions) (taken total : ℕ) (rs : List MatchResult) (cap : ℕ)
    → opts.max_total_chars ≡ pos (suc cap)
    → suc cap < total
    → take_capped opts (suc taken) total rs ≡ []
unfolding take_capped
take_capped-full opts taken total [] cap e l = refl
take_capped-full opts taken total (r ∷ rs) cap e l =
    let over : passes_limit opts.max_total_chars (total + len r.skill.body) ≡ true =
      ground (arith, e, l) in
    rw over (ground arith)

first_or_within :
    (opts : MatchOptions) (rs : List MatchResult) (cap : ℕ)
    → opts.max_total_chars ≡ pos (suc cap)
    → (total_chars (take_capped opts 0 0 rs) ≤ suc cap) ⊎ (length (take_capped opts 0 0 rs) ≤ 1)
unfolding take_capped total_chars
first_or_within opts [] cap e = inl (omega arith)
first_or_within opts (r ∷ rs) cap e = elim (Bool-cases (reaches opts.max_skills 0)) [
  | inl b ↦ inl (rw b (omega arith))
  | inr b ↦ elim (Bool-cases (ltb (suc cap) (len r.skill.body))) [
    | inl o ↦ inr (
        rw b (
          ground
            (arith, take_capped-full opts 0 (0 + len r.skill.body) rs cap e (ground (arith, o)))))
    | inr o ↦ inl (
        rw b (
          ground (
            arith,
            o,
            take_capped-chars opts 0 (0 + len r.skill.body) rs cap e (ground (arith, o)),
          )))
  ]
]

-- With positive caps, a task brings at most `max_skills` skills, and either their bodies keep to
-- `max_total_chars` or there is only one skill.
pub match_skills_capped :
    (m : Matchers) (skills : List PromptSkill) (task : String) (opts : MatchOptions)
    (count chars : ℕ)
    → opts.max_skills ≡ pos (suc count)
    → opts.max_total_chars ≡ pos (suc chars)
    → (length (match_skills m skills task opts) ≤ suc count)
      × ((total_chars (match_skills m skills task opts) ≤ suc chars)
          ⊎ (length (match_skills m skills task opts) ≤ 1))
unfolding match_skills
match_skills_capped m skills task opts count chars c e = (
  omega (
    arith,
    take_capped-count opts 0 0 (sort_stable (matching m task skills)) count c (omega arith),
  ),
  first_or_within opts (sort_stable (matching m task skills)) chars e,
)

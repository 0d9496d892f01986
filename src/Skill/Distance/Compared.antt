-- ===== src/Skill/Distance/Compared.antt =====
-- The distances of levenshtein and hammingDistance (internal/skill/builtin) beside each other.
use kyoci_agent.Prelude.{
  ℕ, ◌≤◌, ◌≡◌, ◌≢◌, ◌⊎◌, refl, List, [], ◌∷◌, ◌==◌, ==_iff, length, arith, Bool-cases, inl, inr,
}
use kyoci_agent.Prelude.Int.{pos, negsuc}
use kyoci_agent.Skill.Distance.{levenshtein, hamming_distance, count_differences}
use kyoci_agent.Skill.Distance.Script.{Script, done, change, cost}
use kyoci_agent.Skill.Distance.Rows.{levenshtein_least}

changes :
    (ra rb : List ℕ)
    → length ra ≡ length rb
    → (e : Script ra rb) × (cost e ≡ count_differences ra rb)
unfolding cost count_differences
changes [] [] h = (done, refl)
changes [] (b ∷ rb) h = absurd (omega arith)
changes (a ∷ ra) [] h = absurd (omega arith)
changes (a ∷ ra) (b ∷ rb) h =
    let (e, k) = changes ra rb (omega arith) in (change a b e, ground (arith, k))

-- hammingDistance is -1 exactly for texts of different lengths; for texts of one length it is never
-- smaller than levenshtein.
pub levenshtein-le-hamming_distance :
    (ra rb : List ℕ)
    → ((hamming_distance ra rb ≡ negsuc 0) × (length ra ≢ length rb))
      ⊎ ((d : ℕ) × (hamming_distance ra rb ≡ pos d)
          × (length ra ≡ length rb)
          × (levenshtein ra rb ≤ d))
unfolding hamming_distance
levenshtein-le-hamming_distance ra rb = elim (Bool-cases (length ra == length rb)) [
  | inr e ↦ inl (rw e refl, λ same. ground (arith, e, same))
  | inl e ↦
      (let same = (==_iff _ _).0 e in
        let (script, k) = changes ra rb same in
        inr (
          count_differences ra rb,
          rw e refl,
          same,
          omega (arith, k, (levenshtein_least ra rb).1 script),
        ))
]

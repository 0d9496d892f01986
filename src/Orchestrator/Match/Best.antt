-- ===== src/Orchestrator/Match/Best.antt =====
-- Which candidate BestMatch takes (internal/agentdef/match.go).
use mathlib.Core.List.{Memᴰ}
use kyoci_agent.Prelude.{
  String, ◌≡◌, refl, ◌∙◌, ◌⊎◌, inl, inr, Bool, true, false, ◌&&◌, ◌||◌, Option, none, some, List,
  [], ◌∷◌, arith, Bool-cases, ltb, leb, ◌==◌, if◌then◌else◌, All,
}
use kyoci_agent.Orchestrator.Match.{
  AgentDef, Patterns, Cand, candidates, replaces, consider, pick, fallback, best_match,
  min_specialist_score,
}

-- No specialist, or no better than another: by score, then by priority, then by the order of loading.
abbrev pub yields_to : Cand → Cand → Bool
yields_to c w =
    ltb c.score min_specialist_score
    || ltb c.score w.score
    || (c.score == w.score
        && (ltb c.rank w.rank || (c.rank == w.rank && leb w.load_order c.load_order)))

yields_to_refl : (c : Cand) → yields_to c c ≡ true
yields_to_refl c = ground arith

yields_to_trans :
    (a b c : Cand)
    → yields_to a b ≡ true
    → yields_to b c ≡ true
    → ltb b.score min_specialist_score ≡ false
    → yields_to a c ≡ true
yields_to_trans a b c h g l = ground arith

replaces-cases :
    (c cur : Cand) → (if replaces c cur then yields_to cur c else yields_to c cur) ≡ true
unfolding replaces
replaces-cases c cur = ground arith

-- The best so far yields to w.
abbrev IsBefore : Option Cand → Cand → Type 0
IsBefore none w = Unit
IsBefore (some b) w = yields_to b w ≡ true

abbrev IsQualified : Option Cand → Type 0
IsQualified none = Unit
IsQualified (some b) = ltb b.score min_specialist_score ≡ false

-- What the next best is, for the best so far and a candidate.
abbrev IsNext : Option Cand → Cand → Option Cand → Type 0
IsNext best c none = (best ≡ none) × (ltb c.score min_specialist_score ≡ true)
IsNext best c (some d) =
    (ltb d.score min_specialist_score ≡ false)
    × (yields_to c d ≡ true)
    × IsBefore best d
    × ((d ≡ c) ⊎ (best ≡ some d))

consider-IsNext :
    (best : Option Cand) (c : Cand) → IsQualified best → IsNext best c (consider best c)
unfolding consider
consider-IsNext none c q = elim (Bool-cases (ltb c.score min_specialist_score)) [
  | inl e ↦ rw e (refl, e)
  | inr e ↦ rw e (e, yields_to_refl c, tt, inl refl)
]
consider-IsNext (some b) c q = elim (Bool-cases (ltb c.score min_specialist_score)) [
  | inl e ↦ rw e (q, ground (arith, e), yields_to_refl b, inr refl)
  | inr e ↦ elim (Bool-cases (replaces c b)) [
    | inl r ↦ rw (e, r) (e, yields_to_refl c, rw r at (replaces-cases c b), inl refl)
    | inr r ↦ rw (e, r) (q, rw r at (replaces-cases c b), yields_to_refl b, inr refl)
  ]
]

-- What picking gives: nobody, when nobody qualifies, or the candidate to which all others yield.
abbrev IsPicked : Option Cand → List Cand → Option Cand → Type 0
IsPicked best cs none = (best ≡ none) × All (λ c. ltb c.score min_specialist_score ≡ true) cs
IsPicked best cs (some w) =
    (ltb w.score min_specialist_score ≡ false)
    × All (λ c. yields_to c w ≡ true) cs
    × IsBefore best w
    × (Memᴰ w cs ⊎ (best ≡ some w))

IsBefore-trans :
    (best : Option Cand) (d w : Cand)
    → IsBefore best d
    → yields_to d w ≡ true
    → ltb d.score min_specialist_score ≡ false
    → IsBefore best w
IsBefore-trans none d w h g l = tt
IsBefore-trans (some b) d w h g l = yields_to_trans b d w h g l

IsPicked-step :
    (best next r : Option Cand) (c : Cand) (cs : List Cand)
    → IsNext best c next
    → IsPicked next cs r
    → IsPicked best (c ∷ cs) r
IsPicked-step best none none c cs (e, l) (f, all) = (e, (l, all))
IsPicked-step best none (some w) c cs (e, l) (q, all, b, m) =
    (q, (ground (arith, l), all), rw e tt, elim m [ inl x ↦ inl (Memᴰ.tail x) | inr x ↦ cc ])
IsPicked-step best (some d) none c cs k (f, all) = cc
IsPicked-step best (some d) (some w) c cs (qd, cd, bd, from) (q, all, dw, m) = (
  q,
  (yields_to_trans c d w cd dw qd, all),
  IsBefore-trans best d w bd dw qd,
  elim m [
    | inl x ↦ inl (Memᴰ.tail x)
    | inr x ↦ elim from [ inl y ↦ inl (Memᴰ.head (cc)) | inr y ↦ inr (y ∙ x) ]
  ],
)

IsNext-IsQualified :
    (best : Option Cand) (c : Cand) (next : Option Cand) → IsNext best c next → IsQualified next
IsNext-IsQualified best c none k = tt
IsNext-IsQualified best c (some d) k = k.0

pick-IsPicked :
    (best : Option Cand) (cs : List Cand) → IsQualified best → IsPicked best cs (pick best cs)
unfolding pick
pick-IsPicked none [] q = (refl, tt)
pick-IsPicked (some b) [] q = (q, tt, yields_to_refl b, inr refl)
pick-IsPicked best (c ∷ cs) q =
    let k = consider-IsNext best c q in
    IsPicked-step best (consider best c) (pick (consider best c) cs) c cs k
      (pick-IsPicked (consider best c) cs (IsNext-IsQualified best c (consider best c) k))

-- For a list of agents that is not empty, BestMatch names a candidate with a score of at least 2 to which
-- all others yield (by score, then by priority, then by the order of loading), or no candidate has such
-- a score and it names the generalist, or the first agent where none is loaded.
pub best_match_best :
    (p : Patterns) (task : String) (first : AgentDef) (rest : List AgentDef)
    → ((w : Cand) × (best_match p task (first ∷ rest) ≡ w.def.name)
        × Memᴰ w (candidates p task 0 (first ∷ rest))
        × (ltb w.score min_specialist_score ≡ false)
        × All (λ c. yields_to c w ≡ true) (candidates p task 0 (first ∷ rest)))
      ⊎ ((best_match p task (first ∷ rest) ≡ fallback first (first ∷ rest))
          × All (λ c. ltb c.score min_specialist_score ≡ true) (candidates p task 0 (first ∷ rest)))
unfolding best_match
best_match_best p task first rest =
    go (pick none (candidates p task 0 (first ∷ rest))) refl
      (pick-IsPicked none (candidates p task 0 (first ∷ rest)) tt)
  where
    go :
        (r : Option Cand)
        → pick none (candidates p task 0 (first ∷ rest)) ≡ r
        → IsPicked none (candidates p task 0 (first ∷ rest)) r
        → ((w : Cand) × (best_match p task (first ∷ rest) ≡ w.def.name)
            × Memᴰ w (candidates p task 0 (first ∷ rest))
            × (ltb w.score min_specialist_score ≡ false)
            × All (λ c. yields_to c w ≡ true) (candidates p task 0 (first ∷ rest)))
          ⊎ ((best_match p task (first ∷ rest) ≡ fallback first (first ∷ rest))
              × All
                  (λ c. ltb c.score min_specialist_score ≡ true)
                  (candidates p task 0 (first ∷ rest)))
    go none e (x, all) = inr (rw (best_match, e) refl, all)
    go (some w) e (q, all, b, m) =
        inl (w, rw (best_match, e) refl, elim m [ inl x ↦ x | inr x ↦ cc ], q, all)

-- ===== src/Skill/Distance/Rows.antt =====
-- The table of levenshtein (internal/skill/builtin/text.go) holds the costs of edit scripts.
use mathlib.Core.List.{reverse, reverse-cons, reverse-reverse, append-nil, append_assoc}
use kyoci_agent.Prelude.{
  ℕ, suc, ◌≤◌, ◌≡◌, refl, sym, ap, subst, ◌∙◌, List, [], ◌∷◌, ◌++◌, length, length-append, arith,
}
use kyoci_agent.Skill.Distance.{fill_cells, next_row, rows_from, first_row, last_of, levenshtein}
use kyoci_agent.Skill.Distance.Script.{
  Script, cost, distance, distance-nil, distance-le-cost, cheapest, reversed,
}

-- The row for the reversed front u of the first text, from column v on, the reversed front of the
-- second; t is the rest of the second text.
row : List ℕ → List ℕ → List ℕ → List ℕ
row u v [] = distance u v ∷ []
row u v (b ∷ t) = distance u v ∷ row u (b ∷ v) t

row_rest : List ℕ → List ℕ → List ℕ → List ℕ
row_rest u v [] = []
row_rest u v (b ∷ t) = row u (b ∷ v) t

row-cons : (u v t : List ℕ) → row u v t ≡ distance u v ∷ row_rest u v t
unfolding row row_rest
row-cons u v [] = refl
row-cons u v (b ∷ t) = refl

first_row_lem : (v t : List ℕ) → first_row (length v) t ≡ row [] v t
unfolding first_row row distance
first_row_lem v [] = refl
first_row_lem v (b ∷ t) = ap (λ rest. length v ∷ rest) (first_row_lem (b ∷ v) t)

fill_cells_lem :
    (a : ℕ) (u v t : List ℕ)
    → fill_cells a (distance (a ∷ u) v) (distance u v) (row_rest u v t) t ≡ row_rest (a ∷ u) v t
unfolding row_rest fill_cells distance
fill_cells_lem a u v [] = refl
fill_cells_lem a u v (b ∷ t) =
    rw (row-cons u (b ∷ v) t, row-cons (a ∷ u) (b ∷ v) t)
      (ap (λ rest. distance (a ∷ u) (b ∷ v) ∷ rest) (fill_cells_lem a u (b ∷ v) t))

next_row_lem :
    (a : ℕ) (u t : List ℕ) → next_row a (suc (length u)) (row u [] t) t ≡ row (a ∷ u) [] t
unfolding next_row
next_row_lem a u t =
    ap (λ r. next_row a (suc (length u)) r t) (row-cons u [] t)
    ∙ ap (λ i. i ∷ fill_cells a i (distance u []) (row_rest u [] t) t) (sym (distance-nil (a ∷ u)))
    ∙ ap (λ rest. distance (a ∷ u) [] ∷ rest) (fill_cells_lem a u [] t)
    ∙ sym (row-cons (a ∷ u) [] t)

rows_from_lem :
    (u rs t : List ℕ) → rows_from (suc (length u)) (row u [] t) rs t ≡ row (reverse rs ++ u) [] t
unfolding rows_from
rows_from_lem u [] t = refl
rows_from_lem u (a ∷ rs) t =
    ap (λ r. rows_from (suc (suc (length u))) r rs t) (next_row_lem a u t)
    ∙ rows_from_lem (a ∷ u) rs t
    ∙ ap (λ w. row w [] t)
        (sym (ap (λ w. w ++ u) (reverse-cons a rs) ∙ append_assoc (reverse rs) (a ∷ []) u))

last_of-row : (u v t : List ℕ) → last_of (row u v t) ≡ distance u (reverse t ++ v)
unfolding row
last_of-row u v [] = refl
last_of-row u v (b ∷ []) = refl
last_of-row u v (b ∷ c ∷ t) =
    last_of-row u (b ∷ v) (c ∷ t)
    ∙ ap (distance u) (
        sym (ap (λ w. w ++ v) (reverse-cons b (c ∷ t)) ∙ append_assoc (reverse (c ∷ t)) (b ∷ []) v))

length-reverse : (t : List ℕ) → length (reverse t) ≡ length t
length-reverse [] = refl
length-reverse (b ∷ t) =
    ap length (reverse-cons b t)
    ∙ length-append (reverse t) (b ∷ [])
    ∙ omega (arith, length-reverse t)

pub levenshtein-distance : (rs rt : List ℕ) → levenshtein rs rt ≡ distance (reverse rs) (reverse rt)
unfolding levenshtein distance
levenshtein-distance [] rt = sym (length-reverse rt)
levenshtein-distance (a ∷ rs) [] =
    sym (length-reverse (a ∷ rs)) ∙ sym (distance-nil (reverse (a ∷ rs)))
levenshtein-distance (a ∷ rs) (b ∷ rt) =
    ap (λ r. last_of (rows_from 1 r (a ∷ rs) (b ∷ rt))) (first_row_lem [] (b ∷ rt))
    ∙ ap last_of (rows_from_lem [] (a ∷ rs) (b ∷ rt))
    ∙ last_of-row (reverse (a ∷ rs) ++ []) [] (b ∷ rt)
    ∙ ap (λ w. distance w (reverse (b ∷ rt) ++ [])) (append-nil (reverse (a ∷ rs)))
    ∙ ap (distance (reverse (a ∷ rs))) (append-nil (reverse (b ∷ rt)))

-- The table of levenshtein gives the least cost of an edit script: some script that turns the first
-- text into the second costs that much, and no script costs less.
pub levenshtein_least :
    (rs rt : List ℕ)
    → ((e : Script rs rt) × (cost e ≡ levenshtein rs rt))
      × ((e : Script rs rt) → levenshtein rs rt ≤ cost e)
levenshtein_least rs rt =
    let (e, h) = cheapest (reverse rs) (reverse rt) in
    let (f, k) = reversed e in
    let found : cost f ≡ levenshtein rs rt = k ∙ h ∙ sym (levenshtein-distance rs rt) in
    (
      subst (λ s. (g : Script s rt) × (cost g ≡ levenshtein rs rt)) (reverse-reverse rs)
          (subst (λ t. (g : Script (reverse (reverse rs)) t) × (cost g ≡ levenshtein rs rt))
            (reverse-reverse rt) (f, found)),
      λ g.
          (let (back, same) = reversed g in
            omega (arith, levenshtein-distance rs rt, distance-le-cost back, same)),
    )

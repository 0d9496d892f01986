-- ===== src/Skill/Vin/Sum.antt =====
-- The sum of a vehicle identification number (internal/skill/builtin/barcodes.go) when one of its
-- characters changes.
use kyoci_agent.Prelude.{
  ℕ, suc, ◌+◌, ◌*◌, ◌≤◌, ◌≡◌, refl, sym, subst, ◌∙◌, Bool, true, none, some, List, [], ◌∷◌, ◌++◌,
  ◌⊎◌, inl, inr, arith, length, leb, get_elem?, Option-cases, eq_ℕ, ◌&&◌,
}
use kyoci_agent.Prelude.Map.{lookup}
use kyoci_agent.Skill.Vin.{value_of, vin_translit, add_values}

module _ (i c w s : ℕ) (cs ws : List ℕ) where
  add_values-some :
      (v : ℕ)
      → value_of c ≡ some v
      → add_values i (c ∷ cs) (w ∷ ws) s ≡ add_values (suc i) cs ws (s + v * w)
  unfolding add_values
  add_values-some v h = rw (h, add_values) refl

  add_values-none : value_of c ≡ none → add_values i (c ∷ cs) (w ∷ ws) s ≡ inl (c, suc i)
  unfolding add_values
  add_values-none h = rw (h, add_values) refl

  -- Where there is a sum, the first character has a value.
  add_values_cons :
      (r : ℕ)
      → add_values i (c ∷ cs) (w ∷ ws) s ≡ inr r
      → (v : ℕ) × (value_of c ≡ some v) × (add_values (suc i) cs ws (s + v * w) ≡ inr r)
  add_values_cons r e = elim (Option-cases (value_of c)) [
    | inl n ↦ absurd (ground (arith, sym (add_values-none n) ∙ e))
    | inr (v, h) ↦ (v, h, sym (add_values-some v h) ∙ e)
  ]

-- The sum depends on where it starts only by the difference.
add_values_from :
    (i : ℕ) (cs ws : List ℕ) (s t r : ℕ)
    → add_values i cs ws s ≡ inr r
    → (q : ℕ) × (add_values i cs ws t ≡ inr q) × (q + s ≡ r + t)
unfolding add_values
add_values_from i [] ws s t r e = (t, refl, ground (arith, e))
add_values_from i (c ∷ cs) [] s t r e = (t, refl, ground (arith, e))
add_values_from i (c ∷ cs) (w ∷ ws) s t r e =
    let (v, h, rest) = add_values_cons i c w s cs ws r e in
    let (q, f, same) = add_values_from (suc i) cs ws (s + v * w) (t + v * w) r rest in
    (q, add_values-some i c w t cs ws v h ∙ f, omega (arith, same))

inr_injective : (q r : ℕ) (o : (ℕ × ℕ) ⊎ ℕ) → o ≡ inr q → o ≡ inr r → q ≡ r
inr_injective q r o e f = ground (arith, sym e ∙ f)

-- What the sums of two texts that differ in one character of weight w say about its values.
pub add_values_hole :
    (i : ℕ) (xs ys ws : List ℕ) (a b w s q r : ℕ)
    → get_elem? ws (length xs) ≡ some w
    → add_values i (xs ++ a ∷ ys) ws s ≡ inr q
    → add_values i (xs ++ b ∷ ys) ws s ≡ inr r
    → (v : ℕ) × (u : ℕ) × (value_of a ≡ some v) × (value_of b ≡ some u) × (q + u * w ≡ r + v * w)
add_values_hole i [] ys [] a b w s q r h e f = absurd (ground (arith, h))
add_values_hole i [] ys (w' ∷ ws) a b w s q r h e f =
    let (v, va, rest_a) = add_values_cons i a w' s ys ws q e in
    let (u, ub, rest_b) = add_values_cons i b w' s ys ws r f in
    let (q', g, same) = add_values_from (suc i) ys ws (s + u * w') (s + v * w') r rest_b in
    let q_same = inr_injective q' q (add_values (suc i) ys ws (s + v * w')) g rest_a in
    let weight : w' ≡ w = ground (arith, h) in
    (v, u, va, ub, subst (λ x. q + u * x ≡ r + v * x) weight (omega (arith, same, q_same)))
add_values_hole i (x ∷ xs) ys [] a b w s q r h e f = absurd (ground (arith, h))
add_values_hole i (x ∷ xs) ys (w' ∷ ws) a b w s q r h e f =
    let (v, vx, rest_a) = add_values_cons i x w' s (xs ++ a ∷ ys) ws q e in
    let (u, ux, rest_b) = add_values_cons i x w' s (xs ++ b ∷ ys) ws r f in
    let same : u ≡ v = ground (arith, sym vx ∙ ux) in
    add_values_hole (suc i) xs ys ws a b w (s + v * w') q r (ground (arith, h)) rest_a
      (subst (λ k. add_values (suc i) (xs ++ b ∷ ys) ws (s + k * w') ≡ inr r) same rest_b)

abbrev all_small : List (ℕ × ℕ) → Bool
all_small [] = true
all_small ((k, v) ∷ m) = leb v 9 && all_small m

small_values : (m : List (ℕ × ℕ)) (c v : ℕ) → all_small m ≡ true → lookup c m ≡ some v → v ≤ 9
unfolding lookup
small_values [] c v h e = ground (arith, e)
small_values ((k, u) ∷ m) c v h e = ground (arith, e, h, small_values m c v (ground (arith, h)))

pub value_of_le : (c v : ℕ) → value_of c ≡ some v → v ≤ 9
unfolding value_of
value_of_le c v e = small_values vin_translit c v refl e

-- ===== src/Skill/Vin/Remainder.antt =====
-- Remainders by 11, as in the check of a vehicle identification number
-- (internal/skill/builtin/barcodes.go).
use kyoci_agent.Prelude.{
  ℕ, zero, suc, ◌+◌, ◌-◌, ◌*◌, ◌%◌, ◌≤◌, ◌<◌, ◌≡◌, refl, sym, subst, Bool, true, not, inl, inr,
  arith, ◌==◌, leb, Bool-cases, ==_iff, eq_ℕ, ◌&&◌, ◌||◌,
}

-- A test that holds for all numbers below n.
abbrev check : (ℕ → Bool) → ℕ → Bool
check p zero = true
check p (suc n) = p n && check p n

check_below : (p : ℕ → Bool) (n k : ℕ) → check p n ≡ true → k < n → p k ≡ true
check_below p zero k h l = absurd (omega arith)
check_below p (suc n) k h l = elim (Bool-cases (k == n)) [
  | inl e ↦ subst (λ m. p m ≡ true) (sym ((==_iff k n).0 e)) (ground (arith, h))
  | inr e ↦ check_below p n k (ground (arith, h)) (ground (arith, e))
]

-- 11 is a prime number.
abbrev has_rest : ℕ → ℕ → Bool
has_rest w d = w == 0 || (d == 0 || not (d * w % 11 == 0))

has_rest_always : (w d : ℕ) → w < 11 → d < 10 → has_rest w d ≡ true
has_rest_always w d l m =
    check_below (has_rest w) 10 d (check_below (λ v. check (has_rest v) 10) 11 w refl l) m

-- Equal remainders by 11 leave no room for a greater digit of a weight from 1 to 10.
no_greater :
    (q r v d w : ℕ) → 0 < w → w ≤ 10 → d ≤ 9 → q % 11 ≡ r % 11 → q + (v + d) * w ≡ r + v * w → d ≡ 0
no_greater q r v d w p l m same e =
    let split : (v + d) * w ≡ v * w + d * w = grind arith in
    let left : d * w % 11 ≡ 0 = omega (arith, split, e, same) in
    ground (arith, has_rest_always w d (omega arith) (omega arith), left, p)

pub same_values :
    (q r u v w : ℕ)
    → 0 < w
    → w ≤ 10
    → u ≤ 9
    → v ≤ 9
    → q % 11 ≡ r % 11
    → q + u * w ≡ r + v * w
    → u ≡ v
same_values q r u v w p l a b m e = elim (Bool-cases (leb v u)) [
  | inl more ↦
      (let d : u ≡ v + (u - v) = ground (arith, more) in
        let none_left : u - v ≡ 0 =
          no_greater q r v (u - v) w p l (omega arith) m (subst (λ x. q + x * w ≡ r + v * w) d e) in
        ground (arith, more, none_left))
  | inr less ↦
      (let d : v ≡ u + (v - u) = ground (arith, less) in
        let none_left : v - u ≡ 0 =
          no_greater r q u (v - u) w p l (omega arith) (sym m)
            (subst (λ x. r + x * w ≡ q + u * w) d (sym e)) in
        ground (arith, less, none_left))
]

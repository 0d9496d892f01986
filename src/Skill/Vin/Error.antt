-- ===== src/Skill/Vin/Error.antt =====
-- Wrong characters in a vehicle identification number (internal/skill/builtin/barcodes.go).
use kyoci_agent.Prelude.{
  ℕ, zero, suc, ◌+◌, ◌-◌, ◌%◌, ◌≤◌, ◌<◌, ◌≡◌, ◌≢◌, refl, sym, ap, ◌∙◌, Bool, true, some, List, [],
  ◌∷◌, ◌++◌, ◌⊎◌, inl, inr, arith, ◌==◌, if◌then◌else◌, length, leb, get_elem?, ltb, length-append,
  eq_ℕ, ◌&&◌, ◌||◌,
}
use kyoci_agent.Skill.Barcodes.{is_digit, char_at}
use kyoci_agent.Skill.Vin.{
  value_of, vin_weights, vin_valid, add_values, compare_vin, check_vin, vin_verdict,
}
use kyoci_agent.Skill.Vin.Sum.{add_values_hole, value_of_le}
use kyoci_agent.Skill.Vin.Remainder.{same_values}

-- Every position from i on but the ninth has a weight from 1 to 10.
abbrev are_weights : ℕ → List ℕ → Bool
are_weights i [] = true
are_weights i (w ∷ ws) = (i == 8 || (ltb 0 w && leb w 10)) && are_weights (suc i) ws

weight_at :
    (i n : ℕ) (ws : List ℕ)
    → are_weights i ws ≡ true
    → n < length ws
    → i + n ≢ 8
    → (w : ℕ) × (get_elem? ws n ≡ some w) × (0 < w) × (w ≤ 10)
weight_at i n [] h l e = absurd (omega arith)
weight_at i zero (w ∷ ws) h l e = (w, refl, ground (arith, h, e), ground (arith, h, e))
weight_at i (suc n) (w ∷ ws) h l e =
    weight_at (suc i) n ws (ground (arith, h)) (omega arith) (λ x. e (omega (arith, x)))

-- The value of a check character.
abbrev check_value : ℕ → ℕ
check_value c = if is_digit c then c - 48 else 10

check_vin_valid :
    (c : ℕ) (o : (ℕ × ℕ) ⊎ ℕ)
    → check_vin c o ≡ vin_valid
    → (sum : ℕ) × (o ≡ inr sum) × (sum % 11 ≡ check_value c)
unfolding check_vin compare_vin
check_vin_valid c (inl (d, position)) e = absurd (ground (arith, e))
check_vin_valid c (inr sum) e = (sum, refl, ground (arith, e))

vin_verdict_valid :
    (raw : List ℕ)
    → vin_verdict raw ≡ vin_valid
    → (length raw ≡ 17) × (check_vin (char_at raw 8) (add_values 0 raw vin_weights 0) ≡ vin_valid)
unfolding vin_verdict
vin_verdict_valid raw e = ground (arith, e)

other_char_at :
    (n : ℕ) (xs ys : List ℕ) (a b : ℕ)
    → length xs ≢ n
    → char_at (xs ++ a ∷ ys) n ≡ char_at (xs ++ b ∷ ys) n
other_char_at zero [] ys a b e = absurd (e refl)
other_char_at (suc n) [] ys a b e = refl
other_char_at zero (x ∷ xs) ys a b e = refl
other_char_at (suc n) (x ∷ xs) ys a b e = other_char_at n xs ys a b (λ h. e (ap suc h))

-- A wrong character is noticed: where a VIN is valid, a text that differs from it in one character
-- other than the check digit, in the ninth place, and of another value, is not.
pub vin_single_error :
    (xs ys : List ℕ) (a b : ℕ)
    → length xs ≢ 8
    → value_of a ≢ value_of b
    → vin_verdict (xs ++ a ∷ ys) ≡ vin_valid
    → vin_verdict (xs ++ b ∷ ys) ≢ vin_valid
vin_single_error xs ys a b place differ first second =
    let (long, checked) = vin_verdict_valid (xs ++ a ∷ ys) first in
    let (_, checked') = vin_verdict_valid (xs ++ b ∷ ys) second in
    let (q, sum, rest) = check_vin_valid _ _ checked in
    let (r, sum', rest') = check_vin_valid _ _ checked' in
    let (w, at, positive, small) =
      weight_at 0 (length xs) vin_weights refl (omega (arith, long, length-append xs (a ∷ ys)))
        (λ x. place (omega (arith, x))) in
    let (v, u, va, ub, e) = add_values_hole 0 xs ys vin_weights a b w 0 q r at sum sum' in
    let same =
      same_values q r u v w positive small (value_of_le b u ub) (value_of_le a v va)
        (rest ∙ ap check_value (other_char_at 8 xs ys a b place) ∙ sym rest') e in
    differ (va ∙ ap some (sym same) ∙ sym ub)

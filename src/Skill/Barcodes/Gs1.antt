-- ===== src/Skill/Barcodes/Gs1.antt =====
-- The mod-10 check digits of internal/skill/builtin/barcodes.go against the rule of the standard.
use mathlib.Core.List.{reverse, reverse-append, reverse-cons, append_assoc}
use kyoci_agent.Prelude.{
  ℕ, zero, suc, ◌+◌, ◌-◌, ◌*◌, ◌%◌, ◌<◌, ◌≡◌, ◌≢◌, ◌↔◌, ◌⊎◌, inl, refl, sym, subst, ap, ◌∙◌, Bool,
  true, false, ◌&&◌, some, List, [], ◌∷◌, ◌++◌, all, ◌==◌, ==_refl, length, take, arith,
}
use kyoci_agent.Skill.Barcodes.{
  valid, gs1_verdict, weighted_sum, other_weight, mod10_check_digit, is_all_digits, is_digit,
  char_at, is_empty, compare_digits,
}

all-append : (p : ℕ → Bool) (xs ys : List ℕ) → all p (xs ++ ys) ≡ all p xs && all p ys
all-append p [] ys = refl
all-append p (x ∷ xs) ys = ground (arith, all-append p xs ys)

-- A list of m + 1 elements is its first m and the last.
split_last : (m : ℕ) (cs : List ℕ) → length cs ≡ suc m → (cs ≡ take m cs ++ char_at cs m ∷ [])
split_last m [] h = absurd (omega arith)
split_last zero (c ∷ []) h = refl
split_last zero (c ∷ d ∷ cs) h = absurd (omega arith)
split_last (suc m) (c ∷ cs) h = ap (λ rest. c ∷ rest) (split_last m cs (omega arith))

check_digit_rule : (s c : ℕ) → c < 10 → ((10 - s % 10) % 10 ≡ c) ↔ ((c * 1 + s) % 10 ≡ 0)
check_digit_rule s c h = (λ e. omega (arith, e), λ e. omega (arith, e))

-- For raw digits, of which there are at least two.
module _ (m : ℕ) (raw : List ℕ) (digits : all is_digit raw ≡ true)
    (long : length raw ≡ suc (suc m)) where
  payload : List ℕ
  payload = take (suc m) raw

  last_char : ℕ
  last_char = char_at raw (suc m)

  parts : raw ≡ payload ++ last_char ∷ []
  unfolding payload last_char
  parts = split_last (suc m) raw long

  part_digits : (all is_digit payload ≡ true) × (is_digit last_char ≡ true)
  part_digits =
      ground (arith, all-append is_digit payload (last_char ∷ []), ap (all is_digit) parts, digits)

  payload_not_empty : is_empty payload ≡ false
  unfolding payload
  payload_not_empty = not_empty raw long
    where
      not_empty : (cs : List ℕ) → length cs ≡ suc (suc m) → is_empty (take (suc m) cs) ≡ false
      not_empty [] h = absurd (omega arith)
      not_empty (c ∷ cs) h = refl

  sum_of_parts :
      weighted_sum 1 (reverse raw) ≡ (last_char - 48) * 1 + weighted_sum 3 (reverse payload)
  unfolding weighted_sum
  sum_of_parts =
      ap (λ cs. weighted_sum 1 (reverse cs)) parts
      ∙ ap (weighted_sum 1) (reverse-append payload (last_char ∷ []))

  not_empty_raw : is_empty raw ≡ false
  not_empty_raw = ground (arith, long)

  verdict_of_parts :
      gs1_verdict (suc (suc m)) raw
      ≡ compare_digits (some ((10 - weighted_sum 3 (reverse payload) % 10) % 10)) (last_char - 48)
  unfolding gs1_verdict is_all_digits mod10_check_digit payload last_char
  verdict_of_parts =
      let one_less : suc (suc m) - 1 ≡ suc m = omega arith in
      let same : (suc (suc m) == suc (suc m)) ≡ true = ==_refl _ in
      rw (not_empty_raw, digits, long, same, one_less) (rw (part_digits.0, payload_not_empty) refl)

  last_digit_lt : last_char - 48 < 10
  last_digit_lt = ground (arith, part_digits.1)

  valid_of_parts : (gs1_verdict (suc (suc m)) raw ≡ valid) ↔ (weighted_sum 1 (reverse raw) % 10 ≡ 0)
  valid_of_parts =
      let rule =
        check_digit_rule (weighted_sum 3 (reverse payload)) (last_char - 48) last_digit_lt in
      (
        λ v. ap (λ s. s % 10) sum_of_parts ∙ rule.0 (valid_compares _ _ (sym verdict_of_parts ∙ v)),
        λ z.
            verdict_of_parts
            ∙ compares_valid _ _ (rule.1 (sym (ap (λ s. s % 10) sum_of_parts) ∙ z)),
      )
    where
      valid_compares : (want got : ℕ) → compare_digits (some want) got ≡ valid → want ≡ got
      valid_compares want got v = ground (arith, v)

      compares_valid : (want got : ℕ) → want ≡ got → compare_digits (some want) got ≡ valid
      compares_valid want got e = ground (arith, e)

-- A valid code has digits only, of the right number.
valid_shape :
    (n : ℕ) (raw : List ℕ)
    → gs1_verdict n raw ≡ valid
    → (is_all_digits raw ≡ true) × (length raw ≡ n)
unfolding gs1_verdict
valid_shape n raw v = ground (arith, v)

-- For n digits, the check asks for n digits and a multiple of 10 as the weighted sum.
gs1_valid_weighted :
    (n : ℕ) (raw : List ℕ)
    → 1 < n
    → (gs1_verdict n raw ≡ valid)
      ↔ ((is_all_digits raw ≡ true) × (length raw ≡ n) × (weighted_sum 1 (reverse raw) % 10 ≡ 0))
unfolding is_all_digits
gs1_valid_weighted zero raw two = absurd (omega arith)
gs1_valid_weighted (suc zero) raw two = absurd (omega arith)
gs1_valid_weighted (suc (suc m)) raw two = (
  λ v.
      (let (digits, long) = valid_shape (suc (suc m)) raw v in
        let all_digits : all is_digit raw ≡ true = ground (arith, digits) in
        (digits, long, (valid_of_parts m raw all_digits long).0 v)),
  λ h.
      (let all_digits : all is_digit raw ≡ true = ground (arith, h.0) in
        (valid_of_parts m raw all_digits h.1).1 h.2),
)

-- The sum of the standard, from the last digit on: the first digit, the second three times, and so on in
-- pairs.
abbrev pub gs1_sum : List ℕ → ℕ
gs1_sum [] = 0
gs1_sum (c ∷ []) = c - 48
gs1_sum (c ∷ d ∷ rest) = (c - 48) + (3 * (d - 48) + gs1_sum rest)

weighted_sum-gs1_sum : (cs : List ℕ) → weighted_sum 1 cs ≡ gs1_sum cs
unfolding weighted_sum
weighted_sum-gs1_sum [] = refl
weighted_sum-gs1_sum (c ∷ []) = omega arith
weighted_sum-gs1_sum (c ∷ d ∷ rest) = omega (arith, weighted_sum-gs1_sum rest)

-- The check that EAN-13, EAN-8 and UPC-A share accepts, for n digits with n above 1, exactly the texts
-- of n digits in which the digits at the odd places from the end, together with three times the digits
-- at the even places from the end, make a multiple of 10.
pub gs1_valid_iff :
    (n : ℕ) (raw : List ℕ)
    → 1 < n
    → (gs1_verdict n raw ≡ valid)
      ↔ ((is_all_digits raw ≡ true) × (length raw ≡ n) × (gs1_sum (reverse raw) % 10 ≡ 0))
gs1_valid_iff n raw two =
    subst
      (λ s.
        (gs1_verdict n raw ≡ valid)
        ↔ ((is_all_digits raw ≡ true) × (length raw ≡ n) × (s % 10 ≡ 0)))
      (weighted_sum-gs1_sum (reverse raw)) (gs1_valid_weighted n raw two)

-- The sum for a text in which one character is left open.
weighted_sum_hole :
    (xs : List ℕ) (ys : List ℕ) (weight : ℕ)
    → (weight ≡ 1) ⊎ (weight ≡ 3)
    → (k w : ℕ) × ((w ≡ 1) ⊎ (w ≡ 3))
      × ((c : ℕ) → weighted_sum weight (xs ++ c ∷ ys) ≡ k + (c - 48) * w)
unfolding weighted_sum
weighted_sum_hole [] ys weight h =
    (weighted_sum (other_weight weight) ys, weight, h, λ c. omega arith)
weighted_sum_hole (x ∷ xs) ys weight h =
    let (k, w, one_or_three, e) =
      weighted_sum_hole xs ys (other_weight weight) (ground (arith, h)) in
    ((x - 48) * weight + k, w, one_or_three, λ c. omega (arith, e c))

middle_digit : (xs ys : List ℕ) (c : ℕ) → is_all_digits (xs ++ c ∷ ys) ≡ true → is_digit c ≡ true
unfolding is_all_digits
middle_digit xs ys c h = ground (arith, h, all-append is_digit xs (c ∷ ys))

reverse_middle : (xs ys : List ℕ) (c : ℕ) → reverse (xs ++ c ∷ ys) ≡ reverse ys ++ c ∷ reverse xs
reverse_middle xs ys c =
    reverse-append xs (c ∷ ys)
    ∙ ap (λ rest. rest ++ reverse xs) (reverse-cons c ys)
    ∙ append_assoc (reverse ys) (c ∷ []) (reverse xs)

-- A wrong digit is noticed: where a code of at least two digits is valid, every text that differs
-- from it in one character is not.
pub gs1_single_error :
    (n : ℕ) (xs ys : List ℕ) (a b : ℕ)
    → 1 < n
    → a ≢ b
    → gs1_verdict n (xs ++ a ∷ ys) ≡ valid
    → gs1_verdict n (xs ++ b ∷ ys) ≢ valid
gs1_single_error n xs ys a b two differ first second =
    let (digits_a, long_a, sum_a) = (gs1_valid_weighted n (xs ++ a ∷ ys) two).0 first in
    let (digits_b, long_b, sum_b) = (gs1_valid_weighted n (xs ++ b ∷ ys) two).0 second in
    let (k, w, one_or_three, e) = weighted_sum_hole (reverse ys) (reverse xs) 1 (inl refl) in
    let at_a = ap (λ cs. weighted_sum 1 cs % 10) (reverse_middle xs ys a) in
    let at_b = ap (λ cs. weighted_sum 1 cs % 10) (reverse_middle xs ys b) in
    ground (
      arith,
      differ,
      sum_a,
      sum_b,
      at_a,
      at_b,
      e a,
      e b,
      one_or_three,
      middle_digit xs ys a digits_a,
      middle_digit xs ys b digits_b,
    )

-- ===== src/Skill/Barcodes/Issn.antt =====
-- The mod-11 check digit of an ISSN (internal/skill/builtin/barcodes.go) and exchanged digits.
use kyoci_agent.Prelude.{
  ℕ, zero, suc, ◌+◌, ◌-◌, ◌*◌, ◌%◌, ◌≤◌, ◌<◌, ◌≡◌, ◌≢◌, refl, sym, ap, ◌∙◌, Bool, true, not, List,
  [], ◌∷◌, ◌++◌, all, ◌==◌, ==_iff, if◌then◌else◌, length, take, arith,
}
use kyoci_agent.Skill.Barcodes.{
  valid, empty_input, wrong_length, non_digit, bad_check_character, mismatch, issn_verdict,
  issn_want, issn_got, issn_sum, is_all_digits, is_digit, char_at,
}

-- The sum before and after an exchange.
issn_sum_swap :
    (xs ys : List ℕ) (a b weight : ℕ)
    → length xs < weight
    → (k : ℕ) × (issn_sum weight (xs ++ a ∷ b ∷ ys) ≡ k + (a - 48))
      × (issn_sum weight (xs ++ b ∷ a ∷ ys) ≡ k + (b - 48))
unfolding issn_sum
issn_sum_swap [] ys a b zero h = absurd (omega arith)
issn_sum_swap [] ys a b (suc v) h =
    ((a - 48) * v + (b - 48) * v + issn_sum (v - 1) ys, grind arith, grind arith)
issn_sum_swap (x ∷ xs) ys a b weight h =
    let (k, e, f) = issn_sum_swap xs ys a b (weight - 1) (omega arith) in
    ((x - 48) * weight + k, omega (arith, e), omega (arith, f))

take_middle :
    (xs zs : List ℕ) (a b n : ℕ)
    → length xs + 2 ≤ n
    → take n (xs ++ a ∷ b ∷ zs) ≡ xs ++ a ∷ b ∷ take (n - length xs - 2) zs
take_middle [] zs a b zero h = absurd (omega arith)
take_middle [] zs a b (suc zero) h = absurd (omega arith)
take_middle [] zs a b (suc (suc n)) h =
    ap (λ k. a ∷ b ∷ take k zs) {x = n} {y = suc (suc n) - 0 - 2} (omega arith)
take_middle (x ∷ xs) zs a b zero h = absurd (omega arith)
take_middle (x ∷ xs) zs a b (suc n) h =
    ap (λ rest. x ∷ rest) (take_middle xs zs a b n (omega arith))
    ∙ ap (λ k. x ∷ (xs ++ a ∷ b ∷ take k zs)) {x = n - length xs - 2}
        {y = suc n - suc (length xs) - 2} (omega arith)

char_at_swap :
    (xs zs : List ℕ) (a b i : ℕ)
    → length xs + 2 ≤ i
    → char_at (xs ++ a ∷ b ∷ zs) i ≡ char_at (xs ++ b ∷ a ∷ zs) i
char_at_swap [] zs a b zero h = absurd (omega arith)
char_at_swap [] zs a b (suc zero) h = absurd (omega arith)
char_at_swap [] zs a b (suc (suc i)) h = refl
char_at_swap (x ∷ xs) zs a b zero h = absurd (omega arith)
char_at_swap (x ∷ xs) zs a b (suc i) h = char_at_swap xs zs a b i (omega arith)

digit_range : (c : ℕ) → is_digit c ≡ true → (48 ≤ c) × (c ≤ 57)
digit_range c h = ground (arith, h)

two_digits :
    (xs ys : List ℕ) (a b : ℕ)
    → is_all_digits (xs ++ a ∷ b ∷ ys) ≡ true
    → (is_digit a ≡ true) × (is_digit b ≡ true)
unfolding is_all_digits
two_digits xs ys a b h = tested xs (ground (arith, h))
  where
    tested :
        (zs : List ℕ)
        → all is_digit (zs ++ a ∷ b ∷ ys) ≡ true
        → (is_digit a ≡ true) × (is_digit b ≡ true)
    tested [] t = ground (arith, t)
    tested (z ∷ zs) t = tested zs (ground (arith, t))

guards_passed :
    (empty long digits last matched : Bool) (n want got : ℕ)
    → (if empty
        then empty_input
        else if not long
        then wrong_length n
        else if not digits
        then non_digit
        else if not last
        then bad_check_character
        else if not matched
        then mismatch want got
        else valid)
      ≡ valid
    → (digits ≡ true) × (matched ≡ true)
guards_passed empty long digits last matched n want got v = ground (arith, v)

same_remainder :
    (s t : ℕ)
    → (if s % 11 == 0 then 0 else 11 - s % 11) ≡ (if t % 11 == 0 then 0 else 11 - t % 11)
    → s % 11 ≡ t % 11
same_remainder s t e = ground (arith, e)

valid_parts :
    (raw : List ℕ)
    → issn_verdict raw ≡ valid
    → (is_all_digits (take 7 raw) ≡ true) × (issn_want (take 7 raw) ≡ issn_got (char_at raw 7))
unfolding issn_verdict
valid_parts raw v =
    let (digits, matched) = guards_passed _ _ _ _ _ _ _ _ v in (digits, (==_iff _ _).0 matched)

-- Exchanged neighbours are noticed: where an ISSN is valid, the text in which two different
-- neighbouring digits of the first seven are exchanged is not.
pub issn_swap_error :
    (xs zs : List ℕ) (a b : ℕ)
    → length xs + 2 ≤ 7
    → a ≢ b
    → issn_verdict (xs ++ a ∷ b ∷ zs) ≡ valid
    → issn_verdict (xs ++ b ∷ a ∷ zs) ≢ valid
unfolding issn_want
issn_swap_error xs zs a b early differ first second =
    let (digits, want) = valid_parts (xs ++ a ∷ b ∷ zs) first in
    let (digits', want') = valid_parts (xs ++ b ∷ a ∷ zs) second in
    let ys = take (7 - length xs - 2) zs in
    let cut = take_middle xs zs a b 7 early in
    let cut' = take_middle xs zs b a 7 early in
    let (k, e, f) = issn_sum_swap xs ys a b 8 (omega arith) in
    let (da, db) = two_digits xs ys a b (ap is_all_digits (sym cut) ∙ digits) in
    let same : issn_want (xs ++ a ∷ b ∷ ys) ≡ issn_want (xs ++ b ∷ a ∷ ys) =
      ap issn_want (sym cut)
      ∙ want
      ∙ ap issn_got (char_at_swap xs zs a b 7 early)
      ∙ sym want'
      ∙ ap issn_want cut' in
    let remainders = same_remainder _ _ same in
    let (a_least, a_most) = digit_range a da in
    let (b_least, b_most) = digit_range b db in
    differ (omega (arith, ap (λ n. n % 11) e, ap (λ n. n % 11) f, remainders))

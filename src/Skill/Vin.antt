-- ===== src/Skill/Vin.antt =====
-- The check of a vehicle identification number (VINValidateSkill of
-- internal/skill/builtin/barcodes.go). A text is the list of its characters' numbers in upper case,
-- after the query's payload was cut out and cleaned.
pub mod Sum
pub mod Remainder
pub mod Error
mod Tests
use kyoci_agent.Prelude.{
  ℕ, zero, suc, ◌+◌, ◌-◌, ◌*◌, ◌%◌, Bool, true, false, not, Option, none, some, List, [], ◌∷◌, ◌⊎◌,
  inl, inr, ◌==◌, if◌then◌else◌, length, eq_ℕ,
}
use kyoci_agent.Prelude.Map.{Map, lookup}
use kyoci_agent.Skill.Barcodes.{is_digit, is_empty, char_at}

-- The values of the characters; I, O and Q have none.
abbrev pub vin_translit : Map ℕ ℕ
vin_translit =
    (65, 1)
    ∷ (66, 2)
    ∷ (67, 3)
    ∷ (68, 4)
    ∷ (69, 5)
    ∷ (70, 6)
    ∷ (71, 7)
    ∷ (72, 8)
    ∷ (74, 1)
    ∷ (75, 2)
    ∷ (76, 3)
    ∷ (77, 4)
    ∷ (78, 5)
    ∷ (80, 7)
    ∷ (82, 9)
    ∷ (83, 2)
    ∷ (84, 3)
    ∷ (85, 4)
    ∷ (86, 5)
    ∷ (87, 6)
    ∷ (88, 7)
    ∷ (89, 8)
    ∷ (90, 9)
    ∷ (48, 0)
    ∷ (49, 1)
    ∷ (50, 2)
    ∷ (51, 3)
    ∷ (52, 4)
    ∷ (53, 5)
    ∷ (54, 6)
    ∷ (55, 7)
    ∷ (56, 8)
    ∷ (57, 9)
    ∷ []

unfoldable pub value_of : ℕ → Option ℕ
unfolding lookup
value_of c = lookup c vin_translit

abbrev pub vin_weights : List ℕ
vin_weights = 8 ∷ 7 ∷ 6 ∷ 5 ∷ 4 ∷ 3 ∷ 2 ∷ 10 ∷ 0 ∷ 9 ∷ 8 ∷ 7 ∷ 6 ∷ 5 ∷ 4 ∷ 3 ∷ 2 ∷ []

pub data VinVerdict : Type 0 where
  vin_valid : VinVerdict
  vin_empty : VinVerdict
  vin_wrong_length : ℕ → VinVerdict
  illegal_character : ℕ → ℕ → VinVerdict
  bad_check_digit : ℕ → VinVerdict
  vin_mismatch : ℕ → ℕ → VinVerdict

-- The loop at index i: the sum, or a character without a value and its position from 1 on.
unfoldable pub add_values : ℕ → List ℕ → List ℕ → ℕ → (ℕ × ℕ) ⊎ ℕ
add_values i [] weights sum = inr sum
add_values i (c ∷ cs) [] sum = inr sum
add_values i (c ∷ cs) (w ∷ ws) sum = elim (value_of c) [
  | none ↦ inl (c, suc i)
  | some v ↦ add_values (suc i) cs ws (sum + v * w)
]

unfoldable pub compare_vin : ℕ → ℕ → ℕ → VinVerdict
compare_vin want got check_char =
    if want == 10
    then (if not (got == 10) then vin_mismatch want check_char else vin_valid)
    else if not (want == got)
    then vin_mismatch want check_char
    else vin_valid

unfoldable pub check_vin : ℕ → (ℕ × ℕ) ⊎ ℕ → VinVerdict
unfolding compare_vin
check_vin check_char (inl (c, position)) = illegal_character c position
check_vin check_char (inr sum) =
    if is_digit check_char
    then compare_vin (sum % 11) (check_char - 48) check_char
    else if check_char == 88
    then compare_vin (sum % 11) 10 check_char
    else bad_check_digit check_char

unfoldable pub vin_verdict : List ℕ → VinVerdict
unfolding add_values check_vin value_of
vin_verdict raw =
    if is_empty raw
    then vin_empty
    else if not (length raw == 17)
    then vin_wrong_length (length raw)
    else check_vin (char_at raw 8) (add_values 0 raw vin_weights 0)

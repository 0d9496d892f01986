-- ===== src/Skill/Vin/Tests.antt =====
-- Runs of the check of a vehicle identification number (internal/skill/builtin/barcodes.go), and its
-- theorem at a valid one.
use kyoci_agent.Prelude.{ℕ, ◌≡◌, ◌≢◌, refl, List, [], ◌∷◌, ◌++◌, arith}
use kyoci_agent.Skill.Vin.{value_of, vin_verdict, vin_valid, illegal_character}
use kyoci_agent.Skill.Vin.Error.{vin_single_error}

-- 1M8GDM9AXKP042788
abbrev head : List ℕ
head = 49 ∷ 77 ∷ 56 ∷ []

abbrev tail : List ℕ
tail = 68 ∷ 77 ∷ 57 ∷ 65 ∷ 88 ∷ 75 ∷ 80 ∷ 48 ∷ 52 ∷ 50 ∷ 55 ∷ 56 ∷ 56 ∷ []

accepted : vin_verdict (head ++ 71 ∷ tail) ≡ vin_valid
unfolding vin_verdict
accepted = refl

-- An I has no value.
refused : vin_verdict (head ++ 73 ∷ tail) ≡ illegal_character 73 4
unfolding vin_verdict
refused = refl

values_differ : value_of 71 ≢ value_of 68
unfolding value_of
values_differ e = ground (arith, e)

vin_single_error_example : vin_verdict (head ++ 68 ∷ tail) ≢ vin_valid
vin_single_error_example =
    vin_single_error head tail 71 68 (λ e. absurd (omega (arith, e))) values_differ accepted

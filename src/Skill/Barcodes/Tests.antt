-- ===== src/Skill/Barcodes/Tests.antt =====
-- Runs of the barcode checks (internal/skill/builtin/barcodes.go), and their theorems at one code.
use mathlib.Core.List.{reverse}
use kyoci_agent.Prelude.{
  ℕ, ◌+◌, ◌%◌, ◌≡◌, ◌≢◌, ◌↔◌, refl, true, List, [], ◌∷◌, ◌++◌, map, length, arith,
}
use kyoci_agent.Skill.Barcodes.{
  valid, mismatch, gs1_verdict, ean13_verdict, issn_verdict, is_all_digits, strip_noise,
}
use kyoci_agent.Skill.Barcodes.Gs1.{gs1_sum, gs1_valid_iff}
use kyoci_agent.Skill.Barcodes.Issn.{issn_swap_error}

-- The characters of decimal digits.
abbrev written : List ℕ → List ℕ
written = map (λ d. 48 + d)

abbrev ean : List ℕ
ean = written (4 ∷ 0 ∷ 0 ∷ 6 ∷ 3 ∷ 8 ∷ 1 ∷ 3 ∷ 3 ∷ 3 ∷ 9 ∷ 3 ∷ 1 ∷ [])

ean_run : ean13_verdict ean ≡ valid
unfolding ean13_verdict
ean_run = refl

wrong_run :
    ean13_verdict (written (4 ∷ 0 ∷ 0 ∷ 6 ∷ 3 ∷ 8 ∷ 1 ∷ 3 ∷ 3 ∷ 3 ∷ 9 ∷ 3 ∷ 2 ∷ [])) ≡ mismatch 1 2
unfolding ean13_verdict
wrong_run = refl

noise_run : strip_noise (48 ∷ 45 ∷ 32 ∷ 49 ∷ []) ≡ 48 ∷ 49 ∷ []
unfolding strip_noise
noise_run = refl

ean_valid : gs1_verdict 13 ean ≡ valid
unfolding gs1_verdict
ean_valid = refl

gs1_valid_iff_example :
    (gs1_verdict 13 ean ≡ valid)
    ↔ ((is_all_digits ean ≡ true) × (length ean ≡ 13) × (gs1_sum (reverse ean) % 10 ≡ 0))
gs1_valid_iff_example = gs1_valid_iff 13 ean (omega arith)

abbrev ean_end : List ℕ
ean_end = written (0 ∷ 0 ∷ 6 ∷ 3 ∷ 8 ∷ 1 ∷ 3 ∷ 3 ∷ 3 ∷ 9 ∷ 3 ∷ 1 ∷ [])

abbrev issn_end : List ℕ
issn_end = written (8 ∷ 4 ∷ 7 ∷ 1 ∷ [])

issn_valid : issn_verdict (written (0 ∷ 3 ∷ 1 ∷ 7 ∷ []) ++ issn_end) ≡ valid
unfolding issn_verdict
issn_valid = refl

issn_swap_error_example : issn_verdict (written (0 ∷ 3 ∷ []) ++ 55 ∷ 49 ∷ issn_end) ≢ valid
issn_swap_error_example =
    issn_swap_error (written (0 ∷ 3 ∷ [])) issn_end 49 55 (omega arith) (omega arith) issn_valid

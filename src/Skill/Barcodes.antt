-- ===== src/Skill/Barcodes.antt =====
-- The checks of barcodes (internal/skill/builtin/barcodes.go): EAN-13, EAN-8, UPC-A and ISSN. A text
-- is the list of its characters' numbers, as a check sees it after the query's payload was cut out;
-- the messages are constructors with what they report.
pub mod Gs1
pub mod Issn
mod Tests
use mathlib.Core.List.{reverse}
use kyoci_agent.Prelude.{
  ℕ, zero, suc, ◌+◌, ◌-◌, ◌*◌, ◌%◌, Bool, true, false, not, ◌&&◌, ◌||◌, Option, none, some, List,
  [], ◌∷◌, all, any, ltb, leb, ◌==◌, if◌then◌else◌, length, take, get_elem?, keep,
}

-- The characters that the check ignores.
unfoldable pub is_noise : ℕ → Bool
is_noise c = any (λ d. c == d) (32 ∷ 45 ∷ 46 ∷ 9 ∷ 10 ∷ 13 ∷ [])

-- The strings.Map of stripBarcodeNoise; the spaces that its TrimSpace drops are noise as well, for
-- texts in ASCII.
unfoldable pub strip_noise : List ℕ → List ℕ
unfolding is_noise
strip_noise cs = keep (λ c. not (is_noise c)) cs

abbrev pub is_digit : ℕ → Bool
is_digit c = leb 48 c && leb c 57

abbrev pub is_empty : List ℕ → Bool
is_empty [] = true
is_empty (c ∷ cs) = false

unfoldable pub is_all_digits : List ℕ → Bool
is_all_digits cs = not (is_empty cs) && all is_digit cs

abbrev pub other_weight : ℕ → ℕ
other_weight weight = if weight == 3 then 1 else 3

-- The loop of mod10CheckDigit, from the last digit on.
unfoldable pub weighted_sum : ℕ → List ℕ → ℕ
weighted_sum weight [] = 0
weighted_sum weight (c ∷ cs) = (c - 48) * weight + weighted_sum (other_weight weight) cs

-- `none` stands for the error.
unfoldable pub mod10_check_digit : List ℕ → Option ℕ
unfolding is_all_digits weighted_sum
mod10_check_digit payload =
    if is_all_digits payload then some ((10 - weighted_sum 3 (reverse payload) % 10) % 10) else none

pub data Verdict : Type 0 where
  valid : Verdict
  empty_input : Verdict
  non_digit : Verdict
  wrong_length : ℕ → Verdict
  bad_payload : Verdict
  bad_check_character : Verdict
  mismatch : ℕ → ℕ → Verdict

-- raw[i], 0 behind the end.
abbrev pub char_at : List ℕ → ℕ → ℕ
char_at cs i = elim (get_elem? cs i) [ none ↦ 0 | some c ↦ c ]

abbrev pub compare_digits : Option ℕ → ℕ → Verdict
compare_digits none got = bad_payload
compare_digits (some want) got = if want == got then valid else mismatch want got

-- The check that the three codes share, for n digits.
unfoldable pub gs1_verdict : ℕ → List ℕ → Verdict
unfolding is_all_digits mod10_check_digit
gs1_verdict n raw =
    if is_empty raw
    then empty_input
    else if not (is_all_digits raw)
    then non_digit
    else if not (length raw == n)
    then wrong_length (length raw)
    else compare_digits (mod10_check_digit (take (n - 1) raw)) (char_at raw (n - 1) - 48)

unfoldable pub ean13_verdict : List ℕ → Verdict
unfolding gs1_verdict
ean13_verdict raw = gs1_verdict 13 raw

unfoldable pub ean8_verdict : List ℕ → Verdict
unfolding gs1_verdict
ean8_verdict raw = gs1_verdict 8 raw

unfoldable pub upc_a_verdict : List ℕ → Verdict
unfolding gs1_verdict
upc_a_verdict raw = gs1_verdict 12 raw

-- The loop over the first seven digits, from weight 8 down.
unfoldable pub issn_sum : ℕ → List ℕ → ℕ
issn_sum weight [] = 0
issn_sum weight (c ∷ cs) = (c - 48) * weight + issn_sum (weight - 1) cs

unfoldable pub issn_want : List ℕ → ℕ
unfolding issn_sum
issn_want payload = if issn_sum 8 payload % 11 == 0 then 0 else 11 - issn_sum 8 payload % 11

-- A character in upper case, the last one being 'X' for 10.
abbrev pub issn_got : ℕ → ℕ
issn_got last = if last == 88 then 10 else last - 48

unfoldable pub issn_verdict : List ℕ → Verdict
unfolding is_all_digits issn_want
issn_verdict raw =
    if is_empty raw
    then empty_input
    else if not (length raw == 8)
    then wrong_length (length raw)
    else if not (is_all_digits (take 7 raw))
    then non_digit
    else if not (is_digit (char_at raw 7) || char_at raw 7 == 88)
    then bad_check_character
    else if not (issn_want (take 7 raw) == issn_got (char_at raw 7))
    then mismatch (issn_want (take 7 raw)) (issn_got (char_at raw 7))
    else valid

-- ===== src/Skill/BigBase.antt =====
-- Bytes as numbers in a base with an alphabet of digits, for base58 and base62
-- (encodeBigBase and decodeBigBase of internal/skill/builtin/encoding_extended.go). A big.Int is a
-- natural number here, a text is the list of its bytes.
pub mod Digits
pub mod RoundTrip
mod Tests
use mathlib.Core.List.{reverse}
use kyoci_agent.Prelude.{
  ℕ, zero, suc, ◌+◌, ◌-◌, ◌*◌, ◌/◌, ◌%◌, Bool, true, false, Option, none, some, List, [], ◌∷◌, ◌++◌,
  map, ◌==◌, if◌then◌else◌, length, get_elem?,
}

-- How many elements at the front are c.
unfoldable pub leading : ℕ → List ℕ → ℕ
leading c [] = 0
leading c (b ∷ bs) = let more = suc (leading c bs) in if b == c then more else 0

-- big.Int's SetBytes, and the loop of decodeBigBase on the digits' values: num = num * base + d.
unfoldable pub read_from : ℕ → ℕ → List ℕ → ℕ
read_from base num [] = num
read_from base num (d ∷ ds) = read_from base (num * base + d) ds

-- The loop of DivMod, the least digit first. The fuel is the number and one more: each division by a
-- base of at least 2 makes it smaller.
unfoldable pub digits_from : ℕ → ℕ → ℕ → List ℕ
digits_from zero base num = []
digits_from (suc fuel) base num =
    let rest = num % base ∷ digits_from fuel base (num / base) in if num == 0 then [] else rest

unfoldable pub digits : ℕ → ℕ → List ℕ
unfolding digits_from
digits base num = digits_from (suc num) base num

abbrev pub repeat_byte : ℕ → ℕ → List ℕ
repeat_byte zero c = []
repeat_byte (suc n) c = c ∷ repeat_byte n c

-- alphabet[i], 0 where the source would panic.
abbrev pub char_of : List ℕ → ℕ → ℕ
char_of alphabet i = elim (get_elem? alphabet i) [ none ↦ 0 | some c ↦ c ]

unfoldable pub encode_big_base : List ℕ → List ℕ → List ℕ
unfolding leading read_from digits
encode_big_base [] alphabet = []
encode_big_base (b ∷ bs) alphabet =
    repeat_byte (leading 0 (b ∷ bs)) (char_of alphabet 0)
    ++ reverse (map (char_of alphabet) (digits (length alphabet) (read_from 256 0 (b ∷ bs))))

-- The table `dec`: the last position of a byte in the alphabet, from position i on.
unfoldable pub position_from : ℕ → List ℕ → ℕ → Option ℕ
position_from i [] c = none
position_from i (a ∷ rest) c = elim (position_from (suc i) rest c) [
  | some j ↦ some j
  | none ↦ if a == c then some i else none
]

-- The positions of all bytes; `none` where one is not in the alphabet.
unfoldable pub positions : List ℕ → List ℕ → Option (List ℕ)
unfolding position_from
positions alphabet [] = some []
positions alphabet (c ∷ cs) = elim (position_from 0 alphabet c) [
  | none ↦ none
  | some i ↦ elim (positions alphabet cs) [ none ↦ none | some is ↦ some (i ∷ is) ]
]

-- big.Int's Bytes
unfoldable pub bytes_of : ℕ → List ℕ
unfolding digits
bytes_of num = reverse (digits 256 num)

unfoldable pub decode_big_base : List ℕ → List ℕ → Option (List ℕ)
unfolding leading positions read_from bytes_of
decode_big_base [] alphabet = some []
decode_big_base (c ∷ cs) alphabet = elim (positions alphabet (c ∷ cs)) [
  | none ↦ none
  | some is ↦ some (
      repeat_byte (leading (char_of alphabet 0) (c ∷ cs)) 0
      ++ bytes_of (read_from (length alphabet) 0 is))
]

-- ===== src/Skill/BigBase/Tests.antt =====
-- Runs of base58 (internal/skill/builtin/encoding_extended.go), and the round trip at one text.
use Prim.Native.Char.{code}
use kyoci_agent.Prelude.{ℕ, ◌≡◌, refl, String, true, none, some, List, [], ◌∷◌, arith}
use kyoci_agent.Skill.BigBase.{encode_big_base, decode_big_base}
use kyoci_agent.Skill.BigBase.RoundTrip.{all_distinct, decode_big_base-encode_big_base}

abbrev codes : String → List ℕ
codes String.[] = []
codes (String.◌∷◌ c s) = code c ∷ codes s

abbrev base58 : List ℕ
base58 = codes "123456789ABCDEFGHJKLMNPQRSTUVWXYZabcdefghijkmnopqrstuvwxyz"

encode_run : encode_big_base (codes "hello") base58 ≡ codes "Cn8eVZg"
unfolding encode_big_base
encode_run = refl

zeros_run : encode_big_base (0 ∷ 0 ∷ 1 ∷ []) base58 ≡ codes "112"
unfolding encode_big_base
zeros_run = refl

refused_run : decode_big_base (codes "0OIl") base58 ≡ none
unfolding decode_big_base
refused_run = refl

base58-all_distinct : all_distinct base58 ≡ true
base58-all_distinct = refl

decode_big_base-encode_big_base_example :
    decode_big_base (encode_big_base (0 ∷ 104 ∷ 105 ∷ []) base58) base58 ≡ some (0 ∷ 104 ∷ 105 ∷ [])
decode_big_base-encode_big_base_example =
    decode_big_base-encode_big_base base58 (0 ∷ 104 ∷ 105 ∷ []) base58-all_distinct (omega arith)
      (omega arith)

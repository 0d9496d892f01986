-- ===== src/Orchestrator/Resolve/Hash.antt =====
-- The hash of a task (hashTask of internal/orchestrator/autoresolve.go): FNV-1a over the bytes of
-- the text in UTF-8, on 64 bits; and strings.Fields with strings.Join by single spaces.
use Prim.Native.Nat.{bit_xor}
use Prim.Native.Char.{code}
use kyoci_agent.Prelude.{
  ℕ, ◌+◌, ◌*◌, ◌/◌, ◌%◌, ◌^◌, String, str_append, List, [], ◌∷◌, ◌++◌, ltb, if◌then◌else◌, Bool,
  true, false, keep,
}
use kyoci_agent.Prelude.Text.{is_space, cons_to_first}

abbrev pub utf8 : ℕ → List ℕ
utf8 c =
    if ltb c 0x80
    then c ∷ []
    else if ltb c 0x800
    then (0xC0 + c / 64) ∷ (0x80 + c % 64) ∷ []
    else if ltb c 0x10000
    then (0xE0 + c / 4096) ∷ (0x80 + c / 64 % 64) ∷ (0x80 + c % 64) ∷ []
    else (0xF0 + c / 262144) ∷ (0x80 + c / 4096 % 64) ∷ (0x80 + c / 64 % 64) ∷ (0x80 + c % 64) ∷ []

unfoldable pub bytes_of : String → List ℕ
bytes_of String.[] = []
bytes_of (String.◌∷◌ c s) = utf8 (code c) ++ bytes_of s

-- h ^= byte; h *= prime64, on a uint64.
unfoldable pub hash_bytes : ℕ → List ℕ → ℕ
hash_bytes h [] = h
hash_bytes h (b ∷ bs) = hash_bytes (bit_xor h b * 1099511628211 % 2 ^ 64) bs

unfoldable pub hash_text : String → ℕ
unfolding bytes_of hash_bytes
hash_text s = hash_bytes 14695981039346656037 (bytes_of s)

-- The pieces between the spaces, of which strings.Fields leaves out the empty ones.
unfoldable pub split_spaces : String → List String
unfolding cons_to_first is_space
split_spaces String.[] = "" ∷ []
split_spaces (String.◌∷◌ c s) =
    let rest = split_spaces s in if is_space (code c) then "" ∷ rest else cons_to_first c rest

abbrev pub has_text : String → Bool
has_text String.[] = false
has_text (String.◌∷◌ c s) = true

-- strings.Join with a space
unfoldable pub join_words : List String → String
join_words [] = ""
join_words (w ∷ []) = w
join_words (w ∷ v ∷ ws) = str_append w (str_append " " (join_words (v ∷ ws)))

unfoldable pub join_fields : String → String
unfolding split_spaces join_words
join_fields s = join_words (keep has_text (split_spaces s))

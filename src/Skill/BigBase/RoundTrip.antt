-- ===== src/Skill/BigBase/RoundTrip.antt =====
-- Decoding what encoding made (internal/skill/builtin/encoding_extended.go).
use mathlib.Core.List.{reverse, reverse-cons, reverse-reverse, map-append}
use kyoci_agent.Prelude.{
  ℕ, zero, suc, ◌+◌, ◌<◌, ◌≡◌, ◌≢◌, refl, sym, ap, subst, ◌∙◌, Bool, true, false, not, ◌&&◌, none,
  some, List, [], ◌∷◌, ◌++◌, map, any, ◌==◌, ==_iff, ==_refl, length, get_elem?, All, All-append,
  arith, Bool-cases, inl, inr,
}
use kyoci_agent.Skill.BigBase.{
  leading, read_from, digits, repeat_byte, char_of, encode_big_base, position_from, positions,
  bytes_of, decode_big_base,
}
use kyoci_agent.Skill.BigBase.Digits.{
  value, LastNot0, read_from-reverse, value-digits_from, digits_from_lt, digits_from-LastNot0,
  digits_from-value,
}

-- No byte occurs twice.
abbrev pub all_distinct : List ℕ → Bool
all_distinct [] = true
all_distinct (a ∷ rest) = not (any (λ b. b == a) rest) && all_distinct rest

position_from-none :
    (k : ℕ) (rest : List ℕ) (a : ℕ) → any (λ b. b == a) rest ≡ false → position_from k rest a ≡ none
unfolding position_from
position_from-none k [] a h = refl
position_from-none k (b ∷ rest) a h = ground (arith, h, position_from-none (suc k) rest a)

get_elem?-any :
    (rest : List ℕ) (i c : ℕ) → get_elem? rest i ≡ some c → any (λ b. b == c) rest ≡ true
get_elem?-any [] i c h = cc
get_elem?-any (b ∷ rest) zero c h = ground (arith, h)
get_elem?-any (b ∷ rest) (suc i) c h = ground (arith, get_elem?-any rest i c h)

position_from-get_elem? :
    (k : ℕ) (alphabet : List ℕ) (i c : ℕ)
    → all_distinct alphabet ≡ true
    → get_elem? alphabet i ≡ some c
    → position_from k alphabet c ≡ some (k + i)
unfolding position_from
position_from-get_elem? k [] i c d h = cc
position_from-get_elem? k (a ∷ rest) zero c d h =
    ground (arith, d, h, position_from-none (suc k) rest c)
position_from-get_elem? k (a ∷ rest) (suc i) c d h =
    ground (arith, d, position_from-get_elem? (suc k) rest i c (ground (arith, d)) h)

in_range :
    (alphabet : List ℕ) (i : ℕ)
    → i < length alphabet
    → get_elem? alphabet i ≡ some (char_of alphabet i)
in_range [] i h = absurd (omega arith)
in_range (a ∷ rest) zero h = refl
in_range (a ∷ rest) (suc i) h = in_range rest i (omega arith)

module _ (alphabet : List ℕ) (distinct : all_distinct alphabet ≡ true) where
  position_of_char :
      (i : ℕ) → i < length alphabet → position_from 0 alphabet (char_of alphabet i) ≡ some i
  position_of_char i h =
      position_from-get_elem? 0 alphabet i (char_of alphabet i) distinct (in_range alphabet i h)
      ∙ ap some (omega arith)

  positions_of_map :
      (ds : List ℕ)
      → All (λ d. d < length alphabet) ds
      → positions alphabet (map (char_of alphabet) ds) ≡ some ds
  unfolding positions
  positions_of_map [] h = refl
  positions_of_map (d ∷ ds) h =
      rw (position_of_char d h.0, positions) (rw (positions_of_map ds h.1) refl)

  char_of-0 : (i : ℕ) → i < length alphabet → (char_of alphabet i == char_of alphabet 0) ≡ (i == 0)
  char_of-0 zero h = ==_refl (char_of alphabet 0)
  char_of-0 (suc i) h = elim (Bool-cases (char_of alphabet (suc i) == char_of alphabet 0)) [
    | inr e ↦ ground (arith, e)
    | inl e ↦ absurd (
        ground (
          arith,
          position_of_char (suc i) h,
          position_of_char 0 (omega arith),
          ap (position_from 0 alphabet) ((==_iff _ _).0 e),
        ))
  ]

  leading_of_map :
      (ds : List ℕ)
      → All (λ d. d < length alphabet) ds
      → leading (char_of alphabet 0) (map (char_of alphabet) ds) ≡ leading 0 ds
  unfolding leading
  leading_of_map [] h = refl
  leading_of_map (d ∷ ds) h = ground (arith, char_of-0 d h.0, leading_of_map ds h.1)

decode_big_base_lem :
    (cs alphabet is : List ℕ)
    → positions alphabet cs ≡ some is
    → decode_big_base cs alphabet
      ≡ some (
          repeat_byte (leading (char_of alphabet 0) cs) 0
          ++ bytes_of (read_from (length alphabet) 0 is))
unfolding decode_big_base positions bytes_of read_from
decode_big_base_lem [] alphabet is h =
    subst (λ js. decode_big_base [] alphabet ≡ some (bytes_of (read_from (length alphabet) 0 js)))
      (nothing_read is h) refl
  where
    nothing_read : (js : List ℕ) → positions alphabet [] ≡ some js → [] ≡ js
    nothing_read js e = cc
decode_big_base_lem (c ∷ cs) alphabet is h = rw (h, decode_big_base) refl

map-reverse : (f : ℕ → ℕ) (ds : List ℕ) → map f (reverse ds) ≡ reverse (map f ds)
map-reverse f [] = refl
map-reverse f (d ∷ ds) =
    ap (map f) (reverse-cons d ds)
    ∙ map-append f (reverse ds) (d ∷ [])
    ∙ ap (λ rest. rest ++ f d ∷ []) (map-reverse f ds)
    ∙ sym (reverse-cons (f d) (map f ds))

map-repeat_byte : (f : ℕ → ℕ) (n c : ℕ) → map f (repeat_byte n c) ≡ repeat_byte n (f c)
map-repeat_byte f zero c = refl
map-repeat_byte f (suc n) c = ap (λ rest. f c ∷ rest) (map-repeat_byte f n c)

All-reverse {ℓ} : (P : ℕ → Type ℓ) (ds : List ℕ) → All P ds → All P (reverse ds)
All-reverse P [] h = tt
All-reverse P (d ∷ ds) h =
    rw (reverse-cons d ds) (All-append P (reverse ds) (d ∷ []) (All-reverse P ds h.1) (h.0, tt))

All-repeat_byte {ℓ} : (P : ℕ → Type ℓ) (n c : ℕ) → P c → All P (repeat_byte n c)
All-repeat_byte P zero c h = tt
All-repeat_byte P (suc n) c h = (h, All-repeat_byte P n c h)

read_from-repeat_byte :
    (base n : ℕ) (ds : List ℕ) → read_from base 0 (repeat_byte n 0 ++ ds) ≡ read_from base 0 ds
unfolding read_from
read_from-repeat_byte base zero ds = refl
read_from-repeat_byte base (suc n) ds =
    ap (λ m. read_from base m (repeat_byte n 0 ++ ds)) (omega arith)
    ∙ read_from-repeat_byte base n ds

leading-repeat_byte : (n : ℕ) (ds : List ℕ) → leading 0 (repeat_byte n 0 ++ ds) ≡ n + leading 0 ds
unfolding leading
leading-repeat_byte zero ds = omega arith
leading-repeat_byte (suc n) ds = omega (arith, leading-repeat_byte n ds)

reverse_head :
    (d : ℕ) (ds : List ℕ)
    → LastNot0 (d ∷ ds)
    → (x : ℕ) × (xs : List ℕ) × (reverse (d ∷ ds) ≡ x ∷ xs) × (x ≢ 0)
reverse_head d [] h = (d, [], refl, h)
reverse_head d (e ∷ ds) h =
    let (x, xs, eq, p) = reverse_head e ds h in
    (x, xs ++ d ∷ [], reverse-cons d (e ∷ ds) ∙ ap (λ rest. rest ++ d ∷ []) eq, p)

leading-reverse : (ds : List ℕ) → LastNot0 ds → leading 0 (reverse ds) ≡ 0
unfolding leading
leading-reverse [] h = refl
leading-reverse (d ∷ ds) h =
    let (x, xs, eq, p) = reverse_head d ds h in ap (leading 0) eq ∙ ground (arith, p)

LastNot0-snoc : (ds : List ℕ) (d : ℕ) → d ≢ 0 → LastNot0 (ds ++ d ∷ [])
LastNot0-snoc [] d h = h
LastNot0-snoc (e ∷ []) d h = h
LastNot0-snoc (e ∷ f ∷ ds) d h = LastNot0-snoc (f ∷ ds) d h

-- The zeros at the front, and the rest.
split_zeros :
    (bs : List ℕ)
    → All (λ b. b < 256) bs
    → (rest : List ℕ) × (bs ≡ repeat_byte (leading 0 bs) 0 ++ rest)
      × LastNot0 (reverse rest)
      × All (λ b. b < 256) rest
unfolding leading
split_zeros [] h = ([], refl, tt, tt)
split_zeros (b ∷ bs) h = elim (Bool-cases (b == 0)) [
  | inr e ↦ (
    b ∷ bs,
    rw e refl,
    rw (reverse-cons b bs) (LastNot0-snoc (reverse bs) b (ground (arith, e))),
    h,
  )
  | inl e ↦
      (let (rest, split, last, small) = split_zeros bs h.1 in
        (rest, rw e (ground (arith, e, split)), last, small))
]

module _ (alphabet : List ℕ) where
  number_of : List ℕ → ℕ
  number_of bs = read_from 256 0 bs

  written : List ℕ → List ℕ
  written bs = digits (length alphabet) (number_of bs)

  encode_big_base_lem :
      (bs : List ℕ)
      → encode_big_base bs alphabet
        ≡ map (char_of alphabet) (repeat_byte (leading 0 bs) 0 ++ reverse (written bs))
  unfolding encode_big_base written number_of
  encode_big_base_lem [] = refl
  encode_big_base_lem (b ∷ bs) =
      ap (λ back. repeat_byte (leading 0 (b ∷ bs)) (char_of alphabet 0) ++ back)
        (sym (map-reverse (char_of alphabet) (digits (length alphabet) (read_from 256 0 (b ∷ bs)))))
      ∙ ap
          (λ front.
            front
            ++ map (char_of alphabet)
                (reverse (digits (length alphabet) (read_from 256 0 (b ∷ bs)))))
          (sym (map-repeat_byte (char_of alphabet) (leading 0 (b ∷ bs)) 0))
      ∙ sym (
          map-append (char_of alphabet) (repeat_byte (leading 0 (b ∷ bs)) 0)
            (reverse (digits (length alphabet) (read_from 256 0 (b ∷ bs)))))

  -- The bytes of the number, behind the zeros.
  bytes_of-number_of :
      (bs : List ℕ)
      → All (λ b. b < 256) bs
      → repeat_byte (leading 0 bs) 0 ++ bytes_of (number_of bs) ≡ bs
  unfolding bytes_of number_of digits
  bytes_of-number_of bs small =
      let (rest, split, last, small_rest) = split_zeros bs small in
      let number : number_of bs ≡ value 256 (reverse rest) =
        ap (read_from 256 0) split
        ∙ read_from-repeat_byte 256 (leading 0 bs) rest
        ∙ ap (read_from 256 0) (sym (reverse-reverse rest))
        ∙ read_from-reverse 256 (reverse rest) in
      let shortest =
        digits_from-value (suc (value 256 (reverse rest))) 256 (reverse rest) (omega arith)
          (All-reverse (λ b. b < 256) rest small_rest) last (omega arith) in
      ap (λ back. repeat_byte (leading 0 bs) 0 ++ back)
        (ap bytes_of number ∙ ap reverse shortest ∙ reverse-reverse rest)
      ∙ sym split

  written-IsDigits :
      (bs : List ℕ)
      → 1 < length alphabet
      → All (λ d. d < length alphabet) (written bs)
        × LastNot0 (written bs)
        × (value (length alphabet) (written bs) ≡ number_of bs)
  unfolding written digits
  written-IsDigits bs two =
      let n = number_of bs in
      let base = length alphabet in
      (
        digits_from_lt (suc n) base n two,
        digits_from-LastNot0 (suc n) base n two (omega arith),
        value-digits_from (suc n) base n two (omega arith),
      )

  -- With an alphabet of at least two bytes, none of which occurs twice, decodeBigBase gives back
  -- every sequence of bytes that encodeBigBase has encoded, the zeros at its front included.
  pub decode_big_base-encode_big_base :
      (bs : List ℕ)
      → all_distinct alphabet ≡ true
      → 1 < length alphabet
      → All (λ b. b < 256) bs
      → decode_big_base (encode_big_base bs alphabet) alphabet ≡ some bs
  decode_big_base-encode_big_base bs distinct two small =
      let z : ℕ = leading 0 bs in
      let is = repeat_byte z 0 ++ reverse (written bs) in
      let (small_digits, last, number) = written-IsDigits bs two in
      let small_is =
        All-append (λ d. d < length alphabet) (repeat_byte z 0) (reverse (written bs))
          (All-repeat_byte (λ d. d < length alphabet) z 0 (omega arith))
          (All-reverse (λ d. d < length alphabet) (written bs) small_digits) in
      let zeros : leading (char_of alphabet 0) (map (char_of alphabet) is) ≡ z =
        leading_of_map alphabet distinct is small_is
        ∙ leading-repeat_byte z (reverse (written bs))
        ∙ ap (λ n. z + n) (leading-reverse (written bs) last)
        ∙ omega arith in
      let read : read_from (length alphabet) 0 is ≡ number_of bs =
        read_from-repeat_byte (length alphabet) z (reverse (written bs))
        ∙ read_from-reverse (length alphabet) (written bs)
        ∙ number in
      ap (λ cs. decode_big_base cs alphabet) (encode_big_base_lem bs)
      ∙ decode_big_base_lem (map (char_of alphabet) is) alphabet is
          (positions_of_map alphabet distinct is small_is)
      ∙ ap (λ n. some (repeat_byte n 0 ++ bytes_of (read_from (length alphabet) 0 is))) zeros
      ∙ ap (λ n. some (repeat_byte z 0 ++ bytes_of n)) read
      ∙ ap some (bytes_of-number_of bs small)

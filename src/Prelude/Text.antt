-- ===== src/Prelude/Text.antt =====
-- The functions of Go's package `strings` that the modelled code calls, on native texts.
use Prim.Native.Nat.{ℕ, zero, suc, ◌+◌, ◌/◌, ◌%◌, compare, Ordering}
use Prim.Native.Char.{Char, char, nul, code}
use Prim.Native.String.{String, ◌++◌}
use mathlib.Core.Path.{◌≡◌, refl}
use mathlib.Core.Bool.{Bool, true, false, ◌&&◌, ◌||◌}
use mathlib.Core.List.{List, [], ◌∷◌}
use mathlib.Core.Option.{Option, none, some}
use text.Mathlib.Text.{starts_with, find?}
use kyoci_agent.Prelude.Tests.{ltb, leb, ◌==◌, if◌then◌else◌}

-- unicode.IsSpace
unfoldable pub is_space : ℕ → Bool
is_space c =
    (leb 9 c && leb c 13)
    || c == 32
    || c == 0x85
    || c == 0xA0
    || c == 0x1680
    || (leb 0x2000 c && leb c 0x200A)
    || c == 0x2028
    || c == 0x2029
    || c == 0x202F
    || c == 0x205F
    || c == 0x3000

unfoldable pub trim_left : String → String
unfolding is_space
trim_left String.[] = String.[]
trim_left (String.◌∷◌ c s) =
    let rest = trim_left s in if is_space (code c) then rest else String.◌∷◌ c s

-- Drops the spaces at the end: a character stays if it is no space or something stays behind it.
keep_unless_last : Char → String → String
unfolding is_space
keep_unless_last c String.[] = if is_space (code c) then String.[] else String.◌∷◌ c String.[]
keep_unless_last c (String.◌∷◌ d s) = String.◌∷◌ c (String.◌∷◌ d s)

unfoldable pub trim_right : String → String
unfolding keep_unless_last
trim_right String.[] = String.[]
trim_right (String.◌∷◌ c s) = keep_unless_last c (trim_right s)

-- strings.TrimSpace
unfoldable pub trim_space : String → String
unfolding trim_left trim_right
trim_space s = trim_right (trim_left s)

-- strings.HasPrefix
abbrev pub has_prefix : String → String → Bool
has_prefix s prefix = starts_with s prefix

abbrev pub digit : ℕ → String
digit n =
    if n == 0
    then "0"
    else if n == 1
    then "1"
    else if n == 2
    then "2"
    else if n == 3
    then "3"
    else if n == 4
    then "4"
    else if n == 5
    then "5"
    else if n == 6
    then "6"
    else if n == 7
    then "7"
    else if n == 8
    then "8"
    else "9"

itoa_loop : ℕ → ℕ → String
itoa_loop zero n = ""
itoa_loop (suc fuel) n =
    let front = itoa_loop fuel (n / 10) in if ltb n 10 then digit n else front ++ digit (n % 10)

-- fmt's %d for a number that is not negative. A number has no more digits than its successor.
unfoldable pub itoa : ℕ → String
unfolding itoa_loop
itoa n = itoa_loop (suc n) n

-- The pieces between the line feeds; one more than there are line feeds.
unfoldable pub cons_to_first : Char → List String → List String
cons_to_first c [] = String.◌∷◌ c String.[] ∷ []
cons_to_first c (l ∷ ls) = String.◌∷◌ c l ∷ ls

unfoldable pub split_lines : String → List String
unfolding cons_to_first
split_lines String.[] = "" ∷ []
split_lines (String.◌∷◌ c s) =
    let rest = split_lines s in if code c == 10 then "" ∷ rest else cons_to_first c rest

unfoldable pub join_lines : List String → String
join_lines [] = ""
join_lines (l ∷ []) = l
join_lines (l ∷ m ∷ ls) = l ++ ("\n" ++ join_lines (m ∷ ls))

-- An ASCII letter in lower case; other characters are left.
abbrev pub lower_code : ℕ → ℕ
lower_code c = if leb 65 c && leb c 90 then c + 32 else c

-- What is left of a text after a prefix in lower case, matched without regard to case.
unfoldable pub strip_prefix_fold : List ℕ → String → Option String
strip_prefix_fold [] s = some s
strip_prefix_fold (p ∷ ps) String.[] = none
strip_prefix_fold (p ∷ ps) (String.◌∷◌ c s) =
    let rest = strip_prefix_fold ps s in if lower_code (code c) == p then rest else none

-- The character with a number; U+0000 from 0xD800 on, where no ASCII letter is.
char_below : (n : ℕ) (o : Ordering) → compare n 55296 ≡ o → Char
char_below n Ordering.lt e = char n (rw e tt)
char_below n Ordering.eq e = nul
char_below n Ordering.gt e = nul

-- strings.ToLower as far as it gives ASCII letters: the ASCII capitals, the Kelvin sign and the
-- dotted I. Other letters are left, which a search for an ASCII text does not see.
lower_char : Char → Char
unfolding char_below
lower_char c =
    let n = code c + 32 in
    if leb 65 (code c) && leb (code c) 90
    then char_below n (compare n 55296) refl
    else if code c == 0x212A
    then char 107 tt
    else if code c == 0x130
    then char 105 tt
    else c

unfoldable pub lower_text : String → String
unfolding lower_char
lower_text String.[] = String.[]
lower_text (String.◌∷◌ c s) = String.◌∷◌ (lower_char c) (lower_text s)

-- strings.Contains
abbrev pub contains : String → String → Bool
contains s part = elim (find? s part) [ none ↦ false | some _ ↦ true ]

-- strings.Index, none for -1
unfoldable pub index_of : String → String → Option ℕ
index_of s part = find? s part

-- ===== src/Skill/Distance.antt =====
-- Distances of two texts: levenshtein of internal/skill/builtin/text.go and hammingDistance of
-- internal/skill/builtin/string_algorithms.go. A text is the list of its runes. A row of the table is
-- a list, and the loop over a row carries its left and its upper left neighbour.
pub mod Script
pub mod Rows
pub mod Compared
mod Tests
use kyoci_agent.Prelude.{
  ℕ, suc, ◌+◌, Bool, true, false, not, List, [], ◌∷◌, ltb, ◌==◌, if◌then◌else◌, length,
}
use kyoci_agent.Prelude.Int.{ℤ, pos, negsuc}

abbrev pub cost_of : ℕ → ℕ → ℕ
cost_of a b = if a == b then 0 else 1

-- The running minimum of the three neighbours.
unfoldable pub cell : ℕ → ℕ → ℕ → ℕ → ℕ → ℕ
cell a b above left diagonal =
    let least = if ltb (left + 1) (above + 1) then left + 1 else above + 1 in
    if ltb (diagonal + cost_of a b) least then diagonal + cost_of a b else least

-- The inner loop, from j = 1 on: what is left of the upper row and of the second text.
unfoldable pub fill_cells : ℕ → ℕ → ℕ → List ℕ → List ℕ → List ℕ
unfolding cell
fill_cells a left diagonal (above ∷ row) (b ∷ rt) =
    let here = cell a b above left diagonal in here ∷ fill_cells a here above row rt
fill_cells a left diagonal row rt = []

unfoldable pub next_row : ℕ → ℕ → List ℕ → List ℕ → List ℕ
unfolding fill_cells
next_row a i [] rt = i ∷ []
next_row a i (first ∷ row) rt = i ∷ fill_cells a i first row rt

-- The outer loop, over the first text.
unfoldable pub rows_from : ℕ → List ℕ → List ℕ → List ℕ → List ℕ
unfolding next_row
rows_from i prev [] rt = prev
rows_from i prev (a ∷ rs) rt = rows_from (suc i) (next_row a i prev rt) rs rt

-- prev[j] = j
unfoldable pub first_row : ℕ → List ℕ → List ℕ
first_row j [] = j ∷ []
first_row j (b ∷ rt) = j ∷ first_row (suc j) rt

abbrev pub last_of : List ℕ → ℕ
last_of [] = 0
last_of (d ∷ []) = d
last_of (d ∷ e ∷ row) = last_of (e ∷ row)

abbrev pub is_empty : List ℕ → Bool
is_empty [] = true
is_empty (a ∷ rs) = false

unfoldable pub levenshtein : List ℕ → List ℕ → ℕ
unfolding rows_from first_row
levenshtein rs rt =
    if is_empty rs
    then length rt
    else if is_empty rt
    then length rs
    else last_of (rows_from 1 (first_row 0 rt) rs rt)

unfoldable pub count_differences : List ℕ → List ℕ → ℕ
count_differences (a ∷ ra) (b ∷ rb) =
    let rest = count_differences ra rb in if not (a == b) then suc rest else rest
count_differences ra rb = 0

unfoldable pub hamming_distance : List ℕ → List ℕ → ℤ
unfolding count_differences
hamming_distance ra rb =
    if not (length ra == length rb) then negsuc 0 else pos (count_differences ra rb)

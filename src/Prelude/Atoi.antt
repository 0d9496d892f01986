-- ===== src/Prelude/Atoi.antt =====
-- strconv.Atoi for a 64-bit int.
use Prim.Native.Nat.{ℕ, ◌+◌, ◌*◌, ◌-◌, ◌^◌}
use Prim.Native.Char.{code}
use Prim.Native.String.{String}
use mathlib.Core.Bool.{◌&&◌}
use mathlib.Core.Option.{Option, none, some}
use kyoci_agent.Prelude.Tests.{ltb, leb, ◌==◌, if◌then◌else◌}
use kyoci_agent.Prelude.Int.{ℤ, pos, negsuc}

-- The value of decimal digits behind `acc`; any other character is an error.
read_digits : ℕ → String → Option ℕ
read_digits acc String.[] = some acc
read_digits acc (String.◌∷◌ c s) =
    let rest = read_digits (acc * 10 + (code c - 48)) s in
    if leb 48 (code c) && leb (code c) 57 then rest else none

read_number : String → Option ℕ
unfolding read_digits
read_number String.[] = none
read_number (String.◌∷◌ c s) = read_digits 0 (String.◌∷◌ c s)

abbrev bound : ℕ
bound = 2 ^ 63

positive_int : Option ℕ → Option ℤ
positive_int none = none
positive_int (some n) = if ltb n bound then some (pos n) else none

negative_int : Option ℕ → Option ℤ
negative_int none = none
negative_int (some n) =
    if n == 0 then some (pos 0) else if leb n bound then some (negsuc (n - 1)) else none

unfoldable pub atoi : String → Option ℤ
unfolding read_number positive_int negative_int
atoi String.[] = none
atoi (String.◌∷◌ c s) =
    if code c == 45
    then negative_int (read_number s)
    else if code c == 43
    then positive_int (read_number s)
    else positive_int (read_number (String.◌∷◌ c s))

-- ===== src/Prelude/Int.antt =====
-- Go's `int` where it may be negative. No value here comes near 2^63.
use Prim.Native.Nat.{ℕ, suc, ◌+◌, ◌-◌, ◌*◌, ◌/◌}
use mathlib.Core.Path.{◌≡◌}
use mathlib.Core.Logic.{◌↔◌}
use mathlib.Core.Bool.{Bool, true, false, not}
use native.Mathlib.Omega.{arith}
use kyoci_agent.Prelude.Tests.{ltb, leb, ◌==◌, if◌then◌else◌}
use kyoci_agent.Prelude.Equality.{Eq}

-- `negsuc n` is -(n + 1).
pub data ℤ : Type 0 where
  pos : ℕ → ℤ
  negsuc : ℕ → ℤ

abbrev pub int_eq : ℤ → ℤ → Bool
int_eq (pos a) (pos b) = a == b
int_eq (negsuc a) (negsuc b) = a == b
int_eq (pos a) (negsuc b) = false
int_eq (negsuc a) (pos b) = false

pub int_eq_iff : (a b : ℤ) → (int_eq a b ≡ true) ↔ (a ≡ b)
int_eq_iff (pos a) (pos b) = ground arith
int_eq_iff (pos a) (negsuc b) = ground arith
int_eq_iff (negsuc a) (pos b) = ground arith
int_eq_iff (negsuc a) (negsuc b) = ground arith

instance abbrev pub eq_ℤ : Eq ℤ
eq_ℤ = record { beq = int_eq; beq_iff = int_eq_iff }

-- a < b
abbrev pub int_ltb : ℤ → ℤ → Bool
int_ltb (pos a) (pos b) = ltb a b
int_ltb (negsuc a) (negsuc b) = ltb b a
int_ltb (pos a) (negsuc b) = false
int_ltb (negsuc a) (pos b) = true

-- a + 1
abbrev pub int_suc : ℤ → ℤ
int_suc (pos n) = pos (suc n)
int_suc (negsuc n) = if n == 0 then pos 0 else negsuc (n - 1)

-- a <= b
abbrev pub int_leb : ℤ → ℤ → Bool
int_leb a b = not (int_ltb b a)

-- a - n
abbrev pub int_minus : ℤ → ℕ → ℤ
int_minus (pos a) n = if leb n a then pos (a - n) else negsuc (n - a - 1)
int_minus (negsuc a) n = negsuc (a + n)

-- a * n for a factor n that is not 0
abbrev pub int_times : ℤ → ℕ → ℤ
int_times (pos a) n = pos (a * n)
int_times (negsuc a) n = negsuc (suc a * n - 1)

-- Go's division of an int by 2, which rounds towards 0.
abbrev pub int_half : ℤ → ℤ
int_half (pos n) = pos (n / 2)
int_half (negsuc n) = if suc n / 2 == 0 then pos 0 else negsuc (suc n / 2 - 1)

abbrev pub int_product : ℤ → ℤ → ℤ
int_product (pos a) (pos b) = pos (a * b)
int_product (pos a) (negsuc b) = if a == 0 then pos 0 else negsuc (a * suc b - 1)
int_product (negsuc a) (pos b) = if b == 0 then pos 0 else negsuc (suc a * b - 1)
int_product (negsuc a) (negsuc b) = pos (suc a * suc b)

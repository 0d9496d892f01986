-- ===== src/Skill/BigBase/Digits.antt =====
-- The digits of a number and the number of digits (internal/skill/builtin/encoding_extended.go).
use mathlib.Core.List.{reverse, reverse-cons}
use kyoci_agent.Prelude.{
  ℕ, zero, suc, ◌+◌, ◌*◌, ◌/◌, ◌%◌, ◌<◌, ◌≡◌, ◌≢◌, refl, ap, ◌∙◌, false, List, [], ◌∷◌, ◌++◌, ◌==◌,
  All, arith, Bool-cases, inl, inr,
}
use native.Mathlib.Nat.{mod-lt, mod-add-div}
use kyoci_agent.Skill.BigBase.{read_from, digits_from}

-- The number that digits stand for, the least one first.
abbrev pub value : ℕ → List ℕ → ℕ
value base [] = 0
value base (d ∷ ds) = d + base * value base ds

-- Digits of a number in its shortest form: all below the base, the greatest one not 0.
abbrev pub LastNot0 : List ℕ → Type 0
LastNot0 [] = Unit
LastNot0 (d ∷ []) = d ≢ 0
LastNot0 (d ∷ e ∷ ds) = LastNot0 (e ∷ ds)

pub read_from-append :
    (base num : ℕ) (xs ys : List ℕ)
    → read_from base num (xs ++ ys) ≡ read_from base (read_from base num xs) ys
unfolding read_from
read_from-append base num [] ys = refl
read_from-append base num (x ∷ xs) ys = read_from-append base (num * base + x) xs ys

pub read_from-reverse : (base : ℕ) (ds : List ℕ) → read_from base 0 (reverse ds) ≡ value base ds
unfolding read_from
read_from-reverse base [] = refl
read_from-reverse base (d ∷ ds) =
    ap (read_from base 0) (reverse-cons d ds)
    ∙ read_from-append base 0 (reverse ds) (d ∷ [])
    ∙ ap (λ n. n * base + d) (read_from-reverse base ds)
    ∙ grind arith

div-lt : (n base : ℕ) → 1 < base → n ≢ 0 → n / base < n
div-lt n base h p = grind arith

pub value-digits_from :
    (fuel base num : ℕ) → 1 < base → num < fuel → value base (digits_from fuel base num) ≡ num
unfolding digits_from
value-digits_from zero base num h f = absurd (omega arith)
value-digits_from (suc fuel) base num h f = elim (Bool-cases (num == 0)) [
  | inl e ↦ rw e (ground (arith, e))
  | inr e ↦
      (let smaller = div-lt num base h (ground (arith, e)) in
        rw e (rw (value-digits_from fuel base (num / base) h (omega arith)) (mod-add-div num base)))
]

pub digits_from_lt :
    (fuel base num : ℕ) → 1 < base → All (λ d. d < base) (digits_from fuel base num)
unfolding digits_from
digits_from_lt zero base num h = tt
digits_from_lt (suc fuel) base num h = elim (Bool-cases (num == 0)) [
  | inl e ↦ rw e tt
  | inr e ↦ rw e (mod-lt num (omega arith), digits_from_lt fuel base (num / base) h)
]

LastNot0-cons : (d : ℕ) (ds : List ℕ) → (ds ≡ [] → d ≢ 0) → LastNot0 ds → LastNot0 (d ∷ ds)
LastNot0-cons d [] first h = first refl
LastNot0-cons d (e ∷ ds) first h = h

digits_from-nil : (fuel base num : ℕ) → num < fuel → digits_from fuel base num ≡ [] → num ≡ 0
unfolding digits_from
digits_from-nil zero base num f e = absurd (omega arith)
digits_from-nil (suc fuel) base num f e = ground (arith, e)

pub digits_from-LastNot0 :
    (fuel base num : ℕ) → 1 < base → num < fuel → LastNot0 (digits_from fuel base num)
unfolding digits_from
digits_from-LastNot0 zero base num h f = tt
digits_from-LastNot0 (suc fuel) base num h f = elim (Bool-cases (num == 0)) [
  | inl e ↦ rw e tt
  | inr e ↦
      (let smaller = div-lt num base h (ground (arith, e)) in
        let at_most = mod-add-div num base in
        rw e (
          LastNot0-cons (num % base) (digits_from fuel base (num / base))
            (λ none_left zero_digit.
              (let quotient = digits_from-nil fuel base (num / base) (omega arith) none_left in
                ground (arith, e, at_most, ap (λ q. base * q) quotient, zero_digit)))
            (digits_from-LastNot0 fuel base (num / base) h (omega arith))))
]

value_pos : (base d : ℕ) (ds : List ℕ) → 1 < base → LastNot0 (d ∷ ds) → 0 < value base (d ∷ ds)
value_pos base d [] h last = omega (arith, last)
value_pos base d (e ∷ ds) h last = grind (arith, value_pos base e ds h last)

value-div : (base d v : ℕ) → d < base → (d + base * v) / base ≡ v
value-div base d v h = grind arith

value-mod : (base d v : ℕ) → d < base → (d + base * v) % base ≡ d
value-mod base d v h = grind arith

tail-LastNot0 : (d : ℕ) (ds : List ℕ) → LastNot0 (d ∷ ds) → LastNot0 ds
tail-LastNot0 d [] last = tt
tail-LastNot0 d (e ∷ ds) last = last

value_tail_lt :
    (base d v fuel : ℕ) → 1 < base → 0 < d + base * v → d + base * v < suc fuel → v < fuel
value_tail_lt base d v fuel h p f = grind arith

-- The shortest form is found again.
pub digits_from-value :
    (fuel base : ℕ) (ds : List ℕ)
    → 1 < base
    → All (λ d. d < base) ds
    → LastNot0 ds
    → value base ds < fuel
    → digits_from fuel base (value base ds) ≡ ds
unfolding digits_from
digits_from-value zero base ds h lt last f = absurd (omega arith)
digits_from-value (suc fuel) base [] h lt last f = refl
digits_from-value (suc fuel) base (d ∷ ds) h lt last f =
    let v = value base ds in
    let positive = value_pos base d ds h last in
    let not_zero : (d + base * v == 0) ≡ false = ground (arith, positive) in
    rw (not_zero, value-mod base d v lt.0, value-div base d v lt.0)
      (ap (λ rest. d ∷ rest)
        (digits_from-value fuel base ds h lt.1 (tail-LastNot0 d ds last)
          (value_tail_lt base d v fuel h positive f)))

-- ===== src/Prelude/Windows.antt =====
-- The last elements of a list that grows.
use Prim.Native.Nat.{ℕ, zero, suc, ◌+◌, ◌-◌, ◌≤◌}
use mathlib.Core.Path.{◌≡◌, refl, ap, ◌∙◌}
use mathlib.Core.List.{List, [], ◌∷◌, ◌++◌}
use native.Mathlib.Omega.{arith}
use kyoci_agent.Prelude.Lists.{length, drop, length-append, length-drop}

module _ {ℓ} {A : Type ℓ} where
  pub drop-drop : (j k : ℕ) (xs : List A) → drop j (drop k xs) ≡ drop (k + j) xs
  drop-drop j zero xs = ap (λ n. drop n xs) (omega arith)
  drop-drop zero (suc k) [] = rw zero_first refl
    where
      zero_first : suc k + 0 ≡ suc k
      zero_first = omega arith
  drop-drop (suc j) (suc k) [] = rw suc_first refl
    where
      suc_first : suc k + suc j ≡ suc (k + suc j)
      suc_first = omega arith
  drop-drop j (suc k) (x ∷ xs) = rw suc_first (drop-drop j k xs)
    where
      suc_first : suc k + j ≡ suc (k + j)
      suc_first = omega arith

  pub drop-append : (k : ℕ) (xs ys : List A) → k ≤ length xs → drop k xs ++ ys ≡ drop k (xs ++ ys)
  drop-append zero xs ys h = refl
  drop-append (suc k) [] ys h = ground (arith, h)
  drop-append (suc k) (x ∷ xs) ys h = drop-append k xs ys (omega (arith, h))

  -- The last n elements.
  abbrev pub last_n : ℕ → List A → List A
  last_n n xs = drop (length xs - n) xs

  -- A window is all that the next window needs.
  pub last_n-snoc :
      (n : ℕ) (xs : List A) (x : A)
      → last_n (suc n) (last_n (suc n) xs ++ x ∷ []) ≡ last_n (suc n) (xs ++ x ∷ [])
  last_n-snoc n xs x =
      let k : ℕ = length xs - suc n in
      ap (last_n (suc n)) (drop-append k xs (x ∷ []) (omega arith))
      ∙ drop-drop (length (drop k (xs ++ x ∷ [])) - suc n) k (xs ++ x ∷ [])
      ∙ ap (λ j. drop j (xs ++ x ∷ []))
          (omega (arith, length-drop k (xs ++ x ∷ []), length-append xs (x ∷ [])))

-- ===== src/Agent/Planner/Closing.antt =====
-- What the scan of extractOutermostArray (internal/agent/orchestrated.go) takes, as a text of the grammar
-- of brackets.
use Prim.Native.Char.{Char, code}
use kyoci_agent.Prelude.{
  ℕ, zero, suc, ◌≡◌, ◌≢◌, refl, sym, ap, ◌∙◌, ◌⊎◌, inl, inr, String, false, Bool-cases, some, ◌==◌,
  ==_iff, arith,
}
use kyoci_agent.Agent.Planner.{Scan, scan_start, scan_char, closes, take_array}
use kyoci_agent.Agent.Planner.Grammar.{
  Literal, quote_end, escape, letter, Balanced, nothing, other, string, brackets, write_literal,
  write, IsArray,
}
use kyoci_agent.Agent.Planner.Brackets.{
  Mode, plain, quoted, escaped, scan_in, scan_back, some_injective, take_array_last,
}

equal_or_not : (a b : ℕ) → (a ≡ b) ⊎ (a ≢ b)
equal_or_not a b = elim (Bool-cases (a == b)) [
  | inl e ↦ inl ((==_iff a b).0 e)
  | inr e ↦ inr (λ same. ground (arith, e, (==_iff a b).1 same))
]

-- A text that closes n open brackets and ends with the last of them.
abbrev Closing : ℕ → String → Type 0
Closing zero a = a ≡ String.[]
Closing (suc n) a =
    (bal : Balanced) × (c : Char) × (rest : String) × (code c ≡ 93)
    × (a ≡ write bal (String.◌∷◌ c rest))
    × Closing n rest

abbrev InString : ℕ → String → Type 0
InString n a = (l : Literal) × (rest : String) × (a ≡ write_literal l rest) × Closing n rest

abbrev Held : Mode → ℕ → String → Type 0
Held plain n a = Closing n a
Held quoted n a = InString n a
Held escaped n a = (c : Char) × (rest : String) × (a ≡ String.◌∷◌ c rest) × InString n rest

-- One more character in front.
module _ (n : ℕ) (c : Char) (a b : String) (same : a ≡ String.◌∷◌ c b) where
  put_letter : code c ≢ 34 → code c ≢ 92 → InString n b → InString n a
  put_letter q k (l, rest, inner, left) =
      (letter c q k l, rest, same ∙ ap (String.◌∷◌ c) inner, left)

  put_escape : code c ≡ 92 → Held escaped n b → InString n a
  put_escape k (d, behind, split, (l, rest, inner, left)) =
      (escape c d k l, rest, same ∙ ap (String.◌∷◌ c) (split ∙ ap (String.◌∷◌ d) inner), left)

  put_other : code c ≢ 34 → code c ≢ 91 → code c ≢ 93 → Closing (suc n) b → Closing (suc n) a
  put_other q o k (bal, ends, rest, h, inner, more) =
      (other c q o k bal, ends, rest, h, same ∙ ap (String.◌∷◌ c) inner, more)

  put_string : code c ≡ 34 → InString (suc n) b → Closing (suc n) a
  put_string q (l, behind, split, (bal, ends, rest, h, inner, more)) = (
    string c q l bal,
    ends,
    rest,
    h,
    same ∙ ap (String.◌∷◌ c) (split ∙ ap (write_literal l) inner),
    more,
  )

  put_open : code c ≡ 91 → Closing (suc (suc n)) b → Closing (suc n) a
  put_open o (within, last, behind, k, split, (bal, ends, rest, h, inner, more)) = (
    brackets c last o k within bal,
    ends,
    rest,
    h,
    same ∙ ap (String.◌∷◌ c) (split ∙ ap (λ x. write within (String.◌∷◌ last x)) inner),
    more,
  )

-- The scan at a closing bracket, for what it takes behind it.
last_bracket :
    (c : Char) (s a : String) (n : ℕ)
    → code c ≡ 93
    → ((m : ℕ) (b : String) → take_array (scan_in plain (suc m)) s ≡ some b → Closing (suc m) b)
    → take_array (scan_in plain (suc n)) (String.◌∷◌ c s) ≡ some a
    → Closing (suc n) a
unfolding closes scan_char
last_bracket c s a zero k behind e = (
  nothing,
  c,
  String.[],
  k,
  some_injective (sym e ∙ take_array_last (scan_in plain 1) c s (ground (arith, k))),
  refl,
)
last_bracket c s a (suc n) k behind e =
    let (b, found, same) =
      scan_back (scan_in plain (suc (suc n))) (scan_in plain (suc n)) c s (ground (arith, k))
        (ground (arith, k)) a e in
    (nothing, c, b, k, same, behind n b found)

-- What the scan takes, from a place with n + 1 open brackets on, closes them.
take_array-Held :
    (mode : Mode) (n : ℕ) (s a : String)
    → take_array (scan_in mode (suc n)) s ≡ some a
    → Held mode (suc n) a
unfolding closes scan_char take_array
take_array-Held mode n String.[] a e = absurd (ground (arith, e))
take_array-Held escaped n (String.◌∷◌ c s) a e =
    let (b, found, same) =
      scan_back (scan_in escaped (suc n)) (scan_in quoted (suc n)) c s refl refl a e in
    (c, b, same, take_array-Held quoted n s b found)
take_array-Held quoted n (String.◌∷◌ c s) a e =
    let back = λ (next : Scan) (to : scan_char (scan_in quoted (suc n)) (code c) ≡ next).
      scan_back (scan_in quoted (suc n)) next c s refl to a e in
    elim (equal_or_not (code c) 34) [
      | inl q ↦
          (let (b, found, same) = back (scan_in plain (suc n)) (ground (arith, q)) in
            (quote_end c q, b, same, take_array-Held plain n s b found))
      | inr q ↦ elim (equal_or_not (code c) 92) [
        | inl k ↦
            (let (b, found, same) = back (scan_in escaped (suc n)) (ground (arith, k)) in
              put_escape (suc n) c a b same k (take_array-Held escaped n s b found))
        | inr k ↦
            (let (b, found, same) = back (scan_in quoted (suc n)) (ground (arith, q, k)) in
              put_letter (suc n) c a b same q k (take_array-Held quoted n s b found))
      ]
    ]
take_array-Held plain n (String.◌∷◌ c s) a e =
    let back =
      λ (next : Scan) (more : closes (scan_in plain (suc n)) (code c) ≡ false)
          (to : scan_char (scan_in plain (suc n)) (code c) ≡ next).
        scan_back (scan_in plain (suc n)) next c s more to a e in
    elim (equal_or_not (code c) 34) [
      | inl q ↦
          (let (b, found, same) =
              back (scan_in quoted (suc n)) (ground (arith, q)) (ground (arith, q)) in
            put_string n c a b same q (take_array-Held quoted n s b found))
      | inr q ↦ elim (equal_or_not (code c) 91) [
        | inl o ↦
            (let (b, found, same) =
                back (scan_in plain (suc (suc n))) (ground (arith, o)) (ground (arith, o)) in
              put_open n c a b same o (take_array-Held plain (suc n) s b found))
        | inr o ↦ elim (equal_or_not (code c) 93) [
          | inl k ↦ last_bracket c s a n k (λ m b. take_array-Held plain m s b) e
          | inr k ↦
              (let (b, found, same) =
                  back (scan_in plain (suc n)) (ground (arith, k)) (ground (arith, q, o, k)) in
                put_other n c a b same q o k (take_array-Held plain n s b found))
        ]
      ]
    ]

pub take_array_finds :
    (c : Char) (s a : String)
    → code c ≡ 91
    → take_array scan_start (String.◌∷◌ c s) ≡ some a
    → IsArray a
unfolding closes scan_char
take_array_finds c s a opens e =
    let (b, found, same) =
      scan_back scan_start (scan_in plain 1) c s (ground (arith, opens)) (ground (arith, opens)) a
        e in
    let (inner, ends, rest, h, split, at_end) = take_array-Held plain 0 s b found in
    (
      c,
      ends,
      inner,
      opens,
      h,
      same ∙ ap (String.◌∷◌ c) (split ∙ ap (λ x. write inner (String.◌∷◌ ends x)) at_end),
    )

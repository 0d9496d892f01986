-- ===== src/Agent/Planner/Brackets.antt =====
-- The scan of extractOutermostArray (internal/agent/orchestrated.go) over a text of the grammar of
-- brackets.
use Prim.Native.Char.{Char, code}
use kyoci_agent.Prelude.{
  ℕ, suc, ◌≡◌, refl, sym, ap, ◌∙◌, String, true, false, Option, none, some, arith,
}
use kyoci_agent.Agent.Planner.{Scan, scan_start, scan_char, closes, put_front, take_array}
use kyoci_agent.Agent.Planner.Grammar.{
  Literal, quote_end, escape, letter, Balanced, nothing, other, string, brackets, write_literal,
  write, IsArray,
}

pub some_injective : {a b : String} → some a ≡ some b → a ≡ b
some_injective e = ground (arith, e)

pub put_front-some :
    (c : Char) (o : Option String) (a : String)
    → put_front c o ≡ some a
    → (b : String) × (o ≡ some b) × (a ≡ String.◌∷◌ c b)
put_front-some c none a e = absurd (ground (arith, e))
put_front-some c (some b) a e = (b, refl, ground (arith, e))

module _ (sc : Scan) (c : Char) (s : String) where
  pub take_array_last :
      closes sc (code c) ≡ true → take_array sc (String.◌∷◌ c s) ≡ some (String.◌∷◌ c String.[])
  unfolding take_array
  take_array_last h = rw (h, take_array) refl

  pub take_array_more :
      closes sc (code c) ≡ false
      → take_array sc (String.◌∷◌ c s) ≡ put_front c (take_array (scan_char sc (code c)) s)
  unfolding take_array
  take_array_more h = rw (h, take_array) refl

-- Where the scan is: outside of strings, in one, or behind a backslash in one.
pub data Mode : Type 0 where
  plain : Mode
  quoted : Mode
  escaped : Mode

abbrev pub scan_in : Mode → ℕ → Scan
scan_in plain n = record { depth = n; in_str = false; escaped = false }
scan_in quoted n = record { depth = n; in_str = true; escaped = false }
scan_in escaped n = record { depth = n; in_str = true; escaped = true }

module _ (sc next : Scan) (c : Char) (s : String) (more : closes sc (code c) ≡ false)
    (to : scan_char sc (code c) ≡ next) where
  scan_on :
      (b : String)
      → take_array next s ≡ some b
      → take_array sc (String.◌∷◌ c s) ≡ some (String.◌∷◌ c b)
  scan_on b e =
      take_array_more sc c s more ∙ ap (λ x. put_front c (take_array x s)) to ∙ ap (put_front c) e

  pub scan_back :
      (a : String)
      → take_array sc (String.◌∷◌ c s) ≡ some a
      → (b : String) × (take_array next s ≡ some b) × (a ≡ String.◌∷◌ c b)
  scan_back a e =
      let (b, found, same) = put_front-some c _ a (sym (take_array_more sc c s more) ∙ e) in
      (b, sym (ap (λ x. take_array x s) to) ∙ found, same)

-- A balanced text is passed over, whatever the scan finds behind it.
take_array-write_literal :
    (l : Literal) (n : ℕ) (rest b : String)
    → take_array (scan_in plain n) rest ≡ some b
    → take_array (scan_in quoted n) (write_literal l rest) ≡ some (write_literal l b)
unfolding closes scan_char
take_array-write_literal (quote_end q h) n rest b e =
    scan_on (scan_in quoted n) (scan_in plain n) q rest refl (ground (arith, h)) b e
take_array-write_literal (escape u c h l) n rest b e =
    scan_on (scan_in quoted n) (scan_in escaped n) u _ refl (ground (arith, h)) _ (
      scan_on (scan_in escaped n) (scan_in quoted n) c _ refl refl _
        (take_array-write_literal l n rest b e))
take_array-write_literal (letter c h k l) n rest b e =
    scan_on (scan_in quoted n) (scan_in quoted n) c _ refl (ground (arith, h, k)) _
      (take_array-write_literal l n rest b e)

take_array-write :
    (bal : Balanced) (n : ℕ) (rest b : String)
    → take_array (scan_in plain (suc n)) rest ≡ some b
    → take_array (scan_in plain (suc n)) (write bal rest) ≡ some (write bal b)
unfolding closes scan_char
take_array-write nothing n rest b e = e
take_array-write (other c h k j bal) n rest b e =
    scan_on (scan_in plain (suc n)) (scan_in plain (suc n)) c _ (ground (arith, j))
      (ground (arith, h, k, j)) _ (take_array-write bal n rest b e)
take_array-write (string q h l bal) n rest b e =
    scan_on (scan_in plain (suc n)) (scan_in quoted (suc n)) q _ (ground (arith, h))
      (ground (arith, h)) _
      (take_array-write_literal l (suc n) _ _ (take_array-write bal n rest b e))
take_array-write (brackets o c h k inner bal) n rest b e =
    scan_on (scan_in plain (suc n)) (scan_in plain (suc (suc n))) o _ (ground (arith, h))
      (ground (arith, h)) _
      (take_array-write inner (suc n) _ _ (
        scan_on (scan_in plain (suc (suc n))) (scan_in plain (suc n)) c _ (ground (arith, k))
          (ground (arith, k)) _ (take_array-write bal n rest b e)))

pub take_array-IsArray : (a : String) → IsArray a → take_array scan_start a ≡ some a
unfolding closes scan_char
take_array-IsArray a (o, c, inner, opens, ends, same) =
    ap (take_array scan_start) same
    ∙ scan_on scan_start (scan_in plain 1) o _ (ground (arith, opens)) (ground (arith, opens)) _ (
        take_array-write inner 0 _ _
          (take_array_last (scan_in plain 1) c String.[] (ground (arith, ends))))
    ∙ ap some (sym same)

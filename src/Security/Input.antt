-- ===== src/Security/Input.antt =====
-- Sanitize and ValidateRequest (internal/security/security.go).
use Prim.Native.Char.{Char, code, len_utf8}
use Prim.Native.Nat.{compare, Ordering}
use Prim.Native.String.{slice, fits}
use Prim.Native.String.slice
use Prim.Native.String.len
use text.Mathlib.TextPositions.{len_utf8-pos}
use kyoci_agent.Prelude.{
  ℕ, ◌-◌, ◌*◌, ◌≤◌, String, len, str_eq, str_eq_iff, ◌≡◌, ◌≢◌, refl, inl, inr, Bool, true, false,
  ◌&&◌, some, arith, Bool-cases,
}
use kyoci_agent.Prelude.Int.{ℤ, pos, negsuc, int_ltb}
use kyoci_agent.Security.{
  SecurityConfig, SecurityManager, is_not_positive, second, is_allowed, clean, max_len, sanitize,
  new, validate_task, validate_request, execute_request, too_large,
}

-- Every character is one that the cleaning keeps.
unfoldable pub is_clean : String → Bool
unfolding is_allowed
is_clean String.[] = true
is_clean (String.◌∷◌ c s) = is_allowed (code c) && is_clean s

clean-is_clean : (s : String) → is_clean (clean s) ≡ true
unfolding clean is_clean
clean-is_clean String.[] = refl
clean-is_clean (String.◌∷◌ c s) = ground (arith, clean-is_clean s)

clean_fixes : (s : String) → is_clean s ≡ true → clean s ≡ s
unfolding clean is_clean
clean_fixes String.[] h = refl
clean_fixes (String.◌∷◌ c s) h = ground (arith, clean_fixes s)

fits-is_clean :
    (o : Ordering) (c : Char) (r : String)
    → is_allowed (code c) ≡ true
    → is_clean r ≡ true
    → is_clean (fits o c r) ≡ true
unfolding is_clean
fits-is_clean Ordering.lt c r a h = ground (arith, a, h)
fits-is_clean Ordering.eq c r a h = ground (arith, a, h)
fits-is_clean Ordering.gt c r a h = refl

slice-is_clean : (s : String) (k : ℕ) → is_clean s ≡ true → is_clean (slice s 0 k) ≡ true
unfolding is_clean
slice-is_clean String.[] k h = rw (slice.nil 0 k) refl
slice-is_clean (String.◌∷◌ c s) k h = rw (slice.cons-zero c s k) (
    fits-is_clean (compare (len_utf8 c) k) c _ (ground (arith, h))
      (slice-is_clean s (k - len_utf8 c) (ground (arith, h))))

len-fits :
    (c : Char) (r : String) (k : ℕ)
    → len r ≤ k - len_utf8 c
    → len (fits (compare (len_utf8 c) k) c r) ≤ k
len-fits c r k h = go (compare (len_utf8 c) k) refl
  where
    go : (o : Ordering) → compare (len_utf8 c) k ≡ o → len (fits o c r) ≤ k
    go Ordering.lt e = rw (len.cons c r) (ground (arith, e, h))
    go Ordering.eq e = rw (len.cons c r) (ground (arith, e, h))
    go Ordering.gt e = rw len.nil (omega arith)

len-slice : (s : String) (k : ℕ) → len (slice s 0 k) ≤ k
len-slice String.[] k = rw (slice.nil 0 k, len.nil) (omega arith)
len-slice (String.◌∷◌ c s) k =
    rw (slice.cons-zero c s k)
      (len-fits c (slice s 0 (k - len_utf8 c)) k (len-slice s (k - len_utf8 c)))

-- A cleaned input has no control character but newline, tab and carriage return, no DEL, and is no
-- longer than the limit.
pub sanitize-is_clean :
    (sm : SecurityManager) (input : String)
    → (is_clean (sanitize sm input) ≡ true) × (len (sanitize sm input) ≤ max_len sm)
unfolding sanitize
sanitize-is_clean sm input = ground (
  arith,
  clean-is_clean input,
  slice-is_clean (clean input) (max_len sm) (clean-is_clean input),
  len-slice (clean input) (max_len sm),
)

-- An input that is clean and short enough is left as it is.
pub sanitize_keeps :
    (sm : SecurityManager) (input : String)
    → is_clean input ≡ true
    → len input ≤ max_len sm
    → sanitize sm input ≡ input
unfolding sanitize
sanitize_keeps sm input c l = ground (arith, clean_fixes input c)

-- Cleaning a second time changes nothing.
pub sanitize_idempotent :
    (sm : SecurityManager) (input : String) → sanitize sm (sanitize sm input) ≡ sanitize sm input
sanitize_idempotent sm input =
    let (c, l) = sanitize-is_clean sm input in sanitize_keeps sm (sanitize sm input) c l

len_nonempty : (s : String) → s ≢ "" → 1 ≤ len s
len_nonempty String.[] n = elim (n refl) [ ]
len_nonempty (String.◌∷◌ c s) n = rw (len.cons c s) (omega (arith, (len_utf8-pos c).1))

too_large_for_none : (z : ℤ) (n : ℕ) → is_not_positive z ≡ true → 1 ≤ n → int_ltb z (pos n) ≡ true
too_large_for_none (pos k) n h l = ground arith
too_large_for_none (negsuc k) n h l = refl

str_eq_of_ne : (s t : String) → s ≢ t → str_eq s t ≡ false
str_eq_of_ne s t n = elim (Bool-cases (str_eq s t)) [
  | inl e ↦ elim (n ((str_eq_iff s t).0 e)) [ ]
  | inr e ↦ e
]

-- Where the maximal input size is not positive, the manager has a rate window of 10000 seconds,
-- whatever window was configured, and refuses every task that is not empty as too large.
pub new-no_input_size :
    (cfg : SecurityConfig) (task role session_id : String)
    → is_not_positive cfg.max_input_size ≡ true
    → task ≢ ""
    → ((new cfg).rate_window ≡ 10000 * second)
      × (validate_request (new cfg) (execute_request task role session_id)
          ≡ some (too_large cfg.max_input_size))
unfolding new validate_request validate_task
new-no_input_size cfg task role session_id z n = (
  rw z refl,
  rw
      (
        str_eq_of_ne task "" n,
        too_large_for_none cfg.max_input_size (len task) z (len_nonempty task n),
      )
      refl,
)

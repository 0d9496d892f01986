-- ===== src/Security.antt =====
-- The security manager (internal/security/security.go): API keys, the rate limit over a sliding
-- window, input cleaning and validation. The clock is an argument, in nanoseconds; the manager of the
-- source is shared by pointer, so an operation that writes returns the new one. The SHA-256 digest of a
-- key, in hexadecimal, is a parameter.
pub mod Window
pub mod Limit
pub mod Input
mod Tests
use Prim.Native.Char.{code}
use Prim.Native.String.{slice}
use kyoci_agent.Prelude.{
  eq_String, ℕ, ◌+◌, ◌*◌, String, len, str_eq, Bool, true, false, not, ◌&&◌, ◌||◌, Option, none,
  some, List, [], ◌∷◌, ◌++◌, ltb, leb, ◌==◌, if◌then◌else◌, length, keep,
}
use kyoci_agent.Prelude.Int.{ℤ, pos, negsuc, int_ltb}
use kyoci_agent.Prelude.Map.{Map, lookup, insert, has}
use kyoci_agent.Prelude.Text.{lower_text}

pub record SecurityConfig : Type 0 where
  pub enabled : Bool
  pub api_key_hashes : List String
  pub rate_limit_max : ℤ
  pub rate_window_sec : ℤ
  pub max_input_size : ℤ

-- `rate_limiter` holds the timestamps of a key.
pub record SecurityManager : Type 0 where
  pub config : SecurityConfig
  pub api_keys : Map String Bool
  pub rate_limiter : Map String (List ℕ)
  pub rate_window : ℕ
  pub rate_limit_max : ℕ

-- x <= 0
abbrev pub is_not_positive : ℤ → Bool
is_not_positive x = not (int_ltb (pos 0) x)

-- An int that is known to be positive.
abbrev pub positive : ℤ → ℕ
positive (pos n) = n
positive (negsuc n) = 0

unfoldable pub with_limit : SecurityConfig → SecurityConfig
with_limit cfg = record cfg {
  rate_limit_max = if is_not_positive cfg.rate_limit_max then pos 100 else cfg.rate_limit_max;
}

unfoldable pub with_window : SecurityConfig → SecurityConfig
with_window cfg = record cfg {
  rate_window_sec = if is_not_positive cfg.rate_window_sec then pos 60 else cfg.rate_window_sec;
}

-- The third default, assigned to the window as the source has it.
unfoldable pub with_input_size : SecurityConfig → SecurityConfig
with_input_size cfg = record cfg {
  rate_window_sec = if is_not_positive cfg.max_input_size then pos 10000 else cfg.rate_window_sec;
}

unfoldable pub key_set : List String → Map String Bool → Map String Bool
key_set [] keys = keys
key_set (h ∷ hs) keys = key_set hs (insert (lower_text h) true keys)

abbrev pub second : ℕ
second = 1000000000

unfoldable pub new : SecurityConfig → SecurityManager
unfolding with_limit with_window with_input_size key_set
new cfg0 =
    let cfg = with_input_size (with_window (with_limit cfg0)) in
    record {
      config = cfg;
      api_keys = key_set cfg.api_key_hashes [];
      rate_limiter = [];
      rate_window = positive cfg.rate_window_sec * second;
      rate_limit_max = positive cfg.rate_limit_max;
    }

unfoldable pub authenticate : (String → String) → SecurityManager → String → Bool
authenticate sha256_hex sm api_key =
    if not sm.config.enabled
    then true
    else if str_eq api_key ""
    then false
    else elim (lookup (lower_text (sha256_hex api_key)) sm.api_keys) [ none ↦ false | some v ↦ v ]

unfoldable pub key_of : String → String
key_of key = if str_eq key "" then "anonymous" else key

-- The entry of a key; a missing one is made empty.
unfoldable pub entry_of : Map String (List ℕ) → String → List ℕ
entry_of entries key = elim (lookup key entries) [ none ↦ [] | some ts ↦ ts ]

-- timestamp.After(now - window)
abbrev pub is_recent : ℕ → ℕ → ℕ → Bool
is_recent window now t = ltb now (t + window)

-- What the locked part does to the entry.
unfoldable pub admit : ℕ → ℕ → ℕ → List ℕ → Bool × List ℕ
admit window limit now timestamps =
    let recent = keep (is_recent window now) timestamps in
    if leb limit (length recent) then (false, recent) else (true, recent ++ now ∷ [])

unfoldable pub rate_limit : SecurityManager → String → ℕ → Bool × SecurityManager
unfolding key_of entry_of admit
rate_limit sm key now =
    if not sm.config.enabled
    then (true, sm)
    else (let (ok, ts) =
          admit sm.rate_window sm.rate_limit_max now (entry_of sm.rate_limiter (key_of key)) in
        (ok, record sm { rate_limiter = insert (key_of key) ts sm.rate_limiter }))

-- Newline, tab, carriage return, printable ASCII and everything beyond ASCII.
unfoldable pub is_allowed : ℕ → Bool
is_allowed r = r == 10 || r == 9 || r == 13 || (leb 32 r && leb r 126) || leb 128 r

unfoldable pub clean : String → String
unfolding is_allowed
clean String.[] = String.[]
clean (String.◌∷◌ c s) =
    let rest = clean s in if is_allowed (code c) then String.◌∷◌ c rest else rest

unfoldable pub max_len : SecurityManager → ℕ
max_len sm =
    if is_not_positive sm.config.max_input_size then 10000 else positive sm.config.max_input_size

unfoldable pub sanitize : SecurityManager → String → String
unfolding clean max_len
sanitize sm input =
    let result = clean input in
    if ltb (max_len sm) (len result) then slice result 0 (max_len sm) else result

-- The requests that are checked; any other value passes.
pub data Request : Type 0 where
  execute_request : (task role session_id : String) → Request
  stream_request : (task role session_id : String) → Request
  other_request : Request

pub data ValidationError : Type 0 where
  empty_task : ValidationError
  too_large : ℤ → ValidationError

unfoldable pub validate_task : SecurityManager → String → Option ValidationError
validate_task sm task =
    if str_eq task ""
    then some empty_task
    else if int_ltb sm.config.max_input_size (pos (len task))
    then some (too_large sm.config.max_input_size)
    else none

unfoldable pub validate_request : SecurityManager → Request → Option ValidationError
unfolding validate_task
validate_request sm (execute_request task role session_id) = validate_task sm task
validate_request sm (stream_request task role session_id) = validate_task sm task
validate_request sm other_request = none

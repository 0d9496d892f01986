-- ===== src/Security/Limit.antt =====
-- RateLimit (internal/security/security.go) on a sequence of requests with any keys, in the order in
-- which they take the lock of their entry. The clock does not go back in that order.
use kyoci_agent.Prelude.{
  eq_String, ℕ, ◌≤◌, String, str_eq, str_eq_iff, ◌≡◌, refl, ap, ◌∙◌, inl, inr, true, ◌&&◌, List, [],
  ◌∷◌, ◌++◌, arith, Bool-cases, ltb, if◌then◌else◌, count,
}
use mathlib.Core.List.{append-nil, append_assoc}
use kyoci_agent.Prelude.Map.{Map, lookup, insert, lookup-insert}
use kyoci_agent.Security.{SecurityConfig, SecurityManager, key_of, entry_of, admit, rate_limit, new}
use kyoci_agent.Security.Window.{
  in_window, Stands, after, admit-Stands, wait-Stands, start-Stands, admit_exact,
}

abbrev pub after_requests : SecurityManager → List (String × ℕ) → SecurityManager
after_requests sm [] = sm
after_requests sm ((key, now) ∷ es) = after_requests (rate_limit sm key now).1 es

-- When a key's requests were admitted.
abbrev pub admissions : String → SecurityManager → List (String × ℕ) → List ℕ
admissions key sm [] = []
admissions key sm ((k, now) ∷ es) =
    let rest = admissions key (rate_limit sm k now).1 es in
    if str_eq (key_of k) key && (rate_limit sm k now).0 then now ∷ rest else rest

abbrev pub IsOrdered : ℕ → List (String × ℕ) → Type 0
IsOrdered last [] = Unit
IsOrdered last ((k, now) ∷ es) = (last ≤ now) × IsOrdered now es

abbrev pub last_time : ℕ → List (String × ℕ) → ℕ
last_time last [] = last
last_time last ((k, now) ∷ es) = last_time now es

-- A manager that is enabled, and what an entry of it stands for.
record Holds (window limit last : ℕ) (key : String) (sm : SecurityManager) (admitted : List ℕ)
    : Type 0 where
  enabled : sm.config.enabled ≡ true
  window_of : sm.rate_window ≡ window
  limit_of : sm.rate_limit_max ≡ limit
  entry : Stands window limit last (entry_of sm.rate_limiter key) admitted

entry_of-insert :
    (j key : String) (ts : List ℕ) (m : Map String (List ℕ))
    → entry_of (insert j ts m) key ≡ (if str_eq j key then ts else entry_of m key)
unfolding entry_of
entry_of-insert j key ts m = rw (entry_of, lookup-insert j key ts m) (ground arith)

module _ (window limit : ℕ) (key : String) where
  -- The admissions of a key after one more request.
  abbrev grown : SecurityManager → String → ℕ → List ℕ → List ℕ
  grown sm k now admitted =
      if str_eq (key_of k) key && (rate_limit sm k now).0 then admitted ++ now ∷ [] else admitted

  module _ (now : ℕ) (sm : SecurityManager) (k : String) (on : sm.config.enabled ≡ true) where
    admits :
        (rate_limit sm k now).0
        ≡ (admit sm.rate_window sm.rate_limit_max now (entry_of sm.rate_limiter (key_of k))).0
    unfolding rate_limit
    admits = ground (arith, on)

    entries_after :
        (rate_limit sm k now).1.rate_limiter
        ≡ insert
            (key_of k)
            (admit sm.rate_window sm.rate_limit_max now (entry_of sm.rate_limiter (key_of k))).1
            sm.rate_limiter
    unfolding rate_limit
    entries_after = ground (arith, on)

    entry_after : entry_of (rate_limit sm k now).1.rate_limiter key ≡ (
        if str_eq (key_of k) key
        then (admit sm.rate_window sm.rate_limit_max now (entry_of sm.rate_limiter (key_of k))).1
        else entry_of sm.rate_limiter key)
    entry_after =
        ap (λ m. entry_of m key) entries_after ∙ entry_of-insert (key_of k) key _ sm.rate_limiter

  entry-Stands :
      (last now : ℕ) (sm : SecurityManager) (k : String) (admitted : List ℕ)
      → Holds window limit last key sm admitted
      → last ≤ now
      → Stands window limit now
          (entry_of (rate_limit sm k now).1.rate_limiter key)
          (grown sm k now admitted)
  entry-Stands last now sm k admitted h le = elim (Bool-cases (str_eq (key_of k) key)) [
    | inl s ↦
        (let same : key_of k ≡ key = (str_eq_iff (key_of k) key).0 s in
          let stands : Stands window limit now
              (admit window limit now (entry_of sm.rate_limiter key)).1
              (after window limit now (entry_of sm.rate_limiter key) admitted) =
            admit-Stands window limit last now (entry_of sm.rate_limiter key) admitted h.entry le in
          rw
            (
              entry_after now sm k h.enabled,
              admits now sm k h.enabled,
              s,
              same,
              h.window_of,
              h.limit_of,
            )
            stands)
    | inr d ↦
        rw (entry_after now sm k h.enabled, d)
          (wait-Stands window limit last now (entry_of sm.rate_limiter key) admitted h.entry le)
  ]

  rate_limit-Holds :
      (last now : ℕ) (sm : SecurityManager) (k : String) (admitted : List ℕ)
      → Holds window limit last key sm admitted
      → last ≤ now
      → Holds window limit now key (rate_limit sm k now).1 (grown sm k now admitted)
  unfolding rate_limit
  rate_limit-Holds last now sm k admitted h le = record {
    enabled = ground (arith, h.enabled);
    window_of = ground (arith, h.enabled, h.window_of);
    limit_of = ground (arith, h.enabled, h.limit_of);
    entry = entry-Stands last now sm k admitted h le;
  }

  -- All the admissions of a key, those before the requests included.
  requests-Holds :
      (es : List (String × ℕ)) (last : ℕ) (sm : SecurityManager) (admitted : List ℕ)
      → Holds window limit last key sm admitted
      → IsOrdered last es
      → Holds window limit
          (last_time last es)
          key
          (after_requests sm es)
          (admitted ++ admissions key sm es)
  requests-Holds [] last sm admitted h o = rw (append-nil admitted) h
  requests-Holds ((k, now) ∷ es) last sm admitted h o =
      let rest =
        requests-Holds es now (rate_limit sm k now).1 (grown sm k now admitted)
          (rate_limit-Holds last now sm k admitted h o.0) o.1 in
      elim (Bool-cases (str_eq (key_of k) key && (rate_limit sm k now).0)) [
        | inl e ↦ rw e (
            rw (← append_assoc admitted (now ∷ []) (admissions key (rate_limit sm k now).1 es))
              (rw e at rest))
        | inr e ↦ rw e (rw e at rest)
      ]

-- A fresh manager holds an empty window.
new-Holds :
    (cfg : SecurityConfig) (key : String)
    → cfg.enabled ≡ true
    → Holds (new cfg).rate_window (new cfg).rate_limit_max 0 key (new cfg) []
unfolding new entry_of lookup
new-Holds cfg key on = record {
  enabled = on;
  window_of = refl;
  limit_of = refl;
  entry = start-Stands _ _;
}

module _ (cfg : SecurityConfig) (key : String) (es : List (String × ℕ)) (on : cfg.enabled ≡ true)
    (ordered : IsOrdered 0 es) where
  -- For an enabled configuration and requests whose clocks do not go back, a key is admitted at most
  -- `rate_limit_max` times in any window of the configured length, wherever the window lies and
  -- whatever requests for other keys come between.
  pub rate_limit_bounded :
      (t : ℕ)
      → count (in_window (new cfg).rate_window t) (admissions key (new cfg) es)
        ≤ (new cfg).rate_limit_max
  rate_limit_bounded =
      (requests-Holds (new cfg).rate_window (new cfg).rate_limit_max key es 0 (new cfg) []
        (new-Holds cfg key on) ordered).entry.bounded

  -- For an enabled configuration, requests whose clocks do not go back and a key that is not empty, the
  -- next request is refused exactly when the window that ends with it holds `rate_limit_max`
  -- admissions of that key already: no request is refused without need.
  pub rate_limit_exact :
      (now : ℕ)
      → last_time 0 es ≤ now
      → key_of key ≡ key
      → (rate_limit (after_requests (new cfg) es) key now).0
        ≡ ltb
            (count (in_window (new cfg).rate_window now) (admissions key (new cfg) es))
            (new cfg).rate_limit_max
  rate_limit_exact now later named =
      let h =
        requests-Holds (new cfg).rate_window (new cfg).rate_limit_max key es 0 (new cfg) []
          (new-Holds cfg key on) ordered in
      admits (new cfg).rate_window (new cfg).rate_limit_max key now (after_requests (new cfg) es)
        key h.enabled
      ∙ rw (named, h.window_of, h.limit_of)
          (admit_exact (new cfg).rate_window (new cfg).rate_limit_max (last_time 0 es) now _
            (admissions key (new cfg) es) h.entry later)

-- ===== src/Gateway/ChatStore/Access.antt =====
-- Rate limit, trust and whitelist of the chats (internal/gateway/store.go).
use kyoci_agent.Prelude.{
  eq_String, ℕ, ◌+◌, ◌-◌, ◌≤◌, String, str_eq, ◌≡◌, refl, sym, ap, subst, ◌∙◌, ◌⊎◌, inl, inr, Bool,
  true, false, ◌&&◌, ◌||◌, Option, none, some, List, [], ◌∷◌, arith, Bool-cases, Option-cases, ltb,
  if◌then◌else◌,
}
use kyoci_agent.Prelude.Int.{ℤ, eq_ℤ, int_eq, int_eq_iff}
use kyoci_agent.Prelude.Map.{Map, lookup, insert, delete, lookup-insert, lookup-delete}
use kyoci_agent.Gateway.ChatStore.{
  ChatStore, get_or, check_rate, spam_window, is_trusted, set_trusted, is_whitelisted, whitelist_of,
  whitelist_tool, clear_whitelist,
}

pub get_or-insert {ℓ} :
    {V : Type ℓ} (z : V) (k j : ℤ) (v : V) (m : Map ℤ V)
    → get_or z j (insert k v m) ≡ (if int_eq k j then v else get_or z j m)
unfolding get_or
get_or-insert z k j v m = rw (get_or, lookup-insert k j v m) (ground arith)

pub get_or-delete {ℓ} :
    {V : Type ℓ} (z : V) (k j : ℤ) (m : Map ℤ V)
    → get_or z j (delete k m) ≡ (if int_eq k j then z else get_or z j m)
unfolding get_or
get_or-delete z k j m = rw (get_or, lookup-delete k j m) (ground arith)

-- setTrusted sets the trust of that chat and of no other.
pub is_trusted-set_trusted :
    (s : ChatStore) (chat_id other : ℤ) (on : Bool)
    → is_trusted (set_trusted s chat_id on) other
      ≡ (if int_eq chat_id other then on else is_trusted s other)
unfolding is_trusted set_trusted
is_trusted-set_trusted s chat_id other true = get_or-insert false chat_id other true s.trusted_chats
is_trusted-set_trusted s chat_id other false = get_or-delete false chat_id other s.trusted_chats

is_whitelisted-of :
    (s : ChatStore) (chat_id : ℤ) (tool : String)
    → is_whitelisted s chat_id tool
      ≡ elim (lookup tool (whitelist_of s chat_id)) as (λ x. Bool) [ none ↦ false | some ok ↦ ok ]
unfolding is_whitelisted whitelist_of get_or lookup
is_whitelisted-of s chat_id tool = elim (Option-cases (lookup chat_id s.session_whitelist)) [
  | inl e ↦ rw (is_whitelisted, whitelist_of, get_or, e) refl
  | inr (wl, e) ↦ rw (is_whitelisted, whitelist_of, get_or, e) refl
]

abbrev flag : Option Bool → Bool
flag none = false
flag (some ok) = ok

flag-insert :
    (t u : String) (wl : Map String Bool)
    → flag (lookup u (insert t true wl)) ≡ str_eq t u || flag (lookup u wl)
flag-insert t u wl = rw (lookup-insert t u true wl) (ground arith)

-- whitelistTool adds that tool for that chat, and clearWhitelist takes away all tools of that chat; every
-- other answer of isWhitelisted stays.
pub is_whitelisted-whitelist_tool :
    (s : ChatStore) (chat_id other : ℤ) (tool_name tool : String)
    → (is_whitelisted (whitelist_tool s chat_id tool_name) other tool
        ≡ (int_eq chat_id other && str_eq tool_name tool) || is_whitelisted s other tool)
      × (is_whitelisted (clear_whitelist s chat_id) other tool
          ≡ (if int_eq chat_id other then false else is_whitelisted s other tool))
unfolding whitelist_tool whitelist_of clear_whitelist lookup
is_whitelisted-whitelist_tool s chat_id other tool_name tool = (
  is_whitelisted-of (whitelist_tool s chat_id tool_name) other tool
      ∙ ap (λ m. flag (lookup tool m)) (get_or-insert [] chat_id other _ s.session_whitelist)
      ∙ added,
  is_whitelisted-of (clear_whitelist s chat_id) other tool
      ∙ ap (λ m. flag (lookup tool m)) (get_or-insert [] chat_id other _ s.session_whitelist)
      ∙ cleared,
)
  where
    added :
        flag (
          lookup tool (
            if int_eq chat_id other
            then insert tool_name true (whitelist_of s chat_id)
            else whitelist_of s other))
        ≡ (int_eq chat_id other && str_eq tool_name tool) || is_whitelisted s other tool
    added = elim (Bool-cases (int_eq chat_id other)) [
      | inl e ↦ rw e (
          flag-insert tool_name tool (whitelist_of s chat_id)
          ∙ ap (λ c. str_eq tool_name tool || c)
              (ap (λ c. flag (lookup tool (whitelist_of s c))) ((int_eq_iff chat_id other).0 e)
                ∙ sym (is_whitelisted-of s other tool)))
      | inr e ↦ rw e (sym (is_whitelisted-of s other tool))
    ]

    cleared :
        flag (lookup tool (if int_eq chat_id other then [] else whitelist_of s other))
        ≡ (if int_eq chat_id other then false else is_whitelisted s other tool)
    cleared = elim (Bool-cases (int_eq chat_id other)) [
      | inl e ↦ rw e refl
      | inr e ↦ rw e (sym (is_whitelisted-of s other tool))
    ]

-- The accepted messages of a user, as the two readings of the clock.
abbrev pub accepted : ℤ → ChatStore → List (ℤ × ℕ × ℕ) → List (ℕ × ℕ)
accepted user s [] = []
accepted user s ((id, now, recorded) ∷ msgs) =
    let rest = accepted user (check_rate s id now recorded).1 msgs in
    if (check_rate s id now recorded).0 && int_eq id user then (now, recorded) ∷ rest else rest

-- Each comes at least a window after the one before was recorded.
abbrev pub IsSpaced : Option ℕ → List (ℕ × ℕ) → Type 0
IsSpaced last [] = Unit
IsSpaced none ((now, recorded) ∷ ms) = IsSpaced (some recorded) ms
IsSpaced (some last) ((now, recorded) ∷ ms) =
    (last + spam_window ≤ now) × IsSpaced (some recorded) ms

abbrev IsDue : Option ℕ → ℕ → Type 0
IsDue none now = Unit
IsDue (some last) now = last + spam_window ≤ now

IsSpaced-cons :
    (last : Option ℕ) (now recorded : ℕ) (ms : List (ℕ × ℕ))
    → IsDue last now
    → IsSpaced (some recorded) ms
    → IsSpaced last ((now, recorded) ∷ ms)
IsSpaced-cons none now recorded ms d h = h
IsSpaced-cons (some last) now recorded ms d h = (d, h)

check_rate_cases :
    (s : ChatStore) (id : ℤ) (now recorded : ℕ)
    → (check_rate s id now recorded ≡ (false, s))
      ⊎ ((check_rate s id now recorded
            ≡ (true, record s { last_msg = insert id recorded s.last_msg }))
          × IsDue (lookup id s.last_msg) now)
unfolding check_rate
check_rate_cases s id now recorded = elim (Option-cases (lookup id s.last_msg)) [
  | inl e ↦ inr (rw (check_rate, e) refl, rw e tt)
  | inr (last, e) ↦ elim (Bool-cases (ltb (now - last) spam_window)) [
    | inl b ↦ inl (rw (check_rate, e, b) refl)
    | inr b ↦ inr (rw (check_rate, e, b) refl, rw e (ground (arith, b)))
  ]
]

-- Whatever messages come, from whatever users, an accepted message of a user comes at least two seconds
-- after the record of the user's last accepted message.
pub check_rate-IsSpaced :
    (user : ℤ) (s : ChatStore) (msgs : List (ℤ × ℕ × ℕ))
    → IsSpaced (lookup user s.last_msg) (accepted user s msgs)
check_rate-IsSpaced user s [] = tt
check_rate-IsSpaced user s ((id, now, recorded) ∷ msgs) =
    elim (check_rate_cases s id now recorded) [
      | inl q ↦ rw q (check_rate-IsSpaced user s msgs)
      | inr (q, due) ↦
          (let later =
              check_rate-IsSpaced user (record s { last_msg = insert id recorded s.last_msg })
                msgs in
            elim (Bool-cases (int_eq id user)) [
              | inl e ↦
                  rw (q, e)
                    (IsSpaced-cons (lookup user s.last_msg) now recorded _
                      (subst (λ k. IsDue (lookup k s.last_msg) now) ((int_eq_iff id user).0 e) due)
                      (rw (lookup-insert id user recorded s.last_msg, e) at later))
              | inr e ↦ rw (q, e) (rw (lookup-insert id user recorded s.last_msg, e) at later)
            ])
    ]

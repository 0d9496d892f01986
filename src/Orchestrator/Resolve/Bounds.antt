-- ===== src/Orchestrator/Resolve/Bounds.antt =====
-- The number of entries in the cache of internal/orchestrator/autoresolve.go.
use kyoci_agent.Prelude.{
  ℕ, zero, suc, ◌≤◌, ◌<◌, ◌≡◌, ◌≢◌, ◌⊎◌, inl, inr, refl, sym, ap, subst, String, true, none, List,
  [], ◌∷◌, leb, length, arith, eq_ℕ, Option-cases, Bool-cases,
}
use kyoci_agent.Prelude.Int.{ℤ, pos, negsuc, int_ltb}
use kyoci_agent.Prelude.Map.{Map, lookup, delete, length-insert}
use kyoci_agent.Orchestrator.Resolve.{RouteCache, new_route_cache, cache_put, cache_len}

length-delete : (k : ℕ) (m : Map ℕ String) → length (delete k m) ≤ length m
unfolding delete
length-delete k [] = omega arith
length-delete k ((j, v) ∷ m) = ground (arith, length-delete k m)

length-delete-lt :
    (k : ℕ) (m : Map ℕ String) → lookup k m ≢ none → suc (length (delete k m)) ≤ length m
unfolding delete lookup
length-delete-lt k [] h = absurd (h refl)
length-delete-lt k ((j, v) ∷ m) h = ground (arith, h, length-delete-lt k m, length-delete k m)

-- Each put is told a key of the map, as ranging over the map yields one.
abbrev pub FindsKeys : RouteCache → List (ℕ × String × ℕ) → Type 0
FindsKeys c [] = Unit
FindsKeys c ((h, r, victim) ∷ puts) =
    ((c.entries ≡ []) ⊎ (lookup victim c.entries ≢ none)) × FindsKeys (cache_put c h r victim) puts

unfoldable pub put_all : RouteCache → List (ℕ × String × ℕ) → RouteCache
put_all c [] = c
put_all c ((h, r, victim) ∷ puts) = put_all (cache_put c h r victim) puts

cache_put-bounded :
    (c : RouteCache) (h : ℕ) (r : String) (victim : ℕ)
    → (c.entries ≡ []) ⊎ (lookup victim c.entries ≢ none)
    → 0 < c.max_entries
    → length c.entries ≤ c.max_entries
    → length (cache_put c h r victim).entries ≤ c.max_entries
unfolding cache_put
cache_put-bounded c h r victim key some_room le = elim (Option-cases (lookup h c.entries)) [
  | inr (old, k) ↦ ground (arith, k, length-insert h r c.entries, le)
  | inl new ↦ elim (Bool-cases (leb c.max_entries (length c.entries))) [
    | inr room ↦ ground (arith, new, room, length-insert h r c.entries, le)
    | inl full ↦ elim key [
      | inl empty ↦ absurd (ground (arith, ap length empty, full, some_room))
      | inr found ↦ ground (
        arith,
        new,
        full,
        length-insert h r (delete victim c.entries),
        length-delete-lt victim c.entries found,
        le,
      )
    ]
  ]
]

cache_put-max :
    (c : RouteCache) (h : ℕ) (r : String) (victim : ℕ)
    → (cache_put c h r victim).max_entries ≡ c.max_entries
unfolding cache_put
cache_put-max c h r victim = elim (Option-cases (lookup h c.entries)) [
  | inl new ↦ rw (new, cache_put) refl
  | inr (old, k) ↦ rw (k, cache_put) refl
]

put_all_bounded :
    (c : RouteCache) (puts : List (ℕ × String × ℕ))
    → FindsKeys c puts
    → 0 < c.max_entries
    → length c.entries ≤ c.max_entries
    → length (put_all c puts).entries ≤ c.max_entries
unfolding put_all
put_all_bounded c [] keys room le = le
put_all_bounded c ((h, r, victim) ∷ puts) keys room le =
    let same = cache_put-max c h r victim in
    let rest = put_all_bounded (cache_put c h r victim) puts keys.1 (omega arith) (
      subst (λ m. length (cache_put c h r victim).entries ≤ m) (sym same)
        (cache_put-bounded c h r victim keys.0 room le)) in
    subst (λ m. length (put_all (cache_put c h r victim) puts).entries ≤ m) same rest

new_route_cache-room : (n : ℤ) → 0 < (new_route_cache n).max_entries
unfolding new_route_cache
new_route_cache-room (negsuc n) = omega arith
new_route_cache-room (pos zero) = omega arith
new_route_cache-room (pos (suc n)) = omega arith

pub new_route_cache-empty : (n : ℤ) → (new_route_cache n).entries ≡ []
unfolding new_route_cache
new_route_cache-empty (negsuc n) = refl
new_route_cache-empty (pos zero) = refl
new_route_cache-empty (pos (suc n)) = refl

max_entries_default : (k : ℤ) → int_ltb k (pos 1) ≡ true → (new_route_cache k).max_entries ≡ 1024
unfolding new_route_cache
max_entries_default (negsuc n) h = refl
max_entries_default (pos zero) h = refl
max_entries_default (pos (suc n)) h = absurd (ground (arith, h))

-- A new cache, whatever is put into it and whichever entries give way, never holds more than its
-- `max_entries`, which is 1024 where the configured number is not positive.
pub put_all-new_route_cache :
    (n : ℤ) (puts : List (ℕ × String × ℕ))
    → FindsKeys (new_route_cache n) puts
    → (cache_len (put_all (new_route_cache n) puts) ≤ (new_route_cache n).max_entries)
      × (int_ltb n (pos 1) ≡ true → (new_route_cache n).max_entries ≡ 1024)
unfolding cache_len
put_all-new_route_cache n puts keys = (
  put_all_bounded (new_route_cache n) puts keys (new_route_cache-room n) (
      subst (λ m. length m ≤ (new_route_cache n).max_entries) (sym (new_route_cache-empty n))
        (omega arith)),
  max_entries_default n,
)

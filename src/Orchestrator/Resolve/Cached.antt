-- ===== src/Orchestrator/Resolve/Cached.antt =====
-- The cache of internal/orchestrator/autoresolve.go against the classification that it saves.
use mathlib.Core.List.{Memᴰ}
use kyoci_agent.Prelude.{
  ℕ, ◌≡◌, ◌⊎◌, inl, inr, refl, sym, ap, subst, ◌∙◌, String, Bool, true, false, Option, none, some,
  List, [], ◌∷◌, map, leb, if◌then◌else◌, length, arith, eq_ℕ, Option-cases, Bool-cases,
}
use kyoci_agent.Prelude.Int.{ℤ}
use kyoci_agent.Prelude.Map.{Map, lookup, delete, lookup-insert, lookup-delete, lookup-insert_self}
use kyoci_agent.Orchestrator.Match.{AgentDef, Patterns}
use kyoci_agent.Orchestrator.Resolve.{
  RouteCache, new_route_cache, cache_get, cache_put, normalize_task, hash_task, classify_role,
  Resolver, Decision, resolve_with, resolve_uncached, resolve_cached, resolve_agent,
}
use kyoci_agent.Orchestrator.Resolve.Bounds.{new_route_cache-empty}

pub some_eq {ℓ} : {A : Type ℓ} {a b : A} → some a ≡ some b → a ≡ b
some_eq e = cc

lookup_empty : (h : ℕ) (r : String) (m : Map ℕ String) → m ≡ [] → lookup h m ≡ some r → ⊥
unfolding lookup
lookup_empty h r [] e found = cc
lookup_empty h r (entry ∷ m) e found = cc

cache_put-old :
    (c : RouteCache) (h : ℕ) (r : String) (victim j : ℕ) (r' : String)
    → lookup j (cache_put c h r victim).entries ≡ some r'
    → ((h ≡ j) × (r ≡ r')) ⊎ (lookup j c.entries ≡ some r')
unfolding cache_put
cache_put-old c h r victim j r' e = elim (Option-cases (lookup h c.entries)) [
  | inl new ↦ elim (Bool-cases (leb c.max_entries (length c.entries))) [
    | inl full ↦ ground (
      arith,
      new,
      full,
      e,
      lookup-insert h j r (delete victim c.entries),
      lookup-delete victim j c.entries,
    )
    | inr room ↦ ground (arith, new, room, e, lookup-insert h j r c.entries)
  ]
  | inr (old, k) ↦ ground (arith, k, e, lookup-insert h j r c.entries)
]

pub cache_put-new :
    (c : RouteCache) (h : ℕ) (r : String) (victim : ℕ)
    → lookup h (cache_put c h r victim).entries ≡ some r
unfolding cache_put
cache_put-new c h r victim = elim (Option-cases (lookup h c.entries)) [
  | inl new ↦ rw (new, cache_put) (lookup-insert_self h r _)
  | inr (old, k) ↦ rw (k, cache_put) (lookup-insert_self h r c.entries)
]

module _ (p : Patterns) (defs : List AgentDef) where
  abbrev pub expected_role : String → String
  expected_role task = classify_role p defs (normalize_task task)

  abbrev pub key_of : String → ℕ
  key_of task = hash_task (normalize_task task)

  -- The roles of a sequence of tasks, each with the key that gives way if the cache is full.
  pub roles : Resolver → List (String × ℕ) → List String
  roles o [] = []
  roles o ((task, victim) ∷ calls) =
      let d = resolve_agent p defs o task victim in d.role ∷ roles d.resolver calls

  -- Equal hashes only where the normal forms are equal.
  abbrev pub NoCollision : List (String × ℕ) → Type 0
  NoCollision calls =
      (a b : String × ℕ)
      → Memᴰ a calls
      → Memᴰ b calls
      → key_of a.0 ≡ key_of b.0
      → normalize_task a.0 ≡ normalize_task b.0

  -- Every entry stems from a call.
  abbrev IsSound : List (String × ℕ) → Map ℕ String → Type 0
  IsSound calls entries =
      (h : ℕ) (r : String)
      → lookup h entries ≡ some r
      → (a : String × ℕ) × Memᴰ a calls × (key_of a.0 ≡ h) × (expected_role a.0 ≡ r)

  abbrev SoundResolver : List (String × ℕ) → Resolver → Type 0
  SoundResolver calls o = (c : RouteCache) → o.route_cache ≡ some c → IsSound calls c.entries

  abbrev StepIsSound : List (String × ℕ) → String → Decision → Type 0
  StepIsSound calls task d = (d.role ≡ expected_role task) × SoundResolver calls d.resolver

  resolve_uncached-IsSound :
      (calls : List (String × ℕ)) (o : Resolver) (task : String)
      → SoundResolver calls o
      → StepIsSound calls task (resolve_uncached p defs o task)
  unfolding resolve_uncached
  resolve_uncached-IsSound calls o task h = (refl, h)

  resolve_cached-IsSound :
      (calls : List (String × ℕ)) (o : Resolver) (c : RouteCache) (task : String) (victim : ℕ)
      → NoCollision calls
      → Memᴰ (task, victim) calls
      → o.route_cache ≡ some c
      → SoundResolver calls o
      → StepIsSound calls task (resolve_cached p defs o c task victim)
  unfolding resolve_cached cache_get
  resolve_cached-IsSound calls o c task victim apart m cached h =
      elim (Option-cases (lookup (key_of task) c.entries)) [
        | inl miss ↦ rw (miss, resolve_cached) (refl, new_cache)
        | inr (r, hit) ↦
            (let (a, n, key, role) = h c cached (key_of task) r hit in
              rw (hit, resolve_cached)
                (sym role ∙ ap (classify_role p defs) (apart a (task, victim) n m key), h))
      ]
    where
      new_cache :
          (c' : RouteCache)
          → some (cache_put c (key_of task) (expected_role task) victim) ≡ some c'
          → IsSound calls c'.entries
      new_cache c' e j r' found =
          elim (cache_put-old c (key_of task) (expected_role task) victim j r'
            (subst (λ d. lookup j d.entries ≡ some r') (sym (some_eq e)) found)) [
              | inl (key, role) ↦ ((task, victim), m, key, role)
              | inr old ↦ h c cached j r' old
            ]

  StepIsSound-if :
      (calls : List (String × ℕ)) (task : String) (b : Bool) (d d' : Decision)
      → StepIsSound calls task d
      → StepIsSound calls task d'
      → StepIsSound calls task (if b then d else d')
  StepIsSound-if calls task true d d' h h' = h
  StepIsSound-if calls task false d d' h h' = h'

  resolve_with-IsSound :
      (cache : Option RouteCache) (calls : List (String × ℕ)) (o : Resolver) (task : String)
      (victim : ℕ)
      → o.route_cache ≡ cache
      → NoCollision calls
      → Memᴰ (task, victim) calls
      → SoundResolver calls o
      → StepIsSound calls task (resolve_with cache p defs o task victim)
  unfolding resolve_with
  resolve_with-IsSound none calls o task victim e apart m h =
      resolve_uncached-IsSound calls o task h
  resolve_with-IsSound (some c) calls o task victim e apart m h =
      StepIsSound-if calls task o.cache_enabled _ _
        (resolve_cached-IsSound calls o c task victim apart m e h)
        (resolve_uncached-IsSound calls o task h)

  roles_lem :
      (all_calls calls : List (String × ℕ)) (o : Resolver)
      → NoCollision all_calls
      → ((a : String × ℕ) → Memᴰ a calls → Memᴰ a all_calls)
      → SoundResolver all_calls o
      → roles o calls ≡ map (λ call. expected_role call.0) calls
  unfolding roles resolve_agent
  roles_lem all_calls [] o apart within h = refl
  roles_lem all_calls ((task, victim) ∷ calls) o apart within h =
      let step =
        resolve_with-IsSound o.route_cache all_calls o task victim refl apart
          (within (task, victim) (Memᴰ.head refl)) h in
      let rest =
        roles_lem all_calls calls (resolve_agent p defs o task victim).resolver apart
          (λ a m. within a (Memᴰ.tail m)) step.1 in
      cc (step.0, rest)

  -- With a new cache, resolveAgent gives each task of a sequence the role that the classification
  -- of its normal form gives, whichever entries give way meanwhile, where no two of the tasks with
  -- different normal forms have the same hash.
  pub roles-new_route_cache :
      (n : ℤ) (enabled log : Bool) (calls : List (String × ℕ))
      → NoCollision calls
      → roles
          (record {
            cache_enabled = enabled;
            log_provenance = log;
            route_cache = some (new_route_cache n);
          })
          calls
        ≡ map (λ call. expected_role call.0) calls
  roles-new_route_cache n enabled log calls apart =
      roles_lem calls calls _ apart (λ a m. m)
        (λ c e h r found. absurd (
          lookup_empty h r c.entries
            (sym (ap (λ d. d.entries) (some_eq e)) ∙ new_route_cache-empty n) found))

-- ===== src/Orchestrator/Resolve/Stale.antt =====
-- What the cache of internal/orchestrator/autoresolve.go keeps when the agents' definitions change.
use kyoci_agent.Prelude.{
  ℕ, ◌≡◌, inl, inr, refl, sym, ap, ◌∙◌, String, Bool, true, false, Option, none, some, List,
  if◌then◌else◌, eq_ℕ, Option-cases,
}
use kyoci_agent.Prelude.Map.{lookup}
use kyoci_agent.Orchestrator.Match.{AgentDef, Patterns}
use kyoci_agent.Orchestrator.Resolve.{
  RouteCache, cache_get, normalize_task, hash_task, Resolver, Decision, resolve_with,
  resolve_cached, resolve_agent,
}
use kyoci_agent.Orchestrator.Resolve.Cached.{some_eq, cache_put-new}

if_true {ℓ} : {A : Type ℓ} (b : Bool) (x y : A) → b ≡ true → (if b then x else y) ≡ x
if_true true x y e = refl
if_true false x y e = cc

resolve_with_cached :
    (p : Patterns) (defs : List AgentDef) (o : Resolver) (cache : Option RouteCache)
    (c : RouteCache) (task : String) (victim : ℕ)
    → o.cache_enabled ≡ true
    → cache ≡ some c
    → resolve_with cache p defs o task victim ≡ resolve_cached p defs o c task victim
unfolding resolve_with
resolve_with_cached p defs o none c task victim enabled e = cc
resolve_with_cached p defs o (some c') c task victim enabled e =
    if_true o.cache_enabled _ _ enabled
    ∙ ap (λ d. resolve_cached p defs o d task victim) (some_eq e)

-- A hit answers what is stored.
resolve_cached_hit :
    (p : Patterns) (defs : List AgentDef) (o : Resolver) (c : RouteCache) (task : String)
    (victim : ℕ) (r : String)
    → lookup (hash_task (normalize_task task)) c.entries ≡ some r
    → (resolve_cached p defs o c task victim).role ≡ r
unfolding resolve_cached cache_get
resolve_cached_hit p defs o c task victim r hit = rw (hit, resolve_cached) refl

abbrev HasEntry : Decision → ℕ → String → Type 0
HasEntry d h r =
    (c : RouteCache) × (d.resolver.route_cache ≡ some c) × (lookup h c.entries ≡ some r)

resolve_cached-HasEntry :
    (p : Patterns) (defs : List AgentDef) (o : Resolver) (c : RouteCache) (task : String)
    (victim : ℕ)
    → o.route_cache ≡ some c
    → HasEntry
        (resolve_cached p defs o c task victim)
        (hash_task (normalize_task task))
        (resolve_cached p defs o c task victim).role
      × ((resolve_cached p defs o c task victim).resolver.cache_enabled ≡ o.cache_enabled)
unfolding resolve_cached cache_get
resolve_cached-HasEntry p defs o c task victim e =
    elim (Option-cases (lookup (hash_task (normalize_task task)) c.entries)) [
      | inl miss ↦ rw (miss, resolve_cached) ((_, refl, cache_put-new c _ _ victim), refl)
      | inr (r, hit) ↦ rw (hit, resolve_cached) ((c, e, hit), refl)
    ]

-- With an enabled cache, a task keeps the role of its first resolution when the agents' definitions
-- are replaced in between: the second resolution does not see the new definitions.
pub role_outlives_defs :
    (p : Patterns) (defs new_defs : List AgentDef) (o : Resolver) (c : RouteCache) (task : String)
    (victim second_victim : ℕ)
    → o.cache_enabled ≡ true
    → o.route_cache ≡ some c
    → (resolve_agent p new_defs
        (resolve_agent p defs o task victim).resolver
        task
        second_victim).role
      ≡ (resolve_agent p defs o task victim).role
unfolding resolve_agent
role_outlives_defs p defs new_defs o c task victim second_victim enabled cached =
    let first = resolve_with_cached p defs o o.route_cache c task victim enabled cached in
    let d : Decision = resolve_cached p defs o c task victim in
    let ((c', kept, stored), still) = resolve_cached-HasEntry p defs o c task victim cached in
    ap (λ e. (resolve_with e.resolver.route_cache p new_defs e.resolver task second_victim).role)
      first
    ∙ ap (λ e. e.role)
        (resolve_with_cached p new_defs d.resolver d.resolver.route_cache c' task second_victim
          (still ∙ enabled) kept)
    ∙ resolve_cached_hit p new_defs d.resolver c' task second_victim d.role stored
    ∙ sym (ap (λ e. e.role) first)

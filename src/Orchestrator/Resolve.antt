-- ===== src/Orchestrator/Resolve.antt =====
-- The routing of a task without a role (internal/orchestrator/autoresolve.go) over the choice of an
-- agent, with the classifier of internal/orchestrator/classifier.go and a cache keyed by a hash. Go
-- ranges over the cache's map in any order: the key that it yields first when an entry has to go is
-- an argument. The agents' definitions are an argument too, since SetDefaultAgentDefs may replace
-- them between calls. A decision is returned with the line that is logged for it.
pub mod Hash
pub mod Bounds
pub mod Cached
pub mod Stale
mod Tests
use kyoci_agent.Prelude.{
  ℕ, zero, suc, ◌<◌, String, str_append, str_eq, Bool, true, false, Option, none, some, List, [],
  ◌∷◌, ltb, leb, if◌then◌else◌, length, eq_ℕ,
}
use kyoci_agent.Prelude.Int.{ℤ, pos, negsuc}
use kyoci_agent.Prelude.Map.{Map, lookup, insert, delete}
use kyoci_agent.Prelude.Text.{lower_text}
use kyoci_agent.Orchestrator.Match.{
  AgentDef, Patterns, best_match, match_score, min_specialist_score,
}
use kyoci_agent.Orchestrator.Resolve.Hash.{hash_text, join_fields}

pub record RouteCache : Type 0 where
  pub entries : Map ℕ String
  pub max_entries : ℕ

unfoldable pub new_route_cache : ℤ → RouteCache
new_route_cache (negsuc n) = record { entries = []; max_entries = 1024 }
new_route_cache (pos zero) = record { entries = []; max_entries = 1024 }
new_route_cache (pos (suc n)) = record { entries = []; max_entries = suc n }

unfoldable pub cache_get : RouteCache → ℕ → Option String
cache_get c h = lookup h c.entries

-- `victim` is the key that ranging over the map yields first.
unfoldable pub cache_put : RouteCache → ℕ → String → ℕ → RouteCache
cache_put c h r victim = elim (lookup h c.entries) [
  | some _ ↦ record c { entries = insert h r c.entries }
  | none ↦ record c {
    entries =
        insert h r
          (if leb c.max_entries (length c.entries) then delete victim c.entries else c.entries);
  }
]

unfoldable pub cache_len : RouteCache → ℕ
cache_len c = length c.entries

unfoldable pub normalize_task : String → String
unfolding join_fields
normalize_task task = join_fields (lower_text task)

unfoldable pub hash_task : String → ℕ
unfolding join_fields hash_text
hash_task task = hash_text (join_fields (lower_text task))

unfoldable pub classify_with_agents : Patterns → String → List AgentDef → String
classify_with_agents p task defs =
    let name = best_match p task defs in if str_eq name "" then "generalist" else name

unfoldable pub classify_role : Patterns → List AgentDef → String → String
unfolding classify_with_agents
classify_role p [] task = "generalist"
classify_role p (d ∷ ds) task = classify_with_agents p task (d ∷ ds)

-- The score of the first agent with a name.
unfoldable pub score_of : Patterns → String → String → List AgentDef → ℕ
score_of p task name [] = 0
score_of p task name (d ∷ ds) =
    let rest = score_of p task name ds in if str_eq d.name name then match_score p d task else rest

unfoldable pub top_scoring_def : Patterns → List AgentDef → String → String × ℕ
unfolding score_of
top_scoring_def p defs task =
    (best_match p task defs, score_of p task (best_match p task defs) defs)

pub record RoutingLine : Type 0 where
  pub source : String
  pub chosen_role : String
  pub top_specialist : String
  pub top_score : ℕ
  pub abstain : Bool

pub record Resolver : Type 0 where
  pub cache_enabled : Bool
  pub log_provenance : Bool
  pub route_cache : Option RouteCache

pub record Decision : Type 0 where
  pub resolver : Resolver
  pub role : String
  pub logged : Option RoutingLine

abbrev pub scored_line : Patterns → List AgentDef → String → String → String → RoutingLine
scored_line p defs nt source role =
    let (top_name, top_score) = top_scoring_def p defs nt in
    record {
      source = source;
      chosen_role = role;
      top_specialist = top_name;
      top_score = top_score;
      abstain = ltb top_score min_specialist_score;
    }

abbrev pub hit_line : String → RoutingLine
hit_line role = record {
  source = "cache_hit";
  chosen_role = role;
  top_specialist = "";
  top_score = 0;
  abstain = false;
}

abbrev pub line_if : Bool → RoutingLine → Option RoutingLine
line_if b l = if b then some l else none

-- resolveAgent without a cache, and with one.
unfoldable pub resolve_uncached : Patterns → List AgentDef → Resolver → String → Decision
unfolding normalize_task classify_role top_scoring_def
resolve_uncached p defs o task =
    let nt = normalize_task task in
    let role = classify_role p defs nt in
    record {
      resolver = o;
      role = role;
      logged = line_if o.log_provenance (scored_line p defs nt "scored_nocache" role);
    }

unfoldable pub resolve_cached :
    Patterns → List AgentDef → Resolver → RouteCache → String → ℕ → Decision
unfolding normalize_task hash_task classify_role top_scoring_def cache_get cache_put
resolve_cached p defs o cache task victim =
    let nt = normalize_task task in
    let h = hash_task nt in
    let role = classify_role p defs nt in
    elim (cache_get cache h) [
      | some role ↦ record {
        resolver = o;
        role = role;
        logged = line_if o.log_provenance (hit_line role);
      }
      | none ↦ record {
        resolver = record o { route_cache = some (cache_put cache h role victim) };
        role = role;
        logged = line_if o.log_provenance (scored_line p defs nt "scored" role);
      }
    ]

unfoldable pub resolve_with :
    Option RouteCache → Patterns → List AgentDef → Resolver → String → ℕ → Decision
unfolding resolve_cached resolve_uncached
resolve_with none p defs o task victim = resolve_uncached p defs o task
resolve_with (some cache) p defs o task victim =
    if o.cache_enabled
    then resolve_cached p defs o cache task victim
    else resolve_uncached p defs o task

unfoldable pub resolve_agent : Patterns → List AgentDef → Resolver → String → ℕ → Decision
unfolding resolve_with
resolve_agent p defs o task victim = resolve_with o.route_cache p defs o task victim

-- ===== src/Orchestrator/Resolve/Tests.antt =====
-- Runs of the routing (internal/orchestrator/autoresolve.go), and its theorems at two agents.
use kyoci_agent.Prelude.{
  ℕ, not, ◌||◌, ◌==◌, all, all-elim, str_eq, str_eq_iff, eq_ℕ, ◌≡◌, refl, inl, inr, String, Bool,
  true, false, none, some, List, [], ◌∷◌, map, arith,
}
use kyoci_agent.Prelude.Int.{pos}
use kyoci_agent.Prelude.Map.{Map, lookup, insert, delete}
use kyoci_agent.Prelude.Text.{lower_text}
use kyoci_agent.Orchestrator.Match.{AgentDef, Patterns}
use kyoci_agent.Orchestrator.Resolve.{
  Resolver, new_route_cache, cache_put, normalize_task, hash_task,
}
use kyoci_agent.Orchestrator.Resolve.Bounds.{FindsKeys, put_all}
use kyoci_agent.Orchestrator.Resolve.Cached.{
  roles, expected_role, NoCollision, key_of, roles-new_route_cache,
}
use kyoci_agent.Orchestrator.Resolve.Hash.{hash_text}

normal_run : normalize_task "  Run GO\n test " ≡ "run go test"
unfolding normalize_task lower_text
normal_run = refl

-- The value that FNV-1a has for "a".
hash_run : hash_text "a" ≡ 0xaf63dc4c8601ec8c
unfolding hash_text
hash_run = refl

abbrev patterns : Patterns
patterns = record { negation_re = λ before. false; regex_matches = λ pat task. none }

abbrev sre : AgentDef
sre = record {
  name = "sre";
  triggers = record { keywords = []; anchors = "deploy" ∷ []; regex = [] };
  priority = "high";
}

abbrev generalist : AgentDef
generalist = record {
  name = "generalist";
  triggers = record { keywords = []; anchors = []; regex = [] };
  priority = "low";
}

abbrev defs : List AgentDef
defs = generalist ∷ sre ∷ []

abbrev calls : List (String × ℕ)
calls = ("Deploy  it", 0) ∷ ("deploy it", 0) ∷ ("list files", 0) ∷ []

apart_test : String × ℕ → String × ℕ → Bool
apart_test a b =
    not (key_of patterns defs a.0 == key_of patterns defs b.0)
    || str_eq (normalize_task a.0) (normalize_task b.0)

all_apart : all (λ a. all (apart_test a) calls) calls ≡ true
unfolding apart_test normalize_task hash_task lower_text
all_apart = refl

calls-NoCollision : NoCollision patterns defs calls
unfolding apart_test
calls-NoCollision a b ma mb e =
    let tested =
      all-elim (apart_test a) mb (all-elim (λ c. all (apart_test c) calls) ma all_apart) in
    (str_eq_iff (normalize_task a.0) (normalize_task b.0)).0 (ground (arith, tested, e))

roles-new_route_cache_example :
    roles patterns defs
      (record {
        cache_enabled = true;
        log_provenance = true;
        route_cache = some (new_route_cache (pos 1));
      })
      calls
    ≡ map (λ call. expected_role patterns defs call.0) calls
roles-new_route_cache_example =
    roles-new_route_cache patterns defs (pos 1) true true calls calls-NoCollision

-- A cache of one entry: the second key drives out the first.
abbrev puts : List (ℕ × String × ℕ)
puts = (7, "sre", 0) ∷ (8, "qa", 7) ∷ (8, "sre", 8) ∷ []

abbrev one_left : Map ℕ String
one_left = (8, "sre") ∷ []

evicts : (put_all (new_route_cache (pos 1)) puts).entries ≡ one_left
unfolding put_all new_route_cache cache_put lookup insert delete
evicts = refl

puts-FindsKeys : FindsKeys (new_route_cache (pos 1)) puts
unfolding new_route_cache cache_put lookup insert delete
puts-FindsKeys = (inl refl, (inr (λ e. cc), (inr (λ e. cc), tt)))

abbrev resolver : Resolver
resolver = record {
  cache_enabled = true;
  log_provenance = false;
  route_cache = some (record { entries = []; max_entries = 8 });
}

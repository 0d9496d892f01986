-- ===== src/Llm/Router.antt =====
-- The router of requests to providers (internal/llm/router.go), with the registry of
-- internal/llm/providers.go. A registry's map is given to each call in the order in which Go ranges
-- over it then. Floating-point costs, the averages and the providers' answers are parameters.
pub mod Choice
pub mod Offered
pub mod Rotation
mod Tests
use kyoci_agent.Prelude.{
  ℕ, zero, suc, ◌+◌, ◌-◌, ◌^◌, ◌%◌, String, str_eq, Bool, true, false, not, ◌&&◌, ◌||◌, Option,
  none, some, List, [], ◌∷◌, ltb, if◌then◌else◌, length, get_elem?, eq_String,
}
use kyoci_agent.Prelude.Map.{Map, lookup, insert}

-- A Go `int`; the values that have no name are the last case.
pub data RouteStrategy : Type 0 where
  strategy_fastest : RouteStrategy
  strategy_cheapest : RouteStrategy
  strategy_fallback : RouteStrategy
  strategy_round_robin : RouteStrategy
  strategy_other : RouteStrategy

pub data RouteError : Type 0 where
  err_no_available_providers : RouteError
  err_no_providers : RouteError
  select_failed : RouteError → RouteError
  provider_failed : String → RouteError

pub data Result {ℓ} (A : Type ℓ) : Type ℓ where
  ok : A → Result A
  err : RouteError → Result A

-- A provider when it is asked whether it is available.
pub record Provider : Type 0 where
  pub name : String
  pub is_available : Bool

pub record CompletionResponse : Type 0 where
  pub total_tokens : ℕ

-- A chunk of a stream, with the usage that it may carry.
pub record StreamChunk : Type 0 where
  pub done : Bool
  pub usage : Option ℕ

-- float64 as far as the router uses it, the moving averages, and what providers answer.
pub record Outside : Type 1 where
  pub Float : Type 0
  pub minus_one : Float
  pub is_negative : Float → Bool
  pub float_ltb : Float → Float → Bool
  pub cost_of : ℕ → Float
  pub average_cost : Float → Float → Float
  pub average_latency : ℕ → ℕ → ℕ
  pub complete : Provider → Option CompletionResponse
  pub stream : Provider → Option (List StreamChunk)

-- ProviderRegistry.Get
unfoldable pub get : Map String Provider → String → Option Provider
get providers name = lookup name providers

-- ProviderRegistry.GetAvailable
unfoldable pub get_available : Map String Provider → List Provider
get_available [] = []
get_available ((name, p) ∷ rest) =
    let more = get_available rest in if p.is_available then p ∷ more else more

unfoldable pub select_fallback : Map String Provider → List Provider → String → Result Provider
unfolding get
select_fallback registry [] preferred = err err_no_providers
select_fallback registry (p ∷ ps) preferred =
    if str_eq preferred "" then ok p else elim (get registry preferred) [
      | none ↦ ok p
      | some q ↦ if q.is_available then ok q else ok p
    ]

-- The loop of selectFastest; `none` stands for a nil provider.
unfoldable pub fastest_of : Map String ℕ → List Provider → ℕ → Option Provider → Option Provider
fastest_of tracker [] min_latency fastest = fastest
fastest_of tracker (p ∷ ps) min_latency fastest = elim (lookup p.name tracker) [
  | none ↦ some p
  | some latency ↦
      fastest_of tracker ps (if ltb latency min_latency then latency else min_latency)
        (if ltb latency min_latency then some p else fastest)
]

abbrev pub max_duration : ℕ
max_duration = 2 ^ 63 - 1

unfoldable pub select_fastest : Map String ℕ → List Provider → Result Provider
unfolding fastest_of
select_fastest tracker [] = err err_no_providers
select_fastest tracker (p ∷ ps) = elim (fastest_of tracker (p ∷ ps) max_duration none) [
  | none ↦ ok p
  | some q ↦ ok q
]

module _ (o : Outside) where
  open o use {
    Float, minus_one, is_negative, float_ltb, cost_of, average_cost, average_latency, complete,
    stream,
  }

  pub record Router : Type 0 where
    pub strategy : RouteStrategy
    pub latency_tracker : Map String ℕ
    pub cost_tracker : Map String Float
    pub round_robin_idx : ℕ

  unfoldable pub new_router : RouteStrategy → Router
  new_router strategy = record {
    strategy = strategy;
    latency_tracker = [];
    cost_tracker = [];
    round_robin_idx = 0;
  }

  unfoldable pub set_strategy : Router → RouteStrategy → Router
  set_strategy r strategy = record r { strategy = strategy }

  unfoldable pub get_strategy : Router → RouteStrategy
  get_strategy r = r.strategy

  unfoldable pub get_latency : Router → String → ℕ
  get_latency r name = elim (lookup name r.latency_tracker) [ none ↦ 0 | some latency ↦ latency ]

  unfoldable pub cheapest_of :
      Map String Float → List Provider → Float → Option Provider → Option Provider
  cheapest_of tracker [] min_cost cheapest = cheapest
  cheapest_of tracker (p ∷ ps) min_cost cheapest = elim (lookup p.name tracker) [
    | none ↦ some p
    | some cost ↦
        (let better = is_negative min_cost || float_ltb cost min_cost in
          cheapest_of tracker ps (if better then cost else min_cost)
            (if better then some p else cheapest))
  ]

  unfoldable pub select_cheapest : Map String Float → List Provider → Result Provider
  unfolding cheapest_of
  select_cheapest tracker [] = err err_no_providers
  select_cheapest tracker (p ∷ ps) = elim (cheapest_of tracker (p ∷ ps) minus_one none) [
    | none ↦ ok p
    | some q ↦ ok q
  ]

  unfoldable pub select_round_robin : Router → List Provider → Router × Result Provider
  select_round_robin r [] = (r, err err_no_providers)
  select_round_robin r (p ∷ ps) = (
    record r { round_robin_idx = suc r.round_robin_idx },
    elim (get_elem? (p ∷ ps) (r.round_robin_idx % length (p ∷ ps))) [ none ↦ ok p | some q ↦ ok q ],
  )

  unfoldable pub select_with :
      RouteStrategy
      → Router
      → Map String Provider
      → List Provider
      → String
      → Router × Result Provider
  unfolding select_fastest select_cheapest select_fallback select_round_robin
  select_with strategy_fastest r registry ps preferred = (r, select_fastest r.latency_tracker ps)
  select_with strategy_cheapest r registry ps preferred = (r, select_cheapest r.cost_tracker ps)
  select_with strategy_fallback r registry ps preferred = (r, select_fallback registry ps preferred)
  select_with strategy_round_robin r registry ps preferred = select_round_robin r ps
  select_with strategy_other r registry ps preferred = (r, select_fallback registry ps preferred)

  unfoldable pub select_provider :
      Router → Map String Provider → List Provider → String → Router × Result Provider
  unfolding select_with
  select_provider r registry ps preferred = select_with r.strategy r registry ps preferred

  unfoldable pub record_success : Router → String → ℕ → ℕ → Router
  record_success r name duration total_tokens = record r {
    latency_tracker =
        insert name
          (elim (lookup name r.latency_tracker) [
            | none ↦ duration
            | some old ↦ average_latency old duration
          ])
          r.latency_tracker;
    cost_tracker =
        insert name
          (elim (lookup name r.cost_tracker) [
            | none ↦ cost_of total_tokens
            | some old ↦ average_cost old (cost_of total_tokens)
          ])
          r.cost_tracker;
  }

  -- The answer of the provider that was chosen, after `duration`.
  unfoldable pub answer : Router × Result Provider → ℕ → Router × Result CompletionResponse
  unfolding record_success
  answer (r, err e) duration = (r, err (select_failed e))
  answer (r, ok p) duration = elim (complete p) [
    | none ↦ (r, err (provider_failed p.name))
    | some resp ↦ (record_success r p.name duration resp.total_tokens, ok resp)
  ]

  -- The first loop over the map is GetAvailable's; the registry stays the same in between.
  unfoldable pub route :
      Router → Map String Provider → String → ℕ → Router × Result CompletionResponse
  unfolding get_available select_provider answer
  route r registry preferred duration = elim (get_available registry) [
    | [] ↦ (r, err err_no_available_providers)
    | p ∷ ps ↦ answer (select_provider r registry (p ∷ ps) preferred) duration
  ]

  -- What the wrapper of a stream records for its chunks.
  unfoldable pub record_chunks : Router → String → ℕ → List StreamChunk → Router
  unfolding record_success
  record_chunks r name duration [] = r
  record_chunks r name duration (c ∷ cs) =
      record_chunks
        (if c.done
          then elim c.usage [ none ↦ r | some total ↦ record_success r name duration total ]
          else r)
        name duration cs

  unfoldable pub answer_stream : Router × Result Provider → ℕ → Router × Result (List StreamChunk)
  unfolding record_chunks
  answer_stream (r, err e) duration = (r, err (select_failed e))
  answer_stream (r, ok p) duration = elim (stream p) [
    | none ↦ (r, err (provider_failed p.name))
    | some chunks ↦ (record_chunks r p.name duration chunks, ok chunks)
  ]

  unfoldable pub route_stream :
      Router → Map String Provider → String → ℕ → Router × Result (List StreamChunk)
  unfolding get_available select_provider answer_stream
  route_stream r registry preferred duration = elim (get_available registry) [
    | [] ↦ (r, err err_no_available_providers)
    | p ∷ ps ↦ answer_stream (select_provider r registry (p ∷ ps) preferred) duration
  ]

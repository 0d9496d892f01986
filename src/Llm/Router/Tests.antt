-- ===== src/Llm/Router/Tests.antt =====
-- Runs of the router (internal/llm/router.go), and the theorems about it at three providers.
use mathlib.Core.List.{Permᴰ}
use kyoci_agent.Prelude.{
  ℕ, ◌+◌, ◌*◌, ◌/◌, ◌≤◌, ◌≡◌, ◌⊎◌, refl, String, true, false, none, some, List, [], ◌∷◌, All, arith,
  str_eq, eq_String,
}
use kyoci_agent.Prelude.Int.{ℤ, pos, negsuc, int_ltb}
use kyoci_agent.Prelude.Map.{Map, lookup, insert}
use kyoci_agent.Llm.Router.{
  Provider, Outside, Router, ok, err, strategy_fastest, err_no_available_providers, route,
  get_available, select_fastest, get_latency, max_duration,
}
use kyoci_agent.Llm.Router.Offered.{IsOffered, reply_of, route-IsOffered}
use kyoci_agent.Llm.Router.Rotation.{choices, repeat, round_robin_starves}

abbrev groq : Provider
groq = record { name = "groq"; is_available = true }

abbrev ollama : Provider
ollama = record { name = "ollama"; is_available = true }

abbrev zai : Provider
zai = record { name = "zai"; is_available = false }

abbrev registry : Map String Provider
registry = ("zai", zai) ∷ ("groq", groq) ∷ ("ollama", ollama) ∷ []

-- Costs as numbers of tokens, of which the average is the last one; every provider but groq answers.
abbrev outside : Outside
outside = record {
  Float = ℤ;
  minus_one = negsuc 0;
  is_negative = λ c. int_ltb c (pos 0);
  float_ltb = int_ltb;
  cost_of = pos;
  average_cost = λ old new. new;
  average_latency = λ old new. (old * 7 + new * 3) / 10;
  complete = λ p. elim (str_eq p.name "groq") [
    | true ↦ none
    | false ↦ some (record { total_tokens = 40 })
  ];
  stream = λ p. none;
}

abbrev latencies : Map String ℕ
latencies = ("groq", 90) ∷ ("ollama", 20) ∷ []

abbrev fast_router : Router outside
fast_router = record {
  strategy = strategy_fastest;
  latency_tracker = latencies;
  cost_tracker = [];
  round_robin_idx = 4;
}

fastest_run : get_latency outside (route outside fast_router registry "" 120).0 "ollama" ≡ 50
unfolding get_latency route get_available select_fastest lookup insert
fastest_run = refl

in_range : (name : String) (l : ℕ) → lookup name latencies ≡ some l → l ≤ max_duration
unfolding lookup
in_range name l h = ground (arith, h)

route-IsOffered_example :
    ((get_available registry ≡ [])
      × ((route outside fast_router registry "zai" 120).1 ≡ err err_no_available_providers))
    ⊎ ((p : Provider) × IsOffered registry p
        × ((route outside fast_router registry "zai" 120).1 ≡ reply_of outside p))
route-IsOffered_example = route-IsOffered outside fast_router registry "zai" 120

round_robin_starves_example :
    (orders : List (List Provider)) × All (λ qs. Permᴰ qs (groq ∷ ollama ∷ [])) orders
    × (choices outside fast_router orders ≡ repeat 5 (ok groq))
round_robin_starves_example = round_robin_starves outside groq (ollama ∷ []) 5 fast_router

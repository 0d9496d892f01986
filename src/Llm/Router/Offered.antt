-- ===== src/Llm/Router/Offered.antt =====
-- Every strategy of the router (internal/llm/router.go) chooses a provider that is available.
use mathlib.Core.List.{Memᴰ}
use kyoci_agent.Prelude.{
  ℕ, zero, suc, ◌≡◌, ◌⊎◌, inl, inr, refl, subst, String, str_eq, Bool, true, false, Option, none,
  some, List, [], ◌∷◌, ltb, if◌then◌else◌, length, get_elem?, Option-cases, All, All-intro, ◌||◌,
  eq_String, ◌%◌, List-cases,
}
use kyoci_agent.Prelude.Map.{Map, lookup}
use kyoci_agent.Llm.Router.{
  Provider, Result, ok, err, fastest_of, select_fastest, max_duration, get_available, get,
  select_fallback, Outside, Router, cheapest_of, select_cheapest, select_round_robin, select_with,
  select_provider, RouteStrategy, strategy_fastest, strategy_cheapest, strategy_fallback,
  strategy_round_robin, strategy_other, CompletionResponse, provider_failed, answer, record_success,
  route, err_no_available_providers,
}

-- A provider that the registry has and that answers that it is available.
abbrev pub IsOffered : Map String Provider → Provider → Type 0
IsOffered registry p = (p.is_available ≡ true) × ((name : String) × Memᴰ (name, p) registry)

module _ (P : Provider → Type 0) where
  abbrev Holds : Option Provider → Type 0
  Holds none = Unit
  Holds (some q) = P q

  -- The result is a provider with the property.
  abbrev Gives : Result Provider → Type 0
  Gives (ok q) = P q
  Gives (err e) = ⊥

  All-if :
      (b : Bool) (q : Provider) (qs : List Provider)
      → (b ≡ true → P q)
      → All P qs
      → All P (if b then q ∷ qs else qs)
  All-if true q qs h hs = (h refl, hs)
  All-if false q qs h hs = hs

  get_available-All :
      (registry : Map String Provider)
      → All (λ entry. entry.1.is_available ≡ true → P entry.1) registry
      → All P (get_available registry)
  unfolding get_available
  get_available-All [] h = tt
  get_available-All ((name, q) ∷ rest) h =
      All-if q.is_available q (get_available rest) h.0 (get_available-All rest h.1)

  Holds-if : (b : Bool) (p q : Option Provider) → Holds p → Holds q → Holds (if b then p else q)
  Holds-if true p q hp hq = hp
  Holds-if false p q hp hq = hq

  fastest_of-Holds :
      (tracker : Map String ℕ) (ps : List Provider) (min : ℕ) (fastest : Option Provider)
      → All P ps
      → Holds fastest
      → Holds (fastest_of tracker ps min fastest)
  unfolding fastest_of
  fastest_of-Holds tracker [] min fastest h f = f
  fastest_of-Holds tracker (p ∷ ps) min fastest h f = elim (Option-cases (lookup p.name tracker)) [
    | inl unknown ↦ rw (unknown, fastest_of) h.0
    | inr (l, known) ↦
        rw (known, fastest_of)
          (fastest_of-Holds tracker ps _ _ h.1 (Holds-if (ltb l min) (some p) fastest h.0 f))
  ]

  Gives-first :
      (o : Option Provider) (p : Provider)
      → Holds o
      → P p
      → Gives (elim o [ none ↦ ok p | some q ↦ ok q ])
  Gives-first none p h hp = hp
  Gives-first (some q) p h hp = h

  select_fastest-Gives :
      (tracker : Map String ℕ) (p : Provider) (ps : List Provider)
      → All P (p ∷ ps)
      → Gives (select_fastest tracker (p ∷ ps))
  unfolding select_fastest
  select_fastest-Gives tracker p ps h =
      Gives-first (fastest_of tracker (p ∷ ps) max_duration none) p
        (fastest_of-Holds tracker (p ∷ ps) max_duration none h tt) h.0

  module _ (o : Outside) where
    open o use {Float, is_negative, float_ltb, minus_one}

    cheapest_of-Holds :
        (tracker : Map String Float) (ps : List Provider) (min : Float) (cheapest : Option Provider)
        → All P ps
        → Holds cheapest
        → Holds (cheapest_of o tracker ps min cheapest)
    unfolding cheapest_of
    cheapest_of-Holds tracker [] min cheapest h f = f
    cheapest_of-Holds tracker (p ∷ ps) min cheapest h f =
        elim (Option-cases (lookup p.name tracker)) [
          | inl unknown ↦ rw (unknown, cheapest_of) h.0
          | inr (cost, known) ↦
              rw (known, cheapest_of)
                (cheapest_of-Holds tracker ps _ _ h.1
                  (Holds-if (is_negative min || float_ltb cost min) (some p) cheapest h.0 f))
        ]

    select_cheapest-Gives :
        (tracker : Map String Float) (p : Provider) (ps : List Provider)
        → All P (p ∷ ps)
        → Gives (select_cheapest o tracker (p ∷ ps))
    unfolding select_cheapest
    select_cheapest-Gives tracker p ps h =
        Gives-first (cheapest_of o tracker (p ∷ ps) minus_one none) p
          (cheapest_of-Holds tracker (p ∷ ps) minus_one none h tt) h.0

    get_elem?-Holds : (ps : List Provider) (i : ℕ) → All P ps → Holds (get_elem? ps i)
    get_elem?-Holds [] i h = tt
    get_elem?-Holds (p ∷ ps) zero h = h.0
    get_elem?-Holds (p ∷ ps) (suc i) h = get_elem?-Holds ps i h.1

    select_round_robin-Gives :
        (r : Router o) (p : Provider) (ps : List Provider)
        → All P (p ∷ ps)
        → Gives (select_round_robin o r (p ∷ ps)).1
    unfolding select_round_robin
    select_round_robin-Gives r p ps h =
        Gives-first (get_elem? (p ∷ ps) (r.round_robin_idx % length (p ∷ ps))) p
          (get_elem?-Holds (p ∷ ps) (r.round_robin_idx % length (p ∷ ps)) h) h.0

Gives-if :
    (P : Provider → Type 0) (b : Bool) (p q : Result Provider)
    → (b ≡ true → Gives P p)
    → Gives P q
    → Gives P (if b then p else q)
Gives-if P true p q hp hq = hp refl
Gives-if P false p q hp hq = hq

Holds-mono :
    (P Q : Provider → Type 0) (o : Option Provider)
    → ((p : Provider) → P p → Q p)
    → Holds P o
    → Holds Q o
Holds-mono P Q none f h = tt
Holds-mono P Q (some p) f h = f p h

lookup-Mem :
    (k : String) (m : Map String Provider) → Holds (λ p. (j : String) × Memᴰ (j, p) m) (lookup k m)
unfolding lookup
lookup-Mem k [] = tt
lookup-Mem k ((j, w) ∷ m) =
    Holds-if (λ p. (i : String) × Memᴰ (i, p) ((j, w) ∷ m)) (str_eq j k) (some w) (lookup k m)
      (j, Memᴰ.head refl)
      (Holds-mono _ _ (lookup k m) (λ p (i, n). (i, Memᴰ.tail n)) (lookup-Mem k m))

select_fallback-Gives :
    (registry : Map String Provider) (p : Provider) (ps : List Provider) (preferred : String)
    → IsOffered registry p
    → Gives (IsOffered registry) (select_fallback registry (p ∷ ps) preferred)
unfolding select_fallback get
select_fallback-Gives registry p ps preferred h =
    Gives-if (IsOffered registry) (str_eq preferred "") (ok p) _ (λ e. h)
      (preferred_or_first (lookup preferred registry) (lookup-Mem preferred registry))
  where
    preferred_or_first :
        (o : Option Provider)
        → Holds (λ q. (j : String) × Memᴰ (j, q) registry) o
        → Gives
            (IsOffered registry)
            (elim o [ none ↦ ok p | some q ↦ if q.is_available then ok q else ok p ])
    preferred_or_first none m = h
    preferred_or_first (some q) m =
        Gives-if (IsOffered registry) q.is_available (ok q) (ok p) (λ e. (e, (m.0, m.1))) h

get_available-IsOffered :
    (registry : Map String Provider) → All (IsOffered registry) (get_available registry)
get_available-IsOffered registry =
    get_available-All (IsOffered registry) registry
      (All-intro _ registry (λ entry m available. (available, (entry.0, m))))

module _ (o : Outside) where
  open o use {complete}

  select_with-Gives :
      (s : RouteStrategy) (r : Router o) (registry : Map String Provider) (p : Provider)
      (ps : List Provider) (preferred : String)
      → All (IsOffered registry) (p ∷ ps)
      → Gives (IsOffered registry) (select_with o s r registry (p ∷ ps) preferred).1
  unfolding select_with
  select_with-Gives strategy_fastest r registry p ps preferred h =
      select_fastest-Gives (IsOffered registry) r.latency_tracker p ps h
  select_with-Gives strategy_cheapest r registry p ps preferred h =
      select_cheapest-Gives (IsOffered registry) o r.cost_tracker p ps h
  select_with-Gives strategy_fallback r registry p ps preferred h =
      select_fallback-Gives registry p ps preferred h.0
  select_with-Gives strategy_round_robin r registry p ps preferred h =
      select_round_robin-Gives (IsOffered registry) o r p ps h
  select_with-Gives strategy_other r registry p ps preferred h =
      select_fallback-Gives registry p ps preferred h.0

  -- What a caller of Route gets from the provider that is asked.
  abbrev pub reply_of : Provider → Result CompletionResponse
  reply_of p = elim (complete p) [ none ↦ err (provider_failed p.name) | some resp ↦ ok resp ]

  answer-Gives :
      (registry : Map String Provider) (chosen : Router o × Result Provider) (duration : ℕ)
      → Gives (IsOffered registry) chosen.1
      → (p : Provider) × IsOffered registry p × ((answer o chosen duration).1 ≡ reply_of p)
  unfolding answer
  answer-Gives registry (r, ok p) duration h = (p, h, second_part (complete p))
    where
      second_part :
          (c : Option CompletionResponse)
          → (elim c as (λ x. Router o × Result CompletionResponse) [
            | none ↦ (r, err (provider_failed p.name))
            | some resp ↦ (record_success o r p.name duration resp.total_tokens, ok resp)
          ]).1
            ≡ elim c [ none ↦ err (provider_failed p.name) | some resp ↦ ok resp ]
      second_part none = refl
      second_part (some resp) = refl
  answer-Gives registry (r, err e) duration h = absurd h

  -- Under every strategy Route fails at once exactly where no provider of the registry is available.
  -- Else it asks one provider, which is registered and available, and its reply is that provider's
  -- response, or the error that names it; the error of a failed selection never comes back.
  pub route-IsOffered :
      (r : Router o) (registry : Map String Provider) (preferred : String) (duration : ℕ)
      → ((get_available registry ≡ [])
          × ((route o r registry preferred duration).1 ≡ err err_no_available_providers))
        ⊎ ((p : Provider) × IsOffered registry p
            × ((route o r registry preferred duration).1 ≡ reply_of p))
  unfolding route select_provider
  route-IsOffered r registry preferred duration = elim (List-cases (get_available registry)) [
    | inl nobody ↦ inl (nobody, rw (nobody, route) refl)
    | inr (p, ps, e) ↦ inr (
        rw (e, route)
          (answer-Gives registry (select_with o r.strategy r registry (p ∷ ps) preferred) duration (
            select_with-Gives r.strategy r registry p ps preferred
              (subst (All (IsOffered registry)) e (get_available-IsOffered registry)))))
  ]

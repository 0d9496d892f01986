-- ===== src/Llm/Router/Choice.antt =====
-- The provider that the fastest strategy of the router (internal/llm/router.go) chooses.
use kyoci_agent.Prelude.{
  ℕ, ◌≤◌, ◌<◌, ◌≡◌, ◌⊎◌, inl, inr, refl, String, Option, none, some, List, [], ◌∷◌, ltb, arith,
  Bool-cases, Option-cases, All, eq_String,
}
use kyoci_agent.Prelude.Map.{Map, lookup}
use kyoci_agent.Llm.Router.{Provider, ok, fastest_of, select_fastest, max_duration}

-- All providers have a latency of at least `bound`.
abbrev AllSlower : Map String ℕ → ℕ → List Provider → Type 0
AllSlower tracker bound = All (λ q. (m : ℕ) × (lookup q.name tracker ≡ some m) × (bound ≤ m))

AllSlower-mono :
    (tracker : Map String ℕ) (a b : ℕ) (ps : List Provider)
    → a ≤ b
    → AllSlower tracker b ps
    → AllSlower tracker a ps
AllSlower-mono tracker a b [] h s = tt
AllSlower-mono tracker a b (p ∷ ps) h ((m, e, l), s) =
    ((m, e, omega arith), AllSlower-mono tracker a b ps h s)

-- A provider of no known latency, or one of the smallest.
abbrev pub IsFastest : Map String ℕ → List Provider → Provider → Type 0
IsFastest tracker ps p =
    (lookup p.name tracker ≡ none)
    ⊎ ((l : ℕ) × (lookup p.name tracker ≡ some l) × AllSlower tracker l ps)

abbrev Scanned : Map String ℕ → List Provider → ℕ → Option Provider → Option Provider → Type 0
Scanned tracker ps min fastest r =
    ((p : Provider) × (r ≡ some p) × (lookup p.name tracker ≡ none))
    ⊎ (((r ≡ fastest) × AllSlower tracker min ps)
        ⊎ ((p : Provider) × (l : ℕ) × (r ≡ some p)
            × (lookup p.name tracker ≡ some l)
            × (l < min)
            × AllSlower tracker l ps))

fastest_of-Scanned :
    (tracker : Map String ℕ) (ps : List Provider) (min : ℕ) (fastest : Option Provider)
    → Scanned tracker ps min fastest (fastest_of tracker ps min fastest)
unfolding fastest_of
fastest_of-Scanned tracker [] min fastest = inr (inl (refl, tt))
fastest_of-Scanned tracker (p ∷ ps) min fastest = elim (Option-cases (lookup p.name tracker)) [
  | inl unknown ↦ inl (p, rw (unknown, fastest_of) refl, unknown)
  | inr (l, known) ↦
      rw (known, fastest_of)
        (elim (Bool-cases (ltb l min)) [
          | inl less ↦ rw less (elim (fastest_of-Scanned tracker ps l (some p)) [
            | inl u ↦ inl u
            | inr (inl (e, s)) ↦
                inr (inr (p, l, e, known, ground (arith, less), ((l, refl, omega arith), s)))
            | inr (inr (q, m, e, k, lt, s)) ↦
                inr (inr (q, m, e, k, ground (arith, less), ((l, refl, omega arith), s)))
          ])
          | inr not_less ↦ rw not_less (elim (fastest_of-Scanned tracker ps min fastest) [
            | inl u ↦ inl u
            | inr (inl (e, s)) ↦ inr (inl (e, ((l, refl, ground (arith, not_less)), s)))
            | inr (inr (q, m, e, k, lt, s)) ↦
                inr (inr (q, m, e, k, lt, ((l, refl, ground (arith, not_less)), s)))
          ])
        ])
]

-- selectFastest finds a provider among those that are offered: one of which no latency is known,
-- or one whose latency no other undercuts (latencies being within the range of a time.Duration).
pub select_fastest-IsFastest :
    (tracker : Map String ℕ) (p : Provider) (ps : List Provider)
    → ((name : String) (l : ℕ) → lookup name tracker ≡ some l → l ≤ max_duration)
    → (q : Provider) × (select_fastest tracker (p ∷ ps) ≡ ok q) × IsFastest tracker (p ∷ ps) q
unfolding select_fastest
select_fastest-IsFastest tracker p ps range =
    elim (fastest_of-Scanned tracker (p ∷ ps) max_duration none) [
      | inl (q, e, unknown) ↦ (q, rw (e, select_fastest) refl, inl unknown)
      | inr (inl (e, ((m, known, l), s))) ↦ (
        p,
        rw (e, select_fastest) refl,
        inr (
          m,
          known,
          (
            (m, known, omega arith),
            AllSlower-mono tracker m max_duration ps (range p.name m known) s,
          ),
        ),
      )
      | inr (inr (q, l, e, known, lt, s)) ↦ (q, rw (e, select_fastest) refl, inr (l, known, s))
    ]

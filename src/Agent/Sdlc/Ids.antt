-- ===== src/Agent/Sdlc/Ids.antt =====
-- The ids of a plan when a step is added (internal/agent/orchestrated.go, nextStepID and
-- appendUniqueInt): a new id is new, and the collected ids are those of the plan.
use kyoci_agent.Prelude.{
  ℕ, ◌+◌, ◌≤◌, ◌≡◌, refl, subst, ap, ◌∙◌, inl, inr, true, false, ◌||◌, List, [], ◌∷◌, ◌++◌, map,
  arith, any, All, All-append, All-intro, any-intro, Bool-cases, if◌then◌else◌,
}
use kyoci_agent.Prelude.Int.{ℤ, pos, negsuc, eq_ℤ, int_eq, int_eq_iff, int_ltb, int_suc}
use kyoci_agent.Agent.Dispatcher.{OrchStep}
use kyoci_agent.Agent.Dispatcher.Counting.{in_plan, HasDistinctIds, IsRanked}
use kyoci_agent.Agent.Sdlc.{append_unique_int, max_id, next_step_id, all_ids, wait_for}

-- A plan that the dispatcher can finish: distinct ids, and dependencies that lead down.
pub record IsExecutable (steps : List OrchStep) : Type 0 where
  pub rank : ℤ → ℕ
  pub distinct : HasDistinctIds steps
  pub ranked : IsRanked rank steps

pub below_both :
    (top m k : ℤ)
    → int_ltb top (if int_ltb m k then k else m) ≡ false
    → (int_ltb top m ≡ false) × (int_ltb top k ≡ false)
below_both (pos t) (pos a) (pos b) h = ground arith
below_both (pos t) (pos a) (negsuc b) h = ground arith
below_both (pos t) (negsuc a) (pos b) h = ground arith
below_both (pos t) (negsuc a) (negsuc b) h = ground arith
below_both (negsuc t) (pos a) (pos b) h = ground arith
below_both (negsuc t) (pos a) (negsuc b) h = ground arith
below_both (negsuc t) (negsuc a) (pos b) h = ground arith
below_both (negsuc t) (negsuc a) (negsuc b) h = ground arith

-- The greatest id bounds all of them.
pub max_id_bound :
    (steps : List OrchStep) (m : ℤ)
    → (int_ltb (max_id m steps) m ≡ false) × All (λ s. int_ltb (max_id m steps) s.id ≡ false) steps
unfolding max_id
max_id_bound [] m = (int_ltb_irrefl m, tt)
  where
    int_ltb_irrefl : (m : ℤ) → int_ltb m m ≡ false
    int_ltb_irrefl (pos n) = ground arith
    int_ltb_irrefl (negsuc n) = ground arith
max_id_bound (s ∷ ss) m =
    let (h, rest) = max_id_bound ss (if int_ltb m s.id then s.id else m) in
    let (hm, hs) = below_both _ m s.id h in (hm, (hs, rest))

pub above-fresh :
    (m : ℤ) (steps : List OrchStep)
    → All (λ s. int_ltb m s.id ≡ false) steps
    → in_plan (int_suc m) steps ≡ false
above-fresh m [] h = refl
above-fresh m (s ∷ ss) h = rw (above-fresh m ss h.1, apart m s.id h.0) refl
  where
    apart : (m k : ℤ) → int_ltb m k ≡ false → int_eq k (int_suc m) ≡ false
    apart (pos a) (pos b) h = ground arith
    apart (pos a) (negsuc b) h = ground arith
    apart (negsuc a) (pos b) h = ground arith
    apart (negsuc a) (negsuc b) h = ground arith

pub next_step_id_fresh : (steps : List OrchStep) → in_plan (next_step_id steps) steps ≡ false
unfolding next_step_id
next_step_id_fresh steps = above-fresh (max_id (pos 0) steps) steps (max_id_bound steps (pos 0)).1

pub in_plan-append :
    (k : ℤ) (xs : List OrchStep) (s : OrchStep)
    → in_plan k (xs ++ s ∷ []) ≡ in_plan k xs || int_eq s.id k
in_plan-append k [] s = ground arith
in_plan-append k (x ∷ xs) s = ground (arith, in_plan-append k xs s)

pub in_plan-map : (k v : ℤ) (xs : List OrchStep) → in_plan k (map (wait_for v) xs) ≡ in_plan k xs
unfolding wait_for
in_plan-map k v [] = refl
in_plan-map k v (x ∷ xs) = ground (arith, in_plan-map k v xs)

pub members_in_plan : (steps : List OrchStep) → All (λ s. in_plan s.id steps ≡ true) steps
members_in_plan steps =
    All-intro (λ s. in_plan s.id steps ≡ true) steps
      (λ s m. any-intro (λ t. int_eq t.id s.id) m ((int_eq_iff s.id s.id).1 refl))

pub fresh_apart :
    (v k : ℤ) (steps : List OrchStep)
    → in_plan v steps ≡ false
    → in_plan k steps ≡ true
    → int_eq k v ≡ false
fresh_apart v k steps f h = elim (Bool-cases (int_eq k v)) [
  | inl e ↦ ground (arith, subst (λ j. in_plan j steps ≡ true) ((int_eq_iff k v).0 e) h)
  | inr e ↦ e
]

pub HasDistinctIds-last :
    (xs : List OrchStep) (s : OrchStep)
    → HasDistinctIds xs
    → in_plan s.id xs ≡ false
    → HasDistinctIds (xs ++ s ∷ [])
HasDistinctIds-last [] s h f = (refl, tt)
HasDistinctIds-last (x ∷ xs) s h f = (
  ground (arith, in_plan-append x.id xs s, int_eq_iff s.id x.id, int_eq_iff x.id s.id, h.0),
  HasDistinctIds-last xs s h.1 (ground (arith, f)),
)

pub HasDistinctIds-map :
    (v : ℤ) (xs : List OrchStep) → HasDistinctIds xs → HasDistinctIds (map (wait_for v) xs)
unfolding wait_for
HasDistinctIds-map v [] h = tt
HasDistinctIds-map v (x ∷ xs) h = (in_plan-map x.id v xs ∙ h.0, HasDistinctIds-map v xs h.1)

-- The ids that are collected name steps of the plan.
pub all_ids-in_plan :
    (plan : List OrchStep) (ids : List ℤ) (ss : List OrchStep)
    → All (λ d. in_plan d plan ≡ true) ids
    → All (λ s. in_plan s.id plan ≡ true) ss
    → All (λ d. in_plan d plan ≡ true) (all_ids ids ss)
unfolding all_ids append_unique_int
all_ids-in_plan plan ids [] h hs = h
all_ids-in_plan plan ids (s ∷ ss) h hs = elim (Bool-cases (any (λ x. int_eq x s.id) ids)) [
  | inl e ↦ rw e (all_ids-in_plan plan ids ss h hs.1)
  | inr e ↦ rw e (
      all_ids-in_plan plan (ids ++ s.id ∷ []) ss
        (All-append (λ d. in_plan d plan ≡ true) ids (s.id ∷ []) h (hs.0, tt)) hs.1)
]

-- A bound of the ranks.
abbrev pub top_rank : (ℤ → ℕ) → List OrchStep → ℕ
top_rank rank [] = 0
top_rank rank (s ∷ ss) = rank s.id + top_rank rank ss

pub top_rank_bound :
    (rank : ℤ → ℕ) (k : ℤ) (steps : List OrchStep)
    → in_plan k steps ≡ true
    → rank k ≤ top_rank rank steps
top_rank_bound rank k [] h = cc
top_rank_bound rank k (s ∷ ss) h = elim (Bool-cases (int_eq s.id k)) [
  | inl e ↦ omega (arith, ap rank ((int_eq_iff s.id k).0 e))
  | inr e ↦ omega (arith, top_rank_bound rank k ss (rw e at h))
]

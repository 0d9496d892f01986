-- ===== src/Agent/Dispatcher/Counting.antt =====
-- How `len(done)` of executeWorkers (internal/agent/orchestrated.go) counts the steps of a plan with
-- distinct ids, and why such a plan without cycles always has an eligible step.
use mathlib.Core.List.{Memᴰ}
use kyoci_agent.Prelude.{
  ℕ, zero, suc, ◌≤◌, ◌<◌, ◌≡◌, ◌≢◌, refl, sym, subst, ap, inl, inr, Bool, true, false, List, [],
  ◌∷◌, arith, length, all, any, All, All-elim, any-elim, any-intro, Bool-cases, if◌then◌else◌,
}
use kyoci_agent.Prelude.Int.{ℤ, eq_ℤ, int_eq, int_eq_iff}
use kyoci_agent.Prelude.Map.{Map, insert, lookup}
use kyoci_agent.Agent.Dispatcher.{OrchStep, is_done, deps_done, all_deps_done, next_batch}
use kyoci_agent.Agent.Dispatcher.Rounds.{is_done-insert}

-- A step of the plan has this id.
abbrev pub in_plan : ℤ → List OrchStep → Bool
in_plan k steps = any (λ t. int_eq t.id k) steps

abbrev pub HasDistinctIds : List OrchStep → Type 0
HasDistinctIds [] = Unit
HasDistinctIds (s ∷ ss) = (in_plan s.id ss ≡ false) × HasDistinctIds ss

-- Every dependency names a step of the plan, of a lower rank.
abbrev pub IsRanked : (ℤ → ℕ) → List OrchStep → Type 0
IsRanked rank steps =
    All (λ s. All (λ d. (in_plan d steps ≡ true) × (rank d < rank s.id)) s.depends_on) steps

unfoldable pub count_done : List OrchStep → Map ℤ Bool → ℕ
count_done [] done = 0
count_done (s ∷ ss) done =
    let rest = count_done ss done in if is_done s.id done then suc rest else rest

count_done-insert_absent :
    (steps : List OrchStep) (k : ℤ) (done : Map ℤ Bool)
    → in_plan k steps ≡ false
    → count_done steps (insert k true done) ≡ count_done steps done
unfolding count_done
count_done-insert_absent [] k done h = refl
count_done-insert_absent (s ∷ ss) k done h = ground (
  arith,
  is_done-insert k s.id done,
  int_eq_iff k s.id,
  int_eq_iff s.id k,
  count_done-insert_absent ss k done,
)

pub count_done-insert :
    (steps : List OrchStep) (k : ℤ) (done : Map ℤ Bool)
    → HasDistinctIds steps
    → in_plan k steps ≡ true
    → is_done k done ≡ false
    → count_done steps (insert k true done) ≡ suc (count_done steps done)
unfolding count_done
count_done-insert [] k done d h e = cc
count_done-insert (s ∷ ss) k done d h e = elim (Bool-cases (int_eq s.id k)) [
  | inl q ↦
      (let same : s.id ≡ k = (int_eq_iff s.id k).0 q in
        let absent =
          count_done-insert_absent ss k done (subst (λ j. in_plan j ss ≡ false) same d.0) in
        let undone : is_done s.id done ≡ false = subst (λ j. is_done j done ≡ false) (sym same) e in
        ground (arith, is_done-insert k s.id done, int_eq_iff k s.id))
  | inr q ↦ ground (
    arith,
    is_done-insert k s.id done,
    int_eq_iff k s.id,
    int_eq_iff s.id k,
    count_done-insert ss k done d.1,
  )
]

pub count_done-insert_done :
    (steps : List OrchStep) (k : ℤ) (done : Map ℤ Bool)
    → is_done k done ≡ true
    → count_done steps (insert k true done) ≡ count_done steps done
unfolding count_done
count_done-insert_done [] k done h = refl
count_done-insert_done (s ∷ ss) k done h = ground (
  arith,
  is_done-insert k s.id done,
  int_eq_iff k s.id,
  ap (λ j. is_done j done),
  count_done-insert_done ss k done h,
)

pub count_done-le :
    (steps : List OrchStep) (done : Map ℤ Bool) → count_done steps done ≤ length steps
unfolding count_done
count_done-le [] done = omega arith
count_done-le (s ∷ ss) done = ground (arith, count_done-le ss done)

pub all_done_of_count :
    (steps : List OrchStep) (done : Map ℤ Bool)
    → length steps ≤ count_done steps done
    → all (λ s. is_done s.id done) steps ≡ true
unfolding count_done
all_done_of_count [] done h = refl
all_done_of_count (s ∷ ss) done h = ground (arith, count_done-le ss done, all_done_of_count ss done)

pub undone_of_count :
    (steps : List OrchStep) (done : Map ℤ Bool)
    → count_done steps done < length steps
    → (s : OrchStep) × Memᴰ s steps × (is_done s.id done ≡ false)
unfolding count_done
undone_of_count [] done h = absurd (omega arith)
undone_of_count (s ∷ ss) done h = elim (Bool-cases (is_done s.id done)) [
  | inl e ↦ (let (t, m, q) = undone_of_count ss done (ground arith) in (t, Memᴰ.tail m, q))
  | inr e ↦ (s, Memᴰ.head refl, e)
]

undone_dep :
    (ds : List ℤ) (done : Map ℤ Bool)
    → deps_done ds done ≡ false
    → (d : ℤ) × Memᴰ d ds × (is_done d done ≡ false)
unfolding deps_done
undone_dep [] done h = cc
undone_dep (d ∷ ds) done h = elim (Bool-cases (is_done d done)) [
  | inl e ↦ (let (c, m, q) = undone_dep ds done (ground arith) in (c, Memᴰ.tail m, q))
  | inr e ↦ (d, Memᴰ.head refl, e)
]

next_batch-cons :
    (s : OrchStep) (steps : List OrchStep) (done : Map ℤ Bool)
    → Memᴰ s steps
    → is_done s.id done ≡ false
    → all_deps_done s done ≡ true
    → next_batch steps done ≢ []
unfolding next_batch
next_batch-cons s [] done m u d = elim m [ ]
next_batch-cons s (t ∷ ts) done (Memᴰ.head e) u d = ground (
  arith,
  ap (λ (x : OrchStep). is_done x.id done) e,
  ap (λ (x : OrchStep). all_deps_done x done) e,
)
next_batch-cons s (t ∷ ts) done (Memᴰ.tail m) u d = ground (arith, next_batch-cons s ts done m u d)

-- In a ranked plan, a step that is not done leads down to an eligible one.
eligible_below :
    (rank : ℤ → ℕ) (steps : List OrchStep) (done : Map ℤ Bool) (n : ℕ) (k : ℤ)
    → IsRanked rank steps
    → rank k < n
    → in_plan k steps ≡ true
    → is_done k done ≡ false
    → next_batch steps done ≢ []
unfolding all_deps_done
eligible_below rank steps done zero k r b i u = absurd (omega arith)
eligible_below rank steps done (suc n) k r b i u =
    let (s, m, e) = any-elim (λ t. int_eq t.id k) steps i in
    let same : s.id ≡ k = (int_eq_iff s.id k).0 e in
    let undone : is_done s.id done ≡ false = subst (λ j. is_done j done ≡ false) (sym same) u in
    elim (Bool-cases (all_deps_done s done)) [
      | inl d ↦ next_batch-cons s steps done m undone d
      | inr d ↦
          (let (c, mc, uc) = undone_dep s.depends_on done d in
            let q = All-elim _ mc (All-elim _ m r) in
            let lower : rank c < rank k = subst (λ j. rank c < rank j) same q.1 in
            eligible_below rank steps done n c r (omega arith) q.0 uc)
    ]

-- In a ranked plan some step is eligible as long as not all are done.
pub next_batch-ne-nil :
    (rank : ℤ → ℕ) (steps : List OrchStep) (done : Map ℤ Bool)
    → IsRanked rank steps
    → count_done steps done < length steps
    → next_batch steps done ≢ []
next_batch-ne-nil rank steps done r h =
    let (s, m, u) = undone_of_count steps done h in
    eligible_below rank steps done (suc (rank s.id)) s.id r (omega arith)
      (any-intro (λ t. int_eq t.id s.id) m ((int_eq_iff s.id s.id).1 refl)) u

pub count_done-nil : (steps : List OrchStep) → count_done steps [] ≡ 0
unfolding count_done lookup
count_done-nil [] = refl
count_done-nil (s ∷ ss) = count_done-nil ss

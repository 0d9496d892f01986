-- ===== src/Promptskill/Matcher/Ranking.antt =====
-- The ranking of the matched skills (internal/promptskill/matcher.go).
use mathlib.Core.List.{Permᴰ}
use mathlib.Core.List.Permᴰ
use kyoci_agent.Prelude.{
  String, ◌≡◌, refl, inl, inr, true, false, List, [], ◌∷◌, arith, Bool-cases, All, All-mono,
}
use kyoci_agent.Promptskill.Matcher.{
  MatchResult, PromptSkill, Matchers, matching, comes_before, insert_stable, sort_stable,
}

-- Nothing comes before what stands in front of it.
abbrev pub IsRankedList : List MatchResult → Type 0
IsRankedList [] = Unit
IsRankedList (x ∷ xs) = All (λ y. comes_before y x ≡ false) xs × IsRankedList xs

comes_before_asym : (x y : MatchResult) → comes_before x y ≡ true → comes_before y x ≡ false
unfolding comes_before
comes_before_asym x y h = ground (arith, h)

comes_before_trans :
    (x y z : MatchResult)
    → comes_before y x ≡ false
    → comes_before x z ≡ false
    → comes_before y z ≡ false
unfolding comes_before
comes_before_trans x y z h g = ground (arith, h, g)

All-insert_stable :
    (P : MatchResult → Type 0) (r : MatchResult) (xs : List MatchResult)
    → P r
    → All P xs
    → All P (insert_stable r xs)
unfolding insert_stable
All-insert_stable P r [] p h = (p, tt)
All-insert_stable P r (x ∷ xs) p h = elim (Bool-cases (comes_before x r)) [
  | inl b ↦ rw b (h.0, All-insert_stable P r xs p h.1)
  | inr b ↦ rw b (p, h)
]

insert_stable-IsRankedList :
    (r : MatchResult) (xs : List MatchResult) → IsRankedList xs → IsRankedList (insert_stable r xs)
unfolding insert_stable
insert_stable-IsRankedList r [] h = (tt, tt)
insert_stable-IsRankedList r (x ∷ xs) h = elim (Bool-cases (comes_before x r)) [
  | inl b ↦ rw b (
    All-insert_stable (λ y. comes_before y x ≡ false) r xs (comes_before_asym x r b) h.0,
    insert_stable-IsRankedList r xs h.1,
  )
  | inr b ↦ rw b (
    (
      b,
      All-mono (λ y. comes_before y x ≡ false) (λ y. comes_before y r ≡ false) xs
          (λ y p. comes_before_trans x y r p b) h.0,
    ),
    h,
  )
]

insert_stable-perm : (r : MatchResult) (xs : List MatchResult) → Permᴰ (r ∷ xs) (insert_stable r xs)
unfolding insert_stable
insert_stable-perm r [] = Permᴰ.refl _
insert_stable-perm r (x ∷ xs) = elim (Bool-cases (comes_before x r)) [
  | inl b ↦ rw b (Permᴰ.trans (Permᴰ.swap refl refl) (Permᴰ.cons refl (insert_stable-perm r xs)))
  | inr b ↦ rw b (Permᴰ.refl _)
]

sort_stable-IsRankedList : (rs : List MatchResult) → IsRankedList (sort_stable rs)
unfolding sort_stable
sort_stable-IsRankedList [] = tt
sort_stable-IsRankedList (r ∷ rs) =
    insert_stable-IsRankedList r (sort_stable rs) (sort_stable-IsRankedList rs)

sort_stable-perm : (rs : List MatchResult) → Permᴰ rs (sort_stable rs)
unfolding sort_stable
sort_stable-perm [] = Permᴰ.refl _
sort_stable-perm (r ∷ rs) =
    Permᴰ.trans (Permᴰ.cons refl (sort_stable-perm rs)) (insert_stable-perm r (sort_stable rs))

-- The matched skills are ranked: a permutation of those that match, in which nothing stands behind what it
-- comes before, by priority and then by score.
pub sort_stable-ranks :
    (m : Matchers) (task : String) (skills : List PromptSkill)
    → Permᴰ (matching m task skills) (sort_stable (matching m task skills))
      × IsRankedList (sort_stable (matching m task skills))
sort_stable-ranks m task skills =
    (sort_stable-perm (matching m task skills), sort_stable-IsRankedList (matching m task skills))

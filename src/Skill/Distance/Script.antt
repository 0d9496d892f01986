-- ===== src/Skill/Distance/Script.antt =====
-- Edit scripts, the meaning of the distance that internal/skill/builtin/text.go computes.
use mathlib.Core.List.{reverse, reverse-cons, append-nil}
use kyoci_agent.Prelude.{
  ℕ, suc, ◌+◌, ◌≤◌, ◌≡◌, refl, sym, ap, subst, ◌∙◌, List, [], ◌∷◌, ◌++◌, length, arith, ◌⊎◌, inl,
  inr,
}
use kyoci_agent.Skill.Distance.{cost_of, cell}

-- A way to turn one text into another, from the front to the end.
pub data Script : List ℕ → List ℕ → Type 0 where
  done : Script [] []
  change : (a b : ℕ) {s t : List ℕ} → Script s t → Script (a ∷ s) (b ∷ t)
  insert : (b : ℕ) {s t : List ℕ} → Script s t → Script s (b ∷ t)
  remove : (a : ℕ) {s t : List ℕ} → Script s t → Script (a ∷ s) t

-- Each insertion and removal costs 1, and each change of a character into another.
unfoldable pub cost : {s t : List ℕ} → Script s t → ℕ
cost done = 0
cost (change a b e) = cost_of a b + cost e
cost (insert b e) = suc (cost e)
cost (remove a e) = suc (cost e)

-- The least cost, by the last edit.
unfoldable pub distance : List ℕ → List ℕ → ℕ
distance [] t = length t
distance (a ∷ s) [] = suc (length s)
distance (a ∷ s) (b ∷ t) =
    let above = distance s (b ∷ t) in
    let left = distance (a ∷ s) t in let diagonal = distance s t in cell a b above left diagonal

cell_le :
    (a b above left diagonal : ℕ)
    → (cell a b above left diagonal ≤ above + 1)
      × (cell a b above left diagonal ≤ left + 1)
      × (cell a b above left diagonal ≤ diagonal + cost_of a b)
unfolding cell
cell_le a b above left diagonal = ground arith

pub distance-nil : (s : List ℕ) → distance s [] ≡ length s
unfolding distance
distance-nil [] = refl
distance-nil (a ∷ s) = refl

-- No script is cheaper.
pub distance-le-cost : {s t : List ℕ} (e : Script s t) → distance s t ≤ cost e
unfolding distance cost
distance-le-cost done = omega arith
distance-le-cost (change a b {s = s} {t = t} e) = omega (
  arith,
  distance-le-cost e,
  cell_le a b (distance s (b ∷ t)) (distance (a ∷ s) t) (distance s t),
)
distance-le-cost (insert b {s = []} {t = t} e) = omega (arith, distance-le-cost e)
distance-le-cost (insert b {s = a ∷ s} {t = t} e) = omega (
  arith,
  distance-le-cost e,
  cell_le a b (distance s (b ∷ t)) (distance (a ∷ s) t) (distance s t),
)
distance-le-cost (remove a {s = s} {t = []} e) = omega (arith, distance-le-cost e, distance-nil s)
distance-le-cost (remove a {s = s} {t = b ∷ t} e) = omega (
  arith,
  distance-le-cost e,
  cell_le a b (distance s (b ∷ t)) (distance (a ∷ s) t) (distance s t),
)

insert_all : (t : List ℕ) → (e : Script [] t) × (cost e ≡ length t)
unfolding cost
insert_all [] = (done, refl)
insert_all (b ∷ t) = let (e, h) = insert_all t in (insert b e, ap suc h)

remove_all : (s : List ℕ) → (e : Script s []) × (cost e ≡ length s)
unfolding cost
remove_all [] = (done, refl)
remove_all (a ∷ s) = let (e, h) = remove_all s in (remove a e, ap suc h)

cell-cases :
    (a b above left diagonal : ℕ)
    → (cell a b above left diagonal ≡ suc above)
      ⊎ ((cell a b above left diagonal ≡ suc left)
          ⊎ (cell a b above left diagonal ≡ cost_of a b + diagonal))
unfolding cell
cell-cases a b above left diagonal = ground arith

-- A cheapest script.
pub cheapest : (s t : List ℕ) → (e : Script s t) × (cost e ≡ distance s t)
unfolding cost distance
cheapest [] t = insert_all t
cheapest (a ∷ s) [] = remove_all (a ∷ s)
cheapest (a ∷ s) (b ∷ t) =
    let (above, p) = cheapest s (b ∷ t) in
    let (left, q) = cheapest (a ∷ s) t in
    let (diagonal, r) = cheapest s t in
    elim (cell-cases a b (distance s (b ∷ t)) (distance (a ∷ s) t) (distance s t)) [
      | inl e ↦ (remove a above, ap suc p ∙ sym e)
      | inr (inl e) ↦ (insert b left, ap suc q ∙ sym e)
      | inr (inr e) ↦ (change a b diagonal, ap (λ n. cost_of a b + n) r ∙ sym e)
    ]

-- Scripts one after the other, and from the end to the front.
joined : {s t s' t' : List ℕ} (e : Script s t) (f : Script s' t') → Script (s ++ s') (t ++ t')
joined done f = f
joined (change a b e) f = change a b (joined e f)
joined (insert b e) f = insert b (joined e f)
joined (remove a e) f = remove a (joined e f)

cost-joined :
    {s t s' t' : List ℕ} (e : Script s t) (f : Script s' t') → cost (joined e f) ≡ cost e + cost f
unfolding cost joined
cost-joined done f = omega arith
cost-joined (change a b e) f = omega (arith, cost-joined e f)
cost-joined (insert b e) f = omega (arith, cost-joined e f)
cost-joined (remove a e) f = omega (arith, cost-joined e f)

-- A script of the same cost for the reversed texts.
pub reversed :
    {s t : List ℕ} (e : Script s t) → (f : Script (reverse s) (reverse t)) × (cost f ≡ cost e)
unfolding cost
reversed done = (done, refl)
reversed (change a b {s = s} {t = t} e) =
    let (f, h) = reversed e in
    rw (reverse-cons a s, reverse-cons b t)
      (joined f (change a b done), cost-joined f (change a b done) ∙ omega (arith, h))
reversed (insert b {s = s} {t = t} e) =
    let (f, h) = reversed e in
    rw (reverse-cons b t) (
      subst (λ u. (g : Script u (reverse t ++ b ∷ [])) × (cost g ≡ suc (cost e)))
        (append-nil (reverse s))
        (joined f (insert b done), cost-joined f (insert b done) ∙ omega (arith, h)))
reversed (remove a {s = s} {t = t} e) =
    let (f, h) = reversed e in
    rw (reverse-cons a s) (
      subst (λ u. (g : Script (reverse s ++ a ∷ []) u) × (cost g ≡ suc (cost e)))
        (append-nil (reverse t))
        (joined f (remove a done), cost-joined f (remove a done) ∙ omega (arith, h)))

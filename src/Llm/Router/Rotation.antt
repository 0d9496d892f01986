-- ===== src/Llm/Router/Rotation.antt =====
-- The round-robin strategy of the router (internal/llm/router.go) over several calls.
use mathlib.Core.List.{Permᴰ, append-nil, map-append}
use native.Mathlib.Nat.{mod-lt}
use mathlib.Core.List.Permᴰ
use kyoci_agent.Prelude.{
  ℕ, zero, suc, ◌+◌, ◌-◌, ◌%◌, ◌≤◌, ◌<◌, ◌≡◌, refl, sym, ap, ◌∙◌, some, List, [], ◌∷◌, ◌++◌, length,
  get_elem?, take, drop, length-drop, arith, All, map,
}
use kyoci_agent.Llm.Router.{Provider, Result, ok, Outside, Router, select_round_robin}

module _ (o : Outside) where
  -- The choices of a sequence of calls, each with the providers that are available then, in the
  -- order in which Go lists them.
  pub choices : Router o → List (List Provider) → List (Result Provider)
  choices r [] = []
  choices r (ps ∷ calls) = let (r', chosen) = select_round_robin o r ps in chosen ∷ choices r' calls

abbrev pub repeat {ℓ} : {A : Type ℓ} → ℕ → A → List A
repeat zero a = []
repeat (suc n) a = a ∷ repeat n a

get_elem?-drop :
    (k : ℕ) (ps : List Provider) (q : Provider)
    → get_elem? ps k ≡ some q
    → drop k ps ≡ q ∷ drop (suc k) ps
get_elem?-drop k [] q h = cc
get_elem?-drop zero (p ∷ ps) q h = ground arith
get_elem?-drop (suc k) (p ∷ ps) q h = get_elem?-drop k ps q h

get_elem?_lt :
    (ps : List Provider) (k : ℕ) → k < length ps → (q : Provider) × (get_elem? ps k ≡ some q)
get_elem?_lt [] k h = absurd (omega arith)
get_elem?_lt (p ∷ ps) zero h = (p, refl)
get_elem?_lt (p ∷ ps) (suc k) h = get_elem?_lt ps k (omega arith)

repeat-add {ℓ} : {A : Type ℓ} (m n : ℕ) (a : A) → repeat (m + n) a ≡ repeat m a ++ repeat n a
repeat-add zero n a = ap (λ k. repeat k a) (omega arith)
repeat-add (suc m) n a =
    ap (λ k. repeat k a) {x = suc m + n} {y = suc (m + n)} (omega arith)
    ∙ ap (λ rest. a ∷ rest) (repeat-add m n a)

take_all {ℓ} : {A : Type ℓ} (n : ℕ) (xs : List A) → length xs ≤ n → take n xs ≡ xs
take_all zero [] h = refl
take_all (suc n) [] h = refl
take_all zero (x ∷ xs) h = absurd (omega arith)
take_all (suc n) (x ∷ xs) h = ap (λ rest. x ∷ rest) (take_all n xs (omega arith))

mod-suc : (i n k : ℕ) → i % n ≡ k → suc k < n → suc i % n ≡ suc k
mod-suc i n k h l = grind arith

mod-rest : (i n : ℕ) → 0 < n → (i + (n - i % n)) % n ≡ 0
mod-rest i n h = grind arith

insert_at : ℕ → Provider → List Provider → List Provider
insert_at zero p qs = p ∷ qs
insert_at (suc k) p [] = p ∷ []
insert_at (suc k) p (q ∷ qs) = q ∷ insert_at k p qs

insert_at_elem :
    (k : ℕ) (p : Provider) (qs : List Provider)
    → k < suc (length qs)
    → get_elem? (insert_at k p qs) k ≡ some p
unfolding insert_at
insert_at_elem zero p qs h = refl
insert_at_elem (suc k) p [] h = absurd (omega arith)
insert_at_elem (suc k) p (q ∷ qs) h = insert_at_elem k p qs (omega arith)

length-insert_at :
    (k : ℕ) (p : Provider) (qs : List Provider) → length (insert_at k p qs) ≡ suc (length qs)
unfolding insert_at
length-insert_at zero p qs = refl
length-insert_at (suc k) p [] = refl
length-insert_at (suc k) p (q ∷ qs) = omega (arith, length-insert_at k p qs)

insert_at-perm : (k : ℕ) (p : Provider) (qs : List Provider) → Permᴰ (insert_at k p qs) (p ∷ qs)
unfolding insert_at
insert_at-perm zero p qs = Permᴰ.refl _
insert_at-perm (suc k) p [] = Permᴰ.refl _
insert_at-perm (suc k) p (q ∷ qs) =
    Permᴰ.trans (Permᴰ.cons refl (insert_at-perm k p qs)) (Permᴰ.swap refl refl)

module _ (o : Outside) where
  abbrev advance : Router o → ℕ → Router o
  advance r n = record r { round_robin_idx = r.round_robin_idx + n }

  advance-suc :
      (r : Router o) (n : ℕ)
      → advance (record r { round_robin_idx = suc r.round_robin_idx }) n ≡ advance r (suc n)
  advance-suc r n = ap (λ i. record r { round_robin_idx = i }) (omega arith)

  advance_zero : (r : Router o) → r ≡ advance r 0
  advance_zero r = ap (λ i. record r { round_robin_idx = i }) (omega arith)

  choices_step :
      (r r' : Router o) (ps : List Provider) (chosen : Result Provider)
      (calls : List (List Provider))
      → select_round_robin o r ps ≡ (r', chosen)
      → choices o r (ps ∷ calls) ≡ chosen ∷ choices o r' calls
  unfolding choices
  choices_step r r' ps chosen calls e = rw (e, choices) refl

  choose_elem_of :
      (qs : List Provider) (r : Router o) (q : Provider)
      → get_elem? qs (r.round_robin_idx % length qs) ≡ some q
      → select_round_robin o r qs ≡ (record r { round_robin_idx = suc r.round_robin_idx }, ok q)
  unfolding select_round_robin
  choose_elem_of [] r q f = cc
  choose_elem_of (p ∷ ps) r q f = rw (f, select_round_robin) refl

  module _ (p : Provider) (ps : List Provider) where
    choose_elem :
        (r : Router o) (k : ℕ) (q : Provider)
        → r.round_robin_idx % length (p ∷ ps) ≡ k
        → get_elem? (p ∷ ps) k ≡ some q
        → select_round_robin o r (p ∷ ps)
          ≡ (record r { round_robin_idx = suc r.round_robin_idx }, ok q)
    choose_elem r k q e f = choose_elem_of (p ∷ ps) r q (ap (get_elem? (p ∷ ps)) e ∙ f)

    segment :
        (m k : ℕ) (r : Router o) (calls : List (List Provider))
        → (0 < m → r.round_robin_idx % length (p ∷ ps) ≡ k)
        → k + m ≤ length (p ∷ ps)
        → choices o r (repeat m (p ∷ ps) ++ calls)
          ≡ map ok (take m (drop k (p ∷ ps))) ++ choices o (advance r m) calls
    segment zero k r calls e h = ap (λ r'. choices o r' calls) (advance_zero r)
    segment (suc m) k r calls e h =
        let (q, f) = get_elem?_lt (p ∷ ps) k (omega arith) in
        let r' : Router o = record r { round_robin_idx = suc r.round_robin_idx } in
        let ih =
          segment m (suc k) r' calls
            (λ more. mod-suc r.round_robin_idx (length (p ∷ ps)) k (e (omega arith)) (omega arith))
            (omega arith) in
        choices_step r r' (p ∷ ps) (ok q) _ (choose_elem r k q (e (omega arith)) f)
        ∙ ap (λ rest. ok q ∷ rest)
            (ih
              ∙ ap (λ s. map ok (take m (drop (suc k) (p ∷ ps))) ++ choices o s calls)
                  (advance-suc r m))
        ∙ rw (get_elem?-drop k (p ∷ ps) q f) refl

    -- With the same n providers available and listed in the same order, n successive calls choose
    -- each of them once, in this order, from the one on at which the counter stands.
    pub round_robin_rotates :
        (r : Router o)
        → let k = r.round_robin_idx % length (p ∷ ps) in
          choices o r (repeat (length (p ∷ ps)) (p ∷ ps))
          ≡ map ok (drop k (p ∷ ps) ++ take k (p ∷ ps))
    unfolding choices
    round_robin_rotates r =
        let n : ℕ = length (p ∷ ps) in
        let k : ℕ = r.round_robin_idx % n in
        let k_lt : k < n = mod-lt r.round_robin_idx (omega arith) in
        let two_parts : repeat n (p ∷ ps) ≡ repeat (n - k) (p ∷ ps) ++ (repeat k (p ∷ ps) ++ []) =
          ap (λ m. repeat m (p ∷ ps)) {x = n} {y = n - k + k} (omega arith)
          ∙ repeat-add (n - k) k (p ∷ ps)
          ∙ ap (λ rest. repeat (n - k) (p ∷ ps) ++ rest) (sym (append-nil _)) in
        let until_end = segment (n - k) k r (repeat k (p ∷ ps) ++ []) (λ _. refl) (omega arith) in
        let from_start =
          segment k 0 (advance r (n - k)) [] (λ _. mod-rest r.round_robin_idx n (omega arith))
            (omega arith) in
        ap (choices o r) two_parts
        ∙ until_end
        ∙ ap (λ rest. map ok (take (n - k) (drop k (p ∷ ps))) ++ rest) (from_start ∙ append-nil _)
        ∙ ap (λ xs. map ok xs ++ map ok (take k (p ∷ ps)))
            (take_all (n - k) (drop k (p ∷ ps)) (omega (arith, length-drop k (p ∷ ps))))
        ∙ sym (map-append ok (drop k (p ∷ ps)) (take k (p ∷ ps)))

    -- Go lists the providers of a map in any order. For every provider that is available there are
    -- orders under which every one of any number of successive calls chooses it, whatever the
    -- counter is: the others are never chosen.
    pub round_robin_starves :
        (calls : ℕ) (r : Router o)
        → (orders : List (List Provider)) × All (λ qs. Permᴰ qs (p ∷ ps)) orders
          × (choices o r orders ≡ repeat calls (ok p))
    unfolding choices
    round_robin_starves zero r = ([], tt, refl)
    round_robin_starves (suc calls) r =
        let k : ℕ = r.round_robin_idx % suc (length ps) in
        let qs = insert_at k p ps in
        let r' : Router o = record r { round_robin_idx = suc r.round_robin_idx } in
        let (orders, perms, e) = round_robin_starves calls r' in
        let same : r.round_robin_idx % length qs ≡ k =
          ap (λ n. r.round_robin_idx % n) (length-insert_at k p ps) in
        let first = insert_at_elem k p ps (mod-lt r.round_robin_idx (omega arith)) in
        (
          qs ∷ orders,
          (insert_at-perm k p ps, perms),
          choices_step r r' qs (ok p) orders
                (choose_elem_of qs r p (ap (get_elem? qs) same ∙ first))
              ∙ ap (λ rest. ok p ∷ rest) e,
        )

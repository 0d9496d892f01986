-- ===== src/Agent/Context/Budget.antt =====
-- What Compact (internal/agent/context.go) keeps, and its budget.
use mathlib.Core.List.{reverse, Sublistᴰ, reverse-cons, reverse-reverse, append-nil, append_assoc}
use kyoci_agent.Prelude.{
  ℕ, ◌+◌, ◌-◌, ◌*◌, ◌≤◌, ◌≡◌, refl, ap, subst, ◌∙◌, len, Bool, false, not, List, [], ◌∷◌, ◌++◌,
  keep, keep-append, arith, Bool-cases, inl, inr,
}
use kyoci_agent.Prelude.Int.{ℤ, pos, int_leb, int_minus, int_times}
use kyoci_agent.Agent.Context.{
  Message, Context, is_system, fits, total_chars, add_systems, add_newest, compact, under_limit,
  token_count,
}

total_chars-append :
    (xs ys : List Message) → total_chars (xs ++ ys) ≡ total_chars xs + total_chars ys
total_chars-append [] ys = omega arith
total_chars-append (msg ∷ xs) ys = omega (arith, total_chars-append xs ys)

abbrev pub system_chars : List Message → ℕ
system_chars ms = total_chars (keep is_system ms)

add_systems_kept : (ms : List Message) (r : ℤ) → (add_systems ms r).0 ≡ keep is_system ms
unfolding add_systems
add_systems_kept [] r = refl
add_systems_kept (msg ∷ ms) r =
    ground (arith, add_systems_kept ms (int_minus r (len msg.content)), add_systems_kept ms r)

int_minus_le : (a n : ℕ) → n ≤ a → int_minus (pos a) n ≡ pos (a - n)
int_minus_le a n h = ground arith

add_systems_left :
    (ms : List Message) (budget : ℕ)
    → system_chars ms ≤ budget
    → (add_systems ms (pos budget)).1 ≡ pos (budget - system_chars ms)
unfolding add_systems
add_systems_left [] budget h = ap pos (omega arith)
add_systems_left (msg ∷ ms) budget h = elim (Bool-cases (is_system msg)) [
  | inl e ↦
      (let h' : len msg.content + system_chars ms ≤ budget = rw e at h in
        rw (e, int_minus_le budget (len msg.content) (omega arith))
          (add_systems_left ms (budget - len msg.content) (omega arith) ∙ ap pos (omega arith)))
  | inr e ↦ rw e (add_systems_left ms budget (rw e at h))
]

add_newest_chars :
    (ms : List Message) (n : ℕ) (out : List Message)
    → total_chars (add_newest ms (pos n) out) ≤ n + total_chars out
unfolding add_newest
add_newest_chars [] n out = omega arith
add_newest_chars (msg ∷ older) n out = elim (Bool-cases (fits msg (pos n))) [
  | inl e ↦ rw e (ground (arith, e, add_newest_chars older (n - len msg.content) (msg ∷ out)))
  | inr e ↦ rw e (add_newest_chars older n out)
]

abbrev pub is_other : Message → Bool
is_other msg = not (is_system msg)

keep_snoc {ℓ} :
    {A : Type ℓ} (p : A → Bool) (x : A) (xs tail : List A)
    → keep p (reverse (x ∷ xs)) ++ tail ≡ keep p (reverse xs) ++ (keep p (x ∷ []) ++ tail)
keep_snoc p x xs tail = rw (reverse-cons x xs, keep-append p (reverse xs) (x ∷ []), append_assoc)

-- What the second loop puts in front, in the order of the conversation.
add_newest_kept :
    (ms : List Message) (r : ℤ) (out from last : List Message)
    → Sublistᴰ out from
    → (kept : List Message) × (add_newest ms r (out ++ last) ≡ kept ++ last)
      × Sublistᴰ kept (keep is_other (reverse ms) ++ from)
unfolding add_newest
add_newest_kept [] r out from last h = (out, refl, h)
add_newest_kept (msg ∷ older) r out from last h =
    rw (keep_snoc is_other msg older from) (elim (Bool-cases (is_system msg)) [
      | inl e ↦ rw e (add_newest_kept older r out from last h)
      | inr e ↦ elim (Bool-cases (int_leb (pos (len msg.content)) r)) [
        | inl f ↦
            rw (e, f)
              (add_newest_kept older (int_minus r (len msg.content)) (msg ∷ out) (msg ∷ from) last
                (Sublistᴰ.cons-cons refl h))
        | inr f ↦ rw (e, f) (add_newest_kept older r out (msg ∷ from) last (Sublistᴰ.cons h))
      ]
    ])

module _ (c : Context) where
  -- A conversation over the limit is compacted to some of its other messages, in their order, and
  -- behind them all system messages. So system messages that open a conversation come last then.
  pub compact_order :
      (max_tokens : ℤ)
      → under_limit c.messages max_tokens ≡ false
      → (kept : List Message) × ((compact c max_tokens).messages
          ≡ kept ++ keep is_system c.messages)
        × Sublistᴰ kept (keep is_other c.messages)
  unfolding compact
  compact_order max_tokens over =
      let (systems, left) = add_systems c.messages (int_times max_tokens 4) in
      let (kept, e, sub) = add_newest_kept (reverse c.messages) left [] [] systems Sublistᴰ.slnil in
      (
        kept,
        rw over (e ∙ ap (λ s. kept ++ s) (add_systems_kept c.messages (int_times max_tokens 4))),
        subst (Sublistᴰ kept) (append-nil _ ∙ ap (keep is_other) (reverse-reverse c.messages)) sub,
      )

  -- Where the system messages alone fit in the limit, the compacted conversation does.
  pub compact_within :
      (max_tokens : ℕ)
      → system_chars c.messages ≤ 4 * max_tokens
      → token_count (compact c (pos max_tokens)) ≤ max_tokens
  unfolding compact token_count
  compact_within max_tokens fit = elim (Bool-cases (under_limit c.messages (pos max_tokens))) [
    | inl under ↦ rw under (ground (arith, under))
    | inr over ↦ rw over (
        rw (add_systems_left c.messages (max_tokens * 4) (omega arith)) (
          rw (add_systems_kept c.messages (pos (max_tokens * 4))) (
            ground (
              arith,
              add_newest_chars (reverse c.messages) (max_tokens * 4 - system_chars c.messages)
                  (keep is_system c.messages),
            ))))
  ]

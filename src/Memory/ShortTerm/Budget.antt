-- ===== src/Memory/ShortTerm/Budget.antt =====
-- The invariant of the short-term memory (internal/memory/shortterm.go): its token count is the sum of
-- its entries' tokens, and it keeps to its budget and its capacity.
use kyoci_agent.Prelude.{
  ℕ, suc, ◌+◌, ◌-◌, ◌≤◌, String, str_eq, ◌≡◌, refl, ap, ◌∙◌, ◌⊎◌, inl, inr, false, List, [], ◌∷◌,
  ◌++◌, arith, Bool-cases, length,
}
use kyoci_agent.Prelude.Int.{ℤ, pos, negsuc}
use kyoci_agent.Memory.ShortTerm.{
  MemoryEntry, ShortTermMemory, new_short_term_memory, estimate_tokens, exceeds, trim_entries, trim,
  add, remove_first, delete, clear,
}

unfoldable pub total_tokens : List MemoryEntry → ℕ
total_tokens [] = 0
total_tokens (e ∷ es) = estimate_tokens e.content + total_tokens es

pub total_tokens-append :
    (es : List MemoryEntry) (e : MemoryEntry)
    → total_tokens (es ++ e ∷ []) ≡ total_tokens es + estimate_tokens e.content
unfolding total_tokens
total_tokens-append [] e = omega arith
total_tokens-append (d ∷ es) e = omega (arith, total_tokens-append es e)

-- Nothing is left to trim.
abbrev pub IsWithin : ℤ → ℕ → List MemoryEntry → Type 0
IsWithin max_tokens max_capacity es =
    (es ≡ []) ⊎ (exceeds max_tokens max_capacity (total_tokens es) (length es) ≡ false)

pub record IsConsistent (stm : ShortTermMemory) : Type 0 where
  pub counted : stm.current_tokens ≡ total_tokens stm.entries
  pub within : IsWithin stm.max_tokens stm.max_capacity stm.entries

trim_entries-counted :
    (max_tokens : ℤ) (max_capacity : ℕ) (es : List MemoryEntry) (current : ℕ)
    → current ≡ total_tokens es
    → (trim_entries max_tokens max_capacity es current).1
      ≡ total_tokens (trim_entries max_tokens max_capacity es current).0
unfolding trim_entries total_tokens
trim_entries-counted m c [] current h = h
trim_entries-counted m c (e ∷ es) current h =
    elim (Bool-cases (exceeds m c current (suc (length es)))) [
      | inl b ↦
          rw b
            (trim_entries-counted m c es (current - estimate_tokens e.content) (omega (arith, h)))
      | inr b ↦ rw b h
    ]

trim_entries-IsWithin :
    (max_tokens : ℤ) (max_capacity : ℕ) (es : List MemoryEntry) (current : ℕ)
    → current ≡ total_tokens es
    → IsWithin max_tokens max_capacity (trim_entries max_tokens max_capacity es current).0
unfolding trim_entries total_tokens
trim_entries-IsWithin m c [] current h = inl refl
trim_entries-IsWithin m c (e ∷ es) current h =
    elim (Bool-cases (exceeds m c current (suc (length es)))) [
      | inl b ↦
          rw b
            (trim_entries-IsWithin m c es (current - estimate_tokens e.content) (omega (arith, h)))
      | inr b ↦ rw b (inr (rw (← h) b))
    ]

add-IsConsistent :
    (stm : ShortTermMemory) (e : MemoryEntry) → IsConsistent stm → IsConsistent (add stm e)
unfolding add trim
add-IsConsistent stm e h =
    let sum : stm.current_tokens + estimate_tokens e.content
        ≡ total_tokens (stm.entries ++ e ∷ []) =
      omega (arith, h.counted, total_tokens-append stm.entries e) in
    record {
      counted = trim_entries-counted stm.max_tokens stm.max_capacity (stm.entries ++ e ∷ []) _ sum;
      within = trim_entries-IsWithin stm.max_tokens stm.max_capacity (stm.entries ++ e ∷ []) _ sum;
    }

remove_first-counts :
    (id : String) (es : List MemoryEntry)
    → (total_tokens (remove_first id es).0 + (remove_first id es).1 ≡ total_tokens es)
      × (length (remove_first id es).0 ≤ length es)
unfolding remove_first total_tokens
remove_first-counts id [] = (omega arith, omega arith)
remove_first-counts id (e ∷ es) = elim (Bool-cases (str_eq e.id id)) [
  | inl b ↦ rw b (omega arith, omega arith)
  | inr b ↦
      rw b
        (omega (arith, (remove_first-counts id es).0), omega (arith, (remove_first-counts id es).1))
]

exceeds_mono :
    (m : ℤ) (c t t' n n' : ℕ)
    → t' ≤ t
    → n' ≤ n
    → exceeds m c t n ≡ false
    → exceeds m c t' n' ≡ false
exceeds_mono (pos m) c t t' n n' ht hn h = ground arith
exceeds_mono (negsuc m) c t t' n n' ht hn h = ground arith

-- Fewer entries with fewer tokens stay within.
IsWithin-mono :
    (m : ℤ) (c : ℕ) (es ds : List MemoryEntry)
    → total_tokens ds ≤ total_tokens es
    → length ds ≤ length es
    → IsWithin m c es
    → IsWithin m c ds
IsWithin-mono m c es ds t l h = elim h [
  | inl e ↦ inl (empty ds (omega (arith, ap length e, l)))
  | inr b ↦ inr (exceeds_mono m c _ _ _ _ t l b)
]
  where
    empty : (xs : List MemoryEntry) → length xs ≤ 0 → xs ≡ []
    empty [] q = refl
    empty (x ∷ xs) q = ground (arith, q)

pub delete-IsConsistent :
    (stm : ShortTermMemory) (id : String) → IsConsistent stm → IsConsistent (delete stm id).0
unfolding delete
delete-IsConsistent stm id h = elim (Bool-cases (remove_first id stm.entries).2) [
  | inl b ↦ rw b (record {
    counted = omega (arith, h.counted, (remove_first-counts id stm.entries).0);
    within =
        IsWithin-mono stm.max_tokens stm.max_capacity stm.entries _
          (omega (arith, (remove_first-counts id stm.entries).0))
          (remove_first-counts id stm.entries).1 h.within;
  })
  | inr b ↦ rw b h
]

clear-IsConsistent : (stm : ShortTermMemory) → IsConsistent (clear stm)
unfolding clear total_tokens
clear-IsConsistent stm = record { counted = refl; within = inl refl }

-- The operations that write.
pub data Op : Type 0 where
  add_entry : MemoryEntry → Op
  delete_id : String → Op
  clear_all : Op

abbrev pub apply : ShortTermMemory → Op → ShortTermMemory
apply stm (add_entry e) = add stm e
apply stm (delete_id id) = (delete stm id).0
apply stm clear_all = clear stm

abbrev pub run : ShortTermMemory → List Op → ShortTermMemory
run stm [] = stm
run stm (o ∷ os) = run (apply stm o) os

run-IsConsistent :
    (stm : ShortTermMemory) (os : List Op) → IsConsistent stm → IsConsistent (run stm os)
run-IsConsistent stm [] h = h
run-IsConsistent stm (add_entry e ∷ os) h =
    run-IsConsistent (add stm e) os (add-IsConsistent stm e h)
run-IsConsistent stm (delete_id id ∷ os) h =
    run-IsConsistent (delete stm id).0 os (delete-IsConsistent stm id h)
run-IsConsistent stm (clear_all ∷ os) h = run-IsConsistent (clear stm) os (clear-IsConsistent stm)

-- The limits never change.
run_keeps_limits :
    (stm : ShortTermMemory) (os : List Op)
    → ((run stm os).max_tokens ≡ stm.max_tokens) × ((run stm os).max_capacity ≡ stm.max_capacity)
unfolding add trim delete clear
run_keeps_limits stm [] = (refl, refl)
run_keeps_limits stm (add_entry e ∷ os) = run_keeps_limits (add stm e) os
run_keeps_limits stm (delete_id id ∷ os) =
    let (t, c) = run_keeps_limits (delete stm id).0 os in (t ∙ ground arith, c ∙ ground arith)
run_keeps_limits stm (clear_all ∷ os) = run_keeps_limits (clear stm) os

within-bounds :
    (m c : ℕ) (es : List MemoryEntry)
    → IsWithin (pos m) c es
    → (total_tokens es ≤ m) × (length es ≤ c)
unfolding total_tokens
within-bounds m c es h = elim h [
  | inl e ↦ rw e (omega arith, omega arith)
  | inr b ↦ (ground (arith, b), ground (arith, b))
]

-- Whatever is added, deleted and cleared, a memory made with a budget of at least 0 counts exactly the
-- tokens of its entries, never more than its budget, and never holds more than 1000 entries.
pub run-new-bounds :
    (budget : ℕ) (os : List Op)
    → ((run (new_short_term_memory (pos budget)) os).current_tokens
        ≡ total_tokens (run (new_short_term_memory (pos budget)) os).entries)
      × ((run (new_short_term_memory (pos budget)) os).current_tokens ≤ budget)
      × (length (run (new_short_term_memory (pos budget)) os).entries ≤ 1000)
unfolding new_short_term_memory total_tokens
run-new-bounds budget os =
    let start = new_short_term_memory (pos budget) in
    let h = run-IsConsistent start os (record { counted = refl; within = inl refl }) in
    let (t, c) = run_keeps_limits start os in
    let (b, l) = within-bounds budget 1000 (run start os).entries (rw (t, c) at h.within) in
    (h.counted, omega (arith, h.counted, b), l)

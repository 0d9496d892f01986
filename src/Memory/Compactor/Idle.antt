-- ===== src/Memory/Compactor/Idle.antt =====
-- When the compactions that internal/memory/store.go starts do nothing.
use kyoci_agent.Prelude.{
  ℕ, zero, suc, ◌-◌, ◌/◌, ◌≤◌, ◌≡◌, refl, sym, ap, subst, str_eq, str_eq_refl, Bool, not, List, [],
  ◌∷◌, ◌++◌, any-intro, length, drop, keep_none, All-intro, if_same, arith,
}
use kyoci_agent.Prelude.Int.{pos}
use kyoci_agent.Memory.ShortTerm.{
  MemoryEntry, ShortTermMemory, new_short_term_memory, add, delete, clear, get_recent,
  get_all_entries, token_count,
}
use kyoci_agent.Memory.ShortTerm.Budget.{Op, add_entry, delete_id, clear_all, run, run-new-bounds}
use kyoci_agent.Memory.Compactor.{
  Outside, no_stats, compact, compact_entries, compact_if_needed, store_short_term,
  entries_to_compact, is_kept, should_trigger,
}

run_snoc :
    (stm : ShortTermMemory) (os : List Op) (e : MemoryEntry)
    → run stm (os ++ add_entry e ∷ []) ≡ add (run stm os) e
run_snoc stm [] e = refl
run_snoc stm (add_entry d ∷ os) e = run_snoc (add stm d) os e
run_snoc stm (delete_id id ∷ os) e = run_snoc (delete stm id).0 os e
run_snoc stm (clear_all ∷ os) e = run_snoc (clear stm) os e

length_zero {ℓ} : {A : Type ℓ} (xs : List A) → length xs ≤ 0 → xs ≡ []
length_zero [] h = refl
length_zero (x ∷ xs) h = absurd (omega arith)

all_kept : (es : List MemoryEntry) → entries_to_compact es es ≡ []
unfolding entries_to_compact
all_kept es =
    keep_none (λ e. not (is_kept es e)) es
      (All-intro _ es (λ e m. ap not (any-intro (λ r. str_eq r.id e.id) m (str_eq_refl e.id))))

get_recent_all :
    (stm : ShortTermMemory) (n : ℕ) → length stm.entries ≤ n → get_recent stm (pos n) ≡ stm.entries
unfolding get_recent
get_recent_all stm zero h = sym (length_zero stm.entries h)
get_recent_all stm (suc n) h =
    ap (λ k. drop k stm.entries) {x = length stm.entries - suc n} {y = 0} (omega arith)

module _ (o : Outside) where
  open o use {LongTerm}

  compact_within_budget :
      (stm : ShortTermMemory) (ltm : LongTerm) (max_tokens : ℕ)
      → stm.current_tokens ≤ max_tokens
      → compact o stm ltm (pos max_tokens) ≡ (stm, ltm, no_stats)
  unfolding compact token_count
  compact_within_budget stm ltm max_tokens h = ground (arith, h)

  compact_few :
      (stm : ShortTermMemory) (ltm : LongTerm) (max_tokens : ℕ)
      → length stm.entries ≤ max_tokens / 2
      → compact o stm ltm (pos max_tokens) ≡ (stm, ltm, no_stats)
  unfolding compact compact_entries get_all_entries
  compact_few stm ltm max_tokens h =
      let recent : get_recent stm (pos (max_tokens / 2)) ≡ stm.entries =
        get_recent_all stm (max_tokens / 2) h in
      rw recent (rw (all_kept stm.entries) (if_same _ _))

  -- MemoryManager.Store never compacts: whatever was added, deleted and cleared in a short-term
  -- memory that was made with the configured budget, storing one more entry only adds it, and the
  -- long-term memory stays as it is, over the threshold or not. For adding already drops the oldest
  -- entries until the budget is met, and Compact does nothing within the budget.
  pub store_short_term_idle :
      (budget : ℕ) (os : List Op) (ltm : LongTerm) (e : MemoryEntry)
      → let stm = run (new_short_term_memory (pos budget)) os in
        store_short_term o (pos budget) stm ltm e ≡ (add stm e, ltm)
  unfolding store_short_term
  store_short_term_idle budget os ltm e =
      let start = new_short_term_memory (pos budget) in
      let bounds = run-new-bounds budget (os ++ add_entry e ∷ []) in
      let within = subst (λ stm. stm.current_tokens ≤ budget) (run_snoc start os e) bounds.1 in
      rw (compact_within_budget (add (run start os) e) ltm budget within) (if_same _ _)

  -- CompactIfNeeded never compacts with a budget of 4000 tokens, the default, or more: it keeps the
  -- newest entries, a quarter of the budget in number, and a short-term memory never holds more
  -- than 1000 entries.
  pub compact_if_needed_idle :
      (budget : ℕ) (closed : Bool) (os : List Op) (ltm : LongTerm)
      → 4000 ≤ budget
      → let stm = run (new_short_term_memory (pos budget)) os in
        compact_if_needed o (pos budget) closed stm ltm ≡ (stm, ltm)
  unfolding compact_if_needed
  compact_if_needed_idle budget closed os ltm large =
      let stm = run (new_short_term_memory (pos budget)) os in
      let bounds = run-new-bounds budget os in
      let same : ShortTermMemory × LongTerm = (stm, ltm) in
      rw (compact_few stm ltm (budget / 2) (omega (arith, bounds.2)))
        (rw (if_same (should_trigger o stm) same) (if_same closed same))

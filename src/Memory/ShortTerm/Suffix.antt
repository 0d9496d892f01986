-- ===== src/Memory/ShortTerm/Suffix.antt =====
-- Which entries the short-term memory (internal/memory/shortterm.go) keeps, gives back and deletes.
use kyoci_agent.Prelude.{
  ℕ, zero, suc, ◌-◌, ◌≤◌, String, str_eq, str_eq_iff, ◌≡◌, refl, ap, ◌∙◌, inl, inr, true, false,
  List, [], ◌∷◌, ◌++◌, arith, Bool-cases, length, drop, take, any, length-drop, take-append-drop,
}
use kyoci_agent.Prelude.Int.{ℤ, pos}
use kyoci_agent.Memory.ShortTerm.{
  MemoryEntry, ShortTermMemory, estimate_tokens, exceeds, trim_entries, trim, add, remove_first,
  delete, get_recent,
}
use kyoci_agent.Memory.ShortTerm.Budget.{total_tokens, total_tokens-append, IsConsistent}

trim_entries_suffix :
    (m : ℤ) (c : ℕ) (es : List MemoryEntry) (current : ℕ)
    → (k : ℕ) × ((trim_entries m c es current).0 ≡ drop k es)
unfolding trim_entries
trim_entries_suffix m c [] current = (0, refl)
trim_entries_suffix m c (e ∷ es) current =
    elim (Bool-cases (exceeds m c current (suc (length es)))) [
      | inl b ↦
          (let (k, q) = trim_entries_suffix m c es (current - estimate_tokens e.content) in
            (suc k, rw b q))
      | inr b ↦ (0, rw b refl)
    ]

trim_entries_longest :
    (m : ℤ) (c : ℕ) (es : List MemoryEntry) (current j : ℕ)
    → current ≡ total_tokens es
    → exceeds m c (total_tokens (drop j es)) (length (drop j es)) ≡ false
    → length (drop j es) ≤ length (trim_entries m c es current).0
unfolding trim_entries total_tokens
trim_entries_longest m c [] current j h f = omega (arith, length-drop {A = MemoryEntry} j [])
trim_entries_longest m c (e ∷ es) current zero h f =
    let fits : exceeds m c current (suc (length es)) ≡ false = rw h f in rw fits (omega arith)
trim_entries_longest m c (e ∷ es) current (suc i) h f =
    elim (Bool-cases (exceeds m c current (suc (length es)))) [
      | inl b ↦
          rw b (
            trim_entries_longest m c es (current - estimate_tokens e.content) i (omega (arith, h))
              f)
      | inr b ↦ rw b (omega (arith, length-drop i es))
    ]

-- After Add the memory holds the newest entries.
add_suffix :
    (stm : ShortTermMemory) (e : MemoryEntry)
    → (k : ℕ) × ((add stm e).entries ≡ drop k (stm.entries ++ e ∷ []))
unfolding add trim
add_suffix stm e = trim_entries_suffix stm.max_tokens stm.max_capacity (stm.entries ++ e ∷ []) _

-- For a consistent memory, Add keeps the newest entries, and as many of them as fit: the result is what
-- is left of all entries when the oldest are dropped, and it is at least as long as any such rest that
-- keeps to the budget and the capacity.
pub add_longest :
    (stm : ShortTermMemory) (e : MemoryEntry) (j : ℕ)
    → IsConsistent stm
    → exceeds stm.max_tokens stm.max_capacity
        (total_tokens (drop j (stm.entries ++ e ∷ [])))
        (length (drop j (stm.entries ++ e ∷ [])))
      ≡ false
    → ((k : ℕ) × ((add stm e).entries ≡ drop k (stm.entries ++ e ∷ [])))
      × (length (drop j (stm.entries ++ e ∷ [])) ≤ length (add stm e).entries)
unfolding add trim
add_longest stm e j h f = (
  add_suffix stm e,
  trim_entries_longest stm.max_tokens stm.max_capacity (stm.entries ++ e ∷ []) _ j
      (omega (arith, h.counted, total_tokens-append stm.entries e)) f,
)

-- GetRecent of a positive n gives the last entries in their order, at most n of them: the entries are
-- the older ones followed by these.
pub get_recent_last :
    (stm : ShortTermMemory) (n : ℕ)
    → (length (get_recent stm (pos (suc n))) ≤ suc n)
      × (take (length stm.entries - suc n) stm.entries ++ get_recent stm (pos (suc n))
          ≡ stm.entries)
unfolding get_recent
get_recent_last stm n = (
  omega (arith, length-drop (length stm.entries - suc n) stm.entries),
  take-append-drop (length stm.entries - suc n) stm.entries,
)

-- The entry that `remove_first` takes out.
pub record Removed (id : String) (es rest : List MemoryEntry) : Type 0 where
  pub before : List MemoryEntry
  pub entry : MemoryEntry
  pub behind : List MemoryEntry
  pub all : es ≡ before ++ entry ∷ behind
  pub left : rest ≡ before ++ behind
  pub same_id : entry.id ≡ id
  pub first : any (λ e. str_eq e.id id) before ≡ false

remove_first_splits :
    (id : String) (es : List MemoryEntry)
    → (remove_first id es).2 ≡ true
    → Removed id es (remove_first id es).0
unfolding remove_first
remove_first_splits id [] h = cc
remove_first_splits id (e ∷ es) h = elim (Bool-cases (str_eq e.id id)) [
  | inl b ↦ rw b (record {
    before = [];
    entry = e;
    behind = es;
    all = refl;
    left = refl;
    same_id = (str_eq_iff e.id id).0 b;
    first = refl;
  })
  | inr b ↦
      (let r = remove_first_splits id es (rw b at h) in
        rw b (record {
          before = e ∷ r.before;
          entry = r.entry;
          behind = r.behind;
          all = ap (◌∷◌ e) r.all;
          left = ap (◌∷◌ e) r.left;
          same_id = r.same_id;
          first = rw (b, r.first) refl;
        }))
]

remove_first_found :
    (id : String) (es : List MemoryEntry) → (remove_first id es).2 ≡ any (λ e. str_eq e.id id) es
unfolding remove_first
remove_first_found id [] = refl
remove_first_found id (e ∷ es) = ground (arith, remove_first_found id es)

-- When an entry has the id, Delete reports true and takes out exactly the first such entry.
pub delete-Removed :
    (stm : ShortTermMemory) (id : String)
    → any (λ e. str_eq e.id id) stm.entries ≡ true
    → ((delete stm id).1 ≡ true) × Removed id stm.entries (delete stm id).0.entries
unfolding delete
delete-Removed stm id h =
    let f = remove_first_found id stm.entries ∙ h in
    rw f (refl, remove_first_splits id stm.entries f)

-- When no entry has the id, Delete reports false and changes nothing.
pub delete_missing :
    (stm : ShortTermMemory) (id : String)
    → any (λ e. str_eq e.id id) stm.entries ≡ false
    → delete stm id ≡ (stm, false)
unfolding delete
delete_missing stm id h = rw (remove_first_found id stm.entries ∙ h) refl

-- ===== src/Tool/Todo/Lookup.antt =====
-- The task list (internal/tool/builtin/todo.go) as a map from ids to tasks.
use kyoci_agent.Prelude.{
  ℕ, suc, String, ◌≡◌, refl, inl, inr, true, false, Option, none, some, List, [], ◌∷◌, ◌++◌, arith,
  any, Bool-cases, if◌then◌else◌, ◌==◌, length, keep,
}
use kyoci_agent.Prelude.Int.{pos}
use kyoci_agent.Tool.Todo.{
  TodoItem, TodoStore, store_task, complete_task, remove_task, complete_first, has_id, lacks_id,
}
use kyoci_agent.Tool.Todo.Store.{IsRising, IsTidy}

-- The task with an id.
unfoldable pub find_task : ℕ → List TodoItem → Option TodoItem
find_task k [] = none
find_task k (i ∷ is) = let rest = find_task k is in if i.id == k then some i else rest

abbrev pub completed_task : Option TodoItem → Option TodoItem
completed_task none = none
completed_task (some i) = some (record i { status = "completed" })

find_task-snoc :
    (k low high : ℕ) (is : List TodoItem) (i : TodoItem)
    → IsRising low high is
    → i.id ≡ high
    → find_task k (is ++ i ∷ []) ≡ (if high == k then some i else find_task k is)
unfolding find_task
find_task-snoc k low high [] i h e = rw e refl
find_task-snoc k low high (j ∷ is) i (a, b, c) e =
    ground (arith, find_task-snoc k (suc j.id) high is i c e, b)

find_task-complete_first :
    (k id : ℕ) (is : List TodoItem)
    → find_task k (complete_first (pos id) is)
      ≡ (if id == k then completed_task (find_task k is) else find_task k is)
unfolding find_task complete_first
find_task-complete_first k id [] = ground arith
find_task-complete_first k id (i ∷ is) = elim (Bool-cases (i.id == id)) [
  | inl e ↦ rw e (ground (arith, e))
  | inr e ↦ rw e (ground (arith, e, find_task-complete_first k id is))
]

find_task-keep :
    (k id : ℕ) (is : List TodoItem)
    → find_task k (keep (lacks_id (pos id)) is) ≡ (if id == k then none else find_task k is)
unfolding find_task
find_task-keep k id [] = ground arith
find_task-keep k id (i ∷ is) = ground (arith, find_task-keep k id is)

-- For a store with rising ids that nobody holds, 'add' binds the next id to the pending task and leaves
-- all other ids as they were.
pub store_task-find_task :
    (st : TodoStore) (task : String) (k : ℕ)
    → IsTidy st
    → st.locked ≡ false
    → find_task k (store_task st task).1.items ≡ (
        if st.next_id == k
        then some (record { id = st.next_id; content = task; status = "pending" })
        else find_task k st.items)
unfolding store_task
store_task-find_task st task k h u = rw u (find_task-snoc k 1 st.next_id st.items _ h.rising refl)

unchanged :
    (id k : ℕ) (is : List TodoItem)
    → any (has_id (pos id)) is ≡ false
    → (id == k) ≡ true
    → find_task k is ≡ none
unfolding find_task
unchanged id k [] h e = refl
unchanged id k (i ∷ is) h e = ground (arith, unchanged id k is, h, e)

-- For a store that nobody holds, 'complete' of an id completes the task with this id, if there is one,
-- and leaves all other ids as they were.
pub complete_task-find_task :
    (st : TodoStore) (id k : ℕ)
    → st.locked ≡ false
    → find_task k (complete_task st (pos id)).1.items
      ≡ (if id == k then completed_task (find_task k st.items) else find_task k st.items)
unfolding complete_task
complete_task-find_task st id k u = elim (Bool-cases (any (has_id (pos id)) st.items)) [
  | inl e ↦ rw (u, e) (find_task-complete_first k id st.items)
  | inr e ↦ rw (u, e) (ground (arith, unchanged id k st.items e))
]

none_in_empty : (k : ℕ) (is : List TodoItem) → (length is == 0) ≡ true → find_task k is ≡ none
unfolding find_task
none_in_empty k [] h = refl
none_in_empty k (i ∷ is) h = ground (arith, h)

-- For a store that nobody holds, 'remove' of an id takes the task with this id out of the list and leaves
-- all other ids as they were; this holds of the items on every branch.
pub remove_task-find_task :
    (st : TodoStore) (id k : ℕ)
    → st.locked ≡ false
    → find_task k (remove_task st (pos id)).1.items
      ≡ (if id == k then none else find_task k st.items)
unfolding remove_task
remove_task-find_task st id k u = elim (Bool-cases (length st.items == 0)) [
  | inl z ↦ rw (u, z) (ground (arith, none_in_empty k st.items z))
  | inr z ↦ elim (Bool-cases (any (has_id (pos id)) st.items)) [
    | inl e ↦ rw (u, z, e) (find_task-keep k id st.items)
    | inr e ↦ rw (u, z, e) (ground (arith, unchanged id k st.items e))
  ]
]

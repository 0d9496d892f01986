-- ===== src/Tool/Todo/Store.antt =====
-- The invariant of the task list (internal/tool/builtin/todo.go).
use kyoci_agent.Prelude.{
  ℕ, suc, ◌≤◌, ◌<◌, String, str_eq, ◌≡◌, refl, ◌⊎◌, inl, inr, Bool, true, false, Option, List, [],
  ◌∷◌, ◌++◌, arith, any, Bool-cases, Option-cases, if◌then◌else◌, ◌==◌, length, keep, All,
  All-append,
}
use kyoci_agent.Prelude.Int.{ℤ}
use kyoci_agent.Prelude.Atoi.{atoi}
use kyoci_agent.Tool.Todo.{
  TodoItem, TodoStore, new_store, Params, Reply, text_of, add_task, store_task, list_tasks,
  snapshot_tasks, complete_task, remove_task, clear_tasks, complete_first, has_id, lacks_id,
  on_task_id, dispatch, execute,
}

-- Ids rise from `low` on and stay below `high`.
abbrev pub IsRising : ℕ → ℕ → List TodoItem → Type 0
IsRising low high [] = Unit
IsRising low high (i ∷ is) = (low ≤ i.id) × (i.id < high) × IsRising (suc i.id) high is

abbrev pub HasStatus : TodoItem → Type 0
HasStatus i = (i.status ≡ "pending") ⊎ (i.status ≡ "completed")

pub record IsTidy (st : TodoStore) : Type 0 where
  pub started : 1 ≤ st.next_id
  pub rising : IsRising 1 st.next_id st.items
  pub statuses : All HasStatus st.items

IsRising-mono :
    (low low' high : ℕ) (is : List TodoItem)
    → low' ≤ low
    → IsRising low high is
    → IsRising low' high is
IsRising-mono low low' high [] l h = tt
IsRising-mono low low' high (i ∷ is) l (a, b, c) = (omega arith, b, c)

IsRising-snoc :
    (low high : ℕ) (is : List TodoItem) (i : TodoItem)
    → low ≤ high
    → i.id ≡ high
    → IsRising low high is
    → IsRising low (suc high) (is ++ i ∷ [])
IsRising-snoc low high [] i l e h = (omega arith, omega arith, tt)
IsRising-snoc low high (j ∷ is) i l e (a, b, c) =
    (a, omega arith, IsRising-snoc (suc j.id) high is i (omega arith) e c)

IsRising-keep :
    (p : TodoItem → Bool) (low high : ℕ) (is : List TodoItem)
    → IsRising low high is
    → IsRising low high (keep p is)
IsRising-keep p low high [] h = tt
IsRising-keep p low high (i ∷ is) (a, b, c) = elim (Bool-cases (p i)) [
  | inl e ↦ rw e (a, b, IsRising-keep p (suc i.id) high is c)
  | inr e ↦ rw e (
      IsRising-mono (suc i.id) low high (keep p is) (omega arith)
        (IsRising-keep p (suc i.id) high is c))
]

IsRising-complete_first :
    (id : ℤ) (low high : ℕ) (is : List TodoItem)
    → IsRising low high is
    → IsRising low high (complete_first id is)
unfolding complete_first
IsRising-complete_first id low high [] h = tt
IsRising-complete_first id low high (i ∷ is) (a, b, c) = elim (Bool-cases (has_id id i)) [
  | inl e ↦ rw e (a, b, c)
  | inr e ↦ rw e (a, b, IsRising-complete_first id (suc i.id) high is c)
]

All-keep :
    (P : TodoItem → Type 0) (p : TodoItem → Bool) (is : List TodoItem)
    → All P is
    → All P (keep p is)
All-keep P p [] h = tt
All-keep P p (i ∷ is) h = elim (Bool-cases (p i)) [
  | inl e ↦ rw e (h.0, All-keep P p is h.1)
  | inr e ↦ rw e (All-keep P p is h.1)
]

All-complete_first :
    (id : ℤ) (is : List TodoItem) → All HasStatus is → All HasStatus (complete_first id is)
unfolding complete_first
All-complete_first id [] h = tt
All-complete_first id (i ∷ is) h = elim (Bool-cases (has_id id i)) [
  | inl e ↦ rw e (inr refl, h.1)
  | inr e ↦ rw e (h.0, All-complete_first id is h.1)
]

if-IsTidy :
    (b : Bool) (x y : Reply × TodoStore) → IsTidy x.1 → IsTidy y.1 → IsTidy (if b then x else y).1
if-IsTidy true x y hx hy = hx
if-IsTidy false x y hx hy = hy

module _ (st : TodoStore) (h : IsTidy st) where
  store_task-IsTidy : (task : String) → IsTidy (store_task st task).1
  unfolding store_task
  store_task-IsTidy task = if-IsTidy st.locked _ _ h (record {
    started = omega (arith, h.started);
    rising = IsRising-snoc 1 st.next_id st.items _ h.started refl h.rising;
    statuses = All-append HasStatus st.items _ h.statuses (inl refl, tt);
  })

  add_task-IsTidy : (task : Option String) → IsTidy (add_task st task).1
  unfolding add_task
  add_task-IsTidy task = elim (Option-cases (text_of task)) [
    | inl e ↦ rw (add_task, e) h
    | inr (s, e) ↦ rw (add_task, e) (store_task-IsTidy s)
  ]

  list_tasks-IsTidy : IsTidy (list_tasks st).1
  unfolding list_tasks
  list_tasks-IsTidy = if-IsTidy st.locked _ _ h h

  snapshot_tasks-IsTidy : IsTidy (snapshot_tasks st).1
  unfolding snapshot_tasks
  snapshot_tasks-IsTidy = if-IsTidy st.locked _ _ h h

  complete_task-IsTidy : (id : ℤ) → IsTidy (complete_task st id).1
  unfolding complete_task
  complete_task-IsTidy id = if-IsTidy st.locked _ _ h (
      if-IsTidy (any (has_id id) st.items) _ _
        (record {
          started = h.started;
          rising = IsRising-complete_first id 1 st.next_id st.items h.rising;
          statuses = All-complete_first id st.items h.statuses;
        })
        h)

  remove_task-IsTidy : (id : ℤ) → IsTidy (remove_task st id).1
  unfolding remove_task
  remove_task-IsTidy id = if-IsTidy st.locked _ _ h (
      if-IsTidy (length st.items == 0) _ _
        (record { started = h.started; rising = h.rising; statuses = h.statuses })
        (if-IsTidy (any (has_id id) st.items) _ _
          (record {
            started = h.started;
            rising = IsRising-keep (lacks_id id) 1 st.next_id st.items h.rising;
            statuses = All-keep HasStatus (lacks_id id) st.items h.statuses;
          })
          h))

  clear_tasks-IsTidy : IsTidy (clear_tasks st).1
  unfolding clear_tasks
  clear_tasks-IsTidy =
      if-IsTidy st.locked _ _ h (record { started = omega arith; rising = tt; statuses = tt })

  on_task_id-IsTidy :
      (task : Option String) (act : ℤ → Reply × TodoStore)
      → ((id : ℤ) → IsTidy (act id).1)
      → IsTidy (on_task_id st task act).1
  unfolding on_task_id
  on_task_id-IsTidy task act f = elim (Option-cases (text_of task)) [
    | inl e ↦ rw (on_task_id, e) h
    | inr (s, e) ↦ elim (Option-cases (atoi s)) [
      | inl d ↦ rw (on_task_id, e, d) h
      | inr (id, d) ↦ rw (on_task_id, e, d) (f id)
    ]
  ]

  -- Every call keeps ids rising and statuses known.
  pub execute-IsTidy : (params : Params) → IsTidy (execute st params).1
  unfolding execute dispatch
  execute-IsTidy params = elim (Option-cases (text_of params.action)) [
    | inl e ↦ rw (execute, e) h
    | inr (action, e) ↦
        rw (execute, e)
          (if-IsTidy (str_eq action "add") _ _ (add_task-IsTidy params.task) (
            if-IsTidy (str_eq action "list") _ _ list_tasks-IsTidy (
              if-IsTidy (str_eq action "snapshot") _ _ snapshot_tasks-IsTidy (
                if-IsTidy (str_eq action "complete") _ _
                  (on_task_id-IsTidy params.task (complete_task st) complete_task-IsTidy)
                  (if-IsTidy (str_eq action "remove") _ _
                    (on_task_id-IsTidy params.task (remove_task st) remove_task-IsTidy)
                    (if-IsTidy (str_eq action "clear") _ _ clear_tasks-IsTidy h))))))
  ]

abbrev pub run : TodoStore → List Params → TodoStore
run st [] = st
run st (p ∷ ps) = run (execute st p).1 ps

pub run-IsTidy : (st : TodoStore) (ps : List Params) → IsTidy st → IsTidy (run st ps)
run-IsTidy st [] h = h
run-IsTidy st (p ∷ ps) h = run-IsTidy (execute st p).1 ps (execute-IsTidy st h p)

pub new_store-IsTidy : IsTidy new_store
new_store-IsTidy = record { started = omega arith; rising = tt; statuses = tt }

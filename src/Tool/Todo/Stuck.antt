-- ===== src/Tool/Todo/Stuck.antt =====
-- What follows the removal of a task from an empty list, by which the mutex stays held
-- (internal/tool/builtin/todo.go).
use kyoci_agent.Prelude.{
  ◌≡◌, refl, ap, ◌∙◌, ◌⊎◌, inl, inr, String, str_eq, Bool, true, false, Option, none, some, List,
  [], ◌∷◌, Option-cases, if◌then◌else◌, length,
}
use kyoci_agent.Prelude.Int.{ℤ}
use kyoci_agent.Prelude.Atoi.{atoi}
use kyoci_agent.Tool.Todo.{
  TodoStore, Params, TodoError, action_required, task_required, not_a_number, Reply, failed,
  panicked, blocked, text_of, store_task, add_task, list_tasks, snapshot_tasks, complete_task,
  remove_task, clear_tasks, reset_todo_store, on_task_id, dispatch, execute,
}
use kyoci_agent.Tool.Todo.Store.{run}

-- A call on a store whose mutex is held blocks, or is refused for its parameters as on any other store.
abbrev BlocksOrRefused : TodoStore → TodoStore → Reply × TodoStore → Reply × TodoStore → Type 0
BlocksOrRefused held other at_held at_other =
    (at_held ≡ (blocked, held))
    ⊎ ((e : TodoError) × (at_held ≡ (failed e, held)) × (at_other ≡ (failed e, other)))

module _ (held other : TodoStore) (h : held.locked ≡ true) where
  if_blocks :
      (b : Bool) (x y x' y' : Reply × TodoStore)
      → BlocksOrRefused held other x x'
      → BlocksOrRefused held other y y'
      → BlocksOrRefused held other (if b then x else y) (if b then x' else y')
  if_blocks true x y x' y' hx hy = hx
  if_blocks false x y x' y' hx hy = hy

  on_task_id_blocks :
      (task : Option String) (act act' : ℤ → Reply × TodoStore)
      → ((id : ℤ) → act id ≡ (blocked, held))
      → BlocksOrRefused held other (on_task_id held task act) (on_task_id other task act')
  unfolding on_task_id
  on_task_id_blocks task act act' blocks = elim (Option-cases (text_of task)) [
    | inl e ↦ inr (task_required, rw (on_task_id, e) refl, rw (on_task_id, e) refl)
    | inr (s, e) ↦ elim (Option-cases (atoi s)) [
      | inl d ↦ inr (not_a_number, rw (on_task_id, e, d) refl, rw (on_task_id, e, d) refl)
      | inr (id, d) ↦ inl (rw (on_task_id, e, d) (blocks id))
    ]
  ]

  add_task_blocks :
      (task : Option String) → BlocksOrRefused held other (add_task held task) (add_task other task)
  unfolding add_task store_task
  add_task_blocks task = elim (Option-cases (text_of task)) [
    | inl e ↦ inr (task_required, rw (add_task, e) refl, rw (add_task, e) refl)
    | inr (s, e) ↦ inl (rw (add_task, e) (rw (store_task, h) refl))
  ]

  dispatch_blocks :
      (action : String) (task : Option String)
      → BlocksOrRefused held other (dispatch held action task) (dispatch other action task)
  unfolding dispatch list_tasks snapshot_tasks complete_task remove_task clear_tasks
  dispatch_blocks action task = if_blocks (str_eq action "add") _ _ _ _ (add_task_blocks task) (
      if_blocks (str_eq action "list") _ _ _ _ (inl (rw (list_tasks, h) refl)) (
        if_blocks (str_eq action "snapshot") _ _ _ _ (inl (rw (snapshot_tasks, h) refl)) (
          if_blocks (str_eq action "complete") _ _ _ _
            (on_task_id_blocks task _ _ (λ id. rw (complete_task, h) refl))
            (if_blocks (str_eq action "remove") _ _ _ _
              (on_task_id_blocks task _ _ (λ id. rw (remove_task, h) refl))
              (if_blocks (str_eq action "clear") _ _ _ _ (inl (rw (clear_tasks, h) refl))
                (inr (_, refl, refl)))))))

  execute_blocks :
      (call : Params) → BlocksOrRefused held other (execute held call) (execute other call)
  unfolding execute
  execute_blocks call = elim (Option-cases (text_of call.action)) [
    | inl e ↦ inr (action_required, rw (execute, e) refl, rw (execute, e) refl)
    | inr (action, e) ↦ rw (execute, e) (dispatch_blocks action call.task)
  ]

run_held : (held : TodoStore) (later : List Params) → held.locked ≡ true → run held later ≡ held
run_held held [] h = refl
run_held held (call ∷ later) h = elim (execute_blocks held held h call) [
  | inl blocks ↦ ap (λ r. run r.1 later) blocks ∙ run_held held later h
  | inr (e, refused, _) ↦ ap (λ r. run r.1 later) refused ∙ run_held held later h
]

remove_call_panics :
    (st : TodoStore) (task : String) (id : ℤ)
    → st.locked ≡ false
    → st.items ≡ []
    → str_eq task "" ≡ false
    → atoi task ≡ some id
    → execute st (record { action = some "remove"; task = some task })
      ≡ (panicked, record st { locked = true })
unfolding execute dispatch text_of on_task_id remove_task
remove_call_panics st task id free empty named number =
    rw (on_task_id, text_of, named) (rw (number) (rw (remove_task, free, ap length empty) refl))

-- A call to remove a task by a number, on an empty list that nobody holds, panics and leaves the mutex
-- held for good: after any further calls, the store is as the panic left it, each call blocks, unless it
-- is refused for its parameters just as on any other list, and ResetTodoStore blocks too.
pub remove_task-empty :
    (st other : TodoStore) (task : String) (id : ℤ) (later : List Params) (call : Params)
    → st.locked ≡ false
    → st.items ≡ []
    → str_eq task "" ≡ false
    → atoi task ≡ some id
    → let (reply, held) = execute st (record { action = some "remove"; task = some task }) in
      (reply ≡ panicked)
      × (run held later ≡ record st { locked = true })
      × (((execute (run held later) call).0 ≡ blocked)
          ⊎ ((e : TodoError) × ((execute (run held later) call).0 ≡ failed e)
              × (execute other call ≡ (failed e, other))))
      × (reset_todo_store (run held later) ≡ none)
unfolding reset_todo_store
remove_task-empty st other task id later call free empty named number =
    let held : TodoStore = record st { locked = true } in
    rw (remove_call_panics st task id free empty named number, run_held held later refl)
      (
        refl,
        refl,
        elim (execute_blocks held other refl call) [
          | inl blocks ↦ inl (ap (λ r. r.0) blocks)
          | inr (e, refused, same) ↦ inr (e, ap (λ r. r.0) refused, same)
        ],
        refl,
      )

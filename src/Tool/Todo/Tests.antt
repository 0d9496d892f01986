-- ===== src/Tool/Todo/Tests.antt =====
-- Runs of the task list (internal/tool/builtin/todo.go), and instances of its theorems.
use kyoci_agent.Prelude.{◌≡◌, refl, ◌⊎◌, inl, inr, true, false, none, some, List, [], ◌∷◌, arith}
use kyoci_agent.Prelude.Int.{pos}
use kyoci_agent.Prelude.Atoi.{atoi}
use kyoci_agent.Tool.Todo.{
  TodoStore, new_store, Params, TodoError, failed, panicked, blocked, snapshot, text_of, store_task,
  add_task, snapshot_tasks, complete_first, complete_task, remove_task, reset_todo_store,
  on_task_id, dispatch, execute,
}
use kyoci_agent.Tool.Todo.Store.{IsRising, IsTidy, run}
use kyoci_agent.Tool.Todo.Counts.{snapshot_call, IsSnapshotOf, run-new_store-snapshot}
use kyoci_agent.Tool.Todo.Stuck.{remove_task-empty}

abbrev calls : List Params
calls =
    record { action = some "add"; task = some "write tests" }
    ∷ record { action = some "add"; task = some "run tests" }
    ∷ record { action = some "complete"; task = some "1" }
    ∷ record { action = some "remove"; task = some "x" }
    ∷ []

abbrev two_tasks : TodoStore
two_tasks = record {
  items =
      record { id = 1; content = "write tests"; status = "completed" }
      ∷ record { id = 2; content = "run tests"; status = "pending" }
      ∷ [];
  next_id = 3;
  locked = false;
}

calls_run : run new_store calls ≡ two_tasks
unfolding execute dispatch text_of add_task store_task on_task_id complete_task complete_first
    remove_task atoi
calls_run = refl

snapshot_of_two : (snapshot_tasks two_tasks).0 ≡ snapshot 2 1 1 two_tasks.items
unfolding snapshot_tasks
snapshot_of_two = refl

two_tasks-IsTidy : IsTidy two_tasks
two_tasks-IsTidy = record {
  started = omega arith;
  rising = (omega arith, omega arith, (omega arith, omega arith, tt));
  statuses = (inr refl, (inl refl, tt));
}

run-new_store-snapshot_example :
    let st = run new_store calls in
    IsRising 1 st.next_id st.items
    × (((st.locked ≡ true) × ((execute st snapshot_call).0 ≡ blocked))
        ⊎ IsSnapshotOf st (execute st snapshot_call).0)
run-new_store-snapshot_example = run-new_store-snapshot calls

abbrev list_call : Params
list_call = record { action = some "list"; task = none }

first_removed : atoi "1" ≡ some (pos 1)
unfolding atoi
first_removed = refl

remove_task-empty_example :
    let (reply, held) = execute new_store (record { action = some "remove"; task = some "1" }) in
    (reply ≡ panicked)
    × (run held calls ≡ record new_store { locked = true })
    × (((execute (run held calls) list_call).0 ≡ blocked)
        ⊎ ((e : TodoError) × ((execute (run held calls) list_call).0 ≡ failed e)
            × (execute two_tasks list_call ≡ (failed e, two_tasks))))
    × (reset_todo_store (run held calls) ≡ none)
remove_task-empty_example =
    remove_task-empty new_store two_tasks "1" (pos 1) calls list_call refl refl refl first_removed

-- ===== src/Tool/Todo.antt =====
-- The task list tool (internal/tool/builtin/todo.go): the package's store and the tool's actions, each
-- as one step on the store, with its mutex. The JSON that encoding/json writes is left as the value
-- that it writes.
pub mod Store
pub mod Counts
pub mod Stuck
pub mod Lookup
mod Tests
use kyoci_agent.Prelude.{
  ℕ, zero, suc, String, str_eq, Bool, true, false, Option, none, some, List, [], ◌∷◌, ◌++◌, any,
  ◌==◌, if◌then◌else◌, length, keep, count,
}
use kyoci_agent.Prelude.Int.{ℤ, pos, int_eq}
use kyoci_agent.Prelude.Atoi.{atoi}

pub record TodoItem : Type 0 where
  pub id : ℕ
  pub content : String
  pub status : String

-- `locked` is true when the mutex is held and nobody will give it back.
pub record TodoStore : Type 0 where
  pub items : List TodoItem
  pub next_id : ℕ
  pub locked : Bool

abbrev pub new_store : TodoStore
new_store = record { items = []; next_id = 1; locked = false }

-- The parameters; one that is missing or no string is `none`.
pub record Params : Type 0 where
  pub action : Option String
  pub task : Option String

pub data Message : Type 0 where
  task_added : String → Message
  no_tasks : Message
  found_tasks : ℕ → Message
  marked_completed : ℤ → Message
  task_removed : ℤ → Message
  cleared_tasks : ℕ → Message

pub data TodoError : Type 0 where
  action_required : TodoError
  invalid_action : String → TodoError
  task_required : TodoError
  not_a_number : TodoError
  not_found : ℤ → TodoError

pub data Reply : Type 0 where
  reported : Message → List TodoItem → Reply
  snapshot : (total pending completed : ℕ) → List TodoItem → Reply
  failed : TodoError → Reply
  panicked : Reply
  blocked : Reply

-- A string parameter that is present and not empty.
unfoldable pub text_of : Option String → Option String
text_of none = none
text_of (some s) = if str_eq s "" then none else some s

unfoldable pub store_task : TodoStore → String → Reply × TodoStore
store_task st task =
    if st.locked
    then (blocked, st)
    else (let items =
          st.items ++ record { id = st.next_id; content = task; status = "pending" } ∷ [] in
        (reported (task_added task) items, record st { items = items; next_id = suc st.next_id }))

unfoldable pub add_task : TodoStore → Option String → Reply × TodoStore
unfolding text_of store_task
add_task st task = elim (text_of task) [
  | none ↦ (failed task_required, st)
  | some s ↦ store_task st s
]

unfoldable pub list_tasks : TodoStore → Reply × TodoStore
list_tasks st = if st.locked then (blocked, st) else (
  reported (if length st.items == 0 then no_tasks else found_tasks (length st.items)) st.items,
  st,
)

abbrev pub has_status : String → TodoItem → Bool
has_status status item = str_eq item.status status

unfoldable pub snapshot_tasks : TodoStore → Reply × TodoStore
snapshot_tasks st = if st.locked then (blocked, st) else (
  snapshot (length st.items) (count (has_status "pending") st.items)
      (count (has_status "completed") st.items) st.items,
  st,
)

abbrev pub has_id : ℤ → TodoItem → Bool
has_id id item = int_eq (pos item.id) id

-- The first item with the id is completed.
unfoldable pub complete_first : ℤ → List TodoItem → List TodoItem
complete_first id [] = []
complete_first id (item ∷ items) =
    let rest = complete_first id items in
    if has_id id item then record item { status = "completed" } ∷ items else item ∷ rest

unfoldable pub complete_task : TodoStore → ℤ → Reply × TodoStore
unfolding complete_first
complete_task st id =
    if st.locked
    then (blocked, st)
    else if any (has_id id) st.items
    then (
      reported (marked_completed id) (complete_first id st.items),
      record st { items = complete_first id st.items },
    )
    else (failed (not_found id), st)

abbrev pub lacks_id : ℤ → TodoItem → Bool
lacks_id id item = if has_id id item then false else true

-- `make([]todoItem, 0, len(todoStore.items)-1)` panics on an empty list, with the mutex held.
unfoldable pub remove_task : TodoStore → ℤ → Reply × TodoStore
remove_task st id =
    if st.locked
    then (blocked, st)
    else if length st.items == 0
    then (panicked, record st { locked = true })
    else if any (has_id id) st.items
    then (
      reported (task_removed id) (keep (lacks_id id) st.items),
      record st { items = keep (lacks_id id) st.items },
    )
    else (failed (not_found id), st)

unfoldable pub clear_tasks : TodoStore → Reply × TodoStore
clear_tasks st =
    if st.locked
    then (blocked, st)
    else (reported (cleared_tasks (length st.items)) [], record st { items = []; next_id = 1 })

-- ResetTodoStore; none where it blocks.
unfoldable pub reset_todo_store : TodoStore → Option TodoStore
reset_todo_store st = if st.locked then none else some (record st { items = []; next_id = 1 })

-- An action on a task's id.
unfoldable pub on_task_id : TodoStore → Option String → (ℤ → Reply × TodoStore) → Reply × TodoStore
unfolding text_of
on_task_id st task act = elim (text_of task) [
  | none ↦ (failed task_required, st)
  | some s ↦ elim (atoi s) [ none ↦ (failed not_a_number, st) | some id ↦ act id ]
]

unfoldable pub dispatch : TodoStore → String → Option String → Reply × TodoStore
unfolding add_task list_tasks snapshot_tasks complete_task remove_task clear_tasks on_task_id
    text_of
dispatch st action task =
    if str_eq action "add"
    then add_task st task
    else if str_eq action "list"
    then list_tasks st
    else if str_eq action "snapshot"
    then snapshot_tasks st
    else if str_eq action "complete"
    then on_task_id st task (complete_task st)
    else if str_eq action "remove"
    then on_task_id st task (remove_task st)
    else if str_eq action "clear"
    then clear_tasks st
    else (failed (invalid_action action), st)

unfoldable pub execute : TodoStore → Params → Reply × TodoStore
unfolding dispatch text_of
execute st params = elim (text_of params.action) [
  | none ↦ (failed action_required, st)
  | some action ↦ dispatch st action params.task
]

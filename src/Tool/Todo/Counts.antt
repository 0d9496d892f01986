-- ===== src/Tool/Todo/Counts.antt =====
-- What a call for a snapshot gives (internal/tool/builtin/todo.go).
use kyoci_agent.Prelude.{
  ℕ, ◌+◌, ◌≡◌, refl, ◌⊎◌, inl, inr, Bool, true, false, none, some, List, [], ◌∷◌, arith, Bool-cases,
  if◌then◌else◌, length, keep, count, All,
}
use kyoci_agent.Tool.Todo.{
  TodoItem, TodoStore, new_store, Params, Reply, snapshot, blocked, has_status, text_of,
  snapshot_tasks, dispatch, execute,
}
use kyoci_agent.Tool.Todo.Store.{IsRising, HasStatus, run, run-IsTidy, new_store-IsTidy}

pending_or_completed :
    (i : TodoItem)
    → HasStatus i
    → has_status "completed" i ≡ (if has_status "pending" i then false else true)
pending_or_completed i (inl e) = rw e refl
pending_or_completed i (inr e) = rw e refl

count-HasStatus :
    (is : List TodoItem)
    → All HasStatus is
    → count (has_status "pending") is + count (has_status "completed") is ≡ length is
count-HasStatus [] h = omega arith
count-HasStatus (i ∷ is) h = ground (arith, pending_or_completed i h.0, count-HasStatus is h.1)

abbrev pub snapshot_call : Params
snapshot_call = record { action = some "snapshot"; task = none }

-- What a snapshot of a store says: all its items, with as many pending and completed ones as there are,
-- and nothing else.
abbrev pub IsSnapshotOf : TodoStore → Reply → Type 0
IsSnapshotOf st reply =
    (total pending completed : ℕ) × (reply ≡ snapshot total pending completed st.items)
    × (total ≡ length st.items)
    × (pending ≡ length (keep (has_status "pending") st.items))
    × (pending + completed ≡ total)

length-keep-count : (p : TodoItem → Bool) (is : List TodoItem) → count p is ≡ length (keep p is)
length-keep-count p [] = refl
length-keep-count p (i ∷ is) = ground (arith, length-keep-count p is)

snapshot_reply :
    (st : TodoStore)
    → All HasStatus st.items
    → ((st.locked ≡ true) × ((execute st snapshot_call).0 ≡ blocked))
      ⊎ IsSnapshotOf st (execute st snapshot_call).0
unfolding execute dispatch text_of snapshot_tasks
snapshot_reply st known = elim (Bool-cases st.locked) [
  | inl held ↦ inl (held, rw (snapshot_tasks, held) refl)
  | inr free ↦ inr (
    _,
    _,
    _,
    rw (snapshot_tasks, free) refl,
    refl,
    length-keep-count (has_status "pending") st.items,
    count-HasStatus st.items known,
  )
]

-- After any calls on a fresh store, a call for a snapshot blocks, where a mutex is held for ever, or
-- gives all items, how many these are, how many of them are pending, and as the number of completed ones
-- all the others. The ids of the items rise and are below the next one.
pub run-new_store-snapshot :
    (ps : List Params)
    → let st = run new_store ps in
      IsRising 1 st.next_id st.items
      × (((st.locked ≡ true) × ((execute st snapshot_call).0 ≡ blocked))
          ⊎ IsSnapshotOf st (execute st snapshot_call).0)
run-new_store-snapshot ps =
    let h = run-IsTidy new_store ps new_store-IsTidy in
    (h.rising, snapshot_reply (run new_store ps) h.statuses)

-- ===== src/Hitl/Hub.antt =====
-- The broker between agents and operators (internal/hitl/hub.go). A hint channel is a number, made anew
-- for each request; its buffer of one hint stands in `hint_buffers`. What runs under the hub's lock, and
-- what one channel does, is one function; Hub/Steps puts them in any order.
pub mod Steps
pub mod Sound
pub mod Subscribers
mod Tests
use kyoci_agent.Prelude.{
  eq_ℕ, eq_String, ℕ, zero, suc, ◌+◌, String, str_eq, Bool, true, false, Option, none, some, List,
  [], ◌∷◌, ◌++◌, ltb, if◌then◌else◌, length,
}
use kyoci_agent.Prelude.Map.{Map, lookup, insert, delete, has}
use kyoci_agent.Orchestrator.RetryData.{HelpRequest}

-- The queue of a subscriber holds at most 16 requests.
abbrev pub queue_capacity : ℕ
queue_capacity = 16

pub record Hub : Type 0 where
  pub subscribers : Map ℕ (List HelpRequest)
  pub waiters : Map String ℕ
  pub next_sub_id : ℕ
  pub hint_buffers : Map ℕ String
  pub next_channel : ℕ

abbrev pub new_hub : Hub
new_hub = record {
  subscribers = [];
  waiters = [];
  next_sub_id = 0;
  hint_buffers = [];
  next_channel = 0;
}

-- The waiter is registered before anything is sent; gives the hint channel.
unfoldable pub register_waiter : Hub → String → ℕ × Hub
register_waiter h task_id = (
  h.next_channel,
  record h { waiters = insert task_id h.next_channel h.waiters; next_channel = suc h.next_channel },
)

-- The deferred call.
unfoldable pub remove_waiter : Hub → String → Hub
remove_waiter h task_id = record h { waiters = delete task_id h.waiters }

-- A full queue drops the request.
unfoldable pub enqueue : HelpRequest → List HelpRequest → List HelpRequest
enqueue req queue = if ltb (length queue) queue_capacity then queue ++ req ∷ [] else queue

unfoldable pub broadcast_to : HelpRequest → Map ℕ (List HelpRequest) → Map ℕ (List HelpRequest)
unfolding enqueue
broadcast_to req [] = []
broadcast_to req ((id, queue) ∷ subs) = (id, enqueue req queue) ∷ broadcast_to req subs

-- What RequestHelp comes to before it waits: nobody listens, or a channel to wait on. `minted` is the
-- id that a request without one gets.
pub data Begun : Type 0 where
  nobody : Begun
  waiting : (task_id : String) (channel : ℕ) → Begun

unfoldable pub task_id_of : String → HelpRequest → String
task_id_of minted req = if str_eq req.task_id "" then minted else req.task_id

unfoldable pub request_help : Hub → String → HelpRequest → Begun × Hub
unfolding register_waiter remove_waiter broadcast_to task_id_of
request_help h minted req0 =
    let req = record req0 { task_id = task_id_of minted req0 } in
    let (channel, h') = register_waiter h req.task_id in
    if ltb 0 (length h'.subscribers)
    then (waiting req.task_id channel, record h' { subscribers = broadcast_to req h'.subscribers })
    else (nobody, remove_waiter h' req.task_id)

-- DeliverHint first looks the waiter up under the lock,
unfoldable pub find_waiter : Hub → String → Option ℕ
find_waiter h task_id = lookup task_id h.waiters

-- and then sends, which fails on a full buffer.
unfoldable pub send_hint : Hub → ℕ → String → Bool × Hub
send_hint h channel hint =
    if has channel h.hint_buffers
    then (false, h)
    else (true, record h { hint_buffers = insert channel hint h.hint_buffers })

unfoldable pub deliver_hint : Hub → String → String → Bool × Hub
unfolding find_waiter send_hint
deliver_hint h task_id hint = elim (find_waiter h task_id) [
  | none ↦ (false, h)
  | some channel ↦ send_hint h channel hint
]

-- The agent takes the hint from its channel, and removes the waiter.
unfoldable pub receive_hint : Hub → ℕ → Option String × Hub
receive_hint h channel = elim (lookup channel h.hint_buffers) [
  | none ↦ (none, h)
  | some hint ↦ (some hint, record h { hint_buffers = delete channel h.hint_buffers })
]

unfoldable pub subscribe : Hub → ℕ × Hub
subscribe h =
    let id = suc h.next_sub_id in
    (id, record h { next_sub_id = id; subscribers = insert id [] h.subscribers })

unfoldable pub unsubscribe : Hub → ℕ → Hub
unsubscribe h id = record h { subscribers = delete id h.subscribers }

unfoldable pub has_subscriber : Hub → Bool
has_subscriber h = ltb 0 (length h.subscribers)

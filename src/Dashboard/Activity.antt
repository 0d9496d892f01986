-- ===== src/Dashboard/Activity.antt =====
-- The broker of activity events (internal/dashboard/activity.go): a queue of at most 64 events for each
-- subscriber. Events are published one after the other; the clock, in milliseconds, is an argument.
pub mod Window
mod Tests
use kyoci_agent.Prelude.{
  eq_ℕ, ℕ, zero, suc, ◌+◌, String, Bool, true, false, Option, none, some, List, [], ◌∷◌, ◌++◌, ltb,
  if◌then◌else◌, length, drop,
}
use kyoci_agent.Prelude.Int.{ℤ, pos, int_eq}
use kyoci_agent.Prelude.Map.{Map, lookup, insert, delete}

-- The fields that the broker reads; `more` stands for the others.
pub record ActivityEvent : Type 0 where
  pub event_type : String
  pub task_id : String
  pub timestamp : ℤ
  pub more : ℕ

pub record ActivityBroker : Type 0 where
  pub subscribers : Map ℕ (List ActivityEvent)
  pub next_id : ℕ

abbrev pub new_activity_broker : ActivityBroker
new_activity_broker = record { subscribers = []; next_id = 0 }

abbrev pub channel_capacity : ℕ
channel_capacity = 64

unfoldable pub subscribe : ActivityBroker → ℕ × ActivityBroker
subscribe b = (
  b.next_id,
  record b { next_id = suc b.next_id; subscribers = insert b.next_id [] b.subscribers },
)

unfoldable pub cancel : ActivityBroker → ℕ → ActivityBroker
cancel b id = record b { subscribers = delete id b.subscribers }

-- A send that does not wait.
unfoldable pub try_send : ActivityEvent → List ActivityEvent → Bool × List ActivityEvent
try_send evt queue =
    if ltb (length queue) channel_capacity then (true, queue ++ evt ∷ []) else (false, queue)

-- A full queue loses its oldest event, and the send is tried again.
unfoldable pub push : ActivityEvent → List ActivityEvent → List ActivityEvent
unfolding try_send
push evt queue =
    let (sent, queue') = try_send evt queue in
    let (_, queue'') = try_send evt (drop 1 queue) in if sent then queue' else queue''

unfoldable pub push_all : ActivityEvent → Map ℕ (List ActivityEvent) → Map ℕ (List ActivityEvent)
unfolding push
push_all evt [] = []
push_all evt ((id, queue) ∷ subs) = (id, push evt queue) ∷ push_all evt subs

unfoldable pub stamp : ℕ → ActivityEvent → ActivityEvent
stamp now evt = record evt {
  timestamp = if int_eq evt.timestamp (pos 0) then pos now else evt.timestamp;
}

unfoldable pub publish : ActivityBroker → ℕ → ActivityEvent → ActivityBroker
unfolding push_all stamp
publish b now evt = record b { subscribers = push_all (stamp now evt) b.subscribers }

unfoldable pub subscriber_count : ActivityBroker → ℕ
subscriber_count b = length b.subscribers

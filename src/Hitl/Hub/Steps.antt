-- ===== src/Hitl/Hub/Steps.antt =====
-- Agents and operators at the hub (internal/hitl/hub.go) in any order: who gets which hint. DeliverHint
-- is two steps, since other calls may come between its look-up and its send.
use mathlib.Core.List.{Memᴰ}
use kyoci_agent.Prelude.{eq_ℕ, eq_String, ℕ, String, ◌≡◌, some, List, [], ◌∷◌}
use kyoci_agent.Prelude.Map.{Map, lookup, insert}
use kyoci_agent.Hitl.Hub.{
  Hub, new_hub, register_waiter, remove_waiter, send_hint, receive_hint, find_waiter,
}

-- The hub, and what the source does not keep: for which task a channel was made, what operators have
-- submitted, which look-ups have not sent yet, and what agents have received.
pub record State : Type 0 where
  pub hub : Hub
  pub made_for : Map ℕ String
  pub submitted : List (String × String)
  pub in_flight : List (ℕ × String)
  pub received : List (String × String)

abbrev pub start : State
start = record { hub = new_hub; made_for = []; submitted = []; in_flight = []; received = [] }

pub data Step : State → State → Type 0 where
  -- RequestHelp registers its waiter.
  asks :
      (s : State) (task : String)
      → Step s (record s {
        hub = (register_waiter s.hub task).1;
        made_for = insert (register_waiter s.hub task).0 task s.made_for;
      })
  -- DeliverHint finds the channel of the task.
  looks_up :
      (s : State) (task hint : String) (channel : ℕ)
      → find_waiter s.hub task ≡ some channel
      → Step s (record s {
        submitted = (task, hint) ∷ s.submitted;
        in_flight = (channel, hint) ∷ s.in_flight;
      })
  -- DeliverHint sends, now or later.
  sends :
      (s : State) (channel : ℕ) (hint : String)
      → Memᴰ (channel, hint) s.in_flight
      → Step s (record s { hub = (send_hint s.hub channel hint).1 })
  -- The agent of a task takes a hint from its channel.
  receives :
      (s : State) (task hint : String) (channel : ℕ)
      → lookup channel s.made_for ≡ some task
      → (receive_hint s.hub channel).0 ≡ some hint
      → Step s
          (record s { hub = (receive_hint s.hub channel).1; received = (task, hint) ∷ s.received })
  -- RequestHelp returns, with a hint or after its timeout.
  leaves : (s : State) (task : String) → Step s (record s { hub = remove_waiter s.hub task })

pub data IsReachable : State → Type 0 where
  begin : IsReachable start
  next : (s t : State) → IsReachable s → Step s t → IsReachable t

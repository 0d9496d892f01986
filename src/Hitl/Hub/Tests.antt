-- ===== src/Hitl/Hub/Tests.antt =====
-- Runs of the hub (internal/hitl/hub.go), and instances of its theorems.
use mathlib.Core.List.{Memᴰ}
use kyoci_agent.Prelude.{eq_ℕ, eq_String, String, ◌≡◌, refl, true, false, some, [], ◌∷◌, All}
use kyoci_agent.Prelude.Map.{lookup, insert, delete}
use kyoci_agent.Orchestrator.RetryData.{HelpRequest}
use kyoci_agent.Hitl.Hub.{
  Hub, new_hub, waiting, task_id_of, request_help, find_waiter, register_waiter, send_hint,
  deliver_hint, receive_hint, subscribe, unsubscribe, has_subscriber,
}
use kyoci_agent.Hitl.Hub.Steps.{
  State, start, asks, looks_up, sends, receives, IsReachable, begin, next,
}
use kyoci_agent.Hitl.Hub.Sound.{received_submitted}
use kyoci_agent.Hitl.Hub.Subscribers.{request_help-deliver_hint}

abbrev stuck_on : String → HelpRequest
stuck_on id = record {
  task_id = id;
  role = "dev";
  attempt = 1;
  question = "why?";
  last_error = "";
  attempted_fixes = [];
}

abbrev watched : Hub
watched = (subscribe new_hub).1

watched_then_not : has_subscriber (unsubscribe watched 1) ≡ false
unfolding subscribe unsubscribe has_subscriber insert delete
watched_then_not = refl

request_help-deliver_hint_example :
    ((request_help watched "task-1" (stuck_on "t")).0
      ≡ waiting (task_id_of "task-1" (stuck_on "t")) watched.next_channel)
    × ((deliver_hint
          (request_help watched "task-1" (stuck_on "t")).1
          (task_id_of "task-1" (stuck_on "t"))
          "off by one").0
        ≡ true)
    × ((receive_hint
          (deliver_hint
            (request_help watched "task-1" (stuck_on "t")).1
            (task_id_of "task-1" (stuck_on "t"))
            "off by one").1
          watched.next_channel).0
        ≡ some "off by one")
    × ((deliver_hint
          (deliver_hint
            (request_help watched "task-1" (stuck_on "t")).1
            (task_id_of "task-1" (stuck_on "t"))
            "off by one").1
          (task_id_of "task-1" (stuck_on "t"))
          "again").0
        ≡ false)
unfolding has_subscriber subscribe insert lookup
request_help-deliver_hint_example =
    request_help-deliver_hint watched "task-1" (stuck_on "t") "off by one" "again" refl refl

-- A hint for "t" is looked up, sent and received.
abbrev asked : State
asked = record {
  hub = (register_waiter new_hub "t").1;
  made_for = insert (register_waiter new_hub "t").0 "t" [];
  submitted = [];
  in_flight = [];
  received = [];
}

abbrev looked_up : State
looked_up = record asked { submitted = ("t", "hint") ∷ []; in_flight = (0, "hint") ∷ [] }

abbrev sent : State
sent = record looked_up { hub = (send_hint looked_up.hub 0 "hint").1 }

abbrev received_hint : State
received_hint = record sent { hub = (receive_hint sent.hub 0).1; received = ("t", "hint") ∷ [] }

received_hint-IsReachable : IsReachable received_hint
unfolding register_waiter find_waiter send_hint receive_hint lookup insert
received_hint-IsReachable =
    next sent received_hint
      (next looked_up sent
        (next asked looked_up (next start asked begin (asks start "t"))
          (looks_up asked "t" "hint" 0 refl))
        (sends looked_up 0 "hint" (Memᴰ.head refl)))
      (receives sent "t" "hint" 0 refl refl)

received_submitted_example : All (λ p. Memᴰ p received_hint.submitted) received_hint.received
received_submitted_example = received_submitted received_hint received_hint-IsReachable

-- ===== src/Dashboard/Activity/Tests.antt =====
-- Runs of the activity broker (internal/dashboard/activity.go), and an instance of its theorem.
use kyoci_agent.Prelude.{eq_ℕ, ◌≡◌, refl, some, [], ◌∷◌, last_n}
use kyoci_agent.Prelude.Int.{pos}
use kyoci_agent.Prelude.Map.{lookup, insert, delete}
use kyoci_agent.Dashboard.Activity.{
  ActivityEvent, new_activity_broker, channel_capacity, subscribe, cancel, stamp, subscriber_count,
}
use kyoci_agent.Dashboard.Activity.Window.{publish_all, stamped, subscribe-publish_all}

abbrev started : ActivityEvent
started = record { event_type = "task_start"; task_id = "root"; timestamp = pos 0; more = 0 }

abbrev ended : ActivityEvent
ended = record { event_type = "task_end"; task_id = "root"; timestamp = pos 7; more = 0 }

events_stamped :
    stamped ((3, started) ∷ (9, ended) ∷ []) ≡ record started { timestamp = pos 3 } ∷ ended ∷ []
unfolding stamp
events_stamped = refl

cancelled : subscriber_count (cancel (subscribe new_activity_broker).1 0) ≡ 0
unfolding subscriber_count cancel subscribe insert delete
cancelled = refl

subscribe-publish_all_example :
    lookup
      (subscribe new_activity_broker).0
      (publish_all (subscribe new_activity_broker).1 ((3, started) ∷ (9, ended) ∷ [])).subscribers
    ≡ some (last_n channel_capacity (stamped ((3, started) ∷ (9, ended) ∷ [])))
subscribe-publish_all_example =
    subscribe-publish_all new_activity_broker ((3, started) ∷ (9, ended) ∷ [])

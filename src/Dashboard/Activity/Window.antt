-- ===== src/Dashboard/Activity/Window.antt =====
-- What a subscriber finds in its queue (internal/dashboard/activity.go).
use mathlib.Core.List.{append-nil, append_assoc}
use kyoci_agent.Prelude.{
  eq_ℕ, ℕ, ◌-◌, ◌≡◌, refl, ap, ◌∙◌, inl, inr, true, some, List, [], ◌∷◌, ◌++◌, arith, Bool-cases,
  ltb, ◌==◌, length, drop, last_n, last_n-snoc, length-drop, length-append, drop-append, ◌≤◌,
}
use kyoci_agent.Prelude.Map.{Map, lookup, lookup-insert_self}
use kyoci_agent.Dashboard.Activity.{
  ActivityEvent, ActivityBroker, channel_capacity, subscribe, try_send, push, push_all, stamp,
  publish,
}

push_lem :
    (evt : ActivityEvent) (queue : List ActivityEvent)
    → length queue ≤ channel_capacity
    → push evt queue ≡ last_n channel_capacity (queue ++ evt ∷ [])
unfolding push try_send
push_lem evt queue l = elim (Bool-cases (ltb (length queue) 64)) [
  | inl b ↦
      (let all : length (queue ++ evt ∷ []) - 64 ≡ 0 =
          ground (arith, b, length-append queue (evt ∷ [])) in
        rw (b, all) refl)
  | inr b ↦
      (let one : length (queue ++ evt ∷ []) - 64 ≡ 1 =
          ground (arith, b, length-append queue (evt ∷ [])) in
        let room : ltb (length (drop 1 queue)) 64 ≡ true =
          ground (arith, l, b, length-drop 1 queue) in
        rw (b, room, one) (drop-append 1 queue (evt ∷ []) (ground (arith, b))))
]

-- A queue that holds the last 64 events holds the last 64 after a push.
push-last_n :
    (evt : ActivityEvent) (evts : List ActivityEvent)
    → push evt (last_n channel_capacity evts) ≡ last_n channel_capacity (evts ++ evt ∷ [])
push-last_n evt evts =
    push_lem evt (last_n 64 evts) (omega (arith, length-drop (length evts - 64) evts))
    ∙ last_n-snoc 63 evts evt

lookup-push_all :
    (evt : ActivityEvent) (id : ℕ) (queue : List ActivityEvent) (subs : Map ℕ (List ActivityEvent))
    → lookup id subs ≡ some queue
    → lookup id (push_all evt subs) ≡ some (push evt queue)
unfolding push_all lookup
lookup-push_all evt id queue [] e = cc
lookup-push_all evt id queue ((j, q) ∷ subs) e = elim (Bool-cases (j == id)) [
  | inl b ↦ (let same : some q ≡ some queue = rw b at e in rw b (some_push q same))
  | inr b ↦ rw b (lookup-push_all evt id queue subs (rw b at e))
]
  where
    some_push :
        (q : List ActivityEvent) → some q ≡ some queue → some (push evt q) ≡ some (push evt queue)
    some_push q h = cc

-- Publishing, one event after the other.
abbrev pub publish_all : ActivityBroker → List (ℕ × ActivityEvent) → ActivityBroker
publish_all b [] = b
publish_all b ((now, evt) ∷ evts) = publish_all (publish b now evt) evts

abbrev pub stamped : List (ℕ × ActivityEvent) → List ActivityEvent
stamped [] = []
stamped ((now, evt) ∷ evts) = stamp now evt ∷ stamped evts

publish_all_window :
    (id : ℕ) (b : ActivityBroker) (so_far : List ActivityEvent) (evts : List (ℕ × ActivityEvent))
    → lookup id b.subscribers ≡ some (last_n channel_capacity so_far)
    → lookup id (publish_all b evts).subscribers
      ≡ some (last_n channel_capacity (so_far ++ stamped evts))
unfolding publish
publish_all_window id b so_far [] h = rw (append-nil so_far) h
publish_all_window id b so_far ((now, evt) ∷ evts) h =
    let pushed =
      lookup-push_all (stamp now evt) id (last_n channel_capacity so_far) b.subscribers h in
    rw (← append_assoc so_far (stamp now evt ∷ []) (stamped evts)) (
      publish_all_window id (publish b now evt) (so_far ++ stamp now evt ∷ []) evts
        (pushed ∙ ap some (push-last_n (stamp now evt) so_far)))

-- A subscriber that has read nothing yet finds exactly the last 64 of the events that were published
-- since it subscribed, in their order, each with the time of its publication if it had none.
pub subscribe-publish_all :
    (b : ActivityBroker) (evts : List (ℕ × ActivityEvent))
    → lookup (subscribe b).0 (publish_all (subscribe b).1 evts).subscribers
      ≡ some (last_n channel_capacity (stamped evts))
unfolding subscribe
subscribe-publish_all b evts =
    publish_all_window b.next_id (subscribe b).1 [] evts
      (lookup-insert_self b.next_id [] b.subscribers)

-- ===== src/Hitl/Hub/Subscribers.antt =====
-- Requests for help and their hints, one after the other (internal/hitl/hub.go).
use kyoci_agent.Prelude.{
  eq_ℕ, eq_String, ℕ, String, str_eq, ◌≡◌, refl, ap, ◌∙◌, true, false, none, some, arith,
  if◌then◌else◌,
}
use kyoci_agent.Prelude.Map.{lookup, insert, has, lookup-insert, lookup-insert_self, lookup-delete}
use kyoci_agent.Orchestrator.RetryData.{HelpRequest}
use kyoci_agent.Hitl.Hub.{
  Hub, nobody, waiting, register_waiter, remove_waiter, task_id_of, request_help, find_waiter,
  send_hint, deliver_hint, receive_hint, has_subscriber,
}

module _ (h : Hub) (task : String) (c : ℕ) (hint : String)
    (w : lookup task h.waiters ≡ some c) where
  delivered :
      lookup c h.hint_buffers ≡ none
      → deliver_hint h task hint ≡ (true, record h { hint_buffers = insert c hint h.hint_buffers })
  unfolding deliver_hint find_waiter send_hint
  delivered b = rw (deliver_hint, find_waiter, w, send_hint, has, b) refl

  refused :
      (first : String)
      → lookup c h.hint_buffers ≡ some first
      → deliver_hint h task hint ≡ (false, h)
  unfolding deliver_hint find_waiter send_hint
  refused first b = rw (deliver_hint, find_waiter, w, send_hint, has, b) refl

taken :
    (h : Hub) (c : ℕ) (hint : String)
    → lookup c h.hint_buffers ≡ some hint
    → (receive_hint h c).0 ≡ some hint
unfolding receive_hint
taken h c hint b = rw (receive_hint, b) refl

module _ (h : Hub) (minted : String) (req : HelpRequest) where
  -- Without a subscriber RequestHelp gives up at once, and no waiter is left for its task; the waiters of
  -- other tasks stay.
  pub request_help-nobody :
      (t : String)
      → has_subscriber h ≡ false
      → ((request_help h minted req).0 ≡ nobody)
        × (find_waiter (request_help h minted req).1 t
            ≡ (if str_eq (task_id_of minted req) t then none else find_waiter h t))
  unfolding has_subscriber request_help find_waiter register_waiter remove_waiter
  request_help-nobody t e = rw e (
    refl,
    lookup-delete (task_id_of minted req) t
          (insert (task_id_of minted req) h.next_channel h.waiters)
        ∙ rw (lookup-insert (task_id_of minted req) t h.next_channel h.waiters) (ground arith),
  )

  waits :
      has_subscriber h ≡ true
      → (request_help h minted req).0 ≡ waiting (task_id_of minted req) h.next_channel
  unfolding has_subscriber request_help register_waiter
  waits e = rw e refl

  registered :
      has_subscriber h ≡ true
      → lookup (task_id_of minted req) (request_help h minted req).1.waiters ≡ some h.next_channel
  unfolding has_subscriber request_help register_waiter
  registered e = rw e (lookup-insert_self (task_id_of minted req) h.next_channel h.waiters)

  empty_yet :
      has_subscriber h ≡ true
      → lookup h.next_channel h.hint_buffers ≡ none
      → lookup h.next_channel (request_help h minted req).1.hint_buffers ≡ none
  unfolding has_subscriber request_help register_waiter
  empty_yet e free = rw e free

  -- With a subscriber, and a new channel that holds nothing yet, RequestHelp waits on its channel; the
  -- first hint for its task is delivered and arrives there, and a second one before that is refused.
  pub request_help-deliver_hint :
      (hint second : String)
      → has_subscriber h ≡ true
      → lookup h.next_channel h.hint_buffers ≡ none
      → ((request_help h minted req).0 ≡ waiting (task_id_of minted req) h.next_channel)
        × ((deliver_hint (request_help h minted req).1 (task_id_of minted req) hint).0 ≡ true)
        × ((receive_hint
              (deliver_hint (request_help h minted req).1 (task_id_of minted req) hint).1
              h.next_channel).0
            ≡ some hint)
        × ((deliver_hint
              (deliver_hint (request_help h minted req).1 (task_id_of minted req) hint).1
              (task_id_of minted req)
              second).0
            ≡ false)
  request_help-deliver_hint hint second e free =
      let task = task_id_of minted req in
      let h' = (request_help h minted req).1 in
      let d = delivered h' task h.next_channel hint (registered e) (empty_yet e free) in
      let full = lookup-insert_self h.next_channel hint h'.hint_buffers in
      (
        waits e,
        ap (λ r. r.0) d,
        ap (λ r. (receive_hint r.1 h.next_channel).0) d ∙ taken _ h.next_channel hint full,
        ap (λ r. (deliver_hint r.1 task second).0) d
            ∙ ap (λ r. r.0)
                (refused (record h' { hint_buffers = insert h.next_channel hint h'.hint_buffers })
                  task h.next_channel second (registered e) hint full),
      )

-- ===== src/Gateway/ChatStore/History.antt =====
-- The conversation history of a chat (internal/gateway/store.go): a window on all its exchanges.
use kyoci_agent.Prelude.{
  ◌-◌, String, ◌≡◌, refl, ◌∙◌, inl, inr, List, [], ◌∷◌, ◌++◌, arith, Bool-cases, ltb, if◌then◌else◌,
  length, last_n, last_n-snoc,
}
use kyoci_agent.Prelude.Int.{ℤ, eq_ℤ, int_eq, int_eq_iff}
use kyoci_agent.Prelude.Map.{lookup}
use kyoci_agent.Gateway.ChatStore.{
  ChatStore, ConvTurn, new_chat_store, get_or, max_history_turns, history_of, shorten, prune,
  add_history, clear_history,
}
use kyoci_agent.Gateway.ChatStore.Access.{get_or-insert, get_or-delete}

prune_lem : (ts : List ConvTurn) → prune ts ≡ last_n max_history_turns ts
unfolding prune
prune_lem ts = elim (Bool-cases (ltb 4 (length ts))) [
  | inl b ↦ rw b refl
  | inr b ↦ (let short : length ts - 4 ≡ 0 = ground (arith, b) in rw (b, short) refl)
]

pub data HistoryOp : Type 0 where
  exchange : (chat_id : ℤ) (user assistant : String) → HistoryOp
  forget : (chat_id : ℤ) → HistoryOp

abbrev pub run : ChatStore → List HistoryOp → ChatStore
run s [] = s
run s (exchange chat_id user assistant ∷ os) = run (add_history s chat_id user assistant) os
run s (forget chat_id ∷ os) = run (clear_history s chat_id) os

-- All exchanges of a chat since it was cleared last, behind those so far.
abbrev pub exchanges : ℤ → List ConvTurn → List HistoryOp → List ConvTurn
exchanges chat so_far [] = so_far
exchanges chat so_far (exchange chat_id user assistant ∷ os) =
    let longer =
      exchanges chat (so_far ++ record { user = user; assistant = shorten assistant } ∷ []) os in
    let same = exchanges chat so_far os in if int_eq chat_id chat then longer else same
exchanges chat so_far (forget chat_id ∷ os) =
    let cleared = exchanges chat [] os in
    let same = exchanges chat so_far os in if int_eq chat_id chat then cleared else same

history_of-add_history :
    (s : ChatStore) (chat_id chat : ℤ) (user assistant : String)
    → history_of (add_history s chat_id user assistant) chat ≡ (
        if int_eq chat_id chat
        then prune
            (history_of s chat_id ++ record { user = user; assistant = shorten assistant } ∷ [])
        else history_of s chat)
unfolding history_of add_history
history_of-add_history s chat_id chat user assistant =
    get_or-insert [] chat_id chat _ s.chat_history

history_of-clear_history :
    (s : ChatStore) (chat_id chat : ℤ)
    → history_of (clear_history s chat_id) chat
      ≡ (if int_eq chat_id chat then [] else history_of s chat)
unfolding history_of clear_history
history_of-clear_history s chat_id chat = get_or-delete [] chat_id chat s.chat_history

run_window :
    (chat : ℤ) (s : ChatStore) (so_far : List ConvTurn) (os : List HistoryOp)
    → history_of s chat ≡ last_n 4 so_far
    → history_of (run s os) chat ≡ last_n 4 (exchanges chat so_far os)
run_window chat s so_far [] h = h
run_window chat s so_far (exchange chat_id user assistant ∷ os) h =
    elim (Bool-cases (int_eq chat_id chat)) [
      | inl e ↦ rw e (
          run_window chat (add_history s chat_id user assistant)
            (so_far ++ record { user = user; assistant = shorten assistant } ∷ []) os
            (history_of-add_history s chat_id chat user assistant
              ∙ rw (e, (int_eq_iff chat_id chat).0 e, h) (prune_lem _ ∙ last_n-snoc 3 so_far _)))
      | inr e ↦ rw e (
          run_window chat (add_history s chat_id user assistant) so_far os
            (history_of-add_history s chat_id chat user assistant ∙ rw e h))
    ]
run_window chat s so_far (forget chat_id ∷ os) h = elim (Bool-cases (int_eq chat_id chat)) [
  | inl e ↦ rw e (
      run_window chat (clear_history s chat_id) [] os
        (history_of-clear_history s chat_id chat ∙ rw e refl))
  | inr e ↦ rw e (
      run_window chat (clear_history s chat_id) so_far os
        (history_of-clear_history s chat_id chat ∙ rw e h))
]

-- After any exchanges and clearings of any chats, the history of a chat is exactly the last four of its
-- exchanges since it was cleared last, in their order, with the replies shortened.
pub run-new_chat_store-exchanges :
    (chat : ℤ) (os : List HistoryOp)
    → history_of (run new_chat_store os) chat ≡ last_n max_history_turns (exchanges chat [] os)
unfolding history_of get_or lookup
run-new_chat_store-exchanges chat os = run_window chat new_chat_store [] os refl

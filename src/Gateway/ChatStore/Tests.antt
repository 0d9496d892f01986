-- ===== src/Gateway/ChatStore/Tests.antt =====
-- Runs of the chat store (internal/gateway/store.go), and instances of its theorems.
use kyoci_agent.Prelude.{last_n, eq_String, ℕ, ◌≡◌, refl, true, List, [], ◌∷◌}
use kyoci_agent.Prelude.Int.{ℤ, pos, negsuc, eq_ℤ}
use kyoci_agent.Prelude.Map.{lookup, insert}
use kyoci_agent.Gateway.ChatStore.{
  ChatStore, new_chat_store, max_history_turns, get_or, history_of, shorten, prune, add_history,
  summary, turn_text, turns_text, recent_turns, build_task_with_context, check_rate, set_trusted,
  whitelist_of, whitelist_tool, keys, whitelisted_tools,
}
use kyoci_agent.Gateway.ChatStore.Access.{accepted}
use kyoci_agent.Gateway.ChatStore.History.{
  HistoryOp, exchange, forget, run, exchanges, run-new_chat_store-exchanges,
}

abbrev group : ℤ
group = negsuc 99

abbrev talk : List HistoryOp
talk =
    exchange group "one" "1"
    ∷ exchange (pos 7) "hello" "hi"
    ∷ exchange group "two" "2"
    ∷ exchange group "three" "3"
    ∷ forget (pos 7)
    ∷ exchange group "four" "4"
    ∷ exchange group "five" "5"
    ∷ []

task_of_group :
    build_task_with_context (run new_chat_store (exchange group "one" "1" ∷ [])) group "go on"
    ≡ "[Previous conversation — these tasks are ALREADY COMPLETED. Do NOT redo them.]\n\nUser: one\nAssistant (DONE): 1\n\n[End of previous context — above tasks are COMPLETE]\n\nCurrent message: go on"
unfolding build_task_with_context history_of add_history get_or lookup insert prune shorten
    recent_turns turns_text turn_text summary
task_of_group = refl

abbrev approved : ChatStore
approved = whitelist_tool (set_trusted new_chat_store group true) group "terminal"

tools_of_group : whitelisted_tools (λ ts. ts) approved group ≡ "terminal" ∷ []
unfolding whitelisted_tools keys whitelist_of whitelist_tool set_trusted get_or lookup insert
tools_of_group = refl

abbrev messages : List (ℤ × ℕ × ℕ)
messages = (pos 7, 5, 6) ∷ (pos 7, 9, 9) ∷ (pos 8, 9, 9) ∷ (pos 7, 2000000006, 2000000007) ∷ []

two_accepted : accepted (pos 7) new_chat_store messages ≡ (5, 6) ∷ (2000000006, 2000000007) ∷ []
unfolding check_rate lookup insert
two_accepted = refl

run-new_chat_store-exchanges_example :
    history_of (run new_chat_store talk) group ≡ last_n max_history_turns (exchanges group [] talk)
run-new_chat_store-exchanges_example = run-new_chat_store-exchanges group talk

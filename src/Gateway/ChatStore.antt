-- ===== src/Gateway/ChatStore.antt =====
-- The state of the chats (internal/gateway/store.go): roles, history, rate limit, trust and whitelist,
-- each a map by the id of a chat or a user. Every accessor runs under the store's lock, so each is one
-- step. The clock is an argument, in nanoseconds; where a text is cut inside a character, the bytes
-- of that character are dropped. Where the source ranges over a map, the order is an argument.
pub mod History
pub mod Access
mod Tests
use Prim.Native.String.{slice}
use kyoci_agent.Prelude.{
  eq_String, ℕ, zero, suc, ◌+◌, ◌-◌, ◌*◌, String, len, str_append, Bool, true, false, ◌&&◌, Option,
  none, some, List, [], ◌∷◌, ◌++◌, ltb, ◌==◌, if◌then◌else◌, length, drop,
}
use kyoci_agent.Prelude.Int.{ℤ, eq_ℤ}
use kyoci_agent.Prelude.Map.{Map, lookup, insert, delete}

abbrev pub max_history_turns : ℕ
max_history_turns = 4

pub record ConvTurn : Type 0 where
  pub user : String
  pub assistant : String

pub record ChatStore : Type 0 where
  pub chat_roles : Map ℤ String
  pub chat_history : Map ℤ (List ConvTurn)
  pub last_msg : Map ℤ ℕ
  pub trusted_chats : Map ℤ Bool
  pub session_whitelist : Map ℤ (Map String Bool)

abbrev pub new_chat_store : ChatStore
new_chat_store = record {
  chat_roles = [];
  chat_history = [];
  last_msg = [];
  trusted_chats = [];
  session_whitelist = [];
}

-- m[k] with Go's zero value for a missing key.
unfoldable pub get_or {ℓ} : {V : Type ℓ} → V → ℤ → Map ℤ V → V
get_or zero_value k m = elim (lookup k m) [ none ↦ zero_value | some v ↦ v ]

unfoldable pub get_chat_role : ChatStore → ℤ → String
unfolding get_or
get_chat_role s chat_id = get_or "" chat_id s.chat_roles

unfoldable pub set_chat_role : ChatStore → ℤ → String → ChatStore
set_chat_role s chat_id role = record s { chat_roles = insert chat_id role s.chat_roles }

unfoldable pub history_of : ChatStore → ℤ → List ConvTurn
unfolding get_or
history_of s chat_id = get_or [] chat_id s.chat_history

unfoldable pub shorten : String → String
shorten assistant =
    if ltb 500 (len assistant) then str_append (slice assistant 0 500) "..." else assistant

-- The last exchanges only.
unfoldable pub prune : List ConvTurn → List ConvTurn
prune turns =
    if ltb max_history_turns (length turns)
    then drop (length turns - max_history_turns) turns
    else turns

unfoldable pub add_history : ChatStore → ℤ → String → String → ChatStore
unfolding history_of shorten prune
add_history s chat_id user assistant = record s {
  chat_history =
      insert chat_id
        (prune (history_of s chat_id ++ record { user = user; assistant = shorten assistant } ∷ []))
        s.chat_history;
}

unfoldable pub clear_history : ChatStore → ℤ → ChatStore
clear_history s chat_id = record s { chat_history = delete chat_id s.chat_history }

infixr 64 ◌+s◌
abbrev ◌+s◌ : String → String → String
s +s t = str_append s t

unfoldable pub summary : String → String
summary assistant =
    if ltb 500 (len assistant) then slice assistant 0 500 +s "... [truncated]" else assistant

unfoldable pub turn_text : ConvTurn → String
unfolding summary
turn_text turn =
    "User: " +s turn.user +s "\n" +s "Assistant (DONE): " +s summary turn.assistant +s "\n\n"

unfoldable pub turns_text : List ConvTurn → String
unfolding turn_text
turns_text [] = ""
turns_text (t ∷ ts) = turn_text t +s turns_text ts

unfoldable pub recent_turns : List ConvTurn → List ConvTurn
recent_turns history = if ltb 3 (length history) then drop (length history - 3) history else history

unfoldable pub build_task_with_context : ChatStore → ℤ → String → String
unfolding history_of turns_text recent_turns
build_task_with_context s chat_id current_message =
    if length (history_of s chat_id) == 0
    then current_message
    else "[Previous conversation — these tasks are ALREADY COMPLETED. Do NOT redo them.]\n\n"
      +s turns_text (recent_turns (history_of s chat_id))
      +s "[End of previous context — above tasks are COMPLETE]\n\n"
      +s "Current message: "
      +s current_message

abbrev pub spam_window : ℕ
spam_window = 2 * 1000000000

-- The clock is read twice: for the test and for the record.
unfoldable pub check_rate : ChatStore → ℤ → ℕ → ℕ → Bool × ChatStore
check_rate s user_id now recorded =
    let allowed : Bool × ChatStore =
      (true, record s { last_msg = insert user_id recorded s.last_msg }) in
    elim (lookup user_id s.last_msg) [
      | none ↦ allowed
      | some last ↦ if ltb (now - last) spam_window then (false, s) else allowed
    ]

unfoldable pub is_trusted : ChatStore → ℤ → Bool
unfolding get_or
is_trusted s chat_id = get_or false chat_id s.trusted_chats

unfoldable pub set_trusted : ChatStore → ℤ → Bool → ChatStore
set_trusted s chat_id on =
    if on
    then record s { trusted_chats = insert chat_id true s.trusted_chats }
    else record s { trusted_chats = delete chat_id s.trusted_chats }

unfoldable pub is_whitelisted : ChatStore → ℤ → String → Bool
is_whitelisted s chat_id tool_name = elim (lookup chat_id s.session_whitelist) [
  | none ↦ false
  | some wl ↦ elim (lookup tool_name wl) [ none ↦ false | some ok ↦ ok ]
]

unfoldable pub whitelist_of : ChatStore → ℤ → Map String Bool
unfolding get_or
whitelist_of s chat_id = get_or [] chat_id s.session_whitelist

unfoldable pub whitelist_tool : ChatStore → ℤ → String → ChatStore
unfolding whitelist_of
whitelist_tool s chat_id tool_name = record s {
  session_whitelist =
      insert chat_id (insert tool_name true (whitelist_of s chat_id)) s.session_whitelist;
}

unfoldable pub keys : Map String Bool → List String
keys [] = []
keys ((k, _) ∷ m) = k ∷ keys m

unfoldable pub whitelisted_tools : (List String → List String) → ChatStore → ℤ → List String
unfolding whitelist_of keys
whitelisted_tools order s chat_id = order (keys (whitelist_of s chat_id))

unfoldable pub clear_whitelist : ChatStore → ℤ → ChatStore
clear_whitelist s chat_id = record s { session_whitelist = insert chat_id [] s.session_whitelist }

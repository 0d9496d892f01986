-- ===== src/Agent/Context.antt =====
-- The conversation of an agent (internal/agent/context.go): its messages, an estimate of their
-- tokens, and the two compactions. truncateStr is the one of internal/agent/loop.go. Each method
-- runs under the lock and is one step here.
pub mod Budget
pub mod Smart
mod Tests
use Prim.Native.String.{slice}
use mathlib.Core.List.{reverse}
use kyoci_agent.Prelude.{
  ℕ, zero, suc, ◌+◌, ◌-◌, ◌/◌, String, len, str_append, Bool, true, false, not, ◌&&◌, Option, none,
  some, List, [], ◌∷◌, ◌++◌, leb, ltb, if◌then◌else◌, length, keep,
}
use kyoci_agent.Prelude.Int.{ℤ, pos, int_leb, int_minus, int_times}
use kyoci_agent.Prelude.Text.{itoa}

pub data MessageRole : Type 0 where
  role_system : MessageRole
  role_user : MessageRole
  role_assistant : MessageRole
  role_tool : MessageRole

pub record ToolCall : Type 0 where
  pub id : String
  pub name : String
  pub arguments : String

pub record Message : Type 0 where
  pub role : MessageRole
  pub content : String
  pub name : String
  pub tool_call_id : String
  pub tool_calls : List ToolCall

pub record Context : Type 0 where
  pub messages : List Message

unfoldable pub new_context : Context
new_context = record { messages = [] }

-- A message with the fields that its constructor leaves empty.
abbrev pub plain_message : MessageRole → String → Message
plain_message role content = record {
  role = role;
  content = content;
  name = "";
  tool_call_id = "";
  tool_calls = [];
}

unfoldable pub add_message : Context → MessageRole → String → Context
add_message c role content = record { messages = c.messages ++ plain_message role content ∷ [] }

unfoldable pub add_tool_result : Context → String → String → Context
add_tool_result c tool_call_id result =
    let msg = plain_message role_tool result in
    record { messages = c.messages ++ record msg { tool_call_id = tool_call_id } ∷ [] }

unfoldable pub add_assistant_message : Context → String → List ToolCall → Context
add_assistant_message c content tool_calls =
    let msg = plain_message role_assistant content in
    record { messages = c.messages ++ record msg { tool_calls = tool_calls } ∷ [] }

unfoldable pub get_messages : Context → List Message
get_messages c = c.messages

abbrev pub total_chars : List Message → ℕ
total_chars [] = 0
total_chars (msg ∷ ms) = len msg.content + total_chars ms

unfoldable pub token_count : Context → ℕ
token_count c = total_chars c.messages / 4

abbrev pub is_system_role : MessageRole → Bool
is_system_role role_system = true
is_system_role role_user = false
is_system_role role_assistant = false
is_system_role role_tool = false

abbrev pub is_system : Message → Bool
is_system msg = is_system_role msg.role

-- The first loop of Compact: the system messages, and the characters that they leave.
unfoldable pub add_systems : List Message → ℤ → List Message × ℤ
add_systems [] remaining = ([], remaining)
add_systems (msg ∷ ms) remaining =
    let (rest, left) =
      add_systems ms (if is_system msg then int_minus remaining (len msg.content) else remaining) in
    (if is_system msg then msg ∷ rest else rest, left)

abbrev pub fits : Message → ℤ → Bool
fits msg remaining = not (is_system msg) && int_leb (pos (len msg.content)) remaining

-- The second loop, from the newest message on; what fits goes in front.
unfoldable pub add_newest : List Message → ℤ → List Message → List Message
add_newest [] remaining compacted = compacted
add_newest (msg ∷ older) remaining compacted =
    add_newest older
      (if fits msg remaining then int_minus remaining (len msg.content) else remaining)
      (if fits msg remaining then msg ∷ compacted else compacted)

abbrev pub under_limit : List Message → ℤ → Bool
under_limit ms max_tokens = int_leb (pos (total_chars ms / 4)) max_tokens

unfoldable pub compact : Context → ℤ → Context
unfolding add_systems add_newest
compact c max_tokens =
    let (compacted, remaining) = add_systems c.messages (int_times max_tokens 4) in
    if under_limit c.messages max_tokens
    then c
    else record { messages = add_newest (reverse c.messages) remaining compacted }

abbrev pub is_user_role : MessageRole → Bool
is_user_role role_system = false
is_user_role role_user = true
is_user_role role_assistant = false
is_user_role role_tool = false

abbrev pub is_user : Message → Bool
is_user msg = is_user_role msg.role

-- The messages of SmartCompact's loop: the original task, what is summarized, what is kept.
pub record Parts : Type 0 where
  pub first_user : Option Message
  pub to_summarize : List Message
  pub to_keep : List Message

-- The loop's body for message i of n; `rest` is what the later rounds add.
abbrev pub place : ℕ → ℕ → Message → Parts → Parts
place n i msg rest =
    if leb (n - 6) i
    then record rest { to_keep = msg ∷ rest.to_keep }
    else record rest { to_summarize = msg ∷ rest.to_summarize }

-- The rounds after the first message of the user was found.
unfoldable pub split_after : ℕ → ℕ → Message → List Message → Parts
split_after n i first [] = record { first_user = some first; to_summarize = []; to_keep = [] }
split_after n i first (msg ∷ ms) = place n i msg (split_after n (suc i) first ms)

unfoldable pub split_others : ℕ → ℕ → List Message → Parts
unfolding split_after
split_others n i [] = record { first_user = none; to_summarize = []; to_keep = [] }
split_others n i (msg ∷ ms) =
    let found = split_after n (suc i) msg ms in
    let later = place n i msg (split_others n (suc i) ms) in if is_user msg then found else later

unfoldable pub truncate_str : String → ℕ → String
truncate_str s max_len = if leb (len s) max_len then s else str_append (slice s 0 max_len) "..."

-- A line and one more call for each tool call.
unfoldable pub summarize_calls : List ToolCall → String × ℕ → String × ℕ
summarize_calls [] (text, count) = (text, count)
summarize_calls (tc ∷ tcs) (text, count) =
    summarize_calls tcs
      (str_append text (str_append "- Called " (str_append tc.name "\n")), suc count)

unfoldable pub summarize_message : MessageRole → Message → String × ℕ → String × ℕ
unfolding summarize_calls truncate_str
summarize_message role_system msg (text, count) = (text, count)
summarize_message role_assistant msg (text, count) = summarize_calls msg.tool_calls (text, count)
summarize_message role_tool msg (text, count) = (text, suc count)
summarize_message role_user msg (text, count) = (
  str_append text (str_append "- User: " (str_append (truncate_str msg.content 100) "\n")),
  count,
)

unfoldable pub summarize : List Message → String × ℕ → String × ℕ
unfolding summarize_message
summarize [] acc = acc
summarize (msg ∷ ms) acc = summarize ms (summarize_message msg.role msg acc)

abbrev pub summary_title : String
summary_title = "[Context Compacted — summary of earlier actions]\n"

unfoldable pub summary_text : List Message → String
unfolding summarize itoa
summary_text ms =
    let (text, count) = summarize ms (summary_title, 0) in
    str_append text (str_append "(" (str_append (itoa count) " tool calls summarized)\n"))

abbrev pub optional {ℓ} : {A : Type ℓ} → Option A → List A
optional none = []
optional (some a) = a ∷ []

unfoldable pub smart_compact : Context → ℤ → Context
unfolding split_others summary_text
smart_compact c max_tokens =
    let system_msgs = keep is_system c.messages in
    let other_msgs = keep (λ msg. not (is_system msg)) c.messages in
    let parts = split_others (length other_msgs) 0 other_msgs in
    let summary = plain_message role_user (summary_text parts.to_summarize) in
    if under_limit c.messages max_tokens
    then c
    else if leb (length other_msgs) 6
    then c
    else record {
      messages = system_msgs ++ (optional parts.first_user ++ (summary ∷ parts.to_keep));
    }

unfoldable pub reset : Context → Context
reset c = record { messages = [] }

unfoldable pub message_count : Context → ℕ
message_count c = length c.messages

abbrev pub is_assistant_role : MessageRole → Bool
is_assistant_role role_system = false
is_assistant_role role_user = false
is_assistant_role role_assistant = true
is_assistant_role role_tool = false

-- The search from the newest message on.
unfoldable pub last_assistant : List Message → String
last_assistant [] = ""
last_assistant (msg ∷ older) =
    let rest = last_assistant older in if is_assistant_role msg.role then msg.content else rest

unfoldable pub last_assistant_content : Context → String
unfolding last_assistant
last_assistant_content c = last_assistant (reverse c.messages)

abbrev pub calls_pending : List Message → Bool
calls_pending [] = false
calls_pending (msg ∷ older) = is_assistant_role msg.role && ltb 0 (length msg.tool_calls)

unfoldable pub has_tool_calls : Context → Bool
has_tool_calls c = calls_pending (reverse c.messages)

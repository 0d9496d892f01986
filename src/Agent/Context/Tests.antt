-- ===== src/Agent/Context/Tests.antt =====
-- Runs of the compactions (internal/agent/context.go), and the theorems about them at one
-- conversation.
use mathlib.Core.List.{Sublistᴰ}
use kyoci_agent.Prelude.{◌*◌, ◌≡◌, refl, String, str_append, List, [], ◌∷◌, ◌++◌, map, keep, arith}
use kyoci_agent.Prelude.Int.{pos}
use kyoci_agent.Prelude.Text.{itoa}
use kyoci_agent.Agent.Context.{
  Context, Message, ToolCall, role_system, role_user, role_assistant, role_tool, plain_message,
  smart_compact, compact, summary_text, is_system, optional,
}
use kyoci_agent.Agent.Context.Smart.{
  smart_compact_layout, summary_text_counts_twice, others, systems, front, kept, first_task,
  without_task, calls_in,
}
use kyoci_agent.Agent.Context.Budget.{compact_order, is_other}

abbrev call : ToolCall
call = record { id = "1"; name = "terminal"; arguments = "{}" }

abbrev ask : Message
ask = record {
  role = role_assistant;
  content = "checking";
  name = "";
  tool_call_id = "";
  tool_calls = call ∷ [];
}

abbrev answer : Message
answer = record {
  role = role_tool;
  content = "a long listing";
  name = "";
  tool_call_id = "1";
  tool_calls = [];
}

abbrev chat : Context
chat = record {
  messages =
      plain_message role_system "be brief"
      ∷ plain_message role_user "list the files"
      ∷ ask
      ∷ answer
      ∷ ask
      ∷ answer
      ∷ ask
      ∷ answer
      ∷ ask
      ∷ answer
      ∷ [];
}

abbrev contents : List Message → List String
contents = map (λ msg. msg.content)

smart_run :
    contents (smart_compact chat (pos 3)).messages
    ≡ "be brief" ∷ "list the files"
      ∷ "[Context Compacted — summary of earlier actions]\n- Called terminal\n(2 tool calls summarized)\n"
      ∷ "checking" ∷ "a long listing" ∷ "checking" ∷ "a long listing" ∷ "checking"
      ∷ "a long listing" ∷ []
unfolding smart_compact
smart_run = refl

-- Compacting to eight tokens leaves 32 characters: the system message takes 8 of them, and one
-- round of call and result fits. The system message comes last.
compact_run :
    contents (compact chat (pos 8)).messages ≡ "checking" ∷ "a long listing" ∷ "be brief" ∷ []
unfolding compact
compact_run = refl

smart_compact_layout_example :
    (smart_compact chat (pos 3)).messages
    ≡ systems chat
      ++ (optional (first_task (others chat))
          ++ (plain_message role_user (summary_text (without_task (front chat))) ∷ kept chat))
smart_compact_layout_example = smart_compact_layout chat (pos 3) refl (omega arith)

summary_text_counts_twice_example :
    (text : String) × (summary_text (ask ∷ answer ∷ [])
      ≡ str_append text (
          str_append "("
            (str_append (itoa (2 * calls_in (ask ∷ answer ∷ []))) " tool calls summarized)\n")))
summary_text_counts_twice_example = summary_text_counts_twice (ask ∷ answer ∷ []) refl

compact_order_example :
    (kept : List Message) × ((compact chat (pos 8)).messages ≡ kept ++ keep is_system chat.messages)
    × Sublistᴰ kept (keep is_other chat.messages)
compact_order_example = compact_order chat (pos 8) refl

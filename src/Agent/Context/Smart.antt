-- ===== src/Agent/Context/Smart.antt =====
-- What SmartCompact (internal/agent/context.go) keeps, against a description by `take` and `drop`.
use kyoci_agent.Prelude.{
  ℕ, zero, suc, ◌+◌, ◌-◌, ◌*◌, ◌≤◌, ◌<◌, ◌≡◌, refl, ap, ◌∙◌, String, str_append, Bool, true, false,
  not, Option, none, some, List, [], ◌∷◌, ◌++◌, any, if◌then◌else◌, length, keep, count, take, drop,
  length-append, length-drop, length-keep, arith,
}
use native.Mathlib.Decide.{dec_lt}
use kyoci_agent.Prelude.Int.{ℤ}
use kyoci_agent.Prelude.Text.{itoa}
use kyoci_agent.Agent.Context.{
  Message, Context, Parts, is_system, is_user, split_after, split_others, summarize,
  summarize_calls, summarize_message, summary_text, summary_title, smart_compact, under_limit,
  optional, plain_message, message_count, MessageRole, role_user, role_assistant, role_tool,
  role_system, ToolCall, is_assistant_role,
}

-- The first message of the user, and the others.
abbrev pub first_task : List Message → Option Message
first_task [] = none
first_task (msg ∷ ms) = let rest = first_task ms in if is_user msg then some msg else rest

abbrev pub without_task : List Message → List Message
without_task [] = []
without_task (msg ∷ ms) = let rest = msg ∷ without_task ms in if is_user msg then ms else rest

split_after_lem :
    (n i k : ℕ) (first : Message) (ms : List Message)
    → k ≡ n - 6 - i
    → split_after n i first ms
      ≡ record { first_user = some first; to_summarize = take k ms; to_keep = drop k ms }
unfolding split_after
split_after_lem n i zero first [] h = refl
split_after_lem n i (suc k) first [] h = refl
split_after_lem n i zero first (msg ∷ ms) h =
    ground (arith, split_after_lem n (suc i) zero first ms)
split_after_lem n i (suc k) first (msg ∷ ms) h =
    ground (arith, split_after_lem n (suc i) k first ms)

-- What the loop finds, with the first k messages of the rest before the window of the last six.
abbrev pub parts_of : ℕ → List Message → Parts
parts_of k ms = record {
  first_user = first_task ms;
  to_summarize = without_task (take k ms);
  to_keep = if any is_user (take k ms) then drop k ms else without_task (drop k ms);
}

split_others_lem :
    (n i k : ℕ) (ms : List Message) → k ≡ n - 6 - i → split_others n i ms ≡ parts_of k ms
unfolding split_others
split_others_lem n i zero [] h = refl
split_others_lem n i (suc k) [] h = refl
split_others_lem n i zero (msg ∷ ms) h =
    ground (arith, split_others_lem n (suc i) zero ms, split_after_lem n (suc i) zero msg ms)
split_others_lem n i (suc k) (msg ∷ ms) h =
    ground (arith, split_others_lem n (suc i) k ms, split_after_lem n (suc i) k msg ms)

module _ (c : Context) where
  abbrev pub others : List Message
  others = keep (λ msg. not (is_system msg)) c.messages

  abbrev pub systems : List Message
  systems = keep is_system c.messages

  -- The messages behind the system messages, cut before the last six.
  abbrev pub front : List Message
  front = take (length others - 6) others

  abbrev pub back : List Message
  back = drop (length others - 6) others

  abbrev pub kept : List Message
  kept = if any is_user front then back else without_task back

module _ (c : Context) (max_tokens : ℤ) where
  -- A conversation over the limit with more than six messages besides the system messages becomes:
  -- the system messages, the first message of the user (if there is one), a summary of all but the
  -- last six of the others, and the last six, in their order. The first message of the user is
  -- taken out of the part in which it stands.
  pub smart_compact_layout :
      under_limit c.messages max_tokens ≡ false
      → 6 < length (others c)
      → (smart_compact c max_tokens).messages
        ≡ systems c
          ++ (optional (first_task (others c))
              ++ (plain_message role_user (summary_text (without_task (front c))) ∷ kept c))
  unfolding smart_compact
  smart_compact_layout over more = ground (
    arith,
    split_others_lem (length (others c)) 0 (length (others c) - 6) (others c) (omega arith),
  )

  smart_compact-few :
      under_limit c.messages max_tokens ≡ false
      → length (others c) ≤ 6
      → smart_compact c max_tokens ≡ c
  unfolding smart_compact
  smart_compact-few over few = ground arith

length-without_task : (ms : List Message) → length (without_task ms) ≤ length ms
length-without_task [] = omega arith
length-without_task (msg ∷ ms) = ground (arith, length-without_task ms)

length-optional {ℓ} : {A : Type ℓ} (o : Option A) → length (optional o) ≤ 1
length-optional none = omega arith
length-optional (some a) = omega arith

count-others :
    (ms : List Message)
    → length (keep (λ msg. not (is_system msg)) ms) + count is_system ms ≡ length ms
count-others [] = omega arith
count-others (msg ∷ ms) = ground (arith, count-others ms)

length-kept : (c : Context) → length (kept c) ≤ 6
length-kept c =
    ground (arith, length-without_task (back c), length-drop (length (others c) - 6) (others c))

module _ (c : Context) (max_tokens : ℤ) where
  -- However long a conversation over the limit is, SmartCompact leaves at most eight messages
  -- besides the system messages.
  pub smart_compact-message_count :
      under_limit c.messages max_tokens ≡ false
      → message_count (smart_compact c max_tokens) ≤ count is_system c.messages + 8
  unfolding message_count
  smart_compact-message_count over = elim (dec_lt 6 (length (others c))) [
    | yes more ↦
        (let task = optional (first_task (others c)) in
          let summary = plain_message role_user (summary_text (without_task (front c))) in
          omega (
            arith,
            ap length (smart_compact_layout c max_tokens over more),
            length-append (systems c) (task ++ (summary ∷ kept c)),
            length-append task (summary ∷ kept c),
            length-keep is_system c.messages,
            length-optional (first_task (others c)),
            length-kept c,
          ))
    | no few ↦ omega (
      arith,
      ap (λ d. length d.messages) (smart_compact-few c max_tokens over (omega arith)),
      count-others c.messages,
    )
  ]

-- The tool calls of the assistant, and the results of tools.
abbrev pub calls_in : List Message → ℕ
calls_in [] = 0
calls_in (msg ∷ ms) =
    let rest = calls_in ms in
    if is_assistant_role msg.role then length msg.tool_calls + rest else rest

abbrev pub is_tool_role : MessageRole → Bool
is_tool_role role_system = false
is_tool_role role_user = false
is_tool_role role_assistant = false
is_tool_role role_tool = true

abbrev pub results_in : List Message → ℕ
results_in ms = count (λ msg. is_tool_role msg.role) ms

summarize_calls-count :
    (tcs : List ToolCall) (text : String) (n : ℕ)
    → (summarize_calls tcs (text, n)).1 ≡ n + length tcs
unfolding summarize_calls
summarize_calls-count [] text n = omega arith
summarize_calls-count (tc ∷ tcs) text n = summarize_calls-count tcs _ (suc n) ∙ omega arith

summarize_message-count :
    (r : MessageRole) (msg : Message) (text : String) (n : ℕ)
    → (summarize_message r msg (text, n)).1
      ≡ n
        + (if is_assistant_role r then length msg.tool_calls else 0)
        + (if is_tool_role r then 1 else 0)
unfolding summarize_message
summarize_message-count role_system msg text n = omega arith
summarize_message-count role_user msg text n = omega arith
summarize_message-count role_assistant msg text n =
    summarize_calls-count msg.tool_calls text n ∙ omega arith
summarize_message-count role_tool msg text n = omega arith

summarize-count :
    (ms : List Message) (acc : String × ℕ)
    → (summarize ms acc).1 ≡ acc.1 + calls_in ms + results_in ms
unfolding summarize
summarize-count [] acc = omega arith
summarize-count (msg ∷ ms) (text, n) = ground (
  arith,
  summarize-count ms (summarize_message msg.role msg (text, n)),
  summarize_message-count msg.role msg text n,
)

-- Where each tool call of the summarized messages has one result among them, the summary counts
-- every call twice: it gives twice the number of tool calls.
pub summary_text_counts_twice :
    (ms : List Message)
    → results_in ms ≡ calls_in ms
    → (text : String) × (summary_text ms
        ≡ str_append text
            (str_append "(" (str_append (itoa (2 * calls_in ms)) " tool calls summarized)\n")))
unfolding summary_text
summary_text_counts_twice ms h =
    let e : (summarize ms (summary_title, 0)).1 ≡ 2 * calls_in ms =
      summarize-count ms (summary_title, 0) ∙ omega arith in
    ((summarize ms (summary_title, 0)).0, rw e refl)

-- ===== src/Lib.antt =====
-- A verification library for Kyoci-Agent, a server that runs language-model agents on tasks.
--
-- The program's parts and how they interact. A task comes in over the dashboard, gRPC or the Telegram
-- gateway; the security manager admits and cleans it, and the gateway's chat store keeps what a chat
-- said before. The orchestrator chooses an agent by the triggers of the agent definitions and runs it.
-- An agent may think in a loop of states; one with the orchestrated pipeline plans steps, adds SETUP,
-- VERIFY, QA and SERVE to a plan that writes code, and dispatches the steps to workers that run
-- concurrently. Its memory keeps the latest entries within a budget, and its calls of a model go
-- through a router, which picks a provider, and a circuit breaker. A conversation that grows too long is compacted. A task with a VERIFY line is
-- repeated until its command passes, at last with a hint of a human operator. Small tasks are done
-- by skills that need no model.
--
-- Which file models which part:
--   Agent/Dispatcher     internal/agent/orchestrated.go: executeWorkers, allDepsDone, snapshotPrior,
--                        isStalledResult. The batches are rounds; a schedule, any permutation of each
--                        batch, stands for the order in which concurrent workers finish. The worker
--                        and the skills are fields of `Agent`. Theorems in its children: Rounds and
--                        Loop (rules for invariants), Counting, Solution, Completion, Determinism,
--                        Missing.
--   Agent/Sdlc           internal/agent/orchestrated.go: the end of planTask with its cap (Cap),
--                        ensureSDLCSteps, appendUniqueInt, nextStepID, anyStepMatches, isServeTask.
--                        Its theorems feed those of Agent/Dispatcher.
--   Agent/Planner        internal/agent/orchestrated.go: parseOrchSteps and extractOutermostArray,
--                        with stripCodeFences of internal/agent/thinking.go. Grammar describes the
--                        arrays, Brackets and Closing relate the scan to it, Array says what is found.
--   Agent/Context        internal/agent/context.go: the messages of a conversation, Compact (in Budget)
--                        and SmartCompact (in Smart); truncateStr of internal/agent/loop.go.
--   Agent/Thinking       internal/agent/thinking.go: the driver executeWithThinking, over ThinkingSteps
--                        (one function for each state), ThinkingEnv (what the loop calls) and
--                        ThinkingData (its records and counters) beside it, and the conversation of
--                        Agent/Context. Caps and Advance bound the steps, Ending says how the loop
--                        ends, Failures what stays on record, Recovery what follows a detected loop,
--                        Rejected what becomes of a rejected answer.
--   Llm/Router           internal/llm/router.go with the registry of internal/llm/providers.go. Choice
--                        and Offered are about the provider that is chosen, Rotation about the round
--                        robin.
--   Apperr               internal/apperr: Error, its chain and its predicates (Chain), and the tables of
--                        status codes (Status).
--   Llm/Circuit          internal/llm/circuit.go, with a clock as an argument. Trace states what holds
--                        after any sequence of calls, Blocking what an open breaker does.
--   Memory/ShortTerm     internal/memory/shortterm.go: Add, trim, Delete, Clear, GetRecent. Budget has
--                        the invariant, Suffix which entries stay.
--   Memory/Compactor     internal/memory/compactor.go, and its callers Store and CompactIfNeeded of
--                        internal/memory/store.go. Outcome is what a compaction leaves and reports, Idle when none
--                        takes place. It works on the memory of Memory/ShortTerm.
--   Orchestrator/Verify  internal/orchestrator/hitl.go: the VERIFY directive and truncateForHitl.
--   Orchestrator/Retry   internal/orchestrator/hitl.go: executeWithRetry, with RetryData for its data
--                        (also of internal/hitl/hook.go and internal/memory/lesson.go) and RetryTexts
--                        for its texts. Retry/Spec is the contract, Retry/Refinement the proof.
--   Orchestrator/Match   internal/agentdef/match.go: MatchScore, PriorityRank, BestMatch. Best, and
--                        Search for the loop over a text.
--   Orchestrator/Resolve internal/orchestrator/autoresolve.go and classifier.go, over the choice of
--                        Orchestrator/Match: resolveAgent with the route cache. Hash is the key, Bounds
--                        the size of the cache, Cached and Stale what it answers.
--   Hitl/Hub             internal/hitl/hub.go: the hub. Steps is a step relation for agents and operators
--                        in any order, Sound its invariant; Subscribers takes calls one by one.
--   Promptskill/Matcher  internal/promptskill/matcher.go: the skills that a task brings into the prompt.
--                        Ranking and Caps.
--   Security             internal/security/security.go: New, Authenticate, RateLimit, Sanitize,
--                        ValidateRequest. Window is one key, Limit the whole manager, Input the texts.
--   Tool/Todo            internal/tool/builtin/todo.go: all actions on the shared store. Store has the
--                        invariant, Lookup the abstract map, Counts the snapshot, Stuck what follows
--                        the removal from an empty list.
--   Gateway/ChatStore    internal/gateway/store.go: all accessors. History and Access.
--   Skill/Barcodes       internal/skill/builtin/barcodes.go: EAN-13, EAN-8, UPC-A (Gs1) and ISSN (Issn).
--   Skill/Vin            internal/skill/builtin/barcodes.go: the check of a VIN. Sum, Remainder and Error.
--   Skill/BigBase        internal/skill/builtin/encoding_extended.go: encodeBigBase and decodeBigBase.
--   Skill/Distance       internal/skill/builtin/text.go: levenshtein, and string_algorithms.go:
--                        hammingDistance. Script has edit scripts and their cost, Rows the table.
--   Dashboard/Activity   internal/dashboard/activity.go: the broker of activity events. Window.
--   Prelude              shared names and lemmas: Boolean tests on native numbers, lists and windows,
--                        maps as association lists, an `int` with a sign, texts, strconv.Atoi.
--
-- Conventions. An operation that writes to a shared object returns the new object; operations under one
-- lock are one step, and a sequence of calls is a list in the order in which they take the lock. An
-- `int` is a natural number where the code keeps it at or above 0, else `ℤ`; no modelled number comes
-- near 2^63 in use, and no theorem rests on a bound of 64 bits. The hash of a task, a uint64, is taken
-- modulo 2^64. Times are in nanoseconds. A text is a
-- sequence of Unicode characters with its length in UTF-8 bytes; where the code cuts a text inside a
-- character, the model leaves the cut character out. An error value is the constructor that names it.
--
-- Bounds and fuel. The dispatcher's loop has one round more than the plan has steps, since each round
-- marks a step as done or ends the loop. The retry loop counts its attempts down from the total. The search for a trigger
-- has one round more than the text has bytes; each round moves on by at least one byte. The digits of a number are taken in at most as many rounds as the
-- number and one more, since a division by a base of at least two makes it smaller. The thinking loop
-- has the source's own ceiling on its transitions.
--
-- Not modelled: the clients of language models, databases, HTTP and gRPC, generated code, the loaders of
-- files, logging, and the web interface. The regular expressions of Agent/Sdlc, Orchestrator/Match
-- and Promptskill/Matcher, and the SHA-256 digest of Security are parameters, and so are the
-- floating-point costs, the averages and the providers' answers of Llm/Router, the model, its parser,
-- the tools and the prompts of Agent/Thinking, json.Unmarshal and the commas of Agent/Planner, and
-- the long-term memory, the summarizer, the threshold and the set of tags of Memory/Compactor. The order in which Go
-- ranges over a map is an argument. How a skill cuts its payload out of a query is left out, and so are
-- SWIFT codes and the floating-point measures of texts.
pub mod Prelude
pub mod Skill
pub mod Apperr
pub mod Llm
pub mod Agent
pub mod Orchestrator
pub mod Hitl
pub mod Promptskill
pub mod Security
pub mod Memory
pub mod Tool
pub mod Gateway
pub mod Dashboard

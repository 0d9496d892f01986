-- ===== src/Memory/ShortTerm.antt =====
-- The short-term memory (internal/memory/shortterm.go): the latest entries within a budget of tokens.
-- An entry's content is taken as fixed once it is added; the source keeps a pointer to it.
-- `current_tokens` is reset to 0 when it would become negative, as subtraction here stops at 0.
pub mod Budget
pub mod Suffix
mod Tests
use kyoci_agent.Prelude.{
  ℕ, zero, suc, ◌+◌, ◌-◌, ◌/◌, String, len, str_eq, Bool, true, false, ◌||◌, List, [], ◌∷◌, ◌++◌,
  ltb, if◌then◌else◌, length, drop,
}
use kyoci_agent.Prelude.Int.{ℤ, pos, negsuc, int_ltb}

-- The fields that the memory reads; `more` stands for the others.
pub record MemoryEntry : Type 0 where
  pub id : String
  pub content : String
  pub more : ℕ

pub record ShortTermMemory : Type 0 where
  pub entries : List MemoryEntry
  pub max_tokens : ℤ
  pub current_tokens : ℕ
  pub max_capacity : ℕ

unfoldable pub new_short_term_memory : ℤ → ShortTermMemory
new_short_term_memory max_tokens = record {
  entries = [];
  max_tokens = max_tokens;
  current_tokens = 0;
  max_capacity = 1000;
}

unfoldable pub estimate_tokens : String → ℕ
estimate_tokens s = len s / 4

-- The condition of the loop, for entries that are not empty.
abbrev pub exceeds : ℤ → ℕ → ℕ → ℕ → Bool
exceeds max_tokens max_capacity current_tokens n =
    int_ltb max_tokens (pos current_tokens) || ltb max_capacity n

-- The loop drops the oldest entry, the first.
unfoldable pub trim_entries : ℤ → ℕ → List MemoryEntry → ℕ → List MemoryEntry × ℕ
unfolding estimate_tokens
trim_entries max_tokens max_capacity [] current = ([], current)
trim_entries max_tokens max_capacity (oldest ∷ rest) current =
    let trimmed =
      trim_entries max_tokens max_capacity rest (current - estimate_tokens oldest.content) in
    if exceeds max_tokens max_capacity current (suc (length rest))
    then trimmed
    else (oldest ∷ rest, current)

unfoldable pub trim : ShortTermMemory → ShortTermMemory
unfolding trim_entries
trim stm =
    let (es, current) =
      trim_entries stm.max_tokens stm.max_capacity stm.entries stm.current_tokens in
    record stm { entries = es; current_tokens = current }

unfoldable pub add : ShortTermMemory → MemoryEntry → ShortTermMemory
unfolding trim
add stm entry = trim (record stm {
  entries = stm.entries ++ entry ∷ [];
  current_tokens = stm.current_tokens + estimate_tokens entry.content;
})

-- Without the first entry with an id, and the entry.
unfoldable pub remove_first : String → List MemoryEntry → List MemoryEntry × ℕ × Bool
unfolding estimate_tokens
remove_first id [] = ([], 0, false)
remove_first id (e ∷ es) =
    let (rest, tokens, found) = remove_first id es in
    if str_eq e.id id then (es, estimate_tokens e.content, true) else (e ∷ rest, tokens, found)

unfoldable pub delete : ShortTermMemory → String → ShortTermMemory × Bool
unfolding remove_first
delete stm id =
    let (es, tokens, found) = remove_first id stm.entries in
    if found
    then (record stm { entries = es; current_tokens = stm.current_tokens - tokens }, true)
    else (stm, false)

unfoldable pub clear : ShortTermMemory → ShortTermMemory
clear stm = record stm { entries = []; current_tokens = 0 }

-- The last n entries.
unfoldable pub get_recent : ShortTermMemory → ℤ → List MemoryEntry
get_recent stm (negsuc n) = []
get_recent stm (pos zero) = []
get_recent stm (pos (suc n)) = drop (length stm.entries - suc n) stm.entries

unfoldable pub token_count : ShortTermMemory → ℕ
token_count stm = stm.current_tokens

unfoldable pub get_all_entries : ShortTermMemory → List MemoryEntry
get_all_entries stm = stm.entries

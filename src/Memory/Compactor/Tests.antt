-- ===== src/Memory/Compactor/Tests.antt =====
-- Runs of the compaction (internal/memory/compactor.go), and its theorems at three entries.
use kyoci_agent.Prelude.{◌≡◌, refl, inr, String, true, false, none, List, [], ◌∷◌, ◌++◌, arith}
use kyoci_agent.Prelude.Int.{pos, int_half}
use kyoci_agent.Prelude.Text.{itoa}
use kyoci_agent.Memory.ShortTerm.{
  MemoryEntry, ShortTermMemory, new_short_term_memory, add, delete, estimate_tokens, get_recent,
  get_all_entries, token_count,
}
use kyoci_agent.Memory.ShortTerm.Budget.{add_entry, run, IsConsistent, total_tokens}
use kyoci_agent.Memory.Compactor.{
  Outside, generate_summary, compact, store_short_term, compact_if_needed, legacy_summary,
}
use kyoci_agent.Memory.Compactor.Outcome.{write_all, writes, stats_of, reached, compact_outcome}
use kyoci_agent.Memory.Compactor.Idle.{store_short_term_idle, compact_if_needed_idle}

-- A long-term memory that keeps the texts, and a threshold that is always exceeded.
abbrev outside : Outside
outside = record {
  LongTerm = List String;
  store = λ ltm text metadata. (text ∷ ltm, true);
  metadata_of = λ e. [];
  tags_of = λ e. "note" ∷ [];
  tag_order = λ tags. elim tags [ [] ↦ [] | tag ∷ rest ↦ tag ∷ [] ];
  over_threshold = λ current max_tokens. true;
  summarizer = none;
}

abbrev entry : String → String → MemoryEntry
entry id content = record { id = id; content = content; more = 0 }

abbrev three : List MemoryEntry
three = entry "1" "eight888" ∷ entry "2" "eight888" ∷ entry "3" "eight888" ∷ []

abbrev memory : ShortTermMemory
memory = record { entries = three; max_tokens = pos 10; current_tokens = 6; max_capacity = 1000 }

summary_run :
    legacy_summary outside (entry "1" "eight888" ∷ [])
    ≡ "Summary of 1 compacted messages:\n[1] eight888\n\nMetadata: Tags: note"
unfolding legacy_summary itoa
summary_run = refl

compact_run :
    (compact outside memory [] (pos 4)).0.entries ≡ entry "2" "eight888" ∷ entry "3" "eight888" ∷ []
unfolding compact get_recent token_count get_all_entries delete
compact_run = refl

memory-IsConsistent : IsConsistent memory
unfolding total_tokens estimate_tokens
memory-IsConsistent = record { counted = refl; within = inr refl }

compact_outcome_example :
    let recent = get_recent memory (int_half (pos 4)) in
    let (left, ltm', stats) = compact outside memory [] (pos 4) in
    (older : List MemoryEntry) × (memory.entries ≡ older ++ recent)
    × (left.entries ≡ recent)
    × (left.current_tokens ≡ total_tokens recent)
    × (ltm' ≡ write_all outside (writes outside (generate_summary outside older) older) [])
    × (stats ≡ stats_of outside (reached outside (generate_summary outside older) older []))
compact_outcome_example =
    compact_outcome outside memory [] (pos 4) refl memory-IsConsistent (refl, (refl, (refl, tt)))

store_short_term_idle_example :
    store_short_term outside
      (pos 4)
      (run (new_short_term_memory (pos 4)) (add_entry (entry "1" "eight888") ∷ []))
      []
      (entry "2" "sixteen sixteen!")
    ≡ (
      add
          (run (new_short_term_memory (pos 4)) (add_entry (entry "1" "eight888") ∷ []))
          (entry "2" "sixteen sixteen!"),
      [],
    )
store_short_term_idle_example =
    store_short_term_idle outside 4 (add_entry (entry "1" "eight888") ∷ []) []
      (entry "2" "sixteen sixteen!")

compact_if_needed_idle_example :
    compact_if_needed outside
      (pos 4000)
      false
      (run (new_short_term_memory (pos 4000)) (add_entry (entry "1" "eight888") ∷ []))
      []
    ≡ (run (new_short_term_memory (pos 4000)) (add_entry (entry "1" "eight888") ∷ []), [])
compact_if_needed_idle_example =
    compact_if_needed_idle outside 4000 false (add_entry (entry "1" "eight888") ∷ []) []
      (omega arith)

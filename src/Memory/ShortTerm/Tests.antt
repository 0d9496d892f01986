-- ===== src/Memory/ShortTerm/Tests.antt =====
-- Runs of the short-term memory (internal/memory/shortterm.go), and instances of its theorems.
use kyoci_agent.Prelude.{◌≤◌, ◌≡◌, refl, inr, [], ◌∷◌, length}
use kyoci_agent.Prelude.Int.{pos}
use kyoci_agent.Memory.ShortTerm.{
  MemoryEntry, ShortTermMemory, new_short_term_memory, estimate_tokens, trim_entries, trim, add,
  get_recent,
}
use kyoci_agent.Memory.ShortTerm.Budget.{
  total_tokens, IsConsistent, add_entry, delete_id, run, run-new-bounds,
}

abbrev first_entry : MemoryEntry
first_entry = record { id = "1"; content = "four"; more = 0 }

abbrev second_entry : MemoryEntry
second_entry = record { id = "2"; content = "eight888"; more = 0 }

abbrev third_entry : MemoryEntry
third_entry = record { id = "3"; content = "four"; more = 0 }

abbrev two : ShortTermMemory
two = record {
  entries = first_entry ∷ second_entry ∷ [];
  max_tokens = pos 3;
  current_tokens = 3;
  max_capacity = 1000;
}

trims_oldest : (add two third_entry).entries ≡ second_entry ∷ third_entry ∷ []
unfolding add trim trim_entries estimate_tokens
trims_oldest = refl

recent : get_recent two (pos 1) ≡ second_entry ∷ []
unfolding get_recent
recent = refl

two-IsConsistent : IsConsistent two
unfolding total_tokens estimate_tokens
two-IsConsistent = record { counted = refl; within = inr refl }

run-new-bounds_example :
    ((run
        (new_short_term_memory (pos 3))
        (add_entry second_entry ∷ add_entry first_entry ∷ delete_id "2" ∷ [])).current_tokens
      ≡ total_tokens
          (run
            (new_short_term_memory (pos 3))
            (add_entry second_entry ∷ add_entry first_entry ∷ delete_id "2" ∷ [])).entries)
    × ((run
          (new_short_term_memory (pos 3))
          (add_entry second_entry ∷ add_entry first_entry ∷ delete_id "2" ∷ [])).current_tokens
        ≤ 3)
    × (length
          (run
            (new_short_term_memory (pos 3))
            (add_entry second_entry ∷ add_entry first_entry ∷ delete_id "2" ∷ [])).entries
        ≤ 1000)
run-new-bounds_example =
    run-new-bounds 3 (add_entry second_entry ∷ add_entry first_entry ∷ delete_id "2" ∷ [])

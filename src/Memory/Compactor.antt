-- ===== src/Memory/Compactor.antt =====
-- The compaction of the short-term memory into the long-term memory
-- (internal/memory/compactor.go), and the calls of it in internal/memory/store.go. The long-term
-- memory is a parameter with its own state, so are the summarizer, the test against the threshold,
-- which multiplies floating-point numbers, the parts of an entry that only this code reads, and the
-- order in which Go ranges over the set of tags.
pub mod Outcome
pub mod Idle
mod Tests
use Prim.Native.String.{slice}
use kyoci_agent.Prelude.{
  ℕ, zero, suc, ◌+◌, ◌-◌, ◌/◌, String, len, str_append, str_eq, Bool, true, false, not, Option,
  none, some, List, [], ◌∷◌, ◌++◌, any, ◌==◌, leb, ltb, if◌then◌else◌, length, keep,
}
use kyoci_agent.Prelude.Int.{ℤ, pos, int_leb, int_half}
use kyoci_agent.Prelude.Text.{itoa}
use kyoci_agent.Memory.ShortTerm.{
  MemoryEntry, ShortTermMemory, add, delete, get_recent, get_all_entries, token_count,
  estimate_tokens,
}

pub record CompactorStats : Type 0 where
  pub entries_compacted : ℕ
  pub tokens_saved : ℕ

abbrev pub no_stats : CompactorStats
no_stats = record { entries_compacted = 0; tokens_saved = 0 }

abbrev pub saved_tokens : List MemoryEntry → ℕ
saved_tokens [] = 0
saved_tokens (e ∷ es) = estimate_tokens e.content + saved_tokens es

pub record Outside : Type 1 where
  pub LongTerm : Type 0
  -- LongTermMemory.Store, and whether it succeeds.
  pub store : LongTerm → String → List (String × String) → LongTerm × Bool
  pub metadata_of : MemoryEntry → List (String × String)
  pub tags_of : MemoryEntry → List String
  pub tag_order : List String → List String
  -- currentTokens > threshold * maxTokens
  pub over_threshold : ℕ → ℤ → Bool
  -- The installed summarizer; `none` inside stands for its error.
  pub summarizer : Option (List MemoryEntry → Option String)

abbrev pub is_kept : List MemoryEntry → MemoryEntry → Bool
is_kept recent e = any (λ r. str_eq r.id e.id) recent

-- The entries whose id is not one of the recent entries'.
unfoldable pub entries_to_compact : List MemoryEntry → List MemoryEntry → List MemoryEntry
entries_to_compact recent all_entries = keep (λ e. not (is_kept recent e)) all_entries

unfoldable pub truncate_string : String → ℕ → String
truncate_string s max_len = if leb (len s) max_len then s else str_append (slice s 0 max_len) "..."

-- The lines for the first five entries, from index i on, and one for the others.
unfoldable pub summary_lines : ℕ → ℕ → List MemoryEntry → String
unfolding truncate_string itoa
summary_lines n i [] = ""
summary_lines n i (e ∷ es) =
    let rest = summary_lines n (suc i) es in
    if leb 5 i
    then str_append "... and " (str_append (itoa (n - 5)) " more messages\n")
    else str_append "[" (
        str_append (itoa (suc i))
          (str_append "] " (str_append (truncate_string e.content 200) (str_append "\n" rest))))

unfoldable pub join_tags : List String → String
join_tags [] = ""
join_tags (t ∷ []) = t
join_tags (t ∷ u ∷ ts) = str_append t (str_append ", " (join_tags (u ∷ ts)))

module _ (o : Outside) where
  open o use {LongTerm, store, metadata_of, tags_of, tag_order, over_threshold, summarizer}

  pub all_tags : List MemoryEntry → List String
  all_tags [] = []
  all_tags (e ∷ es) = tags_of e ++ all_tags es

  -- Each tag once, in the order of the map.
  unfoldable pub collect_tags : List MemoryEntry → List String
  unfolding all_tags
  collect_tags es = tag_order (all_tags es)

  abbrev pub tag_hint : List String → String
  tag_hint [] = ""
  tag_hint (t ∷ ts) = str_append " Tags: " (join_tags (t ∷ ts))

  unfoldable pub legacy_summary : List MemoryEntry → String
  unfolding summary_lines itoa join_tags collect_tags
  legacy_summary es = str_append "Summary of " (
      str_append (itoa (length es)) (
        str_append " compacted messages:\n" (
          str_append (summary_lines (length es) 0 es)
            (str_append "\nMetadata:" (tag_hint (collect_tags es))))))

  -- `none` stands for an error.
  unfoldable pub generate_summary : List MemoryEntry → Option String
  unfolding legacy_summary
  generate_summary [] = some ""
  generate_summary (e ∷ es) = elim summarizer [
    | none ↦ some (legacy_summary (e ∷ es))
    | some f ↦ f (e ∷ es)
  ]

  unfoldable pub should_trigger : ShortTermMemory → Bool
  unfolding token_count
  should_trigger stm = elim stm.max_tokens [
    | pos zero ↦ false
    | other ↦ over_threshold (token_count stm) other
  ]

  -- The fallback: each entry by itself.
  unfoldable pub store_each :
      List MemoryEntry → LongTerm → CompactorStats → LongTerm × CompactorStats
  unfolding estimate_tokens
  store_each [] ltm stats = (ltm, stats)
  store_each (e ∷ es) ltm stats =
      let (ltm', stored) = store ltm e.content (metadata_of e) in
      store_each es ltm' (
        if stored
        then record {
          entries_compacted = suc stats.entries_compacted;
          tokens_saved = stats.tokens_saved + estimate_tokens e.content;
        }
        else stats)

  unfoldable pub store_summary : String → List MemoryEntry → LongTerm → LongTerm × CompactorStats
  unfolding itoa
  store_summary summary es ltm =
      let (ltm', stored) =
        store ltm summary (("compacted", "true") ∷ ("entry_count", itoa (length es)) ∷ []) in
      (
        ltm',
        if stored
            then record { entries_compacted = length es; tokens_saved = saved_tokens es }
            else no_stats,
      )

  unfoldable pub store_compacted :
      Option String → List MemoryEntry → LongTerm → LongTerm × CompactorStats
  unfolding store_each store_summary
  store_compacted none es ltm = store_each es ltm no_stats
  store_compacted (some summary) es ltm =
      if str_eq summary "" then (ltm, no_stats) else store_summary summary es ltm

  unfoldable pub delete_all : List MemoryEntry → ShortTermMemory → ShortTermMemory
  delete_all [] stm = stm
  delete_all (e ∷ es) stm = delete_all es (delete stm e.id).0

  unfoldable pub compact_entries :
      List MemoryEntry → ShortTermMemory → LongTerm → ShortTermMemory × LongTerm × CompactorStats
  unfolding generate_summary store_compacted delete_all
  compact_entries [] stm ltm = (stm, ltm, no_stats)
  compact_entries (e ∷ es) stm ltm =
      let (ltm', stats) = store_compacted (generate_summary (e ∷ es)) (e ∷ es) ltm in
      (delete_all (e ∷ es) stm, ltm', stats)

  unfoldable pub compact :
      ShortTermMemory → LongTerm → ℤ → ShortTermMemory × LongTerm × CompactorStats
  unfolding compact_entries entries_to_compact token_count get_recent get_all_entries
  compact stm ltm max_tokens =
      if int_leb (pos (token_count stm)) max_tokens
      then (stm, ltm, no_stats)
      else compact_entries
          (entries_to_compact (get_recent stm (int_half max_tokens)) (get_all_entries stm)) stm ltm

  -- The case of a short-term entry in MemoryManager.Store, with the configured budget.
  unfoldable pub store_short_term :
      ℤ → ShortTermMemory → LongTerm → MemoryEntry → ShortTermMemory × LongTerm
  unfolding should_trigger compact
  store_short_term max_tokens stm ltm e =
      let stm' = add stm e in
      let (compacted, ltm', stats) = compact stm' ltm max_tokens in
      if should_trigger stm' then (compacted, ltm') else (stm', ltm)

  unfoldable pub compact_if_needed :
      ℤ → Bool → ShortTermMemory → LongTerm → ShortTermMemory × LongTerm
  unfolding should_trigger compact
  compact_if_needed max_tokens closed stm ltm =
      let (compacted, ltm', stats) = compact stm ltm (int_half max_tokens) in
      if closed then (stm, ltm) else if should_trigger stm then (compacted, ltm') else (stm, ltm)

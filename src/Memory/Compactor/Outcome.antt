-- ===== src/Memory/Compactor/Outcome.antt =====
-- What a compaction (internal/memory/compactor.go) leaves in the short-term memory, what it writes to
-- the long-term memory, and what it reports.
use kyoci_agent.Prelude.{
  zero, suc, ◌+◌, ◌-◌, ◌≡◌, refl, sym, ap, subst, ◌∙◌, String, str_eq, str_eq_refl, Bool, true,
  false, not, ◌||◌, Bool-cases, inl, inr, if◌then◌else◌, Option, none, some, map, List, [], ◌∷◌,
  ◌++◌, any, any-intro, length, keep, keep-append, keep_none, keep-All, All, All-intro,
  take-append-drop, arith,
}
use mathlib.Core.List.{append-nil}
use kyoci_agent.Prelude.Int.{ℤ, pos, negsuc, int_leb, int_half}
use kyoci_agent.Prelude.Text.{itoa}
use kyoci_agent.Memory.ShortTerm.{
  MemoryEntry, ShortTermMemory, delete, remove_first, get_recent, get_all_entries, token_count,
  estimate_tokens,
}
use kyoci_agent.Memory.ShortTerm.Budget.{IsConsistent, total_tokens, delete-IsConsistent}
use kyoci_agent.Memory.Compactor.{
  Outside, CompactorStats, no_stats, saved_tokens, store_each, store_summary, store_compacted,
  generate_summary, compact, compact_entries, delete_all, entries_to_compact, is_kept,
}

-- No id occurs twice.
abbrev pub DistinctIds : List MemoryEntry → Type 0
DistinctIds [] = Unit
DistinctIds (e ∷ es) = (is_kept es e ≡ false) × DistinctIds es

any-append :
    (p : MemoryEntry → Bool) (xs ys : List MemoryEntry) → any p (xs ++ ys) ≡ any p xs || any p ys
any-append p [] ys = refl
any-append p (x ∷ xs) ys = ground (arith, any-append p xs ys)

front-not_kept :
    (front recent : List MemoryEntry)
    → DistinctIds (front ++ recent)
    → All (λ e. not (is_kept recent e) ≡ true) front
front-not_kept [] recent h = tt
front-not_kept (e ∷ front) recent h = (
  ground (arith, h.0, any-append (λ r. str_eq r.id e.id) front recent),
  front-not_kept front recent h.1,
)

recent-kept : (recent : List MemoryEntry) → All (λ e. not (is_kept recent e) ≡ false) recent
recent-kept recent =
    All-intro _ recent (λ e m. ap not (any-intro (λ r. str_eq r.id e.id) m (str_eq_refl e.id)))

to_compact-front :
    (front recent : List MemoryEntry)
    → DistinctIds (front ++ recent)
    → entries_to_compact recent (front ++ recent) ≡ front
unfolding entries_to_compact
to_compact-front front recent h =
    let p = λ (e : MemoryEntry). not (is_kept recent e) in
    keep-append p front recent
    ∙ ap (λ es. es ++ keep p recent) (keep-All p front (front-not_kept front recent h))
    ∙ ap (λ es. front ++ es) (keep_none p recent (recent-kept recent))
    ∙ append-nil front

remove_first_head :
    (e : MemoryEntry) (es : List MemoryEntry)
    → remove_first e.id (e ∷ es) ≡ (es, estimate_tokens e.content, true)
unfolding remove_first
remove_first_head e es = rw (str_eq_refl e.id) refl

delete_first :
    (stm : ShortTermMemory) (e : MemoryEntry) (es : List MemoryEntry)
    → stm.entries ≡ e ∷ es
    → (delete stm e.id).0.entries ≡ es
unfolding delete
delete_first stm e es h =
    let found = ap (remove_first e.id) h ∙ remove_first_head e es in rw found refl

get_recent_suffix :
    (stm : ShortTermMemory) (n : ℤ)
    → (front : List MemoryEntry) × (stm.entries ≡ front ++ get_recent stm n)
unfolding get_recent
get_recent_suffix stm (negsuc n) = (stm.entries, sym (append-nil stm.entries))
get_recent_suffix stm (pos zero) = (stm.entries, sym (append-nil stm.entries))
get_recent_suffix stm (pos (suc n)) =
    (_, sym (take-append-drop (length stm.entries - suc n) stm.entries))

module _ (o : Outside) where
  delete_all-front :
      (front recent : List MemoryEntry) (stm : ShortTermMemory)
      → stm.entries ≡ front ++ recent
      → (delete_all o front stm).entries ≡ recent
  unfolding delete_all
  delete_all-front [] recent stm h = h
  delete_all-front (e ∷ front) recent stm h =
      delete_all-front front recent (delete stm e.id).0 (delete_first stm e (front ++ recent) h)

  delete_all-IsConsistent :
      (front : List MemoryEntry) (stm : ShortTermMemory)
      → IsConsistent stm
      → IsConsistent (delete_all o front stm)
  unfolding delete_all
  delete_all-IsConsistent [] stm h = h
  delete_all-IsConsistent (e ∷ front) stm h =
      delete_all-IsConsistent front (delete stm e.id).0 (delete-IsConsistent stm e.id h)

  open o use {LongTerm}

  compact_entries-front :
      (front recent : List MemoryEntry) (stm : ShortTermMemory) (ltm : LongTerm)
      → stm.entries ≡ front ++ recent
      → IsConsistent stm
      → ((compact_entries o front stm ltm).0.entries ≡ recent)
        × IsConsistent (compact_entries o front stm ltm).0
  unfolding compact_entries
  compact_entries-front [] recent stm ltm e h = (e, h)
  compact_entries-front (d ∷ front) recent stm ltm e h =
      (delete_all-front (d ∷ front) recent stm e, delete_all-IsConsistent (d ∷ front) stm h)

  -- What a compaction of some entries writes to the long-term memory, for the summarizer's answer: each
  -- entry after an error, nothing for an empty summary, otherwise the summary.
  abbrev pub writes : Option String → List MemoryEntry → List (String × List (String × String))
  writes none es = map (λ e. (e.content, o.metadata_of e)) es
  writes (some summary) es =
      if str_eq summary ""
      then []
      else (summary, ("compacted", "true") ∷ ("entry_count", itoa (length es)) ∷ []) ∷ []

  -- The writes in turn, those that fail included.
  abbrev pub write_all : List (String × List (String × String)) → LongTerm → LongTerm
  write_all [] ltm = ltm
  write_all ((text, metadata) ∷ ws) ltm = write_all ws (o.store ltm text metadata).0

  -- The entries that the long-term memory takes one by one.
  abbrev pub taken : List MemoryEntry → LongTerm → List MemoryEntry
  taken [] ltm = []
  taken (e ∷ es) ltm =
      let (ltm', stored) = o.store ltm e.content (o.metadata_of e) in
      let rest = taken es ltm' in if stored then e ∷ rest else rest

  -- The entries that the long-term memory holds afterwards, by themselves or in a summary.
  abbrev pub reached : Option String → List MemoryEntry → LongTerm → List MemoryEntry
  reached none es ltm = taken es ltm
  reached (some summary) es ltm =
      if str_eq summary ""
      then []
      else if (o.store ltm summary
          (("compacted", "true") ∷ ("entry_count", itoa (length es)) ∷ [])).1
      then es
      else []

  abbrev pub stats_of : List MemoryEntry → CompactorStats
  stats_of es = record { entries_compacted = length es; tokens_saved = total_tokens es }

  store_each-taken :
      (es : List MemoryEntry) (ltm : LongTerm) (stats : CompactorStats)
      → store_each o es ltm stats ≡ (
        write_all (writes none es) ltm,
        record {
          entries_compacted = stats.entries_compacted + length (taken es ltm);
          tokens_saved = stats.tokens_saved + total_tokens (taken es ltm);
        },
      )
  unfolding store_each total_tokens
  store_each-taken [] ltm stats = ground arith
  store_each-taken (e ∷ es) ltm stats =
      elim (Bool-cases (o.store ltm e.content (o.metadata_of e)).1) [
        | inl stored ↦ rw (store_each, stored) (store_each-taken es _ _ ∙ ground arith)
        | inr lost ↦ rw (store_each, lost) (store_each-taken es _ stats)
      ]

  saved_tokens-total_tokens : (es : List MemoryEntry) → saved_tokens es ≡ total_tokens es
  unfolding total_tokens
  saved_tokens-total_tokens [] = refl
  saved_tokens-total_tokens (e ∷ es) =
      ap (λ n. estimate_tokens e.content + n) (saved_tokens-total_tokens es)

  store_compacted-reached :
      (answer : Option String) (es : List MemoryEntry) (ltm : LongTerm)
      → store_compacted o answer es ltm
        ≡ (write_all (writes answer es) ltm, stats_of (reached answer es ltm))
  unfolding store_compacted store_summary total_tokens
  store_compacted-reached none es ltm = store_each-taken es ltm no_stats ∙ ground arith
  store_compacted-reached (some summary) es ltm = ground (arith, saved_tokens-total_tokens es)

  compact_entries-reached :
      (es : List MemoryEntry) (stm : ShortTermMemory) (ltm : LongTerm)
      → let answer = generate_summary o es in
        ((compact_entries o es stm ltm).1 ≡ write_all (writes answer es) ltm)
        × ((compact_entries o es stm ltm).2 ≡ stats_of (reached answer es ltm))
  unfolding compact_entries generate_summary total_tokens
  compact_entries-reached [] stm ltm = (refl, refl)
  compact_entries-reached (e ∷ es) stm ltm =
      let same = store_compacted-reached (generate_summary o (e ∷ es)) (e ∷ es) ltm in
      (ap (λ r. r.0) same, ap (λ r. r.1) same)

  -- A compaction of a short-term memory that holds more tokens than asked for, and no id twice,
  -- leaves exactly the newest entries, as many as half the tokens asked for, and the token count is
  -- theirs. Of the older entries, it writes to the long-term memory the summary, or each one where the
  -- summarizer gave an error, or nothing where the summary is empty, and it reports the number and the
  -- tokens of those older entries that the long-term memory took: all or none with a summary, those that
  -- it stored otherwise. The older entries are gone from the short-term memory in every case.
  pub compact_outcome :
      (stm : ShortTermMemory) (ltm : LongTerm) (max_tokens : ℤ)
      → int_leb (pos stm.current_tokens) max_tokens ≡ false
      → IsConsistent stm
      → DistinctIds stm.entries
      → let recent = get_recent stm (int_half max_tokens) in
        let (left, ltm', stats) = compact o stm ltm max_tokens in
        (older : List MemoryEntry) × (stm.entries ≡ older ++ recent)
        × (left.entries ≡ recent)
        × (left.current_tokens ≡ total_tokens recent)
        × (ltm' ≡ write_all (writes (generate_summary o older) older) ltm)
        × (stats ≡ stats_of (reached (generate_summary o older) older ltm))
  unfolding compact get_all_entries token_count
  compact_outcome stm ltm max_tokens over h distinct =
      let recent = get_recent stm (int_half max_tokens) in
      let (front, split) = get_recent_suffix stm (int_half max_tokens) in
      let chosen : entries_to_compact recent stm.entries ≡ front =
        ap (entries_to_compact recent) split
        ∙ to_compact-front front recent (subst DistinctIds split distinct) in
      let (left, consistent) = compact_entries-front front recent stm ltm split h in
      let (written, reported) = compact_entries-reached front stm ltm in
      (
        front,
        split,
        rw (over, chosen) left,
        rw (over, chosen) (consistent.counted ∙ ap total_tokens left),
        rw (over, chosen) written,
        rw (over, chosen) reported,
      )

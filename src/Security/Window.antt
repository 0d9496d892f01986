-- ===== src/Security/Window.antt =====
-- The sliding window of RateLimit (internal/security/security.go) over a sequence of requests for one
-- key.
use kyoci_agent.Prelude.{
  ℕ, ◌+◌, ◌≤◌, ◌≡◌, refl, ap, ◌∙◌, inl, inr, Bool, ◌&&◌, List, [], ◌∷◌, ◌++◌, arith, Bool-cases,
  ltb, leb, if◌then◌else◌, keep, count, count-append, count_mono, count-keep, count-All,
  length-keep, All, All-mono, All-append,
}
use kyoci_agent.Security.{is_recent, admit}

-- An admission at `s` counts in the window that ends at `t`.
abbrev pub in_window : ℕ → ℕ → ℕ → Bool
in_window window t s = leb s t && ltb t (s + window)

-- No window holds more than the limit.
abbrev pub IsBounded : ℕ → ℕ → List ℕ → Type 0
IsBounded window limit admitted = (t : ℕ) → count (in_window window t) admitted ≤ limit

-- An entry stands for all admissions so far, for every clock from `now` on.
pub record Stands (window limit now : ℕ) (entry admitted : List ℕ) : Type 0 where
  pub past : All (λ s. s ≤ now) admitted
  pub same :
      (t : ℕ) → now ≤ t → count (is_recent window t) entry ≡ count (is_recent window t) admitted
  pub bounded : IsBounded window limit admitted

module _ (window limit : ℕ) where
  -- What was admitted after a request.
  abbrev pub after : ℕ → List ℕ → List ℕ → List ℕ
  after now entry admitted =
      if (admit window limit now entry).0 then admitted ++ now ∷ [] else admitted

  recent_lt :
      (now : ℕ) (entry : List ℕ)
      → (admit window limit now entry).0 ≡ ltb (count (is_recent window now) entry) limit
  unfolding admit
  recent_lt now entry = ground (arith, length-keep (is_recent window now) entry)

  pub admit_exact :
      (last now : ℕ) (entry admitted : List ℕ)
      → Stands window limit last entry admitted
      → last ≤ now
      → (admit window limit now entry).0 ≡ ltb (count (in_window window now) admitted) limit
  admit_exact last now entry admitted h le =
      rw (recent_lt now entry, h.same now le)
        (ap (λ n. ltb n limit)
          (count-All (is_recent window now) (in_window window now) admitted (
            All-mono (λ s. s ≤ last) (λ s. is_recent window now s ≡ in_window window now s) admitted
              (λ s p. ground arith) h.past)))

  module _ (last now : ℕ) (entry admitted : List ℕ) (h : Stands window limit last entry admitted)
      (le : last ≤ now) where
    past_after : All (λ s. s ≤ now) (after now entry admitted)
    past_after =
        let before : All (λ s. s ≤ now) admitted =
          All-mono (λ s. s ≤ last) (λ s. s ≤ now) admitted (λ s p. omega arith) h.past in
        elim (Bool-cases (admit window limit now entry).0) [
          | inl e ↦ rw e (All-append (λ s. s ≤ now) admitted (now ∷ []) before (omega arith, tt))
          | inr e ↦ rw e before
        ]

    recent_after :
        (t : ℕ)
        → now ≤ t
        → count (is_recent window t) (keep (is_recent window now) entry)
          ≡ count (is_recent window t) admitted
    recent_after t later =
        count-keep (is_recent window t) (is_recent window now) entry (λ s p. ground arith)
        ∙ h.same t (omega arith)

    same_after :
        (t : ℕ)
        → now ≤ t
        → count (is_recent window t) (admit window limit now entry).1
          ≡ count (is_recent window t) (after now entry admitted)
    unfolding admit
    same_after t later = ground (
      arith,
      recent_after t later,
      count-append (is_recent window t) (keep (is_recent window now) entry) (now ∷ []),
      count-append (is_recent window t) admitted (now ∷ []),
    )

    -- An admission leaves the windows before it alone and fits into those after it.
    IsBounded-after : IsBounded window limit (after now entry admitted)
    IsBounded-after t = ground (
      arith,
      h.bounded t,
      recent_lt now entry,
      h.same now le,
      count-append (in_window window t) admitted (now ∷ []),
      (λ (later : now ≤ t). count-All-le t later),
    )
      where
        count-All-le :
            (t : ℕ)
            → now ≤ t
            → count (in_window window t) admitted ≤ count (is_recent window now) admitted
        count-All-le t later =
            count_mono (in_window window t) (is_recent window now) admitted (λ s p. ground arith)

    pub admit-Stands :
        Stands window limit now (admit window limit now entry).1 (after now entry admitted)
    admit-Stands = record { past = past_after; same = same_after; bounded = IsBounded-after }

    -- Requests for other keys let time pass.
    pub wait-Stands : Stands window limit now entry admitted
    wait-Stands = record {
      past = All-mono (λ s. s ≤ last) (λ s. s ≤ now) admitted (λ s p. omega arith) h.past;
      same = λ t later. h.same t (omega arith);
      bounded = h.bounded;
    }

  pub start-Stands : Stands window limit 0 [] []
  start-Stands = record { past = tt; same = λ t later. refl; bounded = λ t. omega arith }

-- ===== src/Indexer/Chunk/Entries.antt =====
-- The documents that an entry is split into.
use any.Common.{
  ℕ, suc, ◌+◌, ◌-◌, ◌/◌, ◌≤◌, max, true, false, not, ◌&&◌, List, [], ◌∷◌, length, length-append,
  is_nil, ◌==◌, ltb, leb, if◌then◌else◌, if_cases, ◌≡◌, ◌≢◌, refl, arith, Bool-cases, inl, inr, All,
}
use any.Strings.{has_prefix}
use any.Indexer.Chunk.{
  Entry, DocUpsert, default_chunk_runes, clamped_title, upserts_from, expand_entry, split_text,
}
use any.Indexer.Chunk.Pieces.{split_text-IsSplit, length-take-le}

-- Documents of one record that are numbered from `i` on, with texts of at most `bound` runes.
module _ {L : Type 0} where
  abbrev pub AreChunks : Entry L → ℕ → ℕ → List (DocUpsert L) → Type 0
  AreChunks e bound i [] = Unit
  AreChunks e bound i (d ∷ ds) =
      (d.chunk ≡ i)
      × (d.entry ≡ record e { text = d.entry.text })
      × (length d.entry.text ≤ bound)
      × AreChunks e bound (suc i) ds

  -- behind the first chunk, a title goes in front of each
  upserts_from-AreChunks :
      (e : Entry L) (title : List ℕ) (bound budget i : ℕ) (pieces : List (List ℕ))
      → All (λ p. length p ≤ budget) pieces
      → budget ≤ bound
      → (is_nil title ≡ false → length title + 1 + budget ≤ bound)
      → AreChunks e bound i (upserts_from e title i pieces)
  unfolding upserts_from
  upserts_from-AreChunks e title bound budget i [] fits b t = tt
  upserts_from-AreChunks e title bound budget i (p ∷ pieces) (f, fits) b t = (
    refl,
    refl,
    if_cases (λ (s : List ℕ). length s ≤ bound)
        (ltb 0 i && not (is_nil title) && not (has_prefix title p)) _ _
        (λ h. omega (arith, length-append title (10 ∷ p), t (ground arith))) (λ h. omega arith),
    upserts_from-AreChunks e title bound budget (suc i) pieces fits b t,
  )

  one_chunk :
      (e : Entry L) (title : List ℕ) (bound : ℕ)
      → length e.text ≤ bound
      → AreChunks e bound 0 (upserts_from e title 0 (split_text e.text bound))
  unfolding split_text upserts_from
  one_chunk e title bound h = rw (within e.text bound h) (refl, refl, h, tt)
    where
      within :
          (text : List ℕ) (bound : ℕ)
          → length text ≤ bound
          → leb (length text) (if ltb bound 1 then 1 else bound) ≡ true
      within text bound h = ground arith

  chunks_of :
      (e : Entry L) (title : List ℕ) (bound : ℕ)
      → 1 ≤ bound
      → bound ≢ 2
      → length title ≤ bound / 2
      → AreChunks e bound 0 (
          upserts_from e title 0 (
            split_text e.text (
              if not (is_nil title) && ltb bound (length e.text)
              then max (bound - length title - 1) 1
              else bound)))
  chunks_of e title bound low no_two half =
      if_cases (λ (b : ℕ). AreChunks e bound 0 (upserts_from e title 0 (split_text e.text b)))
        (not (is_nil title) && ltb bound (length e.text)) _ _
        (λ h.
          let budget = max (bound - length title - 1) 1 in
          let filled = filled_length title (ground arith) in
          upserts_from-AreChunks e title bound (max budget 1) 0 (split_text e.text budget)
            (split_text-IsSplit e.text budget).fits (omega arith) (λ _. omega arith))
        (λ h. elim (Bool-cases (ltb bound (length e.text))) [
          | inr short ↦ one_chunk e title bound (ground arith)
          | inl long ↦
              upserts_from-AreChunks e title bound (max bound 1) 0 (split_text e.text bound)
                (split_text-IsSplit e.text bound).fits (omega arith) (λ filled. ground arith)
        ])
    where
      filled_length : (title : List ℕ) → is_nil title ≡ false → 1 ≤ length title
      filled_length [] h = cc
      filled_length (c ∷ title) h = omega arith

  -- expandEntry gives the documents of the entry's record, numbered from 0 on, whose texts have at most
  -- as many runes as asked for, the title in front of the later ones included, or 2000 for a bound of 0.
  -- A bound of 2 is left out, where the title has no room.
  pub expand_entry-AreChunks :
      (e : Entry L) (max_runes : ℕ)
      → max_runes ≢ 2
      → AreChunks e
          (if max_runes == 0 then default_chunk_runes else max_runes)
          0
          (expand_entry e max_runes)
  unfolding expand_entry
  expand_entry-AreChunks e max_runes no_two =
      let bound = if max_runes == 0 then default_chunk_runes else max_runes in
      if_cases (AreChunks e bound 0) (is_nil e.text) _ _ (λ h. tt)
        (λ h. chunks_of e (clamped_title bound e.title) bound (ground arith) (ground arith) (
          if_cases (λ (t : List ℕ). length t ≤ bound / 2) (ltb (bound / 2) (length e.title)) _ _
            (λ k. length-take-le (bound / 2) e.title) (λ k. ground arith)))

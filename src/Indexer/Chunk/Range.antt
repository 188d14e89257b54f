-- ===== src/Indexer/Chunk/Range.antt =====
-- The ids of a record's documents: a range that no other record's documents are in.
use any.Common.{
  ℕ, ◌<◌, Bool, true, not, ◌&&◌, [], ◌∷◌, ◌++◌, append-nil, Bytes, length, take, ◌==◌,
  if◌then◌else◌, if_cases, ◌≡◌, ◌↔◌, refl, sym, ap, ap₂, arith, Bool-cases, inl, inr, All, none,
  some,
}
use any.Strings.{bytes_lt, index, has_prefix}
use any.Indexer.Chunk.{chunk_sep, record_range_end, itoa, chunk_doc_id, record_base, record_upper}

-- The bytes of a record's id sort behind those that end its range.
abbrev pub IsBase : Bytes → Type 0
IsBase = All (λ c. record_range_end < c)

abbrev pub in_range : Bytes → Bytes → Bool
in_range base id = not (bytes_lt id base) && bytes_lt id (record_upper base)

abbrev suffix : ℕ → Bytes
suffix n = if n == 0 then [] else chunk_sep ∷ itoa n

chunk_doc_id-suffix : (base : Bytes) (n : ℕ) → chunk_doc_id base n ≡ base ++ suffix n
unfolding chunk_doc_id
chunk_doc_id-suffix base n = elim (Bool-cases (n == 0)) [
  | inl e ↦ rw e (sym (append-nil base))
  | inr e ↦ rw e refl
]

-- a suffix begins below the end of the range
in_own_range : (base : Bytes) (n : ℕ) → in_range base (base ++ suffix n) ≡ true
unfolding bytes_lt
in_own_range [] n = elim (Bool-cases (n == 0)) [ inl e ↦ rw e refl | inr e ↦ rw e refl ]
in_own_range (b ∷ base) n = ground (arith, in_own_range base n)

same_of_range :
    (base other : Bytes) (n : ℕ)
    → IsBase base
    → IsBase other
    → in_range base (other ++ suffix n) ≡ true
    → other ≡ base
unfolding bytes_lt
same_of_range [] [] n hb ho h = refl
same_of_range [] (c ∷ other) n hb (hc, ho) h = absurd (ground (arith, hc))
same_of_range (b ∷ base) [] n (hb, hs) ho h = elim (Bool-cases (n == 0)) [
  | inl e ↦ absurd (ground (arith, e, h, hb))
  | inr e ↦ absurd (ground (arith, e, h, hb))
]
same_of_range (b ∷ base) (c ∷ other) n (hb, hs) (hc, ho) h = elim (Bool-cases (c == b)) [
  | inl e ↦
      let rest = same_of_range base other n hs ho (ground arith) in
      let first : c ≡ b = ground arith in ap₂ ◌∷◌ first rest
  | inr e ↦ absurd (ground arith)
]

index_of_sep :
    (base rest : Bytes)
    → IsBase base
    → index (base ++ chunk_sep ∷ rest) (chunk_sep ∷ []) ≡ some (length base)
unfolding index has_prefix
index_of_sep [] rest h = ground arith
index_of_sep (c ∷ base) rest (hc, h) = ground (arith, index_of_sep base rest h)

no_index : (base : Bytes) → IsBase base → index base (chunk_sep ∷ []) ≡ none
unfolding index has_prefix
no_index [] h = refl
no_index (c ∷ base) (hc, h) = ground (arith, no_index base h)

take-length : (s t : Bytes) → take (length s) (s ++ t) ≡ s
take-length [] t = refl
take-length (c ∷ s) t = ap (λ (r : Bytes). c ∷ r) (take-length s t)

record_base-chunk_doc_id :
    (base : Bytes) (n : ℕ) → IsBase base → record_base (chunk_doc_id base n) ≡ base
unfolding record_base
record_base-chunk_doc_id base n h = rw (chunk_doc_id-suffix base n) (
    if_cases
      (λ (s : Bytes).
        (elim (index (base ++ s) (chunk_sep ∷ [])) [
          | none ↦ base ++ s
          | some i ↦ take i (base ++ s)
        ])
        ≡ base)
      (n == 0) _ _ (λ e. rw (append-nil base, no_index base h) (append-nil base))
      (λ e. rw (index_of_sep base (itoa n) h) (take-length base (chunk_sep ∷ itoa n))))

-- For record ids of bytes above the space: the document of a chunk is in the range of a record just if
-- the chunk is of this record, and recordBase gives its record back.
pub chunk_doc_id-in_range :
    (base other : Bytes) (n : ℕ)
    → IsBase base
    → IsBase other
    → ((in_range base (chunk_doc_id other n) ≡ true) ↔ (other ≡ base))
      × (record_base (chunk_doc_id other n) ≡ other)
chunk_doc_id-in_range base other n hb ho = (
  rw (chunk_doc_id-suffix other n)
      (same_of_range base other n hb ho, λ e. rw e (in_own_range base n)),
  record_base-chunk_doc_id other n ho,
)

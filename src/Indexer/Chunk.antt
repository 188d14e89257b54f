-- ===== src/Indexer/Chunk.antt =====
-- internal/indexer/chunk.go: a long record is split into several documents of the index. A document id
-- is its bytes; a text is its runes, so that the length of the list is the rune count. The proofs are in
-- the modules below.
pub mod Pieces
pub mod Entries
pub mod Range
use any.Common.{
  ℕ, zero, suc, ◌+◌, ◌-◌, ◌/◌, ◌%◌, max, Bool, true, false, not, ◌&&◌, ◌||◌, List, [], ◌∷◌, ◌++◌,
  Option, none, some, Bytes, codes, length, take, drop, get_elem?, is_nil, ◌==◌, ltb, leb,
  if◌then◌else◌,
}
use any.Strings.{eq_bytes, is_empty, index, has_prefix, trim_right}

-- chunkSep
abbrev pub chunk_sep : ℕ
chunk_sep = 31

-- recordRangeEnd
abbrev pub record_range_end : ℕ
record_range_end = 32

abbrev pub default_chunk_runes : ℕ
default_chunk_runes = 2000

-- strconv.Itoa of a number that is not negative; `fuel` is above the number of its digits
unfoldable pub digits_onto : ℕ → ℕ → Bytes → Bytes
digits_onto zero n digits = digits
digits_onto (suc fuel) n digits =
    let digits' = (48 + n % 10) ∷ digits in
    let more = digits_onto fuel (n / 10) digits' in if ltb n 10 then digits' else more

abbrev pub itoa : ℕ → Bytes
itoa n = digits_onto (suc n) n []

unfoldable pub chunk_doc_id : Bytes → ℕ → Bytes
unfolding digits_onto
chunk_doc_id base n = if n == 0 then base else base ++ chunk_sep ∷ itoa n

-- id[:i] at the first separator, or the whole id
unfoldable pub record_base : Bytes → Bytes
unfolding index
record_base id = elim (index id (chunk_sep ∷ [])) [ none ↦ id | some i ↦ take i id ]

abbrev pub record_upper : Bytes → Bytes
record_upper base = base ++ record_range_end ∷ []

-- unicode.IsSpace
abbrev pub is_space : ℕ → Bool
is_space r =
    leb 9 r && leb r 13
    || r == 32
    || r == 133
    || r == 160
    || r == 5760
    || leb 8192 r && leb r 8202
    || r == 8232
    || r == 8233
    || r == 8239
    || r == 8287
    || r == 12288

-- strings.TrimSpace
unfoldable pub trim_left : (ℕ → Bool) → List ℕ → List ℕ
trim_left drops [] = []
trim_left drops (c ∷ s) = if drops c then trim_left drops s else c ∷ s

unfoldable pub trim_space : List ℕ → List ℕ
unfolding trim_left
trim_space s = trim_right is_space (trim_left is_space s)

-- the closure `best`: how far a scan down from `i - 1` to `half` cuts
unfoldable pub best : (ℕ → Bool) → ℕ → ℕ → Option ℕ
best ok half zero = none
best ok half (suc i) =
    let rest = best ok half i in if ltb i half then none else if ok i then some (suc i) else rest

-- window[i] is a rune that `test` accepts
abbrev pub at : List ℕ → (ℕ → Bool) → ℕ → Bool
at window test i = elim (get_elem? window i) [ none ↦ false | some r ↦ test r ]

abbrev pub is_line_break : ℕ → Bool
is_line_break r = r == 10

abbrev pub is_sentence_end : ℕ → Bool
is_sentence_end r = r == b'.' || r == b'!' || r == b'?'

-- the four tests of breakPoint, in their order
abbrev pub blank_line_at : List ℕ → ℕ → Bool
blank_line_at window i = at window is_line_break i && ltb 0 i && at window is_line_break (i - 1)

abbrev pub sentence_end_at : List ℕ → ℕ → Bool
sentence_end_at window i = at window is_sentence_end i && at window is_space (i + 1)

abbrev pub or_else : Option ℕ → ℕ → ℕ
or_else none other = other
or_else (some i) other = i

unfoldable pub break_point : List ℕ → ℕ
unfolding best
break_point window =
    let len = length window in
    let half = len / 2 in
    or_else (best (blank_line_at window) half len) (
      or_else (best (at window is_line_break) half len) (
        or_else (best (sentence_end_at window) half len)
          (or_else (best (at window is_space) half len) len)))

-- a trimmed piece in front of those behind it, if it is not empty
abbrev pub add_piece : List ℕ → List (List ℕ) → List (List ℕ)
add_piece piece out = if is_nil piece then out else piece ∷ out

-- the loop of splitText; a round takes a rune of `rest` at least, so that fuel for each is enough
unfoldable pub split_loop : ℕ → ℕ → List ℕ → List (List ℕ)
unfolding break_point trim_space
split_loop zero max_runes rest = add_piece (trim_space rest) []
split_loop (suc fuel) max_runes rest =
    let stop = break_point (take max_runes rest) in
    let out = split_loop fuel max_runes (drop stop rest) in
    if ltb max_runes (length rest)
    then add_piece (trim_space (take stop rest)) out
    else add_piece (trim_space rest) []

unfoldable pub split_text : List ℕ → ℕ → List (List ℕ)
unfolding split_loop
split_text text max_runes =
    let max_runes' = if ltb max_runes 1 then 1 else max_runes in
    if leb (length text) max_runes' then text ∷ [] else split_loop (length text) max_runes' text

-- the struct index.IndexEntry, whose links are carried along
pub record Entry (L : Type 0) : Type 0 where
  pub scope : Bytes
  pub object_id : Bytes
  pub dataset : Bytes
  pub record_id : Bytes
  pub text : List ℕ
  pub title : List ℕ
  pub apply_seq : ℕ
  pub links : List L

-- the struct DocUpsert without its vector, which is filled in later
pub record DocUpsert (L : Type 0) : Type 0 where
  pub entry : Entry L
  pub chunk : ℕ

-- the title of the chunks, of at most half the bound
abbrev pub clamped_title : ℕ → List ℕ → List ℕ
clamped_title max_runes title =
    let half = max_runes / 2 in if ltb half (length title) then take half title else title

module _ {L : Type 0} where
  -- the loop over the pieces, from the i-th on
  unfoldable pub upserts_from : Entry L → List ℕ → ℕ → List (List ℕ) → List (DocUpsert L)
  unfolding has_prefix
  upserts_from e title i [] = []
  upserts_from e title i (p ∷ pieces) =
      let titled =
        if ltb 0 i && not (is_nil title) && not (has_prefix title p) then title ++ 10 ∷ p else p in
      record { entry = record e { text = titled }; chunk = i } ∷ upserts_from e title (suc i) pieces

  -- expandEntry, where a bound of 0 is one that is not positive
  unfoldable pub expand_entry : Entry L → ℕ → List (DocUpsert L)
  unfolding upserts_from
  expand_entry e max_runes =
      let bound = if max_runes == 0 then default_chunk_runes else max_runes in
      let title = clamped_title bound e.title in
      let budget =
        if not (is_nil title) && ltb bound (length e.text)
        then max (bound - length title - 1) 1
        else bound in
      if is_nil e.text then [] else upserts_from e title 0 (split_text e.text budget)

-- ===== src/Markdown/Edits.antt =====
-- internal/markdown/match.go: edits as replacements of matched text. A function `nfkc` stands for
-- norm.NFKC.String. The proofs are in the modules below.
pub mod Found
pub mod Pieces
pub mod Fuel
use any.Common.{
  ℕ, zero, suc, ◌+◌, ◌-◌, min, Bool, true, false, not, ◌&&◌, ◌||◌, List, [], ◌∷◌, ◌++◌, Option,
  none, some, Bytes, codes, is_nil, length, take, drop, ◌==◌, ltb, leb, if◌then◌else◌,
}
use any.Strings
use any.Strings.{eq_bytes, is_empty, cut_suffix, has_prefix, index, replace_byte, trim_right}
use any.Markdown.Lines.{run_length, is_blank, space_or_tab}

-- the struct Edit
pub record Edit : Type 0 where
  pub old_text : Bytes
  pub new_text : Bytes
  pub replace_all : Bool

-- the errors: an empty text, NoMatchError, AmbiguousMatchError and OverlapError
pub data EditError : Type 0 where
  empty_text : ℕ → EditError
  no_match : ℕ → EditError
  ambiguous : ℕ → ℕ → EditError
  overlap : ℕ → ℕ → EditError

pub data Outcome {ℓ} (A : Type ℓ) : Type ℓ where
  resolved : A → Outcome A
  failed : EditError → Outcome A

-- the struct span
pub record Span : Type 0 where
  pub start : ℕ
  pub stop : ℕ
  pub new_text : Bytes
  pub edit : ℕ

abbrev pub line_feed : ℕ
line_feed = 10

abbrev pub carriage_return : ℕ
carriage_return = 13

abbrev begins_line_feed : Bytes → Bool
begins_line_feed [] = false
begins_line_feed (c ∷ _) = c == line_feed

-- strings.ReplaceAll(s, "\r\n", "\n")
crlf_to_lf : Bytes → Bytes
crlf_to_lf [] = []
crlf_to_lf (c ∷ s) =
    let rest = crlf_to_lf s in if c == carriage_return && begins_line_feed s then rest else c ∷ rest

unfoldable pub normalize_lf : Bytes → Bytes
unfolding crlf_to_lf
normalize_lf s = replace_byte carriage_return line_feed (crlf_to_lf s)

-- at > 0 and content[at-1] == '\n', for as long
unfoldable pub count_newlines_before : Bytes → ℕ → ℕ
count_newlines_before content zero = 0
count_newlines_before content (suc at) =
    let before = count_newlines_before content at in
    if begins_line_feed (drop at content) then suc before else 0

unfoldable pub count_newlines_after : Bytes → ℕ → ℕ
count_newlines_after content at = run_length line_feed (drop at content)

-- how many of the newlines around a deleted block go with it, of `left` and `right`
unfoldable pub newlines_wanted : Bytes → ℕ → ℕ → ℕ → ℕ
newlines_wanted content stop left right =
    let want = if right == 0 && stop == length content then 1 else 2 in
    if ltb (left + right) want then left + right else want

unfoldable pub widen_block_deletion : Bytes → ℕ → ℕ → ℕ × ℕ
widen_block_deletion content start stop =
    let left = count_newlines_before content start in
    let right = count_newlines_after content stop in
    let at_block_start = start == 0 || leb 2 left in
    let at_block_end = stop == length content || leb 2 right || stop + right == length content in
    let want = newlines_wanted content stop left right in
    let from_left = min want left in
    if not at_block_start || not at_block_end
    then (start, stop)
    else (start - from_left, stop + (want - from_left))

-- The loop of exactMatches, on the offset and the text from there on. A round passes over the match,
-- so that the length of the text is enough fuel for a text that is searched and not empty.
unfoldable pub exact_loop : ℕ → ℕ → Bytes → Bytes → List (ℕ × ℕ)
exact_loop zero from rest old = []
exact_loop (suc f) from rest old = elim (index rest old) [
  | none ↦ []
  | some i ↦
      (from + i, from + i + length old)
      ∷ exact_loop f (from + i + length old) (drop (i + length old) rest) old
]

unfoldable pub exact_matches : Bytes → Bytes → List (ℕ × ℕ)
exact_matches content old = exact_loop (length content) 0 content old

-- the pairs of fuzzyReplacer: three bytes of UTF-8 each but the last
abbrev replacements : List (Bytes × ℕ)
replacements =
    ((0xe2 ∷ 0x80 ∷ 0x98 ∷ []), b'\'')
    ∷ ((0xe2 ∷ 0x80 ∷ 0x99 ∷ []), b'\'')
    ∷ ((0xe2 ∷ 0x80 ∷ 0x9a ∷ []), b'\'')
    ∷ ((0xe2 ∷ 0x80 ∷ 0x9b ∷ []), b'\'')
    ∷ ((0xe2 ∷ 0x80 ∷ 0x9c ∷ []), 34)
    ∷ ((0xe2 ∷ 0x80 ∷ 0x9d ∷ []), 34)
    ∷ ((0xe2 ∷ 0x80 ∷ 0x9e ∷ []), 34)
    ∷ ((0xe2 ∷ 0x80 ∷ 0x90 ∷ []), b'-')
    ∷ ((0xe2 ∷ 0x80 ∷ 0x91 ∷ []), b'-')
    ∷ ((0xe2 ∷ 0x80 ∷ 0x92 ∷ []), b'-')
    ∷ ((0xe2 ∷ 0x80 ∷ 0x93 ∷ []), b'-')
    ∷ ((0xe2 ∷ 0x80 ∷ 0x94 ∷ []), b'-')
    ∷ ((0xe2 ∷ 0x88 ∷ 0x92 ∷ []), b'-')
    ∷ ((0xc2 ∷ 0xa0 ∷ []), b' ')
    ∷ []

-- the first pair whose old text begins the text
replacement_at : List (Bytes × ℕ) → Bytes → Option (Bytes × ℕ)
replacement_at [] s = none
replacement_at ((old, new) ∷ pairs) s =
    let later = replacement_at pairs s in if has_prefix old s then some (old, new) else later

-- fuzzyReplacer.Replace; `skip` bytes of a text replaced are still to be passed
replace_loop : ℕ → Bytes → Bytes
replace_loop skip [] = []
replace_loop (suc skip) (c ∷ s) = replace_loop skip s
replace_loop zero (c ∷ s) = elim (replacement_at replacements (c ∷ s)) [
  | none ↦ c ∷ replace_loop zero s
  | some (old, new) ↦ new ∷ replace_loop (length old - 1) s
]

-- the lines with the offsets at which they start
unfoldable pub numbered : ℕ → Bytes → List Bytes → List (ℕ × Bytes)
numbered off l [] = (off, l) ∷ []
numbered off l (next ∷ ls) = (off, l) ∷ numbered (off + length l + 1) next ls

abbrev trim_line_feed : Bytes → Bytes
trim_line_feed s = elim (cut_suffix s (line_feed ∷ [])) [ none ↦ s | some r ↦ r ]

module _ (nfkc : Bytes → Bytes) where
  unfoldable pub normalize_fuzzy_line : Bytes → Bytes
  unfolding replace_loop replacement_at
  normalize_fuzzy_line s = trim_right space_or_tab (replace_loop 0 (nfkc s))

  normalize_all : List Bytes → List Bytes
  normalize_all [] = []
  normalize_all (l ∷ ls) = normalize_fuzzy_line l ∷ normalize_all ls

  -- The lines from here on against those searched: where the last one ends, and the lines behind.
  unfoldable pub fuzzy_at : List Bytes → List (ℕ × Bytes) → Option (ℕ × List (ℕ × Bytes))
  fuzzy_at [] ls = none
  fuzzy_at (o ∷ os) [] = none
  fuzzy_at (o ∷ []) ((start, l) ∷ ls) =
      if eq_bytes (normalize_fuzzy_line l) o then some (start + length l, ls) else none
  fuzzy_at (o ∷ o' ∷ os) ((start, l) ∷ ls) =
      let rest = fuzzy_at (o' ∷ os) ls in if eq_bytes (normalize_fuzzy_line l) o then rest else none

  -- A round takes a line, so that the number of lines is enough fuel.
  unfoldable pub fuzzy_loop : ℕ → List Bytes → List (ℕ × Bytes) → List (ℕ × ℕ)
  fuzzy_loop zero os ls = []
  fuzzy_loop (suc f) os [] = []
  fuzzy_loop (suc f) os ((start, l) ∷ ls) = elim (fuzzy_at os ((start, l) ∷ ls)) [
    | none ↦ fuzzy_loop f os ls
    | some (stop, rest) ↦ (start, stop) ∷ fuzzy_loop f os rest
  ]

  unfoldable pub fuzzy_matches : Bytes → Bytes → List (ℕ × ℕ)
  unfolding normalize_all
  fuzzy_matches content old =
      let (l, ls) = Strings.split line_feed content in
      let (o, os) = Strings.split line_feed (trim_line_feed old) in
      let lines = numbered 0 l ls in
      if is_blank old then [] else fuzzy_loop (length lines) (normalize_all (o ∷ os)) lines

  -- the exact matches, or else the fuzzy ones
  unfoldable pub matches_of : Bytes → Bytes → List (ℕ × ℕ)
  matches_of content old =
      let exact = exact_matches content old in
      if not (is_nil exact) then exact else fuzzy_matches content old

unfoldable pub span_of : Bytes → Bytes → ℕ → ℕ × ℕ → Span
span_of content new i (start, stop) =
    let (start', stop') = widen_block_deletion content start stop in
    if is_empty new
    then record { start = start'; stop = stop'; new_text = new; edit = i }
    else record { start = start; stop = stop; new_text = new; edit = i }

unfoldable pub spans_of : Bytes → Bytes → ℕ → List (ℕ × ℕ) → List Span
spans_of content new i [] = []
spans_of content new i (m ∷ ms) = span_of content new i m ∷ spans_of content new i ms

-- sort.Slice by start and end
span_lt : Span → Span → Bool
span_lt a b =
    if ltb a.start b.start then true else if ltb b.start a.start then false else ltb a.stop b.stop

unfoldable pub insert_span : Span → List Span → List Span
unfolding span_lt
insert_span s [] = s ∷ []
insert_span s (t ∷ ts) = if span_lt t s then t ∷ insert_span s ts else s ∷ t ∷ ts

unfoldable pub sort_spans : List Span → List Span
sort_spans [] = []
sort_spans (s ∷ ss) = insert_span s (sort_spans ss)

-- the first two neighbours that overlap
unfoldable pub overlap_behind : Span → List Span → Option (ℕ × ℕ)
overlap_behind prev [] = none
overlap_behind prev (s ∷ ss) =
    let later = overlap_behind s ss in
    if ltb s.start prev.stop then some (prev.edit, s.edit) else later

unfoldable pub check_overlaps : List Span → Outcome (List Span)
check_overlaps [] = resolved []
check_overlaps (s ∷ ss) = elim (overlap_behind s ss) [
  | none ↦ resolved (s ∷ ss)
  | some (a, b) ↦ failed (overlap a b)
]

-- out[:s.start] + s.newText + out[s.end:], from the last span to the first
unfoldable pub apply_spans : Bytes → List Span → Bytes
apply_spans content [] = content
apply_spans content (s ∷ ss) =
    let out = apply_spans content ss in take s.start out ++ (s.new_text ++ drop s.stop out)

module _ (nfkc : Bytes → Bytes) where
  -- the loop over the edits, the `i`-th and those behind it
  unfoldable pub gather : Bytes → ℕ → List Edit → Outcome (List Span)
  gather content i [] = resolved []
  gather content i (e ∷ es) =
      let old = normalize_lf e.old_text in
      let found = matches_of nfkc content old in
      let spans = spans_of content (normalize_lf e.new_text) i found in
      let rest = gather content (i + 1) es in
      if is_empty old
      then failed (empty_text i)
      else if is_nil found
      then failed (no_match i)
      else if ltb 1 (length found) && not e.replace_all
      then failed (ambiguous i (length found))
      else elim rest [ resolved more ↦ resolved (spans ++ more) | failed error ↦ failed error ]

  unfoldable pub resolve_edits : Bytes → List Edit → Outcome (List Span)
  resolve_edits content edits = elim (gather content 0 edits) [
    | resolved all ↦ check_overlaps (sort_spans all)
    | failed error ↦ failed error
  ]

  unfoldable pub apply_edits : Bytes → List Edit → Outcome Bytes
  apply_edits content edits = elim (resolve_edits content edits) [
    | resolved spans ↦ resolved (apply_spans content spans)
    | failed error ↦ failed error
  ]

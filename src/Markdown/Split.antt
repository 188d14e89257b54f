-- ===== src/Markdown/Split.antt =====
-- internal/markdown/split.go and join.go: a document as blocks. A slice of the lines from an index on
-- is the list of what is left; a block is the lines that it takes. The proofs are in the modules below.
pub mod Items
pub mod Taken
pub mod Layout
use any.Common.{
  ℕ, zero, suc, ◌+◌, ◌-◌, Bool, true, false, not, ◌&&◌, ◌||◌, List, [], ◌∷◌, ◌++◌, Option, none,
  some, Bytes, is_nil, length, replicate, ◌==◌, ltb, leb, if◌then◌else◌,
}
use any.Strings
use any.Strings.{is_empty, trim_right}
use any.Markdown.Lines.{
  trim_leading_spaces, all_byte, space_or_tab, is_blank, is_atx_heading, is_setext_underline,
  fence_opener, is_fence_open, is_blockquote_line, list_item_marker, is_list_item_line,
  is_html_block_line, is_table_line, looks_like_any_opener, indent_columns, is_some,
}

abbrev pub newline : ℕ
newline = b'\n'

-- The lines of a block behind its first one, and the lines that are left.
pub record Rest : Type 0 where
  pub taken : List Bytes
  pub left : List Bytes

abbrev take_line : Bytes → Rest → Rest
take_line l r = record r { taken = l ∷ r.taken }

-- The longest run of lines that pass the test.
unfoldable pub run : (Bytes → Bool) → List Bytes → Rest
run test [] = record { taken = []; left = [] }
run test (l ∷ ls) =
    if test l then take_line l (run test ls) else record { taken = []; left = l ∷ ls }

-- Trailing blank lines go back to the document: the loops `for end > start+1 && isBlank(lines[end-1])`.
unfoldable pub drop_trailing_blanks : List Bytes → Rest
drop_trailing_blanks [] = record { taken = []; left = [] }
drop_trailing_blanks (l ∷ ls) =
    let r = drop_trailing_blanks ls in
    if is_nil r.taken && is_blank l then record { taken = []; left = l ∷ r.left } else take_line l r

-- whether a line closes the fence of `n` bytes `c`
unfoldable pub closes : ℕ → ℕ → Bytes → Bool
unfolding trim_right trim_leading_spaces all_byte
closes c n l =
    let t = trim_right space_or_tab (trim_leading_spaces 3 l) in leb n (length t) && all_byte t c

-- up to the closing fence and with it; `none` if there is none
to_closer : ℕ → ℕ → List Bytes → Option Rest
to_closer c n [] = none
to_closer c n (l ∷ ls) =
    let rest = to_closer c n ls in
    if closes c n l
    then some (record { taken = l ∷ []; left = ls })
    else elim rest [ none ↦ none | some r ↦ some (take_line l r) ]

or_unterminated : List Bytes → Option Rest → Rest
or_unterminated ls (some r) = r
or_unterminated ls none = drop_trailing_blanks ls

fence_rest : Option (ℕ × ℕ) → List Bytes → Rest
fence_rest none ls = record { taken = []; left = ls }
fence_rest (some (c, n)) ls = or_unterminated ls (to_closer c n ls)

-- consumeFence, on the first line and those behind it
unfoldable pub consume_fence : Bytes → List Bytes → Rest
unfolding fence_rest or_unterminated to_closer drop_trailing_blanks closes fence_opener
consume_fence l ls = fence_rest (fence_opener l) ls

unfoldable pub consume_blockquote : List Bytes → Rest
unfolding run is_blockquote_line
consume_blockquote = run is_blockquote_line

unfoldable pub consume_until_blank : List Bytes → Rest
unfolding run is_blank
consume_until_blank = run (λ l. not (is_blank l))

-- a line that a paragraph goes on with
unfoldable pub continues_paragraph : Bytes → Bool
continues_paragraph l =
    if is_blank l
    then false
    else not (
        is_atx_heading l
        || is_fence_open l
        || is_blockquote_line l
        || is_list_item_line l
        || is_html_block_line l
        || is_table_line l)

unfoldable pub consume_paragraph : List Bytes → Rest
unfolding run continues_paragraph
consume_paragraph = run continues_paragraph

-- whether a blank line is followed by a continuation
blank_continues : ℕ → List Bytes → Bool
blank_continues cont [] = false
blank_continues cont (l ∷ _) = leb cont (indent_columns l) && not (is_blank l)

-- whether the line belongs to the item whose continuation column is `cont`
item_continues : ℕ → Bytes → List Bytes → Bool
item_continues cont l ls =
    if is_blank l
    then blank_continues cont ls
    else if is_list_item_line l && ltb (indent_columns l) cont
    then false
    else leb cont (indent_columns l)

pub item_lines : ℕ → List Bytes → Rest
item_lines cont [] = record { taken = []; left = [] }
item_lines cont (l ∷ ls) =
    if item_continues cont l ls
    then take_line l (item_lines cont ls)
    else record { taken = []; left = l ∷ ls }

-- contIndent, which is 0 where there is no marker
continuation : Option ℕ → ℕ
continuation none = 0
continuation (some cont) = cont

-- consumeListItem, on the first line and those behind it
unfoldable pub consume_list_item : Bytes → List Bytes → Rest
unfolding item_lines item_continues blank_continues continuation drop_trailing_blanks
    list_item_marker
consume_list_item l ls =
    let r = item_lines (continuation (list_item_marker l)) ls in
    let kept = drop_trailing_blanks r.taken in
    record { taken = kept.taken; left = kept.left ++ r.left }

abbrev next_underlines : List Bytes → Bool
next_underlines [] = false
next_underlines (l ∷ _) = is_setext_underline l

abbrev with_next : List Bytes → Rest
with_next [] = record { taken = []; left = [] }
with_next (l ∷ ls) = record { taken = l ∷ []; left = ls }

-- the switch of Split at a line that is not blank
unfoldable pub consume : Bytes → List Bytes → Rest
unfolding consume_fence consume_blockquote consume_list_item consume_until_blank consume_paragraph
consume l ls =
    if is_fence_open l
    then consume_fence l ls
    else if is_atx_heading l
    then record { taken = []; left = ls }
    else if next_underlines ls && not (looks_like_any_opener l)
    then with_next ls
    else if is_blockquote_line l
    then consume_blockquote ls
    else if is_list_item_line l
    then consume_list_item l ls
    else if is_html_block_line l
    then consume_until_blank ls
    else if is_table_line l
    then consume_until_blank ls
    else consume_paragraph ls

-- how many empty entries a run of blank lines stands for
abbrev pub empties : ℕ → Bool → ℕ
empties n after_content = if after_content then n - 1 else n

-- appendEmpties
unfoldable pub append_empties : List Bytes → ℕ → Bool → List Bytes
append_empties out n after_content = out ++ replicate (empties n after_content) []

-- The loop of Split. Every round takes a line, so that the number of lines is enough fuel.
unfoldable pub split_loop : ℕ → List Bytes → List Bytes → ℕ → Bool → List Bytes
split_loop zero ls out blanks saw_content = append_empties out blanks false
split_loop (suc f) [] out blanks saw_content = append_empties out blanks false
split_loop (suc f) (l ∷ ls) out blanks saw_content =
    let skipped = split_loop f ls out (blanks + 1) saw_content in
    let r = consume l ls in
    let block = Strings.join newline l r.taken in
    let onward = split_loop f r.left (append_empties out blanks saw_content ++ block ∷ []) 0 true in
    if is_blank l then skipped else onward

-- l[:len(l)-1] where the line ends in a carriage return
strip_return : Bytes → Bytes
strip_return [] = []
strip_return (c ∷ []) = if c == b'\r' then [] else c ∷ []
strip_return (c ∷ d ∷ l) = c ∷ strip_return (d ∷ l)

strip_returns : List Bytes → List Bytes
strip_returns [] = []
strip_returns (l ∷ ls) = strip_return l ∷ strip_returns ls

-- a single empty line at the end is the terminator
drop_terminator : List Bytes → List Bytes
drop_terminator [] = []
drop_terminator (l ∷ []) = if is_empty l then [] else l ∷ []
drop_terminator (l ∷ m ∷ ls) = l ∷ drop_terminator (m ∷ ls)

unfoldable pub split_lines : Bytes → List Bytes
unfolding strip_return strip_returns drop_terminator Strings.split
split_lines s =
    let (first, others) = Strings.split newline s in
    drop_terminator (strip_returns (first ∷ others))

unfoldable pub split : Bytes → List Bytes
unfolding split_loop append_empties consume split_lines
split md =
    if is_empty md
    then []
    else let lines = split_lines md in split_loop (length lines) lines [] 0 false

-- Join behind the first content block: the rest of the entries, with the gap so far
join_loop : List Bytes → ℕ → Bytes
join_loop [] gap = if ltb 0 gap then replicate (gap + 1) newline else []
join_loop (block ∷ blocks) gap =
    if is_empty block
    then join_loop blocks (gap + 1)
    else newline ∷ newline ∷ (replicate gap newline ++ (block ++ join_loop blocks 0))

-- Join at the leading empty entries, of which `first` were passed
join_from : ℕ → List Bytes → Bytes
join_from first [] = replicate first newline
join_from first (block ∷ blocks) =
    if is_empty block
    then join_from (first + 1) blocks
    else replicate first newline ++ (block ++ join_loop blocks 0)

unfoldable pub join_blocks : List Bytes → Bytes
unfolding join_from join_loop
join_blocks blocks = join_from 0 blocks

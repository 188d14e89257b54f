-- ===== src/Markdown/Lines.antt =====
-- internal/markdown/split.go: the tests on single lines.
use any.Common.{
  ℕ, zero, suc, ◌+◌, ◌-◌, ◌%◌, Bool, true, false, not, ◌&&◌, ◌||◌, [], ◌∷◌, Option, none, some,
  Bytes, length, drop, ◌==◌, ltb, leb, if◌then◌else◌,
}
use any.Strings.{trim_right}

abbrev pub space_or_tab : ℕ → Bool
space_or_tab c = c == b' ' || c == b'\t'

-- trimLeadingSpaces(l, max)
unfoldable pub trim_leading_spaces : ℕ → Bytes → Bytes
trim_leading_spaces zero l = l
trim_leading_spaces (suc n) [] = []
trim_leading_spaces (suc n) (c ∷ l) = if c == b' ' then trim_leading_spaces n l else c ∷ l

-- for n < len(t) && t[n] == c
unfoldable pub run_length : ℕ → Bytes → ℕ
run_length c [] = 0
run_length c (x ∷ t) = if x == c then suc (run_length c t) else 0

unfoldable pub all_byte : Bytes → ℕ → Bool
all_byte [] c = true
all_byte (x ∷ s) c = if x == c then all_byte s c else false

unfoldable pub is_digit : ℕ → Bool
is_digit b = leb b'0' b && leb b b'9'

unfoldable pub is_ascii_letter : ℕ → Bool
is_ascii_letter b = leb b'a' b && leb b b'z' || leb b'A' b && leb b b'Z'

-- The white space of strings.TrimSpace, by the bytes of its UTF-8 forms.
ascii_space : ℕ → Bool
ascii_space c = leb 9 c && leb c 13 || c == 32

-- U+0085 and U+00A0
space_of_two : ℕ → ℕ → Bool
space_of_two a b = a == 0xc2 && (b == 0x85 || b == 0xa0)

-- U+1680, U+2000 to U+200A, U+2028, U+2029, U+202F, U+205F and U+3000
space_of_three : ℕ → ℕ → ℕ → Bool
space_of_three a b c =
    a == 0xe1 && b == 0x9a && c == 0x80
    || a == 0xe2 && b == 0x80 && (leb 0x80 c && leb c 0x8a || c == 0xa8 || c == 0xa9 || c == 0xaf)
    || a == 0xe2 && b == 0x81 && c == 0x9f
    || a == 0xe3 && b == 0x80 && c == 0x80

-- strings.TrimSpace(l) == ""
unfoldable pub is_blank : Bytes → Bool
unfolding ascii_space space_of_two space_of_three
is_blank [] = true
is_blank (a ∷ []) = ascii_space a
is_blank (a ∷ b ∷ []) =
    let behind_one = is_blank (b ∷ []) in if ascii_space a then behind_one else space_of_two a b
is_blank (a ∷ b ∷ c ∷ l) =
    let behind_one = is_blank (b ∷ c ∷ l) in
    let behind_two = is_blank (c ∷ l) in
    let behind_three = is_blank l in
    if ascii_space a
    then behind_one
    else if space_of_two a b
    then behind_two
    else if space_of_three a b c
    then behind_three
    else false

-- the end of the line, a space or a tab
abbrev pub ends_or_spaces : Bytes → Bool
ends_or_spaces [] = true
ends_or_spaces (c ∷ _) = space_or_tab c

abbrev pub begins_with : ℕ → Bytes → Bool
begins_with c [] = false
begins_with c (x ∷ _) = x == c

unfoldable pub is_atx_heading : Bytes → Bool
unfolding trim_leading_spaces run_length
is_atx_heading l =
    let t = trim_leading_spaces 3 l in
    let n = run_length b'#' t in
    if not (begins_with b'#' t)
    then false
    else if ltb n 1 || ltb 6 n
    then false
    else ends_or_spaces (drop n t)

underline_of : Bytes → Bool
underline_of [] = false
underline_of (c ∷ t) = if c == b'=' || c == b'-' then all_byte (c ∷ t) c else false

unfoldable pub is_setext_underline : Bytes → Bool
unfolding underline_of trim_right trim_leading_spaces all_byte
is_setext_underline l = underline_of (trim_right space_or_tab (trim_leading_spaces 3 l))

opener_of : Bytes → Option (ℕ × ℕ)
opener_of [] = none
opener_of (c ∷ t) =
    let n = run_length c (c ∷ t) in
    if ltb (length (c ∷ t)) 3
    then none
    else if not (c == b'`' || c == b'~')
    then none
    else if ltb n 3
    then none
    else some (c, n)

-- fenceOpener; the fence is its byte and its length
unfoldable pub fence_opener : Bytes → Option (ℕ × ℕ)
unfolding opener_of trim_leading_spaces run_length
fence_opener l = opener_of (trim_leading_spaces 3 l)

abbrev pub is_some {ℓ} : {A : Type ℓ} → Option A → Bool
is_some none = false
is_some (some _) = true

unfoldable pub is_fence_open : Bytes → Bool
unfolding fence_opener
is_fence_open l = is_some (fence_opener l)

unfoldable pub is_blockquote_line : Bytes → Bool
unfolding trim_leading_spaces
is_blockquote_line l = begins_with b'>' (trim_leading_spaces 3 l)

-- for leading < len(l) && leading < 4 && (a space or a tab): how many, within the bound
leading_blanks : ℕ → Bytes → ℕ
leading_blanks zero l = 0
leading_blanks (suc n) [] = 0
leading_blanks (suc n) (c ∷ l) = if space_or_tab c then suc (leading_blanks n l) else 0

-- how many digits, within the bound
leading_digits : ℕ → Bytes → ℕ
leading_digits zero l = 0
leading_digits (suc n) [] = 0
leading_digits (suc n) (c ∷ l) = if is_digit c then suc (leading_digits n l) else 0

-- the byte behind the digits: `.` or `)`, and then the end or a blank; `at` is its column
ordered_marker : ℕ → Bytes → Option ℕ
ordered_marker at [] = none
ordered_marker at (c ∷ l) =
    if not (c == b'.') && not (c == b')')
    then none
    else if ends_or_spaces l
    then some (at + 2)
    else none

marker_at : ℕ → Bytes → Option ℕ
marker_at leading [] = none
marker_at leading (c ∷ l) =
    let digits = leading_digits 9 (c ∷ l) in
    if c == b'-' || c == b'*' || c == b'+'
    then (if ends_or_spaces l then some (leading + 2) else none)
    else if not (is_digit c)
    then none
    else ordered_marker (leading + digits) (drop digits (c ∷ l))

-- listItemMarker: the column at which the item's continuation is expected
unfoldable pub list_item_marker : Bytes → Option ℕ
unfolding leading_blanks leading_digits ordered_marker marker_at is_digit
list_item_marker l = let leading = leading_blanks 4 l in marker_at leading (drop leading l)

unfoldable pub is_list_item_line : Bytes → Bool
unfolding list_item_marker
is_list_item_line l = is_some (list_item_marker l)

tag_of : Bytes → Bool
tag_of (a ∷ c ∷ _) =
    if not (a == b'<') then false else c == b'/' || c == b'!' || c == b'?' || is_ascii_letter c
tag_of _ = false

unfoldable pub is_html_block_line : Bytes → Bool
unfolding tag_of trim_leading_spaces is_ascii_letter
is_html_block_line l = tag_of (trim_leading_spaces 3 l)

unfoldable pub is_table_line : Bytes → Bool
unfolding trim_leading_spaces
is_table_line l = begins_with b'|' (trim_leading_spaces 3 l)

unfoldable pub looks_like_any_opener : Bytes → Bool
unfolding is_fence_open is_atx_heading is_blockquote_line is_list_item_line is_html_block_line
    is_table_line
looks_like_any_opener l =
    is_fence_open l
    || is_atx_heading l
    || is_blockquote_line l
    || is_list_item_line l
    || is_html_block_line l
    || is_table_line l

columns_from : ℕ → Bytes → ℕ
columns_from col [] = col
columns_from col (c ∷ l) =
    let wider = columns_from (if c == b' ' then col + 1 else col + (4 - col % 4)) l in
    if space_or_tab c then wider else col

unfoldable pub indent_columns : Bytes → ℕ
unfolding columns_from
indent_columns l = columns_from 0 l

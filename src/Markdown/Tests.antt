-- ===== src/Markdown/Tests.antt =====
-- Runs of Split and Join, and the theorems at concrete documents.
use any.Common.{arith, true, false, List, [], ◌∷◌, ◌++◌, Bytes, codes, ◌≡◌, refl}
use any.Strings.{index, has_prefix, replace_byte, join}
use any.Markdown.Lines.{
  is_fence_open, is_atx_heading, is_setext_underline, is_list_item_line, is_html_block_line,
  is_table_line, indent_columns,
}
use any.Markdown.Edits.{
  Edit, resolved, apply_edits, resolve_edits, gather, exact_matches, exact_loop, matches_of,
  span_of, spans_of, insert_span, sort_spans, overlap_behind, check_overlaps, apply_spans,
  normalize_lf, widen_block_deletion,
}
use any.Markdown.Edits.Fuel.{exact_loop_fuel}
use any.Markdown.Edits.Pieces.{Edited, apply_edits-Edited}
use any.Markdown.Split.{split, split_lines, join_blocks}
use any.Markdown.Split.Layout.{Layout, split-Layout}

abbrev document : Bytes
document =
    codes "# Title" ++ (10 ∷ 10 ∷ 10 ∷ (codes "- one" ++ (10 ∷ (codes "  two" ++ (10 ∷ [])))))

split-document :
    split document ≡ codes "# Title" ∷ [] ∷ (codes "- one" ++ (10 ∷ codes "  two")) ∷ []
unfolding split is_fence_open is_atx_heading is_setext_underline is_list_item_line
    is_html_block_line is_table_line indent_columns join
split-document = refl

-- two returns at the end of a line: the splitter takes one of them each time
returns_twice : split (join_blocks (split (codes "a" ++ (13 ∷ 13 ∷ [])))) ≡ codes "a" ∷ []
unfolding split join_blocks is_fence_open is_atx_heading is_setext_underline is_list_item_line
    is_html_block_line is_table_line indent_columns join
returns_twice = refl

returns_once : split (codes "a" ++ (13 ∷ 13 ∷ [])) ≡ (codes "a" ++ (13 ∷ [])) ∷ []
unfolding split is_fence_open is_atx_heading is_setext_underline is_list_item_line
    is_html_block_line is_table_line indent_columns join
returns_once = refl

split-Layout_example : Layout false (split_lines document) (split document)
split-Layout_example = split-Layout document refl

abbrev item : List Bytes
item = codes "  two" ∷ [] ∷ codes "end" ∷ []

abbrev edits : List Edit
edits =
    record { old_text = codes "two"; new_text = codes "2"; replace_all = true }
    ∷ record { old_text = codes "one"; new_text = codes "uno"; replace_all = false }
    ∷ []

abbrev counted : Bytes
counted = codes "one two two"

counted_edited : apply_edits (λ s. s) counted edits ≡ resolved (codes "uno 2 2")
unfolding apply_edits resolve_edits gather exact_matches exact_loop matches_of span_of spans_of
    insert_span sort_spans overlap_behind check_overlaps apply_spans normalize_lf index has_prefix
    replace_byte widen_block_deletion
counted_edited = refl

apply_edits-Edited_example : Edited counted (resolve_edits (λ s. s) counted edits) (codes "uno 2 2")
apply_edits-Edited_example =
    apply_edits-Edited (λ s. s) counted edits (codes "uno 2 2") counted_edited

exact_loop_fuel_example :
    exact_loop 11 0 counted (codes "two") ≡ exact_loop 40 0 counted (codes "two")
exact_loop_fuel_example =
    exact_loop_fuel 11 40 0 counted (codes "two") refl (omega arith) (omega arith)

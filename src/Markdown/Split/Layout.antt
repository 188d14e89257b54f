-- ===== src/Markdown/Split/Layout.antt =====
-- How Split lays a document out as blocks and empty paragraphs.
use any.Common.{
  subst, ℕ, zero, suc, ◌+◌, ◌≤◌, Bool, true, false, List, [], ◌∷◌, ◌++◌, Bytes, length,
  length-append, replicate, All-append, ◌≡◌, refl, ap, ◌∙◌, arith, Bool-cases, inl, inr, append-nil,
  append_assoc,
}
use mathlib.Core.Path.{subst₂}
use any.Strings
use any.Strings.{is_empty}
use any.Markdown.Lines.{is_blank}
use any.Markdown.Split.{newline, consume, empties, append_empties, split_loop, split_lines, split}
use any.Markdown.Split.Taken.{AllPass, IsBlock, consume-Takes}

-- The lines of a document and its entries: runs of blank lines stand for empty entries, one fewer if
-- a block stands before the run and another behind it, and between them stand the blocks. The flag
-- says whether a block stands before.
pub data Layout : Bool → List Bytes → List Bytes → Type 0 where
  edge :
      {after_content : Bool} {lines entries : List Bytes}
      → AllPass is_blank lines
      → entries ≡ replicate (length lines) []
      → Layout after_content lines entries
  block :
      {after_content : Bool} {lines entries : List Bytes} (blanks : List Bytes) (l : Bytes)
      (taken left rest : List Bytes)
      → AllPass is_blank blanks
      → is_blank l ≡ false
      → IsBlock l taken left
      → Layout true left rest
      → lines ≡ blanks ++ (l ∷ (taken ++ left))
      → entries
        ≡ replicate (empties (length blanks) after_content) []
          ++ (Strings.join newline l taken ∷ rest)
      → Layout after_content lines entries

-- what the loop has written, and what it adds
abbrev Adds : List Bytes → Bool → List Bytes → List Bytes → Type 0
Adds out after_content lines result =
    (entries : List Bytes) × Layout after_content lines entries × (result ≡ out ++ entries)

length-concat : (blanks : List Bytes) (l : Bytes) → length (blanks ++ l ∷ []) ≡ length blanks + 1
length-concat blanks l = omega (arith, length-append blanks (l ∷ []))

Adds-edge :
    (out blanks : List Bytes) (after_content : Bool)
    → AllPass is_blank blanks
    → Adds out after_content (blanks ++ []) (append_empties out (length blanks) false)
unfolding append_empties
Adds-edge out blanks after_content h =
    rw append-nil (replicate (length blanks) [], edge h refl, refl)

Adds-block :
    (out blanks taken left result : List Bytes) (l : Bytes) (after_content : Bool)
    → AllPass is_blank blanks
    → is_blank l ≡ false
    → IsBlock l taken left
    → Adds
        (append_empties out (length blanks) after_content ++ Strings.join newline l taken ∷ [])
        true
        left
        result
    → Adds out after_content (blanks ++ (l ∷ (taken ++ left))) result
unfolding append_empties
Adds-block out blanks taken left result l after_content h nb b (entries, layout, e) = (
  replicate (empties (length blanks) after_content) [] ++ (Strings.join newline l taken ∷ entries),
  block blanks l taken left entries h nb b layout refl refl,
  e ∙ simp append_assoc,
)

split_loop-Adds :
    (f : ℕ) (ls out blanks : List Bytes) (after_content : Bool)
    → length ls ≤ f
    → AllPass is_blank blanks
    → Adds out after_content (blanks ++ ls) (split_loop f ls out (length blanks) after_content)
unfolding split_loop
split_loop-Adds zero [] out blanks s hf h = Adds-edge out blanks s h
split_loop-Adds zero (l ∷ ls) out blanks s hf h = absurd (omega arith)
split_loop-Adds (suc f) [] out blanks s hf h = Adds-edge out blanks s h
split_loop-Adds (suc f) (l ∷ ls) out blanks s hf h = elim (Bool-cases (is_blank l)) [
  | inl e ↦
      let next =
        split_loop-Adds f ls out (blanks ++ l ∷ []) s (omega arith)
          (All-append (λ x. is_blank x ≡ true) blanks (l ∷ []) h (e, tt)) in
      rw e (
        subst₂ (λ (x : List Bytes) (n : ℕ). Adds out s x (split_loop f ls out n s))
          (append_assoc blanks (l ∷ []) ls) (length-concat blanks l) next)
  | inr e ↦
      let t = consume-Takes l ls in
      let r = consume l ls in
      let shorter : length r.left ≤ f =
        omega (arith, length-append r.taken r.left, ap length t.whole) in
      let out' = append_empties out (length blanks) s ++ Strings.join newline l r.taken ∷ [] in
      rw e (
        subst (λ (x : List Bytes). Adds out s (blanks ++ (l ∷ x)) (split_loop f r.left out' 0 true))
          t.whole
          (Adds-block out blanks r.taken r.left _ l s h e t.block
            (split_loop-Adds f r.left out' [] true shorter tt)))
]

-- Split of a text that is not empty lays its lines out as blocks and empty paragraphs, up to the last
-- line.
pub split-Layout : (md : Bytes) → is_empty md ≡ false → Layout false (split_lines md) (split md)
unfolding split
split-Layout [] h = cc
split-Layout (c ∷ md) h =
    let lines = split_lines (c ∷ md) in
    let (entries, layout, e) = split_loop-Adds (length lines) lines [] [] false (omega arith) tt in
    rw e layout

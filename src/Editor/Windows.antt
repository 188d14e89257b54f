-- ===== src/Editor/Windows.antt =====
-- internal/editor/window.go: the windows of blocks that the index sees. The proofs are in the module
-- below.
pub mod Groups
use any.Common.{
  ℕ, ◌+◌, Bool, true, false, not, ◌&&◌, ◌||◌, List, [], ◌∷◌, ◌++◌, Option, none, some, Bytes, codes,
  length, ltb, leb, ◌==◌, if◌then◌else◌,
}
use any.Strings.{eq_bytes, is_empty}

-- windowBudgetBytes
abbrev pub window_budget : ℕ
window_budget = 1500

-- the struct Block, of which the windows read these
pub record Block : Type 0 where
  pub id : Bytes
  pub type : Bytes
  pub text : Bytes

-- the struct Window
pub record Window : Type 0 where
  pub anchor_id : Bytes
  pub block_ids : List Bytes
  pub text : Bytes
  pub title : Bytes

-- b.Type == TypeHeading
abbrev pub is_heading : Block → Bool
is_heading b = eq_bytes b.type (codes "heading")

-- the encodings of white space, of one, two and three bytes
abbrev space_1 : ℕ → Bool
space_1 a = leb 9 a && leb a 13 || a == 32

abbrev space_2 : ℕ → ℕ → Bool
space_2 a b = a == 194 && (b == 133 || b == 160)

abbrev space_3 : ℕ → ℕ → ℕ → Bool
space_3 a b c =
    a == 225 && b == 154 && c == 128
    || a == 226 && b == 128 && (leb 128 c && leb c 138 || c == 168 || c == 169 || c == 175)
    || a == 226 && b == 129 && c == 159
    || a == 227 && b == 128 && c == 128

-- strings.TrimSpace(s) == ""
unfoldable pub is_blank : Bytes → Bool
is_blank [] = true
is_blank (a ∷ []) = space_1 a
is_blank (a ∷ b ∷ []) = space_1 a && is_blank (b ∷ []) || space_2 a b
is_blank (a ∷ b ∷ c ∷ s) =
    space_1 a && is_blank (b ∷ c ∷ s)
    || space_2 a b && is_blank (c ∷ s)
    || space_3 a b c && is_blank s

-- the window that a block opens
abbrev pub opened : Block → Window
opened b = record {
  anchor_id = b.id;
  block_ids = [];
  text = [];
  title = if is_heading b then b.text else [];
}

-- the block comes in, behind a line break if there is text before
abbrev pub extended : Window → Block → Window
extended w b = record w {
  block_ids = w.block_ids ++ b.id ∷ [];
  text =
      if not (is_empty b.text)
      then (if not (is_empty w.text) then w.text ++ 10 ∷ b.text else w.text ++ b.text)
      else w.text;
}

-- the closure `flush` on a window, where `out` are the windows behind it
abbrev pub flushed : Window → List Window → List Window
flushed w out = if not (is_blank w.text) then w ∷ out else out

-- whether a window that was started ends before the block
abbrev pub breaks : Window → Block → Bool
breaks w b = is_heading b || ltb window_budget (length w.text + length b.text + 1)

-- the loop with a window started, and with none
unfoldable pub windows_from : Window → List Block → List Window
unfolding is_blank
windows_from w [] = flushed w []
windows_from w (b ∷ ordered) =
    let next = windows_from (extended (opened b) b) ordered in
    let same = windows_from (extended w b) ordered in if breaks w b then flushed w next else same

unfoldable pub windows : List Block → List Window
unfolding windows_from
windows [] = []
windows (b ∷ ordered) = windows_from (extended (opened b) b) ordered

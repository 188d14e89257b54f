-- ===== src/Markdown/Split/Items.antt =====
-- Which lines a list item takes.
use any.Common.{
  subst, ◌≤◌, ◌<◌, ℕ, true, false, List, [], ◌∷◌, ◌++◌, Bytes, ◌≡◌, ◌⊎◌, inl, inr, refl, sym, arith,
  Bool-cases,
}
use any.Markdown.Lines.{is_blank, indent_columns}
use any.Markdown.Split.{drop_trailing_blanks, item_lines, item_continues, blank_continues}

-- The line stands in the item whose content starts at the column `cont`.
abbrev pub Continues : ℕ → Bytes → Type 0
Continues cont l = (is_blank l ≡ false) × (cont ≤ indent_columns l)

-- the lines of an item: each continues it, or is blank before one that does
abbrev pub ItemLines : ℕ → List Bytes → Type 0
ItemLines cont [] = Unit
ItemLines cont (l ∷ []) = Continues cont l
ItemLines cont (l ∷ m ∷ ls) =
    (Continues cont l ⊎ ((is_blank l ≡ true) × Continues cont m)) × ItemLines cont (m ∷ ls)

-- The first line ends the item: it is indented less, or it is blank and the next one is blank too, is
-- indented less, or is not there.
abbrev pub ItemStops : ℕ → List Bytes → Type 0
ItemStops cont [] = Unit
ItemStops cont (l ∷ []) = (is_blank l ≡ true) ⊎ ((is_blank l ≡ false) × (indent_columns l < cont))
ItemStops cont (l ∷ m ∷ ls) =
    ((is_blank l ≡ true) × ((is_blank m ≡ true) ⊎ (indent_columns m < cont)))
    ⊎ ((is_blank l ≡ false) × (indent_columns l < cont))

pub item_whole :
    (cont : ℕ) (ls : List Bytes) → (item_lines cont ls).taken ++ (item_lines cont ls).left ≡ ls
unfolding item_lines
item_whole cont [] = refl
item_whole cont (l ∷ ls) = ground (arith, item_whole cont ls)

module _ (cont : ℕ) where
  ItemLines-cons :
      (l : Bytes) (taken : List Bytes)
      → Continues cont l
      → ItemLines cont taken
      → ItemLines cont (l ∷ taken)
  ItemLines-cons l [] c h = c
  ItemLines-cons l (m ∷ taken) c h = (inl c, h)

  head_taken :
      (m : Bytes) (ls : List Bytes)
      → item_continues cont m ls ≡ true
      → (item_lines cont (m ∷ ls)).taken ≡ m ∷ (item_lines cont ls).taken
  unfolding item_lines
  head_taken m ls e = rw e refl

  blank_taken :
      (l : Bytes) (ls : List Bytes)
      → is_blank l ≡ true
      → blank_continues cont ls ≡ true
      → ItemLines cont (item_lines cont ls).taken
      → ItemLines cont (l ∷ (item_lines cont ls).taken)
  unfolding blank_continues item_continues
  blank_taken l [] b e h = cc
  blank_taken l (m ∷ ls) b e h =
      let filled : is_blank m ≡ false = ground (arith, e) in
      let far : cont ≤ indent_columns m = ground (arith, e) in
      let taken = head_taken m ls (ground (arith, e, filled)) in
      subst (λ (x : List Bytes). ItemLines cont (l ∷ x)) (sym taken)
        (inr (b, (filled, far)), subst (ItemLines cont) taken h)

  pub item_lines-ItemLines : (ls : List Bytes) → ItemLines cont (item_lines cont ls).taken
  unfolding item_lines item_continues
  item_lines-ItemLines [] = tt
  item_lines-ItemLines (l ∷ ls) = elim (Bool-cases (item_continues cont l ls)) [
    | inr e ↦ rw e (tt {0})
    | inl e ↦ rw e (elim (Bool-cases (is_blank l)) [
      | inl b ↦ blank_taken l ls b (ground (arith, e, b)) (item_lines-ItemLines ls)
      | inr b ↦
          ItemLines-cons l (item_lines cont ls).taken (b, ground (arith, e, b))
            (item_lines-ItemLines ls)
    ])
  ]

  stopped :
      (l : Bytes) (ls : List Bytes) → item_continues cont l ls ≡ false → ItemStops cont (l ∷ ls)
  unfolding item_continues blank_continues
  stopped l [] e = elim (Bool-cases (is_blank l)) [
    | inl b ↦ inl b
    | inr b ↦ inr (b, ground (arith, e, b))
  ]
  stopped l (m ∷ ls) e = elim (Bool-cases (is_blank l)) [
    | inr b ↦ inr (b, ground (arith, e, b))
    | inl b ↦ elim (Bool-cases (is_blank m)) [
      | inl k ↦ inl (b, inl k)
      | inr k ↦ inl (b, inr (ground (arith, e, b, k)))
    ]
  ]

  pub item_lines-ItemStops : (ls : List Bytes) → ItemStops cont (item_lines cont ls).left
  unfolding item_lines
  item_lines-ItemStops [] = tt
  item_lines-ItemStops (l ∷ ls) = elim (Bool-cases (item_continues cont l ls)) [
    | inl e ↦ rw e (item_lines-ItemStops ls)
    | inr e ↦ rw e (stopped l ls e)
  ]

  -- The lines of an item end with one that is not blank, so that there is no blank to drop.
  pub drop_none :
      (ls : List Bytes)
      → ItemLines cont ls
      → drop_trailing_blanks ls ≡ record { taken = ls; left = [] }
  unfolding drop_trailing_blanks
  drop_none [] h = refl
  drop_none (l ∷ []) h = rw h.0 refl
  drop_none (l ∷ m ∷ ls) h = rw (drop_none (m ∷ ls) h.1) refl

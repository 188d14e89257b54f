-- ===== src/Editor/Windows/Groups.antt =====
-- The windows are those of runs of blocks that the document falls into.
use any.Common.{
  ◌≤◌, Bool, true, false, not, ◌&&◌, List, [], ◌∷◌, ◌++◌, append-nil, append_assoc, Bytes, length,
  length-append, is_nil, if◌then◌else◌, if_cases, ◌≡◌, refl, sym, ap, ap₂, ◌∙◌, inl, inr, arith,
  Bool-cases, subst, All,
}
use any.Strings.{is_empty, join}
use any.Editor.Windows.{
  Block, Window, window_budget, is_heading, opened, extended, flushed, breaks, windows_from,
  windows,
}

-- the texts of blocks that are not empty, and these joined by line breaks
abbrev pub texts : List Block → List Bytes
texts [] = []
texts (b ∷ bs) = if is_empty b.text then texts bs else b.text ∷ texts bs

abbrev pub joined : List Bytes → Bytes
joined [] = []
joined (t ∷ ts) = join 10 t ts

abbrev pub ids : List Block → List Bytes
ids [] = []
ids (b ∷ bs) = b.id ∷ ids bs

-- A run of blocks, of which there is a first.
pub record Group : Type 0 where
  pub first : Block
  pub others : List Block

abbrev pub blocks : Group → List Block
blocks g = g.first ∷ g.others

-- the window of a run, described apart from the loop
abbrev pub window_of : Group → Window
window_of g = record {
  anchor_id = g.first.id;
  block_ids = ids (blocks g);
  text = joined (texts (blocks g));
  title = if is_heading g.first then g.first.text else [];
}

abbrev pub no_heading : List Block → Bool
no_heading [] = true
no_heading (b ∷ bs) = not (is_heading b) && no_heading bs

-- A run has a heading at its begin only, and its text is in the budget unless it is one block.
pub record IsGroup (g : Group) : Type 0 where
  pub headed : no_heading g.others ≡ true
  pub within : is_nil g.others ≡ false → length (joined (texts (blocks g))) ≤ window_budget

-- the next run begins where a heading or the budget asks for it
abbrev pub Follows : Group → List Group → Type 0
Follows g [] = Unit
Follows g (next ∷ groups) = breaks (window_of g) next.first ≡ true

abbrev pub AreGroups : List Group → Type 0
AreGroups [] = Unit
AreGroups (g ∷ groups) = IsGroup g × Follows g groups × AreGroups groups

abbrev pub all_blocks : List Group → List Block
all_blocks [] = []
all_blocks (g ∷ groups) = blocks g ++ all_blocks groups

-- the windows of the runs that have text
abbrev pub filled_windows : List Group → List Window
filled_windows [] = []
filled_windows (g ∷ groups) = flushed (window_of g) (filled_windows groups)

texts-snoc : (bs : List Block) (b : Block) → texts (bs ++ b ∷ []) ≡ texts bs ++ texts (b ∷ [])
texts-snoc [] b = refl
texts-snoc (c ∷ bs) b = ground (arith, texts-snoc bs b)

ids-snoc : (bs : List Block) (b : Block) → ids (bs ++ b ∷ []) ≡ ids bs ++ b.id ∷ []
ids-snoc [] b = refl
ids-snoc (c ∷ bs) b = ap (λ (l : List Bytes). c.id ∷ l) (ids-snoc bs b)

join-snoc :
    (t : Bytes) (ts : List Bytes) (u : Bytes) → join 10 t (ts ++ u ∷ []) ≡ join 10 t ts ++ 10 ∷ u
unfolding join
join-snoc t [] u = refl
join-snoc t (s ∷ ts) u =
    ap (λ (r : Bytes). t ++ 10 ∷ r) (join-snoc s ts u)
    ∙ sym (append_assoc t (10 ∷ join 10 s ts) (10 ∷ u))

texts_filled : (bs : List Block) → All (λ t. is_empty t ≡ false) (texts bs)
texts_filled [] = tt
texts_filled (b ∷ bs) =
    if_cases (All (λ t. is_empty t ≡ false)) (is_empty b.text) _ _ (λ e. texts_filled bs)
      (λ e. (e, texts_filled bs))

join_filled : (t : Bytes) (ts : List Bytes) → is_empty t ≡ false → is_empty (join 10 t ts) ≡ false
unfolding join
join_filled [] ts h = cc
join_filled (c ∷ t) [] h = refl
join_filled (c ∷ t) (u ∷ ts) h = refl

joined-snoc :
    (ts : List Bytes) (u : Bytes)
    → All (λ t. is_empty t ≡ false) ts
    → joined (ts ++ u ∷ [])
      ≡ (if not (is_empty (joined ts)) then joined ts ++ 10 ∷ u else joined ts ++ u)
joined-snoc [] u h = unfold join in refl
joined-snoc (t ∷ ts) u (h, hs) = join-snoc t ts u ∙ sym (rw (join_filled t ts h) refl)

abbrev with_last : Group → Block → Group
with_last g b = record g { others = g.others ++ b ∷ [] }

extended_text :
    (bs : List Block) (b : Block)
    → (extended
        (record { anchor_id = []; block_ids = []; text = joined (texts bs); title = [] })
        b).text
      ≡ joined (texts (bs ++ b ∷ []))
extended_text bs b = elim (Bool-cases (is_empty b.text)) [
  | inl e ↦ rw (e, texts-snoc bs b, e, append-nil (texts bs))
  | inr e ↦ rw (e, texts-snoc bs b, e) (sym (joined-snoc (texts bs) b.text (texts_filled bs)))
]

extended_window : (g : Group) (b : Block) → extended (window_of g) b ≡ window_of (with_last g b)
extended_window g b =
    ap₂ (λ (i : List Bytes) (t : Bytes). record (window_of g) { block_ids = i; text = t })
      (sym (ids-snoc (blocks g) b)) (extended_text (blocks g) b)

abbrev alone : Block → Group
alone b = record { first = b; others = [] }

opened_window : (b : Block) → extended (opened b) b ≡ window_of (alone b)
opened_window b = elim (Bool-cases (is_empty b.text)) [
  | inl e ↦ rw e refl
  | inr e ↦ rw e (unfold join in refl)
]

alone-IsGroup : (b : Block) → IsGroup (alone b)
alone-IsGroup b = record { headed = refl; within = λ h. cc }

no_heading-snoc :
    (bs : List Block) (b : Block)
    → no_heading bs ≡ true
    → is_heading b ≡ false
    → no_heading (bs ++ b ∷ []) ≡ true
no_heading-snoc [] b h k = ground (arith, k)
no_heading-snoc (c ∷ bs) b h k = ground (arith, no_heading-snoc bs b)

length-extended :
    (w : Window) (b : Block) → breaks w b ≡ false → length (extended w b).text ≤ window_budget
length-extended w b h =
    ground (arith, h, length-append w.text b.text, length-append w.text (10 ∷ b.text))

with_last-IsGroup :
    (g : Group) (b : Block) → IsGroup g → breaks (window_of g) b ≡ false → IsGroup (with_last g b)
with_last-IsGroup g b inv h = record {
  headed = no_heading-snoc g.others b inv.headed (ground (arith, h));
  within = λ _.
      subst (λ (w : Window). length w.text ≤ window_budget) (extended_window g b)
        (length-extended (window_of g) b h);
}

-- The runs that a started run and the blocks behind it fall into.
record Runs (g : Group) (rest : List Block) (out : List Window) : Type 0 where
  first_run : Group
  later : List Group
  same_first : first_run.first ≡ g.first
  good : AreGroups (first_run ∷ later)
  whole : all_blocks (first_run ∷ later) ≡ blocks g ++ rest
  made : out ≡ filled_windows (first_run ∷ later)

windows_from-Runs :
    (g : Group) (ordered : List Block)
    → IsGroup g
    → Runs g ordered (windows_from (window_of g) ordered)
unfolding windows_from
windows_from-Runs g [] inv = record {
  first_run = g;
  later = [];
  same_first = refl;
  good = (inv, tt, tt);
  whole = refl;
  made = refl;
}
windows_from-Runs g (b ∷ ordered) inv =
    if_cases (Runs g (b ∷ ordered)) (breaks (window_of g) b) _ _
      (λ h.
        let rec = windows_from-Runs (alone b) ordered (alone-IsGroup b) in
        record {
          first_run = g;
          later = rec.first_run ∷ rec.later;
          same_first = refl;
          good = (inv, ap (breaks (window_of g)) rec.same_first ∙ h, rec.good);
          whole = ap (λ (l : List Block). blocks g ++ l) rec.whole;
          made =
              ap (flushed (window_of g))
                (ap (λ (w : Window). windows_from w ordered) (opened_window b) ∙ rec.made);
        })
      (λ h.
        let rec = windows_from-Runs (with_last g b) ordered (with_last-IsGroup g b inv h) in
        record {
          first_run = rec.first_run;
          later = rec.later;
          same_first = rec.same_first;
          good = rec.good;
          whole = rec.whole ∙ append_assoc (blocks g) (b ∷ []) ordered;
          made = ap (λ (w : Window). windows_from w ordered) (extended_window g b) ∙ rec.made;
        })

-- A document falls into runs of blocks: these are all its blocks in order, a run has a heading at its
-- begin only and its text is in the budget unless it is one block, and the next run begins at a heading
-- or where the budget would be exceeded. The windows are those of the runs with text.
pub record AreWindows (ordered : List Block) (out : List Window) : Type 0 where
  pub runs : List Group
  pub good : AreGroups runs
  pub whole : all_blocks runs ≡ ordered
  pub made : out ≡ filled_windows runs

-- Windows gives, for any document, the windows of such runs: in order, with no block in two of them.
pub windows-AreWindows : (ordered : List Block) → AreWindows ordered (windows ordered)
unfolding windows
windows-AreWindows [] = record { runs = []; good = tt; whole = refl; made = refl }
windows-AreWindows (b ∷ ordered) =
    let rec = windows_from-Runs (alone b) ordered (alone-IsGroup b) in
    record {
      runs = rec.first_run ∷ rec.later;
      good = rec.good;
      whole = rec.whole;
      made = ap (λ (w : Window). windows_from w ordered) (opened_window b) ∙ rec.made;
    }

-- ===== src/Markdown/Split/Taken.antt =====
-- What the consumers of blocks take.
use any.Common.{
  ℕ, Bool, true, false, not, ◌&&◌, List, [], ◌∷◌, ◌++◌, Option, none, some, Bytes, is_nil, if_cases,
  All, ◌≡◌, ◌⊎◌, inl, inr, refl, ap, arith, Bool-cases,
}
use any.Markdown.Lines.{
  is_blank, is_atx_heading, is_setext_underline, fence_opener, is_fence_open, is_blockquote_line,
  list_item_marker, is_list_item_line, is_html_block_line, is_table_line, looks_like_any_opener,
  is_some,
}
use any.Markdown.Split.Items.{
  ItemLines, ItemStops, item_whole, item_lines-ItemLines, item_lines-ItemStops, drop_none,
}
use any.Markdown.Split.{
  Rest, run, drop_trailing_blanks, closes, to_closer, or_unterminated, fence_rest, consume_fence,
  consume_blockquote, consume_until_blank, continues_paragraph, consume_paragraph, item_lines,
  consume_list_item, with_next, next_underlines, consume, continuation,
}

abbrev pub AllPass : (Bytes → Bool) → List Bytes → Type 0
AllPass test = All (λ l. test l ≡ true)

abbrev pub NonePass : (Bytes → Bool) → List Bytes → Type 0
NonePass test = All (λ l. test l ≡ false)

-- the first line, if there is one, fails the test
abbrev pub Stops : (Bytes → Bool) → List Bytes → Type 0
Stops test [] = Unit
Stops test (l ∷ _) = test l ≡ false

-- the last line, if there is one, is not blank
abbrev pub EndsFilled : List Bytes → Type 0
EndsFilled [] = Unit
EndsFilled (l ∷ []) = is_blank l ≡ false
EndsFilled (l ∷ m ∷ ls) = EndsFilled (m ∷ ls)

-- The blocks of the document, as the comment on Split lists them: the first line, those taken behind
-- it, and those left, each with what ends it.
pub data IsBlock (l : Bytes) (taken left : List Bytes) : Type 0 where
  closed_fence :
      (c n : ℕ) (body : List Bytes) (closer : Bytes)
      → fence_opener l ≡ some (c, n)
      → taken ≡ body ++ closer ∷ []
      → NonePass (closes c n) body
      → closes c n closer ≡ true
      → IsBlock l taken left
  open_fence :
      (c n : ℕ)
      → fence_opener l ≡ some (c, n)
      → NonePass (closes c n) (taken ++ left)
      → EndsFilled taken
      → AllPass is_blank left
      → IsBlock l taken left
  heading : is_atx_heading l ≡ true → taken ≡ [] → IsBlock l taken left
  setext_heading :
      (u : Bytes)
      → looks_like_any_opener l ≡ false
      → is_setext_underline u ≡ true
      → taken ≡ u ∷ []
      → IsBlock l taken left
  quote :
      is_blockquote_line l ≡ true
      → AllPass is_blockquote_line taken
      → Stops is_blockquote_line left
      → IsBlock l taken left
  item :
      (cont : ℕ)
      → list_item_marker l ≡ some cont
      → ItemLines cont taken
      → ItemStops cont left
      → IsBlock l taken left
  html_or_table :
      (is_html_block_line l ≡ true) ⊎ (is_table_line l ≡ true)
      → NonePass is_blank taken
      → Stops (λ x. not (is_blank x)) left
      → IsBlock l taken left
  paragraph :
      looks_like_any_opener l ≡ false
      → AllPass continues_paragraph taken
      → Stops continues_paragraph left
      → IsBlock l taken left

-- A block is taken off the front of the lines.
pub record Takes (l : Bytes) (ls : List Bytes) (r : Rest) : Type 0 where
  pub whole : r.taken ++ r.left ≡ ls
  pub block : IsBlock l r.taken r.left

module _ (test : Bytes → Bool) where
  run_whole : (ls : List Bytes) → (run test ls).taken ++ (run test ls).left ≡ ls
  unfolding run
  run_whole [] = refl
  run_whole (l ∷ ls) = ground (arith, run_whole ls)

  run_pass : (ls : List Bytes) → AllPass test (run test ls).taken
  unfolding run
  run_pass [] = tt
  run_pass (l ∷ ls) =
      if_cases (λ (r : Rest). AllPass test r.taken) (test l) _ _ (λ e. (e, run_pass ls))
        (λ _. tt {0})

  run-Stops : (ls : List Bytes) → Stops test (run test ls).left
  unfolding run
  run-Stops [] = tt
  run-Stops (l ∷ ls) =
      if_cases (λ (r : Rest). Stops test r.left) (test l) _ _ (λ _. run-Stops ls) (λ e. e)

drop_whole :
    (ls : List Bytes) → (drop_trailing_blanks ls).taken ++ (drop_trailing_blanks ls).left ≡ ls
unfolding drop_trailing_blanks
drop_whole [] = refl
drop_whole (l ∷ ls) = ground (arith, drop_whole ls)

and_right : (a b : Bool) → (a && b) ≡ true → b ≡ true
and_right a b h = ground arith

drop_blank : (ls : List Bytes) → AllPass is_blank (drop_trailing_blanks ls).left
unfolding drop_trailing_blanks
drop_blank [] = tt
drop_blank (l ∷ ls) =
    let r = drop_trailing_blanks ls in
    let both : (is_nil r.taken && is_blank l) ≡ true → AllPass is_blank (l ∷ r.left) =
      λ e. (and_right (is_nil r.taken) (is_blank l) e, drop_blank ls) in
    if_cases (λ (x : Rest). AllPass is_blank x.left) (is_nil r.taken && is_blank l) _ _ both
      (λ _. drop_blank ls)

EndsFilled-cons :
    (l : Bytes) (ls : List Bytes)
    → EndsFilled ls
    → (is_nil ls && is_blank l) ≡ false
    → EndsFilled (l ∷ ls)
EndsFilled-cons l [] h e = e
EndsFilled-cons l (m ∷ ls) h e = h

drop_filled : (ls : List Bytes) → EndsFilled (drop_trailing_blanks ls).taken
unfolding drop_trailing_blanks
drop_filled [] = tt
drop_filled (l ∷ ls) =
    if_cases (λ (r : Rest). EndsFilled r.taken) _ _ _ (λ _. tt {0})
      (λ e. EndsFilled-cons l (drop_trailing_blanks ls).taken (drop_filled ls) e)

-- the lines up to a closing fence and with it
record Closed (c n : ℕ) (ls : List Bytes) (r : Rest) : Type 0 where
  body : List Bytes
  closer : Bytes
  lines : r.taken ≡ body ++ closer ∷ []
  inside : NonePass (closes c n) body
  closing : closes c n closer ≡ true
  whole : r.taken ++ r.left ≡ ls

module _ (c n : ℕ) where
  Closed-cons :
      (l : Bytes) (ls : List Bytes) (r : Rest)
      → closes c n l ≡ false
      → Closed c n ls r
      → Closed c n (l ∷ ls) (record r { taken = l ∷ r.taken })
  Closed-cons l ls r e d = record {
    body = l ∷ d.body;
    closer = d.closer;
    lines = ap (λ (x : List Bytes). l ∷ x) d.lines;
    inside = (e, d.inside);
    closing = d.closing;
    whole = ap (λ (x : List Bytes). l ∷ x) d.whole;
  }

  abbrev Searched : List Bytes → Option Rest → Type 0
  Searched ls none = NonePass (closes c n) ls
  Searched ls (some r) = Closed c n ls r

  Searched-cons :
      (l : Bytes) (ls : List Bytes) (o : Option Rest)
      → closes c n l ≡ false
      → Searched ls o
      → Searched
          (l ∷ ls)
          (elim o [ none ↦ none | some r ↦ some (record r { taken = l ∷ r.taken }) ])
  Searched-cons l ls none e h = (e, h)
  Searched-cons l ls (some r) e h = Closed-cons l ls r e h

  to_closer-Searched : (ls : List Bytes) → Searched ls (to_closer c n ls)
  unfolding to_closer
  to_closer-Searched [] = tt
  to_closer-Searched (l ∷ ls) = elim (Bool-cases (closes c n l)) [
    | inl e ↦
        rw e
          (record { body = []; closer = l; lines = refl; inside = tt; closing = e; whole = refl })
    | inr e ↦ rw e (Searched-cons l ls (to_closer c n ls) e (to_closer-Searched ls))
  ]

  Takes-Searched :
      (l : Bytes) (ls : List Bytes) (o : Option Rest)
      → fence_opener l ≡ some (c, n)
      → Searched ls o
      → Takes l ls (or_unterminated ls o)
  unfolding or_unterminated
  Takes-Searched l ls none e h = record {
    whole = drop_whole ls;
    block = open_fence c n e (rw (drop_whole ls) h) (drop_filled ls) (drop_blank ls);
  }
  Takes-Searched l ls (some r) e d = record {
    whole = d.whole;
    block = closed_fence c n d.body d.closer e d.lines d.inside d.closing;
  }

Takes-fence_rest :
    (l : Bytes) (ls : List Bytes) (o : Option (ℕ × ℕ))
    → fence_opener l ≡ o
    → is_some o ≡ true
    → Takes l ls (fence_rest o ls)
unfolding fence_rest
Takes-fence_rest l ls none e h = cc
Takes-fence_rest l ls (some (c, n)) e h =
    Takes-Searched c n l ls (to_closer c n ls) e (to_closer-Searched c n ls)

Takes-fence :
    (l : Bytes) (ls : List Bytes)
    → is_some (fence_opener l) ≡ true
    → Takes l ls (consume_fence l ls)
unfolding consume_fence
Takes-fence l ls h = Takes-fence_rest l ls (fence_opener l) refl h

run-Takes :
    (test : Bytes → Bool) (l : Bytes) (ls : List Bytes)
    → IsBlock l (run test ls).taken (run test ls).left
    → Takes l ls (run test ls)
run-Takes test l ls b = record { whole = run_whole test ls; block = b }

Takes-item_marked :
    (l : Bytes) (ls : List Bytes) (o : Option ℕ)
    → list_item_marker l ≡ o
    → is_some o ≡ true
    → Takes l ls (consume_list_item l ls)
unfolding consume_list_item continuation
Takes-item_marked l ls none e h = cc
Takes-item_marked l ls (some cont) e h =
    let r = item_lines cont ls in
    rw (e, drop_none cont r.taken (item_lines-ItemLines cont ls))
      (record {
        whole = item_whole cont ls;
        block = item cont e (item_lines-ItemLines cont ls) (item_lines-ItemStops cont ls);
      })

Takes-item :
    (l : Bytes) (ls : List Bytes) → is_list_item_line l ≡ true → Takes l ls (consume_list_item l ls)
Takes-item l ls h = Takes-item_marked l ls (list_item_marker l) refl (unfold is_list_item_line in h)

Takes-setext :
    (l : Bytes) (ls : List Bytes)
    → next_underlines ls ≡ true
    → looks_like_any_opener l ≡ false
    → Takes l ls (with_next ls)
Takes-setext l [] h o = cc
Takes-setext l (u ∷ ls) h o = record { whole = refl; block = setext_heading u o h refl }

not_pass : (ls : List Bytes) → AllPass (λ x. not (is_blank x)) ls → NonePass is_blank ls
not_pass [] h = tt
not_pass (l ∷ ls) (e, h) = (ground arith, not_pass ls h)

no_opener :
    (l : Bytes)
    → is_fence_open l ≡ false
    → is_atx_heading l ≡ false
    → is_blockquote_line l ≡ false
    → is_list_item_line l ≡ false
    → is_html_block_line l ≡ false
    → is_table_line l ≡ false
    → looks_like_any_opener l ≡ false
unfolding looks_like_any_opener
no_opener l a b c d e f = rw (a, b, c, d, e, f)

Takes-until_blank :
    (l : Bytes) (ls : List Bytes)
    → (is_html_block_line l ≡ true) ⊎ (is_table_line l ≡ true)
    → Takes l ls (consume_until_blank ls)
unfolding consume_until_blank
Takes-until_blank l ls h =
    let test : Bytes → Bool = λ x. not (is_blank x) in
    run-Takes test l ls
      (html_or_table h (not_pass (run test ls).taken (run_pass test ls)) (run-Stops test ls))

pub consume-Takes : (l : Bytes) (ls : List Bytes) → Takes l ls (consume l ls)
unfolding consume
consume-Takes l ls =
    if_cases (Takes l ls) (is_fence_open l) _ _ (λ h. Takes-fence l ls (unfold is_fence_open in h))
      (λ nf.
        if_cases (Takes l ls) (is_atx_heading l) _ _
          (λ h. record { whole = refl; block = heading h refl })
          (λ nh.
            if_cases (Takes l ls) (next_underlines ls && not (looks_like_any_opener l)) _ _
              (λ h. Takes-setext l ls (ground arith) (ground arith))
              (λ _.
                if_cases (Takes l ls) (is_blockquote_line l) _ _
                  (λ h.
                    unfold consume_blockquote in
                    run-Takes is_blockquote_line l ls
                      (quote h (run_pass is_blockquote_line ls) (run-Stops is_blockquote_line ls)))
                  (λ nq.
                    if_cases (Takes l ls) (is_list_item_line l) _ _ (λ h. Takes-item l ls h)
                      (λ ni.
                        if_cases (Takes l ls) (is_html_block_line l) _ _
                          (λ h. Takes-until_blank l ls (inl h))
                          (λ nt.
                            if_cases (Takes l ls) (is_table_line l) _ _
                              (λ h. Takes-until_blank l ls (inr h))
                              (λ np.
                                unfold consume_paragraph in
                                run-Takes continues_paragraph l ls (
                                  paragraph (no_opener l nf nh nq ni nt np)
                                    (run_pass continues_paragraph ls)
                                    (run-Stops continues_paragraph ls)))))))))

-- ===== src/Chat/Toggles.antt =====
-- What the ops of a change do to its reactions.
use any.Common.{
  Bool, true, false, List, [], ◌∷◌, Option, none, some, Bytes, codes, if◌then◌else◌, ◌≡◌, refl,
  Bool-cases, inl, inr,
}
use any.Strings.{eq_bytes}
use any.Chat.{
  Op, OpType, op_delete, op_set, op_unset, op_other, ReadClassification, tag_reaction, reaction_key,
  toggle, reaction_at, or_first,
}

-- A reaction is set or taken away, by the op at its path.
pub record Toggle : Type 0 where
  pub set : Bool
  pub emoji : Bytes
  pub account : Bytes

abbrev pub toggled : OpType → Bytes → Bytes → Option Toggle
toggled op_set emoji account = some (record { set = true; emoji = emoji; account = account })
toggled op_unset emoji account = some (record { set = false; emoji = emoji; account = account })
toggled _ emoji account = none

abbrev pub toggle_of : OpType → List Bytes → Option Toggle
toggle_of type (field ∷ emoji ∷ account ∷ []) =
    if eq_bytes field (codes "reactions") then toggled type emoji account else none
toggle_of type _ = none

abbrev pub first_toggle : List Op → Option Toggle
first_toggle [] = none
first_toggle (op ∷ ops) =
    let rest = first_toggle ops in
    elim (toggle_of op.type op.path) [ none ↦ rest | some k ↦ some k ]

-- A reaction that is set is unread for the account of the message's author, under the key by which the
-- one that is taken away is cleared.
abbrev pub reaction_verdict : Bytes → Bytes → Toggle → ReadClassification
reaction_verdict self id k = record {
  track = k.set;
  tags = if k.set then tag_reaction ∷ [] else [];
  key = reaction_key k.emoji k.account id;
  audience = if k.set then some self else none;
  track_self_authored = false;
}

unfoldable pub or_verdict :
    Bytes → Bytes → Option ReadClassification → Option Toggle → Option ReadClassification
or_verdict self id r none = r
or_verdict self id r (some k) = or_first r (some (reaction_verdict self id k))

toggle-toggled :
    (self id : Bytes) (type : OpType) (emoji account : Bytes)
    → toggle self (reaction_key emoji account id) type
      ≡ or_verdict self id none (toggled type emoji account)
unfolding toggle or_verdict
toggle-toggled self id op_delete emoji account = refl
toggle-toggled self id op_set emoji account = refl
toggle-toggled self id op_unset emoji account = refl
toggle-toggled self id op_other emoji account = refl

pub reaction_at-toggle_of :
    (self id : Bytes) (type : OpType) (path : List Bytes)
    → reaction_at self id type path ≡ or_verdict self id none (toggle_of type path)
unfolding reaction_at or_verdict
reaction_at-toggle_of self id type [] = refl
reaction_at-toggle_of self id type (a ∷ []) = refl
reaction_at-toggle_of self id type (a ∷ b ∷ []) = refl
reaction_at-toggle_of self id type (a ∷ b ∷ c ∷ []) =
    elim (Bool-cases (eq_bytes a (codes "reactions"))) [
      | inl e ↦ rw e (toggle-toggled self id type b c)
      | inr e ↦ rw e refl
    ]
reaction_at-toggle_of self id type (a ∷ b ∷ c ∷ d ∷ path) = refl

pub or_verdict-first :
    (self id : Bytes) (r : Option ReadClassification) (o rest : Option Toggle)
    → or_verdict self id (or_first r (or_verdict self id none o)) rest
      ≡ or_verdict self id r (elim o [ none ↦ rest | some k ↦ some k ])
unfolding or_verdict
or_verdict-first self id none none rest = refl
or_verdict-first self id (some c) none rest = refl
or_verdict-first self id none (some k) none = refl
or_verdict-first self id none (some k) (some k') = refl
or_verdict-first self id (some c) (some k) none = refl
or_verdict-first self id (some c) (some k) (some k') = refl

-- ===== src/Chat.antt =====
-- internal/chat/reading.go: which changes of a chat count as unread. The SDK's change and the record
-- that it leaves are arguments, of which the classifier reads what the records here have. The proofs are
-- in the modules below.
pub mod Toggles
pub mod Verdicts
mod Tests
use any.Common.{
  Bool, true, false, not, ◌&&◌, ◌||◌, List, [], ◌∷◌, ◌++◌, Option, none, some, Bytes, codes,
  if◌then◌else◌,
}
use any.Strings.{eq_bytes, is_empty, contains}

-- TagMessage, TagMention and TagReaction
abbrev pub tag_message : Bytes
tag_message = codes "message"

abbrev pub tag_mention : Bytes
tag_mention = codes "mention"

abbrev pub tag_reaction : Bytes
tag_reaction = codes "reaction"

-- handler.OpDelete, handler.OpSet, handler.OpUnset, and the other kinds
pub data OpType : Type 0 where
  op_delete op_set op_unset op_other : OpType

pub record Op : Type 0 where
  pub type : OpType
  pub path : List Bytes

pub record RecordChange : Type 0 where
  pub id : Bytes
  pub upsert : Bool
  pub ops : List Op

-- what is read of an applied record: `_ver.id`, `mentions` and `agent.done`
pub record Applied : Type 0 where
  pub ver_id : Bytes
  pub mentions : List Bytes
  pub agent_done : Bool

-- handler.ChangeCtx; `version_id` and `get` are none where the pointers are nil
pub record ChangeCtx : Type 0 where
  pub self_identity : Bytes
  pub version_id : Option Bytes
  pub record_id : Bytes
  pub get : Option (Bytes → Option Applied)

-- handler.ReadClassification, with the author that the audience asks for
pub record ReadClassification : Type 0 where
  pub track : Bool
  pub tags : List Bytes
  pub key : Bytes
  pub audience : Option Bytes
  pub track_self_authored : Bool

abbrev pub untracked : ReadClassification
untracked = record {
  track = false;
  tags = [];
  key = [];
  audience = none;
  track_self_authored = false;
}

unfoldable pub post_apply_record : ChangeCtx → Option Applied
post_apply_record ctx = elim ctx.get [
  | none ↦ none
  | some get ↦ if is_empty ctx.record_id then none else get ctx.record_id
]

unfoldable pub created_by : Option Applied → ChangeCtx → Bool
created_by none ctx = true
created_by (some post) ctx = elim ctx.version_id [ none ↦ true | some v ↦ eq_bytes post.ver_id v ]

unfoldable pub mentions_self : Option Applied → ChangeCtx → Bool
mentions_self none ctx = false
mentions_self (some post) ctx =
    if is_empty ctx.self_identity then false else contains post.mentions ctx.self_identity

abbrev pub reaction_key : Bytes → Bytes → Bytes → Bytes
reaction_key emoji account id = codes "reaction:" ++ (emoji ++ (b':' ∷ (account ++ (b':' ∷ id))))

-- the verdict of an op at reactions.<emoji>.<account>
toggle : Bytes → Bytes → OpType → Option ReadClassification
toggle self key op_set = some (record {
  track = true;
  tags = tag_reaction ∷ [];
  key = key;
  audience = some self;
  track_self_authored = false;
})
toggle self key op_unset = some (record untracked { key = key })
toggle self key _ = none

pub reaction_at : Bytes → Bytes → OpType → List Bytes → Option ReadClassification
reaction_at self id type (field ∷ emoji ∷ account ∷ []) =
    if eq_bytes field (codes "reactions")
    then toggle self (reaction_key emoji account id) type
    else none
reaction_at self id type _ = none

unfoldable pub text_at : OpType → List Bytes → Bool
text_at op_set (field ∷ []) = eq_bytes field (codes "text")
text_at _ _ = false

abbrev pub is_delete : OpType → Bool
is_delete op_delete = true
is_delete _ = false

abbrev pub or_first :
    Option ReadClassification → Option ReadClassification → Option ReadClassification
or_first none other = other
or_first (some c) other = some c

-- the loop over the ops, with the first reaction and whether there is a text edit; `none` is a delete
unfoldable pub scan :
    Bytes
    → Bytes
    → Bool
    → List Op
    → Option ReadClassification
    → Bool
    → Option (Option ReadClassification × Bool)
unfolding toggle reaction_at text_at
scan self id creating [] reaction text_edit = some (reaction, text_edit)
scan self id creating (op ∷ ops) reaction text_edit =
    let rest =
      scan self id creating ops (or_first reaction (reaction_at self id op.type op.path))
        (text_edit || not creating && text_at op.type op.path) in
    if is_delete op.type then none else rest

abbrev pub or_post : Option Applied → Option Applied → Option Applied
or_post none other = other
or_post (some post) other = some post

abbrev pub mention_verdict : Bytes → ReadClassification
mention_verdict id = record untracked {
  track = true;
  tags = tag_mention ∷ [];
  key = codes "mention:" ++ id;
}

abbrev pub agent_done_of : Option Applied → Bool
agent_done_of none = false
agent_done_of (some post) = post.agent_done

-- what is left where no mention is tracked for a text edit
abbrev pub without_mention :
    ChangeCtx
    → Bytes
    → Bool
    → Option Applied
    → Option ReadClassification
    → Bool
    → ReadClassification
without_mention ctx id creating post (some reaction) text_edit = reaction
without_mention ctx id creating post none text_edit =
    if text_edit
    then record untracked { key = codes "mention:" ++ id }
    else if creating
    then record untracked {
      track = true;
      tags = if mentions_self post ctx then tag_message ∷ tag_mention ∷ [] else tag_message ∷ [];
      track_self_authored = agent_done_of post;
    }
    else untracked

-- classifyRead behind its loop
abbrev pub verdict :
    ChangeCtx
    → Bytes
    → Bool
    → Option Applied
    → Option (Option ReadClassification × Bool)
    → ReadClassification
verdict ctx id creating post none = untracked
verdict ctx id creating post (some (reaction, text_edit)) =
    if text_edit && mentions_self (or_post post (post_apply_record ctx)) ctx
    then mention_verdict id
    else without_mention ctx id creating post reaction text_edit

abbrev pub post_of : ChangeCtx → RecordChange → Option Applied
post_of ctx rec_ = if rec_.upsert then post_apply_record ctx else none

abbrev pub is_creating : ChangeCtx → RecordChange → Bool
is_creating ctx rec_ = rec_.upsert && created_by (post_of ctx rec_) ctx

unfoldable pub classify_read : ChangeCtx → RecordChange → ReadClassification
classify_read ctx rec_ =
    let creating = is_creating ctx rec_ in
    verdict ctx rec_.id creating (post_of ctx rec_)
      (scan ctx.self_identity rec_.id creating rec_.ops none false)

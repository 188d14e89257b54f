-- ===== src/Chat/Tests.antt =====
-- Runs of the classifier, and its theorem at a concrete change.
use any.Common.{true, false, [], ◌∷◌, codes, some, ◌≡◌, refl}
use any.Strings.{eq_bytes, contains}
use any.Chat.{
  op_set, RecordChange, ChangeCtx, untracked, tag_message, tag_mention, mention_verdict, scan,
  classify_read, created_by, mentions_self, post_apply_record,
}
use any.Chat.Verdicts.{IsClassified, classify_read-IsClassified}

abbrev ctx : ChangeCtx
ctx = record {
  self_identity = codes "A1";
  version_id = some (codes "v1");
  record_id = codes "m1";
  get =
      some (λ id.
        some (record { ver_id = codes "v1"; mentions = codes "A1" ∷ []; agent_done = true }));
}

-- a reaction bundled in front of an edit that names the account
abbrev bundle : RecordChange
bundle = record {
  id = codes "m1";
  upsert = false;
  ops =
      record { type = op_set; path = codes "reactions" ∷ codes "+1" ∷ codes "B2" ∷ [] }
      ∷ record { type = op_set; path = codes "text" ∷ [] }
      ∷ [];
}

bundle_mentions : classify_read ctx bundle ≡ mention_verdict (codes "m1")
unfolding classify_read scan mentions_self post_apply_record contains eq_bytes
bundle_mentions = refl

created_with_mention :
    classify_read ctx
      (record { id = codes "m1"; upsert = true; ops = record { type = op_set; path = [] } ∷ [] })
    ≡ record untracked {
      track = true;
      tags = tag_message ∷ tag_mention ∷ [];
      track_self_authored = true;
    }
unfolding classify_read scan mentions_self post_apply_record contains eq_bytes created_by
created_with_mention = refl

classify_read-IsClassified_example : IsClassified ctx bundle (classify_read ctx bundle)
classify_read-IsClassified_example = classify_read-IsClassified ctx bundle

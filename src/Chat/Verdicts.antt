-- ===== src/Chat/Verdicts.antt =====
-- What the verdicts on changes of a chat come to.
use any.Common.{
  ap, ◌∙◌, Bool, true, false, not, ◌&&◌, ◌||◌, List, [], ◌∷◌, ◌++◌, Option, none, some, Bytes,
  codes, if◌then◌else◌, if_cases, ◌≡◌, refl, arith, Bool-cases, inl, inr,
}
use any.Strings.{eq_bytes, is_empty, contains}
use any.Chat.Toggles.{
  Toggle, toggle_of, first_toggle, reaction_verdict, or_verdict, reaction_at-toggle_of,
  or_verdict-first,
}
use any.Chat.{
  Op, RecordChange, Applied, ChangeCtx, ReadClassification, untracked, tag_message, tag_mention,
  tag_reaction, reaction_key, reaction_at, text_at, is_delete, or_first, scan, or_post,
  mention_verdict, without_mention, verdict, post_of, is_creating, classify_read, mentions_self,
  post_apply_record, agent_done_of,
}

abbrev pub deletes : List Op → Bool
deletes [] = false
deletes (op ∷ ops) = is_delete op.type || deletes ops

abbrev pub edits_text : List Op → Bool
edits_text [] = false
edits_text (op ∷ ops) = text_at op.type op.path || edits_text ops

-- A verdict of one change. A new message is tracked without a key, so that no later verdict replaces it;
-- whatever else is tracked has a key, a reaction is for the author only, and only a new message of an
-- agent counts for its own author.
pub record IsVerdict (creating : Bool) (self : Bytes) (c : ReadClassification) : Type 0 where
  pub message : contains c.tags tag_message ≡ true → (c.key ≡ []) × (creating ≡ true)
  pub keyed : c.track ≡ true → contains c.tags tag_message ≡ false → is_empty c.key ≡ false
  pub reaction : contains c.tags tag_reaction ≡ true → c.audience ≡ some self
  pub self_authored :
      c.track_self_authored ≡ true → (creating ≡ true) × (contains c.tags tag_message ≡ true)

-- what a new message is tracked as: it has no key, so that no later verdict replaces it
abbrev pub message_verdict : Option Applied → ChangeCtx → ReadClassification
message_verdict post ctx = record untracked {
  track = true;
  tags = if mentions_self post ctx then tag_message ∷ tag_mention ∷ [] else tag_message ∷ [];
  track_self_authored = agent_done_of post;
}

untracked-IsVerdict :
    (creating : Bool) (self key : Bytes) → IsVerdict creating self (record untracked { key = key })
unfolding contains eq_bytes
untracked-IsVerdict creating self key = record {
  message = λ h. cc;
  keyed = λ h k. cc;
  reaction = λ h. cc;
  self_authored = λ h. cc;
}

reaction-IsVerdict :
    (creating : Bool) (self id : Bytes) (set : Bool) (emoji account : Bytes)
    → IsVerdict creating self
        (reaction_verdict self id (record { set = set; emoji = emoji; account = account }))
unfolding contains eq_bytes
reaction-IsVerdict creating self id true emoji account = record {
  message = λ h. cc;
  keyed = λ h k. refl;
  reaction = λ h. refl;
  self_authored = λ h. cc;
}
reaction-IsVerdict creating self id false emoji account =
    untracked-IsVerdict creating self (reaction_key emoji account id)

-- What the loop finds: no delete, the verdict on the first reaction, and the text edits.
Found :
    Bool
    → Bytes
    → Bytes
    → List Op
    → Option ReadClassification
    → Bool
    → Option (Option ReadClassification × Bool)
    → Type 0
Found creating self id ops r before none = deletes ops ≡ true
Found creating self id ops r before (some (r', t)) =
    (deletes ops ≡ false)
    × (r' ≡ or_verdict self id r (first_toggle ops))
    × (t ≡ (before || not creating && edits_text ops))

scan-Found :
    (creating : Bool) (self id : Bytes) (ops : List Op) (r : Option ReadClassification) (t : Bool)
    → Found creating self id ops r t (scan self id creating ops r t)
unfolding scan Found
scan-Found creating self id [] r t = (refl, unfold or_verdict in refl, ground arith)
scan-Found creating self id (op ∷ ops) r t = elim (Bool-cases (is_delete op.type)) [
  | inl e ↦ rw e (ground (arith, e))
  | inr e ↦
      rw e (of_rest (scan self id creating ops r' t') e (scan-Found creating self id ops r' t'))
]
  where
    r' : Option ReadClassification
    r' = or_first r (reaction_at self id op.type op.path)

    t' : Bool
    t' = t || not creating && text_at op.type op.path

    first :
        or_verdict self id r' (first_toggle ops) ≡ or_verdict self id r (first_toggle (op ∷ ops))
    first =
        ap (λ (x : Option ReadClassification). or_verdict self id (or_first r x) (first_toggle ops))
          (reaction_at-toggle_of self id op.type op.path)
        ∙ or_verdict-first self id r (toggle_of op.type op.path) (first_toggle ops)

    of_rest :
        (o : Option (Option ReadClassification × Bool))
        → is_delete op.type ≡ false
        → Found creating self id ops r' t' o
        → Found creating self id (op ∷ ops) r t o
    of_rest none e f = ground (arith, e, f)
    of_rest (some (r', t')) e (f, g, k) = (ground (arith, e, f), g ∙ first, ground (arith, k))

mention-IsVerdict :
    (creating : Bool) (self id : Bytes) → IsVerdict creating self (mention_verdict id)
unfolding contains eq_bytes
mention-IsVerdict creating self id = record {
  message = λ h. cc;
  keyed = λ h k. refl;
  reaction = λ h. cc;
  self_authored = λ h. cc;
}

message-IsVerdict :
    (self : Bytes) (post : Option Applied) (ctx : ChangeCtx)
    → IsVerdict true self (message_verdict post ctx)
unfolding contains eq_bytes
message-IsVerdict self post ctx = elim (Bool-cases (mentions_self post ctx)) [
  | inl e ↦ rw e (record {
    message = λ h. (refl, refl);
    keyed = λ h k. cc;
    reaction = λ h. cc;
    self_authored = λ h. (refl, refl);
  })
  | inr e ↦ rw e (record {
    message = λ h. (refl, refl);
    keyed = λ h k. cc;
    reaction = λ h. cc;
    self_authored = λ h. (refl, refl);
  })
]

without_mention-IsVerdict :
    (ctx : ChangeCtx) (id : Bytes) (creating : Bool) (post : Option Applied) (o : Option Toggle)
    (t : Bool)
    → IsVerdict creating ctx.self_identity
        (without_mention ctx id creating post (or_verdict ctx.self_identity id none o) t)
unfolding or_verdict
without_mention-IsVerdict ctx id creating post (some k) t =
    reaction-IsVerdict creating ctx.self_identity id k.set k.emoji k.account
without_mention-IsVerdict ctx id creating post none true =
    untracked-IsVerdict creating ctx.self_identity (codes "mention:" ++ id)
without_mention-IsVerdict ctx id true post none false = message-IsVerdict ctx.self_identity post ctx
without_mention-IsVerdict ctx id false post none false =
    untracked-IsVerdict false ctx.self_identity []

-- What classifyRead gives, in each case the verdict that it comes to.
pub record IsClassified (ctx : ChangeCtx) (rec_ : RecordChange) (c : ReadClassification)
    : Type 0 where
  pub well_formed : IsVerdict (is_creating ctx rec_) ctx.self_identity c
  pub deleted : deletes rec_.ops ≡ true → c ≡ untracked
  pub mentioned :
      deletes rec_.ops ≡ false
      → is_creating ctx rec_ ≡ false
      → edits_text rec_.ops ≡ true
      → mentions_self (post_apply_record ctx) ctx ≡ true
      → c ≡ mention_verdict rec_.id
  pub reacted :
      (k : Toggle)
      → deletes rec_.ops ≡ false
      → (not (is_creating ctx rec_)
          && edits_text rec_.ops
          && mentions_self (post_apply_record ctx) ctx)
        ≡ false
      → first_toggle rec_.ops ≡ some k
      → c ≡ reaction_verdict ctx.self_identity rec_.id k
  pub created :
      deletes rec_.ops ≡ false
      → is_creating ctx rec_ ≡ true
      → first_toggle rec_.ops ≡ none
      → c ≡ message_verdict (post_apply_record ctx) ctx
  pub cleared :
      deletes rec_.ops ≡ false
      → is_creating ctx rec_ ≡ false
      → edits_text rec_.ops ≡ true
      → mentions_self (post_apply_record ctx) ctx ≡ false
      → first_toggle rec_.ops ≡ none
      → c ≡ record untracked { key = codes "mention:" ++ rec_.id }
  pub nothing_new :
      deletes rec_.ops ≡ false
      → is_creating ctx rec_ ≡ false
      → edits_text rec_.ops ≡ false
      → first_toggle rec_.ops ≡ none
      → c ≡ untracked

or_post_same : (upsert : Bool) (o : Option Applied) → or_post (if upsert then o else none) o ≡ o
or_post_same true none = refl
or_post_same true (some p) = refl
or_post_same false o = refl

post_of_created :
    (ctx : ChangeCtx) (rec_ : RecordChange)
    → is_creating ctx rec_ ≡ true
    → post_of ctx rec_ ≡ post_apply_record ctx
post_of_created ctx rec_ h = ground (arith, h)

verdict-IsClassified :
    (ctx : ChangeCtx) (rec_ : RecordChange) (o : Option (Option ReadClassification × Bool))
    → Found (is_creating ctx rec_) ctx.self_identity rec_.id rec_.ops none false o
    → IsClassified ctx rec_ (verdict ctx rec_.id (is_creating ctx rec_) (post_of ctx rec_) o)
unfolding Found
verdict-IsClassified ctx rec_ none f = record {
  well_formed = untracked-IsVerdict (is_creating ctx rec_) ctx.self_identity [];
  deleted = λ h. refl;
  mentioned = λ h. cc (h, f);
  reacted = λ k h. cc (h, f);
  created = λ h. cc (h, f);
  cleared = λ h. cc (h, f);
  nothing_new = λ h. cc (h, f);
}
verdict-IsClassified ctx rec_ (some (r, t)) (f, g, k) = record {
  well_formed =
      if_cases (IsVerdict (is_creating ctx rec_) ctx.self_identity)
        (t && mentions_self (or_post (post_of ctx rec_) (post_apply_record ctx)) ctx) _ _
        (λ _. mention-IsVerdict (is_creating ctx rec_) ctx.self_identity rec_.id)
        (λ _. rw g (
          without_mention-IsVerdict ctx rec_.id (is_creating ctx rec_) (post_of ctx rec_)
            (first_toggle rec_.ops) t));
  deleted = λ h. cc (h, f);
  mentioned = λ d c e m. rw (edited c e, or_post_same rec_.upsert (post_apply_record ctx), m) refl;
  reacted = λ k' d m h.
      rw (untold m, g ∙ ap (or_verdict ctx.self_identity rec_.id none) h)
        (unfold or_verdict in refl);
  created = λ d c h.
      let new : t ≡ false = ground (arith, k, c) in
      rw (new, g ∙ ap (or_verdict ctx.self_identity rec_.id none) h, c, post_of_created ctx rec_ c)
        (unfold or_verdict in refl);
  cleared = λ d c e m h.
      rw
        (
          edited c e,
          or_post_same rec_.upsert (post_apply_record ctx),
          m,
          g ∙ ap (or_verdict ctx.self_identity rec_.id none) h,
        )
        (unfold or_verdict in refl);
  nothing_new = λ d c e h.
      let unedited : t ≡ false = ground (arith, k, e) in
      rw (unedited, g ∙ ap (or_verdict ctx.self_identity rec_.id none) h, c)
        (unfold or_verdict in refl);
}
  where
    edited : is_creating ctx rec_ ≡ false → edits_text rec_.ops ≡ true → t ≡ true
    edited c e = ground (arith, k, c, e)

    untold :
        (not (is_creating ctx rec_)
            && edits_text rec_.ops
            && mentions_self (post_apply_record ctx) ctx)
          ≡ false
        → (t && mentions_self (or_post (post_of ctx rec_) (post_apply_record ctx)) ctx) ≡ false
    untold m = rw (or_post_same rec_.upsert (post_apply_record ctx)) (ground (arith, k, m))

-- classifyRead on any change of a chat, whatever its ops and their order. Nothing is tracked where an op
-- deletes. An edit of the text of a message that was there is the mention where it names the account,
-- though reactions are bundled with it. Else the first reaction that is set or taken away decides: set,
-- it is tracked for the author's replicas, taken away, its key is cleared. Else a new message is tracked
-- without a key, with the mention where it names the account, and for its own author where an agent is
-- done with it; an edit that does not name the account clears the mention; and no other change does
-- anything. Whatever is tracked but a new message has a key.
pub classify_read-IsClassified :
    (ctx : ChangeCtx) (rec_ : RecordChange) → IsClassified ctx rec_ (classify_read ctx rec_)
unfolding classify_read
classify_read-IsClassified ctx rec_ =
    let creating = is_creating ctx rec_ in
    verdict-IsClassified ctx rec_ (scan ctx.self_identity rec_.id creating rec_.ops none false)
      (scan-Found creating ctx.self_identity rec_.id rec_.ops none false)

-- ===== src/Push/Reach.antt =====
-- Which accounts a chat message and an edit reach.
use any.Common.{
  Bool, true, false, not, ◌&&◌, ◌||◌, List, [], ◌∷◌, ◌++◌, Bytes, if◌then◌else◌, ◌≡◌, refl, sym, ap,
  ◌∙◌, arith, Bool-cases, inl, inr, All, Lacks,
}
use any.Strings.{eq_bytes, contains}
use any.Strings.Laws.{eq_bytes→eq, eq_bytes_refl}
use any.Push.{
  ChatNotify, mode_all, mode_mentions, topic_chats, slash, has_override, bulk_topics,
  effective_mode, topic_chat, topic_chat_mention, mode_topics, chat_topics, space_topics,
  mention_topics, message_topics, edit_topics, added_mentions,
}
use any.Push.Sent.{
  IsIdentity, mention_topics-chat, mention_topics-mention, mention_topics-identity,
  mention_topics-chats, added_mentions-contains, added_mentions-IsIdentity, message_topics-chat,
  message_topics-mention, message_topics-identity,
}

-- whether one of the topics subscribed to is one of those sent on
unfoldable pub reaches : List Bytes → List Bytes → Bool
reaches [] sent = false
reaches (s ∷ subs) sent = if contains sent s then true else reaches subs sent

reaches-append :
    (xs ys sent : List Bytes) → reaches (xs ++ ys) sent ≡ (reaches xs sent || reaches ys sent)
unfolding reaches
reaches-append [] ys sent = refl
reaches-append (x ∷ xs) ys sent = ground (arith, reaches-append xs ys sent)

-- Whether a member hears of a chat whose mode is `eff`: in mode `all` of a message that is for the room
-- and of a mention, in mode `mentions` of a mention, else of nothing.
abbrev pub heard : Bool → Bytes → Bool → Bool
heard for_room eff mentioned =
    if eq_bytes eff mode_all
    then for_room || mentioned
    else if eq_bytes eff mode_mentions
    then mentioned
    else false

-- one of the chats has the hash
abbrev any_same : (Bytes → Bytes) → Bytes → List ChatNotify → Bool
any_same sha256_hex c [] = false
any_same sha256_hex c (x ∷ xs) =
    eq_bytes (sha256_hex c) (sha256_hex x.object_id) || any_same sha256_hex c xs

any_same-listed :
    (sha256_hex : Bytes → Bytes) (pre post : List ChatNotify) (e : ChatNotify)
    → any_same sha256_hex e.object_id (pre ++ e ∷ post) ≡ true
any_same-listed sha256_hex [] post e = rw (eq_bytes_refl (sha256_hex e.object_id)) refl
any_same-listed sha256_hex (x ∷ pre) post e = ground (arith, any_same-listed sha256_hex pre post e)

-- with no override a chat has the mode of the space
has_override-listed :
    (space_mode : Bytes) (pre post : List ChatNotify) (e : ChatNotify)
    → has_override (pre ++ e ∷ post) ≡ false
    → effective_mode space_mode e.mode ≡ space_mode
unfolding has_override effective_mode
has_override-listed space_mode [] post e h = ground arith
has_override-listed space_mode (x ∷ pre) post e h =
    ground (arith, has_override-listed space_mode pre post e)

module _ (sha256_hex : Bytes → Bytes) (e : ChatNotify) (me : Bytes) (sent : List Bytes)
    (for_room mentioned : Bool)
    (chat : (x : Bytes)
      → contains sent (topic_chat sha256_hex x)
        ≡ (eq_bytes (sha256_hex e.object_id) (sha256_hex x) && for_room))
    (mention : (x : Bytes)
      → contains sent (topic_chat_mention sha256_hex x me)
        ≡ (eq_bytes (sha256_hex e.object_id) (sha256_hex x) && mentioned))
    (room : contains sent topic_chats ≡ for_room) (bare : contains sent me ≡ mentioned) where
  mode_topics-heard :
      (eff x : Bytes)
      → reaches (mode_topics sha256_hex eff x me) sent
        ≡ (eq_bytes (sha256_hex e.object_id) (sha256_hex x) && heard for_room eff mentioned)
  unfolding mode_topics reaches
  mode_topics-heard eff x = ground (arith, chat x, mention x)

  bulk_topics-heard :
      (space_mode : Bytes)
      → reaches (bulk_topics space_mode me) sent ≡ heard for_room space_mode mentioned
  unfolding bulk_topics reaches
  bulk_topics-heard space_mode = ground (arith, room, bare)

  chat_topics-heard :
      (space_mode : Bytes) (xs : List ChatNotify)
      → All (λ x. sha256_hex e.object_id ≡ sha256_hex x.object_id → x ≡ e) xs
      → reaches (chat_topics sha256_hex space_mode xs me) sent ≡ (
          any_same sha256_hex e.object_id xs
          && heard for_room (effective_mode space_mode e.mode) mentioned)
  unfolding chat_topics
  chat_topics-heard space_mode [] h = unfold reaches in refl
  chat_topics-heard space_mode (x ∷ xs) (h, hs) =
      elim (Bool-cases (eq_bytes (sha256_hex e.object_id) (sha256_hex x.object_id))) [
        | inl k ↦
            let same : x ≡ e =
              h (eq_bytes→eq (sha256_hex e.object_id) (sha256_hex x.object_id) k) in
            ground (
              arith,
              reaches-append
                  (mode_topics sha256_hex (effective_mode space_mode x.mode) x.object_id me)
                  (chat_topics sha256_hex space_mode xs me) sent,
              mode_topics-heard (effective_mode space_mode x.mode) x.object_id,
              ap (λ (y : ChatNotify). effective_mode space_mode y.mode) same,
              chat_topics-heard space_mode xs hs,
              k,
            )
        | inr k ↦ ground (
          arith,
          reaches-append (mode_topics sha256_hex (effective_mode space_mode x.mode) x.object_id me)
              (chat_topics sha256_hex space_mode xs me) sent,
          mode_topics-heard (effective_mode space_mode x.mode) x.object_id,
          chat_topics-heard space_mode xs hs,
          k,
        )
      ]

  space_topics-heard :
      (space_mode : Bytes) (pre post : List ChatNotify)
      → All (λ x. sha256_hex e.object_id ≡ sha256_hex x.object_id → x ≡ e) (pre ++ e ∷ post)
      → reaches (space_topics sha256_hex space_mode (pre ++ e ∷ post) me) sent
        ≡ heard for_room (effective_mode space_mode e.mode) mentioned
  unfolding space_topics
  space_topics-heard space_mode pre post h = elim (Bool-cases (has_override (pre ++ e ∷ post))) [
    | inl k ↦ ground (
      arith,
      k,
      chat_topics-heard space_mode (pre ++ e ∷ post) h,
      any_same-listed sha256_hex pre post e,
    )
    | inr k ↦
        ground (arith, k, bulk_topics-heard space_mode, has_override-listed space_mode pre post e k)
  ]

module _ (sha256_hex : Bytes → Bytes) (digits : (id : Bytes) → Lacks slash (sha256_hex id)) where
  -- A chat message reaches an account that is subscribed to the topics of its space just if the chat's
  -- mode, or the space's where the chat has none, is `all`, or is `mentions` and the message mentions
  -- the account. The chat is one of those listed, no other has its hash, hashes hold no slash, and
  -- identities hold none and are not the word `chats`.
  pub reaches-message :
      (space_mode me : Bytes) (pre post : List ChatNotify) (e : ChatNotify) (mentions : List Bytes)
      → All (λ x. sha256_hex e.object_id ≡ sha256_hex x.object_id → x ≡ e) (pre ++ e ∷ post)
      → IsIdentity me
      → All IsIdentity mentions
      → reaches
          (space_topics sha256_hex space_mode (pre ++ e ∷ post) me)
          (message_topics sha256_hex e.object_id mentions)
        ≡ heard true (effective_mode space_mode e.mode) (contains mentions me)
  reaches-message space_mode me pre post e mentions once hm h =
      space_topics-heard sha256_hex e me (message_topics sha256_hex e.object_id mentions) true
        (contains mentions me) (λ x. message_topics-chat sha256_hex digits e.object_id x mentions h)
        (λ x. message_topics-mention sha256_hex digits e.object_id x me mentions h)
        (unfold message_topics contains eq_bytes in refl)
        (message_topics-identity sha256_hex digits e.object_id me mentions hm) space_mode pre post
        once

  -- An edit of a chat message reaches an account that is subscribed to the topics of its space just if
  -- the edit mentions the account, the message did not before, and the chat's mode, or the space's
  -- where the chat has none, is `all` or `mentions`; the conditions are those of a message.
  pub reaches-edit :
      (space_mode me : Bytes) (pre post : List ChatNotify) (e : ChatNotify)
      (before after : List Bytes)
      → All (λ x. sha256_hex e.object_id ≡ sha256_hex x.object_id → x ≡ e) (pre ++ e ∷ post)
      → IsIdentity me
      → All IsIdentity after
      → reaches
          (space_topics sha256_hex space_mode (pre ++ e ∷ post) me)
          (edit_topics sha256_hex e.object_id before after)
        ≡ heard false
            (effective_mode space_mode e.mode)
            (contains after me && not (contains before me))
  unfolding edit_topics
  reaches-edit space_mode me pre post e before after once (hm, _) h =
      let added = added_mentions before after in
      let k = added_mentions-IsIdentity before after h in
      space_topics-heard sha256_hex e me (mention_topics sha256_hex e.object_id added) false
        (contains added me)
        (λ x. mention_topics-chat sha256_hex digits e.object_id x added k ∙ sym (ground arith))
        (λ x. mention_topics-mention sha256_hex digits e.object_id x me added k)
        (mention_topics-chats sha256_hex digits e.object_id added k)
        (mention_topics-identity sha256_hex digits e.object_id me added hm) space_mode pre post once
      ∙ ap (heard false (effective_mode space_mode e.mode))
          (added_mentions-contains before after me)

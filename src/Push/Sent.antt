-- ===== src/Push/Sent.antt =====
-- The topics that a chat message and an edit are sent on (internal/push/chatpush.go).
use any.Common.{
  true, false, not, ◌&&◌, List, [], ◌∷◌, ◌++◌, Bytes, ◌≡◌, refl, ap, arith, Bool-cases, inl, inr,
  All, Lacks, if_cases,
}
use any.Strings.{eq_bytes, contains}
use any.Strings.Laws.{eq_bytes→eq, eq_bytes_refl}
use any.Push.{
  topic_chats, slash, topic_chat, topic_chat_mention, mention_topics, message_topics,
  added_mentions, added_loop,
}

-- a text without a slash is no text with one, and none at whose slash another text differs
no_slash_differs : (a b t : Bytes) → Lacks slash a → eq_bytes a (b ++ slash ∷ t) ≡ false
unfolding eq_bytes
no_slash_differs [] [] t h = refl
no_slash_differs [] (y ∷ b) t h = refl
no_slash_differs (x ∷ a) [] t (n, h) = ground arith
no_slash_differs (x ∷ a) (y ∷ b) t (n, h) = ground (arith, no_slash_differs a b t h)

slash_differs : (a b t : Bytes) → Lacks slash a → eq_bytes (b ++ slash ∷ t) a ≡ false
unfolding eq_bytes
slash_differs [] [] t h = refl
slash_differs [] (y ∷ b) t h = refl
slash_differs (x ∷ a) [] t (n, h) = ground arith
slash_differs (x ∷ a) (y ∷ b) t (n, h) = ground (arith, slash_differs a b t h)

eq_bytes-at_slash :
    (a b s t : Bytes)
    → Lacks slash a
    → Lacks slash b
    → eq_bytes (a ++ slash ∷ s) (b ++ slash ∷ t) ≡ (eq_bytes a b && eq_bytes s t)
unfolding eq_bytes
eq_bytes-at_slash [] [] s t ha hb = refl
eq_bytes-at_slash [] (y ∷ b) s t ha (n, hb) = ground arith
eq_bytes-at_slash (x ∷ a) [] s t (n, ha) hb = ground arith
eq_bytes-at_slash (x ∷ a) (y ∷ b) s t (n, ha) (k, hb) =
    ground (arith, eq_bytes-at_slash a b s t ha hb)

-- an identity has no slash and is not the word of the space-wide topic
abbrev pub IsIdentity : Bytes → Type 0
IsIdentity m = Lacks slash m × (eq_bytes m topic_chats ≡ false)

-- the digits of a hash hold no slash
module _ (sha256_hex : Bytes → Bytes) (digits : (id : Bytes) → Lacks slash (sha256_hex id)) where
  pub mention_topics-chat :
      (c x : Bytes) (ms : List Bytes)
      → All IsIdentity ms
      → contains (mention_topics sha256_hex c ms) (topic_chat sha256_hex x) ≡ false
  unfolding mention_topics topic_chat topic_chat_mention contains eq_bytes
  mention_topics-chat c x [] h = refl
  mention_topics-chat c x (m ∷ ms) ((p, q), h) = ground (
    arith,
    slash_differs (sha256_hex x) (sha256_hex c) m (digits x),
    no_slash_differs m topic_chats (sha256_hex x) p,
    mention_topics-chat c x ms h,
  )

  pub mention_topics-mention :
      (c x me : Bytes) (ms : List Bytes)
      → All IsIdentity ms
      → contains (mention_topics sha256_hex c ms) (topic_chat_mention sha256_hex x me)
        ≡ (eq_bytes (sha256_hex c) (sha256_hex x) && contains ms me)
  unfolding mention_topics topic_chat topic_chat_mention contains eq_bytes
  mention_topics-mention c x me [] h = ground arith
  mention_topics-mention c x me (m ∷ ms) ((p, q), h) = ground (
    arith,
    eq_bytes-at_slash (sha256_hex c) (sha256_hex x) m me (digits c) (digits x),
    no_slash_differs m topic_chats (sha256_hex x ++ (slash ∷ me)) p,
    mention_topics-mention c x me ms h,
  )

  pub mention_topics-identity :
      (c me : Bytes) (ms : List Bytes)
      → Lacks slash me
      → contains (mention_topics sha256_hex c ms) me ≡ contains ms me
  unfolding mention_topics topic_chat topic_chat_mention contains eq_bytes
  mention_topics-identity c me [] h = refl
  mention_topics-identity c me (m ∷ ms) h = ground (
    arith,
    slash_differs me topic_chats (sha256_hex c ++ (slash ∷ m)) h,
    mention_topics-identity c me ms h,
  )

  pub mention_topics-chats :
      (c : Bytes) (ms : List Bytes)
      → All IsIdentity ms
      → contains (mention_topics sha256_hex c ms) topic_chats ≡ false
  unfolding mention_topics topic_chat topic_chat_mention contains eq_bytes
  mention_topics-chats c [] h = refl
  mention_topics-chats c (m ∷ ms) ((p, q), h) = rw q (mention_topics-chats c ms h)

eq_bytes_apart : (s t : Bytes) → eq_bytes s t ≡ false → eq_bytes t s ≡ false
eq_bytes_apart s t h = elim (Bool-cases (eq_bytes t s)) [
  | inr e ↦ e
  | inl e ↦ cc (eq_bytes→eq t s e, eq_bytes_refl s, h)
]

added_loop-contains :
    (before after : List Bytes) (m : Bytes)
    → contains (added_loop before after) m ≡ (contains after m && not (contains before m))
unfolding added_loop contains
added_loop-contains before [] m = refl
added_loop-contains before (x ∷ after) m = elim (Bool-cases (eq_bytes x m)) [
  | inl k ↦
      ground
        (arith, k, ap (contains before) (eq_bytes→eq x m k), added_loop-contains before after m)
  | inr k ↦ ground (arith, k, added_loop-contains before after m)
]

pub added_mentions-contains :
    (before after : List Bytes) (m : Bytes)
    → contains (added_mentions before after) m ≡ (contains after m && not (contains before m))
unfolding added_mentions
added_mentions-contains before [] m = unfold contains in refl
added_mentions-contains before (x ∷ after) m = added_loop-contains before (x ∷ after) m

added_loop-IsIdentity :
    (before after : List Bytes) → All IsIdentity after → All IsIdentity (added_loop before after)
unfolding added_loop
added_loop-IsIdentity before [] h = tt
added_loop-IsIdentity before (x ∷ after) (p, h) =
    if_cases (All IsIdentity) (not (contains before x)) _ _
      (λ _. (p, added_loop-IsIdentity before after h)) (λ _. added_loop-IsIdentity before after h)

pub added_mentions-IsIdentity :
    (before after : List Bytes)
    → All IsIdentity after
    → All IsIdentity (added_mentions before after)
unfolding added_mentions
added_mentions-IsIdentity before [] h = tt
added_mentions-IsIdentity before (x ∷ after) h = added_loop-IsIdentity before (x ∷ after) h

module _ (sha256_hex : Bytes → Bytes) (digits : (id : Bytes) → Lacks slash (sha256_hex id)) where
  pub message_topics-chat :
      (c x : Bytes) (ms : List Bytes)
      → All IsIdentity ms
      → contains (message_topics sha256_hex c ms) (topic_chat sha256_hex x)
        ≡ (eq_bytes (sha256_hex c) (sha256_hex x) && true)
  unfolding message_topics topic_chat contains eq_bytes
  message_topics-chat c x ms h = ground (arith, mention_topics-chat sha256_hex digits c x ms h)

  pub message_topics-mention :
      (c x me : Bytes) (ms : List Bytes)
      → All IsIdentity ms
      → contains (message_topics sha256_hex c ms) (topic_chat_mention sha256_hex x me)
        ≡ (eq_bytes (sha256_hex c) (sha256_hex x) && contains ms me)
  unfolding message_topics topic_chat topic_chat_mention contains eq_bytes
  message_topics-mention c x me ms h = ground (
    arith,
    no_slash_differs (sha256_hex c) (sha256_hex x) me (digits c),
    mention_topics-mention sha256_hex digits c x me ms h,
  )

  pub message_topics-identity :
      (c me : Bytes) (ms : List Bytes)
      → IsIdentity me
      → contains (message_topics sha256_hex c ms) me ≡ contains ms me
  unfolding message_topics topic_chat contains
  message_topics-identity c me ms (p, q) = ground (
    arith,
    eq_bytes_apart me topic_chats q,
    slash_differs me topic_chats (sha256_hex c) p,
    mention_topics-identity sha256_hex digits c me ms p,
  )

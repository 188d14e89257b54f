-- ===== src/Push.antt =====
-- internal/push: the topics that an account subscribes to (topics.go), and those that a chat message is
-- sent on (chatpush.go). A function `sha256_hex` stands for the hex digits of SHA-256. The proofs are
-- in the modules below.
pub mod Sent
pub mod Reach
mod Tests
use any.Common.{
  ℕ, Bool, true, false, not, ◌&&◌, ◌||◌, List, [], ◌∷◌, ◌++◌, Option, none, some, Bytes, codes,
  is_nil, if◌then◌else◌,
}
use any.Strings.{eq_bytes, contains, bytes_lt}

abbrev pub mode_all : Bytes
mode_all = codes "all"

abbrev pub mode_mentions : Bytes
mode_mentions = codes "mentions"

abbrev pub mode_none : Bytes
mode_none = codes "none"

abbrev pub topic_chats : Bytes
topic_chats = codes "chats"

abbrev pub slash : ℕ
slash = b'/'

-- the struct chatNotify
pub record ChatNotify : Type 0 where
  pub object_id : Bytes
  pub mode : Bytes

-- What desiredSubs reads of a space.SpaceInfo: the results of its three comparisons, and the setting
-- `notifyMode` if it is a string.
pub record SpaceInfo : Type 0 where
  pub id : Bytes
  pub is_active : Bool
  pub is_owner : Bool
  pub is_one_to_one : Bool
  pub setting : Option Bytes

-- the struct space.PushSpaceTopics
pub record SpaceTopics : Type 0 where
  pub space_id : Bytes
  pub topics : List Bytes

unfoldable pub valid_mode : Bytes → Bool
valid_mode v = eq_bytes v mode_all || eq_bytes v mode_mentions || eq_bytes v mode_none

unfoldable pub notify_mode : Option Bytes → Bytes
notify_mode none = mode_all
notify_mode (some v) = if valid_mode v then v else mode_all

-- whether a chat carries an override
unfoldable pub has_override : List ChatNotify → Bool
has_override [] = false
has_override (ce ∷ entries) = if valid_mode ce.mode then true else has_override entries

-- the topics of a space none of whose chats overrides its mode
unfoldable pub bulk_topics : Bytes → Bytes → List Bytes
bulk_topics space_mode identity =
    if eq_bytes space_mode mode_all
    then topic_chats ∷ identity ∷ []
    else if eq_bytes space_mode mode_mentions
    then identity ∷ []
    else []

-- `eff` of a chat
unfoldable pub effective_mode : Bytes → Bytes → Bytes
effective_mode space_mode mode = if not (valid_mode mode) then space_mode else mode

insert_sub : SpaceTopics → List SpaceTopics → List SpaceTopics
insert_sub s [] = s ∷ []
insert_sub s (t ∷ ts) = if bytes_lt t.space_id s.space_id then t ∷ insert_sub s ts else s ∷ t ∷ ts

sort_subs : List SpaceTopics → List SpaceTopics
sort_subs [] = []
sort_subs (s ∷ ss) = insert_sub s (sort_subs ss)

insert_id : Bytes → List Bytes → List Bytes
insert_id s [] = s ∷ []
insert_id s (t ∷ ts) = if bytes_lt t s then t ∷ insert_id s ts else s ∷ t ∷ ts

sort_ids : List Bytes → List Bytes
sort_ids [] = []
sort_ids (s ∷ ss) = insert_id s (sort_ids ss)

-- the loop of addedMentions; the look-up in `seen` is that in `before`
added_loop : List Bytes → List Bytes → List Bytes
added_loop before [] = []
added_loop before (m ∷ after) =
    let rest = added_loop before after in if not (contains before m) then m ∷ rest else rest

unfoldable pub added_mentions : List Bytes → List Bytes → List Bytes
unfolding added_loop
added_mentions before after = if is_nil after then [] else added_loop before after

module _ (sha256_hex : Bytes → Bytes) where
  unfoldable pub topic_chat : Bytes → Bytes
  topic_chat chat_object_id = topic_chats ++ (slash ∷ sha256_hex chat_object_id)

  unfoldable pub topic_chat_mention : Bytes → Bytes → Bytes
  unfolding topic_chat
  topic_chat_mention chat_object_id identity = topic_chat chat_object_id ++ (slash ∷ identity)

  -- the inner switch of spaceTopics
  unfoldable pub mode_topics : Bytes → Bytes → Bytes → List Bytes
  mode_topics eff object_id identity =
      if eq_bytes eff mode_all
      then topic_chat object_id ∷ topic_chat_mention object_id identity ∷ []
      else if eq_bytes eff mode_mentions
      then topic_chat_mention object_id identity ∷ []
      else []

  -- the second loop of spaceTopics
  unfoldable pub chat_topics : Bytes → List ChatNotify → Bytes → List Bytes
  chat_topics space_mode [] identity = []
  chat_topics space_mode (ce ∷ entries) identity =
      mode_topics (effective_mode space_mode ce.mode) ce.object_id identity
      ++ chat_topics space_mode entries identity

  unfoldable pub space_topics : Bytes → List ChatNotify → Bytes → List Bytes
  space_topics space_mode entries identity =
      if not (has_override entries)
      then bulk_topics space_mode identity
      else chat_topics space_mode entries identity

  registered : List SpaceInfo → List Bytes
  registered [] = []
  registered (info ∷ infos) =
      let rest = registered infos in
      if not info.is_active
      then rest
      else if info.is_owner || info.is_one_to_one
      then info.id ∷ rest
      else rest

  subscribed : List SpaceInfo → (Bytes → List ChatNotify) → Bytes → List SpaceTopics
  subscribed [] chats identity = []
  subscribed (info ∷ infos) chats identity =
      let rest = subscribed infos chats identity in
      let topics = space_topics (notify_mode info.setting) (chats info.id) identity in
      if not info.is_active
      then rest
      else if not (is_nil topics)
      then record { space_id = info.id; topics = topics } ∷ rest
      else rest

  -- desiredSubs; a space without a key in `chats` has no chats
  unfoldable pub desired_subs :
      List SpaceInfo → (Bytes → List ChatNotify) → Bytes → List SpaceTopics × List Bytes
  unfolding registered subscribed sort_subs insert_sub sort_ids insert_id
  desired_subs infos chats identity =
      (sort_subs (subscribed infos chats identity), sort_ids (registered infos))

  -- the loop on the mentions, of NotifyChatMessage and NotifyChatEdit
  unfoldable pub mention_topics : Bytes → List Bytes → List Bytes
  mention_topics object_id [] = []
  mention_topics object_id (m ∷ mentions) =
      topic_chat_mention object_id m ∷ m ∷ mention_topics object_id mentions

  -- the topics of NotifyChatMessage
  unfoldable pub message_topics : Bytes → List Bytes → List Bytes
  message_topics object_id mentions =
      topic_chats ∷ topic_chat object_id ∷ mention_topics object_id mentions

  -- the topics of NotifyChatEdit; with none added nothing is sent
  unfoldable pub edit_topics : Bytes → List Bytes → List Bytes → List Bytes
  edit_topics object_id before after = mention_topics object_id (added_mentions before after)

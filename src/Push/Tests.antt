-- ===== src/Push/Tests.antt =====
-- Runs of the topic computation, and the theorems at a concrete space.
use any.Common.{
  ◌+◌, true, false, not, ◌&&◌, [], ◌∷◌, ◌++◌, Bytes, codes, ◌≡◌, ◌≢◌, refl, ap, arith, Lacks,
}
use any.Strings.{eq_bytes, contains}
use any.Push.{
  ChatNotify, slash, space_topics, message_topics, edit_topics, effective_mode, valid_mode,
  has_override, chat_topics, mode_topics, topic_chat, topic_chat_mention,
}
use any.Push.Sent.{IsIdentity}
use any.Push.Reach.{reaches, heard, reaches-message, reaches-edit}

-- an injective function in the place of the hash
abbrev hex : Bytes → Bytes
hex [] = []
hex (c ∷ s) = (c + 97) ∷ hex s

hex-Lacks : (s : Bytes) → Lacks slash (hex s)
hex-Lacks [] = tt
hex-Lacks (c ∷ s) = (omega arith, hex-Lacks s)

abbrev quiet : ChatNotify
quiet = record { object_id = codes "c1"; mode = codes "mentions" }

abbrev plain : ChatNotify
plain = record { object_id = codes "c2"; mode = codes "" }

abbrev me : Bytes
me = codes "A1"

quiet_chats :
    space_topics hex (codes "none") (plain ∷ quiet ∷ []) me
    ≡ (codes "chats/" ++ (hex (codes "c1") ++ codes "/A1")) ∷ []
unfolding space_topics has_override chat_topics mode_topics effective_mode valid_mode topic_chat
    topic_chat_mention eq_bytes
quiet_chats = refl

true_not_false : true ≢ false
true_not_false h = cc

other_hash : hex quiet.object_id ≢ hex plain.object_id
unfolding eq_bytes
other_hash h = true_not_false (ap (eq_bytes (hex quiet.object_id)) h)

me-IsIdentity : IsIdentity me
unfolding eq_bytes
me-IsIdentity = ((omega arith, (omega arith, tt)), refl)

reaches-message_example :
    reaches
      (space_topics hex (codes "all") (plain ∷ quiet ∷ []) me)
      (message_topics hex quiet.object_id (me ∷ []))
    ≡ heard true (effective_mode (codes "all") quiet.mode) (contains (me ∷ []) me)
reaches-message_example =
    reaches-message hex hex-Lacks (codes "all") me (plain ∷ []) [] quiet (me ∷ [])
      ((λ h. absurd (other_hash h)), ((λ h. refl), tt)) me-IsIdentity (me-IsIdentity, tt)

reaches-edit_example :
    reaches
      (space_topics hex (codes "all") (plain ∷ quiet ∷ []) me)
      (edit_topics hex quiet.object_id [] (me ∷ []))
    ≡ heard false
        (effective_mode (codes "all") quiet.mode)
        (contains (me ∷ []) me && not (contains [] me))
reaches-edit_example =
    reaches-edit hex hex-Lacks (codes "all") me (plain ∷ []) [] quiet [] (me ∷ [])
      ((λ h. absurd (other_hash h)), ((λ h. refl), tt)) me-IsIdentity (me-IsIdentity, tt)

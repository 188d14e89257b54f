-- ===== src/Anyuri/Links.antt =====
-- anyuri/links.go and anyuri/mentions.go: the scanner for references in text, and the index keys of
-- references. The proofs are in the modules below.
pub mod Canonical
pub mod Finds
pub mod Places
pub mod Scan
use any.Common.{
  ℕ, zero, suc, ◌+◌, ◌-◌, Bool, true, false, not, ◌&&◌, ◌||◌, List, [], ◌∷◌, ◌++◌, Option, none,
  some, Bytes, codes, length, drop, take, ◌==◌, ltb, leb, if◌then◌else◌,
}
use any.Strings.{eq_bytes, is_empty, cut, index, trim_right, contains}
use any.Anyuri.{
  Result, ok, err, Uri, zero_uri, prefix, kind_object, kind_identity, kind_mention, kind_prop,
  kind_file, string, parse, build_object_global,
}

is_alphanumeric : ℕ → Bool
is_alphanumeric c = leb b'a' c && leb c b'z' || leb b'A' c && leb c b'Z' || leb b'0' c && leb c b'9'

unfoldable pub is_tail_byte : ℕ → Bool
unfolding is_alphanumeric
is_tail_byte c =
    is_alphanumeric c
    || c == b'/'
    || c == b'?'
    || c == b'&'
    || c == b'='
    || c == b'#'
    || c == b'_'
    || c == b'-'
    || c == b'.'

unfoldable pub is_scheme_byte : ℕ → Bool
unfolding is_alphanumeric
is_scheme_byte c = is_alphanumeric c || c == b'+' || c == b'-' || c == b'.'

-- the closure `cut` of shedGluedPeriod: the id, and whether anything is left of it
shed : Bytes → Bytes × Bool
shed s = let id = (cut b'.' s).0 in (id, not (is_empty id))

unfoldable pub shed_glued_period : Uri → Uri × Bool
unfolding shed eq_bytes cut
shed_glued_period u =
    if eq_bytes u.kind kind_object
    then (if not (is_empty u.record_id)
        then (record u { record_id = (shed u.record_id).0 }, (shed u.record_id).1)
        else (record u { object_id = (shed u.object_id).0 }, (shed u.object_id).1))
    else if eq_bytes u.kind kind_identity || eq_bytes u.kind kind_mention
    then (record u { identity = (shed u.identity).0 }, (shed u.identity).1)
    else if eq_bytes u.kind kind_prop
    then (record u { prop_id = (shed u.prop_id).0 }, (shed u.prop_id).1)
    else if eq_bytes u.kind kind_file
    then (record u { file_id = (shed u.file_id).0 }, (shed u.file_id).1)
    else (u, true)

-- the token that begins with the prefix: the tail bytes behind it, less the punctuation at its end
tail_bytes : Bytes → Bytes
tail_bytes [] = []
tail_bytes (c ∷ s) = if is_tail_byte c then c ∷ tail_bytes s else []

pub is_punctuation : ℕ → Bool
is_punctuation c = c == b'.' || c == b',' || c == b';' || c == b':' || c == b'!' || c == b'?'

pub token_at : Bytes → Bytes
unfolding tail_bytes is_tail_byte trim_right is_punctuation
token_at behind = trim_right is_punctuation (prefix ++ tail_bytes behind)

-- what the loop gathers: the references, and the set of their texts
pub record Found : Type 0 where
  pub links : List Uri
  pub seen : List Bytes

record_link : Found → Uri → Found
record_link found u =
    if contains found.seen (string u)
    then found
    else record { links = found.links ++ u ∷ []; seen = found.seen ++ string u ∷ [] }

shed_link : Found → Uri × Bool → Found
shed_link found (u, true) = record_link found u
shed_link found (u, false) = found

accept_token : Found → Result Uri → Found
accept_token found (err _) = found
accept_token found (ok u) = shed_link found (shed_glued_period u)

-- the body of the loop at a match of the prefix, on the byte before it and the text behind it
pub at_match : Found → Option ℕ → Bytes → Found
at_match found (some before) behind =
    if is_scheme_byte before then found else accept_token found (parse (token_at behind))
at_match found none behind = accept_token found (parse (token_at behind))

-- text[n-1], if n > 0
pub byte_before : ℕ → Option ℕ → Bytes → Option ℕ
byte_before zero last s = last
byte_before (suc zero) last (c ∷ s) = some c
byte_before (suc n) last [] = none
byte_before (suc (suc n)) last (c ∷ s) = byte_before (suc n) last s

-- The loop, on the byte before the position `i` and the text from there on. Every round passes over
-- the prefix, so that the length of the text is enough fuel.
unfoldable pub scan : ℕ → Option ℕ → Bytes → Found → Found
scan zero last s found = found
scan (suc f) last s found = elim (index s prefix) [
  | none ↦ found
  | some idx ↦
      let behind = drop (idx + 6) s in
      scan f (some b'/') behind (at_match found (byte_before idx last s) behind)
]

unfoldable pub extract_links : Bytes → List Uri
unfolding scan at_match accept_token shed_link record_link token_at byte_before shed_glued_period
    is_scheme_byte contains index parse string
extract_links text = (scan (length text) none text (record { links = []; seen = [] })).links

mention_loop : List Uri → List Bytes → List Bytes
mention_loop [] out = out
mention_loop (u ∷ us) out = mention_loop us (
    if not (eq_bytes u.kind kind_identity) && not (eq_bytes u.kind kind_mention)
      || is_empty u.identity
      || contains out u.identity
    then out
    else out ++ u.identity ∷ [])

unfoldable pub extract_mentions : Bytes → List Bytes
unfolding mention_loop extract_links
extract_mentions text = mention_loop (extract_links text) []

or_default : Bytes → Bytes → Bytes
or_default s d = if is_empty s then d else s

-- URI.Canonical; `none` is false
unfoldable pub canonical : Bytes → Uri → Option Uri
unfolding eq_bytes or_default
canonical space u =
    let sp = or_default u.space_id space in
    if eq_bytes u.kind kind_identity || eq_bytes u.kind kind_mention
    then (if is_empty u.identity
        then none
        else some (record zero_uri { kind = kind_identity; identity = u.identity }))
    else if is_empty sp
    then none
    else if eq_bytes u.kind kind_object
    then (if is_empty u.object_id
        then none
        else some (record zero_uri {
          kind = u.kind;
          space_id = sp;
          object_id = u.object_id;
          dataset = u.dataset;
          record_id = u.record_id;
        }))
    else if eq_bytes u.kind kind_prop
    then (if is_empty u.object_id || is_empty u.prop_id
        then none
        else some (record zero_uri {
          kind = u.kind;
          space_id = sp;
          object_id = u.object_id;
          prop_id = u.prop_id;
        }))
    else if eq_bytes u.kind kind_file
    then (if is_empty u.file_id
        then none
        else some (record zero_uri { kind = u.kind; space_id = sp; file_id = u.file_id }))
    else none

-- URI.ObjectKey; `none` is false
unfoldable pub object_key : Uri → Option Bytes
unfolding eq_bytes build_object_global
object_key u =
    if eq_bytes u.kind kind_object || eq_bytes u.kind kind_prop
    then (if is_empty u.space_id || is_empty u.object_id
        then none
        else some (build_object_global u.space_id u.object_id))
    else none

unfoldable pub is_part : Uri → Bool
unfolding eq_bytes
is_part u =
    if eq_bytes u.kind kind_object then not (is_empty u.record_id) else eq_bytes u.kind kind_prop

-- ===== src/Anyuri.antt =====
-- anyuri/anyuri.go: the any:// references. A string is its bytes, a parse error keeps its class and
-- not its message. The proofs are in the modules below.
pub mod Grammar
pub mod RoundTrip
pub mod Sound
pub mod Refs
mod Builders
pub mod Links
mod Tests
use any.Common.{
  ℕ, zero, suc, ◌+◌, Bool, true, false, not, ◌&&◌, ◌||◌, List, [], ◌∷◌, ◌++◌, Option, none, some,
  Bytes, codes, length, ◌==◌, ltb, leb, if◌then◌else◌,
}
use any.Strings.{eq_bytes, is_empty, cut_prefix, cut, split}

-- ErrInvalid and ErrKindUnknown
pub data Error : Type 0 where
  invalid kind_unknown : Error

pub data Result {ℓ} (A : Type ℓ) : Type ℓ where
  ok : A → Result A
  err : Error → Result A

-- the struct URI; Kind is a Go string
pub record Uri : Type 0 where
  pub kind : Bytes
  pub space_id : Bytes
  pub object_id : Bytes
  pub dataset : Bytes
  pub record_id : Bytes
  pub prop_id : Bytes
  pub identity : Bytes
  pub file_id : Bytes
  pub variant : Bytes
  pub fragment : Bytes
  pub legacy : Bool

-- URI{}
abbrev pub zero_uri : Uri
zero_uri = record {
  kind = [];
  space_id = [];
  object_id = [];
  dataset = [];
  record_id = [];
  prop_id = [];
  identity = [];
  file_id = [];
  variant = [];
  fragment = [];
  legacy = false;
}

abbrev pub prefix : Bytes
prefix = codes "any://"

abbrev pub kind_object : Bytes
kind_object = codes "o"

abbrev pub kind_identity : Bytes
kind_identity = codes "u"

abbrev pub kind_space : Bytes
kind_space = codes "s"

abbrev pub kind_prop : Bytes
kind_prop = codes "p"

abbrev pub kind_file : Bytes
kind_file = codes "f"

abbrev pub kind_mention : Bytes
kind_mention = codes "m"

abbrev pub slash : ℕ
slash = b'/'

unfoldable pub build_object : Bytes → Bytes
build_object id = prefix ++ id

unfoldable pub build_object_global : Bytes → Bytes → Bytes
build_object_global sp id = prefix ++ (kind_object ++ (slash ∷ (sp ++ (slash ∷ id))))

unfoldable pub build_record : Bytes → Bytes → Bytes → Bytes → Bytes
build_record sp id ds rec =
    prefix ++ (kind_object ++ (slash ∷ (sp ++ (slash ∷ (id ++ (slash ∷ (ds ++ (slash ∷ rec))))))))

unfoldable pub build_identity : Bytes → Bytes
build_identity id = prefix ++ (kind_identity ++ (slash ∷ id))

unfoldable pub build_mention : Bytes → Bytes → Bytes
unfolding build_identity
build_mention sp id = build_identity id

unfoldable pub build_space : Bytes → Bytes
build_space sp = prefix ++ (kind_space ++ (slash ∷ sp))

unfoldable pub build_prop : Bytes → Bytes → Bytes → Bytes
build_prop sp id p = prefix ++ (kind_prop ++ (slash ∷ (sp ++ (slash ∷ (id ++ (slash ∷ p))))))

unfoldable pub build_file : Bytes → Bytes → Bytes
build_file sp f = prefix ++ (kind_file ++ (slash ∷ (sp ++ (slash ∷ f))))

unfoldable pub build_file_variant : Bytes → Bytes → Bytes → Bytes
unfolding build_file
build_file_variant sp f v = build_file sp f ++ (codes "?variant=" ++ v)

-- the inner switch of String, behind the kind and the space id
kind_tail : Uri → Bytes
kind_tail u =
    if eq_bytes u.kind kind_object
    then slash
      ∷ (u.object_id
          ++ (if is_empty u.dataset then [] else slash ∷ (u.dataset ++ (slash ∷ u.record_id))))
    else if eq_bytes u.kind kind_mention
    then slash ∷ u.identity
    else if eq_bytes u.kind kind_space
    then []
    else if eq_bytes u.kind kind_prop
    then slash ∷ (u.object_id ++ (slash ∷ u.prop_id))
    else if eq_bytes u.kind kind_file
    then slash ∷ (u.file_id ++ (if is_empty u.variant then [] else codes "?variant=" ++ u.variant))
    else []

-- the outer switch of String
body : Uri → Bytes
body u =
    if is_empty u.kind || u.legacy && eq_bytes u.kind kind_object
    then (if is_empty u.space_id then [] else u.space_id ++ (slash ∷ [])) ++ u.object_id
    else if eq_bytes u.kind kind_identity
    then u.kind ++ (slash ∷ u.identity)
    else u.kind ++ (slash ∷ (u.space_id ++ kind_tail u))

-- URI.String
unfoldable pub string : Uri → Bytes
unfolding body kind_tail eq_bytes
string u = prefix ++ (body u ++ (if is_empty u.fragment then [] else b'#' ∷ u.fragment))

slug_byte : ℕ → Bool
slug_byte c = not ((ltb c b'a' || ltb b'z' c) && (ltb c b'0' || ltb b'9' c))

all_slug_bytes : Bytes → Bool
all_slug_bytes [] = true
all_slug_bytes (c ∷ s) = if slug_byte c then all_slug_bytes s else false

unfoldable pub is_kind_slug : Bytes → Bool
unfolding slug_byte all_slug_bytes
is_kind_slug s = if length s == 0 || ltb 4 (length s) then false else all_slug_bytes s

-- The loop of paramValue. Each round takes at least one byte of the text, so that its length is
-- enough fuel.
param_loop : ℕ → Bytes → Bytes → Bytes
param_loop zero raw key = []
param_loop (suc f) raw key =
    let (pair, rest, _) = cut b'&' raw in
    let (k, v, found) = cut b'=' pair in
    let next = param_loop f rest key in
    if is_empty raw then [] else if found && eq_bytes k key then v else next

unfoldable pub param_value : Bytes → Bytes → Bytes
unfolding param_loop cut eq_bytes
param_value raw key = param_loop (length raw) raw key

-- case KindObject of Parse, on the segments behind the kind
object_args : Uri → List Bytes → Result Uri
object_args u (sp ∷ id ∷ []) = ok (record u { space_id = sp; object_id = id })
object_args u (sp ∷ id ∷ ds ∷ rec ∷ []) =
    ok (record u { space_id = sp; object_id = id; dataset = ds; record_id = rec })
object_args u _ = err invalid

identity_args : Uri → List Bytes → Result Uri
identity_args u (id ∷ []) = ok (record u { identity = id })
identity_args u _ = err invalid

mention_args : Uri → List Bytes → Result Uri
mention_args u (sp ∷ id ∷ []) = ok (record u { space_id = sp; identity = id; legacy = true })
mention_args u _ = err invalid

space_args : Uri → List Bytes → Result Uri
space_args u (sp ∷ []) = ok (record u { space_id = sp })
space_args u _ = err invalid

prop_args : Uri → List Bytes → Result Uri
prop_args u (sp ∷ id ∷ p ∷ []) = ok (record u { space_id = sp; object_id = id; prop_id = p })
prop_args u _ = err invalid

file_args : Uri → Bytes → List Bytes → Result Uri
file_args u params (sp ∷ f ∷ []) =
    ok (record u { space_id = sp; file_id = f; variant = param_value params (codes "variant") })
file_args u params _ = err invalid

-- the switch on u.Kind
typed : Bytes → Bytes → Bytes → List Bytes → Result Uri
typed fragment params k args =
    let u = record zero_uri { kind = k; fragment = fragment } in
    if eq_bytes k kind_object
    then object_args u args
    else if eq_bytes k kind_identity
    then identity_args u args
    else if eq_bytes k kind_mention
    then mention_args u args
    else if eq_bytes k kind_space
    then space_args u args
    else if eq_bytes k kind_prop
    then prop_args u args
    else if eq_bytes k kind_file
    then file_args u params args
    else err kind_unknown

-- the bare forms, whose first segment is an id
legacy_form : Bytes → Bytes → List Bytes → Result Uri
legacy_form fragment first [] =
    ok (record zero_uri {
      kind = kind_object;
      legacy = true;
      fragment = fragment;
      object_id = first;
    })
legacy_form fragment first (second ∷ []) = ok (record zero_uri {
  kind = kind_object;
  legacy = true;
  fragment = fragment;
  space_id = first;
  object_id = second;
})
legacy_form fragment first _ = err invalid

any_empty : List Bytes → Bool
any_empty [] = false
any_empty (seg ∷ segs) = if is_empty seg then true else any_empty segs

parse_segments : Bytes → Bytes → Bytes → List Bytes → Result Uri
unfolding any_empty
parse_segments fragment params first args =
    if any_empty (first ∷ args)
    then err invalid
    else if not (is_kind_slug first)
    then legacy_form fragment first args
    else typed fragment params first args

-- behind the prefix
parse_rest : Bytes → Result Uri
parse_rest text =
    let (rest, fragment, _) = cut b'#' text in
    let (path, params, _) = cut b'?' rest in
    let (first, args) = split slash path in
    if is_empty path then err invalid else parse_segments fragment params first args

parse_behind : Option Bytes → Result Uri
parse_behind none = err invalid
parse_behind (some rest) = parse_rest rest

unfoldable pub parse : Bytes → Result Uri
unfolding cut_prefix cut split eq_bytes parse_behind parse_rest parse_segments typed legacy_form
    object_args identity_args mention_args space_args prop_args file_args is_kind_slug param_value
parse s = parse_behind (cut_prefix prefix s)

is_ok : Result Uri → Bool
is_ok (ok _) = true
is_ok (err _) = false

unfoldable pub is_valid : Bytes → Bool
unfolding is_ok
is_valid s = is_ok (parse s)

property_value_ref : Bytes → Result Uri → Bool
property_value_ref s (err _) = false
property_value_ref s (ok u) =
    u.legacy
    && eq_bytes u.kind kind_object
    && is_empty u.space_id
    && is_empty u.fragment
    && eq_bytes (string u) s

unfoldable pub is_property_value_ref : Bytes → Bool
unfolding property_value_ref
is_property_value_ref s = property_value_ref s (parse s)

-- c >= '1' && c <= '9' and the five ranges of letters
base58_byte : ℕ → Bool
base58_byte c =
    leb b'1' c && leb c b'9'
    || leb b'a' c && leb c b'k'
    || leb b'm' c && leb c b'z'
    || leb b'A' c && leb c b'H'
    || leb b'J' c && leb c b'N'
    || leb b'P' c && leb c b'Z'

all_base58 : Bytes → Bool
all_base58 [] = true
all_base58 (c ∷ s) = if base58_byte c then all_base58 s else false

unfoldable pub is_base58 : Bytes → Bool
unfolding base58_byte all_base58
is_base58 s = if is_empty s then false else all_base58 s

identity_value_ref : Bytes → Result Uri → Bool
identity_value_ref s (err _) = false
identity_value_ref s (ok u) =
    eq_bytes u.kind kind_identity
    && is_empty u.fragment
    && is_base58 u.identity
    && eq_bytes (string u) s

unfoldable pub is_identity_value_ref : Bytes → Bool
unfolding identity_value_ref
is_identity_value_ref s = identity_value_ref s (parse s)

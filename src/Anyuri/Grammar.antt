-- ===== src/Anyuri/Grammar.antt =====
-- The grammar that anyuri/anyuri.go documents, apart from its code: the forms of a reference, the
-- text of each, and what the parts may hold.
use any.Common.{true, false, List, [], ◌∷◌, ◌++◌, Bytes, codes, Lacks, ◌≡◌, if◌then◌else◌}
use any.Strings.{is_empty, join}
use any.Anyuri.{
  Uri, zero_uri, prefix, kind_object, kind_identity, kind_space, kind_prop, kind_file, kind_mention,
  slash, is_kind_slug,
}

pub data Form : Type 0 where
  in_space : Bytes → Form
  global : Bytes → Bytes → Form
  object : Bytes → Bytes → Form
  dataset_record : Bytes → Bytes → Bytes → Bytes → Form
  identity : Bytes → Form
  mention : Bytes → Bytes → Form
  space : Bytes → Form
  prop : Bytes → Bytes → Bytes → Form
  file : Bytes → Bytes → Bytes → Form

-- the path segments
abbrev pub first : Form → Bytes
first (in_space id) = id
first (global sp id) = sp
first (object sp id) = kind_object
first (dataset_record sp id ds rec) = kind_object
first (identity id) = kind_identity
first (mention sp id) = kind_mention
first (space sp) = kind_space
first (prop sp id p) = kind_prop
first (file sp f v) = kind_file

abbrev pub others : Form → List Bytes
others (in_space id) = []
others (global sp id) = id ∷ []
others (object sp id) = sp ∷ id ∷ []
others (dataset_record sp id ds rec) = sp ∷ id ∷ ds ∷ rec ∷ []
others (identity id) = id ∷ []
others (mention sp id) = sp ∷ id ∷ []
others (space sp) = sp ∷ []
others (prop sp id p) = sp ∷ id ∷ p ∷ []
others (file sp f v) = sp ∷ f ∷ []

abbrev pub query_of_variant : Bytes → Bytes
query_of_variant v = if is_empty v then [] else codes "?variant=" ++ v

abbrev pub query : Form → Bytes
query (file sp f v) = query_of_variant v
query _ = []

abbrev pub anchor : Bytes → Bytes
anchor fragment = if is_empty fragment then [] else b'#' ∷ fragment

-- the text of a form with a fragment
abbrev pub render : Form → Bytes → Bytes
render f fragment = prefix ++ ((join slash (first f) (others f) ++ query f) ++ anchor fragment)

-- the value that stands for a form with a fragment
abbrev pub uri : Form → Bytes → Uri
uri (in_space id) fragment = record zero_uri {
  kind = kind_object;
  object_id = id;
  legacy = true;
  fragment = fragment;
}
uri (global sp id) fragment = record zero_uri {
  kind = kind_object;
  space_id = sp;
  object_id = id;
  legacy = true;
  fragment = fragment;
}
uri (object sp id) fragment = record zero_uri {
  kind = kind_object;
  space_id = sp;
  object_id = id;
  fragment = fragment;
}
uri (dataset_record sp id ds rec) fragment = record zero_uri {
  kind = kind_object;
  space_id = sp;
  object_id = id;
  dataset = ds;
  record_id = rec;
  fragment = fragment;
}
uri (identity id) fragment = record zero_uri {
  kind = kind_identity;
  identity = id;
  fragment = fragment;
}
uri (mention sp id) fragment = record zero_uri {
  kind = kind_mention;
  space_id = sp;
  identity = id;
  legacy = true;
  fragment = fragment;
}
uri (space sp) fragment = record zero_uri { kind = kind_space; space_id = sp; fragment = fragment }
uri (prop sp id p) fragment = record zero_uri {
  kind = kind_prop;
  space_id = sp;
  object_id = id;
  prop_id = p;
  fragment = fragment;
}
uri (file sp f v) fragment = record zero_uri {
  kind = kind_file;
  space_id = sp;
  file_id = f;
  variant = v;
  fragment = fragment;
}

-- A path segment is not empty and holds none of the delimiters.
pub record IsSegment (s : Bytes) : Type 0 where
  pub filled : is_empty s ≡ false
  pub no_slash : Lacks slash s
  pub no_query : Lacks b'?' s
  pub no_hash : Lacks b'#' s

-- An id that may stand first in a bare form: it is no kind slug.
abbrev pub IsBareId : Bytes → Type 0
IsBareId s = IsSegment s × (is_kind_slug s ≡ false)

-- A parameter value: it ends at `&`, and the query at `#`.
abbrev pub IsParam : Bytes → Type 0
IsParam v = Lacks b'&' v × Lacks b'#' v

abbrev pub IsForm : Form → Type 0
IsForm (in_space id) = IsBareId id
IsForm (global sp id) = IsBareId sp × IsSegment id
IsForm (object sp id) = IsSegment sp × IsSegment id
IsForm (dataset_record sp id ds rec) = IsSegment sp × IsSegment id × IsSegment ds × IsSegment rec
IsForm (identity id) = IsSegment id
IsForm (mention sp id) = IsSegment sp × IsSegment id
IsForm (space sp) = IsSegment sp
IsForm (prop sp id p) = IsSegment sp × IsSegment id × IsSegment p
IsForm (file sp f v) = IsSegment sp × IsSegment f × IsParam v

-- ===== src/Anyuri/Tests.antt =====
-- Runs of the parser and the printer, and the theorems at concrete references.
use any.Common.{
  ℕ, ◌*◌, ◌≤◌, length, ℕ, true, false, [], ◌∷◌, Bytes, codes, none, some, ◌≡◌, ◌≢◌, refl, arith,
  map, ◌↔◌,
}
use any.Anyuri.{
  kind_unknown, ok, err, Uri, zero_uri, parse, string, is_property_value_ref, is_identity_value_ref,
  slash, is_kind_slug, build_object, build_identity, is_base58, build_object_global, build_record,
  build_mention, build_space, build_prop, build_file, build_file_variant,
}
use any.Anyuri.Grammar.{
  dataset_record, file, prop, object, in_space, identity, space, render, uri, IsSegment, IsBareId,
  IsParam,
}
use any.Anyuri.RoundTrip.{parse-render, string-uri}
use any.Anyuri.Sound.{parse-string}
use any.Anyuri.Builders.{parse-builders}
use any.Anyuri.Refs.{is_property_value_ref_iff, is_identity_value_ref_iff}
use any.Anyuri.Links.{extract_links, canonical, object_key, Found}
use any.Anyuri.Links.Finds.{AreRefs, extract_links-AreRefs}
use any.Anyuri.Links.Scan.{Run, extract_links-ends}
use any.Anyuri.Links.Canonical.{
  canonical_idem, object_key-uri, text_of, object_of, target, target_uri, canonical-uri,
  parse-string-canonical,
}

abbrev file_text : Bytes
file_text = codes "any://f/sp/fi?x=1&variant=t=2#top"

abbrev file_value : Uri
file_value = record zero_uri {
  kind = codes "f";
  space_id = codes "sp";
  file_id = codes "fi";
  variant = codes "t=2";
  fragment = codes "top";
}

parse_file : parse file_text ≡ ok file_value
unfolding parse
parse_file = refl

parse_unknown : parse (codes "any://i/x") ≡ err kind_unknown
unfolding parse
parse_unknown = refl

not_strict : is_property_value_ref (codes "any://sp/objectid") ≡ false
unfolding is_property_value_ref parse string
not_strict = refl

-- a segment of two bytes
two_bytes :
    (a b : ℕ)
    → (a ≢ slash) × (a ≢ b'?') × (a ≢ b'#')
    → (b ≢ slash) × (b ≢ b'?') × (b ≢ b'#')
    → IsSegment (a ∷ b ∷ [])
two_bytes a b (p, q, r) (s, t, u) = record {
  filled = refl;
  no_slash = (p, (s, tt));
  no_query = (q, (t, tt));
  no_hash = (r, (u, tt));
}

sp_IsSegment : IsSegment (codes "sp")
sp_IsSegment = two_bytes b's' b'p' (omega arith) (omega arith)

ob_IsSegment : IsSegment (codes "ob")
ob_IsSegment = two_bytes b'o' b'b' (omega arith) (omega arith)

ds_IsSegment : IsSegment (codes "ds")
ds_IsSegment = two_bytes b'd' b's' (omega arith) (omega arith)

bare_IsBareId : IsBareId (codes "Qm")
unfolding is_kind_slug
bare_IsBareId = (two_bytes b'Q' b'm' (omega arith) (omega arith), refl)

v_IsParam : IsParam (codes "v2")
v_IsParam = ((omega arith, (omega arith, tt)), (omega arith, (omega arith, tt)))

parse-string_example : parse (string file_value) ≡ ok file_value
parse-string_example = parse-string file_text file_value parse_file

parse-render_example :
    parse (render (dataset_record (codes "sp") (codes "ob") (codes "ds") (codes "Qm")) (codes "x"))
    ≡ ok (uri (dataset_record (codes "sp") (codes "ob") (codes "ds") (codes "Qm")) (codes "x"))
parse-render_example =
    parse-render (dataset_record (codes "sp") (codes "ob") (codes "ds") (codes "Qm")) (codes "x")
      (sp_IsSegment, ob_IsSegment, ds_IsSegment, bare_IsBareId.0)

string-uri_example :
    string (uri (file (codes "sp") (codes "ob") (codes "v2")) (codes "x"))
    ≡ render (file (codes "sp") (codes "ob") (codes "v2")) (codes "x")
string-uri_example =
    string-uri (file (codes "sp") (codes "ob") (codes "v2")) (codes "x")
      (sp_IsSegment, ob_IsSegment, v_IsParam)

parse-builders_example :
    (parse (build_object (codes "Qm")) ≡ ok (uri (in_space (codes "Qm")) []))
    × (parse (build_object_global (codes "sp") (codes "Qm"))
        ≡ ok (uri (object (codes "sp") (codes "Qm")) []))
    × (parse (build_record (codes "sp") (codes "Qm") (codes "ds") (codes "ob"))
        ≡ ok (uri (dataset_record (codes "sp") (codes "Qm") (codes "ds") (codes "ob")) []))
    × (parse (build_identity (codes "Qm")) ≡ ok (uri (identity (codes "Qm")) []))
    × (parse (build_mention (codes "sp") (codes "Qm")) ≡ ok (uri (identity (codes "Qm")) []))
    × (parse (build_space (codes "sp")) ≡ ok (uri (space (codes "sp")) []))
    × (parse (build_prop (codes "sp") (codes "Qm") (codes "ob"))
        ≡ ok (uri (prop (codes "sp") (codes "Qm") (codes "ob")) []))
    × (parse (build_file (codes "sp") (codes "Qm"))
        ≡ ok (uri (file (codes "sp") (codes "Qm") []) []))
    × (parse (build_file_variant (codes "sp") (codes "Qm") (codes "v2"))
        ≡ ok (uri (file (codes "sp") (codes "Qm") (codes "v2")) []))
parse-builders_example =
    parse-builders (codes "sp") (codes "Qm") (codes "ds") (codes "ob") (codes "ob") (codes "v2")
      sp_IsSegment bare_IsBareId ds_IsSegment ob_IsSegment ob_IsSegment v_IsParam refl

is_property_value_ref_iff_example :
    (is_property_value_ref (codes "any://Qm") ≡ true)
    ↔ ((id : Bytes) × IsBareId id × (codes "any://Qm" ≡ build_object id))
is_property_value_ref_iff_example = is_property_value_ref_iff (codes "any://Qm")

is_identity_value_ref_iff_example :
    (is_identity_value_ref (codes "any://u/A0") ≡ true)
    ↔ ((id : Bytes) × (is_base58 id ≡ true) × (codes "any://u/A0" ≡ build_identity id))
is_identity_value_ref_iff_example = is_identity_value_ref_iff (codes "any://u/A0")

abbrev note : Bytes
note = codes "see any://o/sp/ob. and any://o/sp/ob, any://u/me"

note_links : map string (extract_links note) ≡ codes "any://o/sp/ob" ∷ codes "any://u/me" ∷ []
unfolding extract_links string
note_links = refl

extract_links-AreRefs_example : AreRefs note (extract_links note)
extract_links-AreRefs_example = extract_links-AreRefs note

abbrev nothing_found : Found
nothing_found = record { links = []; seen = [] }

extract_links-ends_example :
    (rounds : ℕ) × (result : Found) × Run rounds none note nothing_found result
    × (rounds * 6 ≤ length note)
    × (extract_links note ≡ result.links)
extract_links-ends_example = extract_links-ends note

canonical-uri_example :
    canonical (codes "sp") (uri (file (codes "sp") (codes "ob") (codes "v2")) (codes "x"))
    ≡ target_uri (target (codes "sp") (file (codes "sp") (codes "ob") (codes "v2")))
canonical-uri_example =
    canonical-uri (codes "sp") (file (codes "sp") (codes "ob") (codes "v2")) (codes "x")
      sp_IsSegment (sp_IsSegment, ob_IsSegment, v_IsParam)

abbrev file_key : Uri
file_key = record zero_uri { kind = codes "f"; space_id = codes "sp"; file_id = codes "fi" }

canonical_file : canonical (codes "sp") file_value ≡ some file_key
unfolding canonical
canonical_file = refl

parse-string-canonical_example : parse (string file_key) ≡ ok file_key
parse-string-canonical_example =
    parse-string-canonical file_text (codes "sp") file_value file_key parse_file sp_IsSegment
      canonical_file

-- the period is cut off with the rest of a bare id, and what is left is a kind slug
shed_to_slug : map string (extract_links (codes "any://abcd.efg")) ≡ codes "any://abcd" ∷ []
unfolding extract_links string
shed_to_slug = refl

slug_fails : parse (codes "any://abcd") ≡ err kind_unknown
unfolding parse
slug_fails = refl

canonical_idem_example : canonical (codes "elsewhere") file_key ≡ some file_key
canonical_idem_example =
    canonical_idem (codes "sp") (codes "elsewhere") file_value file_key canonical_file

object_key-uri_example :
    object_key (uri (prop (codes "sp") (codes "ob") (codes "ds")) (codes "x"))
    ≡ text_of (object_of (prop (codes "sp") (codes "ob") (codes "ds")))
object_key-uri_example =
    object_key-uri (prop (codes "sp") (codes "ob") (codes "ds")) (codes "x")
      (sp_IsSegment, ob_IsSegment, ds_IsSegment)

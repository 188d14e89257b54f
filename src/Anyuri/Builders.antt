-- ===== src/Anyuri/Builders.antt =====
-- The builders write forms of the grammar, and Parse reads their values back.
use any.Common.{Bytes, false, [], ◌≡◌, append-nil, append_assoc}
use any.Strings.{join, is_empty}
use any.Anyuri.{
  ok, parse, build_object, build_object_global, build_record, build_identity, build_mention,
  build_space, build_prop, build_file, build_file_variant,
}
use any.Anyuri.Grammar.{
  Form, in_space, object, dataset_record, identity, space, prop, file, render, uri, IsForm,
  IsSegment, IsBareId, IsParam,
}
use any.Anyuri.RoundTrip.{parse-render}

module _ (sp id : Bytes) where
  render-object : render (object sp id) [] ≡ build_object_global sp id
  unfolding build_object_global join
  render-object = simp (append_assoc, append-nil)

  render-record :
      (ds rec : Bytes) → render (dataset_record sp id ds rec) [] ≡ build_record sp id ds rec
  unfolding build_record join
  render-record ds rec = simp (append_assoc, append-nil)

  render-prop : (p : Bytes) → render (prop sp id p) [] ≡ build_prop sp id p
  unfolding build_prop join
  render-prop p = simp (append_assoc, append-nil)

  render-file : render (file sp id []) [] ≡ build_file sp id
  unfolding build_file join
  render-file = simp (append_assoc, append-nil)

  render-file_variant :
      (v : Bytes) → is_empty v ≡ false → render (file sp id v) [] ≡ build_file_variant sp id v
  unfolding build_file_variant join
  render-file_variant v h = simp (h, append_assoc, append-nil)

  render-mention : render (identity id) [] ≡ build_mention sp id
  unfolding build_mention join
  render-mention = simp (append_assoc, append-nil)

render-space : (sp : Bytes) → render (space sp) [] ≡ build_space sp
unfolding build_space join
render-space sp = simp (append_assoc, append-nil)

render-bare : (id : Bytes) → render (in_space id) [] ≡ build_object id
unfolding build_object join
render-bare id = simp append-nil

built : (f : Form) (s : Bytes) → render f [] ≡ s → IsForm f → parse s ≡ ok (uri f [])
built f s e h = rw (← e) (parse-render f [] h)

-- Where ids, dataset and record names are path segments and the bare id is no kind slug, Parse reads
-- what each builder writes as the value with just these parts; the deprecated builder of mentions
-- gives an identity reference.
pub parse-builders :
    (sp id ds rec p v : Bytes)
    → IsSegment sp
    → IsBareId id
    → IsSegment ds
    → IsSegment rec
    → IsSegment p
    → IsParam v
    → is_empty v ≡ false
    → (parse (build_object id) ≡ ok (uri (in_space id) []))
      × (parse (build_object_global sp id) ≡ ok (uri (object sp id) []))
      × (parse (build_record sp id ds rec) ≡ ok (uri (dataset_record sp id ds rec) []))
      × (parse (build_identity id) ≡ ok (uri (identity id) []))
      × (parse (build_mention sp id) ≡ ok (uri (identity id) []))
      × (parse (build_space sp) ≡ ok (uri (space sp) []))
      × (parse (build_prop sp id p) ≡ ok (uri (prop sp id p) []))
      × (parse (build_file sp id) ≡ ok (uri (file sp id []) []))
      × (parse (build_file_variant sp id v) ≡ ok (uri (file sp id v) []))
parse-builders sp id ds rec p v hs (h, bare) hd hr hp hv filled = (
  built (in_space id) _ (render-bare id) (h, bare),
  built (object sp id) _ (render-object sp id) (hs, h),
  built (dataset_record sp id ds rec) _ (render-record sp id ds rec) (hs, h, hd, hr),
  unfold build_mention in built (identity id) _ (render-mention sp id) h,
  built (identity id) _ (render-mention sp id) h,
  built (space sp) _ (render-space sp) hs,
  built (prop sp id p) _ (render-prop sp id p) (hs, h, hp),
  built (file sp id []) _ (render-file sp id) (hs, h, (tt, tt)),
  built (file sp id v) _ (render-file_variant sp id v filled) (hs, h, hv),
)

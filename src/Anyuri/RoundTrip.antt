-- ===== src/Anyuri/RoundTrip.antt =====
-- Parse reads back what String and the builders write.
use any.Common.{
  ℕ, suc, length, true, false, List, [], ◌∷◌, ◌++◌, Bytes, codes, All, All-append, Lacks, ◌≡◌, ◌≢◌,
  refl, ap, ◌∙◌, arith, append-nil, append_assoc, if◌then◌else◌,
}
use any.Strings.{is_empty, join, cut, eq_bytes}
use any.Strings.Laws.{cut-append, cut_of_Lacks, split-join}
use any.Anyuri.{
  ok, prefix, slash, is_kind_slug, kind_object, kind_identity, kind_space, kind_prop, kind_file,
  kind_mention, string, parse, parse_rest, parse_segments, typed, legacy_form, any_empty,
  param_value, param_loop,
}
use any.Anyuri.Grammar.{
  Form, in_space, global, object, dataset_record, identity, mention, space, prop, file,
  query_of_variant, anchor, render, uri, IsSegment, IsParam, IsForm,
}

-- A path: its segments are such.
abbrev IsPath : List Bytes → Type 0
IsPath = All IsSegment

join-Lacks :
    (c : ℕ)
    → slash ≢ c
    → (p : Bytes) (ps : List Bytes) → Lacks c p
    → All (Lacks c) ps
    → Lacks c (join slash p ps)
unfolding join
join-Lacks c ne p [] h hs = h
join-Lacks c ne p (q ∷ qs) h (hq, hqs) =
    All-append (λ x. x ≢ c) p (slash ∷ join slash q qs) h (ne, join-Lacks c ne q qs hq hqs)

no_slashes : (ps : List Bytes) → IsPath ps → All (Lacks slash) ps
no_slashes [] h = tt
no_slashes (p ∷ ps) (h, hs) = (h.no_slash, no_slashes ps hs)

no_queries : (ps : List Bytes) → IsPath ps → All (Lacks b'?') ps
no_queries [] h = tt
no_queries (p ∷ ps) (h, hs) = (h.no_query, no_queries ps hs)

no_hashes : (ps : List Bytes) → IsPath ps → All (Lacks b'#') ps
no_hashes [] h = tt
no_hashes (p ∷ ps) (h, hs) = (h.no_hash, no_hashes ps hs)

any_empty-path : (ps : List Bytes) → IsPath ps → any_empty ps ≡ false
unfolding any_empty
any_empty-path [] h = refl
any_empty-path (p ∷ ps) (h, hs) = rw h.filled (any_empty-path ps hs)

-- The delimiters come apart again: the fragment, then the query.
cut-anchor :
    (s fragment : Bytes)
    → Lacks b'#' s
    → ((cut b'#' (s ++ anchor fragment)).0 ≡ s) × ((cut b'#' (s ++ anchor fragment)).1 ≡ fragment)
cut-anchor s [] h = rw (append-nil, cut_of_Lacks b'#' s h) (refl, refl)
cut-anchor s (c ∷ t) h = rw (cut-append b'#' s (c ∷ t) h) (refl, refl)

-- what paramValue finds in the query
abbrev params_of_variant : Bytes → Bytes
params_of_variant v = if is_empty v then [] else codes "variant=" ++ v

cut-query :
    (s v : Bytes)
    → Lacks b'?' s
    → ((cut b'?' (s ++ query_of_variant v)).0 ≡ s)
      × ((cut b'?' (s ++ query_of_variant v)).1 ≡ params_of_variant v)
cut-query s [] h = rw (append-nil, cut_of_Lacks b'?' s h) (refl, refl)
cut-query s (c ∷ t) h = rw (cut-append b'?' s (codes "variant=" ++ (c ∷ t)) h) (refl, refl)

-- the round of paramValue's loop on the pair `k=v`, the last one
param_loop-pair :
    (f : ℕ) (k v key : Bytes)
    → Lacks b'&' (k ++ b'=' ∷ v)
    → Lacks b'=' k
    → is_empty (k ++ b'=' ∷ v) ≡ false
    → eq_bytes k key ≡ true
    → param_loop (suc f) (k ++ b'=' ∷ v) key ≡ v
unfolding param_loop
param_loop-pair f k v key h hk filled e =
    rw (cut_of_Lacks b'&' (k ++ b'=' ∷ v) h, cut-append b'=' k v hk, filled, e)

param_value-variant :
    (v : Bytes) → Lacks b'&' v → param_value (params_of_variant v) (codes "variant") ≡ v
unfolding param_value
param_value-variant [] h = refl
param_value-variant (c ∷ t) h =
    param_loop-pair (length (codes "ariant=" ++ c ∷ t)) (codes "variant") (c ∷ t) (codes "variant")
      (All-append (λ x. x ≢ b'&') (codes "variant=") (c ∷ t) (omega arith) h) (omega arith) refl
      refl

query-Lacks : (v : Bytes) → IsParam v → Lacks b'#' (query_of_variant v)
query-Lacks [] h = tt
query-Lacks (c ∷ t) (_, h) = All-append (λ x. x ≢ b'#') (codes "?variant=") (c ∷ t) (omega arith) h

join-filled :
    (p : Bytes) (ps : List Bytes) → is_empty p ≡ false → is_empty (join slash p ps) ≡ false
unfolding join
join-filled [] ps h = cc
join-filled (c ∷ p) [] h = refl
join-filled (c ∷ p) (q ∷ qs) h = refl

-- Behind the prefix, a path with its query and fragment is taken apart into just these.
parse_rest-join :
    (p : Bytes) (ps : List Bytes) (v fragment : Bytes)
    → IsPath (p ∷ ps)
    → IsParam v
    → parse_rest ((join slash p ps ++ query_of_variant v) ++ anchor fragment)
      ≡ parse_segments fragment (params_of_variant v) p ps
unfolding parse_rest
parse_rest-join p ps v fragment (h, hs) hv =
    let path = join slash p ps in
    let hashes =
      All-append (λ x. x ≢ b'#') path (query_of_variant v)
        (join-Lacks b'#' (omega arith) p ps h.no_hash (no_hashes ps hs)) (query-Lacks v hv) in
    let queries = join-Lacks b'?' (omega arith) p ps h.no_query (no_queries ps hs) in
    let a = cut-anchor (path ++ query_of_variant v) fragment hashes in
    let b = cut-query path v queries in
    rw (
      a.0,
      a.1,
      b.0,
      b.1,
      split-join slash p ps h.no_slash (no_slashes ps hs),
      join-filled p ps h.filled,
    )

parse-prefix : (s : Bytes) → parse (prefix ++ s) ≡ parse_rest s
unfolding parse
parse-prefix s = refl

module _ (fragment : Bytes) where
  parse-path :
      (p : Bytes) (ps : List Bytes) (v : Bytes)
      → IsPath (p ∷ ps)
      → IsParam v
      → parse (prefix ++ ((join slash p ps ++ query_of_variant v) ++ anchor fragment)) ≡ (
          if is_kind_slug p
          then typed fragment (params_of_variant v) p ps
          else legacy_form fragment p ps)
  unfolding parse_segments
  parse-path p ps v h hv =
      rw (parse-prefix, parse_rest-join p ps v fragment h hv, any_empty-path (p ∷ ps) h)
        (ground arith)

segment : (k : ℕ) → (k ≢ slash) × (k ≢ b'?') × (k ≢ b'#') → IsSegment (k ∷ [])
segment k (a, b, c) = record {
  filled = refl;
  no_slash = (a, tt);
  no_query = (b, tt);
  no_hash = (c, tt);
}

-- Parse gives back the value of every form of the grammar, with its fragment.
pub parse-render :
    (f : Form) (fragment : Bytes) → IsForm f → parse (render f fragment) ≡ ok (uri f fragment)
unfolding parse
parse-render (in_space id) t (h, bare) = rw (parse-path t id [] [] (h, tt) (tt, tt), bare)
parse-render (global sp id) t ((h, bare), k) =
    rw (parse-path t sp (id ∷ []) [] (h, (k, tt)) (tt, tt), bare)
parse-render (object sp id) t (h, k) =
    parse-path t kind_object (sp ∷ id ∷ []) [] (segment b'o' (omega arith), (h, (k, tt))) (tt, tt)
parse-render (dataset_record sp id ds rec) t (h, k, l, m) =
    parse-path t kind_object (sp ∷ id ∷ ds ∷ rec ∷ []) []
      (segment b'o' (omega arith), (h, (k, (l, (m, tt))))) (tt, tt)
parse-render (identity id) t h =
    parse-path t kind_identity (id ∷ []) [] (segment b'u' (omega arith), (h, tt)) (tt, tt)
parse-render (mention sp id) t (h, k) =
    parse-path t kind_mention (sp ∷ id ∷ []) [] (segment b'm' (omega arith), (h, (k, tt))) (tt, tt)
parse-render (space sp) t h =
    parse-path t kind_space (sp ∷ []) [] (segment b's' (omega arith), (h, tt)) (tt, tt)
parse-render (prop sp id p) t (h, k, l) =
    parse-path t kind_prop (sp ∷ id ∷ p ∷ []) [] (segment b'p' (omega arith), (h, (k, (l, tt))))
      (tt, tt)
parse-render (file sp f v) t (h, k, hv) =
    parse-path t kind_file (sp ∷ f ∷ []) v (segment b'f' (omega arith), (h, (k, tt))) hv
    ∙ ap (λ (x : Bytes). ok (uri (file sp f x) t)) (param_value-variant v hv.0)

-- String writes every value of the grammar as its text.
pub string-uri :
    (f : Form) (fragment : Bytes) → IsForm f → string (uri f fragment) ≡ render f fragment
unfolding string join
string-uri (global sp id) t ((h, _), k) = simp (h.filled, append_assoc, append-nil)
string-uri (dataset_record sp id ds rec) t (h, k, l, m) = simp (l.filled, append_assoc, append-nil)
string-uri f t h = simp (append_assoc, append-nil)

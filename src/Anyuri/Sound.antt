-- ===== src/Anyuri/Sound.antt =====
-- What Parse accepts is a form of the grammar, so that String and Parse invert one another.
use any.Common.{
  ℕ, not, length, Option, if_cases, zero, suc, ◌==◌, false, List, [], ◌∷◌, Bytes, codes, All,
  All-append_left, All-append_right, Lacks, ◌≡◌, ◌≢◌, refl, arith, some, none, Bool-cases, inl, inr,
  if◌then◌else◌, subst,
}
use any.Strings.{is_empty, join, split, cut, cut_prefix, eq_bytes}
use any.Strings.Laws.{eq_bytes→eq, cut-Lacks, split-Lacks, join-split}
use any.Anyuri.{
  Result, ok, err, Uri, zero_uri, prefix, slash, is_kind_slug, kind_object, kind_identity,
  kind_space, kind_prop, kind_file, kind_mention, string, parse, parse_rest, parse_segments, typed,
  object_args, identity_args, mention_args, space_args, prop_args, file_args, legacy_form,
  any_empty, parse_behind, param_value, param_loop,
}
use any.Anyuri.Grammar.{
  Form, in_space, global, object, dataset_record, identity, mention, space, prop, file, uri,
  IsSegment, IsBareId, IsParam, IsForm,
}
use any.Anyuri.RoundTrip.{parse-render, string-uri}

-- The value of a form of the grammar.
pub record IsParsed (u : Uri) : Type 0 where
  pub form : Form
  pub fragment : Bytes
  pub wf : IsForm form
  pub value : u ≡ uri form fragment

abbrev IsPath : List Bytes → Type 0
IsPath = All IsSegment

abbrev Parsed : Result Uri → Type 0
Parsed (ok u) = IsParsed u
Parsed (err _) = Unit

parsed : (f : Form) (t : Bytes) → IsForm f → IsParsed (uri f t)
parsed f t h = record { form = f; fragment = t; wf = h; value = refl }

module _ (t : Bytes) where
  abbrev start : Bytes → Uri
  start k = record zero_uri { kind = k; fragment = t }

  object_args-Parsed : (l : List Bytes) → IsPath l → Parsed (object_args (start kind_object) l)
  unfolding object_args
  object_args-Parsed (sp ∷ id ∷ []) (h, (k, _)) = parsed (object sp id) t (h, k)
  object_args-Parsed (sp ∷ id ∷ ds ∷ rec ∷ []) (h, (k, (l, (m, _)))) =
      parsed (dataset_record sp id ds rec) t (h, k, l, m)
  object_args-Parsed _ h = tt

  identity_args-Parsed :
      (l : List Bytes) → IsPath l → Parsed (identity_args (start kind_identity) l)
  unfolding identity_args
  identity_args-Parsed (id ∷ []) (h, _) = parsed (identity id) t h
  identity_args-Parsed _ h = tt

  mention_args-Parsed : (l : List Bytes) → IsPath l → Parsed (mention_args (start kind_mention) l)
  unfolding mention_args
  mention_args-Parsed (sp ∷ id ∷ []) (h, (k, _)) = parsed (mention sp id) t (h, k)
  mention_args-Parsed _ h = tt

  space_args-Parsed : (l : List Bytes) → IsPath l → Parsed (space_args (start kind_space) l)
  unfolding space_args
  space_args-Parsed (sp ∷ []) (h, _) = parsed (space sp) t h
  space_args-Parsed _ h = tt

  prop_args-Parsed : (l : List Bytes) → IsPath l → Parsed (prop_args (start kind_prop) l)
  unfolding prop_args
  prop_args-Parsed (sp ∷ id ∷ p ∷ []) (h, (k, (l, _))) = parsed (prop sp id p) t (h, k, l)
  prop_args-Parsed _ h = tt

  file_args-Parsed :
      (params : Bytes) (l : List Bytes)
      → IsParam (param_value params (codes "variant"))
      → IsPath l
      → Parsed (file_args (start kind_file) params l)
  unfolding file_args
  file_args-Parsed params (sp ∷ f ∷ []) hp (h, (k, _)) =
      parsed (file sp f (param_value params (codes "variant"))) t (h, k, hp)
  file_args-Parsed params _ hp h = tt

  legacy_form-Parsed :
      (p : Bytes) (l : List Bytes) → IsBareId p → IsPath l → Parsed (legacy_form t p l)
  unfolding legacy_form
  legacy_form-Parsed p [] hp h = parsed (in_space p) t hp
  legacy_form-Parsed p (q ∷ []) hp (h, _) = parsed (global p q) t (hp, h)
  legacy_form-Parsed p _ hp h = tt

  -- one arm of the switch on the kind
  arm :
      (k c : Bytes) (args : Uri → Result Uri) (later : Result Uri)
      → Parsed (args (start c))
      → Parsed later
      → Parsed (if eq_bytes k c then args (start k) else later)
  arm k c args later y n = elim (Bool-cases (eq_bytes k c)) [
    | inl e ↦ rw e (rw (eq_bytes→eq k c e) y)
    | inr e ↦ rw e n
  ]

  typed-Parsed :
      (params k : Bytes) (l : List Bytes)
      → IsParam (param_value params (codes "variant"))
      → IsPath l
      → Parsed (typed t params k l)
  unfolding typed
  typed-Parsed params k l hp h =
      arm k kind_object (λ u. object_args u l) _ (object_args-Parsed l h)
        (arm k kind_identity (λ u. identity_args u l) _ (identity_args-Parsed l h)
          (arm k kind_mention (λ u. mention_args u l) _ (mention_args-Parsed l h)
            (arm k kind_space (λ u. space_args u l) _ (space_args-Parsed l h)
              (arm k kind_prop (λ u. prop_args u l) _ (prop_args-Parsed l h)
                (arm k kind_file (λ u. file_args u params l) _ (file_args-Parsed params l hp h)
                  (tt {0}))))))

any_empty-segments :
    (ps : List Bytes)
    → any_empty ps ≡ false
    → All (Lacks slash) ps
    → All (Lacks b'?') ps
    → All (Lacks b'#') ps
    → IsPath ps
unfolding any_empty
any_empty-segments [] h a b c = tt
any_empty-segments ([] ∷ ps) h a b c = cc
any_empty-segments ((x ∷ p) ∷ ps) h (a, as_) (b, bs) (c, cs) = (
  record { filled = refl; no_slash = a; no_query = b; no_hash = c },
  any_empty-segments ps h as_ bs cs,
)

join-Lacks_segments :
    (c : ℕ) (p : Bytes) (ps : List Bytes) → Lacks c (join slash p ps) → All (Lacks c) (p ∷ ps)
unfolding join
join-Lacks_segments c p [] h = (h, tt)
join-Lacks_segments c p (q ∷ qs) h = (
  All-append_left (λ x. x ≢ c) p (slash ∷ join slash q qs) h,
  join-Lacks_segments c q qs (All-append_right (λ x. x ≢ c) p (slash ∷ join slash q qs) h).1,
)

-- what cut gives keeps the absence of a byte
cut-keeps : (sep c : ℕ) (s : Bytes) → Lacks c s → Lacks c (cut sep s).0 × Lacks c (cut sep s).1
unfolding cut
cut-keeps sep c [] h = (tt, tt)
cut-keeps sep c (x ∷ s) (hx, h) = elim (Bool-cases (x == sep)) [
  | inl e ↦ rw e (tt, h)
  | inr e ↦ rw e ((hx, (cut-keeps sep c s h).0), (cut-keeps sep c s h).1)
]

param_loop-IsParam : (f : ℕ) (raw key : Bytes) → Lacks b'#' raw → IsParam (param_loop f raw key)
unfolding param_loop
param_loop-IsParam zero raw key h = (tt, tt)
param_loop-IsParam (suc f) raw key h =
    let pair = (cut b'&' raw).0 in
    let value = (cut b'=' pair).1 in
    let keeps = cut-keeps b'&' b'#' raw h in
    let here : IsParam value =
      ((cut-keeps b'=' b'&' pair (cut-Lacks b'&' raw)).1, (cut-keeps b'=' b'#' pair keeps.0).1) in
    if_cases IsParam (is_empty raw) _ _ (λ _. (tt, tt))
      (λ _. if_cases IsParam _ _ _ (λ _. here) (λ _. param_loop-IsParam f _ key keeps.1))

parse_rest-Parsed : (s : Bytes) → Parsed (parse_rest s)
unfolding parse_rest parse_segments param_value
parse_rest-Parsed s =
    let rest = (cut b'#' s).0 in
    let path = (cut b'?' rest).0 in
    let params = (cut b'?' rest).1 in
    let parts = split slash path in
    let keeps = cut-keeps b'?' b'#' rest (cut-Lacks b'#' s) in
    let segments : (c : ℕ) → Lacks c path → All (Lacks c) (parts.0 ∷ parts.1) =
      λ c h. join-Lacks_segments c parts.0 parts.1 (rw (join-split slash path) h) in
    let is_path : any_empty (parts.0 ∷ parts.1) ≡ false → IsPath (parts.0 ∷ parts.1) = λ e.
      any_empty-segments (parts.0 ∷ parts.1) e (split-Lacks slash path)
        (segments b'?' (cut-Lacks b'?' rest)) (segments b'#' keeps.0) in
    let fragment = (cut b'#' s).1 in
    if_cases Parsed (is_empty path) _ _ (λ _. tt {0})
      (λ _.
        if_cases Parsed (any_empty (parts.0 ∷ parts.1)) _ _ (λ _. tt {0})
          (λ e.
            if_cases Parsed (not (is_kind_slug parts.0)) _ _
              (λ bare.
                legacy_form-Parsed fragment parts.0 parts.1 ((is_path e).0, ground arith)
                  (is_path e).1)
              (λ _.
                typed-Parsed fragment params parts.0 parts.1
                  (param_loop-IsParam (length params) params (codes "variant") keeps.1)
                  (is_path e).1)))

parse_behind-Parsed : (o : Option Bytes) → Parsed (parse_behind o)
unfolding parse_behind
parse_behind-Parsed none = tt
parse_behind-Parsed (some s) = parse_rest-Parsed s

parse-Parsed : (s : Bytes) → Parsed (parse s)
unfolding parse
parse-Parsed s = parse_behind-Parsed (cut_prefix prefix s)

-- Every reference that Parse accepts is the value of a form of the grammar.
pub parse-IsParsed : (s : Bytes) (u : Uri) → parse s ≡ ok u → IsParsed u
parse-IsParsed s u h = subst Parsed h (parse-Parsed s)

-- What Parse accepts, printed by String, parses to the same value again.
pub parse-string : (s : Bytes) (u : Uri) → parse s ≡ ok u → parse (string u) ≡ ok u
parse-string s u h =
    let p = parse-IsParsed s u h in
    rw p.value (rw (string-uri p.form p.fragment p.wf) (parse-render p.form p.fragment p.wf))

-- ===== src/Anyuri/Refs.antt =====
-- The strict forms of property values: what IsPropertyValueRef and IsIdentityValueRef accept.
use any.Common.{
  ℕ, Bool, true, false, [], ◌∷◌, Bytes, Lacks, ◌≡◌, ◌↔◌, refl, sym, ap, arith, append-nil,
  Bool-cases, inl, inr, ◌∙◌,
}
use any.Strings.{join, eq_bytes}
use any.Strings.Laws.{eq_bytes→eq, eq_bytes_refl}
use any.Anyuri.{
  Error, Result, ok, err, Uri, slash, string, parse, build_object, build_identity,
  property_value_ref, is_property_value_ref, identity_value_ref, is_identity_value_ref, is_base58,
  all_base58, base58_byte,
}
use any.Anyuri.Grammar.{Form, in_space, global, identity, render, uri, IsSegment, IsBareId, IsForm}
use any.Anyuri.RoundTrip.{parse-render, string-uri}
use any.Anyuri.Sound.{parse-IsParsed}

module _ (s : Bytes) where
  property_value_ref-form :
      (f : Form) (t : Bytes)
      → IsForm f
      → property_value_ref s (ok (uri f t)) ≡ true
      → (id : Bytes) × IsBareId id × (s ≡ build_object id)
  unfolding property_value_ref build_object eq_bytes join
  property_value_ref-form (in_space id) [] h e =
      let same : string (uri (in_space id) []) ≡ s = eq_bytes→eq _ s e in
      (id, h, sym same ∙ string-uri (in_space id) [] h ∙ simp append-nil)
  property_value_ref-form (global (c ∷ sp) id) t h e = cc
  property_value_ref-form (global [] id) t h e = cc h.0.0.filled
  property_value_ref-form _ t h e = cc

  identity_value_ref-form :
      (f : Form) (t : Bytes)
      → IsForm f
      → identity_value_ref s (ok (uri f t)) ≡ true
      → (id : Bytes) × (is_base58 id ≡ true) × (s ≡ build_identity id)
  unfolding identity_value_ref build_identity eq_bytes join
  identity_value_ref-form (identity id) [] h e =
      let both : (is_base58 id ≡ true) × (eq_bytes (string (uri (identity id) [])) s ≡ true) =
        ground arith in
      (id, both.0, sym (eq_bytes→eq _ s both.1) ∙ string-uri (identity id) [] h ∙ simp append-nil)
  identity_value_ref-form (identity id) (c ∷ t) h e = cc
  identity_value_ref-form _ t h e = cc

-- a strict reference was parsed
module _ (accepts : Result Uri → Bool) (fails : (e : Error) → accepts (err e) ≡ false) where
  ref_value : (r : Result Uri) → accepts r ≡ true → (u : Uri) × (r ≡ ok u) × (accepts (ok u) ≡ true)
  ref_value (ok u) h = (u, refl, h)
  ref_value (err e) h = cc (fails e)

render-in_space : (id : Bytes) → build_object id ≡ render (in_space id) []
unfolding build_object join
render-in_space id = simp append-nil

render-identity : (id : Bytes) → build_identity id ≡ render (identity id) []
unfolding build_identity join
render-identity id = simp append-nil

strict_object :
    (s : Bytes)
    → is_property_value_ref s ≡ true
    → (id : Bytes) × IsBareId id × (s ≡ build_object id)
unfolding is_property_value_ref
strict_object s h =
    let (u, parsed, accepted) =
      ref_value (property_value_ref s) (λ e. unfold property_value_ref in refl) (parse s) h in
    let p = parse-IsParsed s u parsed in
    property_value_ref-form s p.form p.fragment p.wf (rw p.value at accepted)

strict_object_accepted : (id : Bytes) → IsBareId id → is_property_value_ref (build_object id) ≡ true
unfolding is_property_value_ref property_value_ref eq_bytes
strict_object_accepted id h = rw render-in_space (
    rw (parse-render (in_space id) [] h, string-uri (in_space id) [] h)
      (eq_bytes_refl (render (in_space id) [])))

-- IsPropertyValueRef accepts just the texts `any://<id>` whose id is one segment that holds no
-- delimiter and is no kind slug.
pub is_property_value_ref_iff :
    (s : Bytes)
    → (is_property_value_ref s ≡ true) ↔ ((id : Bytes) × IsBareId id × (s ≡ build_object id))
is_property_value_ref_iff s = (strict_object s, λ (id, h, e). rw e (strict_object_accepted id h))

base58-Lacks : (c : ℕ) → base58_byte c ≡ false → (id : Bytes) → all_base58 id ≡ true → Lacks c id
unfolding all_base58
base58-Lacks c n [] h = tt
base58-Lacks c n (x ∷ id) h = elim (Bool-cases (base58_byte x)) [
  | inl e ↦ ((λ p. cc (ap base58_byte p)), base58-Lacks c n id (rw e at h))
  | inr e ↦ cc
]

base58-IsSegment : (id : Bytes) → is_base58 id ≡ true → IsSegment id
unfolding is_base58
base58-IsSegment [] h = cc
base58-IsSegment (c ∷ id) h = record {
  filled = refl;
  no_slash = base58-Lacks slash refl (c ∷ id) h;
  no_query = base58-Lacks b'?' refl (c ∷ id) h;
  no_hash = base58-Lacks b'#' refl (c ∷ id) h;
}

strict_identity :
    (s : Bytes)
    → is_identity_value_ref s ≡ true
    → (id : Bytes) × (is_base58 id ≡ true) × (s ≡ build_identity id)
unfolding is_identity_value_ref
strict_identity s h =
    let (u, parsed, accepted) =
      ref_value (identity_value_ref s) (λ e. unfold identity_value_ref in refl) (parse s) h in
    let p = parse-IsParsed s u parsed in
    identity_value_ref-form s p.form p.fragment p.wf (rw p.value at accepted)

strict_identity_accepted :
    (id : Bytes) → is_base58 id ≡ true → is_identity_value_ref (build_identity id) ≡ true
unfolding is_identity_value_ref identity_value_ref eq_bytes
strict_identity_accepted id h =
    let seg = base58-IsSegment id h in
    rw render-identity (
      rw (parse-render (identity id) [] seg, string-uri (identity id) [] seg, h)
        (eq_bytes_refl (render (identity id) [])))

-- IsIdentityValueRef accepts just the texts `any://u/<identity>` with a base58 identity.
pub is_identity_value_ref_iff :
    (s : Bytes)
    → (is_identity_value_ref s ≡ true)
      ↔ ((id : Bytes) × (is_base58 id ≡ true) × (s ≡ build_identity id))
is_identity_value_ref_iff s =
    (strict_identity s, λ (id, h, e). rw e (strict_identity_accepted id h))

-- ===== src/Anyuri/Links/Finds.antt =====
-- That ExtractLinks passes over no reference.
use any.Common.{
  ℕ, zero, suc, ◌+◌, ◌≤◌, Bytes, Bool, true, false, List, [], ◌++◌, ◌∷◌, ◌≡◌, refl, sym, ap, ◌∙◌,
  Option, none, some, arith, Bool-cases, Option-cases, inl, inr, length, drop, take, map, All,
  append-nil, length-append, ◌⊎◌, subst, if_cases,
}
use any.Strings.{trim_right, contains, index, has_prefix}
use any.Strings.Laws.{index-length, length-drop, eq_bytes_refl}
use any.Anyuri.{Uri, Result, ok, err, parse, string, prefix}
use any.Anyuri.Links.Places.{
  IsRef, Fails, first_of, last_from, last_from-append, byte_before-last_from, index-append,
}
use any.Anyuri.Links.Scan.{Distinct, extracted-IsFound}
use any.Anyuri.Links.{
  Found, scan, at_match, accept_token, shed_link, record_link, shed_glued_period, byte_before,
  token_at, tail_bytes, is_tail_byte, is_punctuation, extract_links, is_scheme_byte,
}

contains_concat :
    (ss : List Bytes) (s t : Bytes) → contains ss t ≡ true → contains (ss ++ s ∷ []) t ≡ true
unfolding contains
contains_concat [] s t h = cc
contains_concat (r ∷ ss) s t h = ground (arith, contains_concat ss s t)

contains_last : (ss : List Bytes) (s : Bytes) → contains (ss ++ s ∷ []) s ≡ true
unfolding contains
contains_last [] s = rw (eq_bytes_refl s) refl
contains_last (r ∷ ss) s = ground (arith, contains_last ss s)

index_here : (r : Bytes) → index (prefix ++ r) prefix ≡ some 0
unfolding index has_prefix
index_here r = refl

-- no occurrence is in front of the one that is found
index_first :
    (b r : Bytes) → (i : ℕ) × (index (b ++ (prefix ++ r)) prefix ≡ some i) × (i ≤ length b)
unfolding index
index_first [] r = (0, index_here r, omega arith)
index_first (c ∷ b) r =
    let (i, e, h) = index_first b r in
    elim (Bool-cases (has_prefix prefix (c ∷ (b ++ (prefix ++ r))))) [
      | inl k ↦ (0, rw k refl, omega arith)
      | inr k ↦ (suc i, rw (k, e) refl, omega (arith, h))
    ]

-- Two occurrences of the prefix do not overlap.
apart :
    (b x r : Bytes)
    → prefix ++ x ≡ b ++ (prefix ++ r)
    → 1 ≤ length b
    → (b' : Bytes) × (b ≡ prefix ++ b') × (x ≡ b' ++ (prefix ++ r))
apart [] x r e h = absurd (omega arith)
apart (a ∷ []) x r e h = absurd (ground (arith, e))
apart (a ∷ b ∷ []) x r e h = absurd (ground (arith, e))
apart (a ∷ b ∷ c ∷ []) x r e h = absurd (ground (arith, e))
apart (a ∷ b ∷ c ∷ d ∷ []) x r e h = absurd (ground (arith, e))
apart (a ∷ b ∷ c ∷ d ∷ f ∷ []) x r e h = absurd (ground (arith, e))
apart (a ∷ b ∷ c ∷ d ∷ f ∷ g ∷ b') x r e h = (b', cc (e), cc (e))

-- what is common to the fronts of two splits of a text
behind_front :
    (a b s t : Bytes)
    → a ++ s ≡ b ++ t
    → length a ≤ length b
    → (b' : Bytes) × (b ≡ a ++ b') × (s ≡ b' ++ t)
behind_front [] b s t e h = (b, refl, e)
behind_front (c ∷ a) [] s t e h = absurd (omega arith)
behind_front (c ∷ a) (d ∷ b) s t e h =
    let (b', k, l) = behind_front a b s t (cc (e)) (omega arith) in (b', cc (e, k), l)

module _ (t : Bytes) where
  abbrev Has : Found → Type 0
  Has found = contains found.seen t ≡ true

  record_link_keeps : (found : Found) (u : Uri) → Has found → Has (record_link found u)
  unfolding record_link
  record_link_keeps found u h =
      if_cases Has (contains found.seen (string u)) _ _ (λ _. h)
        (λ _. contains_concat found.seen (string u) t h)

  shed_link_keeps : (found : Found) (x : Uri × Bool) → Has found → Has (shed_link found x)
  unfolding shed_link
  shed_link_keeps found (u, true) h = record_link_keeps found u h
  shed_link_keeps found (u, false) h = h

  accept_token_keeps : (found : Found) (r : Result Uri) → Has found → Has (accept_token found r)
  unfolding accept_token
  accept_token_keeps found (ok v) h = shed_link_keeps found (shed_glued_period v) h
  accept_token_keeps found (err _) h = h

  at_match_keeps :
      (found : Found) (last : Option ℕ) (behind : Bytes)
      → Has found
      → Has (at_match found last behind)
  unfolding at_match
  at_match_keeps found none behind h = accept_token_keeps found (parse (token_at behind)) h
  at_match_keeps found (some c) behind h =
      if_cases Has (is_scheme_byte c) _ _ (λ _. h)
        (λ _. accept_token_keeps found (parse (token_at behind)) h)

  scan_keeps :
      (f : ℕ) (last : Option ℕ) (s : Bytes) (found : Found) → Has found → Has (scan f last s found)
  unfolding scan
  scan_keeps zero last s found h = h
  scan_keeps (suc f) last s found h = elim (Option-cases (index s prefix)) [
    | inl e ↦ rw (e, scan) h
    | inr (i, e) ↦
        let next = at_match found (byte_before i last s) (drop (i + 6) s) in
        rw (e, scan)
          (scan_keeps f (some b'/') (drop (i + 6) s) next
            (at_match_keeps found (byte_before i last s) (drop (i + 6) s) h))
  ]

record_link-Has : (found : Found) (u : Uri) → Has (string u) (record_link found u)
unfolding record_link
record_link-Has found u =
    if_cases (Has (string u)) (contains found.seen (string u)) _ _ (λ e. e)
      (λ _. contains_last found.seen (string u))

empty_or_not : (b : Bytes) → (b ≡ []) ⊎ (1 ≤ length b)
empty_or_not [] = inl refl
empty_or_not (c ∷ b) = inr (omega arith)

length-take_le : (n : ℕ) (s : Bytes) → length (take n s) ≤ n
length-take_le zero s = omega arith
length-take_le (suc n) [] = omega arith
length-take_le (suc n) (c ∷ s) = omega (arith, length-take_le n s)

module _ (behind : Bytes) (v u : Uri) (parses : parse (token_at behind) ≡ ok v)
    (sheds : shed_glued_period v ≡ (u, true)) where
  accepted-Has : (found : Found) → Has (string u) (accept_token found (parse (token_at behind)))
  unfolding accept_token shed_link
  accepted-Has found =
      subst (λ (r : Result Uri). Has (string u) (accept_token found r)) (sym parses)
        (subst (λ (x : Uri × Bool). Has (string u) (shed_link found x)) (sym sheds)
          (record_link-Has found u))

  at_match-Has :
      (found : Found) (last : Option ℕ)
      → Fails is_scheme_byte last
      → Has (string u) (at_match found last behind)
  unfolding at_match
  at_match-Has found none free = accepted-Has found
  at_match-Has found (some c) free = rw free (accepted-Has found)

  scan-Has :
      (f : ℕ) (last : Option ℕ) (s b : Bytes) (found : Found)
      → length s ≤ f
      → s ≡ b ++ (prefix ++ behind)
      → Fails is_scheme_byte (last_from last b)
      → Has (string u) (scan f last s found)
  unfolding scan
  scan-Has zero last s b found h e free =
      absurd (
        omega (arith, ap length e, length-append b (prefix ++ behind), length-append prefix behind))
  scan-Has (suc f) last s b found h e free =
      let (i, at_front, near) = index_first b behind in
      let found_at : index s prefix ≡ some i = ap (λ (t : Bytes). index t prefix) e ∙ at_front in
      let room : i + 6 ≤ length s = index-length s prefix i found_at in
      let front = take i s in
      let rest = drop (i + 6) s in
      let split_ : s ≡ front ++ (prefix ++ rest) = index-append s prefix i found_at in
      let shorter = length-drop (i + 6) s room in
      let (b', whole, same) =
        behind_front front b (prefix ++ rest) (prefix ++ behind) (sym split_ ∙ e)
          (omega (arith, length-take_le i s, near)) in
      let last_before : byte_before i last s ≡ last_from last front =
        byte_before-last_from i last s (omega arith) in
      let next = at_match found (byte_before i last s) rest in
      rw (found_at, scan)
        (elim (empty_or_not b') [
          | inl n ↦
              let here : front ≡ b = cc (whole, n, append-nil front) in
              let there : behind ≡ rest = cc (same, n) in
              let unblocked : Fails is_scheme_byte (byte_before i last s) =
                subst (Fails is_scheme_byte) (ap (last_from last) (sym here) ∙ sym last_before)
                  free in
              scan_keeps (string u) f (some b'/') rest next (
                subst (λ (t : Bytes). Has (string u) (at_match found (byte_before i last s) t))
                  there (at_match-Has found (byte_before i last s) unblocked))
          | inr far ↦
              let (b'', passed, later) = apart b' rest behind same far in
              let last_same : last_from last b ≡ last_from (some b'/') b'' =
                ap (last_from last) (whole ∙ ap (λ (t : Bytes). front ++ t) passed)
                ∙ last_from-append last front (prefix ++ b'') in
              scan-Has f (some b'/') rest b'' next (omega arith) later
                (subst (Fails is_scheme_byte) last_same free)
        ])

tail_bytes_of :
    (run rest : Bytes)
    → All (λ c. is_tail_byte c ≡ true) run
    → Fails is_tail_byte (first_of rest)
    → tail_bytes (run ++ rest) ≡ run
unfolding tail_bytes
tail_bytes_of [] [] h k = refl
tail_bytes_of [] (c ∷ rest) h k = rw k refl
tail_bytes_of (c ∷ run) rest (e, h) k = rw (e, tail_bytes_of run rest h k) refl

module _ (drops : ℕ → Bool) where
  trim_all : (cut : Bytes) → All (λ c. drops c ≡ true) cut → trim_right drops cut ≡ []
  unfolding trim_right
  trim_all [] h = refl
  trim_all (c ∷ cut) (e, h) = rw (trim_all cut h, e) refl

  trim_right_of :
      (t cut : Bytes)
      → All (λ c. drops c ≡ true) cut
      → Fails drops (last_from none t)
      → trim_right drops (t ++ cut) ≡ t
  unfolding trim_right
  trim_right_of [] cut h k = trim_all cut h
  trim_right_of (c ∷ []) cut h k = rw (trim_all cut h, k) refl
  trim_right_of (c ∷ d ∷ t) cut h k = rw (trim_right_of (d ∷ t) cut h k) refl

-- the token is determined by the place of the reference
token_at_ref : (text : Bytes) (u : Uri) (r : IsRef text u) → token_at (r.run ++ r.rest) ≡ r.token
unfolding token_at
token_at_ref text u r =
    ap (λ (t : Bytes). trim_right is_punctuation (prefix ++ t))
      (tail_bytes_of r.run r.rest r.inside r.stops)
    ∙ ap (trim_right is_punctuation) r.trimmed
    ∙ trim_right_of is_punctuation r.token r.cut r.punctuation r.ends

-- The references are those of the text: no two have the same text, each is read from a place, and every
-- one that is read from a place is there.
pub record AreRefs (text : Bytes) (us : List Uri) : Type 0 where
  pub distinct : Distinct (map string us)
  pub refs : All (IsRef text) us
  pub complete : (u : Uri) → IsRef text u → contains (map string us) (string u) ≡ true

-- ExtractLinks returns the references of the text, with pairwise different texts. A reference is read
-- where the prefix stands in the text with no scheme byte right before it: the run of tail bytes there,
-- less the punctuation at its end, parses, and the period glued to the id, with what follows, is shed. Each
-- one returned is read so, and the text of every one that can be read so is among the texts of those
-- returned.
pub extract_links-AreRefs : (text : Bytes) → AreRefs text (extract_links text)
unfolding extract_links
extract_links-AreRefs text =
    let start : Found = record { links = []; seen = [] } in
    let inv = extracted-IsFound text in
    record {
      distinct = rw inv.texts at inv.distinct;
      refs = inv.refs;
      complete = λ u r.
          subst (λ (ss : List Bytes). contains ss (string u) ≡ true) inv.texts
            (scan-Has (r.run ++ r.rest) r.parsed u (ap parse (token_at_ref text u r) ∙ r.parses)
              r.sheds (length text) none text r.before start (omega arith) r.place r.free);
    }

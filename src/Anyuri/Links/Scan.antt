-- ===== src/Anyuri/Links/Scan.antt =====
-- What ExtractLinks returns.
use any.Common.{
  ◌*◌, subst, sym, ◌∙◌, take, append_assoc, ℕ, zero, suc, ◌+◌, ◌≤◌, Bytes, Bool, true, false, List,
  [], ◌++◌, ◌∷◌, ◌≡◌, refl, ap, Option, none, some, arith, Bool-cases, Option-cases, inl, inr,
  length, drop, map, All, All-append, if_cases,
}
use any.Strings.{eq_bytes, contains, index}
use any.Strings.Laws.{index-length, length-drop, eq_bytes→eq, eq_bytes_refl}
use any.Anyuri.Links.Places.{
  IsRef, Fails, last_from, last_from-append, byte_before-last_from, index-append, token_at-IsRef,
}
use any.Anyuri.{Uri, Result, ok, err, parse, string, prefix}
use any.Anyuri.Links.{
  Found, scan, at_match, accept_token, shed_link, record_link, shed_glued_period, byte_before,
  token_at, extract_links, is_scheme_byte,
}

-- No text stands twice.
abbrev pub Distinct : List Bytes → Type 0
Distinct [] = Unit
Distinct (s ∷ ss) = (contains ss s ≡ false) × Distinct ss

eq_bytes-ne-sym : (s t : Bytes) → eq_bytes s t ≡ false → eq_bytes t s ≡ false
eq_bytes-ne-sym s t h = elim (Bool-cases (eq_bytes t s)) [
  | inl e ↦ cc (rw (eq_bytes→eq t s e) at h, eq_bytes_refl s)
  | inr e ↦ e
]

contains-concat :
    (ss : List Bytes) (s t : Bytes)
    → contains ss t ≡ false
    → eq_bytes s t ≡ false
    → contains (ss ++ s ∷ []) t ≡ false
unfolding contains
contains-concat [] s t h e = rw e
contains-concat (r ∷ ss) s t h e = ground (arith, contains-concat ss s t)

Distinct-concat :
    (ss : List Bytes) (s : Bytes) → Distinct ss → contains ss s ≡ false → Distinct (ss ++ s ∷ [])
unfolding contains
Distinct-concat [] s d h = (refl, tt)
Distinct-concat (r ∷ ss) s (dr, d) h = elim (Bool-cases (eq_bytes r s)) [
  | inl e ↦ cc (rw e at h)
  | inr e ↦ (contains-concat ss s r dr (eq_bytes-ne-sym r s e), Distinct-concat ss s d (rw e at h))
]

map-concat : (us : List Uri) (u : Uri) → map string us ++ string u ∷ [] ≡ map string (us ++ u ∷ [])
map-concat [] u = refl
map-concat (v ∷ us) u = ap (λ (ss : List Bytes). string v ∷ ss) (map-concat us u)

module _ (text : Bytes) where
  -- The invariant of the scanner.
  pub record IsFound (found : Found) : Type 0 where
    pub texts : found.seen ≡ map string found.links
    pub distinct : Distinct found.seen
    pub refs : All (IsRef text) found.links

  record_link-IsFound :
      (found : Found) (u : Uri) → IsRef text u → IsFound found → IsFound (record_link found u)
  unfolding record_link
  record_link-IsFound found u good inv =
      if_cases IsFound (contains found.seen (string u)) _ _ (λ _. inv)
        (λ new. record {
          texts = rw inv.texts (map-concat found.links u);
          distinct = Distinct-concat found.seen (string u) inv.distinct new;
          refs = All-append (IsRef text) found.links (u ∷ []) inv.refs (good, tt);
        })

  shed_link-IsFound :
      (found : Found) (shed : Uri × Bool)
      → ((u : Uri) → shed ≡ (u, true) → IsRef text u)
      → IsFound found
      → IsFound (shed_link found shed)
  unfolding shed_link
  shed_link-IsFound found (u, true) good inv = record_link-IsFound found u (good u refl) inv
  shed_link-IsFound found (u, false) good inv = inv

  accept_token-IsFound :
      (found : Found) (r : Result Uri)
      → ((v u : Uri) → r ≡ ok v → shed_glued_period v ≡ (u, true) → IsRef text u)
      → IsFound found
      → IsFound (accept_token found r)
  unfolding accept_token
  accept_token-IsFound found (ok v) good inv =
      shed_link-IsFound found (shed_glued_period v) (λ u. good v u refl) inv
  accept_token-IsFound found (err _) good inv = inv

  at_match-IsFound :
      (found : Found) (before behind : Bytes) (last : Option ℕ)
      → text ≡ before ++ (prefix ++ behind)
      → last ≡ last_from none before
      → IsFound found
      → IsFound (at_match found last behind)
  unfolding at_match
  at_match-IsFound found before behind none place e inv =
      accept_token-IsFound found (parse (token_at behind))
        (λ v u. token_at-IsRef text before behind v u place (subst (Fails is_scheme_byte) e tt)) inv
  at_match-IsFound found before behind (some c) place e inv =
      if_cases IsFound (is_scheme_byte c) _ _ (λ _. inv)
        (λ free.
          accept_token-IsFound found (parse (token_at behind))
            (λ v u.
              token_at-IsRef text before behind v u place (subst (Fails is_scheme_byte) e free))
            inv)

  scan-IsFound :
      (f : ℕ) (last : Option ℕ) (done s : Bytes) (found : Found)
      → last ≡ last_from none done
      → text ≡ done ++ s
      → IsFound found
      → IsFound (scan f last s found)
  unfolding scan
  scan-IsFound zero last done s found l place inv = inv
  scan-IsFound (suc f) last done s found l place inv = elim (Option-cases (index s prefix)) [
    | inl e ↦ rw (e, scan) inv
    | inr (i, e) ↦
        let room : i + 6 ≤ length s = index-length s prefix i e in
        let front = take i s in
        let behind = drop (i + 6) s in
        let before = done ++ front in
        let here : text ≡ before ++ (prefix ++ behind) =
          place
          ∙ ap (λ (t : Bytes). done ++ t) (index-append s prefix i e)
          ∙ sym (append_assoc done front (prefix ++ behind)) in
        let last_before : byte_before i last s ≡ last_from none before =
          byte_before-last_from i last s (omega arith)
          ∙ ap (λ (l : Option ℕ). last_from l front) l
          ∙ sym (last_from-append none done front) in
        rw (e, scan)
          (scan-IsFound f (some b'/') (before ++ prefix) behind _
            (sym (last_from-append none before prefix))
            (here ∙ sym (append_assoc before prefix behind))
            (at_match-IsFound found before behind (byte_before i last s) here last_before inv))
  ]

pub extracted-IsFound :
    (text : Bytes) → IsFound text (scan (length text) none text (record { links = []; seen = [] }))
extracted-IsFound text =
    scan-IsFound text (length text) none [] text (record { links = []; seen = [] }) refl refl
      (record { texts = refl; distinct = tt; refs = tt })

-- The loop of ExtractLinks as it stands there, without a bound: a number of rounds, on the byte before the
-- position and the text from there on, from what is gathered to what it ends with.
pub data Run : ℕ → Option ℕ → Bytes → Found → Found → Type 0 where
  ends :
      (last : Option ℕ) (s : Bytes) (found : Found)
      → index s prefix ≡ none
      → Run 0 last s found found
  goes_on :
      (n idx : ℕ) (last : Option ℕ) (s : Bytes) (found result : Found)
      → index s prefix ≡ some idx
      → Run n
          (some b'/')
          (drop (idx + 6) s)
          (at_match found (byte_before idx last s) (drop (idx + 6) s))
          result
      → Run (suc n) last s found result

-- The run has ended after at most one round for each six bytes.
record Ended (last : Option ℕ) (s : Bytes) (found result : Found) : Type 0 where
  rounds : ℕ
  run : Run rounds last s found result
  few : rounds * 6 ≤ length s

index-nil : index [] prefix ≡ none
unfolding index
index-nil = refl

scan-Ended :
    (f : ℕ) (last : Option ℕ) (s : Bytes) (found : Found)
    → length s ≤ f
    → Ended last s found (scan f last s found)
unfolding scan
scan-Ended zero last [] found h = record {
  rounds = 0;
  run = ends last [] found index-nil;
  few = omega arith;
}
scan-Ended zero last (c ∷ s) found h = absurd (omega arith)
scan-Ended (suc f) last s found h = elim (Option-cases (index s prefix)) [
  | inl e ↦ rw (e, scan) (record { rounds = 0; run = ends last s found e; few = omega arith })
  | inr (i, e) ↦
      let room : i + 6 ≤ length s = index-length s prefix i e in
      let shorter = length-drop (i + 6) s room in
      let next = at_match found (byte_before i last s) (drop (i + 6) s) in
      let later = scan-Ended f (some b'/') (drop (i + 6) s) next (omega arith) in
      rw (e, scan)
        (record {
          rounds = suc later.rounds;
          run = goes_on later.rounds i last s found _ e later.run;
          few = omega (arith, later.few);
        })
]

-- The loop of ExtractLinks ends on every text: without a bound it comes to its last round, with at most
-- one round for each six bytes, and what it has then is what the model returns within its fuel.
pub extract_links-ends :
    (text : Bytes)
    → (rounds : ℕ) × (result : Found) × Run rounds none text
        (record { links = []; seen = [] })
        result
      × (rounds * 6 ≤ length text)
      × (extract_links text ≡ result.links)
unfolding extract_links
extract_links-ends text =
    let e = scan-Ended (length text) none text (record { links = []; seen = [] }) (omega arith) in
    (e.rounds, scan (length text) none text (record { links = []; seen = [] }), e.run, e.few, refl)

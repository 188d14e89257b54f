-- ===== src/Anyuri/Links/Places.antt =====
-- Where a reference stands in a text.
use any.Common.{
  ℕ, zero, suc, ◌+◌, ◌≤◌, Bytes, Bool, true, false, [], ◌++◌, ◌∷◌, ◌≡◌, refl, sym, ap, ◌∙◌, Option,
  none, some, arith, Bool-cases, Option-cases, inl, inr, length, drop, take, All, if_cases, subst,
  ◌&&◌,
}
use any.Strings.{index, has_prefix, trim_right, is_empty}
use any.Strings.Laws.{has_prefix-append}
use any.Anyuri.{Uri, ok, parse, prefix}
use any.Anyuri.Links.{
  byte_before, tail_bytes, is_tail_byte, is_scheme_byte, is_punctuation, token_at,
  shed_glued_period,
}

-- the last byte of what is read, where `last` was read before it
abbrev pub last_from : Option ℕ → Bytes → Option ℕ
last_from last [] = last
last_from last (c ∷ s) = last_from (some c) s

-- the byte, if there is one, fails the test
abbrev pub Fails : (ℕ → Bool) → Option ℕ → Type 0
Fails test none = Unit
Fails test (some c) = test c ≡ false

pub last_from-append :
    (last : Option ℕ) (s t : Bytes) → last_from last (s ++ t) ≡ last_from (last_from last s) t
last_from-append last [] t = refl
last_from-append last (c ∷ s) t = last_from-append (some c) s t

byte_before_any :
    (n : ℕ) (last last' : Option ℕ) (s : Bytes)
    → byte_before (suc n) last s ≡ byte_before (suc n) last' s
unfolding byte_before
byte_before_any n last last' [] = refl
byte_before_any zero last last' (c ∷ s) = refl
byte_before_any (suc n) last last' (c ∷ s) = byte_before_any n last last' s

pub byte_before-last_from :
    (n : ℕ) (last : Option ℕ) (s : Bytes)
    → n ≤ length s
    → byte_before n last s ≡ last_from last (take n s)
unfolding byte_before
byte_before-last_from zero last s h = refl
byte_before-last_from (suc n) last [] h = absurd (omega arith)
byte_before-last_from (suc zero) last (c ∷ s) h = refl
byte_before-last_from (suc (suc n)) last (c ∷ s) h =
    byte_before_any n last (some c) s ∙ byte_before-last_from (suc n) (some c) s (omega arith)

drop-append : (p s : Bytes) → drop (length p) (p ++ s) ≡ s
drop-append [] s = refl
drop-append (c ∷ p) s = drop-append p s

prefix_drop : (p s : Bytes) → has_prefix p s ≡ true → s ≡ p ++ drop (length p) s
prefix_drop p s h =
    let (r, whole) = has_prefix-append p s h in
    subst (λ (t : Bytes). t ≡ p ++ drop (length p) t) (sym whole)
      (ap (λ (t : Bytes). p ++ t) (sym (drop-append p r)))

-- the text in front of what is found, that, and the text behind it
pub index-append :
    (s p : Bytes) (i : ℕ) → index s p ≡ some i → s ≡ take i s ++ (p ++ drop (i + length p) s)
unfolding index
index-append [] [] i h =
    let first : 0 ≡ i = ground (arith, h) in
    subst (λ (i : ℕ). ◌≡◌ {A = Bytes} [] (take i [] ++ drop (i + 0) [])) first refl
index-append [] (c ∷ p) i h = cc
index-append (c ∷ s) p i h = elim (Bool-cases (has_prefix p (c ∷ s))) [
  | inl e ↦
      let first : 0 ≡ i = ground (arith, h, e) in
      let size : length p ≡ 0 + length p = omega arith in
      subst (λ (i : ℕ). c ∷ s ≡ take i (c ∷ s) ++ (p ++ drop (i + length p) (c ∷ s))) first
        (prefix_drop p (c ∷ s) e ∙ ap (λ (n : ℕ). p ++ drop n (c ∷ s)) size)
  | inr e ↦ elim (Option-cases (index s p)) [
    | inl n ↦ ground (arith, h, e, n)
    | inr (j, k) ↦
        let later : suc j ≡ i = ground (arith, h, e, k) in
        let behind : suc (j + length p) ≡ suc j + length p = omega arith in
        subst (λ (i : ℕ). c ∷ s ≡ take i (c ∷ s) ++ (p ++ drop (i + length p) (c ∷ s))) later
          (ap (λ (t : Bytes). c ∷ t) (index-append s p j k)
            ∙ ap (λ (n : ℕ). (c ∷ take j s) ++ (p ++ drop n (c ∷ s))) behind)
  ]
]

abbrev pub first_of : Bytes → Option ℕ
first_of [] = none
first_of (c ∷ s) = some c

-- the run of bytes at the front that can stand in a token, and what is behind it
record IsRun (run rest : Bytes) : Type 0 where
  inside : All (λ c. is_tail_byte c ≡ true) run
  stops : Fails is_tail_byte (first_of rest)

tail_bytes-IsRun :
    (s : Bytes) → (rest : Bytes) × (s ≡ tail_bytes s ++ rest) × IsRun (tail_bytes s) rest
unfolding tail_bytes
tail_bytes-IsRun [] = ([], refl, record { inside = tt; stops = tt })
tail_bytes-IsRun (c ∷ s) =
    let (rest, whole, run) = tail_bytes-IsRun s in
    elim (Bool-cases (is_tail_byte c)) [
      | inl e ↦ rw e (
        rest,
        ap (λ (t : Bytes). c ∷ t) whole,
        record { inside = (e, run.inside); stops = run.stops },
      )
      | inr e ↦ rw e (c ∷ s, refl, record { inside = tt; stops = e })
    ]

module _ (drops : ℕ → Bool) where
  trim_filled :
      (c : ℕ) (s : Bytes)
      → (is_empty s && drops c) ≡ false
      → Fails drops (last_from none s)
      → Fails drops (last_from (some c) s)
  trim_filled c [] e h = e
  trim_filled c (d ∷ s) e h = h

  trim_right-Fails : (s : Bytes) → Fails drops (last_from none (trim_right drops s))
  unfolding trim_right
  trim_right-Fails [] = tt
  trim_right-Fails (c ∷ s) =
      if_cases (λ (t : Bytes). Fails drops (last_from none t))
        (is_empty (trim_right drops s) && drops c) _ _ (λ _. tt)
        (λ e. trim_filled c (trim_right drops s) e (trim_right-Fails s))

  nothing_left : (s : Bytes) → is_empty s ≡ true → s ≡ []
  nothing_left [] h = refl
  nothing_left (c ∷ s) h = cc

  trim_right-append :
      (s : Bytes) → (cut : Bytes) × (s ≡ trim_right drops s ++ cut) × All (λ c. drops c ≡ true) cut
  unfolding trim_right
  trim_right-append [] = ([], refl, tt)
  trim_right-append (c ∷ s) =
      let (cut, whole, cuts) = trim_right-append s in
      elim (Bool-cases (is_empty (trim_right drops s) && drops c)) [
        | inl e ↦
            let none_left : trim_right drops s ≡ [] =
              nothing_left (trim_right drops s) (ground arith) in
            let dropped : drops c ≡ true = ground arith in
            rw e (
              c ∷ cut,
              ap (λ (t : Bytes). c ∷ t) (whole ∙ ap (λ (t : Bytes). t ++ cut) none_left),
              (dropped, cuts),
            )
        | inr e ↦ rw e (cut, ap (λ (t : Bytes). c ∷ t) whole, cuts)
      ]

-- The reference is read where the prefix stands in the text, with no scheme byte right before it. Its
-- token is the prefix and the run of tail bytes behind it, less the punctuation at the end, and the
-- reference is what the token parses to, less the period and the word glued to it.
pub record IsRef (text : Bytes) (u : Uri) : Type 0 where
  pub before : Bytes
  pub run : Bytes
  pub rest : Bytes
  pub token : Bytes
  pub cut : Bytes
  pub parsed : Uri
  pub place : text ≡ before ++ (prefix ++ (run ++ rest))
  pub free : Fails is_scheme_byte (last_from none before)
  pub inside : All (λ c. is_tail_byte c ≡ true) run
  pub stops : Fails is_tail_byte (first_of rest)
  pub trimmed : prefix ++ run ≡ token ++ cut
  pub punctuation : All (λ c. is_punctuation c ≡ true) cut
  pub ends : Fails is_punctuation (last_from none token)
  pub parses : parse token ≡ ok parsed
  pub sheds : shed_glued_period parsed ≡ (u, true)

pub token_at-IsRef :
    (text before behind : Bytes) (v u : Uri)
    → text ≡ before ++ (prefix ++ behind)
    → Fails is_scheme_byte (last_from none before)
    → parse (token_at behind) ≡ ok v
    → shed_glued_period v ≡ (u, true)
    → IsRef text u
unfolding token_at
token_at-IsRef text before behind v u place free parses sheds =
    let (rest, whole, run) = tail_bytes-IsRun behind in
    let found = prefix ++ tail_bytes behind in
    let (cut, trimmed, punctuation) = trim_right-append is_punctuation found in
    record {
      before = before;
      run = tail_bytes behind;
      rest = rest;
      token = trim_right is_punctuation found;
      cut = cut;
      parsed = v;
      place = place ∙ ap (λ (t : Bytes). before ++ (prefix ++ t)) whole;
      free = free;
      inside = run.inside;
      stops = run.stops;
      trimmed = trimmed;
      punctuation = punctuation;
      ends = trim_right-Fails is_punctuation found;
      parses = parses;
      sheds = sheds;
    }

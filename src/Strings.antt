-- ===== src/Strings.antt =====
-- What the code uses of Go's package strings, on byte sequences.
pub mod Laws
use any.Common.{
  ℕ, suc, Bool, true, false, ◌&&◌, List, [], ◌∷◌, ◌++◌, Option, none, some, Bytes, ltb, ◌==◌,
  if◌then◌else◌,
}

-- a == b
unfoldable pub eq_bytes : Bytes → Bytes → Bool
eq_bytes [] [] = true
eq_bytes (a ∷ s) (b ∷ t) = a == b && eq_bytes s t
eq_bytes _ _ = false

abbrev pub is_empty : Bytes → Bool
is_empty [] = true
is_empty (_ ∷ _) = false

-- strings.CutPrefix(s, p); `none` is ok == false
unfoldable pub cut_prefix : Bytes → Bytes → Option Bytes
cut_prefix [] s = some s
cut_prefix (a ∷ p) [] = none
cut_prefix (a ∷ p) (b ∷ s) = if a == b then cut_prefix p s else none

-- strings.Cut(s, sep) at a separator of one byte: before, after, found
unfoldable pub cut : ℕ → Bytes → Bytes × Bytes × Bool
cut sep [] = ([], [], false)
cut sep (c ∷ s) =
    let (before, after, found) = cut sep s in
    if c == sep then ([], s, true) else (c ∷ before, after, found)

-- strings.Split(s, sep) at a separator of one byte: the parts, of which there is always a first
unfoldable pub split : ℕ → Bytes → Bytes × List Bytes
split sep [] = ([], [])
split sep (c ∷ s) =
    let (part, parts) = split sep s in if c == sep then ([], part ∷ parts) else (c ∷ part, parts)

-- strings.Join of `part ∷ parts` at a separator of one byte
unfoldable pub join : ℕ → Bytes → List Bytes → Bytes
join sep part [] = part
join sep part (next ∷ parts) = part ++ sep ∷ join sep next parts

-- strings.HasPrefix
unfoldable pub has_prefix : Bytes → Bytes → Bool
has_prefix [] s = true
has_prefix (a ∷ p) [] = false
has_prefix (a ∷ p) (b ∷ s) = if a == b then has_prefix p s else false

-- strings.Index(s, sub): where the first occurrence begins; `none` is -1
unfoldable pub index : Bytes → Bytes → Option ℕ
unfolding has_prefix
index [] sub = if is_empty sub then some 0 else none
index (c ∷ s) sub =
    let later = index s sub in
    if has_prefix sub (c ∷ s) then some 0 else elim later [ none ↦ none | some i ↦ some (suc i) ]

-- strings.TrimRight at the bytes that `drops` accepts
unfoldable pub trim_right : (ℕ → Bool) → Bytes → Bytes
trim_right drops [] = []
trim_right drops (c ∷ s) =
    let rest = trim_right drops s in if is_empty rest && drops c then [] else c ∷ rest

-- slices.Contains, and the look-up in a set of strings
unfoldable pub contains : List Bytes → Bytes → Bool
unfolding eq_bytes
contains [] s = false
contains (t ∷ ts) s = if eq_bytes t s then true else contains ts s

-- strings.CutSuffix(s, suffix); `none` is ok == false
unfoldable pub cut_suffix : Bytes → Bytes → Option Bytes
unfolding eq_bytes
cut_suffix [] suffix = if is_empty suffix then some [] else none
cut_suffix (c ∷ s) suffix =
    let shorter = cut_suffix s suffix in
    if eq_bytes (c ∷ s) suffix
    then some []
    else elim shorter [ none ↦ none | some r ↦ some (c ∷ r) ]

-- strings.ReplaceAll(s, old, new) at single bytes
unfoldable pub replace_byte : ℕ → ℕ → Bytes → Bytes
replace_byte old new [] = []
replace_byte old new (c ∷ s) = (if c == old then new else c) ∷ replace_byte old new s

-- the order of Go strings
unfoldable pub bytes_lt : Bytes → Bytes → Bool
bytes_lt s [] = false
bytes_lt [] (b ∷ t) = true
bytes_lt (a ∷ s) (b ∷ t) =
    let rest = bytes_lt s t in if ltb a b then true else if ltb b a then false else rest

-- ===== src/Events/Topics.antt =====
-- internal/server/events_topics.go: events and filters as pub/sub topics and patterns. The proofs
-- are in the modules below.
pub mod Accepts
pub mod Added
pub mod Cover
pub mod Disjoint
pub mod Family
pub mod Maximal
use any.Common.{
  is_nil, ℕ, Bool, true, false, not, ◌&&◌, ◌||◌, List, [], ◌∷◌, ◌++◌, Option, none, some, Bytes,
  codes, ltb, if◌then◌else◌,
}
use any.Strings.{bytes_lt, eq_bytes, is_empty, contains, cut_suffix, replace_byte, split}
use any.Events.{EventFilter, type_filter_matches}

abbrev pub topic_prefix : Bytes
topic_prefix = codes "ev/"

abbrev pub acc_topic_prefix : Bytes
acc_topic_prefix = codes "acc/ev/"

-- the one key of selfOwnedEventTypes
abbrev pub self_owned_type : Bytes
self_owned_type = codes "editor.cursor"

abbrev pub slash : ℕ
slash = b'/'

unfoldable pub segments_of : Bytes → Bytes
segments_of typ = replace_byte b'.' slash typ

abbrev pub target_segment : Bytes → Bytes
target_segment target = if is_empty target then codes "-" else target

unfoldable pub event_topic : Bytes → Bytes → Bytes → Bytes
unfolding segments_of
event_topic typ target account_id =
    let segs = segments_of typ in
    if eq_bytes typ self_owned_type
    then acc_topic_prefix ++ (segs ++ (slash ∷ (target_segment target ++ (slash ∷ account_id))))
    else topic_prefix ++ (segs ++ (slash ∷ target_segment target))

-- the closure `add` of filterPatterns; `seen` is the set of the patterns in `out`
pub add : List Bytes → Bytes → List Bytes
add out p = if contains out p then out else out ++ p ∷ []

pub add_targets : Bytes → List Bytes → List Bytes → List Bytes
add_targets segs [] out = out
add_targets segs (target ∷ targets) out =
    add_targets segs targets (add out (topic_prefix ++ (segs ++ (slash ∷ target))))

-- the patterns of `prefix.*`
pub prefix_patterns : Bytes → Bytes → List Bytes → List Bytes
unfolding add
prefix_patterns t prefix out =
    let segs = segments_of prefix in
    let out' = add out (topic_prefix ++ (segs ++ codes "/>")) in
    if type_filter_matches t self_owned_type
    then add out' (acc_topic_prefix ++ (segs ++ codes "/>"))
    else out'

-- the patterns of an exact type
pub exact_patterns : Bytes → List Bytes → List Bytes → List Bytes
unfolding add add_targets
exact_patterns t targets out =
    let segs = segments_of t in
    if eq_bytes t self_owned_type
    then add out (acc_topic_prefix ++ (segs ++ codes "/>"))
    else if is_nil targets
    then add out (topic_prefix ++ (segs ++ codes "/*"))
    else add_targets segs targets out

pub type_patterns : Option Bytes → Bytes → List Bytes → List Bytes → List Bytes
type_patterns (some prefix) t targets out = prefix_patterns t prefix out
type_patterns none t targets out = exact_patterns t targets out

pub types_loop : List Bytes → List Bytes → List Bytes → List Bytes
types_loop [] targets out = out
types_loop (t ∷ ts) targets out =
    types_loop ts targets (type_patterns (cut_suffix t (codes ".*")) t targets out)

unfoldable pub filter_patterns : EventFilter → List Bytes
unfolding types_loop type_patterns prefix_patterns exact_patterns segments_of
filter_patterns f =
    if is_nil f.types
    then (topic_prefix ++ codes ">") ∷ (acc_topic_prefix ++ codes ">") ∷ []
    else types_loop f.types f.targets []

-- the loop of patternSubsumes, on the segments
unfoldable pub segments_subsume : List Bytes → List Bytes → Bool
segments_subsume [] bs = is_nil bs
segments_subsume (a ∷ as_) [] = false
segments_subsume (a ∷ as_) (b ∷ bs) =
    let rest = segments_subsume as_ bs in
    if eq_bytes a (codes ">")
    then true
    else if eq_bytes a (codes "*")
    then (if eq_bytes b (codes ">") then false else rest)
    else if eq_bytes b a
    then rest
    else false

abbrev pub segments : Bytes → List Bytes
segments p = let (first, others) = split slash p in first ∷ others

unfoldable pub pattern_subsumes : Bytes → Bytes → Bool
unfolding segments_subsume
pattern_subsumes a b = if eq_bytes a b then true else segments_subsume (segments a) (segments b)

-- whether another member of `set` subsumes `p`
is_covered : List Bytes → Bytes → Bool
is_covered [] p = false
is_covered (q ∷ qs) p = if not (eq_bytes q p) && pattern_subsumes q p then true else is_covered qs p

uncovered : List Bytes → List Bytes → List Bytes
uncovered set [] = []
uncovered set (p ∷ ps) =
    let rest = uncovered set ps in if not (is_covered set p) then p ∷ rest else rest

insert_sorted : Bytes → List Bytes → List Bytes
insert_sorted p [] = p ∷ []
insert_sorted p (q ∷ qs) = if bytes_lt q p then q ∷ insert_sorted p qs else p ∷ q ∷ qs

-- slices.Sort
sort : List Bytes → List Bytes
sort [] = []
sort (p ∷ ps) = insert_sorted p (sort ps)

-- maximalPatterns; the set is the keys of the Go map
unfoldable pub maximal_patterns : List Bytes → List Bytes
unfolding is_covered uncovered bytes_lt insert_sorted sort
maximal_patterns set = sort (uncovered set set)

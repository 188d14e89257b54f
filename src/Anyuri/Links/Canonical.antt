-- ===== src/Anyuri/Links/Canonical.antt =====
-- Canonical and ObjectKey against the grammar.
use any.Common.{if_cases, Bytes, [], ◌≡◌, refl, append-nil, append_assoc, Option, none, some, ◌||◌}
use any.Strings.{join, is_empty, eq_bytes}
use any.Strings.Laws.{eq_bytes→eq}
use any.Anyuri.{
  Uri, ok, parse, string, kind_object, kind_identity, kind_mention, kind_prop, kind_file,
}
use any.Anyuri.Grammar.{
  Form, in_space, global, object, dataset_record, identity, mention, space, prop, file, render, uri,
  IsForm, IsSegment,
}
use any.Anyuri.RoundTrip.{parse-render, string-uri}
use any.Anyuri.Sound.{parse-IsParsed}
use any.Anyuri.Links.{canonical, or_default, object_key}

-- The form that a reference found in the space `sp` stands for: global, without query and fragment.
-- A space is no link target.
abbrev pub target : Bytes → Form → Option Form
target sp (in_space id) = some (object sp id)
target sp (global s id) = some (object s id)
target sp (object s id) = some (object s id)
target sp (dataset_record s id ds rec) = some (dataset_record s id ds rec)
target sp (identity id) = some (identity id)
target sp (mention s id) = some (identity id)
target sp (space s) = none
target sp (prop s id p) = some (prop s id p)
target sp (file s f v) = some (file s f [])

abbrev pub target_uri : Option Form → Option Uri
target_uri none = none
target_uri (some f) = some (uri f [])

abbrev OptionIsForm : Option Form → Type 0
OptionIsForm none = Unit
OptionIsForm (some g) = IsForm g

target-IsForm : (sp : Bytes) (f : Form) → IsSegment sp → IsForm f → OptionIsForm (target sp f)
target-IsForm sp (in_space id) h (k, _) = (h, k)
target-IsForm sp (global s id) h ((j, _), k) = (j, k)
target-IsForm sp (object s id) h k = k
target-IsForm sp (dataset_record s id ds rec) h k = k
target-IsForm sp (identity id) h k = k
target-IsForm sp (mention s id) h (_, k) = k
target-IsForm sp (space s) h k = tt
target-IsForm sp (prop s id p) h k = k
target-IsForm sp (file s f v) h (j, k, _) = (j, k, (tt, tt))

-- Canonical computes the target of every form of the grammar: whatever the notation, the query and
-- the fragment, a reference into a space, or read in the space `sp`, has the one key.
pub canonical-uri :
    (sp : Bytes) (f : Form) (t : Bytes)
    → IsSegment sp
    → IsForm f
    → canonical sp (uri f t) ≡ target_uri (target sp f)
unfolding canonical
canonical-uri sp (in_space id) t h (k, _) = simp (h.filled, k.filled)
canonical-uri sp (global s id) t h ((j, _), k) = simp (j.filled, k.filled)
canonical-uri sp (object s id) t h (j, k) = simp (j.filled, k.filled)
canonical-uri sp (dataset_record s id ds rec) t h (j, k, _, _) = simp (j.filled, k.filled)
canonical-uri sp (identity id) t h k = simp k.filled
canonical-uri sp (mention s id) t h (_, k) = simp k.filled
canonical-uri sp (space s) t h k = simp k.filled
canonical-uri sp (prop s id p) t h (j, k, l) = simp (j.filled, k.filled, l.filled)
canonical-uri sp (file s f v) t h (j, k, _) = simp (j.filled, k.filled)

-- what is said of a key, if there is one
abbrev KeyParses : Option Uri → Type 0
KeyParses none = Unit
KeyParses (some c) = parse (string c) ≡ ok c

target_uri-KeyParses : (o : Option Form) → OptionIsForm o → KeyParses (target_uri o)
target_uri-KeyParses none h = tt
target_uri-KeyParses (some f) h = rw (string-uri f [] h) (parse-render f [] h)

canonical-KeyParses :
    (s sp : Bytes) (u : Uri) → parse s ≡ ok u → IsSegment sp → KeyParses (canonical sp u)
canonical-KeyParses s sp u h k =
    let p = parse-IsParsed s u h in
    rw p.value (
      rw (canonical-uri sp p.form p.fragment k p.wf)
        (target_uri-KeyParses (target sp p.form) (target-IsForm sp p.form k p.wf)))

-- The text of the key that Canonical gives a parsed reference, in a space whose id is a segment, is a
-- reference that parses to that key.
pub parse-string-canonical :
    (s sp : Bytes) (u c : Uri)
    → parse s ≡ ok u
    → IsSegment sp
    → canonical sp u ≡ some c
    → parse (string c) ≡ ok c
parse-string-canonical s sp u c h k e = rw e at (canonical-KeyParses s sp u h k)

abbrev KeyStays : Bytes → Option Uri → Type 0
KeyStays sp none = Unit
KeyStays sp (some c) = canonical sp c ≡ some c

canonical-KeyStays : (sp sp' : Bytes) (u : Uri) → KeyStays sp' (canonical sp u)
unfolding canonical
canonical-KeyStays sp sp' u =
    if_cases (KeyStays sp') (eq_bytes u.kind kind_identity || eq_bytes u.kind kind_mention) _ _
      (λ _. if_cases (KeyStays sp') (is_empty u.identity) _ _ (λ _. tt {0}) (λ e. simp e))
      (λ other.
        if_cases (KeyStays sp') (is_empty (or_default u.space_id sp)) _ _ (λ _. tt {0})
          (λ sp_e.
            if_cases (KeyStays sp') (eq_bytes u.kind kind_object) _ _
              (λ k.
                if_cases (KeyStays sp') (is_empty u.object_id) _ _ (λ _. tt {0})
                  (λ e. simp (eq_bytes→eq u.kind kind_object k, sp_e, e)))
              (λ _.
                if_cases (KeyStays sp') (eq_bytes u.kind kind_prop) _ _
                  (λ k.
                    if_cases (KeyStays sp') (is_empty u.object_id || is_empty u.prop_id) _ _
                      (λ _. tt {0}) (λ e. simp (eq_bytes→eq u.kind kind_prop k, sp_e, e)))
                  (λ _.
                    if_cases (KeyStays sp') (eq_bytes u.kind kind_file) _ _
                      (λ k.
                        if_cases (KeyStays sp') (is_empty u.file_id) _ _ (λ _. tt {0})
                          (λ e. simp (eq_bytes→eq u.kind kind_file k, sp_e, e)))
                      (λ _. tt {0})))))

-- A key is its own key, in whatever space it is read.
pub canonical_idem :
    (sp sp' : Bytes) (u c : Uri) → canonical sp u ≡ some c → canonical sp' c ≡ some c
canonical_idem sp sp' u c h = rw h at (canonical-KeyStays sp sp' u)

-- the object that a form is or belongs to
abbrev pub object_of : Form → Option Form
object_of (object s id) = some (object s id)
object_of (dataset_record s id ds rec) = some (object s id)
object_of (prop s id p) = some (object s id)
object_of (global s id) = some (object s id)
object_of _ = none

abbrev pub text_of : Option Form → Option Bytes
text_of none = none
text_of (some f) = some (render f [])

-- ObjectKey of a parsed reference is the text of its object, and only references to an object of a
-- named space, its records and its property values have one.
pub object_key-uri :
    (f : Form) (t : Bytes) → IsForm f → object_key (uri f t) ≡ text_of (object_of f)
unfolding object_key join
object_key-uri (in_space id) t h = refl
object_key-uri (global s id) t ((j, _), k) = simp (j.filled, k.filled, append_assoc, append-nil)
object_key-uri (object s id) t (j, k) = simp (j.filled, k.filled, append_assoc, append-nil)
object_key-uri (dataset_record s id ds rec) t (j, k, _, _) =
    simp (j.filled, k.filled, append_assoc, append-nil)
object_key-uri (prop s id p) t (j, k, l) = simp (j.filled, k.filled, append_assoc, append-nil)
object_key-uri _ t h = refl

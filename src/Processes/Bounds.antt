-- ===== src/Processes/Bounds.antt =====
-- What no event can put into the registry.
use any.Common.{
  ℕ, ◌≤◌, Bool, true, false, not, [], ◌∷◌, Option, none, some, Bytes, length, ◌≡◌, ◌⊎◌, inl, inr,
  refl, ◌∙◌, arith, Bool-cases, if_cases, All,
}
use any.Strings.{eq_bytes, is_empty}
use any.Events.{Event, Sender}
use any.Processes.{
  ℤ, Entry, Registry, Process, ProcessError, EventData, State, running, done, failed, cancelled,
  is_key, find, put, sweep, expired, live, list, state_of, apply_state, apply, apply_checked,
  fold_event, row_before, fresh, sanitize, sanitize_data, is_event_target, merge_own, merge_found,
  error_of, or_kept, text_or_kept, clip_message, clip_error, clip_utf8, title_max_len,
  message_max_len, event_started,
}
use any.Processes.Clip.{clip_utf8-IsClipped}
use any.Processes.Rows.{
  Unique, apply_state-Unique, entry_of, put-Unique, sweep-Unique, key_identity,
}

-- A descriptor field: empty, or of the grammar of event targets.
abbrev pub IsDescriptor : Bytes → Type 0
IsDescriptor s = (is_empty s ≡ true) ⊎ (is_event_target s ≡ true)

abbrev pub ErrorBounded : Option ProcessError → Type 0
ErrorBounded none = Unit
ErrorBounded (some e) = length e.message ≤ message_max_len

abbrev pub HasError : Option ProcessError → State → Type 0
HasError none state = Unit
HasError (some e) state = state ≡ failed

pub record IsRow (p : Process) : Type 0 where
  pub title : length p.title ≤ title_max_len
  pub message : length p.message ≤ message_max_len
  pub kind : IsDescriptor p.kind
  pub target : IsDescriptor p.target
  pub error : ErrorBounded p.error
  -- only a failed row has an error
  pub outcome : HasError p.error p.state

pub record IsEntry (e : Entry) : Type 0 where
  pub row : IsRow e.proc
  -- the row carries its key
  pub identity : e.proc.identity ≡ e.identity
  pub id : e.proc.id ≡ e.id

pub record IsRegistry (r : Registry) : Type 0 where
  pub unique : Unique r
  pub entries : All IsEntry r

clip-le : (s : Bytes) (max : ℕ) → length (clip_utf8 s max) ≤ max
clip-le s max = (clip_utf8-IsClipped s max).bound

sanitize-IsDescriptor : (s : Bytes) → IsDescriptor (sanitize s)
unfolding sanitize
sanitize-IsDescriptor s = elim (Bool-cases (is_empty s)) [
  | inl e ↦ inl (rw e e)
  | inr e ↦ elim (Bool-cases (is_event_target s)) [
    | inl t ↦ inr (rw (e, t) t)
    | inr t ↦ inl (rw (e, t) refl)
  ]
]

or_kept_cases : (P : Bytes → Type 0) (new old : Bytes) → P new → P old → P (or_kept new old)
or_kept_cases P new old hn ho = if_cases P (not (is_empty new)) _ _ (λ _. hn) (λ _. ho)

message_bound :
    (m : Option Bytes) (old : Bytes)
    → length old ≤ message_max_len
    → length (text_or_kept (clip_message m) old) ≤ message_max_len
message_bound none old h = h
message_bound (some m) old h = clip-le m message_max_len

error_bound :
    (state : State) (e : Option ProcessError) → ErrorBounded (error_of state (clip_error e))
error_bound failed none = tt
error_bound failed (some e) = clip-le e.message message_max_len
error_bound running e = tt
error_bound done e = tt
error_bound cancelled e = tt

error_outcome :
    (state : State) (e : Option ProcessError) → HasError (error_of state (clip_error e)) state
error_outcome failed none = tt
error_outcome failed (some e) = refl
error_outcome running e = tt
error_outcome done e = tt
error_outcome cancelled e = tt

-- whatever the event carries, what is folded from it into a row keeps the bounds
fold_event-IsRow :
    (now : ℕ) (state : State) (ev : Event) (d : EventData) (p : Process)
    → IsRow p
    → IsRow (fold_event now state ev (sanitize_data d) p)
unfolding fold_event sanitize_data
fold_event-IsRow now state ev d p h = record {
  title =
      or_kept_cases (λ t. length t ≤ title_max_len) (clip_utf8 d.title title_max_len) p.title
        (clip-le d.title title_max_len) h.title;
  message = message_bound d.message p.message h.message;
  kind = or_kept_cases IsDescriptor (sanitize d.kind) p.kind (sanitize-IsDescriptor d.kind) h.kind;
  target =
      or_kept_cases IsDescriptor (sanitize d.target) p.target (sanitize-IsDescriptor d.target)
        h.target;
  error = error_bound state d.error;
  outcome = error_outcome state d.error;
}

fresh-IsRow : (now : ℕ) (sender : Sender) (ev : Event) → IsRow (fresh now sender ev)
fresh-IsRow now sender ev = record {
  title = omega arith;
  message = omega arith;
  kind = inl refl;
  target = inl refl;
  error = tt;
  outcome = tt;
}

-- the entry that was found, if there was one
abbrev Found : Bytes → Bytes → Option Entry → Type 0
Found i j none = Unit
Found i j (some e) = IsEntry e × (e.identity ≡ i) × (e.id ≡ j)

find-Found : (r : Registry) (i j : Bytes) → All IsEntry r → Found i j (find r i j)
unfolding find
find-Found [] i j h = tt
find-Found (e ∷ r) i j (h, hs) =
    if_cases (Found i j) (is_key i j e) _ _
      (λ k. let both = key_identity i j e k in (h, both.0, both.1)) (λ _. find-Found r i j hs)

put-All : (r : Registry) (e : Entry) → IsEntry e → All IsEntry r → All IsEntry (put r e)
unfolding put
put-All [] e h hs = (h, tt)
put-All (x ∷ r) e h (hx, hs) =
    if_cases (All IsEntry) (is_key e.identity e.id x) _ _ (λ _. (h, hs))
      (λ _. (hx, put-All r e h hs))

sweep-All : (now : ℕ) (r : Registry) → All IsEntry r → All IsEntry (sweep now r)
unfolding sweep
sweep-All now [] h = tt
sweep-All now (e ∷ r) (h, hs) =
    if_cases (All IsEntry) (expired now e) _ _ (λ _. sweep-All now r hs)
      (λ _. (h, sweep-All now r hs))

-- the row that an event is folded into, with its key
abbrev Before : Sender → Event → Process → Type 0
Before sender ev p = IsRow p × (p.identity ≡ sender.identity) × (p.id ≡ ev.target)

row_before-Before :
    (restarts : Bool) (now : ℕ) (sender : Sender) (ev : Event) (o : Option Entry)
    → Found sender.identity ev.target o
    → Before sender ev (row_before restarts now sender ev o)
unfolding row_before
row_before-Before restarts now sender ev none h = (fresh-IsRow now sender ev, refl, refl)
row_before-Before true now sender ev (some e) h = (fresh-IsRow now sender ev, refl, refl)
row_before-Before false now sender ev (some e) (h, a, b) = (h.row, h.identity ∙ a, h.id ∙ b)

entry_of-IsEntry :
    (now : ℕ) (state : State) (sender : Sender) (ev : Event) (d : EventData) (r : Registry)
    → All IsEntry r
    → IsEntry (entry_of now state sender ev d r)
entry_of-IsEntry now state sender ev d r h =
    let (row, a, b) =
      row_before-Before (eq_bytes ev.type event_started) now sender ev
        (find r sender.identity ev.target) (find-Found r sender.identity ev.target h) in
    record {
      row = fold_event-IsRow now state ev d _ row;
      identity = unfold fold_event in a;
      id = unfold fold_event in b;
    }

apply_state-IsRegistry :
    (now : ℕ) (state : State) (sender : Sender) (ev : Event) (d : EventData) (r : Registry)
    → IsRegistry r
    → IsRegistry (apply_state now state sender ev d r)
apply_state-IsRegistry now state sender ev d r h = record {
  unique = apply_state-Unique now state sender ev d r h.unique;
  entries =
      unfold apply_state in
      sweep-All now _ (put-All r _ (entry_of-IsEntry now state sender ev d r h.entries) h.entries);
}

apply_checked-IsRegistry :
    (decode : Bytes → EventData) (now : ℕ) (o : Option State) (s : Option Sender) (ev : Event)
    (r : Registry)
    → IsRegistry r
    → IsRegistry (apply_checked decode now o s ev r)
unfolding apply_checked
apply_checked-IsRegistry decode now none s ev r h = h
apply_checked-IsRegistry decode now (some state) none ev r h = h
apply_checked-IsRegistry decode now (some state) (some sender) ev r h =
    if_cases IsRegistry (is_empty ev.target) _ _ (λ _. h)
      (λ _. apply_state-IsRegistry now state sender ev (decode ev.payload) r h)

-- A progress request of the own account: its message was checked against the bound.
abbrev pub RequestBounded : Option Bytes → Type 0
RequestBounded none = Unit
RequestBounded (some m) = length m ≤ message_max_len

request_bound :
    (msg : Option Bytes) (old : Bytes)
    → RequestBounded msg
    → length old ≤ message_max_len
    → length (text_or_kept msg old) ≤ message_max_len
request_bound none old m h = h
request_bound (some m) old k h = k

live-Found : (now : ℕ) (i j : Bytes) (o : Option Entry) → Found i j o → Found i j (live now o)
live-Found now i j none h = tt
live-Found now i j (some e) h = if_cases (Found i j) (expired now e) _ _ (λ _. tt {0}) (λ _. h)

merge_found-IsRegistry :
    (now : ℕ) (n total : Option ℤ) (msg : Option Bytes) (r : Registry) (i j : Bytes)
    (o : Option Entry)
    → RequestBounded msg
    → IsRegistry r
    → Found i j o
    → IsRegistry (merge_found now n total msg r o).1
unfolding merge_found
merge_found-IsRegistry now n total msg r i j none m h f = h
merge_found-IsRegistry now n total msg r i j (some e) m h (f, _, _) = record {
  unique = put-Unique r _ h.unique;
  entries =
      put-All r _
        (record {
          row = record {
            title = f.row.title;
            message = request_bound msg e.proc.message m f.row.message;
            kind = f.row.kind;
            target = f.row.target;
            error = tt;
            outcome = tt;
          };
          identity = f.identity;
          id = f.id;
        })
        h.entries;
}

-- What happens to the registry: events of the bus, whatever they carry, progress requests of the own
-- account, and sweeps by a reader. A reset begins anew with the empty registry.
pub data Steps (decode : Bytes → EventData) : Registry → Type 0 where
  empty : Steps decode []
  event :
      {r : Registry} (now : ℕ) (ev : Event) → Steps decode r → Steps decode (apply decode now ev r)
  progress :
      {r : Registry} (now later : ℕ) (i j : Bytes) (n total : Option ℤ) (msg : Option Bytes)
      → RequestBounded msg
      → Steps decode r
      → Steps decode (merge_own now later i j n total msg r).1
  reads : {r : Registry} (now : ℕ) → Steps decode r → Steps decode (list now r).1

-- Whatever events arrive, in any order with requests of the own account and reads: no key stands twice, every row carries
-- its key, its title and messages keep their bounds, its kind and target are empty or of the target
-- grammar, and only a failed row has an error.
pub Steps-IsRegistry : (decode : Bytes → EventData) {r : Registry} → Steps decode r → IsRegistry r
unfolding apply merge_own list
Steps-IsRegistry decode empty = record { unique = tt; entries = tt }
Steps-IsRegistry decode (event {r = r} now ev s) =
    apply_checked-IsRegistry decode now (state_of ev.type) ev.sender ev r
      (Steps-IsRegistry decode s)
Steps-IsRegistry decode (progress {r = r} now later i j n total msg m s) =
    let h = Steps-IsRegistry decode s in
    merge_found-IsRegistry later n total msg r i j _ m h
      (live-Found now i j (find r i j) (find-Found r i j h.entries))
Steps-IsRegistry decode (reads {r = r} now s) =
    let h = Steps-IsRegistry decode s in
    record { unique = sweep-Unique now r h.unique; entries = sweep-All now r h.entries }

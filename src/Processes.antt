-- ===== src/Processes.antt =====
-- internal/server/processes.go: the registry of processes, a view of the process events of the bus.
-- The Go map is an association list, a time the nanoseconds of the local clock, which the operations
-- take as an argument. Every operation runs under the registry's lock. The proofs are in the modules
-- below.
pub mod Clip
pub mod Rows
pub mod Expiry
pub mod Bounds
mod Tests
use any.Common.{
  ℕ, zero, suc, ◌+◌, ◌-◌, ◌*◌, ◌/◌, Bool, true, false, not, ◌&&◌, ◌||◌, List, [], ◌∷◌, ◌++◌, Option,
  none, some, Bytes, codes, length, drop, take, ◌==◌, ltb, leb, if◌then◌else◌,
}
use any.Strings.{eq_bytes, is_empty, bytes_lt}
use any.Events.{Event, Sender}

-- an int64
pub data ℤ : Type 0 where
  pos : ℕ → ℤ
  negsuc : ℕ → ℤ

-- max(0, n)
abbrev pub clamp : ℤ → ℕ
clamp (pos n) = n
clamp (negsuc n) = 0

-- a closed set of strings in the source
pub data State : Type 0 where
  running done failed cancelled : State

pub record ProcessError : Type 0 where
  pub code : Bytes
  pub message : Bytes

pub record Process : Type 0 where
  pub identity : Bytes
  pub self : Bool
  pub id : Bytes
  pub kind : Bytes
  pub title : Bytes
  pub scope : Bytes
  pub space_id : Bytes
  pub target : Bytes
  pub state : State
  pub done_count : ℕ
  pub total : ℕ
  pub message : Bytes
  pub error : Option ProcessError
  pub started_at : ℕ
  pub updated_at : ℕ

-- the struct processEventDataIn
pub record EventData : Type 0 where
  pub kind : Bytes
  pub title : Bytes
  pub target : Bytes
  pub done_count : Option ℤ
  pub total : Option ℤ
  pub message : Option Bytes
  pub error : Option ProcessError

-- the struct processEntry, with its key in the map, which is an identity and an id
pub record Entry : Type 0 where
  pub identity : Bytes
  pub id : Bytes
  pub proc : Process
  pub seen : ℕ

abbrev pub Registry : Type 0
Registry = List Entry

abbrev pub second : ℕ
second = 1_000_000_000

abbrev pub stale_ttl : ℕ
stale_ttl = 45 * second

abbrev pub terminal_ttl : ℕ
terminal_ttl = 60 * second

abbrev pub title_max_len : ℕ
title_max_len = 256

abbrev pub message_max_len : ℕ
message_max_len = 1024

abbrev pub event_started : Bytes
event_started = codes "process.started"

-- the state that an event type stands for; `none` for a type that apply ignores
unfoldable pub state_of : Bytes → Option State
unfolding eq_bytes
state_of typ =
    if eq_bytes typ event_started || eq_bytes typ (codes "process.progress")
    then some running
    else if eq_bytes typ (codes "process.done")
    then some done
    else if eq_bytes typ (codes "process.failed")
    then some failed
    else if eq_bytes typ (codes "process.cancelled")
    then some cancelled
    else none

-- utf8.RuneStart
unfoldable pub rune_start : ℕ → Bool
rune_start b = ltb b 0x80 || leb 0xc0 b

abbrev pub starts_rune : Bytes → Bool
starts_rune [] = true
starts_rune (b ∷ _) = rune_start b

-- the loop of clipUTF8
clip_at : ℕ → Bytes → ℕ
clip_at zero s = zero
clip_at (suc max) s =
    let lower = clip_at max s in if not (starts_rune (drop (suc max) s)) then lower else suc max

unfoldable pub clip_utf8 : Bytes → ℕ → Bytes
unfolding clip_at
clip_utf8 s max = if leb (length s) max then s else take (clip_at max s) s

-- the class [A-Za-z0-9._-]
target_byte : ℕ → Bool
target_byte c =
    leb b'A' c && leb c b'Z'
    || leb b'a' c && leb c b'z'
    || leb b'0' c && leb c b'9'
    || c == b'.'
    || c == b'_'
    || c == b'-'

all_target_bytes : Bytes → Bool
all_target_bytes [] = true
all_target_bytes (c ∷ s) = if target_byte c then all_target_bytes s else false

-- eventTargetRe.MatchString
unfoldable pub is_event_target : Bytes → Bool
unfolding target_byte all_target_bytes
is_event_target s = leb 1 (length s) && leb (length s) 128 && all_target_bytes s

-- a descriptor field that breaks the grammar is dropped
unfoldable pub sanitize : Bytes → Bytes
sanitize s = if not (is_empty s) && not (is_event_target s) then [] else s

abbrev pub clip_error : Option ProcessError → Option ProcessError
clip_error none = none
clip_error (some e) = some (record e { message = clip_utf8 e.message message_max_len })

abbrev pub clip_message : Option Bytes → Option Bytes
clip_message none = none
clip_message (some m) = some (clip_utf8 m message_max_len)

unfoldable pub sanitize_data : EventData → EventData
unfolding sanitize
sanitize_data d = record d {
  kind = sanitize d.kind;
  target = sanitize d.target;
  title = clip_utf8 d.title title_max_len;
  message = clip_message d.message;
  error = clip_error d.error;
}

unfoldable pub is_key : Bytes → Bytes → Entry → Bool
is_key identity id e = eq_bytes e.identity identity && eq_bytes e.id id

-- r.entries[key]
unfoldable pub find : Registry → Bytes → Bytes → Option Entry
find [] identity id = none
find (e ∷ es) identity id = if is_key identity id e then some e else find es identity id

-- r.entries[key] = e
unfoldable pub put : Registry → Entry → Registry
put [] e = e ∷ []
put (x ∷ es) e = if is_key e.identity e.id x then e ∷ es else x ∷ put es e

-- now.Unix()
abbrev pub unix : ℕ → ℕ
unix now = now / second

abbrev pub ttl_of : State → ℕ
ttl_of running = stale_ttl
ttl_of _ = terminal_ttl

-- processEntry.expired; a clock that went back is not past any budget
unfoldable pub expired : ℕ → Entry → Bool
expired t e = ltb (ttl_of e.proc.state) (t - e.seen)

-- sweepLocked
unfoldable pub sweep : ℕ → Registry → Registry
sweep now [] = []
sweep now (e ∷ es) = let rest = sweep now es in if expired now e then rest else e ∷ rest

-- the row that a first or a started event begins
abbrev pub fresh : ℕ → Sender → Event → Process
fresh now sender ev = record {
  identity = sender.identity;
  self = sender.self;
  id = ev.target;
  kind = [];
  title = [];
  scope = [];
  space_id = [];
  target = [];
  state = running;
  done_count = 0;
  total = 0;
  message = [];
  error = none;
  started_at = unix now;
  updated_at = 0;
}

unfoldable pub row_before : Bool → ℕ → Sender → Event → Option Entry → Process
row_before restarts now sender ev none = fresh now sender ev
row_before restarts now sender ev (some e) = if restarts then fresh now sender ev else e.proc

abbrev pub or_kept : Bytes → Bytes → Bytes
or_kept new old = if not (is_empty new) then new else old

abbrev pub count_or_kept : Option ℤ → ℕ → ℕ
count_or_kept none old = old
count_or_kept (some n) old = clamp n

abbrev pub text_or_kept : Option Bytes → Bytes → Bytes
text_or_kept none old = old
text_or_kept (some m) old = m

abbrev pub error_of : State → Option ProcessError → Option ProcessError
error_of failed error = error
error_of _ error = none

-- what apply folds into the row
unfoldable pub fold_event : ℕ → State → Event → EventData → Process → Process
fold_event now state ev d p = record p {
  scope = ev.scope;
  space_id = ev.space_id;
  state = state;
  kind = or_kept d.kind p.kind;
  title = or_kept d.title p.title;
  target = or_kept d.target p.target;
  done_count = count_or_kept d.done_count p.done_count;
  total = count_or_kept d.total p.total;
  message = text_or_kept d.message p.message;
  error = error_of state d.error;
  updated_at = unix now;
}

-- apply behind its checks, on the decoded data
unfoldable pub apply_state : ℕ → State → Sender → Event → EventData → Registry → Registry
apply_state now state sender ev d r =
    let before =
      row_before (eq_bytes ev.type event_started) now sender ev
        (find r sender.identity ev.target) in
    sweep now (
      put r (record {
        identity = sender.identity;
        id = ev.target;
        proc = fold_event now state ev (sanitize_data d) before;
        seen = now;
      }))

-- json.Unmarshal(ev.Data, &data), which leaves what it could not read
module _ (decode : Bytes → EventData) where
  apply_checked : ℕ → Option State → Option Sender → Event → Registry → Registry
  apply_checked now none sender ev r = r
  apply_checked now (some state) none ev r = r
  apply_checked now (some state) (some sender) ev r =
      if is_empty ev.target then r else apply_state now state sender ev (decode ev.payload) r

  unfoldable pub apply : ℕ → Event → Registry → Registry
  unfolding apply_checked apply_state row_before fold_event find put sweep sanitize_data
  apply now ev r = apply_checked now (state_of ev.type) ev.sender ev r

abbrev pub live : ℕ → Option Entry → Option Entry
live now none = none
live now (some e) = if expired now e then none else some e

abbrev pub row_of : Option Entry → Option Process
row_of none = none
row_of (some e) = some e.proc

-- get; `none` is false
unfoldable pub get : ℕ → Bytes → Bytes → Registry → Option Process
unfolding find
get now identity id r = row_of (live now (find r identity id))

-- mergeOwn on the entry that it found: the row that it answers with, and the registry
unfoldable pub merge_found :
    ℕ → Option ℤ → Option ℤ → Option Bytes → Registry → Option Entry → Option Process × Registry
merge_found now done_count total msg r none = (none, r)
merge_found now done_count total msg r (some e) =
    let p = record e.proc {
      done_count = count_or_kept done_count e.proc.done_count;
      total = count_or_kept total e.proc.total;
      message = text_or_kept msg e.proc.message;
      state = running;
      error = none;
      updated_at = unix now;
    } in
    (some p, put r (record e { proc = p; seen = now }))

-- mergeOwn, at the times of its first and its second look at the clock
unfoldable pub merge_own :
    ℕ
    → ℕ
    → Bytes
    → Bytes
    → Option ℤ
    → Option ℤ
    → Option Bytes
    → Registry
    → Option Process × Registry
unfolding merge_found find put
merge_own now later identity id done_count total msg r =
    merge_found later done_count total msg r (live now (find r identity id))

-- reset
abbrev pub reset : Registry → Registry
reset r = []

-- the order of list: first-seen time, then the key
row_lt : Process → Process → Bool
row_lt a b =
    if ltb a.started_at b.started_at
    then true
    else if ltb b.started_at a.started_at
    then false
    else if bytes_lt a.identity b.identity
    then true
    else if bytes_lt b.identity a.identity
    then false
    else bytes_lt a.id b.id

-- slices.SortFunc
insert_row : (Process → Process → Bool) → Process → List Process → List Process
insert_row lt p [] = p ∷ []
insert_row lt p (q ∷ qs) = if lt q p then q ∷ insert_row lt p qs else p ∷ q ∷ qs

sort_rows : (Process → Process → Bool) → List Process → List Process
sort_rows lt [] = []
sort_rows lt (p ∷ ps) = insert_row lt p (sort_rows lt ps)

rows : Registry → List Process
rows [] = []
rows (e ∷ es) = e.proc ∷ rows es

-- list: the sorted rows, and the registry that it swept
unfoldable pub list : ℕ → Registry → List Process × Registry
unfolding sweep insert_row sort_rows rows row_lt
list now r = let swept = sweep now r in (sort_rows row_lt (rows swept), swept)

rows_of_id : ℕ → Bytes → Registry → List Process
rows_of_id now id [] = []
rows_of_id now id (e ∷ es) =
    let rest = rows_of_id now id es in
    if eq_bytes e.id id && not (expired now e) then e.proc ∷ rest else rest

-- byId
unfoldable pub by_id : ℕ → Bytes → Registry → List Process
unfolding rows_of_id insert_row sort_rows
by_id now id r = sort_rows (λ a b. bytes_lt a.identity b.identity) (rows_of_id now id r)

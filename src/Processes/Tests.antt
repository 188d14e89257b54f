-- ===== src/Processes/Tests.antt =====
-- Runs of the registry, and the theorems at concrete events and rows.
use any.Common.{
  [], ◌∷◌, Bytes, codes, none, some, ◌≡◌, refl, arith, ◌-◌, ◌*◌, ltb, if◌then◌else◌, true,
}
use any.Events.{Event, Sender}
use any.Processes.{
  pos, EventData, Registry, running, apply, get, state_of, is_key, ttl_of, second, clip_utf8,
  rune_start, list, merge_own,
}
use any.Processes.Rows.{entry_of}
use any.Processes.Clip.{IsClipped, clip_utf8-IsClipped}
use any.Processes.Expiry.{get-apply}
use any.Processes.Bounds.{IsRegistry, empty, event, progress, reads, Steps-IsRegistry}

abbrev agent : Sender
agent = record { identity = codes "A1"; self = true }

abbrev started : Event
started = record {
  type = codes "process.started";
  scope = codes "account";
  space_id = [];
  target = codes "job1";
  sender = some agent;
  payload = codes "copy";
}

-- a decoder that takes the payload as the title
abbrev decode_title : Bytes → EventData
decode_title s = record {
  kind = codes "backup";
  title = s;
  target = codes "no target";
  done_count = some (pos 1);
  total = none;
  message = none;
  error = some (record { code = codes "e"; message = codes "m" });
}

abbrev with_job : Registry
with_job = apply decode_title (5 * second) started []

started-running : state_of started.type ≡ some running
unfolding state_of
started-running = refl

-- a byte of a rune that does not fit is left out with the rest of it
clip_cut : clip_utf8 (0x61 ∷ 0xc3 ∷ 0xa9 ∷ []) 2 ≡ 0x61 ∷ []
unfolding clip_utf8 rune_start
clip_cut = refl

clip_utf8-IsClipped_example :
    IsClipped (0x61 ∷ 0xc3 ∷ 0xa9 ∷ []) 2 (clip_utf8 (0x61 ∷ 0xc3 ∷ 0xa9 ∷ []) 2)
clip_utf8-IsClipped_example = clip_utf8-IsClipped (0x61 ∷ 0xc3 ∷ 0xa9 ∷ []) 2

get-apply_example :
    get (6 * second) (codes "A1") (codes "job1") (apply decode_title (5 * second) started []) ≡ (
      if is_key
        (codes "A1")
        (codes "job1")
        (entry_of (5 * second) running agent started (decode_title started.payload) [])
      then (if ltb (ttl_of running) (6 * second - 5 * second)
          then none
          else some
              (entry_of (5 * second) running agent started (decode_title started.payload) []).proc)
      else get (6 * second) (codes "A1") (codes "job1") [])
get-apply_example =
    get-apply decode_title (5 * second) (6 * second) running agent started [] (codes "A1")
      (codes "job1") tt (omega arith) started-running refl refl

Steps-IsRegistry_example :
    IsRegistry
      (list
        (6 * second)
        (merge_own
          (6 * second)
          (6 * second)
          (codes "A1")
          (codes "job1")
          (some (pos 2))
          none
          none
          with_job).1).1
Steps-IsRegistry_example = Steps-IsRegistry decode_title (
    reads (6 * second) (
      progress (6 * second) (6 * second) (codes "A1") (codes "job1") (some (pos 2)) none none tt
        (event (5 * second) started empty)))

-- ===== src/Stream.antt =====
-- The document stream of redis_store.go on the reading side: the entries of a reply, and the replay
-- of the events after a sequence, page by page.
pub mod Parse
pub mod Replay
pub mod Paging
pub mod Server
pub mod Examples
use live_collab.Base.{
  ℕ, zero, suc, Bool, true, false, List, [], ◌∷◌, ◌++◌, Option, none, some, Int64, Str, lit, str_eq,
  le64, lt64, inc64, ◌==◌, if◌then◌else◌,
}
use live_collab.Base.Result.{
  Result, ok, err, ◌>>=◌, unexpected_reply, replay_gap, cursor_exceeds_boundary, Error,
}
use live_collab.Base.Decimal.{parse_int}
use live_collab.Keys.{room_stream_key}
use live_collab.Message.{DistributedEvent}
use live_collab.Reply.{Reply, nil, text, int, arr, Replies, end, item, redis_string}

-- fields[...] of parseStreamEntries, with "" on a missing key. A later pair stands in front.
unfoldable pub field : Str → List (Str × Str) → Str
field k [] = []
field k ((j, v) ∷ m) = if str_eq j k then v else field k m

-- The loop over fieldValues; an odd number of values is an error.
unfoldable pub field_pairs : Replies → List (Str × Str) → Result (List (Str × Str))
field_pairs end m = ok m
field_pairs (item k end) m = err unexpected_reply
field_pairs (item k (item v rs)) m = field_pairs rs ((redis_string k, redis_string v) ∷ m)

event_of : Str → List (Str × Str) → Result DistributedEvent
event_of stream_id fields = do
  sequence ← parse_int (field (lit "sequence") fields)
  version ← parse_int (field (lit "version") fields)
  ok (record {
    stream_id = stream_id;
    sequence = sequence;
    version = version;
    operation_id = field (lit "operationId") fields;
    client_id = field (lit "clientId") fields;
    username = field (lit "username") fields;
    content = field (lit "content") fields;
  })

-- One tuple of the reply: the stream ID and the flat list of fields.
unfoldable pub parse_entry : Reply → Result DistributedEvent
unfolding event_of
parse_entry (arr (item id (item (arr values) more))) = do
  fields ← field_pairs values []
  event_of (redis_string id) fields
parse_entry _ = err unexpected_reply

unfoldable pub parse_entries : Replies → Result (List DistributedEvent)
parse_entries end = ok []
parse_entries (item r rs) = do event ← parse_entry r; rest ← parse_entries rs; ok (event ∷ rest)

-- parseStreamEntries.
unfoldable pub parse_stream_entries : Reply → Result (List DistributedEvent)
parse_stream_entries nil = ok []
parse_stream_entries (arr rs) = parse_entries rs
parse_stream_entries _ = err unexpected_reply

-- events[len(events)-1] of a page that is not empty.
unfoldable pub last_event : DistributedEvent → List DistributedEvent → DistributedEvent
last_event e [] = e
last_event e (f ∷ fs) = last_event f fs

-- DistributedEvent{StreamID: "0-0"}, for a stream without entries.
abbrev pub no_event : DistributedEvent
no_event = record {
  stream_id = lit "0-0";
  sequence = 0;
  version = 0;
  operation_id = [];
  client_id = [];
  username = [];
  content = [];
}

first_or_none : List DistributedEvent → DistributedEvent
first_or_none [] = no_event
first_or_none (e ∷ es) = e

-- ReplayBoundary and LatestStreamID, on what the XREVRANGE ends with.
unfoldable pub replay_boundary : Result Reply → Result DistributedEvent
unfolding first_or_none parse_stream_entries
replay_boundary reply = do raw ← reply; events ← parse_stream_entries raw; ok (first_or_none events)

unfoldable pub latest_stream_id : Result Reply → Result Str
unfolding replay_boundary
latest_stream_id reply = do boundary ← replay_boundary reply; ok boundary.stream_id

-- ReadAfterStreamID, on what the XREAD ends with.
unfoldable pub read_after_stream_id : Result Reply → Result (List DistributedEvent)
unfolding parse_stream_entries
read_after_stream_id (err e) = err e
read_after_stream_id (ok (arr (item (arr (item name (item entries more))) streams))) =
    parse_stream_entries entries
read_after_stream_id (ok (arr (item tuple streams))) = err unexpected_reply
read_after_stream_id (ok _) = ok []

-- The XRANGE command of EventsAfterSequence: the stream, the first ID, the last ID and the COUNT.
abbrev pub xrange : Str → Str → Str → List Str
xrange key start last = lit "XRANGE" ∷ key ∷ start ∷ last ∷ lit "COUNT" ∷ lit "1000" ∷ []

-- What the read of a room's stream from an ID on, up to the boundary, ends with.
abbrev pub range_of :
    Str → DistributedEvent → (ℕ → List Str → Result Reply) → ℕ → Str → Result Reply
range_of room boundary fetch round start =
    fetch round (xrange (room_stream_key room) start boundary.stream_id)

-- The callback of EventsAfterSequence, on the state that it works on; an error leaves the state
-- as the callback left it.
abbrev pub Visitor : Type 0 → Type 0
Visitor S = S → DistributedEvent → S × Option Error

-- if err := visit(event); err != nil { return err }
abbrev pub proceed : {S B : Type 0} → S × Option Error → (S → S × Result B) → S × Result B
proceed (s, none) next = next s
proceed (s, some e) next = (s, err e)

module _ {S : Type 0} (visit : Visitor S) (last_sequence : Int64)
    (boundary : DistributedEvent) where
  -- What the loop over one page ends with: the state, and an error or the next expected sequence.
  unfoldable pub page_loop : List DistributedEvent → Int64 → S → S × Result Int64
  page_loop [] expected s = (s, ok expected)
  page_loop (event ∷ events) expected s =
      let skip = page_loop events expected s in
      let next = λ (s' : S). page_loop events (inc64 expected) s' in
      if le64 event.sequence last_sequence
      then skip
      else if event.sequence == expected
      then (if lt64 boundary.sequence event.sequence
          then (s, err replay_gap)
          else proceed (visit s event) next)
      else (s, err replay_gap)

  -- An error in a page ends the replay; otherwise the next page is read.
  abbrev pub continue :
      S × Result Int64
      → (S → Int64 → Option (S × Result (Unit {0})))
      → Option (S × Result (Unit {0}))
  continue (s, err e) more = some (s, err e)
  continue (s, ok expected) more = more s expected

  -- The body of the outer loop behind the XRANGE; `more` goes on from the page's last event.
  unfoldable pub read_page :
      Result (List DistributedEvent)
      → Int64
      → S
      → (DistributedEvent → S → Int64 → Option (S × Result (Unit {0})))
      → Option (S × Result (Unit {0}))
  unfolding page_loop
  read_page (err e) expected s more = some (s, err e)
  read_page (ok []) expected s more = some (s, err replay_gap)
  read_page (ok (first ∷ others)) expected s more =
      continue (page_loop (first ∷ others) expected s) (more (last_event first others))

  -- The loop over the pages. `fetch round command` is what the command of that round ends with.
  -- Without fuel there is no result.
  unfoldable pub pages :
      Str → (ℕ → List Str → Result Reply) → ℕ → ℕ → Str → Int64 → S → Option (S × Result (Unit {0}))
  pages room fetch zero round start expected s = none
  pages room fetch (suc fuel) round start expected s =
      let more = λ (last : DistributedEvent) (s' : S) (expected' : Int64).
        pages room fetch fuel (suc round) (b'(' ∷ last.stream_id) expected' s' in
      if le64 expected boundary.sequence
      then read_page (range_of room boundary fetch round start >>= parse_stream_entries) expected s
          more
      else some (s, ok tt)

  -- EventsAfterSequence.
  unfoldable pub events_after_sequence :
      Str → (ℕ → List Str → Result Reply) → ℕ → S → Option (S × Result (Unit {0}))
  events_after_sequence room fetch fuel s =
      if lt64 boundary.sequence last_sequence
      then some (s, err cursor_exceeds_boundary)
      else pages room fetch fuel 0 (lit "-") (inc64 last_sequence) s

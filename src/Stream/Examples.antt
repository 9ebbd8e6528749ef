-- ===== src/Stream/Examples.antt =====
-- Replays of a stream of four events, in pages of two, and the theorems at them.
use live_collab.Base.{
  ℕ, zero, suc, Str, take, ◌+◌, ◌≡◌, refl, List, [], ◌∷◌, map, some, arith, lit, str_eq, drop,
  rank64, inc64,
}
use live_collab.Base.Result.{Result, ok, err, replay_gap}
use live_collab.Base.Decimal.{parse_int, format_int, format_nat, digits}
use live_collab.Message.{DistributedEvent}
use live_collab.Reply.{Reply, arr, redis_string}
use live_collab.Stream.{
  events_after_sequence, pages, read_page, parse_stream_entries, parse_entries, parse_entry, field,
  field_pairs, last_event, range_of,
}
use live_collab.Keys.{room_stream_key}
use live_collab.Stream.Parse.{replies, entry_reply}
use live_collab.Stream.Replay.{Numbered, record_visit, replay_sound}
use live_collab.Stream.Paging.{Serves, visit_all, replay_complete}
use live_collab.Stream.Server.{serve, serve-Serves}

abbrev event : ℕ → DistributedEvent
event n = record {
  stream_id = (b'0' + n) ∷ lit "-0";
  sequence = n;
  version = n;
  operation_id = lit "op";
  client_id = lit "c1";
  username = lit "ann";
  content = lit "hello";
}

abbrev log : List DistributedEvent
log = event 1 ∷ event 2 ∷ event 3 ∷ event 4 ∷ []

abbrev holed : List DistributedEvent
holed = event 1 ∷ event 2 ∷ event 4 ∷ []

abbrev key : Str
key = room_stream_key (lit "a1b2c3")

-- The room's stream in pages of two, whatever COUNT says.
abbrev twos : List DistributedEvent → ℕ → List Str → Result Reply
twos es zero command = ok (arr (replies (map entry_reply (take 2 es))))
twos es (suc round) command = ok (arr (replies (map entry_reply (drop 2 es))))

pages_of_two :
    events_after_sequence record_visit 1 (event 4) (lit "a1b2c3") (twos log) 5 []
    ≡ some (event 2 ∷ event 3 ∷ event 4 ∷ [], ok tt)
unfolding events_after_sequence pages read_page parse_stream_entries parse_entries parse_entry field
    field_pairs redis_string last_event parse_int format_int format_nat digits str_eq rank64 inc64
    entry_reply
pages_of_two = refl

gap_is_found :
    events_after_sequence record_visit 1 (event 4) (lit "a1b2c3") (serve key holed) 5 []
    ≡ some (event 2 ∷ [], err replay_gap)
unfolding events_after_sequence pages read_page parse_stream_entries parse_entries parse_entry field
    field_pairs redis_string last_event parse_int format_int format_nat digits str_eq rank64 inc64
    serve entry_reply room_stream_key
gap_is_found = refl

replay_sound_example : Numbered 1 (event 2 ∷ event 3 ∷ event 4 ∷ []) × (1 + 3 ≡ 4)
replay_sound_example =
    replay_sound 1 (event 4) (omega arith) (lit "a1b2c3") (twos log) 5
      (event 2 ∷ event 3 ∷ event 4 ∷ []) (omega arith) pages_of_two

log_served : Serves 999 (range_of (lit "a1b2c3") (event 4) (serve key log)) log
log_served =
    serve-Serves (lit "a1b2c3") (event 1 ∷ event 2 ∷ event 3 ∷ []) (event 4)
      (unfold str_eq in ((refl, (refl, (refl, tt))), ((refl, (refl, tt)), ((refl, tt), (tt, tt)))))

replay_complete_example :
    events_after_sequence record_visit 1 (event 4) (lit "a1b2c3") (serve key log) 5 []
    ≡ some (visit_all record_visit [] (drop 1 log))
replay_complete_example =
    replay_complete record_visit 1 (event 4) (omega arith) (omega arith) 999 (lit "a1b2c3")
      (serve key log) log log_served (omega arith) 5 0 [] (omega arith) (omega arith) (omega arith)
      (omega arith)

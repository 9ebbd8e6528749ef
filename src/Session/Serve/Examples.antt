-- ===== src/Session/Serve/Examples.antt =====
-- A connection that joins, is sent the room's state and presence, types, and goes.
use live_collab.Base.{
  none, ◌≤◌, ℕ, ◌+◌, ◌<◌, ◌≡◌, refl, true, false, List, [], ◌∷◌, some, arith, lit, str_eq, rank64,
  lt64, length, ◌==◌,
}
use live_collab.Base.Result.{ok}
use live_collab.Message.{zero_message, Frame}
use live_collab.Transport.Recorder.{recorder}
use live_collab.Client.{Client}
use live_collab.Reply.{arr, end}
use live_collab.Redis.Memory.{memory, empty_memory}
use live_collab.Redis.Collections.{exact_limit}
use live_collab.Redis.MemoryCollections.{collections}
use live_collab.Store.{answered}
use live_collab.Membership.Calls.{milliseconds_of}
use live_collab.Membership.Spec.{Presence, is_member}
use live_collab.Membership.Refine.{Held}
use live_collab.Membership.PlainJson.{json, nobody, nobody-Held}
use live_collab.Session.{World}
use live_collab.Session.Admission.{Request, new_client}
use live_collab.Session.Serve.{Course, read, read_error, serve_ws}
use live_collab.Session.Serve.Cleanup.{serve_ws-clients}
use live_collab.Session.Serve.Departure.{serve_ws_departed}

abbrev request : Request
request = record { room_id = lit "a1b2c3"; username = lit "ann"; client_id = []; last_sequence = 0 }

abbrev ann : Client (List Frame)
ann = new_client recorder true request (lit "k1") (lit "n1") []

abbrev world : World (List Frame) memory.Db
world = record {
  room = record {
    id = lit "a1b2c3";
    content = [];
    version = 0;
    sequence = 0;
    clients = 2 ∷ [];
    has_store = true;
    local_presence_revision = 0;
  };
  heap = λ a. ann;
  db = empty_memory;
}

abbrev course : Course
course = record {
  join_wire = answered;
  join_clock = record { seconds = 100; micros = 0 };
  lease = 30000000000;
  newest = ok (arr end);
  fetch = λ n id. ok (arr end);
  fuel = 1;
  snapshot_wires = (answered, answered, answered, answered);
  presence_wire = answered;
  presence_clock = record { seconds = 101; micros = 0 };
  inputs =
      read true (some (record zero_message { type = lit "typing" }))
        (answered, answered, answered, answered) answered
      ∷ read_error
      ∷ [];
  leave_wire = answered;
}

serve_ws-clients_example :
    let (w', deleted) = serve_ws memory collections json recorder (lit "reject") course 0 1 world in
    (w'.room.clients ≡ 2 ∷ []) × (deleted ≡ (length {A = ℕ} (2 ∷ []) == 0))
serve_ws-clients_example =
    serve_ws-clients memory collections json recorder (lit "reject") course 0 1 world refl

exact : 100000 + milliseconds_of 30000000000 < exact_limit
unfolding milliseconds_of
exact = omega arith

not_resumed : lt64 0 0 ≡ false
unfolding rank64
not_resumed = refl

serve_ws_departed_example :
    let w' = (serve_ws memory collections json recorder (lit "reject") course 0 1 world).0 in
    (p' : Presence) × Held memory collections json (lit "a1b2c3") w'.db p'
    × (is_member ann.connection_id p' ≡ false)
    × (p'.leases ann.connection_id ≡ none)
    × (p'.revision ≤ 0 + 3)
unfolding str_eq
serve_ws_departed_example =
    serve_ws_departed memory collections json recorder (lit "reject") course 0 1 world nobody refl
      not_resumed (refl, tt) refl (omega arith) (omega arith) exact nobody-Held (omega arith)

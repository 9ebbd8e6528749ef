-- ===== src/Session/Examples.antt =====
-- An edit and a resume of one client, and the theorems at them.
use live_collab.Base.{
  ℕ, ◌+◌, ◌<◌, ◌≡◌, refl, inl, inr, true, false, List, [], ◌∷◌, ◌++◌, map, none, some, arith, lit,
  length, drop, str_eq,
}
use live_collab.Base.Result.{ok}
use live_collab.Message.{Message, zero_message, Frame, message, DistributedEvent}
use live_collab.Transport.Recorder.{recorder}
use live_collab.Client.{Client, done, begin_replay}
use live_collab.Redis.{lua_limit}
use live_collab.Redis.Memory.{memory, empty_memory}
use live_collab.Reply.{arr}
use live_collab.Store.{answered, not_sent}
use live_collab.Store.Commands.{Holds}
use live_collab.Store.Snapshot.{blank}
use live_collab.Stream.Parse.{replies, entry_reply}
use live_collab.Keys.{room_stream_key}
use live_collab.Stream.Server.{serve, serve-Serves}
use live_collab.Room.{get_room_snapshot}
use live_collab.Room.Modes.{Behind}
use live_collab.Room.Snapshot.{SameRoom}
use live_collab.Session.{
  World, handle_content_update, resume_client, resume_started, resume_complete, refusal,
}
use live_collab.Session.Resume.{history_of, resume_client-served}
use live_collab.Session.Edit.{
  OnlyAt, Edits, handle_content_update-redis, handle_content_update-refused,
}

abbrev client : Client (List Frame)
client = record {
  conn = [];
  username = lit "ann";
  room_id = lit "a1b2c3";
  client_id = lit "c1";
  connection_id = lit "k1";
  instance_id = lit "n1";
  presence_revision = 0;
  presence_sent = false;
  replaying = false;
  last_sequence = 0;
  pending = none;
}

abbrev world : World (List Frame) memory.Db
world = record {
  room = record {
    id = lit "a1b2c3";
    content = [];
    version = 0;
    sequence = 0;
    clients = 1 ∷ 2 ∷ [];
    has_store = true;
    local_presence_revision = 0;
  };
  heap = λ a. client;
  db = empty_memory;
}

abbrev incoming : Message
incoming = record zero_message {
  type = lit "content_update";
  content = lit "hi";
  operation_id = lit "o1";
  base_version = some 0;
}

held : Holds memory empty_memory (lit "a1b2c3") blank
held = record {
  version = inr (refl, refl);
  content = inr (refl, refl);
  sequence = inr (refl, refl);
  stream = inr (refl, refl);
}

few : length {A = DistributedEvent} [] + 1 < lua_limit
few = omega arith

zero_base : 0 < 0x10000000000000000
zero_base = omega arith

fresh_cache : Behind world.room blank
fresh_cache = omega arith

always : (c : List Frame) (f : Frame) → (recorder.write_json c f).1 ≡ true
always c f = refl

handle_content_update-redis_example :
    (e : DistributedEvent) × Edits memory recorder always world blank held few fresh_cache refl
      (lit "reject")
      1
      incoming
      0
      zero_base
      (lit "c1")
      (handle_content_update memory recorder
        (answered, not_sent, answered, answered)
        answered
        (lit "reject")
        1
        incoming
        world)
      e
handle_content_update-redis_example =
    handle_content_update-redis memory recorder always world blank held few fresh_cache refl
      (lit "reject") 1 incoming 0 zero_base (answered, not_sent, answered, answered) b'o' (lit "1")
      refl refl

abbrev unnamed : Message
unnamed = record incoming { operation_id = [] }

handle_content_update-refused_example :
    let w' =
      handle_content_update memory recorder
        (answered, answered, answered, answered)
        answered
        (lit "reject")
        1
        unnamed
        world in
    (w'.db ≡ empty_memory)
    × SameRoom world.room w'.room
    × Behind w'.room blank
    × ((w'.heap 1).conn
        ≡ message (
            refusal unnamed
              (lit "c1")
              (get_room_snapshot memory
                (answered, answered, answered, answered)
                world.room
                empty_memory).0)
          ∷ [])
    × OnlyAt memory recorder always 1 world.heap w'.heap
handle_content_update-refused_example =
    handle_content_update-refused memory recorder always world blank held few fresh_cache
      (answered, answered, answered, answered) answered (lit "reject") 1 unnamed (inl refl)

abbrev event : ℕ → DistributedEvent
event n = record {
  stream_id = (b'0' + n) ∷ lit "-0";
  sequence = n;
  version = n;
  operation_id = lit "op";
  client_id = lit "c1";
  username = lit "ann";
  content = lit "hello";
}

abbrev old : List DistributedEvent
old = event 1 ∷ event 2 ∷ []

resume_client-served_example :
    let log = event 1 ∷ event 2 ∷ event 3 ∷ [] in
    let missed = drop 1 log in
    (c' : Client (List Frame)) × (resume_client recorder
        (lit "a1b2c3")
        (ok (arr (replies (map entry_reply (event 3 ∷ [])))))
        (serve (room_stream_key (lit "a1b2c3")) log)
        4
        (begin_replay recorder client 1)
        1
      ≡ some (c', done))
    × (c'.conn
        ≡ message (resume_started 1 (event 3))
          ∷ (history_of missed ++ message (resume_complete 1 (event 3) 2) ∷ []))
    × (c'.replaying ≡ false)
    × (c'.last_sequence ≡ 3)
resume_client-served_example =
    resume_client-served recorder always 999 (lit "a1b2c3")
      (serve (room_stream_key (lit "a1b2c3")) (event 1 ∷ event 2 ∷ event 3 ∷ [])) old (event 3)
      (serve-Serves (lit "a1b2c3") old (event 3)
        (unfold str_eq in ((refl, (refl, tt)), ((refl, tt), (tt, tt)))))
      (omega arith) (omega arith) (omega arith) 0 4 1 client (omega arith) (omega arith)
      (omega arith) (omega arith)

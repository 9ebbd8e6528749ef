-- ===== src/Store/ReadingExamples.antt =====
-- A room that is edited while it is read, an operation read back from the stream, and the theorems
-- at them.
use live_collab.Base.{
  ◌+◌, ◌<◌, ◌≡◌, refl, inr, List, [], ◌∷◌, arith, Str, lit, str_eq, length, true, ◌++◌, some,
  if◌then◌else◌,
}
use live_collab.Base.Result.{ok}
use live_collab.Message.{DistributedEvent}
use live_collab.Redis.{lua_limit, Entry, IsStream, string}
use live_collab.Redis.Memory.{memory, empty_memory}
use live_collab.Store.{answered, answer_lost, create_room, get_snapshot_amid, apply_content_update}
use live_collab.Store.Commands.{Document, Holds}
use live_collab.Store.Apply.{event, accepts}
use live_collab.Store.History.{Operation, Extends, run_operations}
use live_collab.Store.Snapshot.{blank, create_room-opens}
use live_collab.Store.Torn.{told, get_snapshot_amid-run_operations}
use live_collab.Store.Log.{stream_reply, parse_stream_entries-apply}
use live_collab.Stream.{parse_stream_entries}
use live_collab.Keys.{room_stream_key, room_exists_key}

abbrev room : Str
room = lit "a1b2c3"

blank_held : (r : Str) → Holds memory empty_memory r blank
blank_held r = record {
  version = inr (refl, refl);
  content = inr (refl, refl);
  sequence = inr (refl, refl);
  stream = inr (refl, refl);
}

few : length {A = DistributedEvent} [] + 1 < lua_limit
few = omega arith

stale_base : 7 < 0x10000000000000000
stale_base = omega arith

abbrev operations : List Operation
operations =
    record {
      wire = answered;
      content = lit "one";
      base = 0;
      policy = lit "reject";
      operation_id = lit "o1";
      client_id = lit "c1";
      username = lit "ann";
    }
    ∷ record {
      wire = answer_lost;
      content = lit "two";
      base = 0;
      policy = lit "reject";
      operation_id = lit "o2";
      client_id = lit "c2";
      username = lit "bob";
    }
    ∷ []

-- A room just created, edited twice while it is read: behind the content, and behind the version.
abbrev opened : memory.Db
opened = (create_room memory answered room empty_memory).1

opened_exists : memory.look opened (room_exists_key room) ≡ string (lit "1")
unfolding create_room live_collab.Redis.Memory.write str_eq live_collab.Keys.room_sequence_key
    live_collab.Keys.room_exists_key live_collab.Keys.room_version_key
    live_collab.Keys.room_content_key
opened_exists = refl

get_snapshot_amid-run_operations_example :
    let run = run_operations memory room in
    let db₁ = run opened [] in
    let db₂ = run db₁ operations in
    let db₃ = run db₂ operations in
    (d₁ d₂ d₃ : Document) × (Extends blank d₁ × Extends d₁ d₂ × Extends d₂ d₃)
    × (Holds memory db₁ room d₁ × Holds memory db₂ room d₂ × Holds memory db₃ room d₃)
    × (get_snapshot_amid memory
          (λ x. run x [], λ x. run x operations, λ x. run x operations)
          (answered, answered, answered, answered)
          room
          opened
        ≡ told answered opened (
            told answered db₁ (
              told answered db₂ (
                told answered db₃ (
                  ok (
                      some (record {
                        content = d₁.content;
                        version = length d₂.log;
                        sequence = length d₃.log;
                      })),
                  db₃,
                )))))
get_snapshot_amid-run_operations_example =
    get_snapshot_amid-run_operations memory room true answered answered answered answered []
      operations operations blank opened (create_room-opens memory room empty_memory refl).1
      (record { counted = tt; latest = refl }) (omega arith) tt (omega arith) (omega arith)
      opened_exists

parse_stream_entries-apply_example :
    let db' =
      (apply_content_update memory answered room
        (lit "hi")
        7
        (lit "accept")
        (lit "o1")
        (lit "c1")
        (lit "ann")
        empty_memory).1 in
    let new : DistributedEvent = record {
      stream_id =
          (event memory room blank empty_memory
            (blank_held room)
            few
            (lit "hi")
            7
            stale_base
            (lit "accept")
            (lit "o1")
            (lit "c1")
            (lit "ann")).stream_id;
      sequence = 1;
      version = 1;
      operation_id = lit "o1";
      client_id = lit "c1";
      username = lit "ann";
      content = lit "hi";
    } in
    (es : List Entry) × IsStream (memory.look db' (room_stream_key room)) es
    × (parse_stream_entries (stream_reply es)
        ≡ ok (if accepts blank 7 (lit "accept") then [] ++ new ∷ [] else []))
parse_stream_entries-apply_example =
    parse_stream_entries-apply memory room blank empty_memory (blank_held room) few (lit "hi") 7
      stale_base (lit "accept") (lit "o1") (lit "c1") (lit "ann") tt

-- ===== src/Room/Examples.antt =====
-- Runs of room.go, on a backend with and without Redis, and the theorems at them.
use live_collab.Base.{
  ℕ, zero, ◌+◌, ◌<◌, ◌≡◌, refl, inr, Bool, true, false, ◌||◌, ◌&&◌, not, List, [], ◌∷◌, ◌++◌, ◌⊎◌,
  none, arith, lit, rank64, ◌==◌, inc64, if◌then◌else◌, length,
}
use live_collab.Base.Result.{ok}
use live_collab.Message.{
  Message, ApplyContentResult, zero_message, Frame, message, presence_update, RoomSnapshot,
  DistributedEvent, PresenceSnapshot,
}
use live_collab.Transport.Recorder.{recorder}
use live_collab.Client.{Client}
use live_collab.Redis.{lua_limit}
use live_collab.Redis.Memory.{memory, empty_memory}
use live_collab.Store.{answered}
use live_collab.Store.Commands.{Document, Holds}
use live_collab.Store.Apply.{next_document}
use live_collab.Room.{
  Room, apply_operation, add_client, remove_client, snapshot_of, Heap, broadcast_json,
  broadcast_presence_snapshot,
}
use live_collab.Room.Cache.{Update, event, snapshot, apply_updates, newest, cache_converges}
use live_collab.Room.Members.{registered, membership}
use live_collab.Room.Fanout.{is_due, presence_due, taken, fanout}
use live_collab.Room.Modes.{Mirrors, answer, without_id, local-eq-redis, apply_operation-Mirrors}

abbrev room : Bool → Room
room stored = record {
  id = lit "a1b2c3";
  content = [];
  version = 0;
  sequence = 0;
  clients = 1 ∷ 2 ∷ [];
  has_store = stored;
  local_presence_revision = 2;
}

-- The state that the history has after n edits.
abbrev history : ℕ → RoomSnapshot
history zero = record { content = []; version = 0; sequence = 0 }
history n = record { content = lit "text"; version = n; sequence = n }

abbrev event_at : ℕ → DistributedEvent
event_at n = record {
  stream_id = lit "1-0";
  sequence = n;
  version = n;
  operation_id = lit "op";
  client_id = lit "c1";
  username = lit "ann";
  content = lit "text";
}

abbrev out_of_order : List Update
out_of_order =
    event (event_at 2) ∷ snapshot (history 5) ∷ event (event_at 3) ∷ event (event_at 5) ∷ []

cache_converges_example :
    (snapshot_of (apply_updates (room true) out_of_order)
      ≡ history (apply_updates (room true) out_of_order).sequence)
    × (rank64 (apply_updates (room true) out_of_order).sequence ≡ newest (rank64 0) out_of_order)
cache_converges_example =
    cache_converges history (room true) out_of_order refl (refl, (refl, (refl, (refl, tt))))

membership_example :
    let r = room false in
    ((a : ℕ) → registered a (add_client r 2).clients ≡ (registered a r.clients || 2 == a))
    × ((a : ℕ)
        → registered a (remove_client r 2).clients ≡ (not (a == 2) && registered a r.clients))
    × (remove_client (remove_client r 2) 2 ≡ remove_client r 2)
    × ((add_client r 2).local_presence_revision
        ≡ (if r.has_store then r.local_presence_revision else inc64 r.local_presence_revision))
    × ((remove_client r 2).local_presence_revision ≡ (
        if not r.has_store && registered 2 r.clients
        then inc64 r.local_presence_revision
        else r.local_presence_revision))
membership_example = membership (room false) 2

abbrev client : Client (List Frame)
client = record {
  conn = [];
  username = lit "ann";
  room_id = lit "a1b2c3";
  client_id = lit "c1";
  connection_id = lit "k1";
  instance_id = lit "n1";
  presence_revision = 0;
  presence_sent = false;
  replaying = false;
  last_sequence = 0;
  pending = none;
}

abbrev heap : Heap recorder
heap a = client

abbrev typing : Message
typing = record zero_message { type = lit "typing" }

abbrev nobody : PresenceSnapshot
nobody = record { revision = 1; participants = [] }

fanout_example :
    let h' = broadcast_json recorder (room true) typing heap in
    let h'' = broadcast_presence_snapshot recorder (room true) nobody heap in
    ((h' 2).conn
      ≡ []
        ++ taken recorder
            (registered 2 (1 ∷ 2 ∷ []) && is_due recorder (room true) typing client)
            []
            (message typing))
    × ((h'' 2).conn
        ≡ []
          ++ taken recorder
              (registered 2 (1 ∷ 2 ∷ []) && presence_due recorder nobody client)
              []
              (presence_update nobody))
    × ((registered 2 (1 ∷ 2 ∷ []) ≡ true) ⊎ ((h' 2 ≡ client) × (h'' 2 ≡ client)))
fanout_example = fanout recorder (room true) typing nobody heap 2 (refl, (refl, tt))

abbrev blank : Document
blank = record { content = []; log = [] }

blank_held : Holds memory empty_memory (lit "a1b2c3") blank
blank_held = record {
  version = inr (refl, refl);
  content = inr (refl, refl);
  sequence = inr (refl, refl);
  stream = inr (refl, refl);
}

few : length {A = DistributedEvent} [] + 1 < lua_limit
few = omega arith

zero_base : 0 < 0x10000000000000000
zero_base = omega arith

local-eq-redis_example :
    let (own, r', db') =
      apply_operation memory answered
        (room false)
        (lit "hi")
        3
        (lit "reject")
        (lit "o1")
        (lit "c1")
        (lit "ann")
        empty_memory in
    let (shared, r'', db'') =
      apply_operation memory answered
        (room true)
        (lit "hi")
        3
        (lit "reject")
        (lit "o1")
        (lit "c1")
        (lit "ann")
        empty_memory in
    (result : ApplyContentResult) × (shared ≡ ok result)
    × (own ≡ ok (without_id result))
    × (snapshot_of r' ≡ snapshot_of r'')
    × (db' ≡ empty_memory)
    × (d' : Document) × Holds memory db'' (lit "a1b2c3") d'
    × Mirrors r' d'
local-eq-redis_example =
    local-eq-redis memory (room false) blank empty_memory blank_held few (lit "hi") 3 (omega arith)
      (lit "reject") (lit "o1") (lit "c1") (lit "ann") (refl, refl, refl)

apply_operation-Mirrors_example :
    let (result, r', db') =
      apply_operation memory answered
        (room true)
        (lit "hi")
        0
        (lit "reject")
        (lit "o1")
        (lit "c1")
        (lit "ann")
        empty_memory in
    let d' =
      next_document memory
        (lit "a1b2c3")
        blank
        empty_memory
        blank_held
        few
        (lit "hi")
        0
        zero_base
        (lit "reject")
        (lit "o1")
        (lit "c1")
        (lit "ann") in
    (result
      ≡ ok (
          answer memory
            (room true)
            blank
            empty_memory
            blank_held
            few
            (lit "hi")
            0
            zero_base
            (lit "reject")
            (lit "o1")
            (lit "c1")
            (lit "ann")))
    × Mirrors r' d'
    × Holds memory db' (lit "a1b2c3") d'
apply_operation-Mirrors_example =
    apply_operation-Mirrors memory (room true) blank empty_memory blank_held few (lit "hi") 0
      zero_base (lit "reject") (lit "o1") (lit "c1") (lit "ann") refl (omega arith)

-- ===== src/Manager.antt =====
-- manager.go: the stream watcher of a room on a backend with Redis (watchRoom). The records of
-- telemetry and tracing are left out.
pub mod Watch
pub mod Rooms
pub mod PresenceWatch
pub mod Examples
use live_collab.Base.{ℕ, Bool, List, [], ◌∷◌, Int64, Str, lit, le64, if◌then◌else◌}
use live_collab.Base.Result.{Result, ok, err}
use live_collab.Message.{DistributedEvent, message_from_distributed_event}
use live_collab.Transport.{Transport}
use live_collab.Client.{Client}
use live_collab.Room.{Room, apply_distributed_event, broadcast_json}

-- What the watcher changes: the cached room, the clients, and its own cursor.
pub record Watched (C : Type 0) : Type 0 where
  pub room : Room
  pub heap : ℕ → Client C
  pub last_stream_id : Str

-- The watcher starts at the beginning of the stream.
abbrev pub first_cursor : Str
first_cursor = lit "0-0"

module _ (T : Transport) (initial_sequence : Int64) where
  open T use {Conn}

  -- One event of a batch.
  unfoldable pub watch_event : Watched Conn → DistributedEvent → Watched Conn
  watch_event w event =
      let seen = record w { last_stream_id = event.stream_id } in
      let (room', changed) = apply_distributed_event w.room event in
      if le64 event.sequence initial_sequence then seen else record seen {
        room = room';
        heap = broadcast_json T room' (message_from_distributed_event event) w.heap;
      }

  -- The loop over a batch.
  unfoldable pub watch_events : Watched Conn → List DistributedEvent → Watched Conn
  unfolding watch_event
  watch_events w [] = w
  watch_events w (event ∷ events) = watch_events (watch_event w event) events

  -- One round of watchRoom: an error is retried from the same cursor.
  unfoldable pub watch_round : Watched Conn → Result (List DistributedEvent) → Watched Conn
  unfolding watch_events
  watch_round w (err e) = w
  watch_round w (ok events) = watch_events w events

  -- watchRoom, for as many rounds as there are results of ReadAfterStreamID.
  unfoldable pub watch_room : Watched Conn → List (Result (List DistributedEvent)) → Watched Conn
  unfolding watch_round
  watch_room w [] = w
  watch_room w (result ∷ results) = watch_room (watch_round w result) results

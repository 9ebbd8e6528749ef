-- ===== src/Session/Serve.antt =====
-- serveWS of ws.go: one connection from its admission to its cleanup. The presence watcher and the
-- heartbeat that it starts are in Manager.PresenceWatch and Presence.Heartbeat.
pub mod Cleanup
pub mod Quiet
pub mod Departure
pub mod Examples
use live_collab.Base.{
  ℕ, Bool, true, false, not, ◌&&◌, ◌||◌, List, [], ◌∷◌, Option, none, some, Int64, Str, lit, str_eq,
  lt64, ◌==◌, if◌then◌else◌,
}
use live_collab.Base.Result.{Result, ok, err}
use live_collab.Message.{
  Message, zero_message, message, RoomSnapshot, PresenceSnapshot, StaleWritePolicy,
}
use live_collab.Transport.{Transport}
use live_collab.Client.{
  Client, Outcome, done, failed, panicked, write_frame, write_presence, begin_replay, participant,
}
use live_collab.Reply.{Reply}
use live_collab.Redis.{Redis}
use live_collab.Redis.Collections.{Collections, Clock}
use live_collab.Store.{Wire}
use live_collab.Room.{
  Room, Heap, add_client, remove_client, client_count, get_room_snapshot, room_state_users,
  broadcast_json,
}
use live_collab.Room.LocalPresence.{broadcast_presence}
use live_collab.Membership.{Json}
use live_collab.Membership.Calls.{join_presence, leave_presence, get_presence}
use live_collab.Session.{World, or_default, resume_client, write_to, handle_content_update}

-- A round of the read loop: ReadMessage fails, or there is a message, with whether the read deadline
-- is set anew, the message if it is JSON, and what becomes of the commands that it leads to.
pub data Input : Type 0 where
  read_error : Input
  read : Bool → Option Message → Wire × Wire × Wire × Wire → Wire → Input

-- What becomes of the commands of a connection, and what it reads.
pub record Course : Type 0 where
  pub join_wire : Wire
  pub join_clock : Clock
  pub lease : Int64
  pub newest : Result Reply
  pub fetch : ℕ → List Str → Result Reply
  pub fuel : ℕ
  pub snapshot_wires : Wire × Wire × Wire × Wire
  pub presence_wire : Wire
  pub presence_clock : Clock
  pub inputs : List Input
  pub leave_wire : Wire

abbrev pub error_message : Str → Message
error_message reason = record zero_message { type = lit "error"; reason = reason }

abbrev pub room_state : RoomSnapshot → List Str → Message
room_state snapshot users = record zero_message {
  type = lit "room_state";
  content = snapshot.content;
  users = users;
  server_version = snapshot.version;
  sequence = snapshot.sequence;
}

abbrev pub typing : Str → Message
typing username = record zero_message { type = lit "typing"; username = username }

module _ (R : Redis) (C : Collections R) (J : Json) (T : Transport) where
  open R use {Db}
  open T use {Conn}

  -- Another client at an address, and another heap.
  abbrev with_client : World Conn Db → ℕ → Client Conn → World Conn Db
  with_client w a c = record w { heap = λ b. if a == b then c else w.heap b }

  abbrev pub is_done : Outcome → Bool
  is_done done = true
  is_done failed = false
  is_done panicked = false

  -- AddClient, and JoinPresence or the local broadcast; false where the connection ends.
  unfoldable pub joined_or_refused :
      ℕ → World Conn Db → Result (Unit {0}) × Db → World Conn Db × Bool
  joined_or_refused a w (ok u, db) = (record w { db = db }, true)
  joined_or_refused a w (err e, db) =
      (write_to R T (record w { db = db }) a (error_message (lit "presence_unavailable")), false)

  unfoldable pub open_session : Course → ℕ → World Conn Db → World Conn Db × Bool
  unfolding joined_or_refused
  open_session course a w =
      let room = add_client w.room a in
      let w' = record w { room = room } in
      if room.has_store
      then joined_or_refused a w' (
          join_presence R C J course.join_wire course.join_clock room.id (participant (w.heap a))
            (some course.lease) w.db)
      else (record w' { heap = broadcast_presence T w.heap room }, true)

  -- What resumeClient returns; fuel that runs out counts as an error here. A panic ends the
  -- connection without a frame.
  unfoldable pub resumed : ℕ → World Conn Db → Option (Client Conn × Outcome) → World Conn Db × Bool
  resumed a w none = (write_to R T w a (error_message (lit "resume_failed")), false)
  resumed a w (some (c, done)) = (with_client w a c, true)
  resumed a w (some (c, failed)) =
      (write_to R T (with_client w a c) a (error_message (lit "resume_failed")), false)
  resumed a w (some (c, panicked)) = (with_client w a c, false)

  -- The replay, or the room's state.
  unfoldable pub send_state : Course → Int64 → ℕ → World Conn Db → World Conn Db × Bool
  unfolding resumed
  send_state course last a w =
      if w.room.has_store && lt64 0 last
      then resumed a w
          (resume_client T w.room.id course.newest course.fetch course.fuel (w.heap a) last)
      else (let (snapshot, room, db) = get_room_snapshot R course.snapshot_wires w.room w.db in
          let m = room_state snapshot (room_state_users T w.heap room) in
          let (c, sent_ok) = write_frame T (w.heap a) (message m) in
          (with_client (record w { room = room; db = db }) a c, sent_ok))

  -- The presence that GetPresence returns.
  unfoldable pub presence_or_refused :
      ℕ → World Conn Db → Result PresenceSnapshot × Db → World Conn Db × Bool
  presence_or_refused a w (ok presence, db) =
      let (c, outcome) = write_presence T (w.heap a) presence in
      (with_client (record w { db = db }) a c, is_done outcome)
  presence_or_refused a w (err e, db) =
      (write_to R T (record w { db = db }) a (error_message (lit "presence_unavailable")), false)

  unfoldable pub send_presence : Course → ℕ → World Conn Db → World Conn Db × Bool
  unfolding presence_or_refused
  send_presence course a w =
      if w.room.has_store
      then presence_or_refused a w
          (get_presence R C J course.presence_wire course.presence_clock w.room.id w.db)
      else (w, true)

  -- The switch over the type of a message.
  unfoldable pub serve_message :
      StaleWritePolicy
      → ℕ
      → Option Message
      → Wire × Wire × Wire × Wire
      → Wire
      → World Conn Db
      → World Conn Db
  serve_message policy a none wires wire w = write_to R T w a (error_message (lit "invalid_json"))
  serve_message policy a (some incoming) wires wire w =
      if str_eq incoming.type (lit "content_update")
      then handle_content_update R T wires wire policy a incoming w
      else if str_eq incoming.type (lit "typing")
      then record w { heap = broadcast_json T w.room (typing (w.heap a).username) w.heap }
      else write_to R T w a (error_message (lit "unknown_message_type"))

  -- The read loop.
  unfoldable pub read_loop : StaleWritePolicy → ℕ → List Input → World Conn Db → World Conn Db
  unfolding serve_message
  read_loop policy a [] w = w
  read_loop policy a (read_error ∷ inputs) w = w
  read_loop policy a (read fine incoming wires wire ∷ inputs) w =
      let rest = read_loop policy a inputs (serve_message policy a incoming wires wire w) in
      if w.room.has_store && not fine then w else rest

  -- The deferred cleanup: the world, and whether DeleteRoom is called.
  unfoldable pub close_session : Course → ℕ → World Conn Db → World Conn Db × Bool
  close_session course a w =
      let room = remove_client w.room a in
      let w' = record w {
        room = room;
        heap = if room.has_store then w.heap else broadcast_presence T w.heap room;
        db =
            if room.has_store
            then (leave_presence R C J course.leave_wire room.id (w.heap a).connection_id w.db).1
            else w.db;
      } in
      (w', client_count room == 0)

  -- A step that is taken only where the connection goes on.
  abbrev pub and_if :
      World Conn Db × Bool → (World Conn Db → World Conn Db × Bool) → World Conn Db × Bool
  and_if (w, go) f = if go then f w else (w, false)

  -- serveWS of the client at the address a, from AddClient to its return.
  unfoldable pub serve_ws :
      StaleWritePolicy → Course → Int64 → ℕ → World Conn Db → World Conn Db × Bool
  unfolding open_session send_state send_presence read_loop close_session
  serve_ws policy course last a w =
      let x =
        and_if (and_if (open_session course a w) (send_state course last a))
          (send_presence course a) in
      let w' = if x.1 then read_loop policy a course.inputs x.0 else x.0 in
      close_session course a w'

-- ===== src/Session.antt =====
-- ws.go: one message of a client (handleContentUpdate) and one resume (resumeClient). The records
-- of telemetry and tracing are left out.
pub mod Resume
pub mod Edit
pub mod Admission
pub mod Serve
pub mod Examples
use live_collab.Base.{
  ℕ, Bool, true, false, not, List, [], ◌∷◌, Option, none, some, Int64, Str, lit, lt64, inc64, ◌==◌,
  if◌then◌else◌,
}
use live_collab.Base.Result.{Result, ok, err, write_failed}
use live_collab.Message.{
  Message, zero_message, message, message_from_distributed_event, DistributedEvent, RoomSnapshot,
  ApplyContentResult, StaleWritePolicy,
}
use live_collab.Transport.{Transport}
use live_collab.Client.{Client, Outcome, done, failed, write_frame, finish_replay}
use live_collab.Reply.{Reply}
use live_collab.Redis.{Redis}
use live_collab.Store.{Wire}
use live_collab.Stream.{Visitor, events_after_sequence, replay_boundary}
use live_collab.Room.{Room, apply_operation, get_room_snapshot, broadcast_json, room_state_users}

-- The messages that the two functions write.
abbrev pub resume_started : Int64 → DistributedEvent → Message
resume_started last boundary = record zero_message {
  type = lit "resume_started";
  from_sequence = last;
  latest_sequence = boundary.sequence;
  server_version = boundary.version;
}

abbrev pub resume_complete : Int64 → DistributedEvent → Int64 → Message
resume_complete last boundary replayed = record zero_message {
  type = lit "resume_complete";
  from_sequence = last;
  latest_sequence = boundary.sequence;
  server_version = boundary.version;
  replayed = replayed;
}

abbrev pub refusal : Message → Str → RoomSnapshot → Message
refusal incoming client_id snapshot = record zero_message {
  type = lit "operation_result";
  operation_id = incoming.operation_id;
  client_id = client_id;
  accepted = some false;
  reason = lit "operation_id_and_base_version_required";
  server_version = snapshot.version;
  sequence = snapshot.sequence;
}

abbrev pub storage_error : Message → Message
storage_error incoming = record zero_message {
  type = lit "operation_result";
  operation_id = incoming.operation_id;
  accepted = some false;
  reason = lit "storage_error";
}

abbrev pub operation_result : Message → Str → ApplyContentResult → Message
operation_result incoming client_id result = record zero_message {
  type = lit "operation_result";
  operation_id = incoming.operation_id;
  client_id = client_id;
  base_version = some result.base_version;
  previous_version = result.previous_version;
  server_version = result.server_version;
  sequence = result.sequence;
  stream_id = result.stream_id;
  accepted = some result.accepted;
  stale = result.stale;
  reason = result.reason;
}

abbrev pub resync : List Str → ApplyContentResult → Message
resync users result = record zero_message {
  type = lit "room_state";
  content = result.content;
  users = users;
  server_version = result.server_version;
  sequence = result.sequence;
  reason = lit "resync_after_conflict";
}

abbrev pub event_message : Message → Str → Str → ApplyContentResult → Message
event_message incoming client_id username result = record zero_message {
  type = lit "content_update";
  content = result.content;
  username = username;
  operation_id = incoming.operation_id;
  client_id = client_id;
  base_version = some result.base_version;
  previous_version = result.previous_version;
  server_version = result.server_version;
  sequence = result.sequence;
  stream_id = result.stream_id;
  accepted = some true;
  stale = result.stale;
}

-- A room on one backend, the clients by their addresses, and Redis.
pub record World (C D : Type 0) : Type 0 where
  pub room : Room
  pub heap : ℕ → Client C
  pub db : D

abbrev pub or_default : Str → Str → Str
or_default [] d = d
or_default (c ∷ s) d = c ∷ s

module _ (T : Transport) where
  open T use {Conn}

  -- The callback of resumeClient, on the client and the count of the events replayed.
  unfoldable pub replay_event : Visitor (Client Conn × Int64)
  replay_event (c, replayed) event =
      let (c', sent_ok) = write_frame T c (message (message_from_distributed_event event)) in
      if sent_ok then ((c', inc64 replayed), none) else ((c', replayed), some write_failed)

  -- What follows EventsAfterSequence.
  unfoldable pub conclude_resume :
      Int64
      → DistributedEvent
      → Option ((Client Conn × Int64) × Result (Unit {0}))
      → Option (Client Conn × Outcome)
  conclude_resume last boundary none = none
  conclude_resume last boundary (some ((c, replayed), err e)) = some (c, failed)
  conclude_resume last boundary (some ((c, replayed), ok u)) =
      some (finish_replay T c (resume_complete last boundary replayed))

  -- resumeClient behind the ReplayBoundary.
  unfoldable pub resume_to :
      Str
      → (ℕ → List Str → Result Reply)
      → ℕ
      → Client Conn
      → Int64
      → Result DistributedEvent
      → Option (Client Conn × Outcome)
  unfolding conclude_resume
  resume_to room fetch fuel c last (err e) = some (c, failed)
  resume_to room fetch fuel c last (ok boundary) =
      if lt64 boundary.sequence last
      then some (c, failed)
      else (let (c', sent_ok) = write_frame T c (message (resume_started last boundary)) in
          if sent_ok
          then conclude_resume last boundary
              (events_after_sequence replay_event last boundary room fetch fuel (c', 0))
          else some (c', failed))

  -- resumeClient, on the reply to the XREVRANGE and the replies to the XRANGEs.
  unfoldable pub resume_client :
      Str
      → Result Reply
      → (ℕ → List Str → Result Reply)
      → ℕ
      → Client Conn
      → Int64
      → Option (Client Conn × Outcome)
  unfolding resume_to
  resume_client room newest fetch fuel c last =
      resume_to room fetch fuel c last (replay_boundary newest)

module _ (R : Redis) (T : Transport) where
  open R use {Db}
  open T use {Conn}

  -- client.WriteJSON with the error dropped.
  abbrev pub write_to : World Conn Db → ℕ → Message → World Conn Db
  write_to w a m = record w {
    heap = λ b. if a == b then (write_frame T (w.heap a) (message m)).0 else w.heap b;
  }

  -- handleContentUpdate behind ApplyOperation.
  unfoldable pub conclude_update :
      ℕ → Message → Str → World Conn Db → Result ApplyContentResult → World Conn Db
  conclude_update a incoming client_id w (err e) = write_to w a (storage_error incoming)
  conclude_update a incoming client_id w (ok result) =
      let w' = write_to w a (operation_result incoming client_id result) in
      if not result.accepted
      then write_to w' a (resync (room_state_users T w'.heap w'.room) result)
      else if w'.room.has_store
      then w'
      else record w' {
        heap =
            broadcast_json T w'.room (event_message incoming client_id (w'.heap a).username result)
              w'.heap;
      }

  -- handleContentUpdate for an operation that has an ID and a base version.
  unfoldable pub perform_update :
      Wire → StaleWritePolicy → ℕ → Message → Int64 → Str → World Conn Db → World Conn Db
  unfolding conclude_update
  perform_update wire policy a incoming base client_id w =
      let (result, room', db') =
        apply_operation R wire w.room incoming.content base policy incoming.operation_id client_id
          (w.heap a).username w.db in
      conclude_update a incoming client_id (record w { room = room'; db = db' }) result

  -- The two guards in front of it, each with its GetSnapshot.
  unfoldable pub guard_update :
      Wire
      → StaleWritePolicy
      → ℕ
      → Message
      → Str
      → Str
      → Option Int64
      → RoomSnapshot
      → World Conn Db
      → World Conn Db
  unfolding perform_update
  guard_update wire policy a incoming client_id [] base before w =
      write_to w a (refusal incoming client_id before)
  guard_update wire policy a incoming client_id (c ∷ s) none before w =
      write_to w a (refusal incoming client_id before)
  guard_update wire policy a incoming client_id (c ∷ s) (some base) before w =
      perform_update wire policy a incoming base client_id w

  -- handleContentUpdate of the client at the address a.
  unfoldable pub handle_content_update :
      Wire × Wire × Wire × Wire
      → Wire
      → StaleWritePolicy
      → ℕ
      → Message
      → World Conn Db
      → World Conn Db
  unfolding guard_update
  handle_content_update wires wire policy a incoming w =
      let client_id = or_default incoming.client_id (w.heap a).client_id in
      let (before, room', db') = get_room_snapshot R wires w.room w.db in
      guard_update wire policy a incoming client_id incoming.operation_id incoming.base_version
        before (record w { room = room'; db = db' })

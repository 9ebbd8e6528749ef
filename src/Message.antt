-- ===== src/Message.antt =====
-- The values that cross the components: the protocol message of client.go, the presence frames of
-- presence.go, the events of redis_store.go and the results of room.go. An int64 is its bit
-- pattern; a pointer to a value that is only read is an Option; a nil slice is none.
use live_collab.Base.{Bool, false, List, [], Option, none, Int64, Str, lit, some, true}

-- Message.
pub record Message : Type 0 where
  pub type : Str
  pub content : Str
  pub username : Str
  pub users : List Str
  pub operation_id : Str
  pub client_id : Str
  pub base_version : Option Int64
  pub previous_version : Int64
  pub server_version : Int64
  pub sequence : Int64
  pub stream_id : Str
  pub from_sequence : Int64
  pub latest_sequence : Int64
  pub replayed : Int64
  pub accepted : Option Bool
  pub stale : Bool
  pub reason : Str

-- Message{}: Go's zero value, from which every literal of the source starts.
abbrev pub zero_message : Message
zero_message = record {
  type = [];
  content = [];
  username = [];
  users = [];
  operation_id = [];
  client_id = [];
  base_version = none;
  previous_version = 0;
  server_version = 0;
  sequence = 0;
  stream_id = [];
  from_sequence = 0;
  latest_sequence = 0;
  replayed = 0;
  accepted = none;
  stale = false;
  reason = [];
}

-- Participant, PresenceSnapshot.
pub record Participant : Type 0 where
  pub connection_id : Str
  pub client_id : Str
  pub username : Str
  pub instance_id : Str

pub record PresenceSnapshot : Type 0 where
  pub revision : Int64
  pub participants : List Participant

-- What WriteJSON is handed: a Message or a PresenceUpdate of type "presence_update".
pub data Frame : Type 0 where
  message : Message → Frame
  presence_update : PresenceSnapshot → Frame

-- DistributedEvent.
pub record DistributedEvent : Type 0 where
  pub stream_id : Str
  pub sequence : Int64
  pub version : Int64
  pub operation_id : Str
  pub client_id : Str
  pub username : Str
  pub content : Str

-- RoomSnapshot.
pub record RoomSnapshot : Type 0 where
  pub content : Str
  pub version : Int64
  pub sequence : Int64

-- ApplyContentResult.
pub record ApplyContentResult : Type 0 where
  pub accepted : Bool
  pub reason : Str
  pub content : Str
  pub base_version : Int64
  pub previous_version : Int64
  pub server_version : Int64
  pub sequence : Int64
  pub stream_id : Str
  pub stale : Bool

-- StaleWritePolicy and its two constants.
abbrev pub StaleWritePolicy : Type 0
StaleWritePolicy = Str

-- messageFromDistributedEvent of manager.go.
abbrev pub message_from_distributed_event : DistributedEvent → Message
message_from_distributed_event event = record zero_message {
  type = lit "content_update";
  content = event.content;
  username = event.username;
  operation_id = event.operation_id;
  client_id = event.client_id;
  server_version = event.version;
  sequence = event.sequence;
  stream_id = event.stream_id;
  accepted = some true;
}

-- ===== src/Keys.antt =====
-- The keys of a room in Redis: redis_store.go and redis_presence.go.
pub mod Disjoint
use live_collab.Base.{List, ◌++◌, Str, lit}

-- "livecollab:room:" + roomID + a suffix.
abbrev pub room_key : Str → Str → Str
room_key room suffix = lit "livecollab:room:" ++ (room ++ suffix)

unfoldable pub room_exists_key : Str → Str
room_exists_key room = room_key room (lit ":exists")

unfoldable pub room_content_key : Str → Str
room_content_key room = room_key room (lit ":content")

unfoldable pub room_version_key : Str → Str
room_version_key room = room_key room (lit ":version")

unfoldable pub room_sequence_key : Str → Str
room_sequence_key room = room_key room (lit ":sequence")

unfoldable pub room_stream_key : Str → Str
room_stream_key room = room_key room (lit ":events")

unfoldable pub room_presence_key : Str → Str
room_presence_key room = room_key room (lit ":presence")

unfoldable pub room_presence_revision_key : Str → Str
room_presence_revision_key room = room_key room (lit ":presence-revision")

unfoldable pub room_presence_stream_key : Str → Str
room_presence_stream_key room = room_key room (lit ":presence-events")

unfoldable pub room_presence_expiry_key : Str → Str
room_presence_expiry_key room = room_key room (lit ":presence-expiry")

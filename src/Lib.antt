-- ===== src/Lib.antt =====
-- LiveCollab: a collaborative text editor. Several Go backends (backend/) serve rooms over
-- WebSockets; a room's document is one text with a version and a sequence, kept in Redis by an
-- atomic Lua script, which appends each accepted edit to a stream. Every backend watches the
-- stream and passes its events on to its own clients; a client that reconnects is sent the events
-- that it missed, and then live ones. Without Redis a backend keeps the document itself.
--
-- Base (and Base/): strings as lists of bytes, int64 as a bit pattern below 2 ^ 64 with the signed
-- order and the wrap-around of Go, decimal numbers, results with an error, list lemmas.
-- Message: the records of backend/client.go, presence.go, redis_store.go and room.go that the
-- components exchange. JSON names and omitempty are not modelled: a frame is a value.
-- Transport: the vendored WebSocket connection as a parameter: each write takes a frame whole or
-- fails. Transport/Recorder is an instance that takes every frame.
-- Client: backend/client.go with writePresence of backend/presence.go. beginReplay,
-- writeContentUpdate and finishReplay are begin_replay, write_content_update and finish_replay;
-- each holds its lock from start to end, so each is one step, and a run is a list of steps.
-- Reply: the values of backend/redis_client.go and redisString, redisInt64. Resp: writeRESPCommand
-- and readRESP on the bytes of a connection; the fuel of readRESP is for the nesting of arrays,
-- and the number of bytes is enough.
-- Stream: parseStreamEntries and EventsAfterSequence of backend/redis_store.go. The reply to each
-- XRANGE command is a parameter; Stream/Server is one server that carries the command out.
-- The loop over the pages runs on fuel, one unit for each page; one more than the number of
-- events is enough.
-- Redis: the server and its Lua interpreter as a record of commands and of laws on what a key holds
-- after them; Redis/Collections has its hashes and sorted sets. Redis/Memory and
-- Redis/MemoryCollections are an instance. Keys: the keys of a room.
-- Store: CreateRoom, GetSnapshot and ApplyContentUpdate of backend/redis_store.go with their
-- scripts. A script is one atomic action; what becomes of each command on the wire is an argument.
-- The four commands of GetSnapshot are sent one by one; get_snapshot_amid has the writes of others
-- between them as an argument, and get_snapshot, which Room, Session and Manager call, is the case
-- without any.
-- The abstract document of Store/Commands is the list of the events that were accepted.
-- Membership: backend/redis_presence.go. The five scripts are atomic actions at a reading of the
-- clock of Redis; Membership/Calls has the methods around them. Membership/Spec has the abstract
-- presence of a room: its members, the expiry of each lease, and a revision. Milliseconds stay
-- below 2 ^ 53, where Lua's numbers are exact. encoding/json is a parameter.
-- Room: backend/room.go and broadcastPresenceSnapshot of backend/presence.go. A client is named
-- by its address. Versions stay below 10 ^ 14, where Lua prints a number without an exponent.
--
-- Session: handleContentUpdate and resumeClient of backend/ws.go, on the room, the clients and
-- Redis together. The fuel of a resume is that of the replay. Session/Admission and Session/Serve:
-- serveWS, from the request to the cleanup of one connection; steps of other connections between
-- are left out.
-- Manager: watchRoom of backend/manager.go on a list of the results of ReadAfterStreamID, one for
-- each round; the loop itself ends only with the process. Manager/Rooms: CreateRoom,
-- GetRoom, DeleteRoom and ensureWatcher of backend/manager.go; the random room ID is an argument.
-- Manager/PresenceWatch: watchPresence of backend/presence.go, round by round in the same way.
-- Presence: withDefaults of backend/presence_lease.go; Presence/Heartbeat: the goroutine of
-- startPresenceHeartbeat on the events of its connection; Presence/Sweep: sweepPresenceOnce, on one
-- unit of fuel for each page of SCAN. Http: enableCORS and the delay endpoint of
-- backend/server.go with originAllowed of backend/config.go. Config: the rest of backend/config.go.
--
-- Not modelled: telemetry, tracing and logging, which nothing reads; the artificial delay; timers
-- and goroutine scheduling, beyond the order of the steps; the vendored WebSocket code; the
-- frontend. Nor are the other endpoints of backend/server.go.
pub mod Base
pub mod Message
pub mod Transport
pub mod Client
pub mod Reply
pub mod Resp
pub mod Stream
pub mod Redis
pub mod Keys
pub mod Store
pub mod Membership
pub mod Room
pub mod Session
pub mod Manager
pub mod Presence
pub mod Http
pub mod Config

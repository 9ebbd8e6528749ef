-- ===== src/Room.antt =====
-- room.go and the room's part of presence.go: the cached document of a room on one backend, and
-- the clients registered with it. A client is named by its address, as the source compares
-- pointers; the heap gives the client at an address. Each function holds the room's lock
-- throughout, except where the source takes it in steps.
pub mod Cache
pub mod Members
pub mod Modes
pub mod Snapshot
pub mod Fanout
pub mod LocalPresence
pub mod Examples
use live_collab.Base.{
  ℕ, Bool, true, false, ◌&&◌, not, List, [], ◌∷◌, ◌++◌, map, Option, none, some, Int64, Str, lit,
  str_eq, ◌==◌, inc64, le64, lt64, length, keep, if◌then◌else◌,
}
use live_collab.Base.Result.{Result, ok, err}
use live_collab.Message.{
  Message, message, RoomSnapshot, ApplyContentResult, DistributedEvent, StaleWritePolicy,
  Participant, PresenceSnapshot,
}
use live_collab.Transport.{Transport}
use live_collab.Client.{Client, write_frame, write_content_update, write_presence, participant}
use live_collab.Redis.{Redis}
use live_collab.Store.{Wire, apply_content_update, get_snapshot, stale_write_reject}

-- Room. `has_store` is Store != nil.
pub record Room : Type 0 where
  pub id : Str
  pub content : Str
  pub version : Int64
  pub sequence : Int64
  pub clients : List ℕ
  pub has_store : Bool
  pub local_presence_revision : Int64

-- AddClient.
unfoldable pub add_client : Room → ℕ → Room
add_client r client = record r {
  clients = r.clients ++ client ∷ [];
  local_presence_revision =
      if r.has_store then r.local_presence_revision else inc64 r.local_presence_revision;
}

-- RemoveClient.
unfoldable pub remove_client : Room → ℕ → Room
remove_client r target =
    let updated = keep (λ c. not (c == target)) r.clients in
    record r {
      clients = updated;
      local_presence_revision =
          if not r.has_store && not (length updated == length r.clients)
          then inc64 r.local_presence_revision
          else r.local_presence_revision;
    }

-- ClientCount.
abbrev pub client_count : Room → ℕ
client_count r = length r.clients

-- applyLocalContentUpdate, which is ApplyContentUpdate.
unfoldable pub apply_local_content_update :
    Room → Str → Int64 → StaleWritePolicy → ApplyContentResult × Room
apply_local_content_update r content base policy =
    let stale = not (base == r.version) in
    if stale && str_eq policy stale_write_reject
    then (
      record {
        accepted = false;
        reason = lit "stale_base_version";
        content = r.content;
        base_version = base;
        previous_version = r.version;
        server_version = r.version;
        sequence = r.sequence;
        stream_id = [];
        stale = true;
      },
      r,
    )
    else (
      record {
        accepted = true;
        reason = [];
        content = content;
        base_version = base;
        previous_version = r.version;
        server_version = inc64 r.version;
        sequence = inc64 r.sequence;
        stream_id = [];
        stale = stale;
      },
      record r { content = content; version = inc64 r.version; sequence = inc64 r.sequence },
    )

-- ApplyDistributedEvent.
unfoldable pub apply_distributed_event : Room → DistributedEvent → Room × Bool
apply_distributed_event r event = if le64 event.sequence r.sequence then (r, false) else (
  record r { content = event.content; version = event.version; sequence = event.sequence },
  true,
)

-- applySnapshot.
unfoldable pub apply_snapshot : Room → RoomSnapshot → Room
apply_snapshot r snapshot = if lt64 snapshot.sequence r.sequence then r else record r {
  content = snapshot.content;
  version = snapshot.version;
  sequence = snapshot.sequence;
}

abbrev pub snapshot_of : Room → RoomSnapshot
snapshot_of r = record { content = r.content; version = r.version; sequence = r.sequence }

module _ (R : Redis) where
  open R use {Db}

  -- What ApplyOperation does with the store's answer: both branches apply the snapshot.
  unfoldable pub after_store :
      Room → Result ApplyContentResult × Db → Result ApplyContentResult × Room × Db
  unfolding apply_snapshot
  after_store r (err e, db) = (err e, r, db)
  after_store r (ok result, db) = (
    ok result,
    apply_snapshot r (record {
      content = result.content;
      version = result.server_version;
      sequence = result.sequence;
    }),
    db,
  )

  -- ApplyOperation.
  unfoldable pub apply_operation :
      Wire
      → Room
      → Str
      → Int64
      → StaleWritePolicy
      → (operation_id client_id username : Str) → Db
      → Result ApplyContentResult × Room × Db
  apply_operation wire r content base policy operation_id client_id username db =
      if r.has_store
      then after_store r
          (apply_content_update R wire r.id content base policy operation_id client_id username db)
      else (let (result, r') = apply_local_content_update r content base policy in
          (ok result, r', db))

  unfoldable pub refresh : Room → Result (Option RoomSnapshot) → Room
  refresh r (ok (some snapshot)) = apply_snapshot r snapshot
  refresh r (ok none) = r
  refresh r (err e) = r

  -- GetSnapshot.
  unfoldable pub get_room_snapshot :
      Wire × Wire × Wire × Wire → Room → Db → RoomSnapshot × Room × Db
  unfolding refresh
  get_room_snapshot wires r db =
      if r.has_store
      then (let (found, db') = get_snapshot R wires r.id db in
          let r' = refresh r found in (snapshot_of r', r', db'))
      else (snapshot_of r, r, db)

module _ (T : Transport) where
  open T use {Conn}

  abbrev pub Heap : Type 0
  Heap = ℕ → Client Conn

  abbrev update : Heap → ℕ → Client Conn → Heap
  update h a c b = if a == b then c else h b

  -- GetUsernames and roomStateUsers.
  unfoldable pub get_usernames : Heap → Room → List Str
  get_usernames h r = map (λ a. (h a).username) r.clients

  unfoldable pub room_state_users : Heap → Room → List Str
  unfolding get_usernames
  room_state_users h r = if r.has_store then [] else get_usernames h r

  -- One client of BroadcastJSON; an error is printed and the next client comes.
  unfoldable pub send_json : Room → Message → Client Conn → Client Conn
  send_json r m c =
      if r.has_store && str_eq m.type (lit "content_update")
      then (write_content_update T c m).0
      else (write_frame T c (message m)).0

  -- The loop of a broadcast over the snapshot of the clients.
  unfoldable pub each_client : (Client Conn → Client Conn) → List ℕ → Heap → Heap
  each_client f [] h = h
  each_client f (a ∷ as') h = each_client f as' (update h a (f (h a)))

  -- BroadcastJSON.
  unfoldable pub broadcast_json : Room → Message → Heap → Heap
  unfolding each_client
  broadcast_json r m h = each_client (send_json r m) r.clients h

  -- broadcastPresenceSnapshot.
  unfoldable pub broadcast_presence_snapshot : Room → PresenceSnapshot → Heap → Heap
  unfolding each_client
  broadcast_presence_snapshot r snapshot h =
      each_client (λ c. (write_presence T c snapshot).0) r.clients h

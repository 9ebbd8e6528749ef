-- ===== src/Manager/Rooms.antt =====
-- manager.go: the rooms of one backend, their creation, lookup and removal, and which of them have
-- a stream watcher. Each method is one step but for GetRoom, which looks again under its lock.
pub mod Sharing
pub mod Examples
use live_collab.Base.{
  ℕ, Bool, true, false, not, ◌||◌, List, [], ◌∷◌, Option, none, some, Int64, Str, str_eq,
  if◌then◌else◌,
}
use live_collab.Base.Result.{Result, ok, err}
use live_collab.Message.{RoomSnapshot}
use live_collab.Redis.{Redis}
use live_collab.Store
use live_collab.Store.{Wire, get_snapshot}
use live_collab.Room.{Room}

-- RoomManager. `has_store` is store != nil; `watchers` has the rooms for which a watcher was
-- started, each with its initial sequence.
pub record RoomManager : Type 0 where
  pub rooms : List (Str × Room)
  pub has_store : Bool
  pub watchers : List (Str × Int64)

-- m.Rooms[id], m.Rooms[id] = room, delete(m.Rooms, id).
unfoldable pub find {ℓ} : {V : Type ℓ} → Str → List (Str × V) → Option V
find id [] = none
find id ((j, v) ∷ rest) = if str_eq j id then some v else find id rest

unfoldable pub insert : Str → Room → List (Str × Room) → List (Str × Room)
insert id room [] = (id, room) ∷ []
insert id room ((j, r) ∷ rest) =
    if str_eq j id then (j, room) ∷ rest else (j, r) ∷ insert id room rest

unfoldable pub delete : Str → List (Str × Room) → List (Str × Room)
delete id [] = []
delete id ((j, r) ∷ rest) = if str_eq j id then delete id rest else (j, r) ∷ delete id rest

-- &Room{...} on a snapshot.
abbrev pub room_of : Bool → Str → RoomSnapshot → Room
room_of has_store id snapshot = record {
  id = id;
  content = snapshot.content;
  version = snapshot.version;
  sequence = snapshot.sequence;
  clients = [];
  has_store = has_store;
  local_presence_revision = 0;
}

abbrev pub empty_snapshot : RoomSnapshot
empty_snapshot = record { content = []; version = 0; sequence = 0 }

start_watcher : RoomManager → Room → Option Int64 → RoomManager
start_watcher m room (some initial) = m
start_watcher m room none = record m { watchers = (room.id, room.sequence) ∷ m.watchers }

-- ensureWatcher.
unfoldable pub ensure_watcher : RoomManager → Room → RoomManager
unfolding start_watcher find
ensure_watcher m room =
    if not m.has_store then m else start_watcher m room (find room.id m.watchers)

-- The part of CreateRoom behind the store, and the part of GetRoom under the second lock.
unfoldable pub add_room : RoomManager → Str → Room → Room × RoomManager
unfolding ensure_watcher insert
add_room m id room = (room, ensure_watcher (record m { rooms = insert id room m.rooms }) room)

unfoldable pub adopt : RoomManager → Str → RoomSnapshot → Option Room → Room × RoomManager
unfolding add_room
adopt m id snapshot (some existing) = (existing, ensure_watcher m existing)
adopt m id snapshot none = add_room m id (room_of m.has_store id snapshot)

-- DeleteRoom.
unfoldable pub delete_room : RoomManager → Str → RoomManager
unfolding delete
delete_room m id = if m.has_store then m else record m { rooms = delete id m.rooms }

module _ (R : Redis) where
  open R use {Db}

  stored : RoomManager → Str → Result (Unit {0}) × Db → Result Room × RoomManager × Db
  unfolding add_room
  stored m id (err e, db) = (err e, m, db)
  stored m id (ok u, db) =
      let (room, m') = add_room m id (room_of m.has_store id empty_snapshot) in (ok room, m', db)

  -- CreateRoom under the ID that generateRoomID gives.
  unfoldable pub create_room : Wire → Str → RoomManager → Db → Result Room × RoomManager × Db
  unfolding stored
  create_room wire id m db =
      if m.has_store then stored m id (Store.create_room R wire id db) else stored m id (ok tt, db)

  loaded : RoomManager → Str → Result (Option RoomSnapshot) × Db → Option Room × RoomManager × Db
  unfolding adopt find
  loaded m id (err e, db) = (none, m, db)
  loaded m id (ok none, db) = (none, m, db)
  loaded m id (ok (some snapshot), db) =
      let (room, m') = adopt m id snapshot (find id m.rooms) in (some room, m', db)

  looked_up :
      Wire × Wire × Wire × Wire
      → Str
      → RoomManager
      → Db
      → Option Room
      → Option Room × RoomManager × Db
  unfolding loaded
  looked_up wires id m db (some room) = (some room, ensure_watcher m room, db)
  looked_up wires id m db none =
      if m.has_store then loaded m id (get_snapshot R wires id db) else (none, m, db)

  -- GetRoom.
  unfoldable pub get_room :
      Wire × Wire × Wire × Wire → Str → RoomManager → Db → Option Room × RoomManager × Db
  unfolding looked_up find
  get_room wires id m db = looked_up wires id m db (find id m.rooms)

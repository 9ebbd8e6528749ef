-- ===== src/Manager/Rooms/Sharing.antt =====
-- CreateRoom and GetRoom of manager.go: a room is found by every backend, and watched once by each.
use live_collab.Base.{
  ◌≡◌, refl, ◌∙◌, ap, Bool, true, List, [], ◌∷◌, Option, none, some, arith, Int64, Str, str_eq_refl,
  if◌then◌else◌, both_branches,
}
use live_collab.Base.Result.{Result, ok, err}
use live_collab.Message.{RoomSnapshot}
use live_collab.Redis.{Redis, missing}
use live_collab.Keys.{room_stream_key}
use live_collab.Store
use live_collab.Store.{Wire, answered, get_snapshot}
use live_collab.Store.Snapshot.{blank, reading, create_room-opens}
use live_collab.Room.{Room}
use live_collab.Manager.Rooms.{
  RoomManager, find, insert, room_of, empty_snapshot, start_watcher, ensure_watcher, add_room,
  adopt, create_room, get_room, stored, loaded, looked_up,
}

find-insert : (id : Str) (r : Room) (m : List (Str × Room)) → find id (insert id r m) ≡ some r
unfolding find insert
find-insert id r [] = rw (str_eq_refl id)
find-insert id r ((j, q) ∷ m) = ground (arith, find-insert id r m)

-- Each room has one watcher at most.
abbrev pub WatchedOnce : List (Str × Int64) → Type 0
WatchedOnce [] = Unit {0}
WatchedOnce ((id, n) ∷ ws) = (find id ws ≡ none) × WatchedOnce ws

start-WatchedOnce :
    (m : RoomManager) (room : Room) (o : Option Int64)
    → find room.id m.watchers ≡ o
    → WatchedOnce m.watchers
    → WatchedOnce (start_watcher m room o).watchers
unfolding start_watcher
start-WatchedOnce m room none e h = (e, h)
start-WatchedOnce m room (some n) e h = h

ensure-WatchedOnce :
    (m : RoomManager) (room : Room)
    → WatchedOnce m.watchers
    → WatchedOnce (ensure_watcher m room).watchers
unfolding ensure_watcher
ensure-WatchedOnce m room h =
    both_branches (λ (x : RoomManager). WatchedOnce x.watchers) _ h
      (start-WatchedOnce m room (find room.id m.watchers) refl h)

add_room-WatchedOnce :
    (m : RoomManager) (id : Str) (room : Room)
    → WatchedOnce m.watchers
    → WatchedOnce (add_room m id room).1.watchers
unfolding add_room
add_room-WatchedOnce m id room h =
    ensure-WatchedOnce (record m { rooms = insert id room m.rooms }) room h

adopt-WatchedOnce :
    (m : RoomManager) (id : Str) (s : RoomSnapshot) (o : Option Room)
    → WatchedOnce m.watchers
    → WatchedOnce (adopt m id s o).1.watchers
unfolding adopt
adopt-WatchedOnce m id s (some r) h = ensure-WatchedOnce m r h
adopt-WatchedOnce m id s none h = add_room-WatchedOnce m id (room_of m.has_store id s) h

module _ (R : Redis) where
  stored-WatchedOnce :
      (m : RoomManager) (id : Str) (x : Result (Unit {0}) × R.Db)
      → WatchedOnce m.watchers
      → WatchedOnce (stored R m id x).1.watchers
  unfolding stored
  stored-WatchedOnce m id (ok u, db) h =
      add_room-WatchedOnce m id (room_of m.has_store id empty_snapshot) h
  stored-WatchedOnce m id (err e, db) h = h

  loaded-WatchedOnce :
      (m : RoomManager) (id : Str) (x : Result (Option RoomSnapshot) × R.Db)
      → WatchedOnce m.watchers
      → WatchedOnce (loaded R m id x).1.watchers
  unfolding loaded
  loaded-WatchedOnce m id (ok (some s), db) h = adopt-WatchedOnce m id s (find id m.rooms) h
  loaded-WatchedOnce m id (ok none, db) h = h
  loaded-WatchedOnce m id (err e, db) h = h

  looked_up-WatchedOnce :
      (wires : Wire × Wire × Wire × Wire) (id : Str) (m : RoomManager) (db : R.Db) (o : Option Room)
      → WatchedOnce m.watchers
      → WatchedOnce (looked_up R wires id m db o).1.watchers
  unfolding looked_up
  looked_up-WatchedOnce wires id m db (some room) h = ensure-WatchedOnce m room h
  looked_up-WatchedOnce wires id m db none h =
      both_branches {A = Option Room × RoomManager × R.Db} (λ x. WatchedOnce x.1.watchers)
        m.has_store (loaded-WatchedOnce m id (get_snapshot R wires id db) h) h

  -- Whatever becomes of the commands, CreateRoom and GetRoom never start a second watcher for a
  -- room, where there was one at most for each room before.
  pub rooms-WatchedOnce :
      (wire : Wire) (wires : Wire × Wire × Wire × Wire) (id : Str) (m : RoomManager) (db : R.Db)
      → WatchedOnce m.watchers
      → WatchedOnce (create_room R wire id m db).1.watchers
        × WatchedOnce (get_room R wires id m db).1.watchers
  unfolding create_room get_room
  rooms-WatchedOnce wire wires id m db h = (
    both_branches {A = Result Room × RoomManager × R.Db} (λ x. WatchedOnce x.1.watchers) m.has_store
        (stored-WatchedOnce m id (Store.create_room R wire id db) h)
        (stored-WatchedOnce m id (ok tt, db) h),
    looked_up-WatchedOnce wires id m db (find id m.rooms) h,
  )

  add_room-found :
      (m : RoomManager) (id : Str) (room : Room)
      → ((add_room m id room).0 ≡ room) × (find id (add_room m id room).1.rooms ≡ some room)
  unfolding add_room ensure_watcher start_watcher
  add_room-found m id room = (
    refl,
    both_branches (λ (x : RoomManager). find id x.rooms ≡ some room) _ (find-insert id room m.rooms)
        (kept (find room.id m.watchers)),
  )
    where
      kept :
          (o : Option Int64)
          → find id (start_watcher (record m { rooms = insert id room m.rooms }) room o).rooms
            ≡ some room
      kept (some n) = find-insert id room m.rooms
      kept none = find-insert id room m.rooms

  stored_ok :
      (m : RoomManager) (id : Str) (x : Result (Unit {0}) × R.Db)
      → x.0 ≡ ok tt
      → let room = room_of m.has_store id empty_snapshot in
        let r = stored R m id x in (r.0 ≡ ok room) × (find id r.1.rooms ≡ some room) × (r.2 ≡ x.1)
  unfolding stored
  stored_ok m id (ok u, db) e =
      let (a, b) = add_room-found m id (room_of m.has_store id empty_snapshot) in (ap ok a, b, refl)
  stored_ok m id (err x, db) e = cc

  loaded-some :
      (m : RoomManager) (id : Str) (s : RoomSnapshot) (x : Result (Option RoomSnapshot) × R.Db)
      (db : R.Db)
      → x ≡ (ok (some s), db)
      → find id m.rooms ≡ none
      → let room = room_of m.has_store id s in
        let r = loaded R m id x in (r.0 ≡ some room) × (find id r.1.rooms ≡ some room) × (r.2 ≡ db)
  unfolding loaded adopt
  loaded-some m id s x db e absent =
      let (a, b) = add_room-found m id (room_of m.has_store id s) in
      rw (e, absent) (ap some a, b, refl)

  if_true : {A : Type 0} (b : Bool) (x y : A) → b ≡ true → (if b then x else y) ≡ x
  if_true b x y e = rw e

  create_with_store :
      (wire : Wire) (id : Str) (m : RoomManager) (db : R.Db)
      → m.has_store ≡ true
      → create_room R wire id m db ≡ stored R m id (Store.create_room R wire id db)
  unfolding create_room
  create_with_store wire id m db on = if_true m.has_store _ _ on

  get_with_store :
      (wires : Wire × Wire × Wire × Wire) (id : Str) (m : RoomManager) (db : R.Db)
      → m.has_store ≡ true
      → find id m.rooms ≡ none
      → get_room R wires id m db ≡ loaded R m id (get_snapshot R wires id db)
  unfolding get_room looked_up
  get_with_store wires id m db on absent =
      ap (looked_up R wires id m db) absent ∙ if_true m.has_store _ _ on

  -- A room that one backend creates under an ID without a stream is found by another backend that
  -- has not seen it, empty and with the same ID; both then have it cached, and the lookup writes
  -- nothing. Both backends have Redis, and the commands are answered.
  pub create_room-shared :
      (a b : RoomManager) (id : Str) (db : R.Db)
      → a.has_store ≡ true
      → b.has_store ≡ true
      → find id b.rooms ≡ none
      → R.look db (room_stream_key id) ≡ missing
      → let room = room_of true id empty_snapshot in
        let created = create_room R answered id a db in
        let got = get_room R (answered, answered, answered, answered) id b created.2 in
        (created.0 ≡ ok room)
        × (find id created.1.rooms ≡ some room)
        × (got.0 ≡ some room)
        × (find id got.1.rooms ≡ some room)
        × (got.2 ≡ created.2)
  create_room-shared a b id db on_a on_b absent fresh =
      let (done, holds, snap, _) = create_room-opens R id db fresh in
      let x = Store.create_room R answered id db in
      let all : Wire × Wire × Wire × Wire = (answered, answered, answered, answered) in
      let (c, f, d) = stored_ok a id x done in
      let (c', f', d') =
        loaded-some b id (reading blank) (get_snapshot R all id x.1) x.1 snap absent in
      let same_a = ap (λ s. room_of s id empty_snapshot) on_a in
      let same_b = ap (λ s. room_of s id empty_snapshot) on_b in
      let got = get_with_store all id b x.1 on_b absent in
      rw (create_with_store answered id a db on_a, d, got)
        (c ∙ ap ok same_a, f ∙ ap some same_a, c' ∙ ap some same_b, f' ∙ ap some same_b, d')

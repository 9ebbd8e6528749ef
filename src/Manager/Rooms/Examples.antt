-- ===== src/Manager/Rooms/Examples.antt =====
-- Two backends and one room, and the theorems at them.
use live_collab.Base.{◌≡◌, refl, true, [], some, lit}
use live_collab.Base.Result.{ok}
use live_collab.Redis.Memory.{memory, empty_memory}
use live_collab.Store.{answered, not_sent}
use live_collab.Manager.Rooms.{RoomManager, find, room_of, empty_snapshot, create_room, get_room}
use live_collab.Manager.Rooms.Sharing.{WatchedOnce, rooms-WatchedOnce, create_room-shared}

abbrev backend : RoomManager
backend = record { rooms = []; has_store = true; watchers = [] }

rooms-WatchedOnce_example :
    WatchedOnce (create_room memory answered (lit "a1b2c3") backend empty_memory).1.watchers
    × WatchedOnce
        (get_room memory
          (answered, not_sent, answered, answered)
          (lit "a1b2c3")
          backend
          empty_memory).1.watchers
rooms-WatchedOnce_example =
    rooms-WatchedOnce memory answered (answered, not_sent, answered, answered) (lit "a1b2c3")
      backend empty_memory tt

create_room-shared_example :
    let room = room_of true (lit "a1b2c3") empty_snapshot in
    let created = create_room memory answered (lit "a1b2c3") backend empty_memory in
    let got =
      get_room memory (answered, answered, answered, answered) (lit "a1b2c3") backend created.2 in
    (created.0 ≡ ok room)
    × (find (lit "a1b2c3") created.1.rooms ≡ some room)
    × (got.0 ≡ some room)
    × (find (lit "a1b2c3") got.1.rooms ≡ some room)
    × (got.2 ≡ created.2)
unfolding find
create_room-shared_example =
    create_room-shared memory backend backend (lit "a1b2c3") empty_memory refl refl refl refl

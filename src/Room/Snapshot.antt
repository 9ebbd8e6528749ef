-- ===== src/Room/Snapshot.antt =====
-- GetSnapshot of room.go: what it does to the cache; and ApplyOperation by the event it appends.
use live_collab.Base.{
  ◌+◌, ◌<◌, ◌≡◌, refl, true, [], ◌∷◌, ◌++◌, Option, none, some, arith, Int64, Str, length,
  if◌then◌else◌, both_branches,
}
use live_collab.Base.Result.{Result, ok, err}
use live_collab.Message.{RoomSnapshot, ApplyContentResult, DistributedEvent, StaleWritePolicy}
use live_collab.Redis.{Redis, lua_limit}
use live_collab.Store.{Wire, answered, get_snapshot}
use live_collab.Store.Commands.{Document, Holds}
use live_collab.Store.Snapshot.{IsReading, get_snapshot-IsReading}
use live_collab.Store.Apply.{accepts, accepted_result, rejected_result, event}
use live_collab.Room.{
  Room, apply_snapshot, refresh, get_room_snapshot, apply_operation, after_store,
  apply_local_content_update,
}
use live_collab.Room.Modes.{Mirrors, Behind, apply_operation-Mirrors}

-- The fields of a room that no snapshot and no edit changes.
abbrev pub SameRoom : Room → Room → Type 0
SameRoom r r' = (r'.id ≡ r.id) × (r'.has_store ≡ r.has_store) × (r'.clients ≡ r.clients)

refresh_lem :
    (R : Redis) (r : Room) (d : Document) (x : Result (Option RoomSnapshot))
    → Behind r d
    → IsReading d x
    → SameRoom r (refresh R r x) × Behind (refresh R r x) d
unfolding refresh apply_snapshot
refresh_lem R r d (ok (some s)) b e = rw e (ground arith, ground arith)
refresh_lem R r d (ok none) b e = ((refl, refl, refl), b)
refresh_lem R r d (err x) b e = ((refl, refl, refl), b)

apply_snapshot-SameRoom : (r : Room) (s : RoomSnapshot) → SameRoom r (apply_snapshot r s)
unfolding apply_snapshot
apply_snapshot-SameRoom r s = ground arith

after_store-SameRoom :
    (R : Redis) (r : Room) (x : Result ApplyContentResult × R.Db) → SameRoom r (after_store R r x).1
unfolding after_store
after_store-SameRoom R r (ok result, db) = apply_snapshot-SameRoom r _
after_store-SameRoom R r (err e, db) = (refl, refl, refl)

apply_local-SameRoom :
    (r : Room) (content : Str) (base : Int64) (policy : StaleWritePolicy)
    → SameRoom r (apply_local_content_update r content base policy).1
unfolding apply_local_content_update
apply_local-SameRoom r content base policy = ground arith

pub apply_operation-SameRoom :
    (R : Redis) (wire : Wire) (r : Room) (content : Str) (base : Int64) (policy : StaleWritePolicy)
    (operation_id client_id username : Str) (db : R.Db)
    → SameRoom r (apply_operation R wire r content base policy operation_id client_id username db).1
unfolding apply_operation
apply_operation-SameRoom R wire r content base policy operation_id client_id username db =
    both_branches {A = Result ApplyContentResult × Room × R.Db} (λ x. SameRoom r x.1) r.has_store
      (after_store-SameRoom R r _) (apply_local-SameRoom r content base policy)

-- The document after an edit that appends e, and the outcome of that edit.
abbrev pub edited : Document → Int64 → StaleWritePolicy → DistributedEvent → Document
edited d base policy e =
    if accepts d base policy then record { content = e.content; log = d.log ++ e ∷ [] } else d

abbrev pub outcome : Document → Int64 → StaleWritePolicy → DistributedEvent → ApplyContentResult
outcome d base policy e =
    if accepts d base policy then accepted_result d base e else rejected_result d base

-- The next event of a document, with the texts of an operation.
pub record IsEdit (d : Document) (content operation_id client_id username : Str)
    (e : DistributedEvent) : Type 0 where
  pub next_sequence : e.sequence ≡ length d.log + 1
  pub next_version : e.version ≡ length d.log + 1
  pub same_content : e.content ≡ content
  pub same_operation : e.operation_id ≡ operation_id
  pub same_client : e.client_id ≡ client_id
  pub same_username : e.username ≡ username

module _ (R : Redis) (r : Room) (d : Document) (db : R.Db) (held : Holds R db r.id d)
    (small : length d.log + 1 < lua_limit) (behind : Behind r d) where
  -- GetSnapshot leaves Redis as it is and the cache no newer than the document, whatever becomes of
  -- its commands.
  pub get_room_snapshot-Behind :
      (wires : Wire × Wire × Wire × Wire)
      → let x = get_room_snapshot R wires r db in SameRoom r x.1 × Behind x.1 d × (x.2 ≡ db)
  unfolding get_room_snapshot
  get_room_snapshot-Behind wires =
      let (i, e) = get_snapshot-IsReading R r.id d db held (omega arith) wires in
      let (s, b) = refresh_lem R r d (get_snapshot R wires r.id db).0 behind i in
      both_branches {A = RoomSnapshot × Room × R.Db}
        (λ x. SameRoom r x.1 × Behind x.1 d × (x.2 ≡ db)) r.has_store (s, b, e)
        ((refl, refl, refl), behind, refl)

  -- ApplyOperation with Redis and an answer.
  pub apply_operation-edited :
      (content : Str) (base : Int64) (policy : StaleWritePolicy)
      (operation_id client_id username : Str)
      → r.has_store ≡ true
      → base < 0x10000000000000000
      → let x =
          apply_operation R answered r content base policy operation_id client_id username db in
        (e : DistributedEvent) × IsEdit d content operation_id client_id username e
        × (x.0 ≡ ok (outcome d base policy e))
        × Mirrors x.1 (edited d base policy e)
        × Holds R x.2 r.id (edited d base policy e)
        × SameRoom r x.1
  unfolding apply_operation after_store
  apply_operation-edited content base policy operation_id client_id username on word =
      let (a, m, h) =
        apply_operation-Mirrors R r d db held small content base word policy operation_id client_id
          username on behind in
      (
        event R r.id d db held small content base word policy operation_id client_id username,
        record {
          next_sequence = refl;
          next_version = refl;
          same_content = refl;
          same_operation = refl;
          same_client = refl;
          same_username = refl;
        },
        a,
        m,
        h,
        apply_operation-SameRoom R answered r content base policy operation_id client_id username
            db,
      )

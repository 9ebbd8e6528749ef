-- ===== src/Store.antt =====
-- redis_store.go: the document of a room in Redis, the script that applies an operation, and the
-- methods of RedisStore on one room. A script runs as one atomic step; the calls of a method are
-- steps of their own.
pub mod Commands
pub mod Apply
pub mod History
pub mod Log
pub mod Snapshot
pub mod Torn
pub mod Examples
pub mod ReadingExamples
use live_collab.Base.{
  ℕ, Bool, true, false, ◌&&◌, not, List, [], ◌∷◌, Option, none, some, Int64, Str, lit, str_eq, ◌==◌,
  if◌then◌else◌,
}
use live_collab.Base.Result
use live_collab.Base.Result.{Result, ok, err, unexpected_reply, redis_error}
use live_collab.Base.Decimal.{format_int}
use live_collab.Message.{RoomSnapshot, ApplyContentResult, StaleWritePolicy}
use live_collab.Reply.{Reply, nil, text, int, arr, Replies, end, item, redis_string, redis_int64}
use live_collab.Redis.{Redis}
use live_collab.Keys.{
  room_exists_key, room_content_key, room_version_key, room_sequence_key, room_stream_key,
}

-- What becomes of a command of RedisClient.Do: it is run and answered, it never reaches Redis, or
-- it is run and the answer is lost. The caller sees an error in both of the last cases.
pub data Wire : Type 0 where
  answered not_sent answer_lost : Wire

-- Actions on the database that may fail; what was written before a failure stays written.
abbrev pub Action : Type 0 → Type 0 → Type 0
Action D A = D → Result A × D

abbrev pub and_then : {D A B : Type 0} → Result A × D → (A → Action D B) → Result B × D
and_then (ok a, db) f = f a db
and_then (err e, db) f = (err e, db)

infixl 5 ◌>>=◌ ◌>>◌
abbrev pub ◌>>=◌ : {D A B : Type 0} → Action D A → (A → Action D B) → Action D B
◌>>=◌ m f db = and_then (m db) f

abbrev pub ◌>>◌ : {D A B : Type 0} → Action D A → Action D B → Action D B
◌>>◌ m n = m >>= (λ _. n)

abbrev pub pure : {D A : Type 0} → A → Action D A
pure a db = (ok a, db)

abbrev pub lift : {D A : Type 0} → Result A → Action D A
lift r db = (r, db)

-- RedisClient.Do on a command, under what becomes of it.
abbrev pub send : {D A : Type 0} → Wire → Action D A → Action D A
send answered m db = m db
send not_sent m db = (err (redis_error (lit "dial")), db)
send answer_lost m db = (err (redis_error (lit "read")), (m db).1)

-- redis.call('GET', k) or d, which turns nil into a default.
or_text : Reply → Str → Str
or_text (text s) d = s
or_text _ d = d

abbrev of_option : {A : Type 0} → Option A → Result A
of_option none = err unexpected_reply
of_option (some a) = ok a

-- The constant "reject" of config.go.
abbrev pub stale_write_reject : StaleWritePolicy
stale_write_reject = lit "reject"

-- values[0] to values[7] of the reply to the script, for a reply with at least 8 values.
unfoldable pub apply_result : Int64 → Reply → Result ApplyContentResult
unfolding redis_string redis_int64
apply_result base
      (arr (item v0 (item v1 (item v2 (item v3 (item v4 (item v5 (item v6 (item v7 more))))))))) =
    Result.◌>>=◌ (redis_int64 v0) λ accepted_int. Result.◌>>=◌ (redis_int64 v1) λ previous_version.
      Result.◌>>=◌ (redis_int64 v2) λ server_version. Result.◌>>=◌ (redis_int64 v4) λ sequence.
        Result.◌>>=◌ (redis_int64 v6) λ stale_int. ok (record {
          accepted = accepted_int == 1;
          reason = redis_string v7;
          content = redis_string v3;
          base_version = base;
          previous_version = previous_version;
          server_version = server_version;
          sequence = sequence;
          stream_id = redis_string v5;
          stale = stale_int == 1;
        })
apply_result base _ = err unexpected_reply

module _ (R : Redis) where
  open R use {
    Db, get, set, incr, xadd, Num, number, tonumber, tostring, num_eq, successor, to_reply,
  }

  abbrev pub call_get : Str → Action Db Reply
  call_get k db = (get db k, db)

  abbrev call_set : Str → Str → Action Db (Unit {0})
  call_set k v db = (ok tt, set db k v)

  abbrev call_incr : Str → Action Db Int64
  call_incr k db = incr db k

  abbrev call_xadd : Str → List Str → Action Db Str
  call_xadd k fields db = xadd db k fields

  -- tonumber in the script; on a text that is no number the caller ends in an error either way.
  abbrev pub to_number : Str → Action Db Num
  to_number s db = (of_option (tonumber s), db)

  -- tonumber(redis.call('GET', k) or '0') and redis.call('GET', k) or ''.
  unfoldable pub number_at : Str → Action Db Num
  unfolding or_text
  number_at k = do value ← call_get k; to_number (or_text value (lit "0"))

  unfoldable pub text_at : Str → Action Db Str
  unfolding or_text
  text_at k = do value ← call_get k; pure (or_text value [])

  -- The script of CreateRoom.
  unfoldable pub create_room_script : Str → Action Db Reply
  create_room_script room = do
    call_set (room_exists_key room) (lit "1")
    call_set (room_content_key room) []
    call_set (room_version_key room) (lit "0")
    call_set (room_sequence_key room) (lit "0")
    pure (int 1)

  -- The branch of applyOperationScript that writes: INCR, two SETs and the XADD.
  unfoldable pub commit_script :
      Str → (content operation_id client_id username : Str) → Num → Reply → Action Db Reply
  commit_script room content operation_id client_id username current stale = do
    let next_version = successor current
    next_sequence ← call_incr (room_sequence_key room)
    call_set (room_version_key room) (tostring next_version)
    call_set (room_content_key room) content
    stream_id ← call_xadd (room_stream_key room) (
        lit "sequence"
        ∷ tostring (number next_sequence)
        ∷ lit "version"
        ∷ tostring next_version
        ∷ lit "operationId"
        ∷ operation_id
        ∷ lit "clientId"
        ∷ client_id
        ∷ lit "username"
        ∷ username
        ∷ lit "content"
        ∷ content
        ∷ [])
    pure (
        arr (
          item (int 1) (
            item (int (to_reply current)) (
              item (int (to_reply next_version)) (
                item (text content) (
                  item (int next_sequence)
                    (item (text stream_id) (item stale (item (text []) end)))))))))

  -- applyOperationScript, with KEYS and ARGV of ApplyContentUpdate.
  unfoldable pub apply_operation_script :
      Str
      → Str
      → Int64
      → StaleWritePolicy
      → (operation_id client_id username : Str) → Action Db Reply
  apply_operation_script room content base policy operation_id client_id username = do
    current ← number_at (room_version_key room)
    current_content ← text_at (room_content_key room)
    current_sequence ← number_at (room_sequence_key room)
    base_version ← to_number (format_int base)
    if num_eq base_version current
        then commit_script room content operation_id client_id username current (int 0)
        else if str_eq policy (lit "reject")
        then pure (
            arr (
              item (int 0) (
                item (int (to_reply current)) (
                  item (int (to_reply current)) (
                    item (text current_content) (
                      item (int (to_reply current_sequence)) (
                        item (text [])
                          (item (int 1) (item (text (lit "stale_base_version")) end)))))))))
        else commit_script room content operation_id client_id username current (int 1)

  -- RedisStore.CreateRoom.
  unfoldable pub create_room : Wire → Str → Action Db (Unit {0})
  unfolding create_room_script
  create_room wire room = do send wire (create_room_script room); pure tt

  -- RedisStore.ApplyContentUpdate.
  unfoldable pub apply_content_update :
      Wire
      → Str
      → Str
      → Int64
      → StaleWritePolicy
      → (operation_id client_id username : Str) → Action Db ApplyContentResult
  apply_content_update wire room content base policy operation_id client_id username = do
    raw ←
        send wire (apply_operation_script room content base policy operation_id client_id username)
    lift (apply_result base raw)

  -- What other backends do to the database between two commands of one call.
  abbrev pub Others : Type 0
  Others = (Db → Db) × (Db → Db) × (Db → Db)

  abbrev meanwhile : (Db → Db) → Action Db (Unit {0})
  meanwhile f db = (ok tt, f db)

  -- RedisStore.GetSnapshot, with what becomes of its four commands, and what other backends do
  -- between them: the commands are sent one by one, and not as one step.
  unfoldable pub get_snapshot_amid :
      Others → Wire × Wire × Wire × Wire → Str → Action Db (Option RoomSnapshot)
  unfolding redis_string redis_int64
  get_snapshot_amid (f, g, h) (w0, w1, w2, w3) room = do
    exists ← send w0 (call_get (room_exists_key room))
    if not (str_eq (redis_string exists) (lit "1")) then pure none else do
      meanwhile f
      content ← send w1 (call_get (room_content_key room))
      meanwhile g
      version_raw ← send w2 (call_get (room_version_key room))
      meanwhile h
      sequence_raw ← send w3 (call_get (room_sequence_key room))
      version ← lift (redis_int64 version_raw)
      sequence ← lift (redis_int64 sequence_raw)
      pure
          (some (record { content = redis_string content; version = version; sequence = sequence }))

  -- The call when no other backend writes between its commands, as the models of a whole session
  -- and of the room manager have it.
  abbrev pub get_snapshot : Wire × Wire × Wire × Wire → Str → Action Db (Option RoomSnapshot)
  get_snapshot = get_snapshot_amid (λ db. db, λ db. db, λ db. db)

-- ===== src/Membership/Calls.antt =====
-- The methods of RedisStore in redis_presence.go: what goes to Redis, and how replies are read. A
-- time.Duration is an int64 of nanoseconds.
use live_collab.Base.{
  trim_prefix, trim_suffix, ◌-◌, ◌/◌, ◌%◌, Bool, true, false, List, [], ◌∷◌, Option, Int64,
  int64_limit, Str, lit, le64, ltb, str_eq, ◌==◌, if◌then◌else◌,
}
use live_collab.Base.Result
use live_collab.Base.Result.{Result, ok, err, unexpected_reply, refused}
use live_collab.Base.Decimal.{format_int}
use live_collab.Message.{Participant, PresenceSnapshot}
use live_collab.Reply.{Reply, nil, arr, Replies, end, item, redis_string, redis_int64}
use live_collab.Redis.{Redis}
use live_collab.Redis.Collections.{Collections, Clock, or_value}
use live_collab.Store.{Wire, Action, ◌>>=◌, ◌>>◌, pure, lift, send}
use live_collab.Presence.{default_presence_lease}
use live_collab.Membership.{
  Json, join_script, leave_script, renew_script, prune_script, snapshot_script,
}

-- Duration.Milliseconds, which rounds towards 0.
unfoldable pub milliseconds_of : Int64 → Int64
milliseconds_of d =
    if ltb d int64_limit
    then d / 1000000
    else (0x10000000000000000 - (0x10000000000000000 - d) / 1000000) % 0x10000000000000000

-- a < b on strings, byte by byte.
unfoldable pub str_lt : Str → Str → Bool
str_lt s [] = false
str_lt [] (b ∷ bs) = true
str_lt (a ∷ as') (b ∷ bs) = if a == b then str_lt as' bs else ltb a b

-- sortParticipants.
unfoldable pub insert_participant : Participant → List Participant → List Participant
unfolding str_lt
insert_participant p [] = p ∷ []
insert_participant p (q ∷ qs) =
    let rest = insert_participant p qs in
    if str_lt q.connection_id p.connection_id then q ∷ rest else p ∷ q ∷ qs

unfoldable pub sort_participants : List Participant → List Participant
unfolding insert_participant
sort_participants [] = []
sort_participants (p ∷ ps) = insert_participant p (sort_participants ps)

-- The room of a key that SCAN found.
unfoldable pub room_of_key : Reply → Str
unfolding trim_prefix trim_suffix redis_string
room_of_key key =
    trim_suffix (lit ":presence") (trim_prefix (lit "livecollab:room:") (redis_string key))

unfoldable pub rooms_of : Replies → List Str
unfolding room_of_key
rooms_of end = []
rooms_of (item key keys) = room_of_key key ∷ rooms_of keys

-- ScanPresenceRooms, on what the SCAN ends with: the rooms and the next cursor.
unfoldable pub scan_presence_rooms : Result Reply → Result (List Str × Str)
unfolding rooms_of redis_string
scan_presence_rooms (err e) = err e
scan_presence_rooms (ok (arr (item next (item (arr keys) end)))) =
    ok (rooms_of keys, redis_string next)
scan_presence_rooms (ok _) = err unexpected_reply

-- The loop of ReadPresenceChanges over the entries: the last ID, and whether an entry is malformed.
unfoldable pub last_change : Str → Replies → Str × Bool
last_change cursor end = (cursor, true)
last_change cursor (item (arr (item id (item fields end))) entries) =
    last_change (redis_string id) entries
last_change cursor (item _ entries) = (cursor, false)

-- ReadPresenceChanges, on what the XREAD ends with: the cursor, and whether the error is nil.
unfoldable pub read_presence_changes : Str → Result Reply → Str × Bool
unfolding last_change
read_presence_changes cursor (err e) = (cursor, false)
read_presence_changes cursor (ok nil) = (cursor, true)
read_presence_changes cursor (ok (arr (item (arr (item name (item (arr entries) end))) end))) =
    last_change cursor entries
read_presence_changes cursor (ok _) = (cursor, false)

module _ (R : Redis) (C : Collections R) (J : Json) where
  open R use {Db}
  open J use {marshal, unmarshal}

  -- JoinPresence; the lease may be left out.
  unfoldable pub join_presence :
      Wire → Clock → Str → Participant → Option Int64 → Action Db (Unit {0})
  unfolding milliseconds_of
  join_presence wire clock room participant lease =
      let duration = milliseconds_of (or_value lease default_presence_lease) in
      if str_eq participant.connection_id []
      then lift (err refused)
      else if le64 duration 0
      then lift (err refused)
      else (send wire (
            join_script R C clock room participant.connection_id (marshal participant)
              (format_int duration))
          >> pure tt)

  -- LeavePresence.
  unfoldable pub leave_presence : Wire → Str → Str → Action Db (Unit {0})
  leave_presence wire room connection_id =
      send wire (leave_script R C room connection_id) >> pure tt

  -- RenewPresence.
  unfoldable pub renew_presence : Wire → Clock → Str → Str → Int64 → Action Db Bool
  unfolding milliseconds_of redis_int64
  renew_presence wire clock room connection_id lease =
      if le64 (milliseconds_of lease) 0 then lift (err refused) else do
        raw ←
            send wire
              (renew_script R C clock room connection_id (format_int (milliseconds_of lease)))
        renewed ← lift (redis_int64 raw)
        pure (renewed == 1)

  -- PrunePresence.
  unfoldable pub prune_presence : Wire → Clock → Str → Action Db Int64
  unfolding redis_int64
  prune_presence wire clock room = do
    raw ← send wire (prune_script R C clock room)
    lift (redis_int64 raw)

  -- The records of a snapshot.
  unfoldable pub parse_participants : Replies → Result (List Participant)
  parse_participants end = ok []
  parse_participants (item r rs) =
      Result.◌>>=◌ (unmarshal (redis_string r))
        λ participant. Result.◌>>=◌ (parse_participants rs) λ rest. ok (participant ∷ rest)

  unfoldable pub snapshot_of_reply : Reply → Result PresenceSnapshot
  unfolding redis_int64 parse_participants sort_participants
  snapshot_of_reply (arr (item revision_raw (item (arr records) end))) =
      Result.◌>>=◌ (redis_int64 revision_raw) λ revision.
        Result.◌>>=◌ (parse_participants records) λ participants.
          ok (record { revision = revision; participants = sort_participants participants })
  snapshot_of_reply (arr (item revision_raw (item _ end))) =
      Result.◌>>=◌ (redis_int64 revision_raw) λ revision. err unexpected_reply
  snapshot_of_reply _ = err unexpected_reply

  -- GetPresence.
  unfoldable pub get_presence : Wire → Clock → Str → Action Db PresenceSnapshot
  unfolding snapshot_of_reply
  get_presence wire clock room = do
    raw ← send wire (snapshot_script R C clock room)
    lift (snapshot_of_reply raw)

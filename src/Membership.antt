-- ===== src/Membership.antt =====
-- redis_presence.go: who is present in a room, in four keys of Redis, and the scripts that change
-- them. A script runs as one atomic step at one reading of the clock. Counts of members are exact
-- in Lua.
pub mod Calls
pub mod Spec
pub mod Members
pub mod Steps
pub mod LeaseSteps
pub mod Announce
pub mod Sweep
pub mod Prune
pub mod Refine
pub mod History
pub mod Snapshot
pub mod Sorted
pub mod Results
pub mod Run
pub mod PlainJson
pub mod Examples
use live_collab.Base.{
  ℕ, ◌+◌, ◌/◌, Bool, true, false, not, ◌||◌, List, [], ◌∷◌, Option, none, some, Int64, Str, lit,
  le64, str_eq, ◌==◌, if◌then◌else◌, ◌≡◌,
}
use live_collab.Base.Result
use live_collab.Base.Result.{Result, ok, err, unexpected_reply, parse_error, refused}
use live_collab.Base.Decimal.{format_int}
use live_collab.Message.{Participant, PresenceSnapshot}
use live_collab.Reply.{Reply, nil, text, int, arr, Replies, end, item, redis_string, redis_int64}
use live_collab.Redis.{Redis}
use live_collab.Redis.Collections.{Collections, Clock}
use live_collab.Keys.{
  room_presence_key, room_presence_revision_key, room_presence_stream_key, room_presence_expiry_key,
}
use live_collab.Store.{
  Wire, Action, and_then, ◌>>=◌, ◌>>◌, pure, lift, send, to_number, number_at, text_at,
}

-- encoding/json on a Participant: the text, and what is read back.
pub record Json : Type 1 where
  pub marshal : Participant → Str
  pub unmarshal : Str → Result Participant
  -- texts that are valid UTF-8 are read back as they were
  pub IsText : Participant → Type 0
  pub unmarshal-marshal : (p : Participant) → IsText p → unmarshal (marshal p) ≡ ok p

unfoldable pub texts : List Str → Replies
texts [] = end
texts (s ∷ ss) = item (text s) (texts ss)

unfoldable pub or_zero : Reply → Reply
or_zero nil = text (lit "0")
or_zero v = v

module _ (R : Redis) (C : Collections R) where
  open R use {Db, incr, xadd, Num, number, tostring, to_reply}
  open C use {
    hsetnx, hdel, hexists, hkeys, hvals, zscore, zadd, zadd_xx, zrem, zrem_up_to, add, num_le,
    times_thousand, floor_thousandth,
  }

  abbrev call_hsetnx : Str → Str → Str → Action Db ℕ
  call_hsetnx k f v db = hsetnx db k f v

  abbrev call_hdel : Str → Str → Action Db ℕ
  call_hdel k f db = hdel db k f

  abbrev call_zadd : Str → Num → Str → Action Db ℕ
  call_zadd k s f db = zadd db k s f

  abbrev call_zadd_xx : Str → Num → Str → Action Db ℕ
  call_zadd_xx k s f db = zadd_xx db k s f

  abbrev call_zrem : Str → Str → Action Db ℕ
  call_zrem k f db = zrem db k f

  abbrev call_zrem_up_to : Str → Num → Action Db ℕ
  call_zrem_up_to k n db = zrem_up_to db k n

  abbrev call_incr : Str → Action Db Int64
  call_incr k db = incr db k

  abbrev call_xadd : Str → List Str → Action Db Str
  call_xadd k fields db = xadd db k fields

  -- A command that only reads.
  abbrev reading : {A : Type 0} → (Db → Result A) → Action Db A
  reading f db = (f db, db)

  -- presenceNowScript, on the reply to TIME.
  unfoldable pub presence_now : Clock → Action Db Num
  presence_now clock = do
    seconds ← to_number R (format_int clock.seconds)
    micros ← to_number R (format_int clock.micros)
    pure (add (times_thousand seconds) (floor_thousandth micros))

  -- INCR of the revision and the XADD of its notice, which three scripts end with.
  unfoldable pub announce : Str → Action Db Int64
  announce room = do
    revision ← call_incr (room_presence_revision_key room)
    call_xadd (room_presence_stream_key room) (lit "revision" ∷ tostring (number revision) ∷ [])
    pure revision

  -- return tonumber(redis.call('GET', KEYS[2]) or '0')
  unfoldable pub current_revision : Str → Action Db Reply
  current_revision room = do
    revision ← number_at R (room_presence_revision_key room)
    pure (int (to_reply revision))

  unfoldable pub return_new : Str → Action Db Reply
  unfolding announce
  return_new room = do revision ← announce room; pure (int revision)

  -- joinPresenceScript behind the HSETNX that put in a new field.
  unfoldable pub join_new : Num → Str → Str → Str → Action Db Reply
  unfolding return_new
  join_new now room id lease = do
    duration ← to_number R lease
    call_zadd (room_presence_expiry_key room) (add now duration) id
    return_new room

  -- joinPresenceScript.
  unfoldable pub join_script : Clock → Str → (id participant lease : Str) → Action Db Reply
  unfolding presence_now current_revision join_new
  join_script clock room id participant lease = do
    now ← presence_now clock
    added ← call_hsetnx (room_presence_key room) id participant
    if added == 0 then current_revision room else join_new now room id lease

  -- leavePresenceScript.
  unfoldable pub leave_script : Str → Str → Action Db Reply
  unfolding current_revision return_new
  leave_script room id = do
    removed ← call_hdel (room_presence_key room) id
    call_zrem (room_presence_expiry_key room) id
    if removed == 0 then current_revision room else return_new room

  -- The end of renewPresenceScript, on a lease that has not expired.
  unfoldable pub renew_from : Num → Num → Str → Str → Str → Action Db Reply
  renew_from now expiry room id lease = do
    duration ← to_number R lease
    if num_le (add now duration) expiry
        then pure (int 1)
        else (call_zadd_xx (room_presence_expiry_key room) (add now duration) id >> pure (int 1))

  -- The rest of renewPresenceScript, on the replies to ZSCORE and HEXISTS.
  unfoldable pub renew_found : Num → Str → Str → Str → Reply → Action Db Reply
  unfolding renew_from
  renew_found now room id lease (text score) = do
    expiry ← to_number R score
    if num_le expiry now then pure (int 0) else renew_from now expiry room id lease
  renew_found now room id lease _ = pure (int 0)

  -- renewPresenceScript.
  unfoldable pub renew_script : Clock → Str → (id lease : Str) → Action Db Reply
  unfolding presence_now renew_found
  renew_script clock room id lease = do
    now ← presence_now clock
    score ← reading (λ db. zscore db (room_presence_expiry_key room) id)
    exists ← reading (λ db. hexists db (room_presence_key room) id)
    if exists == 0 then pure (int 0) else renew_found now room id lease score

  -- not expiry or tonumber(expiry) <= now
  unfoldable pub has_expired : Num → Reply → Action Db Bool
  has_expired now (text score) = do expiry ← to_number R score; pure (num_le expiry now)
  has_expired now _ = pure true

  unfoldable pub expel : Str → Str → Action Db ℕ
  expel room id = do
    removed ← call_hdel (room_presence_key room) id
    call_zrem (room_presence_expiry_key room) id
    pure removed

  -- The loop of prunePresenceBody over the fields.
  unfoldable pub prune_loop : Num → Str → List Str → ℕ → Action Db ℕ
  unfolding has_expired expel
  prune_loop now room [] removed = pure removed
  prune_loop now room (id ∷ ids) removed = do
    score ← reading (λ db. zscore db (room_presence_expiry_key room) id)
    expired ← has_expired now score
    gone ← (if expired then expel room id else pure 0)
    prune_loop now room ids (removed + gone)

  announce_if : ℕ → Str → Action Db Int64
  unfolding announce
  announce_if removed room = if removed == 0 then pure 0 else announce room

  -- prunePresenceBody, with the number of members removed.
  unfoldable pub prune_body : Clock → Str → Action Db ℕ
  unfolding presence_now prune_loop announce_if
  prune_body clock room = do
    now ← presence_now clock
    ids ← reading (λ db. hkeys db (room_presence_key room))
    removed ← prune_loop now room ids 0
    call_zrem_up_to (room_presence_expiry_key room) now
    announce_if removed room
    pure removed

  -- prunePresenceScript and presenceSnapshotScript.
  unfoldable pub prune_script : Clock → Str → Action Db Reply
  unfolding prune_body
  prune_script clock room = do removed ← prune_body clock room; pure (int removed)

  unfoldable pub snapshot_script : Clock → Str → Action Db Reply
  unfolding prune_body or_zero texts
  snapshot_script clock room = do
    prune_body clock room
    revision ← reading (λ db. R.get db (room_presence_revision_key room))
    values ← reading (λ db. hvals db (room_presence_key room))
    pure (arr (item (or_zero revision) (item (arr (texts values)) end)))

-- ===== src/Manager/PresenceWatch.antt =====
-- ensurePresenceWatcher and watchPresence of presence.go: the watcher that shows a backend's
-- clients who is in a room.
pub mod Shown
use live_collab.Base.{
  ℕ, Bool, true, false, not, List, [], ◌∷◌, Str, lit, str_eq, contains, if◌then◌else◌,
}
use live_collab.Base.Result.{Result, ok, err}
use live_collab.Message.{PresenceSnapshot}
use live_collab.Reply.{Reply}
use live_collab.Transport.{Transport}
use live_collab.Client.{Client}
use live_collab.Room.{Room, broadcast_presence_snapshot}
use live_collab.Membership.Calls.{read_presence_changes}

-- ensurePresenceWatcher: the rooms that are watched, and whether a watcher starts.
unfoldable pub ensure_presence_watcher : Bool → List Str → Str → List Str × Bool
ensure_presence_watcher has_store watchers id =
    if not has_store
    then (watchers, false)
    else if contains id watchers
    then (watchers, false)
    else (id ∷ watchers, true)

-- What the watcher changes: the clients and its own cursor.
pub record PresenceWatched (C : Type 0) : Type 0 where
  pub heap : ℕ → Client C
  pub cursor : Str

-- One round: what the XREAD ends with, what GetPresence ends with if it is called, and the room
-- with its clients at that time.
pub record PresenceRound : Type 0 where
  pub room : Room
  pub changes : Result Reply
  pub snapshot : Result PresenceSnapshot

module _ (T : Transport) where
  open T use {Conn}

  -- A change was read. An error of GetPresence keeps the old cursor, so that it is read again.
  unfoldable pub show_presence :
      Room → Str → PresenceWatched Conn → Result PresenceSnapshot → PresenceWatched Conn
  show_presence room next w (ok snapshot) = record {
    heap = broadcast_presence_snapshot T room snapshot w.heap;
    cursor = next;
  }
  show_presence room next w (err e) = w

  unfoldable pub presence_round : PresenceWatched Conn → PresenceRound → PresenceWatched Conn
  unfolding show_presence
  presence_round w round =
      let (next, fine) = read_presence_changes w.cursor round.changes in
      if not fine
      then w
      else if str_eq next w.cursor
      then w
      else show_presence round.room next w round.snapshot

  -- watchPresence, for as many rounds as there are.
  unfoldable pub watch_presence : PresenceWatched Conn → List PresenceRound → PresenceWatched Conn
  unfolding presence_round
  watch_presence w [] = w
  watch_presence w (round ∷ rounds) = watch_presence (presence_round w round) rounds

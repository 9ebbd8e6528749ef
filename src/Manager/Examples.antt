-- ===== src/Manager/Examples.antt =====
-- A watcher that reads two batches with a failed read between, and the theorem at it.
use live_collab.Base.{inl, ℕ, ◌+◌, ◌≡◌, refl, true, false, List, [], ◌∷◌, none, lit, if◌then◌else◌}
use live_collab.Base.{inl, All, Str, str_eq}
use live_collab.Base.Result.{Result, ok, err, redis_error}
use live_collab.Message.{PresenceSnapshot}
use live_collab.Reply.{Reply, nil, text, arr, end, item, redis_string}
use live_collab.Membership.Calls.{read_presence_changes, last_change}
use live_collab.Manager.PresenceWatch.{PresenceRound, PresenceWatched, watch_presence}
use live_collab.Manager.PresenceWatch.Shown.{shown, HasSeen, watch_presence-HasSeen}
use live_collab.Message.{Frame, DistributedEvent}
use live_collab.Transport.Recorder.{recorder}
use live_collab.Client.{Client}
use live_collab.Client.Order.{live_run}
use live_collab.Room.Members.{registered}
use live_collab.Room.Fanout.{Distinct}
use live_collab.Manager.{Watched, first_cursor, watch_room}
use live_collab.Manager.Watch.{offered, cursor_after, watch_room-live_run}

abbrev client : Client (List Frame)
client = record {
  conn = [];
  username = lit "ann";
  room_id = lit "a1b2c3";
  client_id = lit "c1";
  connection_id = lit "k1";
  instance_id = lit "n1";
  presence_revision = 0;
  presence_sent = false;
  replaying = false;
  last_sequence = 0;
  pending = none;
}

abbrev event : ℕ → DistributedEvent
event n = record {
  stream_id = (b'0' + n) ∷ lit "-0";
  sequence = n;
  version = n;
  operation_id = lit "op";
  client_id = lit "c1";
  username = lit "ann";
  content = lit "hello";
}

abbrev watched : Watched (List Frame)
watched = record {
  room = record {
    id = lit "a1b2c3";
    content = lit "hello";
    version = 1;
    sequence = 1;
    clients = 1 ∷ 2 ∷ [];
    has_store = true;
    local_presence_revision = 0;
  };
  heap = λ a. client;
  last_stream_id = first_cursor;
}

abbrev results : List (Result (List DistributedEvent))
results = ok (event 1 ∷ event 2 ∷ []) ∷ err (redis_error (lit "dial")) ∷ ok (event 3 ∷ []) ∷ []

watch_room-live_run_example :
    let w' = watch_room recorder 1 watched results in
    (w'.heap 2 ≡ (
      if registered 2 (1 ∷ 2 ∷ [])
      then live_run recorder client (offered 1 (event 1 ∷ event 2 ∷ event 3 ∷ []))
      else client))
    × (w'.last_stream_id ≡ cursor_after first_cursor (event 1 ∷ event 2 ∷ event 3 ∷ []))
watch_room-live_run_example =
    watch_room-live_run recorder 1 (1 ∷ 2 ∷ []) watched results 2 refl refl (refl, (refl, tt))

-- A change is read, but the presence is not; then both are; then nothing has changed.
abbrev one_change : Str → Reply
one_change id = arr (
    item
      (arr (
        item (text (lit "stream"))
          (item (arr (item (arr (item (text id) (item (arr end) end))) end)) end)))
      end)

abbrev presence_round_of : Reply → Result PresenceSnapshot → PresenceRound
presence_round_of changes snapshot = record {
  room = watched.room;
  changes = ok changes;
  snapshot = snapshot;
}

abbrev presence_rounds : List PresenceRound
presence_rounds =
    presence_round_of (one_change (lit "7-0")) (err (redis_error (lit "dial")))
    ∷ presence_round_of (one_change (lit "7-0")) (ok (record { revision = 2; participants = [] }))
    ∷ presence_round_of nil (err (redis_error (lit "dial")))
    ∷ []

abbrev presence_watched : PresenceWatched (List Frame)
presence_watched = record { heap = λ a. client; cursor = first_cursor }

watch_presence-HasSeen_example :
    let w' = watch_presence recorder presence_watched presence_rounds in
    All (HasSeen recorder (w'.heap 2)) (shown first_cursor presence_rounds).0
    × (w'.cursor ≡ (shown first_cursor presence_rounds).1)
watch_presence-HasSeen_example =
    watch_presence-HasSeen recorder 2 presence_rounds presence_watched (λ c f. refl) (inl refl)
      (here, refl, (here, refl, (here, refl, tt)))
  where
    here : Distinct watched.room.clients
    here = (refl, (refl, tt))

presence_shown :
    shown first_cursor presence_rounds
    ≡ (record { revision = 2; participants = [] } ∷ [], lit "7-0")
unfolding read_presence_changes last_change redis_string str_eq
presence_shown = refl

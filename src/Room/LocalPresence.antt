-- ===== src/Room/LocalPresence.antt =====
-- The presence of a room without Redis: localPresenceSnapshot of presence.go and BroadcastPresence
-- of room.go.
use live_collab.Base.{map, if◌then◌else◌}
use live_collab.Message.{PresenceSnapshot}
use live_collab.Transport.{Transport}
use live_collab.Client.{participant}
use live_collab.Room.{Room, Heap, broadcast_presence_snapshot}
use live_collab.Membership.Calls.{sort_participants}

module _ (T : Transport) where
  unfoldable pub local_presence_snapshot : Heap T → Room → PresenceSnapshot
  unfolding sort_participants participant
  local_presence_snapshot h r = record {
    revision = r.local_presence_revision;
    participants = sort_participants (map (λ a. participant (h a)) r.clients);
  }

  unfoldable pub broadcast_presence : Heap T → Room → Heap T
  unfolding local_presence_snapshot broadcast_presence_snapshot
  broadcast_presence h r =
      if r.has_store then h else broadcast_presence_snapshot T r (local_presence_snapshot h r) h

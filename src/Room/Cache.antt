-- ===== src/Room/Cache.antt =====
-- The cached document of a room under the events of the stream watcher and the snapshots of the
-- store, in whatever order they reach it.
use Prim.Native.Nat.{max}
use live_collab.Base.{ℕ, ◌≡◌, refl, ◌∙◌, ap, List, [], ◌∷◌, All, arith, Int64, rank64}
use live_collab.Message.{RoomSnapshot, DistributedEvent}
use live_collab.Room.{Room, apply_distributed_event, apply_snapshot, snapshot_of}

-- What reaches the cache: an event of the stream, or a snapshot (of GetSnapshot, or with the
-- result of an operation).
pub data Update : Type 0 where
  event : DistributedEvent → Update
  snapshot : RoomSnapshot → Update

unfoldable pub apply_update : Room → Update → Room
apply_update r (event e) = (apply_distributed_event r e).0
apply_update r (snapshot s) = apply_snapshot r s

unfoldable pub apply_updates : Room → List Update → Room
apply_updates r [] = r
apply_updates r (u ∷ us) = apply_updates (apply_update r u) us

abbrev pub state_of : Update → RoomSnapshot
state_of (event e) = record { content = e.content; version = e.version; sequence = e.sequence }
state_of (snapshot s) = s

-- The newest sequence among a first one and the updates.
abbrev pub newest : ℕ → List Update → ℕ
newest n [] = n
newest n (u ∷ us) = newest (max n (rank64 (state_of u).sequence)) us

module _ (history : Int64 → RoomSnapshot) where
  -- A state is the one that the history has at its sequence.
  abbrev pub FromHistory : RoomSnapshot → Type 0
  FromHistory s = s ≡ history s.sequence

  update_lem :
      (r : Room) (u : Update)
      → FromHistory (snapshot_of r)
      → FromHistory (state_of u)
      → FromHistory (snapshot_of (apply_update r u))
        × (rank64 (apply_update r u).sequence
            ≡ max (rank64 r.sequence) (rank64 (state_of u).sequence))
  unfolding apply_update apply_distributed_event apply_snapshot
  update_lem r (event e) h k = ground arith
  update_lem r (snapshot s) h k = ground arith

  -- Events and snapshots of one history, in any order, late ones and repeated ones among them,
  -- leave the cache at the newest sequence that reached it, with the content and version that the
  -- history has there.
  pub cache_converges :
      (r : Room) (us : List Update)
      → FromHistory (snapshot_of r)
      → All (λ u. FromHistory (state_of u)) us
      → (snapshot_of (apply_updates r us) ≡ history (apply_updates r us).sequence)
        × (rank64 (apply_updates r us).sequence ≡ newest (rank64 r.sequence) us)
  unfolding apply_updates
  cache_converges r [] h k = (h, refl)
  cache_converges r (u ∷ us) h k =
      let (h', e) = update_lem r u h k.0 in
      let (done, new) = cache_converges (apply_update r u) us h' k.1 in
      (done, new ∙ ap (λ n. newest n us) e)

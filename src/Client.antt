-- ===== src/Client.antt =====
-- client.go and the socket part of presence.go: one WebSocket client, and the hand-over from
-- replayed history to live delivery. The locks make each function one atomic step. The pending
-- map is an association list, `none` for the nil map; writing to a nil map is a panic.
pub mod Order
pub mod Buffer
pub mod Handoff
pub mod Idle
pub mod ExactlyOnce
pub mod Examples
use live_collab.Base.{
  ℕ, Bool, true, false, ◌&&◌, List, [], ◌∷◌, Option, none, some, Int64, Str, le64, lt64, ◌==◌,
  if◌then◌else◌,
}
use live_collab.Message.{
  Message, zero_message, Frame, message, presence_update, Participant, PresenceSnapshot,
}
use live_collab.Transport.{Transport}

-- Client. The connection is a value of the transport's type.
pub record Client (C : Type 0) : Type 0 where
  pub conn : C
  pub username : Str
  pub room_id : Str
  pub client_id : Str
  pub connection_id : Str
  pub instance_id : Str
  pub presence_revision : Int64
  pub presence_sent : Bool
  pub replaying : Bool
  pub last_sequence : Int64
  pub pending : Option (List (Int64 × Message))

-- What a method that writes returns beside the client: nil, an error, or no return at all.
pub data Outcome : Type 0 where
  done failed panicked : Outcome

-- m[k] = v on a map that is not nil.
unfoldable pub assign {ℓ} : {V : Type ℓ} → Int64 → V → List (Int64 × V) → List (Int64 × V)
assign k v [] = (k, v) ∷ []
assign k v ((j, w) ∷ m) = if j == k then (k, v) ∷ m else (j, w) ∷ assign k v m

-- m[k], with the zero value on a missing key.
unfoldable pub index : Int64 → List (Int64 × Message) → Message
index k [] = zero_message
index k ((j, w) ∷ m) = if j == k then w else index k m

-- sort.Slice(sequences, <) on int64.
insert_sequence : Int64 → List Int64 → List Int64
insert_sequence s [] = s ∷ []
insert_sequence s (t ∷ ts) = if lt64 t s then t ∷ insert_sequence s ts else s ∷ t ∷ ts

pub sort_sequences : List Int64 → List Int64
unfolding insert_sequence
sort_sequences [] = []
sort_sequences (s ∷ ss) = insert_sequence s (sort_sequences ss)

-- The keys of the pending map above the boundary, as the first loop of finishReplay collects them.
pub pending_above : Int64 → List (Int64 × Message) → List Int64
pending_above last [] = []
pending_above last ((s, m) ∷ rest) =
    if lt64 last s then s ∷ pending_above last rest else pending_above last rest

pub entries : Option (List (Int64 × Message)) → List (Int64 × Message)
entries none = []
entries (some m) = m

module _ (T : Transport) where
  open T use {Conn, write_json}

  -- WriteJSON.
  unfoldable pub write_frame : Client Conn → Frame → Client Conn × Bool
  write_frame c f =
      let (conn', sent_ok) = write_json c.conn f in (record c { conn = conn' }, sent_ok)

  -- beginReplay.
  unfoldable pub begin_replay : Client Conn → Int64 → Client Conn
  begin_replay c last = record c { replaying = true; last_sequence = last; pending = some [] }

  -- c.pending[message.Sequence] = message.
  buffer : Client Conn → Message → Option (List (Int64 × Message)) → Client Conn × Outcome
  buffer c m none = (c, panicked)
  buffer c m (some p) = (record c { pending = some (assign m.sequence m p) }, done)

  deliver : Client Conn → Message → Client Conn × Outcome
  unfolding write_frame
  deliver c m =
      let (c', sent_ok) = write_frame c (message m) in
      if sent_ok then (record c' { last_sequence = m.sequence }, done) else (c', failed)

  -- writeContentUpdate.
  unfoldable pub write_content_update : Client Conn → Message → Client Conn × Outcome
  unfolding buffer deliver assign
  write_content_update c m =
      if le64 m.sequence c.last_sequence
      then (c, done)
      else if c.replaying
      then buffer c m c.pending
      else deliver c m

  -- The second loop of finishReplay and the two resets behind it.
  pub flush : Client Conn → List Int64 → Client Conn × Outcome
  unfolding deliver
  flush c [] = (record c { pending = none; replaying = false }, done)
  flush c (s ∷ ss) =
      let (c', sent_ok) = write_frame c (message (index s (entries c.pending))) in
      let rest = flush (record c' { last_sequence = s }) ss in
      if sent_ok then rest else (c', failed)

  -- finishReplay.
  unfoldable pub finish_replay : Client Conn → Message → Client Conn × Outcome
  unfolding flush pending_above sort_sequences write_frame entries index
  finish_replay c complete =
      let (c', sent_ok) = write_frame c (message complete) in
      let last = complete.latest_sequence in
      if sent_ok
      then flush (record c' { last_sequence = last })
          (sort_sequences (pending_above last (entries c'.pending)))
      else (c', failed)

  -- writePresence.
  unfoldable pub write_presence : Client Conn → PresenceSnapshot → Client Conn × Outcome
  unfolding write_frame
  write_presence c snapshot =
      if c.presence_sent && le64 snapshot.revision c.presence_revision
      then (c, done)
      else (let (c', sent_ok) = write_frame c (presence_update snapshot) in
          if sent_ok
          then (record c' { presence_revision = snapshot.revision; presence_sent = true }, done)
          else (c', failed))

-- participant.
unfoldable pub participant : {C : Type 0} → Client C → Participant
participant c = record {
  connection_id = c.connection_id;
  client_id = c.client_id;
  username = c.username;
  instance_id = c.instance_id;
}

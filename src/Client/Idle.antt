-- ===== src/Client/Idle.antt =====
-- finishReplay of client.go when no live message came during the replay.
use live_collab.Base.{
  both_branches, List, Option, none, arith, le64, Int64, ◌≡◌, refl, true, false, [], ◌∷◌, ◌++◌,
  some,
}
use live_collab.Message.{Message, Frame, message}
use live_collab.Transport.{Transport}
use live_collab.Client.{
  Client, Outcome, done, buffer, deliver, write_content_update, write_frame, finish_replay, flush,
  pending_above, sort_sequences, entries,
}

module _ (T : Transport) (reliable : (c : T.Conn) (f : Frame) → (T.write_json c f).1 ≡ true) where
  open T use {Conn, write_json, sent, write_json-ok}

  -- finishReplay on a client for which no live message has come.
  pub finish_idle :
      (c : Client Conn) (m : Message)
      → c.pending ≡ some []
      → let f = finish_replay T c m in
        (f.1 ≡ done)
        × (sent f.0.conn ≡ sent c.conn ++ message m ∷ [])
        × (f.0.replaying ≡ false)
        × (f.0.last_sequence ≡ m.latest_sequence)
  unfolding finish_replay flush pending_above sort_sequences write_frame entries
  finish_idle c m p =
      rw (reliable c.conn (message m), p)
        (refl, write_json-ok c.conn (message m) (reliable c.conn (message m)), refl, refl)

-- A live write leaves the client's connection ID.
module _ (T : Transport) where
  open T use {Conn}

  buffer_id :
      (c : Client Conn) (m : Message) (o : Option (List (Int64 × Message)))
      → (buffer T c m o).0.connection_id ≡ c.connection_id
  unfolding buffer
  buffer_id c m none = refl
  buffer_id c m (some p) = refl

  pub write_content_update_id :
      (c : Client Conn) (m : Message)
      → (write_content_update T c m).0.connection_id ≡ c.connection_id
  unfolding write_content_update deliver write_frame
  write_content_update_id c m =
      both_branches {A = Client Conn × Outcome} (λ x. x.0.connection_id ≡ c.connection_id)
        (le64 m.sequence c.last_sequence) refl
        (both_branches {A = Client Conn × Outcome} (λ x. x.0.connection_id ≡ c.connection_id)
          c.replaying (buffer_id c m c.pending) (ground arith))

-- ===== src/Client/Order.antt =====
-- writeContentUpdate of client.go: the order of live delivery, and why the pending map is never nil
-- when it is written. writePresence of presence.go: the order of presence revisions.
use live_collab.Base.{
  ℕ, ◌<◌, ◌≤◌, ◌≡◌, refl, sym, ◌∙◌, ◌≢◌, ◌⊎◌, inl, inr, Bool, true, false, List, [], ◌∷◌, ◌++◌, map,
  append-nil, append_assoc, Option, none, arith, Int64, rank64, lt64, keep, ap, Bool-cases,
  if◌then◌else◌,
}
use live_collab.Message.{Message, Frame, message, presence_update, PresenceSnapshot}
use live_collab.Transport.{Transport}
use live_collab.Client.{
  Client, panicked, write_content_update, begin_replay, finish_replay, write_presence, flush, index,
  entries, sort_sequences, pending_above,
}

-- The signed order of the sequences rises strictly along the list, from a bound below.
abbrev pub Rising : ℕ → List Message → Type 0
Rising lo [] = Unit {0}
Rising lo (m ∷ ms) = (lo < rank64 m.sequence) × Rising (rank64 m.sequence) ms

-- The same for the revisions of presence snapshots.
abbrev pub RisingRevisions : ℕ → List PresenceSnapshot → Type 0
RisingRevisions lo [] = Unit {0}
RisingRevisions lo (p ∷ ps) = (lo < rank64 p.revision) × RisingRevisions (rank64 p.revision) ps

-- The messages above a sequence.
abbrev pub later : Int64 → List Message → List Message
later last = keep (λ m. lt64 last m.sequence)

pub Rising-mono : {lo hi : ℕ} (ms : List Message) → lo ≤ hi → Rising hi ms → Rising lo ms
Rising-mono [] h r = tt
Rising-mono (m ∷ ms) h r = (omega arith, r.1)

-- Of a run that rises from a sequence, nothing is left out.
pub later_all : (last : Int64) (ms : List Message) → Rising (rank64 last) ms → later last ms ≡ ms
later_all last [] r = refl
later_all last (m ∷ ms) r = ground (arith, later_all last ms (Rising-mono ms (omega arith) r.1))

pub lt64→le : (a b : Int64) → lt64 a b ≡ true → rank64 a ≤ rank64 b
lt64→le a b h = ground arith

-- The first list is the second with some elements left out.
pub data Within {ℓ} {A : Type ℓ} : List A → List A → Type ℓ where
  nil : Within [] []
  take_it : {x : A} {xs ys : List A} → Within xs ys → Within (x ∷ xs) (x ∷ ys)
  leave_it : {y : A} {xs ys : List A} → Within xs ys → Within xs (y ∷ ys)

module _ (T : Transport) where
  open T use {Conn, write_json, sent, write_json-ok, write_json-err}

  -- BroadcastJSON seen from one client: its result is printed, and the next message comes.
  unfoldable pub live_run : Client Conn → List Message → Client Conn
  live_run c [] = c
  live_run c (m ∷ ms) = live_run (write_content_update T c m).0 ms

  -- One live write: the message is sent and becomes the last one, or nothing changes in order.
  live_step :
      (c : Client Conn) (m : Message)
      → c.replaying ≡ false
      → let c' = (write_content_update T c m).0 in
        (c'.replaying ≡ false)
        × (((sent c'.conn ≡ sent c.conn ++ message m ∷ [])
              × (c'.last_sequence ≡ m.sequence)
              × (rank64 c.last_sequence < rank64 m.sequence))
            ⊎ ((sent c'.conn ≡ sent c.conn) × (c'.last_sequence ≡ c.last_sequence)))
  unfolding write_content_update
  live_step c m live =
      ground (arith, write_json-ok c.conn (message m), write_json-err c.conn (message m))

  -- A client that is live is sent, of any messages in any order, with repetitions and failed
  -- writes, only some of them, each after the last and in strictly rising order of sequence.
  pub live_run-Rising :
      (c : Client Conn) (ms : List Message)
      → c.replaying ≡ false
      → (out : List Message) × (sent (live_run c ms).conn ≡ sent c.conn ++ map message out)
        × Rising (rank64 c.last_sequence) out
        × Within out ms
  unfolding live_run
  live_run-Rising c [] live = ([], sym (append-nil (sent c.conn)), tt, nil)
  live_run-Rising c (m ∷ ms) live =
      let c' = (write_content_update T c m).0 in
      let (still, how) = live_step c m live in
      let (out, wire, rising, within) = live_run-Rising c' ms still in
      elim how [
        | inl (w, l, lt) ↦ (
          m ∷ out,
          wire ∙ rw w (append_assoc (sent c.conn) (message m ∷ []) (map message out)),
          (lt, rw l at rising),
          take_it within,
        )
        | inr (w, l) ↦ (out, rw w at wire, rw l at rising, leave_it within)
      ]

  -- One live write when the connection takes every frame: it is sent exactly if it is newer.
  live_step_reliable :
      ((c : Conn) (f : Frame) → (write_json c f).1 ≡ true)
      → (c : Client Conn) (m : Message) → c.replaying ≡ false
      → let c' = (write_content_update T c m).0 in
        (c'.replaying ≡ false)
        × (sent c'.conn
            ≡ sent c.conn ++ (if lt64 c.last_sequence m.sequence then message m ∷ [] else []))
        × (c'.last_sequence
            ≡ (if lt64 c.last_sequence m.sequence then m.sequence else c.last_sequence))
  unfolding write_content_update
  live_step_reliable reliable c m live = ground (
    arith,
    reliable c.conn (message m),
    write_json-ok c.conn (message m),
    append-nil (sent c.conn),
  )

  -- When the connection takes every frame, a live client that is offered messages in rising order
  -- is sent exactly those above its last sequence, in that order.
  pub live_run_complete :
      ((c : Conn) (f : Frame) → (write_json c f).1 ≡ true)
      → (c : Client Conn) (ms : List Message) (lo : ℕ) → c.replaying ≡ false
      → Rising lo ms
      → sent (live_run c ms).conn ≡ sent c.conn ++ map message (later c.last_sequence ms)
  unfolding live_run
  live_run_complete reliable c [] lo live rising = sym (append-nil (sent c.conn))
  live_run_complete reliable c (m ∷ ms) lo live rising =
      let c' = (write_content_update T c m).0 in
      let (still, w, l) = live_step_reliable reliable c m live in
      let ih = live_run_complete reliable c' ms (rank64 m.sequence) still rising.1 in
      elim (Bool-cases (lt64 c.last_sequence m.sequence)) [
        | inl new ↦
            let w' : sent c'.conn ≡ sent c.conn ++ message m ∷ [] = rw new at w in
            let l' : c'.last_sequence ≡ m.sequence = rw new at l in
            ih
            ∙ rw (new, w', l')
                (append_assoc (sent c.conn) (message m ∷ []) _
                  ∙ ap (λ xs. sent c.conn ++ message m ∷ map message xs)
                      (later_all m.sequence ms rising.1
                        ∙ sym (
                            later_all c.last_sequence ms
                              (Rising-mono ms (lt64→le _ _ new) rising.1))))
        | inr old ↦
            let w' : sent c'.conn ≡ sent c.conn = (rw old at w) ∙ append-nil (sent c.conn) in
            let l' : c'.last_sequence ≡ c.last_sequence = rw old at l in rw old (rw (w', l') at ih)
      ]

  -- Presence snapshots offered to one socket, initial and broadcast ones alike.
  unfoldable pub presence_run : Client Conn → List PresenceSnapshot → Client Conn
  presence_run c [] = c
  presence_run c (p ∷ ps) = presence_run (write_presence T c p).0 ps

  presence_step :
      (c : Client Conn) (p : PresenceSnapshot)
      → c.presence_sent ≡ true
      → let c' = (write_presence T c p).0 in
        (c'.presence_sent ≡ true)
        × (((sent c'.conn ≡ sent c.conn ++ presence_update p ∷ [])
              × (c'.presence_revision ≡ p.revision)
              × (rank64 c.presence_revision < rank64 p.revision))
            ⊎ ((sent c'.conn ≡ sent c.conn) × (c'.presence_revision ≡ c.presence_revision)))
  unfolding write_presence
  presence_step c p was =
      ground
        (arith, write_json-ok c.conn (presence_update p), write_json-err c.conn (presence_update p))

  -- Once a snapshot has been sent on a socket, no delayed one follows a newer one: of any
  -- snapshots offered, those sent rise strictly in revision.
  pub presence_run-Rising :
      (c : Client Conn) (ps : List PresenceSnapshot)
      → c.presence_sent ≡ true
      → (out : List PresenceSnapshot) × (sent (presence_run c ps).conn
          ≡ sent c.conn ++ map presence_update out)
        × RisingRevisions (rank64 c.presence_revision) out
        × Within out ps
  unfolding presence_run
  presence_run-Rising c [] was = ([], sym (append-nil (sent c.conn)), tt, nil)
  presence_run-Rising c (p ∷ ps) was =
      let c' = (write_presence T c p).0 in
      let (still, how) = presence_step c p was in
      let (out, wire, rising, within) = presence_run-Rising c' ps still in
      elim how [
        | inl (w, l, lt) ↦ (
          p ∷ out,
          wire
              ∙ rw w
                  (append_assoc (sent c.conn) (presence_update p ∷ []) (map presence_update out)),
          (lt, rw l at rising),
          take_it within,
        )
        | inr (w, l) ↦ (out, rw w at wire, rw l at rising, leave_it within)
      ]

  -- While a client replays, its pending map is there.
  abbrev buffered : Bool → Option (List (Int64 × Message)) → Bool
  buffered true none = false
  buffered _ _ = true

  abbrev pub HasBuffer : Client Conn → Type 0
  HasBuffer c = buffered c.replaying c.pending ≡ true

  flush-HasBuffer :
      (c : Client Conn) (ss : List Int64)
      → HasBuffer c
      → HasBuffer (flush T c ss).0 × ((flush T c ss).1 ≢ panicked)
  unfolding flush
  flush-HasBuffer c [] h = ground arith
  flush-HasBuffer c (s ∷ ss) h =
      let w = write_json c.conn (message (index s (entries c.pending))) in
      ground (arith, flush-HasBuffer (record c { conn = w.0; last_sequence = s }) ss h)

  finish_parts :
      (c : Client Conn) (m : Message)
      → HasBuffer c
      → HasBuffer (finish_replay T c m).0 × ((finish_replay T c m).1 ≢ panicked)
  unfolding finish_replay
  finish_parts c m h =
      let w = write_json c.conn (message m) in
      ground (
        arith,
        flush-HasBuffer (record c { conn = w.0; last_sequence = m.latest_sequence })
            (sort_sequences (pending_above m.latest_sequence (entries c.pending))) h,
      )

  -- A client that replays has a pending map: beginReplay gives it one, and every
  -- writeContentUpdate and finishReplay, also one that fails half way, keeps it for as long as the
  -- client replays. On such a client neither of them panics.
  pub buffer_is_there :
      (c : Client Conn) (last : Int64) (m : Message)
      → HasBuffer c
      → HasBuffer (begin_replay T c last)
        × HasBuffer (write_content_update T c m).0
        × ((write_content_update T c m).1 ≢ panicked)
        × HasBuffer (finish_replay T c m).0
        × ((finish_replay T c m).1 ≢ panicked)
  unfolding begin_replay write_content_update
  buffer_is_there c last m h =
      (refl, ground arith, ground arith, (finish_parts c m h).0, (finish_parts c m h).1)

-- ===== src/Client/Handoff.antt =====
-- The replay of ws.go and client.go seen from one client: history is written while live messages
-- arrive, then finishReplay, then live messages again.
use live_collab.Base.{
  ℕ, ◌<◌, ◌≤◌, ◌≡◌, refl, sym, ◌∙◌, ap, true, false, List, [], ◌∷◌, ◌++◌, map, append-nil,
  append_assoc, map-append, none, some, arith, Int64, rank64, lt64, Bool-cases, inl, inr,
  if◌then◌else◌,
}
use live_collab.Message.{Message, Frame, message}
use live_collab.Transport.{Transport}
use live_collab.Client.{
  Client, Outcome, done, failed, write_frame, write_content_update, begin_replay, finish_replay,
  flush, entries,
}
use live_collab.Client.Order.{
  Rising, Rising-mono, later, later_all, lt64→le, live_run, live_run_complete,
}
use live_collab.Client.Buffer.{
  tag, sequences, KeysUpTo, assign_fresh, KeysUpTo-snoc, KeysUpTo-mono, pending_above-tag,
  later-Rising, sort_sequences-Rising, Finds, Finds-tag, Finds-later,
}

-- What happens to a client that replays: the visitor of resumeClient writes an event of the
-- history, or the watcher of the room offers a live message.
pub data Action : Type 0 where
  history : Message → Action
  live : Message → Action

abbrev pub histories : List Action → List Message
histories [] = []
histories (history m ∷ as') = m ∷ histories as'
histories (live m ∷ as') = histories as'

abbrev pub lives : List Action → List Message
lives [] = []
lives (history m ∷ as') = lives as'
lives (live m ∷ as') = m ∷ lives as'

-- The last sequence after a flush of messages.
abbrev pub last_of : Int64 → List Message → Int64
last_of last [] = last
last_of last (m ∷ ms) = last_of m.sequence ms

later-later :
    (a b : Int64) (ms : List Message) → rank64 a ≤ rank64 b → later b (later a ms) ≡ later b ms
later-later a b [] h = refl
later-later a b (m ∷ ms) h = ground (arith, later-later a b ms h)

later-append : (a : Int64) (xs ys : List Message) → later a (xs ++ ys) ≡ later a xs ++ later a ys
later-append a [] ys = refl
later-append a (m ∷ xs) ys = ground (arith, later-append a xs ys)

Rising-append_left : (lo : ℕ) (xs ys : List Message) → Rising lo (xs ++ ys) → Rising lo xs
Rising-append_left lo [] ys r = tt
Rising-append_left lo (m ∷ xs) ys r = (r.0, Rising-append_left (rank64 m.sequence) xs ys r.1)

Rising-append_right : (lo : ℕ) (xs ys : List Message) → Rising lo (xs ++ ys) → Rising lo ys
Rising-append_right lo [] ys r = r
Rising-append_right lo (m ∷ xs) ys r =
    Rising-mono ys (omega arith) (Rising-append_right (rank64 m.sequence) xs ys r.1)

-- What follows a rising run is cut at the run's end as it is cut at the boundary.
later-last_of :
    (b : Int64) (lo : ℕ) (xs ys : List Message)
    → Rising lo (xs ++ ys)
    → later (last_of b (later b xs)) ys ≡ later b ys
later-last_of b lo [] ys r = refl
later-last_of b lo (m ∷ xs) ys r = elim (Bool-cases (lt64 b m.sequence)) [
  | inl e ↦
      let rest = Rising-append_right (rank64 m.sequence) xs ys r.1 in
      let le = lt64→le b m.sequence e in
      rw
        (
          e,
          later_all b xs (Rising-mono xs le (Rising-append_left _ xs ys r.1)),
          ← later_all m.sequence xs (Rising-append_left _ xs ys r.1),
        )
        (later-last_of m.sequence (rank64 m.sequence) xs ys r.1
          ∙ later_all m.sequence ys rest
          ∙ sym (later_all b ys (Rising-mono ys le rest)))
  | inr e ↦ rw e (later-last_of b (rank64 m.sequence) xs ys r.1)
]

-- The wire, once in the order of the writes and once as a whole.
regroup :
    (s h : List Frame) (f : Frame) (xs ys : List Message)
    → ((s ++ h) ++ f ∷ map message xs) ++ map message ys ≡ s ++ (h ++ f ∷ map message (xs ++ ys))
regroup s h f xs ys = simp (append_assoc, map-append)

module _ (T : Transport) where
  open T use {Conn, write_json, sent, write_json-ok, write_json-err}

  -- A failed write of the history ends the replay with an error; BroadcastJSON only prints one.
  unfoldable pub replay_run : Client Conn → List Action → Client Conn × Outcome
  replay_run c [] = (c, done)
  replay_run c (history m ∷ as') =
      let (c', sent_ok) = write_frame T c (message m) in
      let rest = replay_run c' as' in if sent_ok then rest else (c', failed)
  replay_run c (live m ∷ as') = replay_run (write_content_update T c m).0 as'

  module _ (reliable : (c : Conn) (f : Frame) → (write_json c f).1 ≡ true) where
    wire : (c : Conn) (f : Frame) → sent (write_json c f).0 ≡ sent c ++ f ∷ []
    wire c f = write_json-ok c f (reliable c f)

    -- A live message that arrives in order is put at the end of the map, or is old and dropped.
    buffered :
        (c : Client Conn) (m : Message) (p : List (Int64 × Message)) (lo : ℕ)
        → c.replaying ≡ true
        → c.pending ≡ some p
        → KeysUpTo lo p
        → lo < rank64 m.sequence
        → (write_content_update T c m).0 ≡ (
            if lt64 c.last_sequence m.sequence
            then record c { pending = some (p ++ (m.sequence, m) ∷ []) }
            else c)
    unfolding write_content_update
    buffered c m p lo on buf keys lt = ground (arith, assign_fresh m.sequence m lo p keys lt)

    -- While the client replays, history goes out and live messages go to the map.
    replay_run_lem :
        (c : Client Conn) (as' : List Action) (p : List (Int64 × Message)) (lo : ℕ)
        → c.replaying ≡ true
        → c.pending ≡ some p
        → KeysUpTo lo p
        → Rising lo (lives as')
        → let r = replay_run c as' in
          (r.1 ≡ done)
          × (sent r.0.conn ≡ sent c.conn ++ map message (histories as'))
          × (r.0.pending ≡ some (p ++ tag (later c.last_sequence (lives as'))))
          × (r.0.replaying ≡ true)
          × (r.0.last_sequence ≡ c.last_sequence)
    unfolding replay_run write_frame
    replay_run_lem c [] p lo on buf keys rising =
        (refl, sym (append-nil _), buf ∙ ap some (sym (append-nil p)), on, refl)
    replay_run_lem c (history m ∷ as') p lo on buf keys rising =
        let c' : Client Conn = record c { conn = (write_json c.conn (message m)).0 } in
        let (d, w, b, o, l) = replay_run_lem c' as' p lo on buf keys rising in
        rw (reliable c.conn (message m)) (
          d,
          w ∙ rw (wire c.conn (message m)) (append_assoc (sent c.conn) (message m ∷ []) _),
          b,
          o,
          l,
        )
    replay_run_lem c (live m ∷ as') p lo on buf keys (lt, rising) =
        elim (Bool-cases (lt64 c.last_sequence m.sequence)) [
          | inl new ↦
              let c' : Client Conn = record c { pending = some (p ++ (m.sequence, m) ∷ []) } in
              let e : (write_content_update T c m).0 ≡ c' =
                rw new at (buffered c m p lo on buf keys lt) in
              let (d, w, b, o, l) =
                replay_run_lem c' as' (p ++ (m.sequence, m) ∷ []) (rank64 m.sequence) on refl
                  (KeysUpTo-snoc m.sequence m lo p keys (omega arith)) rising in
              rw (replay_run, e, new)
                (d, w, b ∙ ap some (append_assoc p ((m.sequence, m) ∷ []) _), o, l)
          | inr old ↦
              let e : (write_content_update T c m).0 ≡ c =
                rw old at (buffered c m p lo on buf keys lt) in
              rw (replay_run, e, old)
                (replay_run_lem c as' p (rank64 m.sequence) on buf
                  (KeysUpTo-mono p (omega arith) keys) rising)
        ]

    flush_lem :
        (c : Client Conn) (ms : List Message)
        → Finds (entries c.pending) ms
        → let r = flush T c (sequences ms) in
          (r.1 ≡ done)
          × (sent r.0.conn ≡ sent c.conn ++ map message ms)
          × (r.0.replaying ≡ false)
          × (r.0.pending ≡ none)
          × (r.0.last_sequence ≡ last_of c.last_sequence ms)
    unfolding flush
    flush_lem c [] f = (refl, sym (append-nil _), refl, refl, refl)
    flush_lem c (m ∷ ms) f =
        let c' : Client Conn = record c {
          conn = (write_json c.conn (message m)).0;
          last_sequence = m.sequence;
        } in
        let (d, w, o, b, l) = flush_lem c' ms f.1 in
        rw (f.0, reliable c.conn (message m))
          (
            d,
            w ∙ rw (wire c.conn (message m)) (append_assoc (sent c.conn) (message m ∷ []) _),
            o,
            b,
            l,
          )

    -- finishReplay on a map that holds a rising run of messages.
    finish_replay_lem :
        (c : Client Conn) (complete : Message) (ms : List Message) (lo : ℕ)
        → c.pending ≡ some (tag ms)
        → Rising lo ms
        → let b = complete.latest_sequence in
          let r = finish_replay T c complete in
          (r.1 ≡ done)
          × (sent r.0.conn ≡ sent c.conn ++ message complete ∷ map message (later b ms))
          × (r.0.replaying ≡ false)
          × (r.0.last_sequence ≡ last_of b (later b ms))
    unfolding finish_replay
    finish_replay_lem c complete ms lo buf rising =
        let b = complete.latest_sequence in
        let c' : Client Conn = record c {
          conn = (write_json c.conn (message complete)).0;
          last_sequence = b;
          pending = some (tag ms);
        } in
        let found : Finds (tag ms) (later b ms) =
          Finds-later b (tag ms) ms (Finds-tag lo ms rising) in
        let (d, w, o, _, l) = flush_lem c' (later b ms) found in
        rw
          (
            buf,
            reliable c.conn (message complete),
            pending_above-tag b ms,
            sort_sequences-Rising lo (later b ms) (later-Rising b lo ms rising),
          )
          (
            d,
            w
                ∙ rw (wire c.conn (message complete))
                    (append_assoc (sent c.conn) (message complete ∷ []) _),
            o,
            l,
          )

    -- However live messages fall between the writes of the history, a client that resumes from
    -- `last` is sent the history, resume_complete, and then each live message above the boundary
    -- once and in order, whether it came before or after resume_complete. The live messages come
    -- in rising order, `last` is not above the boundary, and the connection takes every frame.
    pub handoff :
        (c : Client Conn) (last : Int64) (as' : List Action) (complete : Message)
        (after : List Message) (lo : ℕ)
        → rank64 last ≤ rank64 complete.latest_sequence
        → Rising lo (lives as' ++ after)
        → let r = replay_run (begin_replay T c last) as' in
          let f = finish_replay T r.0 complete in
          (r.1 ≡ done)
          × (f.1 ≡ done)
          × (sent (live_run T f.0 after).conn
              ≡ sent c.conn
                ++ (map message (histories as')
                    ++ message complete
                      ∷ map message (later complete.latest_sequence (lives as' ++ after))))
    unfolding begin_replay
    handoff c last as' complete after lo le rising =
        let b = complete.latest_sequence in
        let before = Rising-append_left lo (lives as') after rising in
        let (d, w, buf, on, _) =
          replay_run_lem (begin_replay T c last) as' [] lo refl refl tt before in
        let r = (replay_run (begin_replay T c last) as').0 in
        let (d', w', off, l) =
          finish_replay_lem r complete (later last (lives as')) lo buf
            (later-Rising last lo (lives as') before) in
        let f = (finish_replay T r complete).0 in
        let end' =
          live_run_complete T reliable f after lo off
            (Rising-append_right lo (lives as') after rising) in
        let same = later-later last b (lives as') le in
        let cut : later f.last_sequence after ≡ later b after =
          ap (λ x. later x after) (l ∙ ap (last_of b) same)
          ∙ later-last_of b lo (lives as') after rising in
        (
          d,
          d',
          end'
              ∙ rw (cut, w', w, same, later-append b (lives as') after)
                  (regroup (sent c.conn) (map message (histories as')) (message complete)
                    (later b (lives as')) (later b after)),
        )

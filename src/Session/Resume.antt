-- ===== src/Session/Resume.antt =====
-- resumeClient of ws.go against a stream that Redis serves: what a client that reconnects is sent.
use live_collab.Base.{
  ℕ, zero, suc, ◌+◌, ◌-◌, ◌<◌, ◌≤◌, ◌≡◌, refl, sym, ◌∙◌, ap, true, false, List, [], ◌∷◌, ◌++◌, map,
  append-nil, append_assoc, some, arith, int64_limit, Str, length, drop, All, lt64, rank64_nonneg,
  inc64_lem,
}
use live_collab.Base.Result.{Result, ok}
use live_collab.Message.{Frame, message, message_from_distributed_event, DistributedEvent}
use live_collab.Transport.{Transport}
use live_collab.Client.{Client, Outcome, done, write_frame, begin_replay, finish_replay}
use live_collab.Client.Idle.{finish_idle}
use live_collab.Reply.{Reply, arr}
use live_collab.Stream.{replay_boundary, range_of}
use live_collab.Stream.Parse.{replies, entry_reply, IsWord, parse-entry_reply}
use live_collab.Stream.Replay.{Numbered}
use live_collab.Stream.Paging.{Serves, visit_all, replay_complete}
use live_collab.Session.{
  replay_event, conclude_resume, resume_to, resume_client, resume_started, resume_complete,
}

-- The boundary is the newest entry, which the XREVRANGE returns alone.
replay_boundary_lem :
    (b : DistributedEvent)
    → IsWord b
    → replay_boundary (ok (arr (replies (map entry_reply (b ∷ []))))) ≡ ok b
unfolding replay_boundary
replay_boundary_lem b w = rw (parse-entry_reply (b ∷ []) (w, tt))

Numbered-last :
    (a : ℕ) (es : List DistributedEvent) (b : DistributedEvent)
    → Numbered a (es ++ b ∷ [])
    → a + length (es ++ b ∷ []) ≡ b.sequence
Numbered-last a [] b h = omega (arith, h.0)
Numbered-last a (e ∷ es) b h = omega (arith, Numbered-last (a + 1) es b h.1)

length-drop_le {ℓ} : {A : Type ℓ} (n : ℕ) (xs : List A) → length (drop n xs) ≤ length xs
length-drop_le zero xs = omega arith
length-drop_le (suc n) [] = omega arith
length-drop_le (suc n) (x ∷ xs) = omega (arith, length-drop_le n xs)

done_with : {A : Type 0} (f : A × Outcome) → f.1 ≡ done → some f ≡ some (f.0, done)
done_with (a, o) e = ap (λ x. some (a, x)) e

-- The history as the client is sent it.
abbrev pub history_of : List DistributedEvent → List Frame
history_of [] = []
history_of (e ∷ es) = message (message_from_distributed_event e) ∷ history_of es

module _ (T : Transport) (reliable : (c : T.Conn) (f : Frame) → (T.write_json c f).1 ≡ true) where
  open T use {Conn, write_json, sent, write_json-ok}

  wire : (c : Conn) (f : Frame) → sent (write_json c f).0 ≡ sent c ++ f ∷ []
  wire c f = write_json-ok c f (reliable c f)

  -- The callback on a list of events.
  visit_history :
      (c : Client Conn) (n : ℕ) (es : List DistributedEvent)
      → n + length es < int64_limit
      → (c' : Client Conn) × (visit_all (replay_event T) (c, n) es ≡ ((c', n + length es), ok tt))
        × (sent c'.conn ≡ sent c.conn ++ history_of es)
        × (c'.pending ≡ c.pending)
  unfolding replay_event write_frame
  visit_history c n [] h =
      (c, ap (λ k. ((c, k), ok tt)) (omega arith), sym (append-nil (sent c.conn)), refl)
  visit_history c n (e ∷ es) h =
      let f = message (message_from_distributed_event e) in
      let c₁ : Client Conn = record c { conn = (write_json c.conn f).0 } in
      let (c', v, w, p) = visit_history c₁ (n + 1) es (omega arith) in
      let v' : visit_all (replay_event T) (c₁, n + 1) es ≡ ((c', n + length (e ∷ es)), ok tt) =
        v ∙ ap (λ k. ((c', k), ok tt)) (omega arith) in
      (
        c',
        rw (reliable c.conn f, inc64_lem n (omega arith)) v',
        w ∙ rw (wire c.conn f) (append_assoc (sent c.conn) (f ∷ []) (history_of es)),
        p,
      )

  module _ (k : ℕ) (room : Str) (fetch : ℕ → List Str → Result Reply) (old : List DistributedEvent)
      (b : DistributedEvent) (server : Serves k (range_of room b fetch) (old ++ b ∷ []))
      (words : All IsWord (old ++ b ∷ [])) (is_word : IsWord b)
      (small : b.sequence + 1 < int64_limit) where
    abbrev log : List DistributedEvent
    log = old ++ b ∷ []

    -- A client that resumes from a cursor within the stream, with no live message meanwhile, is
    -- sent resume_started, the events after the cursor up to the newest, each once and in order,
    -- and resume_complete with their number; then it is live at the newest sequence. Fuel for each
    -- event of the stream and one more suffices, and the connection takes every frame.
    pub resume_client-served :
        (a fuel last : ℕ) (c : Client Conn)
        → Numbered a log
        → a ≤ last
        → last ≤ b.sequence
        → length log < fuel
        → let missed = drop (last - a) log in
          (c' : Client Conn) × (resume_client T room
              (ok (arr (replies (map entry_reply (b ∷ [])))))
              fetch
              fuel
              (begin_replay T c last)
              last
            ≡ some (c', done))
          × (sent c'.conn
              ≡ sent c.conn
                ++ message (resume_started last b)
                  ∷ (history_of missed ++ message (resume_complete last b (length missed)) ∷ []))
          × (c'.replaying ≡ false)
          × (c'.last_sequence ≡ b.sequence)
    unfolding resume_client resume_to begin_replay write_frame conclude_resume
    resume_client-served a fuel last c num below within enough =
        let whole = Numbered-last a old b num in
        let missed = drop (last - a) log in
        let start : Client Conn = record c {
          conn = (write_json c.conn (message (resume_started last b))).0;
          replaying = true;
          last_sequence = last;
          pending = some [];
        } in
        let few = length-drop_le (last - a) log in
        let (c₁, v₀, w, p) = visit_history start 0 missed (omega arith) in
        let v : visit_all (replay_event T) (start, 0) missed ≡ ((c₁, length missed), ok tt) =
          v₀ ∙ ap (λ n. ((c₁, n), ok tt)) (omega arith) in
        let (d, w', r, l) = finish_idle T reliable c₁ (resume_complete last b (length missed)) p in
        let inside : lt64 b.sequence last ≡ false =
          ground
            (arith, rank64_nonneg last (omega arith), rank64_nonneg b.sequence (omega arith)) in
        let replayed =
          replay_complete (replay_event T) last b small within k room fetch log server words fuel a
            (start, 0) num below whole enough in
        let f = finish_replay T c₁ (resume_complete last b (length missed)) in
        (
          f.0,
          rw
              (
                replay_boundary_lem b is_word,
                inside,
                reliable c.conn (message (resume_started last b)),
                replayed,
                v,
              )
              (done_with f d),
          w'
              ∙ rw (w, wire c.conn (message (resume_started last b)))
                  (append_assoc (sent c.conn ++ message (resume_started last b) ∷ [])
                      (history_of missed) _
                    ∙ append_assoc (sent c.conn) (message (resume_started last b) ∷ []) _),
          r,
          l,
        )

-- ===== src/Manager/Watch.antt =====
-- watchRoom of manager.go: what the clients of a backend are offered from the stream.
use live_collab.Base.{
  ℕ, ◌≡◌, refl, sym, ◌∙◌, ap, ap₂, subst, inl, inr, Bool, true, false, List, [], ◌∷◌, ◌++◌, arith,
  Int64, Str, le64, lit, str_eq_refl, if◌then◌else◌, Bool-cases,
}
use live_collab.Base.Result.{Result, ok, err}
use live_collab.Message.{Message, DistributedEvent, message_from_distributed_event}
use live_collab.Transport.{Transport}
use live_collab.Client.{Client, write_content_update}
use live_collab.Client.Order.{live_run}
use live_collab.Room.{Room, apply_distributed_event, broadcast_json, send_json}
use live_collab.Room.Members.{registered}
use live_collab.Room.Fanout.{Distinct, broadcast_json_lem}
use live_collab.Manager.{Watched, watch_event, watch_events, watch_round, watch_room}

-- The events of all the batches that were read, without the failed reads.
abbrev pub arrived : List (Result (List DistributedEvent)) → List DistributedEvent
arrived [] = []
arrived (err e ∷ rs) = arrived rs
arrived (ok es ∷ rs) = es ++ arrived rs

-- The messages for the events above the sequence at which the watcher started.
abbrev pub offered : Int64 → List DistributedEvent → List Message
offered initial [] = []
offered initial (e ∷ es) =
    if le64 e.sequence initial
    then offered initial es
    else message_from_distributed_event e ∷ offered initial es

-- The cursor after the events.
abbrev pub cursor_after : Str → List DistributedEvent → Str
cursor_after id [] = id
cursor_after id (e ∷ es) = cursor_after e.stream_id es

-- The same clients on a backend with Redis.
abbrev Serving : List ℕ → Room → Type 0
Serving clients r = (r.has_store ≡ true) × (r.clients ≡ clients)

apply-Serving :
    (clients : List ℕ) (r : Room) (e : DistributedEvent)
    → Serving clients r
    → Serving clients (apply_distributed_event r e).0
unfolding apply_distributed_event
apply-Serving clients r e (on, same) = ground arith

module _ (T : Transport) (initial : Int64) where
  open T use {Conn}

  sent_live :
      (r : Room) (e : DistributedEvent) (c : Client Conn)
      → r.has_store ≡ true
      → send_json T r (message_from_distributed_event e) c
        ≡ (write_content_update T c (message_from_distributed_event e)).0
  unfolding send_json
  sent_live r e c on = rw (on, str_eq_refl (lit "content_update"))

  -- The client's write, as the rule of the broadcast has it.
  heap_event :
      (clients : List ℕ) (r : Room) (e : DistributedEvent) (h : ℕ → Client Conn) (a : ℕ)
      → Serving clients r
      → Distinct clients
      → broadcast_json T r (message_from_distributed_event e) h a ≡ (
          if registered a clients
          then (write_content_update T (h a) (message_from_distributed_event e)).0
          else h a)
  heap_event clients r e h a (on, same) d =
      let m = message_from_distributed_event e in
      broadcast_json_lem T r m h a (subst Distinct (sym same) d)
      ∙ ap₂ (λ cs c. if registered a cs then c else h a) same (sent_live r e (h a) on)

  joined :
      (b : Bool) (x c c' : Client Conn) (m : Message) (ms : List Message)
      → c' ≡ (if b then (write_content_update T c m).0 else c)
      → x ≡ (if b then live_run T c' ms else c')
      → x ≡ (if b then live_run T c (m ∷ ms) else c)
  unfolding live_run
  joined true x c c' m ms k h = h ∙ ap (λ q. live_run T q ms) k
  joined false x c c' m ms k h = h ∙ k

  same_client : (b : Bool) (c : Client Conn) → c ≡ (if b then live_run T c [] else c)
  unfolding live_run
  same_client true c = refl
  same_client false c = refl

  event_old :
      (w : Watched Conn) (e : DistributedEvent)
      → le64 e.sequence initial ≡ true
      → watch_event T initial w e ≡ record w { last_stream_id = e.stream_id }
  unfolding watch_event
  event_old w e old = rw old

  event_new :
      (w : Watched Conn) (e : DistributedEvent)
      → le64 e.sequence initial ≡ false
      → let r = (apply_distributed_event w.room e).0 in
        watch_event T initial w e ≡ record w {
          room = r;
          heap = broadcast_json T r (message_from_distributed_event e) w.heap;
          last_stream_id = e.stream_id;
        }
  unfolding watch_event
  event_new w e new = rw new

  events_lem :
      (clients : List ℕ) (w : Watched Conn) (es : List DistributedEvent) (a : ℕ)
      → Serving clients w.room
      → Distinct clients
      → let w' = watch_events T initial w es in
        Serving clients w'.room
        × (w'.heap a ≡ (
            if registered a clients then live_run T (w.heap a) (offered initial es) else w.heap a))
        × (w'.last_stream_id ≡ cursor_after w.last_stream_id es)
  unfolding watch_events
  events_lem clients w [] a s d = (s, same_client (registered a clients) (w.heap a), refl)
  events_lem clients w (e ∷ es) a s d = elim (Bool-cases (le64 e.sequence initial)) [
    | inl old ↦
        rw (watch_events, event_old w e old, old)
          (events_lem clients (record w { last_stream_id = e.stream_id }) es a s d)
    | inr new ↦
        let r = (apply_distributed_event w.room e).0 in
        let m = message_from_distributed_event e in
        let s' = apply-Serving clients w.room e s in
        let h' = broadcast_json T r m w.heap in
        let w₁ : Watched Conn = record w { room = r; heap = h'; last_stream_id = e.stream_id } in
        let (s'', h, i) = events_lem clients w₁ es a s' d in
        rw (watch_events, event_new w e new, new)
          (
            s'',
            joined (registered a clients) _ (w.heap a) (h' a) m (offered initial es)
                (heap_event clients r e w.heap a s' d) h,
            i,
          )
  ]

  offered-append :
      (xs ys : List DistributedEvent)
      → offered initial (xs ++ ys) ≡ offered initial xs ++ offered initial ys
  offered-append [] ys = refl
  offered-append (e ∷ xs) ys = ground (arith, offered-append xs ys)

  live_run-append :
      (c : Client Conn) (ms ns : List Message)
      → live_run T c (ms ++ ns) ≡ live_run T (live_run T c ms) ns
  unfolding live_run
  live_run-append c [] ns = refl
  live_run-append c (m ∷ ms) ns = live_run-append (write_content_update T c m).0 ms ns

  cursor_after-append :
      (id : Str) (xs ys : List DistributedEvent)
      → cursor_after id (xs ++ ys) ≡ cursor_after (cursor_after id xs) ys
  cursor_after-append id [] ys = refl
  cursor_after-append id (e ∷ xs) ys = cursor_after-append e.stream_id xs ys

  -- Two batches one after the other.
  two_batches :
      (b : Bool) (x c c' : Client Conn) (ms ns all : List Message)
      → all ≡ ms ++ ns
      → c' ≡ (if b then live_run T c ms else c)
      → x ≡ (if b then live_run T c' ns else c')
      → x ≡ (if b then live_run T c all else c)
  two_batches true x c c' ms ns all e k h =
      h ∙ ap (λ q. live_run T q ns) k ∙ sym (live_run-append c ms ns) ∙ ap (live_run T c) (sym e)
  two_batches false x c c' ms ns all e k h = h ∙ k

  -- The watcher passes the events that it reads, in order and however they fall into batches and
  -- failed reads between, to each registered client by writeContentUpdate, but for those at or
  -- below the sequence at which it started; other clients are not written to. Its cursor is the
  -- last entry read, whatever ApplyOperation or a snapshot had brought to the cache before. The
  -- room has Redis, and no client is registered twice.
  pub watch_room-live_run :
      (clients : List ℕ) (w : Watched Conn) (results : List (Result (List DistributedEvent)))
      (a : ℕ)
      → w.room.has_store ≡ true
      → w.room.clients ≡ clients
      → Distinct clients
      → let w' = watch_room T initial w results in
        (w'.heap a ≡ (
          if registered a clients
          then live_run T (w.heap a) (offered initial (arrived results))
          else w.heap a))
        × (w'.last_stream_id ≡ cursor_after w.last_stream_id (arrived results))
  unfolding watch_room watch_round
  watch_room-live_run clients w [] a on same d =
      (same_client (registered a clients) (w.heap a), refl)
  watch_room-live_run clients w (err e ∷ rs) a on same d =
      watch_room-live_run clients w rs a on same d
  watch_room-live_run clients w (ok es ∷ rs) a on same d =
      let w₁ = watch_events T initial w es in
      let (s, h, i) = events_lem clients w es a (on, same) d in
      let (h', i') = watch_room-live_run clients w₁ rs a s.0 s.1 d in
      (
        two_batches (registered a clients) _ (w.heap a) (w₁.heap a) (offered initial es)
            (offered initial (arrived rs)) _ (offered-append es (arrived rs)) h h',
        i'
            ∙ ap (λ id. cursor_after id (arrived rs)) i
            ∙ sym (cursor_after-append w.last_stream_id es (arrived rs)),
      )

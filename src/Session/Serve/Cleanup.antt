-- ===== src/Session/Serve/Cleanup.antt =====
-- serveWS of ws.go leaves the clients of a room as they were, on every path.
use live_collab.Base.{
  ℕ, ◌≡◌, refl, ◌∙◌, ap, Bool, false, not, ◌&&◌, lit, List, [], ◌∷◌, ◌++◌, Option, none, some,
  arith, Int64, Str, str_eq, lt64, length, ◌==◌, if◌then◌else◌, both_branches,
}
use live_collab.Base.Result.{Result, ok, err}
use live_collab.Message.{
  Message, RoomSnapshot, ApplyContentResult, StaleWritePolicy, PresenceSnapshot,
}
use live_collab.Transport.{Transport}
use live_collab.Client.{Client, Outcome, done, failed, panicked}
use live_collab.Redis.{Redis}
use live_collab.Redis.Collections.{Collections}
use live_collab.Store.{Wire}
use live_collab.Room.{
  Room, add_client, remove_client, refresh, apply_snapshot, get_room_snapshot, apply_operation,
  after_store, apply_local_content_update,
}
use live_collab.Room.Members.{registered, others, others_absent}
use live_collab.Membership.{Json}
use live_collab.Session.{
  World, conclude_update, perform_update, guard_update, handle_content_update, or_default,
}
use live_collab.Session.Serve.{
  Course, Input, read_error, read, joined_or_refused, open_session, resumed, send_state,
  presence_or_refused, send_presence, serve_message, read_loop, close_session, and_if, serve_ws,
}

apply_snapshot-clients : (r : Room) (s : RoomSnapshot) → (apply_snapshot r s).clients ≡ r.clients
unfolding apply_snapshot
apply_snapshot-clients r s = ground arith

others-snoc : (a : ℕ) (cs : List ℕ) → others a (cs ++ a ∷ []) ≡ others a cs
others-snoc a [] = ground arith
others-snoc a (c ∷ cs) = ground (arith, others-snoc a cs)

module _ (R : Redis) (C : Collections R) (J : Json) (T : Transport) where
  open R use {Db}
  open T use {Conn}

  refresh-clients :
      (r : Room) (found : Result (Option RoomSnapshot)) → (refresh R r found).clients ≡ r.clients
  unfolding refresh
  refresh-clients r (ok (some s)) = apply_snapshot-clients r s
  refresh-clients r (ok none) = refl
  refresh-clients r (err e) = refl

  snapshot-clients :
      (wires : Wire × Wire × Wire × Wire) (r : Room) (db : Db)
      → (get_room_snapshot R wires r db).1.clients ≡ r.clients
  unfolding get_room_snapshot
  snapshot-clients wires r db =
      both_branches (λ (x : RoomSnapshot × Room × Db). x.1.clients ≡ r.clients) r.has_store
        (refresh-clients r _) refl

  -- The clients of a world are those given.
  abbrev Keeps : List ℕ → World Conn Db → Type 0
  Keeps cs w = w.room.clients ≡ cs

  operation-clients :
      (wire : Wire) (r : Room) (content : Str) (base : Int64) (policy : StaleWritePolicy)
      (operation_id client_id username : Str) (db : Db)
      → (apply_operation R wire r content base policy operation_id client_id username db).1.clients
        ≡ r.clients
  unfolding apply_operation after_store apply_local_content_update
  operation-clients wire r content base policy operation_id client_id username db =
      both_branches (λ (x : Result ApplyContentResult × Room × Db). x.1.clients ≡ r.clients)
        r.has_store (stored _) local
    where
      stored : (x : Result ApplyContentResult × Db) → (after_store R r x).1.clients ≡ r.clients
      stored (ok result, d) = apply_snapshot-clients r _
      stored (err e, d) = refl

      local : (apply_local_content_update r content base policy).1.clients ≡ r.clients
      local = ground arith

  conclude-Keeps :
      (a : ℕ) (m : Message) (id : Str) (w : World Conn Db) (result : Result ApplyContentResult)
      → Keeps w.room.clients (conclude_update R T a m id w result)
  unfolding conclude_update
  conclude-Keeps a m id w (err e) = refl
  conclude-Keeps a m id w (ok result) =
      both_branches (Keeps w.room.clients) (not result.accepted) refl
        (both_branches (Keeps w.room.clients) w.room.has_store refl refl)

  guard-Keeps :
      (wire : Wire) (policy : StaleWritePolicy) (a : ℕ) (m : Message) (id operation_id : Str)
      (base : Option Int64) (before : RoomSnapshot) (w : World Conn Db)
      → Keeps w.room.clients (guard_update R T wire policy a m id operation_id base before w)
  unfolding guard_update perform_update
  guard-Keeps wire policy a m id [] base before w = refl
  guard-Keeps wire policy a m id (c ∷ s) none before w = refl
  guard-Keeps wire policy a m id (c ∷ s) (some base) before w =
      let x =
        apply_operation R wire w.room m.content base policy m.operation_id id (w.heap a).username
          w.db in
      conclude-Keeps a m id (record w { room = x.1; db = x.2 }) x.0
      ∙ operation-clients wire w.room m.content base policy m.operation_id id (w.heap a).username
          w.db

  message-Keeps :
      (policy : StaleWritePolicy) (a : ℕ) (m : Option Message) (wires : Wire × Wire × Wire × Wire)
      (wire : Wire) (w : World Conn Db)
      → Keeps w.room.clients (serve_message R C J T policy a m wires wire w)
  unfolding serve_message handle_content_update
  message-Keeps policy a none wires wire w = refl
  message-Keeps policy a (some m) wires wire w =
      both_branches (Keeps w.room.clients) (str_eq m.type (lit "content_update")) edit
        (both_branches (Keeps w.room.clients) (str_eq m.type (lit "typing")) refl refl)
    where
      edit : Keeps w.room.clients (handle_content_update R T wires wire policy a m w)
      edit =
          let x = get_room_snapshot R wires w.room w.db in
          guard-Keeps wire policy a m (or_default m.client_id (w.heap a).client_id) m.operation_id
            m.base_version x.0 (record w { room = x.1; db = x.2 })
          ∙ snapshot-clients wires w.room w.db

  loop-Keeps :
      (policy : StaleWritePolicy) (a : ℕ) (inputs : List Input) (w : World Conn Db)
      → Keeps w.room.clients (read_loop R C J T policy a inputs w)
  unfolding read_loop
  loop-Keeps policy a [] w = refl
  loop-Keeps policy a (read_error ∷ inputs) w = refl
  loop-Keeps policy a (read fine m wires wire ∷ inputs) w =
      let w' = serve_message R C J T policy a m wires wire w in
      both_branches (Keeps w.room.clients) (w.room.has_store && not fine) refl
        (loop-Keeps policy a inputs w' ∙ message-Keeps policy a m wires wire w)

  -- Steps that keep the clients.
  abbrev KeepsBoth : List ℕ → World Conn Db × Bool → Type 0
  KeepsBoth cs x = Keeps cs x.0

  resumed-Keeps :
      (a : ℕ) (w : World Conn Db) (o : Option (Client Conn × Outcome))
      → KeepsBoth w.room.clients (resumed R C J T a w o)
  unfolding resumed
  resumed-Keeps a w none = refl
  resumed-Keeps a w (some (c, done)) = refl
  resumed-Keeps a w (some (c, failed)) = refl
  resumed-Keeps a w (some (c, panicked)) = refl

  state-Keeps :
      (course : Course) (last : Int64) (a : ℕ) (w : World Conn Db)
      → KeepsBoth w.room.clients (send_state R C J T course last a w)
  unfolding send_state
  state-Keeps course last a w =
      both_branches (KeepsBoth w.room.clients) (w.room.has_store && lt64 0 last)
        (resumed-Keeps a w _) (snapshot-clients course.snapshot_wires w.room w.db)

  presence-Keeps :
      (course : Course) (a : ℕ) (w : World Conn Db)
      → KeepsBoth w.room.clients (send_presence R C J T course a w)
  unfolding send_presence presence_or_refused
  presence-Keeps course a w =
      both_branches (KeepsBoth w.room.clients) w.room.has_store (answer _) refl
    where
      answer :
          (x : Result PresenceSnapshot × Db)
          → KeepsBoth w.room.clients (presence_or_refused R C J T a w x)
      answer (ok p, db) = refl
      answer (err e, db) = refl

  open-Keeps :
      (course : Course) (a : ℕ) (w : World Conn Db)
      → KeepsBoth (w.room.clients ++ a ∷ []) (open_session R C J T course a w)
  unfolding open_session add_client joined_or_refused
  open-Keeps course a w =
      both_branches (KeepsBoth (w.room.clients ++ a ∷ [])) w.room.has_store (answer _) refl
    where
      answer :
          (x : Result (Unit {0}) × Db)
          → KeepsBoth
              (w.room.clients ++ a ∷ [])
              (joined_or_refused R C J T a (record w { room = add_client w.room a }) x)
      answer (ok u, db) = refl
      answer (err e, db) = refl

  and_if-Keeps :
      (cs : List ℕ) (x : World Conn Db × Bool) (f : World Conn Db → World Conn Db × Bool)
      → KeepsBoth cs x
      → ((w : World Conn Db) → KeepsBoth w.room.clients (f w))
      → KeepsBoth cs (and_if R C J T x f)
  and_if-Keeps cs (w, go) f h k = both_branches (KeepsBoth cs) go (k w ∙ h) h

  -- Whatever becomes of a connection's commands, frames and messages, with Redis or without, and
  -- wherever serveWS returns once the client is registered: a client that was not registered in
  -- the room before is not after it, the other clients are those before, in their order, and
  -- DeleteRoom is called exactly if there are none; with Redis that call keeps the cached room.
  pub serve_ws-clients :
      (policy : StaleWritePolicy) (course : Course) (last : Int64) (a : ℕ) (w : World Conn Db)
      → registered a w.room.clients ≡ false
      → let (w', deleted) = serve_ws R C J T policy course last a w in
        (w'.room.clients ≡ w.room.clients) × (deleted ≡ (length w.room.clients == 0))
  unfolding serve_ws close_session remove_client
  serve_ws-clients policy course last a w absent =
      let cs = w.room.clients ++ a ∷ [] in
      let x = and_if R C J T (open_session R C J T course a w) (send_state R C J T course last a) in
      let y = and_if R C J T x (send_presence R C J T course a) in
      let opened =
        and_if-Keeps cs (open_session R C J T course a w) (send_state R C J T course last a)
          (open-Keeps course a w) (state-Keeps course last a) in
      let ready : KeepsBoth cs y =
        and_if-Keeps cs x (send_presence R C J T course a) opened (presence-Keeps course a) in
      let served : Keeps cs (if y.1 then read_loop R C J T policy a course.inputs y.0 else y.0) =
        both_branches (Keeps cs) y.1 (loop-Keeps policy a course.inputs y.0 ∙ ready) ready in
      let same =
        ap (others a) served
        ∙ others-snoc a w.room.clients
        ∙ others_absent a w.room.clients absent in
      (same, ap (λ (rs : List ℕ). length rs == 0) same)

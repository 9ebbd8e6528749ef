-- ===== src/Session/Serve/Quiet.antt =====
-- serveWS of ws.go: what its reads, its frames and its messages but edits leave alone.
use live_collab.Base.{
  ℕ, ◌≡◌, refl, ◌∙◌, Bool, true, false, not, ◌&&◌, List, [], ◌∷◌, Option, none, some, arith, Int64,
  Str, lit, str_eq, lt64, ◌==◌, if◌then◌else◌, Bool-cases, inl, inr, both_branches,
}
use live_collab.Base.Result.{Result, ok, err}
use live_collab.Message.{Message, RoomSnapshot, StaleWritePolicy}
use live_collab.Transport.{Transport}
use live_collab.Client.{Client, write_frame}
use live_collab.Client.Idle.{write_content_update_id}
use live_collab.Keys.{room_exists_key, room_content_key, room_version_key, room_sequence_key}
use live_collab.Reply.{Reply, redis_string, redis_int64}
use live_collab.Redis.{Redis}
use live_collab.Redis.Collections.{Collections}
use live_collab.Store.{
  Wire, answered, not_sent, answer_lost, Action, and_then, send, call_get, get_snapshot,
  get_snapshot_amid,
}
use live_collab.Membership.{Json}
use live_collab.Room.{
  Room, get_room_snapshot, refresh, apply_snapshot, each_client, broadcast_json, send_json,
}
use live_collab.Session.{World, write_to}
use live_collab.Session.Serve.{
  Course, Input, read, read_error, error_message, send_state, serve_message, read_loop, typing,
}

abbrev pub refused : Message
refused = error_message (lit "presence_unavailable")

-- A message that is no edit, and inputs without one.
abbrev pub is_edit : Option Message → Bool
is_edit none = false
is_edit (some m) = str_eq m.type (lit "content_update")

abbrev pub OnlyReads : List Input → Type 0
OnlyReads [] = Unit {0}
OnlyReads (read_error ∷ inputs) = OnlyReads inputs
OnlyReads (read fine m wires wire ∷ inputs) = (is_edit m ≡ false) × OnlyReads inputs

pub first :
    {A : Type 0} (P : A → Type 0) (b : Bool) (x y : A) → b ≡ true → P x → P (if b then x else y)
first P true x y e h = h
first P false x y e h = cc

pub second :
    {A : Type 0} (P : A → Type 0) (b : Bool) (x y : A) → b ≡ false → P y → P (if b then x else y)
second P true x y e h = cc
second P false x y e h = h

module _ (R : Redis) where
  open R use {Db, get}

  bind_db :
      {A : Type 0} (w : Wire) (k : Str) (db : Db) (f : Reply → Action Db A)
      → ((v : Reply) → (f v db).1 ≡ db)
      → (and_then (send w (call_get R k) db) f).1 ≡ db
  bind_db answered k db f h = through (get db k)
    where
      through : (r : Result Reply) → (and_then (r, db) f).1 ≡ db
      through (ok v) = h v
      through (err e) = refl
  bind_db not_sent k db f h = refl
  bind_db answer_lost k db f h = refl

  lifted_db :
      {A B : Type 0} (r : Result A) (db : Db) (f : A → Action Db B)
      → ((v : A) → (f v db).1 ≡ db)
      → (and_then (r, db) f).1 ≡ db
  lifted_db (ok v) db f h = h v
  lifted_db (err e) db f h = refl

  get_snapshot-db :
      (wires : Wire × Wire × Wire × Wire) (room : Str) (db : Db)
      → (get_snapshot R wires room db).1 ≡ db
  unfolding get_snapshot_amid
  get_snapshot-db (w0, w1, w2, w3) room db = bind_db w0 (room_exists_key room) db _ λ e.
      elim (Bool-cases (not (str_eq (redis_string e) (lit "1")))) [
        | inl absent ↦ rw absent refl
        | inr there ↦ rw there (
            bind_db w1 (room_content_key room) db _ λ c.
              bind_db w2 (room_version_key room) db _ λ v.
                bind_db w3 (room_sequence_key room) db _ λ s.
                  lifted_db (redis_int64 v) db _
                    λ version. lifted_db (redis_int64 s) db _ λ sequence. refl)
      ]

  -- The room after a read is the same but for its cache.
  room_same :
      (wires : Wire × Wire × Wire × Wire) (r : Room) (db : Db)
      → let x = get_room_snapshot R wires r db in
        (x.1.has_store ≡ r.has_store) × (x.1.id ≡ r.id) × (x.2 ≡ db)
  unfolding get_room_snapshot refresh apply_snapshot
  room_same wires r db =
      both_branches {A = RoomSnapshot × Room × Db}
        (λ x. (x.1.has_store ≡ r.has_store) × (x.1.id ≡ r.id) × (x.2 ≡ db)) r.has_store
        (
          (refreshed (get_snapshot R wires r.id db).0).0,
          (refreshed (get_snapshot R wires r.id db).0).1,
          get_snapshot-db wires r.id db,
        )
        (refl, refl, refl)
    where
      refreshed :
          (f : Result (Option RoomSnapshot))
          → ((refresh R r f).has_store ≡ r.has_store) × ((refresh R r f).id ≡ r.id)
      refreshed (ok (some snapshot)) = (ground arith, ground arith)
      refreshed (ok none) = (refl, refl)
      refreshed (err e) = (refl, refl)

module _ (R : Redis) (C : Collections R) (J : Json) (T : Transport) where
  open R use {Db}
  open T use {Conn}

  -- A client keeps its connection ID.
  abbrev pub SameId : Client Conn → Client Conn → Type 0
  SameId c c' = c'.connection_id ≡ c.connection_id

  send_json-SameId : (r : Room) (m : Message) (c : Client Conn) → SameId c (send_json T r m c)
  unfolding send_json write_frame
  send_json-SameId r m c =
      both_branches (SameId c) (r.has_store && str_eq m.type (lit "content_update"))
        (write_content_update_id T c m) (ground arith)

  each_client-SameId :
      (f : Client Conn → Client Conn)
      → ((c : Client Conn) → SameId c (f c))
      → (cs : List ℕ) (h : ℕ → Client Conn) (a : ℕ) → SameId (h a) (each_client T f cs h a)
  unfolding each_client
  each_client-SameId f k [] h a = refl
  each_client-SameId f k (c ∷ cs) h a = each_client-SameId f k cs _ a ∙ elim (Bool-cases (c == a)) [
    | inl e ↦ ground (arith, k (h a), k (h c))
    | inr e ↦ ground arith
  ]

  -- The room and Redis are the same but for the cache, and so is the connection ID of the client.
  abbrev pub Same : ℕ → World Conn Db → World Conn Db → Type 0
  Same a w w' =
      (w'.room.has_store ≡ w.room.has_store)
      × (w'.room.id ≡ w.room.id)
      × SameId (w.heap a) (w'.heap a)
      × (w'.db ≡ w.db)

  pub write_to-Same : (a : ℕ) (w : World Conn Db) (m : Message) → Same a w (write_to R T w a m)
  unfolding write_frame
  write_to-Same a w m = (refl, refl, ground arith, refl)

  message-Same :
      (policy : StaleWritePolicy) (a : ℕ) (m : Option Message) (wires : Wire × Wire × Wire × Wire)
      (wire : Wire) (w : World Conn Db)
      → is_edit m ≡ false
      → Same a w (serve_message R C J T policy a m wires wire w)
  unfolding serve_message broadcast_json
  message-Same policy a none wires wire w e = write_to-Same a w _
  message-Same policy a (some m) wires wire w e =
      second (Same a w) (str_eq m.type (lit "content_update")) _ _ e (
        both_branches (Same a w) (str_eq m.type (lit "typing"))
          (
            refl,
            refl,
            each_client-SameId (send_json T w.room (typing (w.heap a).username))
                (send_json-SameId w.room (typing (w.heap a).username)) w.room.clients w.heap a,
            refl,
          )
          (write_to-Same a w _))

  Same-trans : (a : ℕ) (w w' w'' : World Conn Db) → Same a w w' → Same a w' w'' → Same a w w''
  Same-trans a w w' w'' (s, i, c, d) (s', i', c', d') = (s' ∙ s, i' ∙ i, c' ∙ c, d' ∙ d)

  pub loop-Same :
      (policy : StaleWritePolicy) (a : ℕ) (inputs : List Input) (w : World Conn Db)
      → OnlyReads inputs
      → Same a w (read_loop R C J T policy a inputs w)
  unfolding read_loop
  loop-Same policy a [] w h = (refl, refl, refl, refl)
  loop-Same policy a (read_error ∷ inputs) w h = (refl, refl, refl, refl)
  loop-Same policy a (read fine m wires wire ∷ inputs) w (e, h) =
      let w' = serve_message R C J T policy a m wires wire w in
      both_branches (Same a w) (w.room.has_store && not fine) (refl, refl, refl, refl)
        (Same-trans a w w' (read_loop R C J T policy a inputs w')
          (message-Same policy a m wires wire w e) (loop-Same policy a inputs w' h))

  pub state-Same :
      (course : Course) (last : Int64) (a : ℕ) (w : World Conn Db)
      → lt64 0 last ≡ false
      → Same a w (send_state R C J T course last a w).0
  unfolding send_state write_frame
  state-Same course last a w fresh =
      let (s, i, d) = room_same R course.snapshot_wires w.room w.db in
      elim (Bool-cases (w.room.has_store && lt64 0 last)) [
        | inl e ↦ ground arith
        | inr e ↦ rw e (s, i, ground arith, d)
      ]

-- ===== src/Store/Torn.antt =====
-- GetSnapshot of redis_store.go while other backends edit the room between its four commands.
use live_collab.Base.{
  ◌+◌, ◌<◌, ◌≡◌, refl, Bool, true, false, List, Option, none, some, arith, Str, lit, str_eq, length,
  if◌then◌else◌,
}
use live_collab.Base.Result.{Result, ok, err, redis_error}
use live_collab.Message.{RoomSnapshot}
use live_collab.Reply.{Reply, text, nil, redis_string}
use live_collab.Redis.{Redis, missing, string, lua_limit}
use live_collab.Keys.{room_exists_key, room_content_key, room_version_key, room_sequence_key}
use live_collab.Store.{
  Wire, answered, not_sent, answer_lost, Action, and_then, send, call_get, get_snapshot_amid,
}
use live_collab.Store.Commands.{Document, Holds}
use live_collab.Store.Snapshot.{get_counter, get_text}
use live_collab.Store.History.{
  Operation, AreWords, IsInOrder, Extends, run_operations, run_operations-IsInOrder,
}

-- The outcome of a call from one command on: as given if the command is answered, and the error of
-- the connection, on the database of that time, if it is not.
abbrev pub told : {D A : Type 0} → Wire → D → Result A × D → Result A × D
told answered db r = r
told not_sent db r = (err (redis_error (lit "dial")), db)
told answer_lost db r = (err (redis_error (lit "read")), db)

module _ (R : Redis) where
  open R use {Db, look, get, get-string, get-missing}

  send-told :
      {A : Type 0} (w : Wire) (k : Str) (db : Db) (v : Reply) (f : Reply → Action Db A)
      → get db k ≡ ok v
      → and_then (send w (call_get R k) db) f ≡ told w db (f v db)
  send-told answered k db v f e = rw e
  send-told not_sent k db v f e = refl
  send-told answer_lost k db v f e = refl

  -- The call between any other writes, by what the room holds at each of its commands.
  module _ (room : Str) (w0 w1 w2 w3 : Wire) (f g h : Db → Db) (db : Db) (d₁ d₂ d₃ : Document)
      (h₁ : Holds R (f db) room d₁) (h₂ : Holds R (g (f db)) room d₂)
      (h₃ : Holds R (h (g (f db))) room d₃) (small₂ : length d₂.log < lua_limit)
      (small₃ : length d₃.log < lua_limit) where
    abbrev call : Result (Option RoomSnapshot) × Db
    call = get_snapshot_amid R (f, g, h) (w0, w1, w2, w3) room db

    abbrev torn : Result (Option RoomSnapshot) × Db
    torn = told w1 (f db) (
        told w2 (g (f db)) (
          told w3 (h (g (f db))) (
            ok (
                some (record {
                  content = d₁.content;
                  version = length d₂.log;
                  sequence = length d₃.log;
                })),
            h (g (f db)),
          )))

    get_snapshot_amid_lem :
        (there : Bool)
        → look db (room_exists_key room) ≡ (if there then string (lit "1") else missing)
        → call ≡ told w0 db (if there then torn else (ok none, db))
    unfolding get_snapshot_amid redis_string str_eq
    get_snapshot_amid_lem false e =
        rw (send-told w0 (room_exists_key room) db nil _ (get-missing db (room_exists_key room) e))
    get_snapshot_amid_lem true e =
        let (c, hc, sc) = get_text R (f db) (room_content_key room) d₁.content h₁.content in
        let (v, hv, sv) =
          get_counter R (g (f db)) (room_version_key room) (length d₂.log) small₂ h₂.version in
        let (s, hs, ss) =
          get_counter R (h (g (f db))) (room_sequence_key room) (length d₃.log) small₃
            h₃.sequence in
        let one = get-string db (room_exists_key room) (lit "1") e in
        rw
          (
            send-told w0 (room_exists_key room) db (text (lit "1")) _ one,
            send-told w1 (room_content_key room) (f db) c _ hc,
            send-told w2 (room_version_key room) (g (f db)) v _ hv,
            send-told w3 (room_sequence_key room) (h (g (f db))) s _ hs,
            sc,
            sv,
            ss,
          )
          refl

  -- A room, in order, whose Redis keys hold a document or that is not there, is read while other
  -- backends run any operations on it between the commands, accepted, rejected or lost. The content
  -- is that of the document at the second command, the version that at the third and the sequence
  -- that at the fourth; each of these documents continues the one before. So a snapshot may be
  -- torn, but its version and sequence are never behind its content. A room that is not there is no
  -- room and no error, and a command without an answer is the error of its connection. The call
  -- itself writes nothing. The log stays below 10 ^ 14 events, and the base versions are words.
  pub get_snapshot_amid-run_operations :
      (room : Str) (there : Bool) (w0 w1 w2 w3 : Wire) (os₁ os₂ os₃ : List Operation) (d : Document)
      (db : Db)
      → Holds R db room d
      → IsInOrder d
      → length d.log + length os₁ + length os₂ + length os₃ < lua_limit
      → AreWords os₁
      → AreWords os₂
      → AreWords os₃
      → look db (room_exists_key room) ≡ (if there then string (lit "1") else missing)
      → let run = run_operations R room in
        let db₁ = run db os₁ in
        let db₂ = run db₁ os₂ in
        let db₃ = run db₂ os₃ in
        (d₁ d₂ d₃ : Document) × (Extends d d₁ × Extends d₁ d₂ × Extends d₂ d₃)
        × (Holds R db₁ room d₁ × Holds R db₂ room d₂ × Holds R db₃ room d₃)
        × (get_snapshot_amid R
              (λ x. run x os₁, λ x. run x os₂, λ x. run x os₃)
              (w0, w1, w2, w3)
              room
              db
            ≡ told w0 db (
                if there
                then told w1 db₁ (
                    told w2 db₂ (
                      told w3 db₃ (
                        ok (
                            some (record {
                              content = d₁.content;
                              version = length d₂.log;
                              sequence = length d₃.log;
                            })),
                        db₃,
                      )))
                else (ok none, db)))
  get_snapshot_amid-run_operations room there w0 w1 w2 w3 os₁ os₂ os₃ d db h v fits k₁ k₂ k₃ e =
      let run : List Operation → Db → Db = λ os x. run_operations R room x os in
      let (d₁, h₁, v₁, x₁, n₁) = run_operations-IsInOrder R room os₁ d db h v (omega arith) k₁ in
      let db₁ = run_operations R room db os₁ in
      let (d₂, h₂, v₂, x₂, n₂) =
        run_operations-IsInOrder R room os₂ d₁ db₁ h₁ v₁ (omega arith) k₂ in
      let db₂ = run_operations R room db₁ os₂ in
      let (d₃, h₃, v₃, x₃, n₃) =
        run_operations-IsInOrder R room os₃ d₂ db₂ h₂ v₂ (omega arith) k₃ in
      (
        d₁,
        d₂,
        d₃,
        (x₁, x₂, x₃),
        (h₁, h₂, h₃),
        get_snapshot_amid_lem room w0 w1 w2 w3 (run os₁) (run os₂) (run os₃) db d₁ d₂ d₃ h₁ h₂ h₃
            (omega arith) (omega arith) there e,
      )

-- ===== src/Session/Edit.antt =====
-- handleContentUpdate of ws.go: the document, the answers to the sender, and the other clients.
use live_collab.Base.{
  ℕ, ◌+◌, ◌<◌, ◌≡◌, ◌⊎◌, refl, sym, ◌∙◌, subst, inl, inr, Bool, true, false, not, List, [], ◌∷◌,
  ◌++◌, map, append_assoc, Option, none, some, arith, Int64, Str, length, ◌==◌, if◌then◌else◌,
}
use live_collab.Base.Result.{ok}
use live_collab.Message.{
  Message, Frame, message, ApplyContentResult, DistributedEvent, StaleWritePolicy, RoomSnapshot,
}
use live_collab.Transport.{Transport}
use live_collab.Client.{Client, write_frame}
use live_collab.Redis.{Redis, lua_limit}
use live_collab.Store.{Wire, answered}
use live_collab.Store.Commands.{Document, Holds}
use live_collab.Room.{Room, get_room_snapshot, apply_operation, room_state_users}
use live_collab.Room.Modes.{Mirrors, Behind}
use live_collab.Room.Snapshot.{
  SameRoom, edited, outcome, IsEdit, get_room_snapshot-Behind, apply_operation-edited,
}
use live_collab.Session.{
  World, write_to, conclude_update, perform_update, guard_update, handle_content_update, or_default,
  operation_result, resync, refusal,
}

-- What the sender is sent on a backend with Redis.
abbrev pub answers : Message → Str → ApplyContentResult → List Message
answers incoming client_id x =
    operation_result incoming client_id x ∷ (if x.accepted then [] else resync [] x ∷ [])

module _ (R : Redis) (T : Transport)
    (reliable : (c : T.Conn) (f : Frame) → (T.write_json c f).1 ≡ true) where
  open T use {Conn, write_json, sent, write_json-ok}

  wire : (c : Conn) (f : Frame) → sent (write_json c f).0 ≡ sent c ++ f ∷ []
  wire c f = write_json-ok c f (reliable c f)

  -- Only the client at a may differ.
  abbrev pub OnlyAt : ℕ → (ℕ → Client Conn) → (ℕ → Client Conn) → Type 0
  OnlyAt a h h' = (b : ℕ) → h' b ≡ (if a == b then h' a else h b)

  write_to_lem :
      (w : World Conn R.Db) (a : ℕ) (m : Message)
      → let w' = write_to R T w a m in
        (sent (w'.heap a).conn ≡ sent (w.heap a).conn ++ message m ∷ []) × OnlyAt a w.heap w'.heap
  unfolding write_frame
  write_to_lem w a m = (ground (arith, wire (w.heap a).conn (message m)), λ b. ground arith)

  OnlyAt-trans :
      (a : ℕ) (h h' h'' : ℕ → Client Conn) → OnlyAt a h h' → OnlyAt a h' h'' → OnlyAt a h h''
  OnlyAt-trans a h h' h'' p q b = ground (arith, p b, q b)

  no_users : (h : ℕ → Client Conn) (r : Room) → r.has_store ≡ true → room_state_users T h r ≡ []
  unfolding room_state_users
  no_users h r on = ground arith

  -- The two conditions behind the operation_result, on a backend with Redis.
  settled :
      (a : ℕ) (m : Message) (w other : World Conn R.Db) (x : ApplyContentResult) (users : List Str)
      (accepted stored : Bool)
      → users ≡ []
      → stored ≡ true
      → let w₁ = write_to R T w a m in
        let w' =
          if not accepted
          then write_to R T w₁ a (resync users x)
          else if stored
          then w₁
          else other in
        (w'.room ≡ w.room)
        × (w'.db ≡ w.db)
        × (sent (w'.heap a).conn
            ≡ sent (w.heap a).conn ++ map message (m ∷ (if accepted then [] else resync [] x ∷ [])))
        × OnlyAt a w.heap w'.heap
  settled a m w other x users true stored u on =
      rw on (refl, refl, (write_to_lem w a m).0, (write_to_lem w a m).1)
  settled a m w other x users false stored u on =
      let w₁ = write_to R T w a m in
      let (s₁, o₁) = write_to_lem w a m in
      let (s₂, o₂) = write_to_lem w₁ a (resync [] x) in
      rw u (
        refl,
        refl,
        s₂ ∙ rw s₁ (append_assoc (sent (w.heap a).conn) (message m ∷ []) _),
        OnlyAt-trans a w.heap w₁.heap (write_to R T w₁ a (resync [] x)).heap o₁ o₂,
      )

  conclude_lem :
      (a : ℕ) (incoming : Message) (client_id : Str) (w : World Conn R.Db) (x : ApplyContentResult)
      → w.room.has_store ≡ true
      → let w' = conclude_update R T a incoming client_id w (ok x) in
        (w'.room ≡ w.room)
        × (w'.db ≡ w.db)
        × (sent (w'.heap a).conn
            ≡ sent (w.heap a).conn ++ map message (answers incoming client_id x))
        × OnlyAt a w.heap w'.heap
  unfolding conclude_update
  conclude_lem a incoming client_id w x on =
      settled a (operation_result incoming client_id x) w _ x _ x.accepted w.room.has_store
        (no_users _ w.room on) on

  -- The guards let an operation with an ID and a base version through.
  guard_passes :
      (wire : Wire) (policy : StaleWritePolicy) (a : ℕ) (incoming : Message) (client_id id : Str)
      (given : Option Int64) (c : ℕ) (s : Str) (base : Int64) (before : RoomSnapshot)
      (w : World Conn R.Db)
      → id ≡ c ∷ s
      → given ≡ some base
      → guard_update R T wire policy a incoming client_id id given before w
        ≡ perform_update R T wire policy a incoming base client_id w
  unfolding guard_update
  guard_passes wire policy a incoming client_id id given c s base before w i g = rw (i, g)

  module _ (w : World Conn R.Db) (d : Document) (held : Holds R w.db w.room.id d)
      (small : length d.log + 1 < lua_limit) (behind : Behind w.room d)
      (on : w.room.has_store ≡ true) (policy : StaleWritePolicy) (a : ℕ) (incoming : Message)
      (base : Int64) (word : base < 0x10000000000000000) where
    -- What an update has to do to a world: the document and the cache are edited, the sender is
    -- sent the answers, and nobody else anything.
    abbrev pub Edits : Str → World Conn R.Db → DistributedEvent → Type 0
    Edits client_id w' e =
        IsEdit d incoming.content incoming.operation_id client_id (w.heap a).username e
        × Mirrors w'.room (edited d base policy e)
        × Holds R w'.db w.room.id (edited d base policy e)
        × (sent (w'.heap a).conn
            ≡ sent (w.heap a).conn
              ++ map message (answers incoming client_id (outcome d base policy e)))
        × OnlyAt a w.heap w'.heap

    perform_lem :
        (client_id : Str)
        → (e : DistributedEvent) × Edits client_id
            (perform_update R T answered policy a incoming base client_id w)
            e
    unfolding perform_update
    perform_lem client_id =
        let (e, edit, x, m, h, same) =
          apply_operation-edited R w.room d w.db held small behind incoming.content base policy
            incoming.operation_id client_id (w.heap a).username on word in
        let r =
          apply_operation R answered w.room incoming.content base policy incoming.operation_id
            client_id (w.heap a).username w.db in
        let w₁ : World Conn R.Db = record w { room = r.1; db = r.2 } in
        let (cr, cd, cs, co) =
          conclude_lem a incoming client_id w₁ (outcome d base policy e) (same.1 ∙ on) in
        let doc = edited d base policy e in
        (
          e,
          subst (λ result. Edits client_id (conclude_update R T a incoming client_id w₁ result) e)
              (sym x)
              (
                edit,
                subst (λ q. Mirrors q doc) (sym cr) m,
                subst (λ q. Holds R q w.room.id doc) (sym cd) h,
                cs,
                co,
              ),
        )

  -- An edit with an ID and a base version on a backend with Redis, whatever became of the reads
  -- before it: the document is edited as specified and the cache holds it; the sender is sent the
  -- operation_result, and after a rejection the document as it is; no other client is written to.
  -- The script is answered, the cache was no newer than the document, the document has fewer than
  -- 10 ^ 14 events, and the connection takes every frame.
  pub handle_content_update-redis :
      (w : World Conn R.Db) (d : Document) (held : Holds R w.db w.room.id d)
      (small : length d.log + 1 < lua_limit) (behind : Behind w.room d)
      (on : w.room.has_store ≡ true) (policy : StaleWritePolicy) (a : ℕ) (incoming : Message)
      (base : Int64) (word : base < 0x10000000000000000) (wires : Wire × Wire × Wire × Wire) (c : ℕ)
      (s : Str)
      → incoming.operation_id ≡ c ∷ s
      → incoming.base_version ≡ some base
      → (e : DistributedEvent) × Edits w d held small behind on policy a incoming base word
          (or_default incoming.client_id (w.heap a).client_id)
          (handle_content_update R T wires answered policy a incoming w)
          e
  unfolding handle_content_update
  handle_content_update-redis w d held small behind on policy a incoming base word wires c s i g =
      let client_id = or_default incoming.client_id (w.heap a).client_id in
      let x = get_room_snapshot R wires w.room w.db in
      let (same, behind', db_same) =
        get_room_snapshot-Behind R w.room d w.db held small behind wires in
      let w₂ : World Conn R.Db = record w { room = x.1; db = x.2 } in
      let held' : Holds R x.2 x.1.id d =
        subst (λ q. Holds R q x.1.id d) (sym db_same)
          (subst (λ q. Holds R w.db q d) (sym same.0) held) in
      let (e, (edit, m, h, sent_all, others)) =
        perform_lem w₂ d held' small behind' (same.1 ∙ on) policy a incoming base word client_id in
      let passed =
        guard_passes answered policy a incoming client_id incoming.operation_id
          incoming.base_version c s base x.0 w₂ i g in
      (
        e,
        subst (λ w'. Edits w d held small behind on policy a incoming base word client_id w' e)
            (sym passed)
            (
              edit,
              m,
              subst
                  (λ q.
                    Holds R (perform_update R T answered policy a incoming base client_id w₂).db q
                      (edited d base policy e))
                  same.0 h,
              sent_all,
              others,
            ),
      )

  guard_stops :
      (wire : Wire) (policy : StaleWritePolicy) (a : ℕ) (incoming : Message) (client_id id : Str)
      (given : Option Int64) (before : RoomSnapshot) (w : World Conn R.Db)
      → (id ≡ []) ⊎ (given ≡ none)
      → guard_update R T wire policy a incoming client_id id given before w
        ≡ write_to R T w a (refusal incoming client_id before)
  unfolding guard_update
  guard_stops wire policy a incoming client_id [] given before w h = refl
  guard_stops wire policy a incoming client_id (c ∷ s) none before w h = refl
  guard_stops wire policy a incoming client_id (c ∷ s) (some base) before w (inl h) = cc
  guard_stops wire policy a incoming client_id (c ∷ s) (some base) before w (inr h) = cc

  -- An edit without an ID or without a base version changes nothing in Redis and brings nothing
  -- newer than the document to the cache. The sender is told why with the version and the sequence
  -- that the backend knows, and no other client is written to. The room's keys hold a document,
  -- the cache was no newer than it, and the connection takes every frame.
  pub handle_content_update-refused :
      (w : World Conn R.Db) (d : Document) (held : Holds R w.db w.room.id d)
      (small : length d.log + 1 < lua_limit) (behind : Behind w.room d)
      (wires : Wire × Wire × Wire × Wire) (wire : Wire) (policy : StaleWritePolicy) (a : ℕ)
      (incoming : Message)
      → (incoming.operation_id ≡ []) ⊎ (incoming.base_version ≡ none)
      → let w' = handle_content_update R T wires wire policy a incoming w in
        (w'.db ≡ w.db)
        × SameRoom w.room w'.room
        × Behind w'.room d
        × (sent (w'.heap a).conn
            ≡ sent (w.heap a).conn
              ++ message (
                  refusal incoming
                    (or_default incoming.client_id (w.heap a).client_id)
                    (get_room_snapshot R wires w.room w.db).0)
                ∷ [])
        × OnlyAt a w.heap w'.heap
  unfolding handle_content_update
  handle_content_update-refused w d held small behind wires wire policy a incoming missing =
      let client_id = or_default incoming.client_id (w.heap a).client_id in
      let x = get_room_snapshot R wires w.room w.db in
      let (same, behind', db_same) =
        get_room_snapshot-Behind R w.room d w.db held small behind wires in
      let w₂ : World Conn R.Db = record w { room = x.1; db = x.2 } in
      let (s, o) = write_to_lem w₂ a (refusal incoming client_id x.0) in
      rw
        (guard_stops wire policy a incoming client_id incoming.operation_id incoming.base_version
          x.0 w₂ missing)
        (db_same, same, behind', s, o)

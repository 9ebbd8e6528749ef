-- ===== src/Room/Fanout.antt =====
-- BroadcastJSON and broadcastPresenceSnapshot of room.go and presence.go: who is written to.
use live_collab.Base.{
  ℕ, ◌≡◌, refl, sym, ◌∙◌, ap, Bool, true, false, not, ◌&&◌, ◌||◌, List, [], ◌∷◌, ◌++◌, append-nil,
  arith, ◌==◌, if◌then◌else◌, Bool-cases, ◌⊎◌, inl, inr, lit, str_eq, lt64,
}
use live_collab.Message.{Message, Frame, message, presence_update, PresenceSnapshot}
use live_collab.Transport.{Transport}
use live_collab.Client.{Client, write_frame, write_content_update, write_presence}
use live_collab.Room.{
  Room, Heap, each_client, send_json, broadcast_json, broadcast_presence_snapshot,
}
use live_collab.Room.Members.{registered}

-- No client is registered twice.
abbrev pub Distinct : List ℕ → Type 0
Distinct [] = Unit {0}
Distinct (c ∷ cs) = (registered c cs ≡ false) × Distinct cs

module _ (T : Transport) where
  open T use {Conn, write_json, sent, write_json-ok, write_json-err}

  pub each_client_lem :
      (f : Client Conn → Client Conn) (cs : List ℕ) (h : Heap T) (a : ℕ)
      → Distinct cs
      → each_client T f cs h a ≡ (if registered a cs then f (h a) else h a)
  unfolding each_client
  each_client_lem f [] h a d = refl
  each_client_lem f (c ∷ cs) h a d =
      each_client_lem f cs _ a d.1
      ∙ elim (Bool-cases (c == a)) [ inl e ↦ ground arith | inr e ↦ ground arith ]

  pub broadcast_json_lem :
      (r : Room) (m : Message) (h : Heap T) (a : ℕ)
      → Distinct r.clients
      → broadcast_json T r m h a ≡ (if registered a r.clients then send_json T r m (h a) else h a)
  unfolding broadcast_json
  broadcast_json_lem r m h a d = each_client_lem (send_json T r m) r.clients h a d

  -- Whether a client is due the message at once: a content update of a room with Redis if it is
  -- newer than the client's last one and no replay is under way, and any other message always.
  abbrev pub is_due : Room → Message → Client Conn → Bool
  is_due r m c =
      if r.has_store && str_eq m.type (lit "content_update")
      then lt64 c.last_sequence m.sequence && not c.replaying
      else true

  -- Whether a client is due the presence: if it had none, or one of a lower revision.
  abbrev pub presence_due : PresenceSnapshot → Client Conn → Bool
  presence_due p c = not c.presence_sent || lt64 c.presence_revision p.revision

  -- The frame that a connection takes, if it is due.
  abbrev pub taken : Bool → Conn → Frame → List Frame
  taken due conn f = if due && (write_json conn f).1 then f ∷ [] else []

  send_json-sent :
      (r : Room) (m : Message) (c : Client Conn)
      → sent (send_json T r m c).conn ≡ sent c.conn ++ taken (is_due r m c) c.conn (message m)
  unfolding send_json write_content_update write_frame
  send_json-sent r m c = ground (
    arith,
    write_json-ok c.conn (message m),
    write_json-err c.conn (message m),
    append-nil (sent c.conn),
  )

  write_presence-sent :
      (p : PresenceSnapshot) (c : Client Conn)
      → sent (write_presence T c p).0.conn
        ≡ sent c.conn ++ taken (presence_due p c) c.conn (presence_update p)
  unfolding write_presence write_frame
  write_presence-sent p c = ground (
    arith,
    write_json-ok c.conn (presence_update p),
    write_json-err c.conn (presence_update p),
    append-nil (sent c.conn),
  )

  only_registered :
      (b : Bool) (c c' : Client Conn) (due : Bool) (f : Frame)
      → sent c'.conn ≡ sent c.conn ++ taken due c.conn f
      → sent (if b then c' else c).conn ≡ sent c.conn ++ taken (b && due) c.conn f
  only_registered true c c' due f h = h
  only_registered false c c' due f h = sym (append-nil (sent c.conn))

  -- What goes out in a broadcast to the clients of a room, none of them registered twice. A client
  -- is sent the message exactly once if it is registered, is due the message and its connection
  -- takes the frame, and nothing otherwise; a client that is not registered is left as it was. A
  -- presence broadcast does likewise with the rule for presence.
  pub fanout :
      (r : Room) (m : Message) (p : PresenceSnapshot) (h : Heap T) (a : ℕ)
      → Distinct r.clients
      → let here = registered a r.clients in
        let h' = broadcast_json T r m h in
        let h'' = broadcast_presence_snapshot T r p h in
        (sent (h' a).conn
          ≡ sent (h a).conn ++ taken (here && is_due r m (h a)) (h a).conn (message m))
        × (sent (h'' a).conn
            ≡ sent (h a).conn
              ++ taken (here && presence_due p (h a)) (h a).conn (presence_update p))
        × ((here ≡ true) ⊎ ((h' a ≡ h a) × (h'' a ≡ h a)))
  unfolding broadcast_presence_snapshot
  fanout r m p h a d =
      let here = registered a r.clients in
      let e = broadcast_json_lem r m h a d in
      let e' = each_client_lem (λ c. (write_presence T c p).0) r.clients h a d in
      (
        ap (λ c. sent c.conn) e
            ∙ only_registered here (h a) (send_json T r m (h a)) (is_due r m (h a)) (message m)
                (send_json-sent r m (h a)),
        ap (λ c. sent c.conn) e'
            ∙ only_registered here (h a) (write_presence T (h a) p).0 (presence_due p (h a))
                (presence_update p) (write_presence-sent p (h a)),
        elim (Bool-cases here) [
          | inl member ↦ inl member
          | inr out ↦ inr (e ∙ rw out, e' ∙ rw out)
        ],
      )

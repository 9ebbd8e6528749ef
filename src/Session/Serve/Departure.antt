-- ===== src/Session/Serve/Departure.antt =====
-- serveWS of ws.go on a backend with Redis: a connection that makes no edit leaves the presence.
use live_collab.Base.{
  ℕ, ◌+◌, ◌<◌, ◌≤◌, ◌≡◌, refl, sym, ◌∙◌, subst, Bool, true, false, [], none, some, arith, Int64,
  Str, str_eq, str_eq_refl, le64, lt64, if◌then◌else◌, both_branches,
}
use live_collab.Base.Result.{Result, ok, err}
use live_collab.Base.Decimal.{format_int}
use live_collab.Message.{PresenceSnapshot, StaleWritePolicy}
use live_collab.Transport.{Transport}
use live_collab.Client.{Client, write_frame, write_presence, participant}
use live_collab.Reply.{Reply}
use live_collab.Redis.{Redis, lua_limit}
use live_collab.Redis.Collections.{Collections, Clock, milliseconds, exact_limit, one_if}
use live_collab.Store.{Wire, answered, not_sent, answer_lost, Action, and_then, send}
use live_collab.Membership.{Json, join_script, leave_script, snapshot_script}
use live_collab.Membership.Calls.{
  join_presence, leave_presence, get_presence, snapshot_of_reply, milliseconds_of,
}
use live_collab.Membership.Spec.{Presence, joined, left, pruned, is_member}
use live_collab.Membership.Members.{member-without}
use live_collab.Membership.Prune.{IsReading}
use live_collab.Membership.History.{pruned-IsLater}
use live_collab.Membership.Refine.{Held, join_script_lem, leave_script_lem}
use live_collab.Membership.Snapshot.{snapshot_script_lem}
use live_collab.Room.{add_client, remove_client}
use live_collab.Session.{World, write_to}
use live_collab.Session.Serve.{
  Course, open_session, joined_or_refused, send_state, send_presence, presence_or_refused,
  read_loop, close_session, serve_ws, and_if,
}
use live_collab.Session.Serve.Quiet.{
  refused, OnlyReads, first, Same, write_to-Same, loop-Same, state-Same,
}

module _ (R : Redis) (C : Collections R) (J : Json) (T : Transport) where
  open R use {Db}
  open T use {Conn}

  -- Redis holds a presence of the room, of at most a revision.
  abbrev HasPresence : Str → ℕ → Db → Type 0
  HasPresence id n db = (p : Presence) × Held R C J id db p × (p.revision ≤ n)

  -- What a session keeps: Redis, the room's ID, the connection's ID, and a presence.
  abbrev Inside : Str → Str → ℕ → ℕ → World Conn Db → Type 0
  Inside id conn n a w =
      (w.room.has_store ≡ true)
      × (w.room.id ≡ id)
      × ((w.heap a).connection_id ≡ conn)
      × HasPresence id n w.db

  Same-Inside :
      (id conn : Str) (n a : ℕ) (w w' : World Conn Db)
      → Inside id conn n a w
      → Same R C J T a w w'
      → Inside id conn n a w'
  Same-Inside id conn n a w w' (s, i, c, h) (s', i', c', d) =
      (s' ∙ s, i' ∙ i, c' ∙ c, subst (HasPresence id n) (sym d) h)

  Inside-mono :
      (id conn : Str) (n a : ℕ) (w : World Conn Db)
      → Inside id conn n a w
      → Inside id conn (n + 1) a w
  Inside-mono id conn n a w (s, i, c, (p, h, le)) = (s, i, c, (p, h, omega arith))

  -- The database after a command and the decoding of its reply, for any fate of the command.
  sent_db :
      {A B : Type 0} (P : Db → Type 0) (wire : Wire) (m : Action Db A) (f : A → Result B) (db : Db)
      → P db
      → P (m db).1
      → P (and_then (send wire m db) (λ x db'. (f x, db'))).1
  sent_db P answered m f db before after = through (m db) after
    where
      through : (r : Result _ × Db) → P r.1 → P (and_then r (λ x db'. (f x, db'))).1
      through (ok x, db') h = h
      through (err e, db') h = h
  sent_db P not_sent m f db before after = before
  sent_db P answer_lost m f db before after = after

  join_db :
      (wire : Wire) (clock : Clock) (id : Str) (c : Client Conn) (lease : Int64) (n : ℕ) (db : Db)
      → HasPresence id n db
      → n + 1 < lua_limit
      → IsReading clock
      → milliseconds clock + milliseconds_of lease < exact_limit
      → HasPresence id (n + 1) (join_presence R C J wire clock id (participant c) (some lease) db).1
  unfolding join_presence
  join_db wire clock id c lease n db (p, h, le) small reading exact =
      let old : HasPresence id (n + 1) db = (p, h, omega arith) in
      let q = participant c in
      let ms = milliseconds_of lease in
      let P : Action Db (Unit {0}) → Type 0 = λ f. HasPresence id (n + 1) (f db).1 in
      let (k, e, h') = join_script_lem R C J id p db h (omega arith) clock q ms reading exact in
      let r : (joined (milliseconds clock) ms q p).revision ≤ n + 1 =
        both_branches {A = Presence} (λ x. x.revision ≤ n + 1) (is_member q.connection_id p)
          (omega arith) (omega arith) in
      both_branches P (str_eq q.connection_id []) old (
        both_branches P (le64 ms 0) old (
          sent_db (HasPresence id (n + 1)) wire
            (join_script R C clock id q.connection_id (J.marshal q) (format_int ms)) (λ x. ok tt) db
            old (joined (milliseconds clock) ms q p, h', r)))

  open-Inside :
      (course : Course) (conn : Str) (n a : ℕ) (w : World Conn Db) (id : Str)
      → Inside id conn n a w
      → n + 1 < lua_limit
      → IsReading course.join_clock
      → milliseconds course.join_clock + milliseconds_of course.lease < exact_limit
      → Inside id conn (n + 1) a (open_session R C J T course a w).0
  unfolding open_session add_client joined_or_refused
  open-Inside course conn n a w id (s, i, c, h) small reading exact =
      let w' : World Conn Db = record w { room = add_client w.room a } in
      let x =
        join_presence R C J course.join_wire course.join_clock w.room.id (participant (w.heap a))
          (some course.lease) w.db in
      let db : HasPresence id (n + 1) x.1 =
        subst (λ r. HasPresence r (n + 1) x.1) i
          (join_db course.join_wire course.join_clock w.room.id (w.heap a) course.lease n w.db
            (subst (λ r. HasPresence r n w.db) (sym i) h) small reading exact) in
      first {A = World Conn Db × Bool} (λ v. Inside id conn (n + 1) a v.0) w.room.has_store _ _ s
        (ends w' x s i c db)
    where
      ends :
          (w' : World Conn Db) (x : Result (Unit {0}) × Db)
          → w'.room.has_store ≡ true
          → w'.room.id ≡ id
          → (w'.heap a).connection_id ≡ conn
          → HasPresence id (n + 1) x.1
          → Inside id conn (n + 1) a (joined_or_refused R C J T a w' x).0
      ends w' (ok u, db) s i c h = (s, i, c, h)
      ends w' (err e, db) s i c h =
          Same-Inside id conn (n + 1) a (record w' { db = db })
            (write_to R T (record w' { db = db }) a refused) (s, i, c, h)
            (write_to-Same R C J T a (record w' { db = db }) refused)

  presence-Inside :
      (course : Course) (conn : Str) (n a : ℕ) (w : World Conn Db) (id : Str)
      → Inside id conn n a w
      → n + 1 < lua_limit
      → IsReading course.presence_clock
      → Inside id conn (n + 1) a (send_presence R C J T course a w).0
  unfolding send_presence get_presence write_presence write_frame presence_or_refused
  presence-Inside course conn n a w id (s, i, c, (p, h, le)) small reading =
      let x = get_presence R C J course.presence_wire course.presence_clock w.room.id w.db in
      let now = milliseconds course.presence_clock in
      let (ids, db', e, h', _, _) =
        snapshot_script_lem R C J id course.presence_clock p w.db reading h (omega arith) in
      let after : HasPresence id (n + 1)
          (snapshot_script R C course.presence_clock w.room.id w.db).1 =
        rw (i, e) (pruned now p, h', omega (arith, (pruned-IsLater now p).1)) in
      let db : HasPresence id (n + 1) x.1 =
        sent_db (HasPresence id (n + 1)) course.presence_wire
          (snapshot_script R C course.presence_clock w.room.id) (snapshot_of_reply R C J) w.db
          (p, h, omega arith) after in
      first {A = World Conn Db × Bool} (λ v. Inside id conn (n + 1) a v.0) w.room.has_store _ _ s
        (ends x db)
    where
      ends :
          (x : Result PresenceSnapshot × Db)
          → HasPresence id (n + 1) x.1
          → Inside id conn (n + 1) a (presence_or_refused R C J T a w x).0
      ends (ok presence, db) h' = (s, i, ground arith, h')
      ends (err e, db) h' =
          Same-Inside id conn (n + 1) a (record w { db = db })
            (write_to R T (record w { db = db }) a refused) (s, i, c, h')
            (write_to-Same R C J T a (record w { db = db }) refused)

  and_if-P :
      (P Q : World Conn Db → Type 0) (x : World Conn Db × Bool)
      (f : World Conn Db → World Conn Db × Bool)
      → P x.0
      → ((w : World Conn Db) → P w → Q w)
      → ((w : World Conn Db) → P w → Q (f w).0)
      → Q (and_if R C J T x f).0
  and_if-P P Q (w, go) f h k l =
      both_branches {A = World Conn Db × Bool} (λ x. Q x.0) go (l w h) (k w h)

  close_session_departed :
      (course : Course) (a n : ℕ) (w : World Conn Db) (id conn : Str)
      → Inside id conn n a w
      → n + 1 < lua_limit
      → course.leave_wire ≡ answered
      → let w' = (close_session R C J T course a w).0 in
        (p' : Presence) × Held R C J id w'.db p'
        × (is_member conn p' ≡ false)
        × (p'.leases conn ≡ none)
        × (p'.revision ≤ n + 1)
  unfolding close_session remove_client leave_presence
  close_session_departed course a n w id conn (s, i, c, (p, h, le)) small wire =
      let (k, e, h') = leave_script_lem R C J id p w.db h (omega arith) conn in
      let x = leave_presence R C J answered id conn w.db in
      let same : x.1 ≡ (leave_script R C id conn w.db).1 =
        leave_db (leave_script R C id conn w.db) in
      (
        left conn p,
        rw (s, wire, i, c) (subst (λ db. Held R C J id db (left conn p)) (sym same) h'),
        rw (member-without conn conn p.roster, str_eq_refl conn),
        rw (str_eq_refl conn),
        count (is_member conn p),
      )
    where
      leave_db : (r : Result Reply × Db) → (and_then r (λ x db'. (ok tt, db'))).1 ≡ r.1
      leave_db (ok x, db) = refl
      leave_db (err x, db) = refl

      count : (b : Bool) → p.revision + one_if b ≤ n + 1
      count true = omega arith
      count false = omega arith

  -- A connection that makes no edit and does not resume, on a backend with Redis, with any other
  -- messages, and whatever becomes of its frames and of its commands but the last: when serveWS
  -- returns, the keys of the room's presence hold a presence in which the connection is no member
  -- and has no lease; at most three revisions were made. Its LeavePresence is answered, the clocks
  -- and the lease are exact in Lua, and the keys held a presence with a revision that stays below
  -- Lua's limit.
  pub serve_ws_departed :
      (policy : StaleWritePolicy) (course : Course) (last : Int64) (a : ℕ) (w : World Conn Db)
      (p : Presence)
      → w.room.has_store ≡ true
      → lt64 0 last ≡ false
      → OnlyReads course.inputs
      → course.leave_wire ≡ answered
      → IsReading course.join_clock
      → IsReading course.presence_clock
      → milliseconds course.join_clock + milliseconds_of course.lease < exact_limit
      → Held R C J w.room.id w.db p
      → p.revision + 3 < lua_limit
      → let w' = (serve_ws R C J T policy course last a w).0 in
        let conn = (w.heap a).connection_id in
        (p' : Presence) × Held R C J w.room.id w'.db p'
        × (is_member conn p' ≡ false)
        × (p'.leases conn ≡ none)
        × (p'.revision ≤ p.revision + 3)
  unfolding serve_ws
  serve_ws_departed policy course last a w p on fresh reads leave joins shows exact held small =
      let id = w.room.id in
      let conn = (w.heap a).connection_id in
      let n = p.revision in
      let start : Inside id conn n a w = (on, refl, refl, (p, held, omega arith)) in
      let In : ℕ → World Conn Db → Type 0 = λ k. Inside id conn k a in
      let opened = open-Inside course conn n a w id start (omega arith) joins exact in
      let x = and_if R C J T (open_session R C J T course a w) (send_state R C J T course last a) in
      let stated : In (n + 1) x.0 =
        and_if-P (In (n + 1)) (In (n + 1)) (open_session R C J T course a w)
          (send_state R C J T course last a) opened (λ v k. k)
          (λ v k.
            Same-Inside id conn (n + 1) a v (send_state R C J T course last a v).0 k
              (state-Same R C J T course last a v fresh)) in
      let y = and_if R C J T x (send_presence R C J T course a) in
      let ready : In (n + 1 + 1) y.0 =
        and_if-P (In (n + 1)) (In (n + 1 + 1)) x (send_presence R C J T course a) stated
          (Inside-mono id conn (n + 1) a)
          (λ v k. presence-Inside course conn (n + 1) a v id k (omega arith) shows) in
      let w' = if y.1 then read_loop R C J T policy a course.inputs y.0 else y.0 in
      let served : In (n + 1 + 1) w' =
        both_branches (In (n + 1 + 1)) y.1
          (Same-Inside id conn (n + 1 + 1) a y.0 (read_loop R C J T policy a course.inputs y.0)
            ready (loop-Same R C J T policy a course.inputs y.0 reads))
          ready in
      let (p', h, gone, free, le) =
        close_session_departed course a (n + 1 + 1) w' id conn served (omega arith) leave in
      (p', h, gone, free, omega arith)

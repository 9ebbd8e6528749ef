-- ===== src/Manager/PresenceWatch/Shown.antt =====
-- watchPresence of presence.go: what the clients have been shown.
use live_collab.Base.{
  ℕ, ◌≡◌, refl, sym, ◌∙◌, ap, subst, Bool, true, false, not, List, [], ◌∷◌, ◌++◌, arith, All,
  All-map, Int64, ◌⊎◌, inl, inr, ◌&&◌, Bool-cases, Str, str_eq, le64, if◌then◌else◌,
}
use live_collab.Base.Result.{Result, ok, err}
use live_collab.Message.{Frame, presence_update, PresenceSnapshot}
use live_collab.Transport.{Transport}
use live_collab.Client.{Client, write_frame, write_presence}
use live_collab.Room.{broadcast_presence_snapshot}
use live_collab.Room.Members.{registered}
use live_collab.Room.Fanout.{Distinct, each_client_lem}
use live_collab.Membership.Calls.{read_presence_changes}
use live_collab.Manager.PresenceWatch.{
  PresenceWatched, PresenceRound, show_presence, presence_round, watch_presence,
}

-- The snapshot of a round in which a change and then the presence were read, and the cursor.
abbrev completed : Str → Str → Result PresenceSnapshot → List PresenceSnapshot × Str
completed cursor next (ok snapshot) = (snapshot ∷ [], next)
completed cursor next (err e) = ([], cursor)

abbrev pub round_result : Str → PresenceRound → List PresenceSnapshot × Str
round_result cursor round =
    let (next, fine) = read_presence_changes cursor round.changes in
    if not fine
    then ([], cursor)
    else if str_eq next cursor
    then ([], cursor)
    else completed cursor next round.snapshot

-- The snapshots of all such rounds, and the cursor behind them.
abbrev pub shown : Str → List PresenceRound → List PresenceSnapshot × Str
shown cursor [] = ([], cursor)
shown cursor (round ∷ rounds) =
    let (now, next) = round_result cursor round in
    let (later, last) = shown next rounds in (now ++ later, last)

-- The client is registered, once, in each round.
abbrev pub Attends : ℕ → List PresenceRound → Type 0
Attends a [] = Unit {0}
Attends a (round ∷ rounds) =
    Distinct round.room.clients × (registered a round.room.clients ≡ true) × Attends a rounds

module _ (T : Transport) where
  open T use {Conn}

  -- Each write succeeds.
  abbrev pub TakesAll : Type 0
  TakesAll = (c : Conn) (f : Frame) → (T.write_json c f).1 ≡ true

  -- The client's own record of what it was sent: a snapshot, and the last one no older than this.
  abbrev HasNoted : Client Conn → PresenceSnapshot → Type 0
  HasNoted c s = (c.presence_sent ≡ true) × (le64 s.revision c.presence_revision ≡ true)

  -- Among the frames sent to the client there is a presence of this revision.
  abbrev pub WasSent : Client Conn → Int64 → Type 0
  WasSent c revision =
      (q : PresenceSnapshot) × (before after : List Frame) × (q.revision ≡ revision)
      × (T.sent c.conn ≡ before ++ presence_update q ∷ after)

  -- What the client has recorded as sent was sent.
  abbrev pub IsHonest : Client Conn → Type 0
  IsHonest c = (c.presence_sent ≡ false) ⊎ WasSent c c.presence_revision

  -- Among the frames sent to the client there is a presence no older than this one.
  abbrev pub HasSeen : Client Conn → PresenceSnapshot → Type 0
  HasSeen c s = (revision : Int64) × (le64 s.revision revision ≡ true) × WasSent c revision

  write-HasNoted :
      (c : Client Conn) (s : PresenceSnapshot) → TakesAll → HasNoted (write_presence T c s).0 s
  unfolding write_presence write_frame
  write-HasNoted c s all = ground (arith, all c.conn (presence_update s))

  keep-HasNoted :
      (c : Client Conn) (s p : PresenceSnapshot)
      → TakesAll
      → HasNoted c p
      → HasNoted (write_presence T c s).0 p
  unfolding write_presence write_frame
  keep-HasNoted c s p all (sent, le) = ground (arith, all c.conn (presence_update s))

  -- What a round does to one client: nothing, or the guarded write of its snapshot.
  abbrev written : List PresenceSnapshot → Client Conn → Client Conn
  written [] c = c
  written (s ∷ ss) c = written ss (write_presence T c s).0

  round_lem :
      (a : ℕ) (w : PresenceWatched Conn) (round : PresenceRound)
      → Distinct round.room.clients
      → registered a round.room.clients ≡ true
      → let w' = presence_round T w round in
        let (ss, cursor) = round_result w.cursor round in
        (w'.heap a ≡ written ss (w.heap a)) × (w'.cursor ≡ cursor)
  unfolding presence_round show_presence broadcast_presence_snapshot
  round_lem a w round distinct here =
      let (next, fine) = read_presence_changes w.cursor round.changes in
      let Q : PresenceWatched Conn → List PresenceSnapshot × Str → Type 0 =
        λ w' x. (w'.heap a ≡ written x.0 (w.heap a)) × (w'.cursor ≡ x.1) in
      branches Q (not fine) (refl, refl)
        (branches Q (str_eq next w.cursor) (refl, refl) (shown_lem next round.snapshot))
    where
      branches :
          {A B : Type 0} (Q : A → B → Type 0) (b : Bool) {x x' : A} {y y' : B}
          → Q x y
          → Q x' y'
          → Q (if b then x else x') (if b then y else y')
      branches Q true h h' = h
      branches Q false h h' = h'

      shown_lem :
          (next : Str) (result : Result PresenceSnapshot)
          → let w' = show_presence T round.room next w result in
            let (ss, cursor) = completed w.cursor next result in
            (w'.heap a ≡ written ss (w.heap a)) × (w'.cursor ≡ cursor)
      shown_lem next (err e) = (refl, refl)
      shown_lem next (ok s) = (
        each_client_lem T (λ c. (write_presence T c s).0) round.room.clients w.heap a distinct
            ∙ rw here,
        refl,
      )

  written-HasNoted :
      (ss : List PresenceSnapshot) (c : Client Conn) (p : PresenceSnapshot)
      → TakesAll
      → HasNoted c p
      → HasNoted (written ss c) p
  written-HasNoted [] c p all h = h
  written-HasNoted (s ∷ ss) c p all h = written-HasNoted ss _ p all (keep-HasNoted c s p all h)

  written-shown :
      (ss : List PresenceSnapshot) (c : Client Conn) → TakesAll → All (HasNoted (written ss c)) ss
  written-shown [] c all = record {}
  written-shown (s ∷ ss) c all = (
    written-HasNoted ss (write_presence T c s).0 s all (write-HasNoted c s all),
    written-shown ss (write_presence T c s).0 all,
  )

  written-append :
      (ss ts : List PresenceSnapshot) (c : Client Conn)
      → written (ss ++ ts) c ≡ written ts (written ss c)
  written-append [] ts c = refl
  written-append (s ∷ ss) ts c = written-append ss ts (write_presence T c s).0

  watch_lem :
      (a : ℕ) (rounds : List PresenceRound) (w : PresenceWatched Conn)
      → Attends a rounds
      → let w' = watch_presence T w rounds in
        let (ss, cursor) = shown w.cursor rounds in
        (w'.heap a ≡ written ss (w.heap a)) × (w'.cursor ≡ cursor)
  unfolding watch_presence
  watch_lem a [] w attends = (refl, refl)
  watch_lem a (round ∷ rounds) w (distinct, here, attends) =
      let w' = presence_round T w round in
      let w'' = watch_presence T w' rounds in
      let (ss, cursor) = round_result w.cursor round in
      let (e, c) = round_lem a w round distinct here in
      let Q : Str → Type 0 = λ x.
        (w''.heap a ≡ written (shown x rounds).0 (w'.heap a)) × (w''.cursor ≡ (shown x rounds).1) in
      let (e', c') = subst Q c (watch_lem a rounds w' attends) in
      let later = (shown cursor rounds).0 in
      (e' ∙ ap (written later) e ∙ sym (written-append ss later (w.heap a)), c')

  write-IsHonest :
      (c : Client Conn) (s : PresenceSnapshot)
      → TakesAll
      → IsHonest c
      → IsHonest (write_presence T c s).0
  unfolding write_presence write_frame
  write-IsHonest c s all h =
      let f = presence_update s in
      let frames : T.sent (T.write_json c.conn f).0 ≡ T.sent c.conn ++ f ∷ [] =
        T.write_json-ok c.conn f (all c.conn f) in
      elim (Bool-cases (c.presence_sent && le64 s.revision c.presence_revision)) [
        | inl old ↦ rw old h
        | inr new ↦ rw (new, all c.conn f) (inr (s, T.sent c.conn, [], refl, frames))
      ]

  written-IsHonest :
      (ss : List PresenceSnapshot) (c : Client Conn)
      → TakesAll
      → IsHonest c
      → IsHonest (written ss c)
  written-IsHonest [] c all h = h
  written-IsHonest (s ∷ ss) c all h =
      written-IsHonest ss (write_presence T c s).0 all (write-IsHonest c s all h)

  noted-HasSeen :
      (c : Client Conn) → IsHonest c → (s : PresenceSnapshot) → HasNoted c s → HasSeen c s
  noted-HasSeen c (inl never) s (sent, le) = cc
  noted-HasSeen c (inr frames) s (sent, le) = (c.presence_revision, le, frames)

  -- A client that is registered once in every round, on a connection that takes each frame: if what
  -- it has recorded as its last presence was sent before the rounds, then behind them the frames
  -- sent to it hold, for the snapshot of each round in which a change and the presence were read,
  -- a presence update of no lower revision; and the cursor is that of the last such round, so
  -- that a change whose snapshot could not be read is asked for again.
  pub watch_presence-HasSeen :
      (a : ℕ) (rounds : List PresenceRound) (w : PresenceWatched Conn)
      → TakesAll
      → IsHonest (w.heap a)
      → Attends a rounds
      → let w' = watch_presence T w rounds in
        All (HasSeen (w'.heap a)) (shown w.cursor rounds).0
        × (w'.cursor ≡ (shown w.cursor rounds).1)
  watch_presence-HasSeen a rounds w all honest attends =
      let ss = (shown w.cursor rounds).0 in
      let (e, cursor) = watch_lem a rounds w attends in
      let c = written ss (w.heap a) in
      let seen : All (HasSeen c) ss =
        All-map (noted-HasSeen c (written-IsHonest ss (w.heap a) all honest)) ss
          (written-shown ss (w.heap a) all) in
      (subst (λ c'. All (HasSeen c') ss) (sym e) seen, cursor)

-- ===== src/Membership/Run.antt =====
-- Any calls of the methods of redis_presence.go, by any backends and whatever becomes of them.
use live_collab.Base.{
  ◌+◌, ◌<◌, ◌≤◌, ◌≡◌, refl, sym, subst, Bool, true, false, List, [], ◌∷◌, Option, arith, Int64, Str,
  str_eq, le64, length, ◌==◌, if◌then◌else◌, both_branches,
}
use live_collab.Base.Result.{Result, ok, err, refused}
use live_collab.Message.{Participant}
use live_collab.Redis.{Redis, lua_limit}
use live_collab.Redis.Collections.{Collections, Clock, milliseconds, exact_limit, or_value}
use live_collab.Store.{Wire, answered, not_sent, answer_lost, Action, and_then, send, lift, pure}
use live_collab.Reply.{redis_int64}
use live_collab.Presence.{default_presence_lease}
use live_collab.Membership.{
  Json, join_script, leave_script, renew_script, prune_script, snapshot_script,
}
use live_collab.Membership.Calls.{
  join_presence, leave_presence, renew_presence, prune_presence, get_presence, milliseconds_of,
  snapshot_of_reply,
}
use live_collab.Membership.Spec.{Presence, joined, left, renewed, pruned}
use live_collab.Membership.Prune.{IsReading, prune_body_lem}
use live_collab.Membership.Refine.{Held, join_script_lem, leave_script_lem, renew_script_lem}
use live_collab.Membership.Snapshot.{snapshot_script_lem}
use live_collab.Base.Decimal.{format_int}
use live_collab.Membership.History.{
  IsLater, IsLater-refl, IsLater-trans, joined-IsLater, left-IsLater, renewed-IsLater,
  pruned-IsLater,
}

-- A call, with what becomes of its command and the time at which its script runs.
pub data Call : Type 0 where
  join : Wire → Clock → Participant → Option Int64 → Call
  leave : Wire → Str → Call
  renew : Wire → Clock → Str → Int64 → Call
  prune : Wire → Clock → Call
  snapshot : Wire → Clock → Call

-- The effect of a command that may not be sent.
abbrev pub sent_or : Wire → Presence → Presence → Presence
sent_or not_sent p q = p
sent_or _ p q = q

-- What a call is to do to the abstract presence.
abbrev pub after_call : Call → Presence → Presence
after_call (join wire clock q lease) p =
    if str_eq q.connection_id []
    then p
    else if le64 (milliseconds_of (or_value lease default_presence_lease)) 0
    then p
    else sent_or wire p
        (joined (milliseconds clock) (milliseconds_of (or_value lease default_presence_lease)) q p)
after_call (leave wire id) p = sent_or wire p (left id p)
after_call (renew wire clock id lease) p =
    if le64 (milliseconds_of lease) 0
    then p
    else sent_or wire p (renewed (milliseconds clock) (milliseconds_of lease) id p)
after_call (prune wire clock) p = sent_or wire p (pruned (milliseconds clock) p)
after_call (snapshot wire clock) p = sent_or wire p (pruned (milliseconds clock) p)

abbrev pub after_calls : List Call → Presence → Presence
after_calls [] p = p
after_calls (c ∷ cs) p = after_calls cs (after_call c p)

-- The times of a call are exact in Lua.
abbrev pub IsCall : Call → Type 0
IsCall (join wire clock q lease) =
    IsReading clock
    × (milliseconds clock + milliseconds_of (or_value lease default_presence_lease) < exact_limit)
IsCall (leave wire id) = Unit {0}
IsCall (renew wire clock id lease) =
    IsReading clock × (milliseconds clock + milliseconds_of lease < exact_limit)
IsCall (prune wire clock) = IsReading clock
IsCall (snapshot wire clock) = IsReading clock

abbrev pub AreCalls : List Call → Type 0
AreCalls [] = Unit {0}
AreCalls (c ∷ cs) = IsCall c × AreCalls cs

-- Later, and by one revision at most.
abbrev Follows : Presence → Presence → Type 0
Follows p q = IsLater p q × (q.revision ≤ p.revision + 1)

Follows-refl : (p : Presence) → Follows p p
Follows-refl p = (IsLater-refl p, omega arith)

sent_or-Follows : (w : Wire) (p q : Presence) → Follows p q → Follows p (sent_or w p q)
sent_or-Follows answered p q h = h
sent_or-Follows answer_lost p q h = h
sent_or-Follows not_sent p q h = Follows-refl p

after_call-Follows : (c : Call) (p : Presence) → Follows p (after_call c p)
after_call-Follows (join wire clock q lease) p =
    let ms = milliseconds_of (or_value lease default_presence_lease) in
    both_branches (Follows p) (str_eq q.connection_id []) (Follows-refl p) (
      both_branches (Follows p) (le64 ms 0) (Follows-refl p)
        (sent_or-Follows wire p _ (joined-IsLater (milliseconds clock) ms q p)))
after_call-Follows (leave wire id) p = sent_or-Follows wire p _ (left-IsLater id p)
after_call-Follows (renew wire clock id lease) p =
    both_branches (Follows p) (le64 (milliseconds_of lease) 0) (Follows-refl p)
      (sent_or-Follows wire p _ (renewed-IsLater (milliseconds clock) (milliseconds_of lease) id p))
after_call-Follows (prune wire clock) p =
    sent_or-Follows wire p _ (pruned-IsLater (milliseconds clock) p)
after_call-Follows (snapshot wire clock) p =
    sent_or-Follows wire p _ (pruned-IsLater (milliseconds clock) p)

-- A continuation that does not write keeps the database.
and_then_keeps :
    {D A B : Type 0} (x : Result A × D) (f : A → Action D B)
    → ((a : A) (db : D) → (f a db).1 ≡ db)
    → (and_then x f).1 ≡ x.1
and_then_keeps (ok a, db) f h = h a db
and_then_keeps (err e, db) f h = refl

module _ (R : Redis) (C : Collections R) (J : Json) (room : Str) where
  -- The database after a call.
  abbrev pub run_call : Call → R.Db → R.Db
  run_call (join wire clock q lease) db = (join_presence R C J wire clock room q lease db).1
  run_call (leave wire id) db = (leave_presence R C J wire room id db).1
  run_call (renew wire clock id lease) db = (renew_presence R C J wire clock room id lease db).1
  run_call (prune wire clock) db = (prune_presence R C J wire clock room db).1
  run_call (snapshot wire clock) db = (get_presence R C J wire clock room db).1

  abbrev pub run_calls : List Call → R.Db → R.Db
  run_calls [] db = db
  run_calls (c ∷ cs) db = run_calls cs (run_call c db)

  abbrev Holds : R.Db → Presence → Type 0
  Holds = Held R C J room

  -- A script that takes p to q, sent in any way.
  send_lem :
      {A B : Type 0} (wire : Wire) (m : Action R.Db A) (f : A → Action R.Db B) (p q : Presence)
      (db : R.Db)
      → ((a : A) (d : R.Db) → (f a d).1 ≡ d)
      → Holds db p
      → Holds (m db).1 q
      → Holds (and_then (send wire m db) f).1 (sent_or wire p q)
  send_lem answered m f p q db k h h' = subst (λ d. Holds d q) (sym (and_then_keeps (m db) f k)) h'
  send_lem not_sent m f p q db k h h' = h
  send_lem answer_lost m f p q db k h h' = h'

  -- An argument that is refused, or what follows.
  guarded :
      {A : Type 0} (p : Presence) (b : Bool) (m : Action R.Db A) {q : Presence} (db : R.Db)
      → Holds db p
      → Holds (m db).1 q
      → Holds ((if b then lift (err refused) else m) db).1 (if b then p else q)
  guarded p true m db h h' = h
  guarded p false m db h h' = h'

  pruned_lem :
      (clock : Clock) (p : Presence) (db : R.Db)
      → IsReading clock
      → Holds db p
      → p.revision + 1 < lua_limit
      → Holds (prune_script R C clock room db).1 (pruned (milliseconds clock) p)
        × Holds (snapshot_script R C clock room db).1 (pruned (milliseconds clock) p)
  unfolding prune_script
  pruned_lem clock p db reading h small =
      let (n, db', e, h', _) = prune_body_lem R C J room clock p db reading h small in
      let (ids, d, e', held, _, _) = snapshot_script_lem R C J room clock p db reading h small in
      (rw (and_then, e) h', rw e' held)

  run_call_lem :
      (c : Call) (p : Presence) (db : R.Db)
      → IsCall c
      → Holds db p
      → p.revision + 1 < lua_limit
      → Holds (run_call c db) (after_call c p)
  unfolding join_presence leave_presence renew_presence prune_presence get_presence
  run_call_lem (join wire clock q lease) p db (reading, exact) h small =
      let ms = milliseconds_of (or_value lease default_presence_lease) in
      let (n, e, held) = join_script_lem R C J room p db h small clock q ms reading exact in
      guarded p (str_eq q.connection_id []) _ db h (
        guarded p (le64 ms 0) _ db h (
          send_lem wire (join_script R C clock room q.connection_id (J.marshal q) (format_int ms))
            (λ a. pure record {}) p (joined (milliseconds clock) ms q p) db (λ a d. refl) h held))
  run_call_lem (leave wire id) p db _ h small =
      let (n, e, held) = leave_script_lem R C J room p db h small id in
      send_lem wire (leave_script R C room id) (λ a. pure record {}) p (left id p) db (λ a d. refl)
        h held
  run_call_lem (renew wire clock id lease) p db (reading, exact) h small =
      let ms = milliseconds_of lease in
      let (e, held) = renew_script_lem R C J room p db h small clock id ms reading exact in
      guarded p (le64 ms 0) _ db h (
        send_lem wire (renew_script R C clock room id (format_int ms)) _ p
          (renewed (milliseconds clock) ms id p) db
          (λ a d. and_then_keeps (redis_int64 a, d) (λ n. pure (n == 1)) (λ n d'. refl)) h held)
  run_call_lem (prune wire clock) p db reading h small =
      send_lem wire (prune_script R C clock room) (λ a. lift (redis_int64 a)) p
        (pruned (milliseconds clock) p) db (λ a d. refl) h (pruned_lem clock p db reading h small).0
  run_call_lem (snapshot wire clock) p db reading h small =
      send_lem wire (snapshot_script R C clock room) (λ a. lift (snapshot_of_reply R C J a)) p
        (pruned (milliseconds clock) p) db (λ a d. refl) h (pruned_lem clock p db reading h small).1

  -- From a database whose four keys of the room hold a presence, any calls of the five methods that
  -- change a room's presence, by any backends, whatever becomes of each command, at clocks in any
  -- order that Lua reads exactly, and with revisions that stay below Lua's limit: the keys hold
  -- what the calls are to do to the presence, each one all at once, and the revision has grown
  -- if any member has come or gone.
  pub run_calls-Holds :
      (cs : List Call) (p : Presence) (db : R.Db)
      → AreCalls cs
      → Holds db p
      → p.revision + length cs < lua_limit
      → Holds (run_calls cs db) (after_calls cs p) × IsLater p (after_calls cs p)
  run_calls-Holds [] p db _ h small = (h, IsLater-refl p)
  run_calls-Holds (c ∷ cs) p db (ok_c, ok_cs) h small =
      let (later, bound) = after_call-Follows c p in
      let held = run_call_lem c p db ok_c h (omega arith) in
      let (held', later') =
        run_calls-Holds cs (after_call c p) (run_call c db) ok_cs held (omega (arith, bound)) in
      (held', IsLater-trans p (after_call c p) (after_calls cs (after_call c p)) later later')

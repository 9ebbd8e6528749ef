-- ===== src/Membership/Results.antt =====
-- What RenewPresence, PrunePresence and GetPresence of redis_presence.go return when Redis answers.
use live_collab.Base.{
  ◌+◌, ◌<◌, ◌≡◌, refl, ◌∙◌, ap, inl, inr, Bool, true, false, List, [], ◌∷◌, Option, none, some,
  arith, Int64, Str, le64, ◌==◌, Option-cases, if◌then◌else◌,
}
use live_collab.Base.Result
use live_collab.Base.Result.{Result, ok}
use live_collab.Base.Decimal.{format_int, parse_int-format_int}
use live_collab.Message.{Participant}
use live_collab.Reply.{int, redis_int64, redis_string}
use live_collab.Redis.{Redis, lua_limit}
use live_collab.Redis.Collections.{
  Collections, Clock, milliseconds, values_of, exact_limit, one_if, is_some,
}
use live_collab.Store.{answered, and_then}
use live_collab.Store.Snapshot.{text_to_int_lem}
use live_collab.Membership.{Json, texts, renew_script}
use live_collab.Membership.History.{pruned-IsLater}
use live_collab.Membership.Calls.{
  renew_presence, get_presence, milliseconds_of, parse_participants, snapshot_of_reply,
  sort_participants,
}
use live_collab.Membership.Spec.{Presence, member, renews, pruned, text_of}
use live_collab.Membership.Prune.{IsReading}
use live_collab.Membership.Refine.{Held, renew_script_lem}
use live_collab.Membership.Snapshot.{snapshot_script_lem}
use live_collab.Membership.Sorted.{IsAscending, listed, sorted_lem}

module _ (R : Redis) (C : Collections R) (J : Json) (room : Str) where
  parse_listed :
      (roster : List Participant) (ids : List Str)
      → ((id : Str) (q : Participant) → member id roster ≡ some q → J.IsText q)
      → parse_participants R C J
          (texts (values_of (λ id. text_of J.marshal (member id roster)) ids))
        ≡ ok (listed roster ids)
  unfolding parse_participants texts values_of redis_string
  parse_listed roster [] ok_texts = refl
  parse_listed roster (f ∷ ids) ok_texts =
      let rest = parse_listed roster ids ok_texts in
      elim (Option-cases (member f roster)) [
        | inl e ↦ rw (values_of, e) rest
        | inr (q, e) ↦ rw (values_of, e, Result.◌>>=◌, J.unmarshal-marshal q (ok_texts f q e), rest)
      ]

  module _ (p : Presence) (db : R.Db) (held : Held R C J room db p)
      (small : p.revision + 1 < lua_limit) where
    -- RenewPresence with a positive lease, answered, where the keys hold a presence, the revision
    -- is below Lua's limit and the clock and the new expiry are exact in Lua: it returns true
    -- exactly if the connection is a member whose lease runs beyond the clock's reading.
    pub renew_presence_lem :
        (clock : Clock) (id : Str) (lease : Int64)
        → IsReading clock
        → milliseconds clock + milliseconds_of lease < exact_limit
        → le64 (milliseconds_of lease) 0 ≡ false
        → (renew_presence R C J answered clock room id lease db).0
          ≡ ok (renews (milliseconds clock) id p)
    unfolding renew_presence redis_int64
    renew_presence_lem clock id lease reading exact positive =
        let (e, _) =
          renew_script_lem R C J room p db held small clock id (milliseconds_of lease) reading
            exact in
        let db' = (renew_script R C clock room id (format_int (milliseconds_of lease)) db).1 in
        let pair : renew_script R C clock room id (format_int (milliseconds_of lease)) db
            ≡ (ok (int (one_if (renews (milliseconds clock) id p))), db') =
          ap (λ r. (r, db')) e in
        rw (renew_presence, positive, and_then, pair)
          (ap ok (is_one (renews (milliseconds clock) id p)))
      where
        is_one : (b : Bool) → (one_if b == 1) ≡ b
        is_one true = refl
        is_one false = refl

    -- GetPresence, answered, where the keys hold a presence, the revision is below Lua's limit, the
    -- clock is exact in Lua and encoding/json reads the members' records back: it returns the
    -- revision and the participants of the presence pruned at the clock's reading, in strictly
    -- ascending order of their connection IDs.
    pub get_presence_lem :
        (clock : Clock)
        → IsReading clock
        → ((id : Str) (q : Participant)
            → member id (pruned (milliseconds clock) p).roster ≡ some q
            → J.IsText q)
        → let q = pruned (milliseconds clock) p in
          (ps : List Participant) × ((get_presence R C J answered clock room db).0
            ≡ ok (record { revision = q.revision; participants = ps }))
          × IsAscending ps
          × ((id : Str) → member id ps ≡ member id q.roster)
    unfolding get_presence snapshot_of_reply redis_int64
    get_presence_lem clock reading ok_texts =
        let q = pruned (milliseconds clock) p in
        let (ids, db', e, h, distinct, all) =
          snapshot_script_lem R C J room clock p db reading held small in
        let (ascends, shows) = sorted_lem q.roster ids distinct in
        let number = text_to_int_lem (format_int q.revision) q.revision (
          parse_int-format_int q.revision
            (omega (arith, (pruned-IsLater (milliseconds clock) p).1))) in
        (
          sort_participants (listed q.roster ids),
          rw (and_then, e, number, parse_listed q.roster ids ok_texts),
          ascends,
          λ id. shows id ∙ rw (all id) (present (member id q.roster)),
        )
      where
        present : (o : Option Participant) → (if is_some o then o else none) ≡ o
        present none = refl
        present (some q) = refl

-- ===== src/Membership/Prune.antt =====
-- prunePresenceBody of redis_presence.go: it prunes the abstract presence at the clock's reading.
use live_collab.Base.{
  ℕ, ◌+◌, ◌*◌, ◌/◌, ◌<◌, ◌≡◌, refl, ◌∙◌, ap, ap₂, subst, inl, inr, not, List, [], ◌∷◌, Option, none,
  some, arith, Str, contains, ◌==◌, if◌then◌else◌, Bool-cases, Option-cases,
}
use live_collab.Base.Result.{ok}
use live_collab.Base.Decimal.{format_int}
use live_collab.Message.{Participant}
use live_collab.Reply.{Reply, nil, text}
use live_collab.Redis.{Redis, lua_limit}
use live_collab.Redis.Collections.{Collections, Clock, milliseconds, is_some, one_if, exact_limit}
use live_collab.Keys.{room_presence_key, room_presence_expiry_key}
use live_collab.Store.{and_then, pure}
use live_collab.Store.Commands.{to_number_lem}
use live_collab.Membership.{
  Json, presence_now, has_expired, expel, prune_loop, prune_body, announce_if,
}
use live_collab.Membership.Spec.{
  Presence, member, is_member, unexpired, any_expired, pruned, text_of, IsExact, HoldsPresence,
}
use live_collab.Membership.Steps.{hdel_lem, same_presence}
use live_collab.Membership.LeaseSteps.{zrem_lem, zrem_up_to_lem}
use live_collab.Membership.Announce.{announced, announce_lem}
use live_collab.Membership.Sweep.{
  sweep_one, gone_one, swept, gone, gone_lem, revision-swept, member-pruned, lease-pruned,
}

-- A reading of the clock whose milliseconds are exact.
abbrev pub IsReading : Clock → Type 0
IsReading c = (c.micros < 1000000) × (milliseconds c < exact_limit)

module _ (R : Redis) (C : Collections R) where
  pub presence_now_lem :
      (c : Clock) (db : R.Db)
      → IsReading c
      → presence_now R C c db ≡ (ok (R.number (milliseconds c)), db)
  unfolding presence_now
  presence_now_lem c db (small, exact) = rw (
    R.tonumber-format_int c.seconds (omega arith),
    R.tonumber-format_int c.micros (omega arith),
    C.times_thousand-number c.seconds (omega arith),
    C.floor_thousandth-number c.micros (omega arith),
    C.add-number (c.seconds * 1000) (c.micros / 1000) exact,
  )

  module _ (J : Json) (room : Str) where
    abbrev Held : R.Db → Presence → Type 0
    Held db p = HoldsPresence J (R.look db) room p

    expired_lem :
        (now : ℕ) (id : Str) (p : Presence) (db : R.Db)
        → now < exact_limit
        → Held db p
        → (r : Reply) × (C.zscore db (room_presence_expiry_key room) id ≡ ok r)
          × (has_expired R C (R.number now) r db ≡ (ok (not (unexpired now (p.leases id))), db))
    unfolding has_expired
    expired_lem now id p db small held = elim (Option-cases (p.leases id)) [
      | inl e ↦ (
        nil,
        C.zscore-none db (room_presence_expiry_key room) id held.leased.kind
            (held.leased.scores id ∙ e),
        rw e,
      )
      | inr (s, e) ↦
          let exact : s < exact_limit = subst IsExact e (held.leased.exact id) in
          (
            text (format_int s),
            C.zscore-some db (room_presence_expiry_key room) id s held.leased.kind
                (held.leased.scores id ∙ e) exact,
            rw
                (
                  to_number_lem R (format_int s) s db (omega arith) refl,
                  C.num_le-number s now exact small,
                  e,
                )
                (ap (λ b. (ok b, db)) (ground arith)),
          )
    ]

    round_lem :
        (now : ℕ) (id : Str) (p : Presence) (db : R.Db)
        → Held db p
        → (db' : R.Db) × ((if not (unexpired now (p.leases id)) then expel R C room id else pure 0)
              db
            ≡ (ok (gone_one now id p), db'))
          × Held db' (sweep_one now id p)
    unfolding expel
    round_lem now id p db held = elim (Bool-cases (unexpired now (p.leases id))) [
      | inl on ↦ (db, rw on, rw on held)
      | inr off ↦
          let (e, held') = hdel_lem R C J room p db held id in
          let x = C.hdel db (room_presence_key room) id in
          let (n, e', held'') = zrem_lem R C J room _ x.1 held' id in
          (
            (C.zrem x.1 (room_presence_expiry_key room) id).1,
            rw (off, and_then, e, e'),
            rw off held'',
          )
    ]

    prune_loop_lem :
        (now : ℕ) (ids : List Str) (removed : ℕ) (p : Presence) (db : R.Db)
        → now < exact_limit
        → Held db p
        → (db' : R.Db) × (prune_loop R C (R.number now) room ids removed db
            ≡ (ok (removed + gone now ids p), db'))
          × Held db' (swept now ids p)
    unfolding prune_loop swept gone
    prune_loop_lem now [] removed p db small held = (db, ap (λ n. (ok n, db)) (omega arith), held)
    prune_loop_lem now (id ∷ ids) removed p db small held =
        let (r, score, expired) = expired_lem now id p db small held in
        let (db₁, e, held₁) = round_lem now id p db held in
        let (db', e', held') =
          prune_loop_lem now ids (removed + gone_one now id p) (sweep_one now id p) db₁ small
            held₁ in
        (db', rw (and_then, score, expired, e) (e' ∙ ap (λ n. (ok n, db')) (omega arith)), held')

    text-some : (o : Option Participant) → is_some (text_of J.marshal o) ≡ is_some o
    text-some none = refl
    text-some (some q) = refl

    pub keys_lem :
        (p : Presence) (db : R.Db)
        → Held db p
        → (f : Str) → contains f (C.keys db (room_presence_key room)) ≡ is_member f p
    keys_lem p db held f =
        C.contains-keys db (room_presence_key room) f held.members.kind
        ∙ ap is_some (held.members.fields f)
        ∙ text-some (member f p.roster)

    announce_if_lem :
        (n : ℕ) (p : Presence) (db : R.Db)
        → Held db p
        → p.revision + 1 < lua_limit
        → (r : ℕ) × (db' : R.Db) × (announce_if R C n room db ≡ (ok r, db'))
          × Held db' (record p { revision = p.revision + one_if (not (n == 0)) })
    unfolding announce_if
    announce_if_lem n p db held small = elim (Bool-cases (n == 0)) [
      | inl e ↦ (
        0,
        db,
        rw e,
        rw e (
            same_presence J (R.look db) room p (record p { revision = p.revision + 0 }) (λ id. refl)
              (λ id. refl) (omega arith) held),
      )
      | inr e ↦
          let (a, h) = announce_lem R C J room p db held small in
          (p.revision + 1, announced R C J room p db held small, rw e a, rw e h)
    ]

    -- The script's body leaves the presence pruned at the clock's reading; the number of members
    -- that it counts is 0 exactly if no member was without a lease beyond that.
    pub prune_body_lem :
        (clock : Clock) (p : Presence) (db : R.Db)
        → IsReading clock
        → Held db p
        → p.revision + 1 < lua_limit
        → (n : ℕ) × (db' : R.Db) × (prune_body R C clock room db ≡ (ok n, db'))
          × Held db' (pruned (milliseconds clock) p)
          × (not (n == 0) ≡ any_expired (milliseconds clock) p.leases p.roster)
    unfolding prune_body
    prune_body_lem clock p db reading held small =
        let now = milliseconds clock in
        let ids = C.keys db (room_presence_key room) in
        let listed = keys_lem p db held in
        let kept = revision-swept now ids p in
        let (db₁, e₁, h₁) = prune_loop_lem now ids 0 p db reading.1 held in
        let e₁' : prune_loop R C (R.number now) room ids 0 db ≡ (ok (gone now ids p), db₁) =
          e₁ ∙ ap (λ n. (ok n, db₁)) (omega arith) in
        let (c, e₂, h₂) = zrem_up_to_lem R C J room (swept now ids p) db₁ h₁ now reading.1 in
        let db₂ = (C.zrem_up_to db₁ (room_presence_expiry_key room) (R.number now)).1 in
        let (r, db₃, e₃, h₃) = announce_if_lem (gone now ids p) _ db₂ h₂ (omega (arith, kept)) in
        (
          gone now ids p,
          db₃,
          rw (
            and_then,
            presence_now_lem clock db reading,
            C.hkeys-reply db (room_presence_key room) held.members.kind,
            e₁',
            e₂,
            e₃,
          ),
          same_presence J (R.look db₃) room _ (pruned now p)
              (λ id. member-pruned now ids id p listed) (λ id. lease-pruned now ids id p)
              (ap₂ (◌+◌) kept (ap one_if (gone_lem now ids p listed))) h₃,
          gone_lem now ids p listed,
        )

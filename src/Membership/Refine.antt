-- ===== src/Membership/Refine.antt =====
-- JoinPresence, LeavePresence and RenewPresence of redis_presence.go on the abstract presence.
use live_collab.Base.{
  ℕ, ◌+◌, ◌<◌, ◌≡◌, refl, sym, ◌∙◌, ap, subst, inl, inr, true, some, arith, Str, str_eq-cases, leb,
  Bool-cases, Option-cases,
}
use live_collab.Base.Result.{ok}
use live_collab.Base.Decimal.{format_int}
use live_collab.Message.{Participant}
use live_collab.Reply.{Reply, nil, text, int}
use live_collab.Redis.{Redis, lua_limit}
use live_collab.Redis.Collections.{
  Collections, Clock, milliseconds, with_value, one_if, exact_limit,
}
use live_collab.Keys.{room_presence_key, room_presence_expiry_key}
use live_collab.Store.{and_then}
use live_collab.Store.Commands.{number_at_lem}
use live_collab.Membership.{
  Json, current_revision, return_new, join_new, join_script, leave_script, renew_from, renew_found,
  renew_script,
}
use live_collab.Membership.Spec.{
  Presence, member, is_member, joined, left, longer, renews, renewed, IsExact, HoldsPresence,
}
use live_collab.Membership.Steps.{hsetnx-new, hsetnx-old, hdel_lem, hexists_lem, same_presence}
use live_collab.Membership.LeaseSteps.{zadd_lem, zadd_xx_lem, zrem_lem}
use live_collab.Membership.Announce.{announced, announce_lem}
use live_collab.Membership.Prune.{IsReading, presence_now_lem}

module _ (R : Redis) (C : Collections R) (J : Json) (room : Str) where
  abbrev pub Held : R.Db → Presence → Type 0
  Held db p = HoldsPresence J (R.look db) room p

  -- The two ways in which a script returns a revision.
  current_lem :
      (p : Presence) (db : R.Db)
      → Held db p
      → p.revision < lua_limit
      → current_revision R C room db ≡ (ok (int p.revision), db)
  unfolding current_revision
  current_lem p db held small = rw (
    and_then,
    number_at_lem R _ p.revision db small held.revised.counter,
    R.to_reply-number p.revision small,
  )

  return_lem :
      (p : Presence) (db : R.Db)
      → Held db p
      → p.revision + 1 < lua_limit
      → (db' : R.Db) × (return_new R C room db ≡ (ok (int (p.revision + 1)), db'))
        × Held db' (record p { revision = p.revision + 1 })
  unfolding return_new
  return_lem p db held small =
      let (a, h) = announce_lem R C J room p db held small in
      (announced R C J room p db held small, rw (and_then, a), h)

  module _ (p : Presence) (db : R.Db) (held : Held db p) (small : p.revision + 1 < lua_limit) where
    pub join_script_lem :
        (clock : Clock) (q : Participant) (lease : ℕ)
        → IsReading clock
        → milliseconds clock + lease < exact_limit
        → let x = join_script R C clock room q.connection_id (J.marshal q) (format_int lease) db in
          (n : ℕ) × (x.0 ≡ ok (int n)) × Held x.1 (joined (milliseconds clock) lease q p)
    unfolding join_script join_new
    join_script_lem clock q lease reading exact =
        elim (Option-cases (member q.connection_id p.roster)) [
          | inl absent ↦
              let (e, h) = hsetnx-new R C J room p db held q absent in
              let db₁ = (C.hsetnx db (room_presence_key room) q.connection_id (J.marshal q)).1 in
              let (m, e', h') =
                zadd_lem R C J room _ db₁ h q.connection_id (milliseconds clock + lease) exact in
              let (db₃, e'', h'') = return_lem _ _ h' small in
              rw
                (
                  and_then,
                  presence_now_lem R C clock db reading,
                  e,
                  R.tonumber-format_int lease (omega arith),
                  C.add-number (milliseconds clock) lease exact,
                  e',
                  e'',
                  absent,
                )
                (p.revision + 1, refl, h'')
          | inr (r, there) ↦
              let (e, h) = hsetnx-old R C J room p db held q r there in
              rw
                (
                  and_then,
                  presence_now_lem R C clock db reading,
                  e,
                  current_lem p _ h (omega arith),
                  there,
                )
                (p.revision, refl, h)
        ]

    pub leave_script_lem :
        (id : Str)
        → let x = leave_script R C room id db in (n : ℕ) × (x.0 ≡ ok (int n)) × Held x.1 (left id p)
    unfolding leave_script
    leave_script_lem id =
        let (e, h) = hdel_lem R C J room p db held id in
        let db₁ = (C.hdel db (room_presence_key room) id).1 in
        let (m, e', h') = zrem_lem R C J room _ db₁ h id in
        elim (Bool-cases (is_member id p)) [
          | inl there ↦
              let (db₃, e'', h'') = return_lem _ _ h' small in
              rw (and_then, e, there, e', e'') (p.revision + 1, refl, h'')
          | inr absent ↦
              rw (and_then, e, absent, e', current_lem _ _ h' (omega arith))
                (
                  p.revision,
                  refl,
                  same_presence J _ room _ (record (left id p) { revision = p.revision + 0 })
                      (λ f. refl) (λ f. refl) (omega arith) h',
                )
        ]

    lease_same :
        (id : Str) (s : ℕ)
        → p.leases id ≡ some s
        → (f : Str) → p.leases f ≡ with_value id (some s) p.leases f
    lease_same id s e f = elim (str_eq-cases id f) [
      | inl (t, same) ↦ rw t (ap p.leases (sym same) ∙ e)
      | inr t ↦ rw t
    ]

    renew_from_lem :
        (now lease s : ℕ) (id : Str)
        → now + lease < exact_limit
        → p.leases id ≡ some s
        → s < exact_limit
        → let x = renew_from R C (R.number now) (R.number s) room id (format_int lease) db in
          (x.0 ≡ ok (int 1))
          × Held x.1 (record p { leases = with_value id (longer (now + lease) (some s)) p.leases })
    unfolding renew_from
    renew_from_lem now lease s id exact e small_s =
        let num = R.tonumber-format_int lease (omega arith) in
        let sum = C.add-number now lease exact in
        let le = C.num_le-number (now + lease) s exact small_s in
        elim (Bool-cases (leb (now + lease) s)) [
          | inl long ↦
              rw (and_then, num, sum, le, long)
                (refl, same_presence J _ room p _ (λ f. refl) (lease_same id s e) refl held)
          | inr short ↦
              let (z, h) = zadd_xx_lem R C J room p db held id (now + lease) s exact e in
              rw (and_then, num, sum, le, short, z) (refl, h)
        ]

    renew_found_lem :
        (now lease : ℕ) (id : Str) (r : Reply)
        → now + lease < exact_limit
        → C.zscore db (room_presence_expiry_key room) id ≡ ok r
        → is_member id p ≡ true
        → let x = renew_found R C (R.number now) room id (format_int lease) r db in
          (x.0 ≡ ok (int (one_if (renews now id p)))) × Held x.1 (renewed now lease id p)
    unfolding renew_found
    renew_found_lem now lease id r exact score there = elim (Option-cases (p.leases id)) [
      | inl e ↦
          let nothing : nil ≡ r =
            ok_same
              (sym (C.zscore-none db _ id held.leased.kind (held.leased.scores id ∙ e)) ∙ score) in
          rw (← nothing, there, e) (refl, held)
      | inr (s, e) ↦
          let small_s : s < exact_limit = subst IsExact e (held.leased.exact id) in
          let value : text (format_int s) ≡ r = ok_same (
            sym (C.zscore-some db _ id s held.leased.kind (held.leased.scores id ∙ e) small_s)
            ∙ score) in
          let num = R.tonumber-format_int s (omega arith) in
          let le = C.num_le-number s now small_s (omega arith) in
          elim (Bool-cases (leb s now)) [
            | inl old ↦ rw (← value, and_then, num, le, old, there, e, old) (refl, held)
            | inr on ↦
                rw (← value, and_then, num, le, on, there, e, on)
                  (renew_from_lem now lease s id exact e small_s)
          ]
    ]
      where
        ok_same : {v w : Reply} → ok v ≡ ok w → v ≡ w
        ok_same h = cc

    pub renew_script_lem :
        (clock : Clock) (id : Str) (lease : ℕ)
        → IsReading clock
        → milliseconds clock + lease < exact_limit
        → let x = renew_script R C clock room id (format_int lease) db in
          (x.0 ≡ ok (int (one_if (renews (milliseconds clock) id p))))
          × Held x.1 (renewed (milliseconds clock) lease id p)
    unfolding renew_script
    renew_script_lem clock id lease reading exact =
        let now = presence_now_lem R C clock db reading in
        let there = hexists_lem R C J room p db held id in
        let (r, score) = score_reply in
        elim (Bool-cases (is_member id p)) [
          | inl m ↦
              rw (and_then, now, score, there, m)
                (rw m at (renew_found_lem (milliseconds clock) lease id r exact score m))
          | inr n ↦ rw (and_then, now, score, there, n) (refl, held)
        ]
      where
        score_reply : (r : Reply) × (C.zscore db (room_presence_expiry_key room) id ≡ ok r)
        score_reply = elim (Option-cases (p.leases id)) [
          | inl e ↦ (nil, C.zscore-none db _ id held.leased.kind (held.leased.scores id ∙ e))
          | inr (s, e) ↦ (
            text (format_int s),
            C.zscore-some db _ id s held.leased.kind (held.leased.scores id ∙ e)
                (subst IsExact e (held.leased.exact id)),
          )
        ]

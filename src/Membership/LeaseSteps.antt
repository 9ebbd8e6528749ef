-- ===== src/Membership/LeaseSteps.antt =====
-- The commands on the leases of a room whose presence is held.
use live_collab.Base.{
  ℕ, ◌<◌, ◌≡◌, ap, inl, inr, Option, none, some, Str, str_eq, leb, if◌then◌else◌, Bool-cases,
}
use live_collab.Base.Result.{ok}
use live_collab.Redis.{Redis}
use live_collab.Redis.Collections.{Collections, score_of, with_value, above, exact_limit}
use live_collab.Keys.{room_presence_expiry_key}
use live_collab.Membership.{Json}
use live_collab.Membership.Spec.{Presence, IsExact, HoldsPresence}
use live_collab.Membership.Steps.{zset_step}

module _ (R : Redis) (C : Collections R) (J : Json) (room : Str) (p : Presence) (db : R.Db)
    (held : HoldsPresence J (R.look db) room p) where
  without-IsExact : (id f : Str) → IsExact (with_value id none p.leases f)
  without-IsExact id f = elim (Bool-cases (str_eq id f)) [
    | inl e ↦ rw e tt
    | inr e ↦ rw e (held.leased.exact f)
  ]

  with-same :
      (id f : Str) (v : Option ℕ)
      → with_value id v (score_of (R.look db (room_presence_expiry_key room))) f
        ≡ with_value id v p.leases f
  with-same id f v = ap (λ (w : Option ℕ). if str_eq id f then v else w) (held.leased.scores f)

  pub zrem_lem :
      (id : Str)
      → let x = C.zrem db (room_presence_expiry_key room) id in
        (n : ℕ) × (x.0 ≡ ok n)
        × HoldsPresence J (R.look x.1) room (record p { leases = with_value id none p.leases })
  zrem_lem id = (
    _,
    C.zrem-reply db (room_presence_expiry_key room) id held.leased.kind,
    zset_step J room p (R.look db) _ held _ _
        (C.zrem-step db (room_presence_expiry_key room) id held.leased.kind)
        (λ f. with-same id f none) (without-IsExact id),
  )

  with-IsExact :
      (id : Str) (s : ℕ) → s < exact_limit → (f : Str) → IsExact (with_value id (some s) p.leases f)
  with-IsExact id s h f = elim (Bool-cases (str_eq id f)) [
    | inl e ↦ rw e h
    | inr e ↦ rw e (held.leased.exact f)
  ]

  -- ZADD, and ZADD with XX of a member that has a lease.
  pub zadd_lem :
      (id : Str) (s : ℕ)
      → s < exact_limit
      → let x = C.zadd db (room_presence_expiry_key room) (R.number s) id in
        (n : ℕ) × (x.0 ≡ ok n)
        × HoldsPresence J (R.look x.1) room (record p { leases = with_value id (some s) p.leases })
  zadd_lem id s h = (
    _,
    C.zadd-reply db (room_presence_expiry_key room) s id held.leased.kind h,
    zset_step J room p (R.look db) _ held _ _
        (C.zadd-step db (room_presence_expiry_key room) s id held.leased.kind h)
        (λ f. with-same id f (some s)) (with-IsExact id s h),
  )

  pub zadd_xx_lem :
      (id : Str) (s old : ℕ)
      → s < exact_limit
      → p.leases id ≡ some old
      → let x = C.zadd_xx db (room_presence_expiry_key room) (R.number s) id in
        (x.0 ≡ ok 0)
        × HoldsPresence J (R.look x.1) room (record p { leases = with_value id (some s) p.leases })
  zadd_xx_lem id s old h there = (
    C.zadd_xx-reply db (room_presence_expiry_key room) s id held.leased.kind h,
    zset_step J room p (R.look db) _ held _ _
        (C.zadd_xx-step db (room_presence_expiry_key room) s id held.leased.kind h)
        (λ f. rw (held.leased.scores id, there) (with-same id f (some s))) (with-IsExact id s h),
  )

  above-IsExact : (n : ℕ) (o : Option ℕ) → IsExact o → IsExact (above n o)
  above-IsExact n none h = tt
  above-IsExact n (some s) h = elim (Bool-cases (leb s n)) [ inl e ↦ rw e tt | inr e ↦ rw e h ]

  pub zrem_up_to_lem :
      (n : ℕ)
      → n < exact_limit
      → let x = C.zrem_up_to db (room_presence_expiry_key room) (R.number n) in
        (c : ℕ) × (x.0 ≡ ok c)
        × HoldsPresence J (R.look x.1) room (record p { leases = λ id. above n (p.leases id) })
  zrem_up_to_lem n h =
      let (c, e) = C.zrem_up_to-reply db (room_presence_expiry_key room) n held.leased.kind h in
      (
        c,
        e,
        zset_step J room p (R.look db) _ held _ _
            (C.zrem_up_to-step db (room_presence_expiry_key room) n held.leased.kind h)
            (λ f. ap (above n) (held.leased.scores f))
            (λ f. above-IsExact n (p.leases f) (held.leased.exact f)),
      )

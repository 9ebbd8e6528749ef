-- ===== src/Presence/Sweep.antt =====
-- sweepPresenceOnce of presence_lease.go: every room that SCAN finds is pruned. The context is part
-- of the state, as other goroutines end it.
use live_collab.Base.{
  ℕ, zero, suc, ◌≡◌, Bool, List, [], ◌∷◌, Option, none, some, Int64, Str, lit, str_eq,
  if◌then◌else◌, Bool-cases, inl, inr,
}
use live_collab.Base.Result.{Result, ok, err, context_done}

-- Go on behind a call that returned no error.
abbrev if_pruned : {D : Type 0} → Result Int64 × D → Result (Unit {0}) × D → Result (Unit {0}) × D
if_pruned (ok n, db) rest = rest
if_pruned (err e, db) rest = (err e, db)

-- Behind a page: the next one, or the end of the sweep.
abbrev after_page :
    {D : Type 0}
    → (Str → D → Option (Result (Unit {0}) × D))
    → Str
    → Result (Unit {0}) × D
    → Option (Result (Unit {0}) × D)
after_page continue next (err e, db) = some (err e, db)
after_page continue next (ok u, db) =
    if str_eq next (lit "0") then some (ok (record {}), db) else continue next db

module _ {D : Type 0} (cancelled : D → Bool) (scan : Str → D → Result (List Str × Str) × D)
    (prune : Str → D → Result Int64 × D) where
  -- The loop over the rooms of a page.
  unfoldable pub prune_rooms : List Str → D → Result (Unit {0}) × D
  prune_rooms [] db = (ok (record {}), db)
  prune_rooms (room ∷ rooms) db =
      let pruned = prune room db in
      let rest = prune_rooms rooms pruned.1 in
      if cancelled db then (err context_done, db) else if_pruned pruned rest

  after_scan :
      (Str → D → Option (Result (Unit {0}) × D))
      → Result (List Str × Str) × D
      → Option (Result (Unit {0}) × D)
  unfolding prune_rooms
  after_scan continue (err e, db) = some (err e, db)
  after_scan continue (ok (rooms, next), db) = after_page continue next (prune_rooms rooms db)

  -- The loop over the pages, on one unit of fuel for each.
  unfoldable pub sweep_from : ℕ → Str → D → Option (Result (Unit {0}) × D)
  unfolding after_scan
  sweep_from zero cursor db = none
  sweep_from (suc fuel) cursor db =
      if cancelled db
      then some (err context_done, db)
      else after_scan (sweep_from fuel) (scan cursor db)

  -- sweepPresenceOnce.
  unfoldable pub sweep_presence_once : ℕ → D → Option (Result (Unit {0}) × D)
  unfolding sweep_from
  sweep_presence_once fuel db = sweep_from fuel (lit "0") db

  -- What is known of a continuation that is known to return more often.
  abbrev Extends :
      (Str → D → Option (Result (Unit {0}) × D))
      → (Str → D → Option (Result (Unit {0}) × D))
      → Type 0
  Extends k k' =
      (cursor : Str) (db : D) (x : Result (Unit {0}) × D)
      → k cursor db ≡ some x
      → k' cursor db ≡ some x

  page-Extends :
      (k k' : Str → D → Option (Result (Unit {0}) × D)) (next : Str) (r : Result (Unit {0}) × D)
      (x : Result (Unit {0}) × D)
      → Extends k k'
      → after_page k next r ≡ some x
      → after_page k' next r ≡ some x
  page-Extends k k' next (err e, db) x more h = h
  page-Extends k k' next (ok u, db) x more h = elim (Bool-cases (str_eq next (lit "0"))) [
    | inl e ↦ rw e (rw e at h)
    | inr e ↦ rw e (more next db x (rw e at h))
  ]

  scan-Extends :
      (k k' : Str → D → Option (Result (Unit {0}) × D)) (r : Result (List Str × Str) × D)
      (x : Result (Unit {0}) × D)
      → Extends k k'
      → after_scan k r ≡ some x
      → after_scan k' r ≡ some x
  unfolding after_scan
  scan-Extends k k' (err e, db) x more h = h
  scan-Extends k k' (ok (rooms, next), db) x more h =
      page-Extends k k' next (prune_rooms rooms db) x more h

  -- A sweep that ends on some fuel ends alike on more.
  sweep_from-Extends : (n : ℕ) → Extends (sweep_from n) (sweep_from (suc n))
  unfolding sweep_from
  sweep_from-Extends zero cursor db x h = cc
  sweep_from-Extends (suc n) cursor db x h = elim (Bool-cases (cancelled db)) [
    | inl e ↦ rw e (rw e at h)
    | inr e ↦ rw e (
        scan-Extends (sweep_from n) (sweep_from (suc n)) (scan cursor db) x (sweep_from-Extends n)
          (rw e at h))
  ]

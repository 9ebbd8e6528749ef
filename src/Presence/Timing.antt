-- ===== src/Presence/Timing.antt =====
-- withDefaults of presence_lease.go: positive intervals, and a lease of three heartbeats.
use live_collab.Base.{
  ◌*◌, ◌<◌, ◌≤◌, ◌≡◌, false, arith, inl, inr, Int64, int64_limit, le64, lt64, rank64, if◌then◌else◌,
  Bool-cases,
}
use live_collab.Presence.{PresenceTiming, with_defaults, or_fallback, thrice}

-- A positive int64.
abbrev pub IsPositive : Int64 → Type 0
IsPositive d = (0 < d) × (d < int64_limit)

or_fallback-IsPositive :
    (d fallback : Int64)
    → d < 0x10000000000000000
    → IsPositive fallback
    → IsPositive (or_fallback d fallback)
unfolding rank64
or_fallback-IsPositive d fallback w h = elim (Bool-cases (le64 d 0)) [
  | inl e ↦ rw e h
  | inr e ↦ rw e (ground arith, ground arith)
]

or_fallback_lem : (d fallback : Int64) → IsPositive d → or_fallback d fallback ≡ d
unfolding rank64
or_fallback_lem d fallback h = ground arith

longer-IsPositive :
    (lease other : Int64)
    → other < 0x10000000000000000
    → IsPositive lease
    → IsPositive (if lt64 lease other then other else lease)
unfolding rank64
longer-IsPositive lease other w h = elim (Bool-cases (lt64 lease other)) [
  | inl e ↦ rw e (ground arith, ground arith)
  | inr e ↦ rw e h
]

longer_lem : (l t : Int64) → lt64 (if lt64 l t then t else l) t ≡ false
longer_lem l t = ground arith

-- The fields are int64 values.
abbrev pub IsWords : PresenceTiming → Type 0
IsWords p =
    (p.heartbeat_interval < 0x10000000000000000)
    × (p.lease_duration < 0x10000000000000000)
    × (p.sweep_interval < 0x10000000000000000)

-- Whatever the environment gives, the intervals and the lease are positive, and withDefaults
-- changes nothing a second time, also where three heartbeats overflow.
pub with_defaults-IsPositive :
    (p : PresenceTiming)
    → IsWords p
    → let q = with_defaults p in
      IsPositive q.heartbeat_interval
      × IsPositive q.lease_duration
      × IsPositive q.sweep_interval
      × (with_defaults q ≡ q)
unfolding with_defaults
with_defaults-IsPositive p (wh, wl, ws) =
    let heartbeat = or_fallback p.heartbeat_interval 10000000000 in
    let lease = or_fallback p.lease_duration 30000000000 in
    let sweep = or_fallback p.sweep_interval 5000000000 in
    let h = or_fallback-IsPositive p.heartbeat_interval 10000000000 wh (omega arith) in
    let l = or_fallback-IsPositive p.lease_duration 30000000000 wl (omega arith) in
    let s = or_fallback-IsPositive p.sweep_interval 5000000000 ws (omega arith) in
    let long = longer-IsPositive lease (thrice heartbeat) (omega arith) l in
    (
      h,
      long,
      s,
      rw (
        or_fallback_lem heartbeat 10000000000 h,
        or_fallback_lem (if lt64 lease (thrice heartbeat) then thrice heartbeat else lease)
            30000000000 long,
        or_fallback_lem sweep 5000000000 s,
        longer_lem lease (thrice heartbeat),
      ),
    )

-- Where three heartbeats do not overflow, a lease lasts for at least three of them.
pub with_defaults-lease :
    (p : PresenceTiming)
    → IsWords p
    → 3 * (with_defaults p).heartbeat_interval < int64_limit
    → 3 * (with_defaults p).heartbeat_interval ≤ (with_defaults p).lease_duration
unfolding with_defaults rank64
with_defaults-lease p (wh, wl, ws) fits =
    let l = or_fallback-IsPositive p.lease_duration 30000000000 wl (omega arith) in ground arith

-- ===== src/Presence/Examples.antt =====
-- Timings of presence, and the theorems at them.
use live_collab.Base.{◌*◌, ◌≤◌, ◌≡◌, refl, true, false, List, [], ◌∷◌, map, All, arith, rank64}
use live_collab.Base.Result.{ok}
use live_collab.Presence.Heartbeat.{
  Event, noted, ticked, taken, stopped, Renewal, start_heartbeat, heartbeat,
}
use live_collab.Presence.Heartbeat.Renewals.{
  AreSpaced, RestsOn, OneOf, activities, heartbeat-AreSpaced,
}
use live_collab.Presence.{PresenceTiming, with_defaults}
use live_collab.Presence.Timing.{IsPositive, IsWords, with_defaults-IsPositive, with_defaults-lease}

-- A heartbeat of 20 s, a lease of 1 s, no sweep interval.
abbrev short : PresenceTiming
short = record { heartbeat_interval = 20000000000; lease_duration = 1000000000; sweep_interval = 0 }

short-IsWords : IsWords short
short-IsWords = (omega arith, omega arith, omega arith)

with_defaults-IsPositive_example :
    let q = with_defaults short in
    IsPositive q.heartbeat_interval
    × IsPositive q.lease_duration
    × IsPositive q.sweep_interval
    × (with_defaults q ≡ q)
with_defaults-IsPositive_example = with_defaults-IsPositive short short-IsWords

short_heartbeat : (with_defaults short).heartbeat_interval ≡ 20000000000
unfolding with_defaults rank64
short_heartbeat = refl

with_defaults-lease_example :
    3 * (with_defaults short).heartbeat_interval ≤ (with_defaults short).lease_duration
with_defaults-lease_example =
    with_defaults-lease short short-IsWords (omega (arith, short_heartbeat))

-- A pong after 12 s, whose activity is taken 1 s later; two ticks; one more pong 5 s later, too
-- soon for a renewal; and a read after 25 s.
abbrev usual : PresenceTiming
usual = record {
  heartbeat_interval = 10000000000;
  lease_duration = 30000000000;
  sweep_interval = 5000000000;
}

abbrev connection : List Event
connection =
    ticked true
    ∷ noted 12000000000 true
    ∷ taken 13000000000 13000000001 13200000000 (ok true)
    ∷ ticked true
    ∷ noted 18000000000 true
    ∷ taken 18000000001 18000000002 18000000003 (ok true)
    ∷ noted 25000000000 true
    ∷ taken 26000000000 26000000001 26500000000 (ok false)
    ∷ noted 27000000000 true
    ∷ stopped
    ∷ []

heartbeat-AreSpaced_example :
    let cs = (heartbeat usual (start_heartbeat usual 0 0) connection).1 in
    AreSpaced usual.heartbeat_interval 0 cs
    × All (RestsOn usual.lease_duration (λ t. OneOf t (activities connection))) cs
heartbeat-AreSpaced_example =
    heartbeat-AreSpaced usual 0 0 connection (omega arith) (omega arith) (omega arith)

-- The activity at 18 s renews nothing.
renewals :
    map (λ (c : Renewal). c.now) (heartbeat usual (start_heartbeat usual 0 0) connection).1
    ≡ 13000000000 ∷ 26000000000 ∷ []
unfolding heartbeat rank64
renewals = refl

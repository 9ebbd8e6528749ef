-- ===== src/Presence/Heartbeat.antt =====
-- startPresenceHeartbeat of presence_lease.go: the events of one connection, each one step. Times
-- are readings of the clock in nanoseconds.
pub mod Renewals
use live_collab.Base.{
  ℕ, ◌+◌, ◌-◌, Bool, true, false, List, [], ◌∷◌, ◌++◌, Option, none, some, Int64, le64, lt64,
  if◌then◌else◌,
}
use live_collab.Base.Result.{Result, ok, err}
use live_collab.Presence.{PresenceTiming}

-- The goroutine, its connection and the channel of one activity.
pub record Heartbeat : Type 0 where
  pub running : Bool
  pub closed : Bool
  pub pending : Option ℕ
  pub last_renewal : ℕ
  pub read_deadline : ℕ

-- What happens: a pong or a read, with whether SetReadDeadline succeeds; a tick, with whether the
-- ping is written; the loop takes an activity at two readings of the clock, and RenewPresence
-- ends at a third; the loop takes the stop or the end of the context.
pub data Event : Type 0 where
  noted : ℕ → Bool → Event
  ticked : Bool → Event
  taken : (now checked ended : ℕ) → Result Bool → Event
  stopped : Event

-- A call of RenewPresence: the readings before it, and the one behind it.
pub record Renewal : Type 0 where
  pub now : ℕ
  pub checked : ℕ
  pub ended : ℕ

-- The start: the first read deadline is set, and the goroutine starts.
abbrev pub start_heartbeat : PresenceTiming → (now started : ℕ) → Heartbeat
start_heartbeat timing now started = record {
  running = true;
  closed = false;
  pending = none;
  last_renewal = started;
  read_deadline = now + timing.lease_duration;
}

-- _ = client.Conn.Close(); return
abbrev close_connection : Heartbeat → Heartbeat
close_connection h = record h { running = false; closed = true }

-- A send on the channel that does not wait.
abbrev pub offer_activity : Option ℕ → ℕ → Option ℕ
offer_activity none now = some now
offer_activity (some t) now = some t

unfoldable pub note_activity : PresenceTiming → Heartbeat → ℕ → Bool → Heartbeat
note_activity timing h now false = h
note_activity timing h now true = record h {
  pending = offer_activity h.pending now;
  read_deadline = now + timing.lease_duration;
}

-- What follows on RenewPresence.
unfoldable pub after_renewal : Heartbeat → ℕ → Result Bool → Heartbeat
after_renewal h ended (ok true) = record h { last_renewal = ended }
after_renewal h ended (ok false) = close_connection h
after_renewal h ended (err e) = close_connection h

-- The case of an activity, with the calls of RenewPresence.
unfoldable pub take_activity :
    PresenceTiming
    → Heartbeat
    → (observed now checked ended : ℕ) → Result Bool
    → Heartbeat × List Renewal
unfolding after_renewal
take_activity timing h observed now checked ended result =
    if le64 timing.lease_duration (now - observed)
    then (close_connection h, [])
    else if lt64 (checked - h.last_renewal) timing.heartbeat_interval
    then (h, [])
    else (after_renewal h ended result, record { now = now; checked = checked; ended = ended } ∷ [])

-- A case of the select that is not ready does nothing.
unfoldable pub select_activity :
    PresenceTiming
    → Heartbeat
    → Option ℕ
    → (now checked ended : ℕ) → Result Bool
    → Heartbeat × List Renewal
unfolding take_activity
select_activity timing h none now checked ended result = (h, [])
select_activity timing h (some observed) now checked ended result =
    take_activity timing (record h { pending = none }) observed now checked ended result

unfoldable pub heartbeat_step : PresenceTiming → Heartbeat → Event → Heartbeat × List Renewal
unfolding note_activity select_activity
heartbeat_step timing h (noted now fine) = (note_activity timing h now fine, [])
heartbeat_step timing h (ticked fine) =
    if h.running then (if fine then (h, []) else (close_connection h, [])) else (h, [])
heartbeat_step timing h (taken now checked ended result) =
    if h.running then select_activity timing h h.pending now checked ended result else (h, [])
heartbeat_step timing h stopped = (record h { running = false }, [])

-- The connection's whole run, with all the calls of RenewPresence.
unfoldable pub heartbeat : PresenceTiming → Heartbeat → List Event → Heartbeat × List Renewal
unfolding heartbeat_step
heartbeat timing h [] = (h, [])
heartbeat timing h (e ∷ es) =
    let (h', calls) = heartbeat_step timing h e in
    let (h'', more) = heartbeat timing h' es in (h'', calls ++ more)

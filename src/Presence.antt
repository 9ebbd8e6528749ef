-- ===== src/Presence.antt =====
-- presence_lease.go: the timing of presence leases. A time.Duration is an int64 of nanoseconds.
pub mod Timing
pub mod Heartbeat
pub mod Sweep
pub mod Examples
use live_collab.Base.{◌*◌, ◌%◌, Int64, le64, lt64, if◌then◌else◌}

-- defaultPresenceHeartbeat, defaultPresenceLease, defaultPresenceSweep.
abbrev pub default_presence_heartbeat : Int64
default_presence_heartbeat = 10000000000

abbrev pub default_presence_lease : Int64
default_presence_lease = 30000000000

abbrev pub default_presence_sweep : Int64
default_presence_sweep = 5000000000

-- PresenceTiming.
pub record PresenceTiming : Type 0 where
  pub heartbeat_interval : Int64
  pub lease_duration : Int64
  pub sweep_interval : Int64

-- if d <= 0 { d = fallback }
abbrev pub or_fallback : Int64 → Int64 → Int64
or_fallback d fallback = if le64 d 0 then fallback else d

-- 3 * d with Go's wrap-around.
abbrev pub thrice : Int64 → Int64
thrice d = (3 * d) % 0x10000000000000000

-- withDefaults.
unfoldable pub with_defaults : PresenceTiming → PresenceTiming
with_defaults p =
    let heartbeat = or_fallback p.heartbeat_interval default_presence_heartbeat in
    let lease = or_fallback p.lease_duration default_presence_lease in
    let sweep = or_fallback p.sweep_interval default_presence_sweep in
    record {
      heartbeat_interval = heartbeat;
      lease_duration = if lt64 lease (thrice heartbeat) then thrice heartbeat else lease;
      sweep_interval = sweep;
    }

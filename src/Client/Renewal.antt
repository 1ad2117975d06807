-- ===== src/Client/Renewal.antt =====
-- src/services/dhcp_client.rs: the timing of `bound_phase` and `renew_lease`. Times are in seconds
-- since the lease was bound.

use rustyrouter.Prelude.{
  true, false, none, some, ℕ, if◌then◌else◌, Option, ◌^◌, ◌*◌, ◌≡◌, ◌<◌, Bool, ◌+◌, ◌/◌, ◌-◌, leb,
  ltb, ◌≤◌, arith,
}
use Prim.Native.Nat.{max}

-- `Ipv4Addr::BROADCAST`
abbrev pub ip_broadcast : ℕ
ip_broadcast = 2 ^ 32 - 1

-- `(lease_secs as f64 * 0.875) as u32`: 7/8 of a `u32` is exact as an `f64`, and the cast rounds down.
unfoldable pub t2_secs_of : ℕ → ℕ
t2_secs_of lease_secs = lease_secs * 7 / 8

-- What a round of `bound_phase` does at `elapsed`.
pub data BoundStep : Type 0 where
  expired : BoundStep
  sleep : ℕ → BoundStep
  renew : ℕ → BoundStep

unfoldable pub bound_step : ℕ → ℕ → BoundStep
unfolding t2_secs_of
bound_step elapsed lease_secs =
    if leb lease_secs elapsed
    then expired
    else if ltb elapsed (lease_secs / 2)
    then sleep (lease_secs / 2 - elapsed)
    else renew (t2_secs_of lease_secs)

abbrev pub or_broadcast : Option ℕ → ℕ
or_broadcast none = ip_broadcast
or_broadcast (some ip) = ip

unfoldable pub calculate_renewal_params : ℕ → ℕ → ℕ → Option ℕ → ℕ × ℕ × Bool
calculate_renewal_params current_elapsed t2_secs lease_secs server_ip =
    if leb t2_secs current_elapsed
    then (max ((lease_secs - current_elapsed) / 2) 60, ip_broadcast, true)
    else (max ((t2_secs - current_elapsed) / 2) 60, or_broadcast server_ip, false)

-- Sleeping as long as `bound_phase` asks brings the client to the renewal, not past the lease's end.
pub bound_step-sleep :
    (elapsed lease_secs n : ℕ)
    → bound_step elapsed lease_secs ≡ sleep n
    → bound_step (elapsed + n) lease_secs ≡ renew (t2_secs_of lease_secs)
unfolding bound_step
bound_step-sleep elapsed lease_secs n h = ground arith

-- A renewal starts in the second half of the lease; T2 lies between T1 and the lease's end.
pub bound_step-renew :
    (elapsed lease_secs t2 : ℕ)
    → bound_step elapsed lease_secs ≡ renew t2
    → (lease_secs / 2 ≤ elapsed)
      × (elapsed < lease_secs)
      × (lease_secs / 2 ≤ t2)
      × (t2 < lease_secs)
unfolding bound_step
bound_step-renew elapsed lease_secs t2 h = ground arith

-- From a renewal's start, which is at half of the lease or later and before its end, with T2 in the same
-- range, until the lease has ended: whatever the server and the round, the client listens for a minute at
-- least, and no longer than to the lease's end unless less than a minute is left.
pub calculate_renewal_params_bounds :
    (started elapsed lease_secs t2 : ℕ) (server : Option ℕ)
    → bound_step started lease_secs ≡ renew t2
    → elapsed < lease_secs
    → let interval = (calculate_renewal_params elapsed t2 lease_secs server).0 in
      (lease_secs / 2 ≤ started)
      × (started < lease_secs)
      × (lease_secs / 2 ≤ t2)
      × (t2 < lease_secs)
      × (60 ≤ interval)
      × (elapsed + interval ≤ max lease_secs (elapsed + 60))
unfolding calculate_renewal_params
calculate_renewal_params_bounds started elapsed lease_secs t2 server h before =
    let range = bound_step-renew started lease_secs t2 h in ground arith

-- In the last minute of a lease or later, the interval for which the client listens ends after
-- the lease.
pub calculate_renewal_params-overrun :
    (elapsed t2 lease : ℕ) (server : Option ℕ)
    → lease < elapsed + 60
    → lease < elapsed + (calculate_renewal_params elapsed t2 lease server).0
unfolding calculate_renewal_params
calculate_renewal_params-overrun elapsed t2 lease server h = ground arith

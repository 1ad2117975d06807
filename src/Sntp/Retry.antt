-- ===== src/Sntp/Retry.antt =====
-- src/services/sntp_client.rs, `start_sntp_client`: how long the client sleeps between its rounds, in
-- seconds.
use Prim.Native.Nat.{min}
use native.Mathlib.Nat.{pow-suc}
use rustyrouter.Prelude.{
  ℕ, zero, suc, List, [], ◌∷◌, ◌≡◌, ◌≢◌, ◌*◌, ◌^◌, refl, arith, ap, Option, some, none,
}
use rustyrouter.Client.Lease.{WanLease}

-- What a round finds: no address on the WAN side, the time, or a failure.
pub data SyncRound : Type 0 where
  no_wan synced sync_failed : SyncRound

abbrev pub sync_interval : ℕ
sync_interval = 1800

abbrev pub retry_interval : ℕ
retry_interval = 60

abbrev pub max_retry_interval : ℕ
max_retry_interval = 900

-- A round, by the shared lease and by the time that `sync_time` sets, if it does.
abbrev pub round_of : WanLease → Option ℕ → SyncRound
round_of lease (some time_now) = elim lease.ip [ none ↦ no_wan | some ip ↦ synced ]
round_of lease none = elim lease.ip [ none ↦ no_wan | some ip ↦ sync_failed ]

unfoldable pub sntp_loop : ℕ → List SyncRound → List ℕ
sntp_loop current_retry_delay [] = []
sntp_loop current_retry_delay (no_wan ∷ rest) = 5 ∷ sntp_loop retry_interval rest
sntp_loop current_retry_delay (synced ∷ rest) = sync_interval ∷ sntp_loop retry_interval rest
sntp_loop current_retry_delay (sync_failed ∷ rest) =
    current_retry_delay ∷ sntp_loop (min (current_retry_delay * 2) max_retry_interval) rest

-- The sleep after a round that does not fail.
abbrev pub sleep_after : SyncRound → ℕ
sleep_after no_wan = 5
sleep_after _ = sync_interval

abbrev pub failures : ℕ → List SyncRound → List SyncRound
failures zero rest = rest
failures (suc k) rest = sync_failed ∷ failures k rest

-- The delays of k failures in a row from the i-th on.
abbrev pub retry_delays : ℕ → ℕ → List ℕ
retry_delays i zero = []
retry_delays i (suc k) = min 900 (60 * 2 ^ i) ∷ retry_delays (suc i) k

sntp_loop-failures_from :
    (i k : ℕ) → sntp_loop (min 900 (60 * 2 ^ i)) (failures k []) ≡ retry_delays i k
unfolding sntp_loop
sntp_loop-failures_from i zero = refl
sntp_loop-failures_from i (suc k) =
    let next : min (min 900 (60 * 2 ^ i) * 2) 900 ≡ min 900 (60 * 2 ^ suc i) =
      ground (arith, pow-suc 2 i) in
    ap (◌∷◌ (min 900 (60 * 2 ^ i))) (rw next (sntp_loop-failures_from (suc i) k))

-- After a round that does not fail, whatever the delay was before it, failures in a row are followed by
-- sleeps of a minute, doubled each time up to a quarter of an hour.
pub sntp_loop-failures :
    (current_retry_delay k : ℕ) (r : SyncRound)
    → r ≢ sync_failed
    → sntp_loop current_retry_delay (r ∷ failures k []) ≡ sleep_after r ∷ retry_delays 0 k
unfolding sntp_loop
sntp_loop-failures d k no_wan n = ap (◌∷◌ 5) (sntp_loop-failures_from 0 k)
sntp_loop-failures d k synced n = ap (◌∷◌ 1800) (sntp_loop-failures_from 0 k)
sntp_loop-failures d k sync_failed n = absurd (n refl)

-- ===== src/Client/Backoff.antt =====
-- src/services/dhcp_client.rs, `calculate_next_delay`: the delay between two messages of one phase.

use native.Mathlib.Nat.{pow-suc}
use rustyrouter.Prelude.{refl, ℕ, zero, suc, ◌*◌, ◌≡◌, ◌%◌, ◌^◌, if◌then◌else◌, arith, ltb}
use Prim.Native.Nat.{min}

abbrev pub max_retry_delay_secs : ℕ
max_retry_delay_secs = 64

abbrev pub initial_retry_delay_secs : ℕ
initial_retry_delay_secs = 4

-- `u32` multiplication, which wraps in a release build.
unfoldable pub calculate_next_delay : ℕ → ℕ
calculate_next_delay current_delay =
    let doubled = (current_delay * 2) % 2 ^ 32 in
    if ltb max_retry_delay_secs doubled then max_retry_delay_secs else doubled

-- The delay of the n-th attempt of `discover_phase` and `request_phase`.
unfoldable pub retry_delay_secs : ℕ → ℕ
retry_delay_secs zero = initial_retry_delay_secs
retry_delay_secs (suc n) = calculate_next_delay (retry_delay_secs n)

-- The n-th delay is four seconds doubled n times, and never more than 64: no product wraps.
pub retry_delay_secs_lem : (n : ℕ) → retry_delay_secs n ≡ min 64 (4 * 2 ^ n)
unfolding retry_delay_secs calculate_next_delay
retry_delay_secs_lem zero = refl
retry_delay_secs_lem (suc n) = ground (arith, retry_delay_secs_lem n, pow-suc 2 n)

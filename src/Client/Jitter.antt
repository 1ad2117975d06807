-- ===== src/Client/Jitter.antt =====
-- src/services/dhcp_client.rs, `get_jittered_duration`: the wait for a reply. The draw of an `f64` in [0, 1)
-- is the number n < 2 ^ 53 that it is 2 ^ 53 times; seconds are counted in units of 2 ^ -52, in which the
-- jitter of `draw * 2.0 - 1.0` is exact, and a duration is in nanoseconds.
use Prim.Native.Nat.{min}
use rustyrouter.Client.Backoff.{retry_delay_secs, retry_delay_secs_lem}
use native.Mathlib.Nat.{
  one-le-pow, zero-mul, mul-le-mul_right, pow-succ', mul_comm, le-div_iff_mul-le, mod-add-div',
  le_of_mul-le-mul_right, lt_of_mul-lt-mul_right, mul-le-mul_right, mul_assoc,
}
use Prim.Native.Nat.{max}
use rustyrouter.Prelude.{
  dec_lt, Bool-cases, inl, inr, ◌∙◌, ap, sym, ℕ, zero, suc, Option, none, some, true, false, refl,
  arith, ◌+◌, ◌*◌, ◌-◌, ◌/◌, ◌%◌, ◌^◌, ◌≤◌, ◌<◌, ◌≡◌, ◌==◌, ltb, if◌then◌else◌,
}

-- n / d to the nearest number, a tie to the even one.
unfoldable pub round_even : ℕ → ℕ → ℕ
round_even n d =
    let q = n / d in
    let r = n % d in
    if ltb (2 * r) d then q else if ltb d (2 * r) then q + 1 else if q % 2 == 0 then q else q + 1

-- The distance of the numbers of 53 bits around v, from the unit u on; it grows to 2 ^ 52 units at most.
unfoldable pub ulp : ℕ → ℕ → ℕ → ℕ
ulp zero u v = u
ulp (suc j) u v = elim (ltb v (2 ^ 53 * u)) [ true ↦ u | false ↦ ulp j (u * 2) v ]

-- The `f64` of a number of units.
unfoldable pub to_f64 : ℕ → ℕ
to_f64 v = let u = ulp 52 1 v in round_even v u * u

-- `Duration::from_secs_f64`
unfoldable pub from_secs_f64 : ℕ → ℕ
from_secs_f64 v = round_even (v * 1_000_000_000) (2 ^ 52)

-- None where the sum is negative, and `from_secs_f64` panics.
unfoldable pub get_jittered_duration : ℕ → ℕ → Option ℕ
get_jittered_duration base_secs draw =
    if ltb (base_secs * 2 ^ 52 + draw) (2 ^ 52)
    then none
    else some (max 1_000_000_000 (from_secs_f64 (to_f64 (base_secs * 2 ^ 52 + draw - 2 ^ 52))))

round_even_bounds :
    (n d a b : ℕ) → 0 < d → a * d ≤ n → n ≤ b * d → (a ≤ round_even n d) × (round_even n d ≤ b)
unfolding round_even
round_even_bounds n d a b pos lo hi =
    let below : a ≤ n / d = (le-div_iff_mul-le pos).1 lo in
    let whole = mod-add-div' n d in
    let small : n / d ≤ b = le_of_mul-le-mul_right (omega arith) pos in
    let up : 0 < n % d → n / d < b = λ r. lt_of_mul-lt-mul_right d (omega arith) in
    elim (dec_lt 0 (n % d)) [
      | yes p ↦ let lt = up p in ground arith
      | no p ↦ let none_left : n % d ≡ 0 = omega arith in ground arith
    ]

ulp-divides : (j u v : ℕ) → u * 2 ^ j ≡ 2 ^ 52 → (m : ℕ) × (ulp j u v * m ≡ 2 ^ 52)
unfolding ulp
ulp-divides zero u v h = (1, h)
ulp-divides (suc j) u v h = elim (Bool-cases (ltb v (2 ^ 53 * u))) [
  | inl fits ↦ (2 ^ suc j, ground arith)
  | inr wide ↦
      let half : u * 2 * 2 ^ j ≡ 2 ^ 52 =
        mul_assoc u 2 (2 ^ j) ∙ ap (λ (t : ℕ). u * t) (sym (pow-succ' 2 j)) ∙ h in
      let (m, e) = ulp-divides j (u * 2) v half in (m, ground arith)
]

-- Rounding to a multiple of a unit of which 2 ^ 52 is one keeps to bounds that are multiples of 2 ^ 52.
round_even-grid :
    (v a b u m : ℕ)
    → u * m ≡ 2 ^ 52
    → a * 2 ^ 52 ≤ v
    → v ≤ b * 2 ^ 52
    → (a * 2 ^ 52 ≤ round_even v u * u) × (round_even v u * u ≤ b * 2 ^ 52)
round_even-grid v a b zero m e lo hi = absurd (omega (arith, zero-mul m))
round_even-grid v a b (suc k) m e lo hi =
    let u = suc k in
    let regroup : (x : ℕ) → x * m * u ≡ x * 2 ^ 52 =
      λ x. mul_assoc x m u ∙ ap (λ (t : ℕ). x * t) (mul_comm m u ∙ e) in
    let (below, above) =
      round_even_bounds v u (a * m) (b * m) (omega arith) (rw (regroup a) lo) (rw (regroup b) hi) in
    (
      rw (sym (regroup a)) (mul-le-mul_right u below),
      rw (sym (regroup b)) (mul-le-mul_right u above),
    )

to_f64_bounds :
    (v a b : ℕ)
    → a * 2 ^ 52 ≤ v
    → v ≤ b * 2 ^ 52
    → (a * 2 ^ 52 ≤ to_f64 v) × (to_f64 v ≤ b * 2 ^ 52)
unfolding to_f64
to_f64_bounds v a b lo hi =
    let (m, e) = ulp-divides 52 1 v refl in round_even-grid v a b (ulp 52 1 v) m e lo hi

at_least_a_second :
    (ns base_secs : ℕ)
    → 1 ≤ base_secs
    → (base_secs - 1) * 1_000_000_000 ≤ ns
    → ns ≤ (base_secs + 1) * 1_000_000_000
    → (1_000_000_000 ≤ max 1_000_000_000 ns)
      × (base_secs * 1_000_000_000 ≤ max 1_000_000_000 ns + 1_000_000_000)
      × (max 1_000_000_000 ns ≤ (base_secs + 1) * 1_000_000_000)
at_least_a_second ns base_secs one least most = ground arith

-- For a delay of a second or more there is no panic, and the wait is a second at least and within a second
-- of the delay.
get_jittered_duration_bounds :
    (base_secs draw : ℕ)
    → 1 ≤ base_secs
    → draw < 2 ^ 53
    → (d : ℕ) × (get_jittered_duration base_secs draw ≡ some d)
      × (1_000_000_000 ≤ d)
      × (base_secs * 1_000_000_000 ≤ d + 1_000_000_000)
      × (d ≤ (base_secs + 1) * 1_000_000_000)
unfolding from_secs_f64 get_jittered_duration
get_jittered_duration_bounds base_secs draw one below =
    let v = base_secs * 2 ^ 52 + draw - 2 ^ 52 in
    let (low, high) = to_f64_bounds v (base_secs - 1) (base_secs + 1) (omega arith) (omega arith) in
    let (least, most) =
      round_even_bounds (to_f64 v * 1_000_000_000) (2 ^ 52) ((base_secs - 1) * 1_000_000_000)
        ((base_secs + 1) * 1_000_000_000) (omega arith) (omega arith) (omega arith) in
    let ns = from_secs_f64 (to_f64 v) in
    let bounds = at_least_a_second ns base_secs one least most in
    let positive : ltb (base_secs * 2 ^ 52 + draw) (2 ^ 52) ≡ false = ground arith in
    (max 1_000_000_000 ns, rw (get_jittered_duration, positive) refl, bounds.0, bounds.1, bounds.2)

-- The wait after the n-th message of a phase, whatever is drawn: the code does not panic, and the wait is
-- within a second of four seconds doubled n times, or of 64 seconds where that is less.
pub get_jittered_duration-retry_delay_secs :
    (n draw : ℕ)
    → draw < 2 ^ 53
    → (d : ℕ) × (get_jittered_duration (retry_delay_secs n) draw ≡ some d)
      × (min 64 (4 * 2 ^ n) * 1_000_000_000 ≤ d + 1_000_000_000)
      × (d ≤ (min 64 (4 * 2 ^ n) + 1) * 1_000_000_000)
get_jittered_duration-retry_delay_secs n draw below =
    let some_wait : 1 ≤ min 64 (4 * 2 ^ n) = ground (arith, one-le-pow n 2 (omega arith)) in
    let (d, given, second, low, high) =
      get_jittered_duration_bounds (min 64 (4 * 2 ^ n)) draw some_wait below in
    (d, rw (retry_delay_secs_lem n) given, low, high)

-- ===== src/Client/Mask.antt =====
-- src/services/dhcp_client.rs, `mask_to_prefix_len`.
use rustyrouter.Client.Errors.{Result, ok, err, DhcpError}
use native.Mathlib.Nat.{pow-suc}
use rustyrouter.Prelude.{
  refl, true, false, inl, inr, ℕ, zero, suc, ◌≡◌, ◌≤◌, if◌then◌else◌, ◌^◌, ◌*◌, ◌+◌, ◌%◌, not,
  arith, leb, Bool-cases, ◌-◌, ◌==◌, leb→le, ◌/◌, Bool, ap, ◌<◌, ◌↔◌, ==_iff, dec_lt, ℕ_discrete,
}

-- `u32::leading_ones`, for a word of `w` bits.
unfoldable pub leading_ones : ℕ → ℕ → ℕ
leading_ones zero x = 0
leading_ones (suc w) x = if leb (2 ^ w) x then suc (leading_ones w (x - 2 ^ w)) else 0

-- `u32::trailing_zeros`, for a word of `w` bits.
unfoldable pub trailing_zeros : ℕ → ℕ → ℕ
trailing_zeros zero x = 0
trailing_zeros (suc w) x = if x % 2 == 0 then suc (trailing_zeros w (x / 2)) else 0

-- The test of `mask_to_prefix_len`, on the ones at the top and the zeros at the bottom.
unfoldable pub checked_prefix : ℕ → ℕ → Result ℕ
checked_prefix ones low =
    if not (ones + low == 32) then err DhcpError.protocol else ok (ones % 2 ^ 8)

unfoldable pub mask_to_prefix_len : ℕ → Result ℕ
mask_to_prefix_len mask = checked_prefix (leading_ones 32 mask) (trailing_zeros 32 mask)

checked_prefix-ok :
    (ones low n : ℕ) → ones ≤ 32 → checked_prefix ones low ≡ ok n → (ones + low ≡ 32) × (ones ≡ n)
unfolding checked_prefix
checked_prefix-ok ones low n le h = ground arith

leading_ones-le : (w x : ℕ) → leading_ones w x ≤ w
unfolding leading_ones
leading_ones-le zero x = omega arith
leading_ones-le (suc w) x = ground (arith, leading_ones-le w (x - 2 ^ w))

-- With l ones at the top, at least 2^w - 2^(w - l).
leading_ones_bound : (w x : ℕ) → 2 ^ w ≤ x + 2 ^ (w - leading_ones w x)
unfolding leading_ones
leading_ones_bound zero x = omega arith
leading_ones_bound (suc w) x = elim (Bool-cases (leb (2 ^ w) x)) [
  | inl big ↦ rw big (
      let ih = leading_ones_bound w (x - 2 ^ w) in
      let le = leb→le (2 ^ w) x big in
      let e : suc w - suc (leading_ones w (x - 2 ^ w)) ≡ w - leading_ones w (x - 2 ^ w) =
        omega arith in
      rw e (omega (arith, pow-suc 2 w)))
  | inr small ↦
      rw small (let e : suc w - 0 ≡ suc w = omega arith in rw e (omega (arith, pow-suc 2 w)))
]

-- With t zeros at the bottom, a multiple of 2^t.
trailing_zeros_multiple : (w x : ℕ) → (q : ℕ) × (x ≡ q * 2 ^ trailing_zeros w x)
unfolding trailing_zeros
trailing_zeros_multiple zero x = (x, omega arith)
trailing_zeros_multiple (suc w) x = elim (Bool-cases (x % 2 == 0)) [
  | inl even ↦
      let (q, e) = trailing_zeros_multiple w (x / 2) in
      let step = ap (λ (p : ℕ). q * p) (pow-suc 2 (trailing_zeros w (x / 2))) in
      let zero_bit = (==_iff (x % 2) 0).0 even in (q, rw even (omega arith))
  | inr odd ↦ (x, rw odd (omega arith))
]

pow-add : (a b : ℕ) → 2 ^ (a + b) ≡ 2 ^ a * 2 ^ b
pow-add a zero = let e : a + 0 ≡ a = omega arith in rw e (omega arith)
pow-add a (suc b) =
    let e : a + suc b ≡ suc (a + b) = omega arith in
    let ih = ap (λ (p : ℕ). p * 2) (pow-add a b) in
    let right = ap (λ (p : ℕ). 2 ^ a * p) (pow-suc 2 b) in rw e (omega (arith, pow-suc 2 (a + b)))

-- A multiple of 2^t below 2^(l + t) is at most 2^(l + t) - 2^t.
multiple_bound : (q l t : ℕ) → q * 2 ^ t < 2 ^ (l + t) → q * 2 ^ t + 2 ^ t ≤ 2 ^ (l + t)
multiple_bound q l t h = elim (dec_lt q (2 ^ l)) [
  | yes p ↦ rw pow-add (grind arith)
  | no n ↦ absurd (grind (arith, pow-add l t))
]

contiguous :
    (w x : ℕ)
    → x < 2 ^ w
    → leading_ones w x + trailing_zeros w x ≡ w
    → x + 2 ^ (w - leading_ones w x) ≡ 2 ^ w
contiguous w x h e =
    let (q, m) = trailing_zeros_multiple w x in
    let l = leading_ones w x in
    let t = trailing_zeros w x in
    let rest : w - l ≡ t = omega arith in
    let low = leading_ones_bound w x in
    let below : q * 2 ^ t < 2 ^ (l + t) = ground arith in
    let high = multiple_bound q l t below in ground arith

is_ok : ℕ → Result ℕ → Bool
is_ok n (ok m) = m == n
is_ok n (err e) = false

is_ok-eq : (n : ℕ) (r : Result ℕ) → is_ok n r ≡ true → r ≡ ok n
unfolding is_ok
is_ok-eq n (ok m) h = ground arith
is_ok-eq n (err e) h = cc

-- n ones followed by 32 - n zeros.
abbrev prefix_mask : ℕ → ℕ
prefix_mask n = 2 ^ 32 - 2 ^ (32 - n)

-- How many of the first prefix lengths come out wrong.
wrong_lengths : ℕ → ℕ
wrong_lengths zero = 0
wrong_lengths (suc k) =
    (if is_ok k (mask_to_prefix_len (prefix_mask k)) then 0 else 1) + wrong_lengths k

prefix_mask_ok :
    (k n : ℕ) → n < k → wrong_lengths k ≡ 0 → is_ok n (mask_to_prefix_len (prefix_mask n)) ≡ true
unfolding wrong_lengths
prefix_mask_ok zero n lt none_wrong = absurd (omega arith)
prefix_mask_ok (suc k) n lt none_wrong = elim (ℕ_discrete n k) [
  | yes e ↦ rw e (elim (Bool-cases (is_ok k (mask_to_prefix_len (prefix_mask k)))) [
    | inl y ↦ y
    | inr w ↦ absurd (omega (arith, rw w at none_wrong))
  ])
  | no ne ↦ prefix_mask_ok k n (omega arith) (omega (arith, none_wrong))
]

no_wrong_lengths : wrong_lengths 33 ≡ 0
unfolding wrong_lengths is_ok mask_to_prefix_len checked_prefix leading_ones trailing_zeros
no_wrong_lengths = refl

prefix_of_ok :
    (mask n : ℕ)
    → mask < 2 ^ 32
    → mask_to_prefix_len mask ≡ ok n
    → (n ≤ 32) × (mask + 2 ^ (32 - n) ≡ 2 ^ 32)
unfolding mask_to_prefix_len
prefix_of_ok mask n h r =
    let le = leading_ones-le 32 mask in
    let (sum, e) = checked_prefix-ok (leading_ones 32 mask) (trailing_zeros 32 mask) n le r in
    let full = contiguous 32 mask h sum in (omega arith, rw e at full)

ok_of_prefix :
    (mask n : ℕ) → (n ≤ 32) × (mask + 2 ^ (32 - n) ≡ 2 ^ 32) → mask_to_prefix_len mask ≡ ok n
ok_of_prefix mask n (le, e) =
    let form : mask ≡ 2 ^ 32 - 2 ^ (32 - n) = omega arith in
    rw form (is_ok-eq n _ (prefix_mask_ok 33 n (omega arith) no_wrong_lengths))

-- A mask of 32 bits has the prefix length n exactly if n is at most 32 and the mask is n ones
-- followed by 32 - n zeros; every other mask is an error.
pub mask_to_prefix_len_iff :
    (mask n : ℕ)
    → mask < 2 ^ 32
    → (mask_to_prefix_len mask ≡ ok n) ↔ ((n ≤ 32) × (mask + 2 ^ (32 - n) ≡ 2 ^ 32))
mask_to_prefix_len_iff mask n h = (prefix_of_ok mask n h, ok_of_prefix mask n)

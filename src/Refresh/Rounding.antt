-- ===== src/Refresh/Rounding.antt =====
-- How the conversions of src/refresh_rate.h round, and when they can be undone.
use cloud_desktop.Prelude.{
  ℕ, ◌+◌, ◌-◌, ◌*◌, ◌/◌, ◌^◌, ◌≤◌, ◌<◌, ◌≡◌, some, arith, u32, u64, u32_mod, u64_mod, suc, dec_le,
  dec_lt, ap, ◌∙◌, none, ◌↔◌,
}
use cloud_desktop.Refresh.{
  convert_hz_to_mhz, convert_mhz_to_hz, refresh_cycle_to_mhz, mhz_to_refresh_cycle,
}

-- A rate in mHz is rounded to the nearest Hz, a tie downwards, unless the sum with 499 wraps.
convert_mhz_to_hz_nearest :
    (mhz : ℕ)
    → mhz + 499 < u32_mod
    → (convert_mhz_to_hz mhz * 1000 ≤ mhz + 499) × (mhz ≤ convert_mhz_to_hz mhz * 1000 + 500)
unfolding convert_mhz_to_hz
convert_mhz_to_hz_nearest mhz h = omega arith

-- A rate in Hz comes back from its conversion to mHz, unless that wraps.
convert_mhz_to_hz-convert_hz_to_mhz :
    (hz : ℕ) → hz * 1000 + 499 < u32_mod → convert_mhz_to_hz (convert_hz_to_mhz hz) ≡ hz
unfolding convert_mhz_to_hz convert_hz_to_mhz
convert_mhz_to_hz-convert_hz_to_mhz hz h = omega arith

cycle_value : ℕ → ℕ
cycle_value n = (1_000_000_000_000 + n / 2 - 1) / n

cycle_bounds :
    (n : ℕ)
    → 0 < n
    → (cycle_value n * n ≤ 1_000_000_000_000 + n / 2 - 1)
      × (1_000_000_000_000 + n / 2 - 1 < cycle_value n * n + n)
unfolding cycle_value
cycle_bounds n h = omega arith

-- Below a million the quotient is at least as large as its divisor.
cycle_value-ge : (n : ℕ) → 0 < n → n < 1_000_000 → n ≤ cycle_value n
cycle_value-ge n h k = elim (dec_le n (cycle_value n)) [
  | yes le ↦ le
  | no gt ↦ absurd (omega (arith, cycle_bounds n h, below (omega arith), square))
]
  where
    below : suc (cycle_value n) ≤ n → suc (cycle_value n) * n ≤ n * n
    below p = grind arith

    square : n * n ≤ 999_999 * n
    square = grind arith

div_unique : (x c q : ℕ) → 0 < c → q * c ≤ x → x < q * c + c → x / c ≡ q
div_unique x c q h lo hi = grind arith

cycle_value_undone :
    (n c : ℕ)
    → 0 < n
    → n ≤ c
    → c * n ≤ 1_000_000_000_000 + n / 2 - 1
    → 1_000_000_000_000 + n / 2 - 1 < c * n + n
    → cycle_value c ≡ n
unfolding cycle_value
cycle_value_undone n c h k lo hi = div_unique _ c n (omega arith) (omega arith) (omega arith)

cycle_value-lt : (n : ℕ) → 466 ≤ n → cycle_value n < 2 ^ 31
cycle_value-lt n h = elim (dec_lt (cycle_value n) (2 ^ 31)) [
  | yes lt ↦ lt
  | no ge ↦ absurd (omega (arith, cycle_bounds n (omega arith), above (omega arith), half))
]
  where
    above : 2 ^ 31 ≤ cycle_value n → 2 ^ 31 * n ≤ cycle_value n * n
    above p = grind arith

    half : n / 2 ≤ n
    half = omega arith

refresh_cycle_to_mhz-eq :
    (n : ℕ)
    → 0 < n
    → n < 2 ^ 31
    → cycle_value n < u32_mod
    → refresh_cycle_to_mhz n ≡ some (cycle_value n)
unfolding refresh_cycle_to_mhz cycle_value
refresh_cycle_to_mhz-eq n h k lt = ground arith

-- For a rate of at least 466 mHz and below 1,000,000 mHz the refresh cycle c is defined, c * mhz
-- differs from 10 ^ 12 by at most (mhz + 1) / 2 (the period in nanoseconds rounded to nearest), and
-- c converts back to exactly that rate.
pub mhz_to_refresh_cycle-undone :
    (mhz : ℕ)
    → 466 ≤ mhz
    → mhz < 1_000_000
    → (c : ℕ) × (mhz_to_refresh_cycle mhz ≡ some c)
      × (2 * (c * mhz) ≤ 2_000_000_000_000 + mhz)
      × (2_000_000_000_000 ≤ 2 * (c * mhz) + mhz + 1)
      × (refresh_cycle_to_mhz c ≡ some mhz)
unfolding mhz_to_refresh_cycle
mhz_to_refresh_cycle-undone mhz lo hi = (
  cycle_value mhz,
  refresh_cycle_to_mhz-eq mhz (omega arith) (omega arith) (omega (arith, small)),
  omega (arith, bounds),
  omega (arith, bounds),
  refresh_cycle_to_mhz-eq _ (omega (arith, ge)) small (rw undone (omega arith)) ∙ ap some undone,
)
  where
    bounds :
        (cycle_value mhz * mhz ≤ 1_000_000_000_000 + mhz / 2 - 1)
        × (1_000_000_000_000 + mhz / 2 - 1 < cycle_value mhz * mhz + mhz)
    bounds = cycle_bounds mhz (omega arith)

    small : cycle_value mhz < 2 ^ 31
    small = cycle_value-lt mhz lo

    ge : mhz ≤ cycle_value mhz
    ge = cycle_value-ge mhz (omega arith) hi

    undone : cycle_value (cycle_value mhz) ≡ mhz
    undone = cycle_value_undone mhz (cycle_value mhz) (omega arith) ge bounds.0 bounds.1

-- A cycle that is no positive int32_t is taken for a negative one, and gives 0.
refresh_cycle_to_mhz_negative :
    (cycle : ℕ) → 2 ^ 31 ≤ cycle → cycle < u32_mod → refresh_cycle_to_mhz cycle ≡ some 0
unfolding refresh_cycle_to_mhz
refresh_cycle_to_mhz_negative cycle lo hi =
    let m = u32_mod - cycle in
    let same : u32 cycle ≡ cycle = omega arith in
    let none_left : u64 (1_000_000_000_000 + (u64_mod - m / 2) - 1) / (u64_mod - m) ≡ 0 =
      div_unique _ (u64_mod - m) 0 (omega arith) (omega arith) (omega arith) in
    rw same (ground (arith, none_left))

-- A rate has no refresh cycle (the code divides by zero) exactly if it is 0.
mhz_to_refresh_cycle-none : (mhz : ℕ) → mhz < 2 ^ 31 → (mhz_to_refresh_cycle mhz ≡ none) ↔ (mhz ≡ 0)
unfolding mhz_to_refresh_cycle refresh_cycle_to_mhz
mhz_to_refresh_cycle-none mhz h = ground arith

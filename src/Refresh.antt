-- ===== src/Refresh.antt =====
-- src/refresh_rate.h: conversions between Hz, mHz and refresh cycles in nanoseconds.
-- An `int32_t` is a natural number, in two's complement.
pub mod Rounding
use cloud_desktop.Prelude.{
  ℕ, ◌+◌, ◌-◌, ◌*◌, ◌/◌, ◌^◌, Option, none, some, ◌==◌, ltb, if◌then◌else◌, u32, u32_mod, u64,
  u64_mod,
}

-- The uint32_t overloads.
unfoldable pub convert_hz_to_mhz : ℕ → ℕ
convert_hz_to_mhz hz = u32 (hz * 1000)

unfoldable pub convert_mhz_to_hz : ℕ → ℕ
convert_mhz_to_hz mhz = u32 (mhz + 499) / 1000

-- `none` is the division by zero. The argument is cut to an int32_t, which is widened to 64 bits; one of
-- 2 ^ 31 or more stands for a negative number, whose distance from 0 is `m`. The result is cut to 32 bits.
unfoldable pub refresh_cycle_to_mhz : ℕ → Option ℕ
refresh_cycle_to_mhz n =
    let cycle = u32 n in
    let m = u32_mod - cycle in
    if cycle == 0
    then none
    else if ltb cycle (2 ^ 31)
    then some (u32 (u64 (1_000_000_000_000 + cycle / 2 - 1) / cycle))
    else some (u32 (u64 (1_000_000_000_000 + (u64_mod - m / 2) - 1) / (u64_mod - m)))

unfoldable pub mhz_to_refresh_cycle : ℕ → Option ℕ
unfolding refresh_cycle_to_mhz
mhz_to_refresh_cycle mhz = refresh_cycle_to_mhz mhz

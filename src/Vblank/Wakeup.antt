-- ===== src/Vblank/Wakeup.antt =====
-- When CVBlankTimer wakes up, and what its offset is bounded by (src/vblankmanager.cpp).
use cloud_desktop.Prelude.{
  ◌>>=◌, ℕ, zero, suc, ◌+◌, ◌-◌, ◌*◌, ◌%◌, ◌≤◌, ◌<◌, ◌≡◌, refl, Bool, true, false, some, ◌⊎◌, inl,
  inr, arith, Bool-cases, ltb, u64_mod, sub_u64,
}
use cloud_desktop.Refresh.{mhz_to_refresh_cycle}
use cloud_desktop.Vblank.State.{
  VBlankScheduleTime, vrr_flushing_time, Env, VBlankTimer, get_refresh,
}
use cloud_desktop.Vblank.Schedule.{
  advance, get_next_vblank, calc_red_zone, calc_offset, calc_next_wakeup_time,
}

-- `w` is the first of target, target + interval, ... that is not before `now`.
pub record Lands (now interval target w : ℕ) : Type 0 where
  pub reached : now ≤ w
  pub near : (w ≡ target) ⊎ (w < now + interval)
  pub rounds : ℕ
  pub at : w ≡ target + rounds * interval

advance_total :
    (fuel now interval target : ℕ)
    → now < target + fuel
    → 0 < fuel
    → 0 < interval
    → now + interval < u64_mod
    → (w : ℕ) × (advance fuel now interval target ≡ some w) × Lands now interval target w
unfolding advance
advance_total zero now interval target h f p q = elim f [ ]
advance_total (suc fuel) now interval target h f p q = elim (Bool-cases (ltb target now)) [
  | inr early ↦ (
    target,
    rw early,
    record { reached = ground arith; near = inl refl; rounds = 0; at = ground arith },
  )
  | inl late ↦
      step late
        (advance_total fuel now interval (target + interval) (ground arith) (ground arith) p q)
]
  where
    step :
        ltb target now ≡ true
        → ((w : ℕ) × (advance fuel now interval (target + interval) ≡ some w)
            × Lands now interval (target + interval) w)
        → (w : ℕ) × (advance (suc fuel) now interval target ≡ some w) × Lands now interval target w
    step late (w, e, lands) = (
      w,
      ground arith,
      record {
        reached = lands.reached;
        near = ground arith;
        rounds = suc lands.rounds;
        at = ground (arith, lands.at);
      },
    )

-- GetNextVBlank: with a refresh cycle of `cycle` nanoseconds, an offset of at most the last vblank
-- plus one cycle, and no overflow of 64 bits, the loop ends and returns a wakeup point that is not
-- in the past, lies a whole number of cycles (one at least) after the last vblank less the offset,
-- and is less than a cycle away unless it is the first such point.
pub get_next_vblank-Lands :
    (e : Env) (t : VBlankTimer) (offset cycle : ℕ)
    → mhz_to_refresh_cycle (get_refresh e) ≡ some cycle
    → 0 < cycle
    → offset ≤ t.last_vblank + cycle
    → t.last_vblank + cycle < u64_mod
    → e.now + cycle < u64_mod
    → (w : ℕ) × (get_next_vblank e t offset ≡ some w)
      × Lands e.now cycle (t.last_vblank + cycle - offset) w
unfolding get_next_vblank
get_next_vblank-Lands e t offset cycle rate p o a b =
    let (w, found, lands) =
      advance_total (suc e.now) e.now cycle (t.last_vblank + cycle - offset) (omega arith)
        (omega arith) p b in
    (w, rw (rate, ◌>>=◌, point) found, lands)
  where
    point : sub_u64 ((t.last_vblank + cycle) % u64_mod) offset ≡ t.last_vblank + cycle - offset
    point = omega arith

-- The offset never exceeds a refresh cycle, if the cycle has room for the tunables.
calc_offset-le :
    (e : Env) (t : VBlankTimer) (preemptive : Bool) (cycle : ℕ)
    → t.draw_buffer_red_zone ≤ cycle
    → t.draw_time_min_compositing + vrr_flushing_time ≤ cycle
    → cycle < u64_mod
    → (calc_offset e t preemptive cycle).0 ≤ cycle
unfolding calc_offset calc_red_zone
calc_offset-le e t preemptive cycle a b c = ground arith

-- Without VRR the whole red zone is part of it.
calc_offset-ge :
    (e : Env) (t : VBlankTimer) (preemptive : Bool) (cycle : ℕ)
    → e.vrr_active ≡ false
    → t.draw_buffer_red_zone ≤ cycle
    → cycle < u64_mod
    → calc_red_zone e t ≤ (calc_offset e t preemptive cycle).0
unfolding calc_offset calc_red_zone
calc_offset-ge e t preemptive cycle v a b = ground arith

calc_offset-last_vblank :
    (e : Env) (t : VBlankTimer) (preemptive : Bool) (cycle : ℕ)
    → (calc_offset e t preemptive cycle).1.last_vblank ≡ t.last_vblank
unfolding calc_offset
calc_offset-last_vblank e t preemptive cycle = ground arith

-- A schedule `s` computed at e.now by the timer `t`, with a refresh cycle of `cycle`: the wakeup is
-- not in the past and at most one cycle before the target, the target is a whole number of cycles
-- (one at least) after the last vblank, the wakeup is less than a cycle away unless the target is
-- the very next vblank, and without VRR the wakeup leaves the red zone.
pub record IsGoodSchedule (e : Env) (t : VBlankTimer) (cycle : ℕ) (s : VBlankScheduleTime)
    : Type 0 where
  pub future : e.now ≤ s.scheduled_wakeup_point
  pub before : s.scheduled_wakeup_point ≤ s.target_vblank
  pub close : s.target_vblank ≤ s.scheduled_wakeup_point + cycle
  pub cycles : ℕ
  pub on_vblank : s.target_vblank ≡ t.last_vblank + cycle + cycles * cycle
  pub next : (s.target_vblank ≡ t.last_vblank + cycle) ⊎ (s.scheduled_wakeup_point < e.now + cycle)
  pub margin :
      (e.vrr_active ≡ true) ⊎ (s.scheduled_wakeup_point + calc_red_zone e t ≤ s.target_vblank)

good_of-Lands :
    (e : Env) (t : VBlankTimer) (cycle offset w : ℕ)
    → offset ≤ cycle
    → (e.vrr_active ≡ true) ⊎ (calc_red_zone e t ≤ offset)
    → t.last_vblank + cycle < u64_mod
    → e.now + 2 * cycle < u64_mod
    → Lands e.now cycle (t.last_vblank + cycle - offset) w
    → IsGoodSchedule e t cycle
        (record { target_vblank = (w + offset) % u64_mod; scheduled_wakeup_point = w })
good_of-Lands e t cycle offset w le margin a b lands = record {
  future = lands.reached;
  before = omega (arith, fits);
  close = omega (arith, fits);
  cycles = lands.rounds;
  on_vblank = omega (arith, fits, lands.at);
  next = ground (arith, fits, lands.near);
  margin = ground (arith, fits);
}
  where
    fits : (w + offset) % u64_mod ≡ w + offset
    fits = omega (arith, lands.near)

-- CalcNextWakeupTime returns a good schedule: for a refresh rate with a cycle that has room for the
-- red zone and for the compositing draw time, and times that do not overflow 64 bits.
pub calc_next_wakeup_time-IsGoodSchedule :
    (e : Env) (t : VBlankTimer) (preemptive : Bool) (cycle : ℕ)
    → mhz_to_refresh_cycle (get_refresh e) ≡ some cycle
    → t.draw_buffer_red_zone ≤ cycle
    → t.draw_time_min_compositing + vrr_flushing_time ≤ cycle
    → t.last_vblank + cycle < u64_mod
    → e.now + 2 * cycle < u64_mod
    → (s : VBlankScheduleTime) × (t' : VBlankTimer) × (calc_next_wakeup_time e t preemptive
        ≡ some (s, t'))
      × IsGoodSchedule e t cycle s
unfolding calc_next_wakeup_time
calc_next_wakeup_time-IsGoodSchedule e t preemptive cycle rate zone comp a b =
    let (w, found, lands) =
      get_next_vblank-Lands e t' offset cycle rate (omega arith) (omega (arith, le, last))
        (omega (arith, last)) (omega arith) in
    (
      record { target_vblank = (w + offset) % u64_mod; scheduled_wakeup_point = w },
      t',
      rw (rate, ◌>>=◌, found),
      good_of-Lands e t cycle offset w le (leaves_zone (Bool-cases e.vrr_active)) a b
          (rw last at lands),
    )
  where
    offset : ℕ
    offset = (calc_offset e t preemptive cycle).0

    t' : VBlankTimer
    t' = (calc_offset e t preemptive cycle).1

    le : offset ≤ cycle
    le = calc_offset-le e t preemptive cycle zone comp (omega arith)

    last : t'.last_vblank ≡ t.last_vblank
    last = calc_offset-last_vblank e t preemptive cycle

    leaves_zone :
        (e.vrr_active ≡ true) ⊎ (e.vrr_active ≡ false)
        → (e.vrr_active ≡ true) ⊎ (calc_red_zone e t ≤ offset)
    leaves_zone (inl v) = inl v
    leaves_zone (inr v) = inr (calc_offset-ge e t preemptive cycle v zone (omega arith))

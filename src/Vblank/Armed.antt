-- ===== src/Vblank/Armed.antt =====
-- CVBlankTimer over any history of calls, on the timerfd path (src/vblankmanager.cpp).
use cloud_desktop.Prelude.{
  ◌>>=◌, ℕ, ◌+◌, ◌≤◌, ◌≡◌, Bool, true, false, Option, none, some, List, arith, ◌==◌, if◌then◌else◌,
  ap, ◌&&◌, Bool-cases, Option-cases, inl, inr,
}
use cloud_desktop.Vblank.State.{
  Env, VBlankScheduleTime, VBlankTimer, update_was_compositing, update_last_draw_time,
}
use cloud_desktop.Vblank.Schedule.{calc_next_wakeup_time}
use cloud_desktop.Vblank.Rolling.{calc_next_wakeup_time_keeps}
use cloud_desktop.Vblank.Arming.{
  arm_now, arm_next_vblank, mark_vblank, process_vblank, ReadResult, on_poll_in,
}

-- The calls that the rest of the program makes of the timer.
pub data Call : Type 0 where
  arm : Bool → Call
  mark : ℕ → Bool → Call
  poll : List ReadResult → Call
  process : Call
  compositing : Bool → Call
  draw_time : ℕ → Call

-- A call returns the new timer and how many vblanks it handed to the compositor.
unfoldable pub call : Env → Call → VBlankTimer → Option (VBlankTimer × ℕ)
unfolding process_vblank update_was_compositing update_last_draw_time mark_vblank on_poll_in
call e (arm preemptive) t = do t' ← arm_next_vblank e t preemptive; some (t', 0)
call e (mark nanos re_arm) t = do t' ← mark_vblank e t nanos re_arm; some (t', 0)
call e (poll reads) t = do t' ← on_poll_in e t reads; some (t', 0)
call e process t =
    let (vblank, t') = process_vblank t in some (t', elim vblank [ none ↦ 0 | some _ ↦ 1 ])
call e (compositing b) t = some (update_was_compositing t b, 0)
call e (draw_time n) t = some (update_last_draw_time t n, 0)

-- The kernel timer is set exactly while the timer is armed, to the wakeup point of the schedule
-- that the next poll will hand over (0 would be no time at all).
pub record Inv (t : VBlankTimer) : Type 0 where
  pub on_timer_fd : t.using_timer_fd ≡ true
  pub timer_set : t.timer_fd ≡ (
      if t.armed
      then (if t.timer_fd_schedule.scheduled_wakeup_point == 0
          then none
          else some t.timer_fd_schedule.scheduled_wakeup_point)
      else none)

-- Only the rolling draw time may change under CalcNextWakeupTime.
calc_next_wakeup_time-fields :
    (e : Env) (t : VBlankTimer) (preemptive : Bool) {s : VBlankScheduleTime} {t' : VBlankTimer}
    → calc_next_wakeup_time e t preemptive ≡ some (s, t')
    → (t'.armed ≡ t.armed)
      × (t'.using_timer_fd ≡ t.using_timer_fd)
      × (t'.pending_vblank ≡ t.pending_vblank)
calc_next_wakeup_time-fields e t preemptive h =
    let k = (calc_next_wakeup_time_keeps e t preemptive h).1 in
    (
      ap (λ (u : VBlankTimer). u.armed) k,
      ap (λ (u : VBlankTimer). u.using_timer_fd) k,
      ap (λ (u : VBlankTimer). u.pending_vblank) k,
    )

-- What arming leaves behind on the timerfd path.
arm_now_lem :
    (e : Env) (t : VBlankTimer) (preemptive : Bool) {t' : VBlankTimer}
    → t.using_timer_fd ≡ true
    → arm_now e t preemptive ≡ some t'
    → Inv t' × (t'.armed ≡ true) × (t'.pending_vblank ≡ t.pending_vblank)
unfolding arm_now
arm_now_lem e t preemptive fd h =
    elim (Option-cases (calc_next_wakeup_time e (record t { armed = true }) preemptive)) [
      | inl stuck ↦ ground arith
      | inr ((s, t''), found) ↦
          ground
            (arith, calc_next_wakeup_time-fields e (record t { armed = true }) preemptive found)
    ]

arm_next_vblank_lem :
    (e : Env) (t : VBlankTimer) (preemptive : Bool) {t' : VBlankTimer}
    → Inv t
    → arm_next_vblank e t preemptive ≡ some t'
    → Inv t' × (t'.armed ≡ true) × (t'.pending_vblank ≡ t.pending_vblank)
unfolding arm_next_vblank
arm_next_vblank_lem e t preemptive {t' = t'} inv h = elim (Bool-cases (preemptive && t.armed)) [
  | inl armed ↦ let same : t ≡ t' = ground arith in ground arith
  | inr idle ↦ arm_now_lem e t preemptive inv.on_timer_fd (ground arith)
]

abbrev pub flag : Bool → ℕ
flag true = 1
flag false = 0

abbrev pub waiting {ℓ} : {A : Type ℓ} → Option A → ℕ
waiting none = 0
waiting (some _) = 1

-- A call that may arm the timer.
abbrev pub arms : Call → ℕ
arms (arm preemptive) = 1
arms (mark nanos re_arm) = flag re_arm
arms _ = 0

-- The vblanks that are on their way: the one that the timer is set for, and the pending one.
abbrev pub on_the_way : VBlankTimer → ℕ
on_the_way t = flag t.armed + waiting t.pending_vblank

pub call_lem :
    (e : Env) (c : Call) (t : VBlankTimer) {t' : VBlankTimer} {n : ℕ}
    → Inv t
    → call e c t ≡ some (t', n)
    → Inv t' × (on_the_way t' + n ≤ on_the_way t + arms c)
unfolding call
call_lem e (arm preemptive) t inv h = elim (Option-cases (arm_next_vblank e t preemptive)) [
  | inl stuck ↦ ground arith
  | inr (u, found) ↦ ground (arith, arm_next_vblank_lem e t preemptive inv found)
]
call_lem e (mark nanos true) t inv h =
    let t₁ = record t { last_vblank = nanos } in
    let inv₁ : Inv t₁ = record { on_timer_fd = inv.on_timer_fd; timer_set = inv.timer_set } in
    elim (Option-cases (arm_next_vblank e t₁ false)) [
      | inl stuck ↦ ground arith
      | inr (u, found) ↦ ground (arith, arm_next_vblank_lem e t₁ false inv₁ found)
    ]
call_lem e (mark nanos false) t inv h = ground arith
call_lem e (poll reads) t inv h = ground arith
call_lem e process t inv h = ground arith
call_lem e (compositing b) t inv h = ground arith
call_lem e (draw_time n) t inv h = ground arith

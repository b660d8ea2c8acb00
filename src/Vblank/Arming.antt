-- ===== src/Vblank/Arming.antt =====
-- Arming the timer, and what happens when it fires (src/vblankmanager.cpp).
use cloud_desktop.Prelude.{
  ◌>>=◌, ℕ, Bool, true, false, ◌&&◌, Option, none, some, List, [], ◌∷◌, ltb, if◌then◌else◌, ◌==◌,
  u64, sub_u64, ◌+◌,
}
use cloud_desktop.Vblank.State.{VBlankScheduleTime, VBlankTime, Env, VBlankTimer, get_refresh}
use cloud_desktop.Refresh.{mhz_to_refresh_cycle}
use cloud_desktop.Vblank.Schedule.{calc_next_wakeup_time}

-- ITimerWaitable::ArmTimer sets the kernel timer to an absolute time; a time of 0 disarms it.
unfoldable pub arm_timer : VBlankTimer → ℕ → VBlankTimer
arm_timer t wakeup = record t { timer_fd = if wakeup == 0 then none else some wakeup }

unfoldable pub disarm_timer : VBlankTimer → VBlankTimer
unfolding arm_timer
disarm_timer t = arm_timer t 0

-- The part of ArmNextVBlank below the early return.
unfoldable pub arm_now : Env → VBlankTimer → Bool → Option VBlankTimer
unfolding arm_timer
arm_now e t preemptive =
    let t' = record t { armed = true } in
    if t.using_timer_fd
    then (do
      (schedule, t'') ← calc_next_wakeup_time e t' preemptive
      some
          (arm_timer (record t'' { timer_fd_schedule = schedule }) schedule.scheduled_wakeup_point))
    else some t'

unfoldable pub arm_next_vblank : Env → VBlankTimer → Bool → Option VBlankTimer
arm_next_vblank e t preemptive = if preemptive && t.armed then some t else arm_now e t preemptive

unfoldable pub mark_vblank : Env → VBlankTimer → ℕ → Bool → Option VBlankTimer
mark_vblank e t nanos re_arm =
    let t' = record t { last_vblank = nanos } in
    if re_arm then arm_next_vblank e t' false else some t'

-- ProcessVBlank takes the pending vblank out of the timer.
unfoldable pub process_vblank : VBlankTimer → Option VBlankTime × VBlankTimer
process_vblank t = (t.pending_vblank, record t { pending_vblank = none })

-- One `read` of the nudge pipe: EAGAIN, another error, too few bytes, or a whole message.
pub data ReadResult : Type 0 where
  again failed short : ReadResult
  message : VBlankTime → ReadResult

-- The branch of OnPollIn for the timerfd.
unfoldable pub on_poll_timer_fd : VBlankTimer → VBlankTimer
unfolding disarm_timer
on_poll_timer_fd t =
    if t.armed
    then disarm_timer (record t {
      armed = false;
      pending_vblank = some (record {
        schedule = t.timer_fd_schedule;
        wakeup_time = t.timer_fd_schedule.scheduled_wakeup_point;
      });
    })
    else t

-- The branch for the nudge pipe: the list holds what the reads return, and the loop goes on while
-- they say EAGAIN. A vblank more than a millisecond old is dropped.
unfoldable pub on_poll_nudge : Env → VBlankTimer → List ReadResult → Option VBlankTimer
on_poll_nudge e t [] = none
on_poll_nudge e t (again ∷ reads) = on_poll_nudge e t reads
on_poll_nudge e t (failed ∷ reads) = arm_next_vblank e t true
on_poll_nudge e t (short ∷ reads) = arm_next_vblank e t true
on_poll_nudge e t (message time ∷ reads) =
    if ltb 1_000_000 (sub_u64 e.now time.wakeup_time)
    then arm_next_vblank e t true
    else some (record t { pending_vblank = some time })

unfoldable pub on_poll_in : Env → VBlankTimer → List ReadResult → Option VBlankTimer
unfolding on_poll_timer_fd
on_poll_in e t reads =
    if t.using_timer_fd then some (on_poll_timer_fd t) else on_poll_nudge e t reads

-- What a round of NudgeThread comes to: the thread returns, divides by zero, or writes a message.
pub data NudgeRound : Type 0 where
  ended divided_by_zero : NudgeRound
  sent : VBlankTime → VBlankTimer → NudgeRound

send_nudge : VBlankTimer → VBlankScheduleTime → ℕ → NudgeRound
send_nudge t schedule wakeup =
    sent (record { schedule = schedule; wakeup_time = wakeup }) (record t { armed = false })

-- One round of NudgeThread once it has been woken. `frame_sync` is what the current connector's
-- FrameSync returns; without a connector the thread sleeps for a refresh cycle (`e` is read after
-- that) and makes up a schedule 3 ms ahead. `wakeup` is the clock after this.
unfoldable pub nudge_round : Env → VBlankTimer → Option VBlankScheduleTime → ℕ → NudgeRound
unfolding send_nudge
nudge_round e t (some schedule) wakeup = if t.running then send_nudge t schedule wakeup else ended
nudge_round e t none wakeup =
    if t.running
    then elim (mhz_to_refresh_cycle (get_refresh e)) [
      | none ↦ divided_by_zero
      | some _ ↦
          send_nudge t
            (record { target_vblank = u64 (e.now + 3_000_000); scheduled_wakeup_point = e.now })
            wakeup
    ]
    else ended

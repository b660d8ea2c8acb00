-- ===== src/Vblank/History.antt =====
-- Histories of calls of CVBlankTimer from its construction on, on the timerfd path.
use cloud_desktop.Prelude.{
  ◌>>=◌, ℕ, ◌+◌, ◌^◌, ◌≤◌, ◌<◌, ◌≡◌, refl, Bool, true, false, Option, some, List, [], ◌∷◌, All,
  arith, Bool-cases, inl, inr, ap, ◌&&◌, ◌∙◌,
}
use cloud_desktop.Refresh.{mhz_to_refresh_cycle}
use cloud_desktop.Vblank.State.{
  Env, VBlankTimer, VBlankScheduleTime, init, get_refresh, default_vblank_red_zone,
  default_draw_time_min_compositing, vrr_flushing_time,
}
use cloud_desktop.Vblank.Schedule.{calc_next_wakeup_time}
use cloud_desktop.Vblank.Wakeup.{calc_next_wakeup_time-IsGoodSchedule}
use cloud_desktop.Vblank.Rolling.{calc_next_wakeup_time_keeps}
use cloud_desktop.Vblank.Arming.{arm_timer, arm_now, arm_next_vblank, on_poll_timer_fd}
use cloud_desktop.Vblank.Armed.{
  Call, arm, mark, poll, process, compositing, draw_time, call, Inv, arms, on_the_way, call_lem,
}

-- The calls in turn, with the number of vblanks handed over.
unfoldable pub run : List (Env × Call) → VBlankTimer → Option (VBlankTimer × ℕ)
run [] t = some (t, 0)
run ((e, c) ∷ cs) t = do (t', n) ← call e c t; (t'', m) ← run cs t'; some (t'', n + m)

abbrev pub total_arms : List (Env × Call) → ℕ
total_arms [] = 0
total_arms ((e, c) ∷ cs) = arms c + total_arms cs

-- A vblank is marked at a time below 2 ^ 63.
abbrev pub MarkedEarly : Call → Type 0
MarkedEarly (mark nanos re_arm) = nanos < 2 ^ 63
MarkedEarly _ = Unit

-- A call at a refresh rate that leaves room for the default tunables, at times below 2 ^ 63.
pub record IsOrdinary (ec : Env × Call) : Type 0 where
  pub cycle : ℕ
  pub rate : mhz_to_refresh_cycle (get_refresh ec.0) ≡ some cycle
  pub room : default_vblank_red_zone ≤ cycle
  pub room_compositing : default_draw_time_min_compositing + vrr_flushing_time ≤ cycle
  pub short : cycle < 2 ^ 32
  pub early : ec.0.now < 2 ^ 63
  pub marked : MarkedEarly ec.1

record IsTuned (t : VBlankTimer) : Type 0 where
  inv : Inv t
  zone : t.draw_buffer_red_zone ≡ default_vblank_red_zone
  comp : t.draw_time_min_compositing ≡ default_draw_time_min_compositing
  last : t.last_vblank < 2 ^ 63

arm_now_made :
    (e : Env) (t t₂ : VBlankTimer) (s : VBlankScheduleTime) (preemptive : Bool)
    → t.using_timer_fd ≡ true
    → calc_next_wakeup_time e (record t { armed = true }) preemptive ≡ some (s, t₂)
    → arm_now e t preemptive
      ≡ some (arm_timer (record t₂ { timer_fd_schedule = s }) s.scheduled_wakeup_point)
unfolding arm_now
arm_now_made e t t₂ s preemptive fd found = ground arith

-- What a call must leave alone for the next one to succeed.
record Keeps (t t' : VBlankTimer) : Type 0 where
  zone : t'.draw_buffer_red_zone ≡ t.draw_buffer_red_zone
  comp : t'.draw_time_min_compositing ≡ t.draw_time_min_compositing
  last : t'.last_vblank < 2 ^ 63

-- Arming succeeds.
arm_next_vblank_total :
    (e : Env) (t : VBlankTimer) (preemptive : Bool) (c : Call)
    → IsOrdinary (e, c)
    → IsTuned t
    → (t' : VBlankTimer) × (arm_next_vblank e t preemptive ≡ some t') × Keeps t t'
unfolding arm_next_vblank arm_timer
arm_next_vblank_total e t preemptive c o k = elim (Bool-cases (preemptive && t.armed)) [
  | inl armed ↦ (t, rw armed, record { zone = refl; comp = refl; last = k.last })
  | inr idle ↦
      let (s, t₂, found, good) =
        calc_next_wakeup_time-IsGoodSchedule e (record t { armed = true }) preemptive o.cycle o.rate
          (omega (arith, k.zone)) (omega (arith, k.comp)) (omega (arith, k.last)) (omega arith) in
      let same = (calc_next_wakeup_time_keeps e (record t { armed = true }) preemptive found).1 in
      (
        arm_timer (record t₂ { timer_fd_schedule = s }) s.scheduled_wakeup_point,
        rw idle (arm_now_made e t t₂ s preemptive k.inv.on_timer_fd found),
        record {
          zone = ap (λ (u : VBlankTimer). u.draw_buffer_red_zone) same;
          comp = ap (λ (u : VBlankTimer). u.draw_time_min_compositing) same;
          last = omega (arith, k.last, ap (λ (u : VBlankTimer). u.last_vblank) same);
        },
      )
]

abbrev Succeeds : Env → Call → VBlankTimer → Type 0
Succeeds e c t =
    (t' : VBlankTimer) × (n : ℕ) × (call e c t ≡ some (t', n))
    × IsTuned t'
    × (on_the_way t' + n ≤ on_the_way t + arms c)

succeeds :
    (e : Env) (c : Call) (t t' : VBlankTimer) (n : ℕ)
    → IsTuned t
    → call e c t ≡ some (t', n)
    → Keeps t t'
    → Succeeds e c t
succeeds e c t t' n k made keeps =
    let (inv, count) = call_lem e c t k.inv made in
    (
      t',
      n,
      made,
      record {
        inv = inv;
        zone = keeps.zone ∙ k.zone;
        comp = keeps.comp ∙ k.comp;
        last = keeps.last;
      },
      count,
    )

call-IsTuned :
    (e : Env) (c : Call) (t : VBlankTimer) → IsOrdinary (e, c) → IsTuned t → Succeeds e c t
unfolding call
call-IsTuned e (arm preemptive) t o k =
    let (t', found, keeps) = arm_next_vblank_total e t preemptive (arm preemptive) o k in
    succeeds e (arm preemptive) t t' 0 k (rw found) keeps
call-IsTuned e (mark nanos true) t o k =
    let t₁ : VBlankTimer = record t { last_vblank = nanos } in
    let k₁ : IsTuned t₁ = record {
      inv = record { on_timer_fd = k.inv.on_timer_fd; timer_set = k.inv.timer_set };
      zone = k.zone;
      comp = k.comp;
      last = o.marked;
    } in
    let (t', found, keeps) = arm_next_vblank_total e t₁ false (mark nanos true) o k₁ in
    succeeds e (mark nanos true) t t' 0 k (rw found)
      (record { zone = keeps.zone; comp = keeps.comp; last = keeps.last })
call-IsTuned e (mark nanos false) t o k =
    succeeds e (mark nanos false) t _ 0 k refl
      (record { zone = refl; comp = refl; last = o.marked })
call-IsTuned e (poll reads) t o k =
    succeeds e (poll reads) t (on_poll_timer_fd t) 0 k (rw k.inv.on_timer_fd) (ground arith)
call-IsTuned e process t o k =
    succeeds e process t _ _ k refl (record { zone = refl; comp = refl; last = k.last })
call-IsTuned e (compositing b) t o k =
    succeeds e (compositing b) t _ _ k refl (record { zone = refl; comp = refl; last = k.last })
call-IsTuned e (draw_time n) t o k =
    succeeds e (draw_time n) t _ _ k refl (record { zone = refl; comp = refl; last = k.last })

run-IsTuned :
    (cs : List (Env × Call)) (t : VBlankTimer)
    → All IsOrdinary cs
    → IsTuned t
    → (t' : VBlankTimer) × (n : ℕ) × (run cs t ≡ some (t', n))
      × IsTuned t'
      × (on_the_way t' + n ≤ on_the_way t + total_arms cs)
unfolding run
run-IsTuned [] t o k = (t, 0, refl, k, omega arith)
run-IsTuned ((e, c) ∷ cs) t o k =
    let (t₁, n, made, k₁, count) = call-IsTuned e c t o.0 k in
    let (t₂, m, rest, k₂, count₂) = run-IsTuned cs t₁ o.1 k₁ in
    (t₂, n + m, rw (made, ◌>>=◌, rest), k₂, omega (arith, count, count₂))

-- After any history of ordinary calls from the constructor on (at a time below 2 ^ 63, on a backend
-- that uses the timerfd) no call has failed, the kernel timer is set exactly while the timer is
-- armed and then to the scheduled wakeup point, and at most one vblank was handed over for each
-- call that could arm the timer.
pub run-init :
    (now : ℕ) (cs : List (Env × Call))
    → now < 2 ^ 63
    → All IsOrdinary cs
    → (t' : VBlankTimer) × (n : ℕ) × (run cs (init now false) ≡ some (t', n))
      × Inv t'
      × (n ≤ total_arms cs)
unfolding init
run-init now cs h o =
    let (t', n, made, k, count) = run-IsTuned cs (init now false) o (record {
      inv = record { on_timer_fd = refl; timer_set = refl };
      zone = refl;
      comp = refl;
      last = h;
    }) in
    (t', n, made, k.inv, omega (arith, count))

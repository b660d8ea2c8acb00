-- ===== src/Sunshine/Signals.antt =====
-- Which frames are signalled (src/Backends/SunshineBackend.cpp,
-- src/wlserver.cpp).
use cloud_desktop.Prelude.{
  ℕ, ◌+◌, ◌≡◌, ◌≤◌, ◌<◌, ◌⊎◌, inl, refl, subst, false, ◌==◌, if◌then◌else◌, length, none, some,
  List, [], ◌∷◌, some-bind, some_inj, arith,
}
use cloud_desktop.Sunshine.Slots.{Pool}
use cloud_desktop.Sunshine.Actions.{
  Action, Stream, act, handed, idle, release_option, run, take_pending, took, waiting,
}
use cloud_desktop.Sunshine.Overlap.{start_stream}

-- What every action keeps holds after any of them.
run-keeps :
    (P : Stream → Type 0)
    → ((a : Action) (s s' : Stream) → act a s ≡ some s' → P s → P s')
    → (actions : List Action) (s s' : Stream) → run actions s ≡ some s'
    → P s
    → P s'
unfolding run
run-keeps P keep [] s s' e h = subst P (some_inj e) h
run-keeps P keep (a ∷ actions) s s' e h =
    let (t, first, rest) = some-bind (act a s) (run actions) e in
    run-keeps P keep actions t s' rest (keep a s t first h)

-- The eventfd says that a slot is pending, or Present is about to write to it.
abbrev IsAnnounced : Stream → Type 0
IsAnnounced s = (s.pending_slot ≡ none) ⊎ (0 < s.eventfd) ⊎ (s.presenter ≡ handed)

act-IsAnnounced : (a : Action) (s s' : Stream) → act a s ≡ some s' → IsAnnounced s → IsAnnounced s'
unfolding act release_option
act-IsAnnounced Action.presents s s' e h = ground arith
act-IsAnnounced Action.fails s s' e h = ground arith
act-IsAnnounced Action.hands_over s s' e h = ground arith
act-IsAnnounced (Action.signals now) s s' e h = ground arith
act-IsAnnounced Action.takes s s' e h = ground arith
act-IsAnnounced Action.releases s s' e h = ground arith
act-IsAnnounced (Action.commits done) s s' e h = ground arith
act-IsAnnounced (Action.fires now) s s' e h = ground arith
act-IsAnnounced (Action.resizes width height allocations) s s' e h = ground arith

-- As many signals as commits in direct mode, and at most as many behind a timer.
record IsCounted (mode : ℕ) (s : Stream) : Type 0 where
  same_mode : s.vblank_mode ≡ mode
  direct : mode ≡ 0 → (s.frames_sent ≡ length s.commits) × (s.has_pending_frame ≡ false)
  throttled : s.frames_sent + (if s.has_pending_frame then 1 else 0) ≤ length s.commits

act-IsCounted :
    (mode : ℕ) (a : Action) (s s' : Stream)
    → act a s ≡ some s'
    → IsCounted mode s
    → IsCounted mode s'
unfolding act release_option
act-IsCounted mode Action.presents s s' e h = ground arith
act-IsCounted mode Action.fails s s' e h = ground arith
act-IsCounted mode Action.hands_over s s' e h = ground arith
act-IsCounted mode (Action.signals now) s s' e h = ground arith
act-IsCounted mode Action.takes s s' e h = ground arith
act-IsCounted mode Action.releases s s' e h = ground arith
act-IsCounted mode (Action.commits done) s s' e h = ground arith
act-IsCounted mode (Action.fires now) s s' e h = ground arith
act-IsCounted mode (Action.resizes width height allocations) s s' e h = ground arith

-- In whatever order the threads act, and whatever fails: once Present has returned, a slot that is
-- pending is taken by the next call of the handler, which the event loop makes since the counter of the
-- eventfd is not 0.
pub run-announced :
    (actions : List Action) (pool : Pool) (mode now i : ℕ) (s : Stream)
    → run actions (start_stream pool mode now) ≡ some s
    → s.presenter ≡ idle
    → s.handler ≡ waiting
    → s.pending_slot ≡ some i
    → (s' : Stream) × (act Action.takes s ≡ some s')
      × (s'.handler ≡ took i)
      × (s'.pending_slot ≡ none)
unfolding act take_pending
run-announced actions pool mode now i s e at_idle at_wait pending =
    let announced : IsAnnounced s =
      run-keeps IsAnnounced act-IsAnnounced actions (start_stream pool mode now) s e (inl refl) in
    let signalled : s.eventfd == 0 ≡ false = ground arith in
    (
      record s { eventfd = 0; pending_slot = none; handler = took i },
      rw (at_wait, pending, signalled) refl,
      refl,
      refl,
    )

-- In whatever order the threads act: in direct mode Sunshine is told once of each buffer that the output
-- was given. Behind a timer it is told at most once for each, with the one that waits for the timer.
pub run-counted :
    (actions : List Action) (pool : Pool) (mode now : ℕ) (s : Stream)
    → run actions (start_stream pool mode now) ≡ some s
    → (mode ≡ 0 → s.frames_sent ≡ length s.commits)
      × (s.frames_sent + (if s.has_pending_frame then 1 else 0) ≤ length s.commits)
run-counted actions pool mode now s e =
    let x : IsCounted mode s =
      run-keeps (IsCounted mode) (act-IsCounted mode) actions (start_stream pool mode now) s e
        (record { same_mode = refl; direct = λ h. (refl, refl); throttled = omega arith }) in
    (λ h. (x.direct h).0, x.throttled)

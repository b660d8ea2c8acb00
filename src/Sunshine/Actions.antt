-- ===== src/Sunshine/Actions.antt =====
-- The two threads that use the slots (src/Backends/SunshineBackend.cpp, src/wlserver.cpp): an action is
-- what one of them does between two points at which the other may run. The dumps of frames and the
-- diagnostic output are left out. `none` is an action whose thread is not at the point for it.
use cloud_desktop.Prelude.{
  ◌>>=◌, ℕ, ◌+◌, ◌-◌, ◌/◌, ◌^◌, min, Bool, true, false, ◌&&◌, ◌==◌, ltb, leb, if◌then◌else◌, Option,
  none, some, List, [], ◌∷◌,
}
use cloud_desktop.Sunshine.Slots.{
  Allocation, GbmSlot, Pool, acquire_slot, release_slot, resize_slot_pool,
}

-- Where Present is: it draws into a slot, or has handed one over and not said so yet.
pub data Presenter : Type 0 where
  idle : Presenter
  drawing : ℕ → Presenter
  handed : Presenter

-- Where the handler of the eventfd is: it has taken the pending slot, or has also released the slot
-- that was committed before.
pub data Handler : Type 0 where
  waiting : Handler
  took : ℕ → Handler
  released : ℕ → Handler

-- `eventfd` is its counter. Times are in nanoseconds. What the output was given is in `commits`, the
-- newest first; `frames_sent` counts wlr_output_send_frame.
pub record Stream : Type 0 where
  pub pool : Pool
  pub presenter : Presenter
  pub handler : Handler
  pub pending_slot : Option ℕ
  pub committed_slot : Option ℕ
  pub eventfd : ℕ
  pub vblank_mode : ℕ
  pub has_pending_frame : Bool
  pub commits : List ℕ
  pub frames_sent : ℕ
  pub last_present : ℕ
  pub has_repaint : Bool
  pub nudges : ℕ

abbrev pub with_slots : (ℕ → GbmSlot) → Stream → Stream
with_slots slots s = record s { pool = record (s.pool) { slots = slots } }

-- ReleaseSlot of a slot that may be missing.
unfoldable pub release_option : Option ℕ → Stream → Stream
unfolding release_slot
release_option none s = s
release_option (some i) s = with_slots (release_slot i s.pool.slots) s

-- Present up to vulkan_screenshot. If all slots are busy it drops the frame.
unfoldable pub begin_present : Presenter → Stream → Option Stream
unfolding acquire_slot
begin_present idle s = elim (acquire_slot s.pool.slots) [
  | none ↦ some s
  | some (i, slots) ↦ some (record (with_slots slots s) { presenter = drawing i })
]
begin_present (drawing i) s = none
begin_present handed s = none

-- vulkan_screenshot fails.
unfoldable pub fail_present : Presenter → Stream → Option Stream
unfolding release_option
fail_present idle s = none
fail_present (drawing i) s = some (record (release_option (some i) s) { presenter = idle })
fail_present handed s = none

-- The slot becomes the pending one, in place of one that was not taken.
unfoldable pub hand_over : Presenter → Stream → Option Stream
unfolding release_option
hand_over idle s = none
hand_over (drawing i) s =
    some (record (release_option s.pending_slot s) { pending_slot = some i; presenter = handed })
hand_over handed s = none

abbrev pub max_eventfd : ℕ
max_eventfd = 2 ^ 64 - 2

-- The write to the eventfd, which fails where the counter is at its limit, and the heartbeat.
unfoldable pub signal_present : ℕ → Presenter → Stream → Option Stream
signal_present now idle s = none
signal_present now (drawing i) s = none
signal_present now handed s =
    some
      (record s { eventfd = min (s.eventfd + 1) max_eventfd; last_present = now; presenter = idle })

abbrev pub taken_by : Option ℕ → Handler
taken_by none = waiting
taken_by (some i) = took i

-- The handler up to the end of the lock; the event loop calls it while the counter is not 0.
unfoldable pub take_pending : Handler → Stream → Option Stream
take_pending waiting s =
    if s.eventfd == 0
    then none
    else some (record s { eventfd = 0; pending_slot = none; handler = taken_by s.pending_slot })
take_pending (took i) s = none
take_pending (released i) s = none

-- The release of the slot that was committed before.
unfoldable pub release_committed : Handler → Stream → Option Stream
unfolding release_option
release_committed waiting s = none
release_committed (took i) s =
    some (record (release_option s.committed_slot s) { handler = released i })
release_committed (released i) s = none

-- wlr_output_commit_state, which may fail, and what follows it.
unfoldable pub commit_output : Bool → Handler → Stream → Option Stream
unfolding release_option
commit_output done waiting s = none
commit_output done (took i) s = none
commit_output false (released i) s = some (record (release_option (some i) s) { handler = waiting })
commit_output true (released i) s = some (record s {
  handler = waiting;
  committed_slot = some i;
  commits = i ∷ s.commits;
  frames_sent = (if s.vblank_mode == 0 then s.frames_sent + 1 else s.frames_sent);
  has_pending_frame = (if s.vblank_mode == 0 then s.has_pending_frame else true);
})

-- The timer, which the Wayland thread runs between two events.
abbrev pub send_pending_frame : Stream → Stream
send_pending_frame s =
    if ltb 0 s.vblank_mode && s.has_pending_frame
    then record s { frames_sent = s.frames_sent + 1; has_pending_frame = false }
    else s

abbrev pub heartbeat : ℕ → Stream → Stream
heartbeat now s =
    if leb 500 ((now - s.last_present) / 1000000)
    then record s { has_repaint = true; nudges = s.nudges + 1; last_present = now }
    else s

unfoldable pub fire_timer : ℕ → Handler → Stream → Option Stream
fire_timer now waiting s = some (heartbeat now (send_pending_frame s))
fire_timer now (took i) s = none
fire_timer now (released i) s = none

-- DirtyState with a modeset, which the Wayland thread calls for set_output_mode, behind its wait.
unfoldable pub resize : ℕ → ℕ → List Allocation → Handler → Stream → Option Stream
unfolding resize_slot_pool
resize width height allocations waiting s =
    let p = record (s.pool) { output_width = width; output_height = height } in
    some (record s { pool = (resize_slot_pool allocations p).1 })
resize width height allocations (took i) s = none
resize width height allocations (released i) s = none

pub data Action : Type 0 where
  presents : Action
  fails : Action
  hands_over : Action
  signals : ℕ → Action
  takes : Action
  releases : Action
  commits : Bool → Action
  fires : ℕ → Action
  resizes : ℕ → ℕ → List Allocation → Action

unfoldable pub act : Action → Stream → Option Stream
unfolding begin_present fail_present hand_over signal_present take_pending release_committed
    commit_output fire_timer resize
act Action.presents s = begin_present s.presenter s
act Action.fails s = fail_present s.presenter s
act Action.hands_over s = hand_over s.presenter s
act (Action.signals now) s = signal_present now s.presenter s
act Action.takes s = take_pending s.handler s
act Action.releases s = release_committed s.handler s
act (Action.commits done) s = commit_output done s.handler s
act (Action.fires now) s = fire_timer now s.handler s
act (Action.resizes width height allocations) s = resize width height allocations s.handler s

unfoldable pub run : List Action → Stream → Option Stream
unfolding act
run [] s = some s
run (a ∷ as') s = act a s >>= run as'

-- ===== src/Fence.antt =====
-- src/commit.cpp, with src/waitable.h and the end of update_wayland_res in src/steamcompmgr.cpp: how a
-- commit waits for its fence. The waiter's thread and the compositor's act in any order, one operation
-- at a time, as each of the commit's holds its mutex.
pub mod Once
use cloud_desktop.Prelude.{
  ℕ, ◌+◌, ◌-◌, Bool, true, false, ◌&&◌, ◌||◌, if◌then◌else◌, Option, none, some, List, [], ◌∷◌,
  ◌++◌, u64_mod, sub_u64,
}
use cloud_desktop.Latch.State.{CommitDoneEntry}

-- commit_t, as far as its fence matters; `none` is a descriptor of -1.
pub record Waiting : Type 0 where
  pub win_seq : ℕ
  pub commit_id : ℕ
  pub desired_present_time : ℕ
  pub fifo : Bool
  pub is_steam : Bool
  pub present_time : ℕ
  pub commit_fence : Option ℕ
  pub mango_nudge : Bool

-- What mangoapp_update is called with; `none` is a visible frame time that is not known.
pub record OverlayUpdate : Type 0 where
  pub visible_frametime : Option ℕ
  pub app_frametime : ℕ

-- A commit and what it acts on. `added` is whether the waiter was ever asked to wait for it, `closed`
-- are the descriptors that were closed, and `last_frame_time` is the static variable of Signal.
pub record Fences : Type 0 where
  pub commit : Waiting
  pub added : Bool
  pub closed : List ℕ
  pub done_commits : List CommitDoneEntry
  pub last_frame_time : Option ℕ
  pub overlay_updates : List OverlayUpdate
  pub nudges : ℕ

-- The answer is whether a descriptor was closed.
unfoldable pub close_fence_internal : Fences → Bool × Fences
close_fence_internal s = elim s.commit.commit_fence [
  | none ↦ (false, s)
  | some fd ↦ (
    true,
    record s { commit = record (s.commit) { commit_fence = none }; closed = fd ∷ s.closed },
  )
]

unfoldable pub is_perf_overlay_fifo : Waiting → Bool
is_perf_overlay_fifo c = c.fifo || c.is_steam

abbrev pub time_since : Option ℕ → ℕ → ℕ
time_since none now = 0
time_since (some last) now = sub_u64 now last

abbrev pub done_entry : Waiting → CommitDoneEntry
done_entry c = record {
  win_seq = c.win_seq;
  commit_id = c.commit_id;
  desired_present_time = c.desired_present_time;
  earliest_present_time = 0;
  earliest_latch_time = 0;
  fifo = c.fifo;
}

-- The time of the frame, and the call of mangoapp_update.
unfoldable pub update_overlay : ℕ → Fences → Fences
unfolding is_perf_overlay_fifo
update_overlay now s =
    let frametime = time_since s.last_frame_time now in
    if s.commit.mango_nudge
    then record s {
      last_frame_time = some now;
      overlay_updates =
          record {
            visible_frametime = (if is_perf_overlay_fifo s.commit then none else some frametime);
            app_frametime = frametime;
          }
          ∷ s.overlay_updates;
    }
    else s

unfoldable pub signal : ℕ → Fences → Fences
unfolding update_overlay
signal now s = update_overlay now (record s {
  commit = record (s.commit) { present_time = now };
  done_commits = s.done_commits ++ done_entry s.commit ∷ [];
})

unfoldable pub on_poll_in : ℕ → Fences → Fences
unfolding close_fence_internal signal
on_poll_in now s =
    let (closed, s') = close_fence_internal s in
    let s'' = signal now s' in if closed then record s'' { nudges = s''.nudges + 1 } else s'

unfoldable pub on_poll_hang_up : Fences → Fences
unfolding close_fence_internal
on_poll_hang_up s = (close_fence_internal s).1

unfoldable pub set_fence : Option ℕ → Bool → Fences → Fences
unfolding close_fence_internal
set_fence fd mango_nudge s =
    let s' = (close_fence_internal s).1 in
    record s' { commit = record (s'.commit) { commit_fence = fd; mango_nudge = mango_nudge } }

-- epoll_ctl refuses a descriptor of -1; any other one, which nothing else waits for, is added.
unfoldable pub add_waitable : Fences → Fences
add_waitable s = elim s.commit.commit_fence [ none ↦ s | some fd ↦ record s { added = true } ]

-- The end of update_wayland_res.
unfoldable pub push_wait : Option ℕ → Bool → Bool → Bool → ℕ → Fences → Fences
unfolding set_fence signal add_waitable
push_wait fd mango_nudge known_ready is_xdg now s =
    let s' = set_fence fd mango_nudge s in
    if known_ready || is_xdg then signal now s' else add_waitable s'

-- What epoll_wait reports, with the time at which it is handled, and the end of the commit.
pub data Event : Type 0 where
  polled : Bool → Bool → ℕ → Event
  destroyed : Event

unfoldable pub handle_events : Bool → Bool → ℕ → Fences → Fences
unfolding on_poll_in on_poll_hang_up
handle_events in_ hang_up now s =
    let s' = if in_ then on_poll_in now s else s in if hang_up then on_poll_hang_up s' else s'

-- Events may come late, but only for a commit that was added. The destructor closes what is open.
unfoldable pub handle : Event → Fences → Fences
unfolding handle_events close_fence_internal
handle (Event.polled in_ hang_up now) s = if s.added then handle_events in_ hang_up now s else s
handle Event.destroyed s = (close_fence_internal s).1

unfoldable pub handle_all : List Event → Fences → Fences
unfolding handle
handle_all [] s = s
handle_all (e ∷ es) s = handle_all es (handle e s)

-- ===== src/Tests/Commits.antt =====
-- The theorems on finished commits at concrete inputs.
use cloud_desktop.Prelude.{◌/◌, ◌+◌, ◌≤◌, ◌≡◌, refl, true, some, [], ◌∷◌, arith}
use cloud_desktop.Latch.Vblank.{refresh_hz, flush_frame_done}
use cloud_desktop.Latch.Commit.{handle_done_commit, scan_queue, finish_done}
use cloud_desktop.Latch.Loops.{handle_done_commits_xwayland, handle_done_commits_xdg}
use cloud_desktop.Latch.Once.{fifo_taken, fifo_taken_once}
use cloud_desktop.Latch.Given.{HandedOver}
use cloud_desktop.Latch.Conserved.{times, times_passed, xwayland_conserves, xdg_loses}
use cloud_desktop.Refresh.{convert_mhz_to_hz}
use cloud_desktop.Latch.Pacing.{IsPaced, should_vblank_fixed-IsPaced}
use cloud_desktop.Latch.Done.{Shown, handle_done_commit-Shows, flush_frame_done_once}
use cloud_desktop.Tests.Data.{game, drawing, compositor, entries, entry, later_entry, tick}

fifo_taken_once_example :
    (fifo_taken 7 (handle_done_commits_xwayland tick entries (drawing ∷ []) compositor).passed ≤ 1)
    × (fifo_taken 7 (handle_done_commits_xdg tick entries (drawing ∷ []) compositor).passed ≤ 1)
fifo_taken_once_example = fifo_taken_once tick entries (drawing ∷ []) compositor 7

xwayland_conserves_example :
    (times 32
          (handle_done_commits_xwayland tick entries (drawing ∷ []) compositor).before_their_time
        + times_passed 32
            (handle_done_commits_xwayland tick entries (drawing ∷ []) compositor).passed
      ≡ times 32 entries)
    × HandedOver
        (handle_done_commits_xwayland tick entries (drawing ∷ []) compositor).passed
        (drawing ∷ [])
        compositor
        (handle_done_commits_xwayland tick entries (drawing ∷ []) compositor).wins
        (handle_done_commits_xwayland tick entries (drawing ∷ []) compositor).comp
xwayland_conserves_example = xwayland_conserves tick entries (drawing ∷ []) compositor 32

-- The commit 32 is due, and stands behind one that is early.
xdg_loses_example :
    times 32
        (handle_done_commits_xdg tick
          (entry ∷ later_entry ∷ entries)
          (drawing ∷ [])
          compositor).before_their_time
      + times_passed 32
          (handle_done_commits_xdg tick
            (entry ∷ later_entry ∷ entries)
            (drawing ∷ [])
            compositor).passed
    ≡ times 32 (entry ∷ later_entry ∷ [])
xdg_loses_example =
    xdg_loses tick (entry ∷ []) later_entry entries (drawing ∷ []) compositor 32 (omega arith, tt)
      refl (omega arith)

handle_done_commit-Shows_example :
    Shown 32 1_016_666_667 1_000_000_000 drawing
      (handle_done_commit drawing compositor 32 1_016_666_667 1_000_000_000).1
unfolding handle_done_commit scan_queue finish_done
handle_done_commit-Shows_example =
    handle_done_commit-Shows drawing compositor 32 1_016_666_667 1_000_000_000 refl

flush_frame_done_once_example :
    (game.unlocked_for_frame_callback ≡ true)
    × (game.received_done_commit ≡ true)
    × ((flush_frame_done
          (flush_frame_done game (some 50) (some 51) 1_000).0
          (some 50)
          (some 51)
          2_000).1
        ≡ [])
unfolding flush_frame_done
flush_frame_done_once_example =
    flush_frame_done_once game (some 50) (some 51) 1_000 2_000 (λ e. absurd (ground arith))

-- 60 Hz, limited to 30.
should_vblank_fixed-IsPaced_example :
    IsPaced compositor 7 (refresh_hz compositor / compositor.target_fps)
unfolding refresh_hz convert_mhz_to_hz
should_vblank_fixed-IsPaced_example =
    should_vblank_fixed-IsPaced compositor 7 (omega arith) (omega arith)

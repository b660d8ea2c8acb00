-- ===== src/Tests/Streams.antt =====
-- Frames on their way to Sunshine (src/Backends/SunshineBackend.cpp, src/wlserver.cpp).
use cloud_desktop.Prelude.{
  ℕ, ◌+◌, ◌≡◌, ◌≤◌, ◌⊎◌, refl, true, false, none, some, List, [], ◌∷◌, arith,
}
use cloud_desktop.Sunshine.Slots.{
  Allocation, GbmSlot, Pool, acquire_slot, close_slots, empty_slot, init_slots, slot_count,
}
use cloud_desktop.Sunshine.Actions.{Action, Stream, act, drawing, run, took, waiting}
use cloud_desktop.Sunshine.Handles.{Resize, close_slots_tidy, count_handle, empty_pool, resize_all}
use cloud_desktop.Sunshine.Overlap.{IsDisjoint, run-IsDisjoint, run-acquires, start_stream}
use cloud_desktop.Sunshine.Signals.{run-announced, run-counted}
use cloud_desktop.Sunshine.Resized.{resize-overlap}
use cloud_desktop.Sunshine.Stale.{after, commit_fails-overlap}

abbrev filled_pool : Pool
filled_pool = record {
  slots = λ i. record empty_slot {
    bo = some (10 + i);
    dma_fd = some (20 + i);
    stride = 5120;
    width = 1280;
    height = 720;
    vulkan_tex = some (30 + i);
  };
  output_width = 1280;
  output_height = 720;
  created_bos = 12 ∷ 11 ∷ 10 ∷ [];
  destroyed_bos = [];
  opened_fds = 22 ∷ 21 ∷ 20 ∷ [];
  closed_fds = [];
}

-- In direct mode.
abbrev started : Stream
started = start_stream filled_pool 0 100

abbrev first_frame : List Action
first_frame = Action.presents ∷ Action.hands_over ∷ Action.signals 500 ∷ []

abbrev one_shown : List Action
one_shown =
    Action.presents
    ∷ Action.hands_over
    ∷ Action.signals 500
    ∷ Action.takes
    ∷ Action.releases
    ∷ Action.commits true
    ∷ []

-- While a frame is shown and another one is taken, a third one is drawn.
abbrev three_frames : List Action
three_frames =
    Action.presents
    ∷ Action.hands_over
    ∷ Action.signals 500
    ∷ Action.takes
    ∷ Action.presents
    ∷ Action.releases
    ∷ Action.commits true
    ∷ Action.hands_over
    ∷ Action.signals 900
    ∷ Action.takes
    ∷ Action.presents
    ∷ []

three_frames-drawing : (after three_frames started).presenter ≡ drawing 2
unfolding run acquire_slot
three_frames-drawing = refl

run-IsDisjoint_example : IsDisjoint 2 (after three_frames started)
unfolding run acquire_slot
run-IsDisjoint_example =
    run-IsDisjoint three_frames filled_pool 0 100 2 (after three_frames started) (λ j. refl)
      (refl, (refl, (refl, (refl, (refl, (refl, (refl, (refl, (refl, (refl, (refl, tt)))))))))))
      refl refl

run-acquires_example :
    ((i : ℕ) × (slots : ℕ → GbmSlot) × (acquire_slot (after one_shown started).pool.slots
        ≡ some (i, slots)))
    ⊎ ((j : ℕ) × ((after one_shown started).handler ≡ took j))
unfolding run
run-acquires_example =
    run-acquires one_shown filled_pool 0 100 (after one_shown started) (λ j. refl)
      (refl, (refl, (refl, (refl, (refl, (refl, tt)))))) refl refl

run-announced_example :
    (s : Stream) × (act Action.takes (after first_frame started) ≡ some s)
    × (s.handler ≡ took 0)
    × (s.pending_slot ≡ none)
unfolding run acquire_slot
run-announced_example =
    run-announced first_frame filled_pool 0 100 0 (after first_frame started) refl refl refl refl

run-counted_example :
    ((after one_shown started).vblank_mode ≡ 0 → (after one_shown started).frames_sent ≡ 1)
    × ((after one_shown started).frames_sent + 0 ≤ 1)
unfolding run acquire_slot
run-counted_example = run-counted one_shown filled_pool 0 100 (after one_shown started) refl

abbrev made : ℕ → Allocation
made i = record {
  bo = some (10 + i);
  fd = some (20 + i);
  stride = 5120;
  modifier = 0;
  texture = some (30 + i);
}

-- At the new size the second texture cannot be made.
abbrev shrunk : Resize
shrunk = record {
  width = 800;
  height = 600;
  allocations = made 5 ∷ record (made 6) { texture = none } ∷ made 7 ∷ [];
}

abbrev opened : Pool
opened = (init_slots 0 (made 0 ∷ made 1 ∷ made 2 ∷ []) (empty_pool 1280 720)).1

close_slots_tidy_example :
    (count_handle 16 (close_slots slot_count 0 (resize_all (shrunk ∷ []) opened)).destroyed_bos
      ≡ count_handle 16 (resize_all (shrunk ∷ []) opened).created_bos)
    × (count_handle 16 (close_slots slot_count 0 (resize_all (shrunk ∷ []) opened)).closed_fds
        ≡ count_handle 16 (resize_all (shrunk ∷ []) opened).opened_fds)
close_slots_tidy_example =
    close_slots_tidy 1280 720 (made 0 ∷ made 1 ∷ made 2 ∷ []) (shrunk ∷ []) 16 (omega arith)
      (omega arith, tt)

-- The buffer object whose slot failed was made.
shrunk-made : count_handle 16 (resize_all (shrunk ∷ []) opened).created_bos ≡ 1
unfolding resize_all init_slots
shrunk-made = refl

-- Slot 0 is shown and slot 1 was taken.
abbrev showing : Stream
showing = record started { handler = took 1; committed_slot = some 0; commits = 0 ∷ [] }

commit_fails-overlap_example :
    (s : Stream) × (run
        (Action.releases
          ∷ Action.commits false
          ∷ Action.presents
          ∷ Action.hands_over
          ∷ Action.signals 700
          ∷ Action.takes
          ∷ Action.releases
          ∷ Action.commits true
          ∷ Action.presents
          ∷ [])
        showing
      ≡ some s)
    × (s.presenter ≡ drawing 0)
    × (s.handler ≡ waiting)
    × (s.committed_slot ≡ some 0)
    × (s.commits ≡ 0 ∷ 0 ∷ [])
commit_fails-overlap_example = commit_fails-overlap showing 1 700 refl refl refl refl refl

resize-overlap_example :
    (s : Stream) × (run
        (Action.resizes 800 600 (made 5 ∷ made 6 ∷ made 7 ∷ [])
          ∷ Action.presents
          ∷ Action.hands_over
          ∷ Action.signals 700
          ∷ Action.presents
          ∷ [])
        (record started { pending_slot = some 0 })
      ≡ some s)
    × (s.presenter ≡ drawing 0)
    × (s.pending_slot ≡ some 0)
resize-overlap_example =
    resize-overlap (record started { pending_slot = some 0 }) 800 600 700
      (made 5 ∷ made 6 ∷ made 7 ∷ []) refl refl refl

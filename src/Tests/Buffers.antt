-- ===== src/Tests/Buffers.antt =====
-- Command buffers that are recorded, submitted and reused (src/rendervulkan.cpp).
use cloud_desktop.Prelude.{
  ℕ, ◌≡◌, refl, true, false, not, ◌||◌, leb, Option, none, some, List, [], ◌∷◌, arith,
}
use cloud_desktop.Vulkan.Images.{
  Barrier, CmdBuffer, Command, Queues, Recording, Texture, is_prepared, mark_dirty,
  prepare_dest_image, prepare_src_image, set_dirty,
}
use cloud_desktop.Vulkan.Record.{
  barrier_loop, begin, bind_target, bind_texture, bound_images, claim_queue, clear_state,
  copy_image, dispatch, end, insert_barrier, memory_barrier, needs_barrier, prepare_all,
  record_write, reset, set_slot,
}
use cloud_desktop.Vulkan.Calls.{Call, run_call, run_calls, unsynced}
use cloud_desktop.Vulkan.Device.{
  Device, command_buffer, emplace_pending, garbage_collect, has_pending, new_buffer, no_textures,
  pop_or_allocate, reset_cmd_buffers, reset_loop, submit, submit_internal,
}
use cloud_desktop.Vulkan.Recycling.{count, count_pending}
use cloud_desktop.Vulkan.Ending.{Released, end-Released}
use cloud_desktop.Vulkan.Hazards.{run_calls-unsynced}
use cloud_desktop.Vulkan.Steps.{Step, System, is_submitted, uses}
use cloud_desktop.Vulkan.Reuse.{
  Reachable, command_buffer-completed, initial, reset_cmd_buffers-total,
}

abbrev queues : Queues
queues = record { ignored = 99; external = 98; own = 0 }

-- Every texture is shared with other processes, and none is on a queue yet.
abbrev shared : ℕ → Texture
shared i = record {
  external_image = true;
  output_image = false;
  width = 640;
  height = 480;
  queue_family = 99;
}

unfoldable empty_recording : Recording
unfolding new_buffer no_textures
empty_recording = record { buffer = new_buffer 2 7; textures = shared }

-- The texture 1 is drawn to 2, and 2 is copied to 3.
abbrev draw_and_copy : List Call
draw_and_copy =
    Call.set_texture 0 (some 1)
    ∷ Call.set_target (some 2)
    ∷ Call.dispatching
    ∷ Call.copying 2 3
    ∷ []

abbrev or_empty : Option Recording → Recording
or_empty none = empty_recording
or_empty (some r) = r

unfoldable after_copy : Recording
unfolding empty_recording run_calls run_call bind_texture bind_target dispatch copy_image
    record_write prepare_all prepare_src_image prepare_dest_image insert_barrier barrier_loop
    needs_barrier claim_queue memory_barrier mark_dirty is_prepared set_dirty set_slot bound_images
after_copy = or_empty (run_calls queues draw_and_copy empty_recording)

draw_and_copy-runs : run_calls queues draw_and_copy empty_recording ≡ some after_copy
unfolding after_copy
draw_and_copy-runs = refl

empty_state : empty_recording.buffer.texture_state ≡ []
unfolding empty_recording
empty_state = refl

empty_commands : empty_recording.buffer.commands ≡ []
unfolding empty_recording
empty_commands = refl

run_calls-unsynced_example : (ws : List ℕ) × (unsynced after_copy.buffer.commands ≡ some ws)
run_calls-unsynced_example =
    run_calls-unsynced queues draw_and_copy empty_recording after_copy empty_state empty_commands
      draw_and_copy-runs

end-Released_example :
    (r : Recording) × (bs : List Barrier) × (end queues after_copy ≡ some r)
    × (r.buffer.commands ≡ Command.pipeline_barrier bs ∷ after_copy.buffer.commands)
    × Released queues after_copy.buffer.texture_state bs
    × (unsynced r.buffer.commands ≡ some [])
end-Released_example =
    end-Released queues draw_and_copy empty_recording after_copy empty_state empty_commands
      draw_and_copy-runs

-- A buffer is made, submitted, and collected when the GPU has run it.
abbrev device₀ : Device
device₀ = (initial 3 shared).device

unfoldable buffer₇ : CmdBuffer
unfolding new_buffer no_textures begin clear_state
buffer₇ = begin (new_buffer 2 7)

abbrev s₁ : System
s₁ = record (initial 3 shared) { device = device₀; held = buffer₇ ∷ [] }

acquires : command_buffer 2 (some 7) device₀ ≡ (some buffer₇, device₀)
unfolding command_buffer pop_or_allocate buffer₇
acquires = refl

abbrev or_device : Option (ℕ × (ℕ → Texture) × Device) → Device
or_device none = device₀
or_device (some (n, t, d)) = d

unfoldable device₁ : Device
unfolding buffer₇ submit submit_internal end insert_barrier barrier_loop emplace_pending
device₁ = or_device (submit queues buffer₇ shared device₀)

abbrev s₂ : System
s₂ = record s₁ { device = device₁; textures = shared; held = []; submissions = (1, 7) ∷ [] }

submits : submit queues buffer₇ shared device₀ ≡ some (1, shared, device₁)
unfolding device₁
submits = refl

abbrev or_same : Option Device → Device
or_same none = device₀
or_same (some d) = d

unfoldable device₂ : Device
unfolding device₁ garbage_collect reset_cmd_buffers has_pending reset_loop reset
device₂ = or_same (garbage_collect 1 device₁)

collects : garbage_collect 1 device₁ ≡ some device₂
unfolding device₂
collects = refl

abbrev s₃ : System
s₃ = record s₂ { device = device₂; completed = 1 }

counts_one : device₁.submission_seq_no ≡ 1
unfolding device₁
counts_one = refl

fresh_seven : uses 7 (initial 3 shared) ≡ 0
unfolding count count_pending
fresh_seven = refl

reachable₁ : Reachable queues 2 3 s₁
reachable₁ =
    Reachable.next _ _ (Reachable.start shared)
      (Step.acquired (some 7) buffer₇ device₀ fresh_seven acquires)

reachable₂ : Reachable queues 2 3 s₂
unfolding buffer₇
reachable₂ =
    Reachable.next _ _ reachable₁
      (Step.submitted [] [] buffer₇ 1 shared device₁ refl (omega arith) submits)

reachable₃ : Reachable queues 2 3 s₃
reachable₃ =
    Reachable.next _ _
      (Reachable.next _ _ reachable₂ (Step.finished 1 (omega arith) (omega (arith, counts_one))))
      (Step.collected 1 device₂ (omega arith) collects)

unfoldable device₃ : Device
unfolding device₂ command_buffer pop_or_allocate
device₃ = (command_buffer 2 none device₂).1

reacquires : command_buffer 2 none device₂ ≡ (some buffer₇, device₃)
unfolding device₃ buffer₇
reacquires = refl

-- The buffer with the handle 7 comes back after the submission 1, which is completed.
command_buffer-completed_example :
    leb 1 1 || not (is_submitted 1 buffer₇.raw_buffer ((1, 7) ∷ [])) ≡ true
command_buffer-completed_example =
    command_buffer-completed queues 2 3 s₃ none buffer₇ device₃ reachable₃ tt reacquires 1

reset_cmd_buffers-total_example :
    (d : Device) × (reset_cmd_buffers 1 device₁ ≡ some d)
    × (has_pending 1 d.pending ≡ false)
    × ((h : ℕ) → uses h (record s₂ { device = d }) ≡ uses h s₂)
reset_cmd_buffers-total_example = reset_cmd_buffers-total queues 2 3 s₂ 1 reachable₂

-- ===== src/Vulkan/Device.antt =====
-- CVulkanDevice (src/rendervulkan.cpp, src/rendervulkan.hpp): the command buffers that are free, and
-- those that the GPU may still run. Diagnostic output is left out. `none` is a call of abort.
use cloud_desktop.Prelude.{
  ◌>>=◌, ℕ, zero, suc, ◌+◌, Bool, false, not, ◌||◌, ◌==◌, ltb, if◌then◌else◌, Option, none, some,
  List, [], ◌∷◌, u64,
}
use cloud_desktop.Vulkan.Images.{CmdBuffer, Queues, Texture}
use cloud_desktop.Vulkan.Record.{begin, end, reset}

-- The map from sequence numbers is kept in their order, and the vector from its back on. `semaphore`
-- is the scratch timeline semaphore's handle, and `submitted` what QueueSubmit was given, the newest
-- first.
pub record Submission : Type 0 where
  pub raw_buffer : ℕ
  pub waits : List (ℕ × ℕ)
  pub signals : List (ℕ × ℕ)

pub record Device : Type 0 where
  pub semaphore : ℕ
  pub submission_seq_no : ℕ
  pub unused : List CmdBuffer
  pub pending : List (ℕ × CmdBuffer)
  pub upload_buffer_offset : ℕ
  pub submitted : List Submission

-- The number of sampler slots, VKR_SAMPLER_SLOTS, is `slots`.
unfoldable pub no_textures : ℕ → List (Option ℕ)
no_textures zero = []
no_textures (suc n) = none ∷ no_textures n

unfoldable pub new_buffer : ℕ → ℕ → CmdBuffer
unfolding no_textures
new_buffer slots raw = record {
  raw_buffer = raw;
  texture_refs = [];
  texture_state = [];
  bound_textures = no_textures slots;
  target = none;
  external_dependencies = [];
  external_signals = [];
  commands = [];
}

-- The free buffers, and what AllocateCommandBuffers gives, if it succeeds.
unfoldable pub pop_or_allocate : ℕ → List CmdBuffer → Option ℕ → Device → Option CmdBuffer × Device
unfolding new_buffer begin
pop_or_allocate slots (b ∷ bs) allocated d = (some (begin b), record d { unused = bs })
pop_or_allocate slots [] none d = (none, d)
pop_or_allocate slots [] (some raw) d = (some (begin (new_buffer slots raw)), d)

unfoldable pub command_buffer : ℕ → Option ℕ → Device → Option CmdBuffer × Device
unfolding pop_or_allocate
command_buffer slots allocated d = pop_or_allocate slots d.unused allocated d

-- std::map::emplace: a key that is there keeps its value.
unfoldable pub emplace_pending : ℕ → CmdBuffer → List (ℕ × CmdBuffer) → List (ℕ × CmdBuffer)
emplace_pending seq b [] = (seq, b) ∷ []
emplace_pending seq b ((k, c) ∷ ps) =
    let rest = emplace_pending seq b ps in
    if ltb seq k then (seq, b) ∷ (k, c) ∷ ps else if seq == k then (k, c) ∷ ps else (k, c) ∷ rest

-- The new sequence number, the buffer as it was ended, and the device.
unfoldable pub submit_internal :
    Queues → CmdBuffer → (ℕ → Texture) → Device → Option (ℕ × CmdBuffer × (ℕ → Texture) × Device)
unfolding end
submit_internal q b textures d = do
  r ← end q (record { buffer = b; textures = textures })
  let next = u64 (d.submission_seq_no + 1)
  some (
    next,
    r.buffer,
    r.textures,
    record d {
      submission_seq_no = next;
      submitted =
          record {
            raw_buffer = r.buffer.raw_buffer;
            waits = r.buffer.external_dependencies;
            signals = (d.semaphore, next) ∷ r.buffer.external_signals;
          }
          ∷ d.submitted;
    },
  )

unfoldable pub submit :
    Queues → CmdBuffer → (ℕ → Texture) → Device → Option (ℕ × (ℕ → Texture) × Device)
unfolding submit_internal emplace_pending
submit q b textures d = do
  (seq, b', textures', d') ← submit_internal q b textures d
  some (seq, textures', record d' { pending = emplace_pending seq b' d'.pending })

unfoldable pub has_pending : ℕ → List (ℕ × CmdBuffer) → Bool
has_pending seq [] = false
has_pending seq ((k, b) ∷ ps) = k == seq || has_pending seq ps

-- The loop from the first entry to the one of `seq`: what it appends to the free buffers, and what is
-- left behind it.
unfoldable pub reset_loop :
    ℕ → List (ℕ × CmdBuffer) → List CmdBuffer → Option (List CmdBuffer × List (ℕ × CmdBuffer))
unfolding reset
reset_loop seq [] unused = none
reset_loop seq ((k, b) ∷ ps) unused =
    let next = reset_loop seq ps (reset b ∷ unused) in
    if k == seq then some (reset b ∷ unused, ps) else next

abbrev pub first_key : List (ℕ × CmdBuffer) → ℕ
first_key [] = 0
first_key ((k, b) ∷ ps) = k

-- The first check is of the order of the map.
unfoldable pub reset_cmd_buffers : ℕ → Device → Option Device
unfolding has_pending reset_loop
reset_cmd_buffers seq d =
    if not (has_pending seq d.pending)
    then some d
    else if ltb seq (first_key d.pending)
    then none
    else reset_loop seq d.pending d.unused
      >>= (λ s. some (record d { unused = s.0; pending = s.1 }))

-- `counter` is what GetSemaphoreCounterValue gives.
unfoldable pub garbage_collect : ℕ → Device → Option Device
unfolding reset_cmd_buffers
garbage_collect counter d = reset_cmd_buffers counter d

-- Once WaitSemaphores has returned.
unfoldable pub wait : ℕ → Bool → Device → Option Device
unfolding reset_cmd_buffers
wait seq resets d =
    let d' = if d.submission_seq_no == seq then record d { upload_buffer_offset = 0 } else d in
    if resets then reset_cmd_buffers seq d' else some d'

unfoldable pub wait_idle : Bool → Device → Option Device
unfolding wait
wait_idle resets d = wait d.submission_seq_no resets d

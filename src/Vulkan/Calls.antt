-- ===== src/Vulkan/Calls.antt =====
-- The calls that clients record with (src/rendervulkan.hpp), and what the recorded commands need of
-- each other.
use cloud_desktop.Prelude.{
  ◌>>=◌, ℕ, Bool, true, false, ◌&&◌, ◌||◌, ◌==◌, if◌then◌else◌, Option, none, some, List, [], ◌∷◌,
}
use cloud_desktop.Vulkan.Images.{Access, Barrier, Command, Queues, Recording, discard_image}
use cloud_desktop.Vulkan.Record.{
  add_dependency, add_signal, bind_target, bind_texture, copy_buffer_to_image, copy_image, dispatch,
}

pub data Call : Type 0 where
  set_texture : ℕ → Option ℕ → Call
  set_target : Option ℕ → Call
  dispatching : Call
  copying : ℕ → ℕ → Call
  uploading : ℕ → Call
  discarding : ℕ → Call
  depending : ℕ → ℕ → Call
  signalling : ℕ → ℕ → Call

unfoldable pub run_call : Queues → Call → Recording → Option Recording
unfolding bind_texture bind_target dispatch copy_image copy_buffer_to_image discard_image
    add_dependency add_signal
run_call q (Call.set_texture slot t) r = bind_texture slot t r
run_call q (Call.set_target t) r = some (bind_target t r)
run_call q Call.dispatching r = dispatch q r
run_call q (Call.copying src dst) r = copy_image q src dst r
run_call q (Call.uploading dst) r = copy_buffer_to_image q dst r
run_call q (Call.discarding image) r = some (discard_image image r)
run_call q (Call.depending semaphore point) r = some (add_dependency semaphore point r)
run_call q (Call.signalling semaphore point) r = some (add_signal semaphore point r)

unfoldable pub run_calls : Queues → List Call → Recording → Option Recording
unfolding run_call
run_calls q [] r = some r
run_calls q (c ∷ cs) r = do r' ← run_call q c r; run_calls q cs r'

unfoldable pub is_write : Access → Bool
is_write Access.no_access = false
is_write Access.write_bits = true
is_write Access.read_write_bits = true

-- A barrier waits for the writes to the image.
unfoldable pub is_flushed : ℕ → List Barrier → Bool
unfolding is_write
is_flushed image [] = false
is_flushed image (b ∷ bs) = (b.image == image && is_write b.src_access) || is_flushed image bs

unfoldable pub remove_flushed : List Barrier → List ℕ → List ℕ
unfolding is_flushed
remove_flushed bs [] = []
remove_flushed bs (i ∷ is) =
    let rest = remove_flushed bs is in if is_flushed i bs then rest else i ∷ rest

unfoldable pub is_among : ℕ → List ℕ → Bool
is_among i [] = false
is_among i (j ∷ js) = i == j || is_among i js

unfoldable pub overlap : List ℕ → List ℕ → Bool
unfolding is_among
overlap [] ws = false
overlap (i ∷ is) ws = is_among i ws || overlap is ws

-- A command that writes `target`, where writes to `ws` have not been waited for: it must touch none of
-- them.
abbrev pub add_write : List ℕ → ℕ → List ℕ → Option (List ℕ)
add_write images target ws = if overlap (target ∷ images) ws then none else some (target ∷ ws)

-- The images that were written and not waited for after these commands, of which the first one is the
-- newest; `none` where a command touches such an image.
unfoldable pub unsynced : List Command → Option (List ℕ)
unfolding remove_flushed overlap
unsynced [] = some []
unsynced (Command.pipeline_barrier bs ∷ cs) = unsynced cs >>= (λ ws. some (remove_flushed bs ws))
unsynced (Command.dispatched images dst ∷ cs) = unsynced cs >>= add_write images dst
unsynced (Command.image_copied src dst ∷ cs) = unsynced cs >>= add_write (src ∷ []) dst
unsynced (Command.buffer_copied dst ∷ cs) = unsynced cs >>= add_write [] dst

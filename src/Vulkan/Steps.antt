-- ===== src/Vulkan/Steps.antt =====
-- A device, its clients and the GPU (src/rendervulkan.cpp): the order in which they act is arbitrary.
use cloud_desktop.Prelude.{
  ℕ, ◌+◌, ◌≤◌, ◌<◌, ◌≡◌, Bool, true, false, not, ◌&&◌, ◌||◌, ◌==◌, leb, Option, none, some, List,
  [], ◌∷◌, ◌++◌, u64_mod,
}
use cloud_desktop.Vulkan.Images.{CmdBuffer, Queues, Texture}
use cloud_desktop.Vulkan.Device.{
  Device, command_buffer, garbage_collect, submit, submit_internal, wait,
}
use cloud_desktop.Vulkan.Recycling.{Ascending, count, count_pending, is_pending}

-- The clients hold the buffers that they record into. The GPU has finished all submissions up to
-- `completed`; `submissions` are those that were made, with the handles of their buffers.
pub record System : Type 0 where
  pub device : Device
  pub textures : ℕ → Texture
  pub held : List CmdBuffer
  pub completed : ℕ
  pub submissions : List (ℕ × ℕ)

-- How many buffers have the handle.
abbrev pub uses : ℕ → System → ℕ
uses h s = count h s.device.unused + count_pending h s.device.pending + count h s.held

-- AllocateCommandBuffers gives a handle that no buffer has.
abbrev pub IsFresh : Option ℕ → System → Type 0
IsFresh none s = Unit
IsFresh (some h) s = uses h s ≡ 0

unfoldable pub is_submitted : ℕ → ℕ → List (ℕ × ℕ) → Bool
is_submitted seq h [] = false
is_submitted seq h ((k, raw) ∷ ps) = (k == seq && raw == h) || is_submitted seq h ps

-- A client takes a buffer, records into one, or submits one; the device collects what the semaphore's
-- counter says is done, or waits; and the GPU goes on. An effect submits its own buffer, which the
-- device does not keep.
pub data Step (q : Queues) (slots : ℕ) (s : System) : System → Type 0 where
  acquired :
      (allocated : Option ℕ) (b : CmdBuffer) (d : Device)
      → IsFresh allocated s
      → command_buffer slots allocated s.device ≡ (some b, d)
      → Step q slots s (record s { device = d; held = b ∷ s.held })
  recorded :
      (before after : List CmdBuffer) (b b' : CmdBuffer) (textures : ℕ → Texture)
      → s.held ≡ before ++ b ∷ after
      → b'.raw_buffer ≡ b.raw_buffer
      → Step q slots s (record s { textures = textures; held = before ++ b' ∷ after })
  submitted :
      (before after : List CmdBuffer) (b : CmdBuffer) (seq : ℕ) (textures : ℕ → Texture)
      (d : Device)
      → s.held ≡ before ++ b ∷ after
      → s.device.submission_seq_no + 1 < u64_mod
      → submit q b s.textures s.device ≡ some (seq, textures, d)
      → Step q slots s (record s {
        device = d;
        textures = textures;
        held = before ++ after;
        submissions = (seq, b.raw_buffer) ∷ s.submissions;
      })
  submitted_by_effect :
      (b b' : CmdBuffer) (seq : ℕ) (textures : ℕ → Texture) (d : Device)
      → s.device.submission_seq_no + 1 < u64_mod
      → submit_internal q b s.textures s.device ≡ some (seq, b', textures, d)
      → Step q slots s (record s { device = d; textures = textures })
  collected :
      (counter : ℕ) (d : Device)
      → counter ≤ s.completed
      → garbage_collect counter s.device ≡ some d
      → Step q slots s (record s { device = d })
  waited :
      (seq : ℕ) (resets : Bool) (d : Device)
      → seq ≤ s.completed
      → wait seq resets s.device ≡ some d
      → Step q slots s (record s { device = d })
  finished :
      (completed : ℕ)
      → s.completed ≤ completed
      → completed ≤ s.device.submission_seq_no
      → Step q slots s (record s { completed = completed })

-- What holds between any two steps.
pub record Sound (s : System) : Type 0 where
  pub order : Ascending 0 s.device.submission_seq_no s.device.pending
  pub done : s.completed ≤ s.device.submission_seq_no
  pub once : (h : ℕ) → uses h s ≤ 1
  pub running :
      (k h : ℕ)
      → leb k s.completed || not (is_submitted k h s.submissions) || is_pending k h s.device.pending
        ≡ true

-- ===== src/Vulkan/Reuse.antt =====
-- No command buffer is recorded again before the GPU is done with it (src/rendervulkan.cpp).
use cloud_desktop.Prelude.{
  ℕ, ◌+◌, ◌≤◌, ◌≡◌, refl, subst, ap, true, false, not, ◌||◌, leb, Option, none, some, List, [], ◌∷◌,
  Bool-cases, inl, inr, arith,
}
use cloud_desktop.Vulkan.Images.{CmdBuffer, Queues, Texture}
use cloud_desktop.Vulkan.Record.{begin, clear_state}
use cloud_desktop.Vulkan.Device.{
  Device, command_buffer, has_pending, new_buffer, pop_or_allocate, reset_cmd_buffers,
}
use cloud_desktop.Vulkan.Recycling.{
  Ascending, count, count_pending, is_pending, reset_cmd_buffers-Recycled,
}
use cloud_desktop.Vulkan.Invariant.{Step-Sound}
use cloud_desktop.Vulkan.Steps.{IsFresh, Sound, Step, System, is_submitted, uses}

-- A device as it is made, with the handle of its semaphore.
abbrev pub initial : ℕ → (ℕ → Texture) → System
initial semaphore textures = record {
  device = record {
    semaphore = semaphore;
    submission_seq_no = 0;
    unused = [];
    pending = [];
    upload_buffer_offset = 0;
    submitted = [];
  };
  textures = textures;
  held = [];
  completed = 0;
  submissions = [];
}

pub data Reachable (q : Queues) (slots semaphore : ℕ) : System → Type 0 where
  start : (textures : ℕ → Texture) → Reachable q slots semaphore (initial semaphore textures)
  next :
      (s s' : System)
      → Reachable q slots semaphore s
      → Step q slots s s'
      → Reachable q slots semaphore s'

Reachable-Sound :
    (q : Queues) (slots semaphore : ℕ) (s : System) → Reachable q slots semaphore s → Sound s
unfolding is_submitted is_pending count count_pending
Reachable-Sound q slots semaphore _ (Reachable.start textures) = record {
  order = omega arith;
  done = omega arith;
  once = λ h. omega arith;
  running = λ k h. ground arith;
}
Reachable-Sound q slots semaphore _ (Reachable.next s s' r step) =
    Step-Sound q slots s s' step (Reachable-Sound q slots semaphore s r)

unused-pending :
    (k h : ℕ) (ps : List (ℕ × CmdBuffer)) → count_pending h ps ≡ 0 → is_pending k h ps ≡ false
unfolding count_pending is_pending
unused-pending k h [] e = refl
unused-pending k h ((j, b) ∷ ps) e = ground (arith, unused-pending k h ps)

handed_out :
    (slots : ℕ) (s : System) (allocated : Option ℕ) (us : List CmdBuffer) (b : CmdBuffer)
    (d : Device)
    → Sound s
    → IsFresh allocated s
    → s.device.unused ≡ us
    → pop_or_allocate slots us allocated s.device ≡ (some b, d)
    → count_pending b.raw_buffer s.device.pending ≡ 0
unfolding pop_or_allocate count begin clear_state new_buffer
handed_out slots s allocated (u ∷ us) b d x fresh free e =
    let raw : u.raw_buffer ≡ b.raw_buffer = ground (arith, ap (λ z. z.0) e) in
    let was : uses u.raw_buffer s ≤ 1 = x.once u.raw_buffer in
    let split : count u.raw_buffer s.device.unused ≡ 1 + count u.raw_buffer us =
      rw free (ground arith) in
    subst (λ h. count_pending h s.device.pending ≡ 0) raw (omega (arith, was, split))
handed_out slots s none [] b d x fresh free e = absurd (ground (arith, ap (λ z. z.0) e))
handed_out slots s (some h) [] b d x fresh free e =
    let raw : h ≡ b.raw_buffer = ground (arith, ap (λ z. z.0) e) in
    subst (λ h. count_pending h s.device.pending ≡ 0) raw (omega (arith, fresh))

-- After any steps of the clients, the device and the GPU, a command buffer that the device hands out
-- is one that the GPU is done with: each submission of its handle has a sequence number that is
-- completed. AllocateCommandBuffers is relied on to give a handle that is not in use.
pub command_buffer-completed :
    (q : Queues) (slots semaphore : ℕ) (s : System) (allocated : Option ℕ) (b : CmdBuffer)
    (d : Device)
    → Reachable q slots semaphore s
    → IsFresh allocated s
    → command_buffer slots allocated s.device ≡ (some b, d)
    → (k : ℕ) → leb k s.completed || not (is_submitted k b.raw_buffer s.submissions) ≡ true
unfolding command_buffer
command_buffer-completed q slots semaphore s allocated b d r fresh e k =
    let x = Reachable-Sound q slots semaphore s r in
    let free = handed_out slots s allocated s.device.unused b d x fresh refl e in
    ground (arith, x.running k b.raw_buffer, unused-pending k b.raw_buffer s.device.pending free)

Ascending-has_pending :
    (low high seq : ℕ) (ps : List (ℕ × CmdBuffer))
    → Ascending low high ps
    → seq ≤ low
    → has_pending seq ps ≡ false
unfolding has_pending
Ascending-has_pending low high seq [] a l = refl
Ascending-has_pending low high seq ((k, b) ∷ ps) (m, a) l =
    ground (arith, Ascending-has_pending k high seq ps a (omega arith))

-- After any steps, recycling never aborts, whatever the sequence number is; then that number is not
-- pending, and no buffer is lost or doubled.
pub reset_cmd_buffers-total :
    (q : Queues) (slots semaphore : ℕ) (s : System) (seq : ℕ)
    → Reachable q slots semaphore s
    → (d : Device) × (reset_cmd_buffers seq s.device ≡ some d)
      × (has_pending seq d.pending ≡ false)
      × ((h : ℕ) → uses h (record s { device = d }) ≡ uses h s)
unfolding reset_cmd_buffers
reset_cmd_buffers-total q slots semaphore s seq r =
    let x = Reachable-Sound q slots semaphore s r in
    elim (Bool-cases (has_pending seq s.device.pending)) [
      | inr unknown ↦ (s.device, rw unknown refl, unknown, λ h. refl)
      | inl known ↦
          let n = s.device.submission_seq_no in
          let (us, ps, e, y) = reset_cmd_buffers-Recycled n seq s.device x.order known in
          (
            record (s.device) { unused = us; pending = ps },
            e,
            Ascending-has_pending seq n seq ps y.later (omega arith),
            λ h. omega (arith, y.same_count h),
          )
    ]

-- ===== src/Vulkan/Invariant.antt =====
-- What holds after any steps of clients, device and GPU (src/rendervulkan.cpp).
use cloud_desktop.Prelude.{
  some-bind, ℕ, ◌+◌, ◌≤◌, ◌<◌, ◌≡◌, refl, subst, ap, ◌∙◌, Bool, true, false, ◌&&◌, ◌==◌,
  if◌then◌else◌, Option, none, some, List, [], ◌∷◌, ◌++◌, Bool-cases, inl, inr, arith, u64, u64_mod,
}
use cloud_desktop.Vulkan.Images.{CmdBuffer, Queues, Texture}
use cloud_desktop.Vulkan.Record.{begin, clear_state, end, insert_barrier, barrier_loop}
use cloud_desktop.Vulkan.Device.{
  Device, command_buffer, emplace_pending, garbage_collect, has_pending, pop_or_allocate,
  new_buffer, reset_cmd_buffers, submit, submit_internal, wait,
}
use cloud_desktop.Vulkan.Recycling.{
  Ascending-raise, Ascending-weaken, count, emplace_pending-Emplaced, is_pending, one_if,
  reset_cmd_buffers-Recycled,
}
use cloud_desktop.Vulkan.Steps.{IsFresh, Sound, Step, System, is_submitted, uses}

-- Recycling what the GPU has finished.
recycled-Sound :
    (s : System) (d d' : Device) (seq : ℕ)
    → seq ≤ s.completed
    → Sound (record s { device = d })
    → reset_cmd_buffers seq d ≡ some d'
    → Sound (record s { device = d' })
unfolding reset_cmd_buffers
recycled-Sound s d d' seq past x e = elim (Bool-cases (has_pending seq d.pending)) [
  | inr unknown ↦
      let same : d ≡ d' = ground arith in subst (λ z. Sound (record s { device = z })) same x
  | inl known ↦
      let (us, ps, e', r) = reset_cmd_buffers-Recycled d.submission_seq_no seq d x.order known in
      let same : record d { unused = us; pending = ps } ≡ d' = ground (arith, e, e') in
      subst (λ z. Sound (record s { device = z })) same
        (record {
          order = Ascending-weaken seq 0 d.submission_seq_no ps (omega arith) r.later;
          done = x.done;
          once = λ h. omega (arith, x.once h, r.same_count h);
          running = λ k h. ground (arith, x.running k h, r.kept k h);
        })
]

count-append : (h : ℕ) (xs ys : List CmdBuffer) → count h (xs ++ ys) ≡ count h xs + count h ys
unfolding count
count-append h [] ys = omega arith
count-append h (b ∷ xs) ys = omega (arith, count-append h xs ys)

-- The buffers that a client holds, one of them picked out.
count-picked :
    (h : ℕ) (before after : List CmdBuffer) (b : CmdBuffer)
    → count h (before ++ b ∷ after) ≡ one_if (b.raw_buffer == h) + count h (before ++ after)
unfolding count
count-picked h before after b =
    omega (arith, count-append h before (b ∷ after), count-append h before after)

-- What a submission keeps, and where it puts the buffer.
record Submitted (seq : ℕ) (b : CmdBuffer) (d d' : Device) : Type 0 where
  ended : CmdBuffer
  raw : ended.raw_buffer ≡ b.raw_buffer
  number : seq ≡ u64 (d.submission_seq_no + 1)
  count_on : d'.submission_seq_no ≡ seq
  unused_same : d'.unused ≡ d.unused
  pending_new : d'.pending ≡ emplace_pending seq ended d.pending

submit-Submitted :
    (q : Queues) (b : CmdBuffer) (t t' : ℕ → Texture) (d d' : Device) (seq : ℕ)
    → submit q b t d ≡ some (seq, t', d')
    → Submitted seq b d d'
unfolding submit submit_internal end insert_barrier
submit-Submitted q b t t' d d' seq e =
    let ((n, b₁, t₁, d₁), e₁, e₂) = some-bind (submit_internal q b t d) _ e in
    let (r, f₁, f₂) = some-bind (end q (record { buffer = b; textures = t })) _ e₁ in
    let (p, g₁, g₂) = some-bind (barrier_loop q true b.texture_state t) _ f₁ in
    record {
      ended = b₁;
      raw = ground (arith, f₂, g₂);
      number = ground (arith, f₂, e₂);
      count_on = ground (arith, f₂, e₂);
      unused_same = ground (arith, f₂, e₂);
      pending_new = ground (arith, f₂, e₂);
    }

effect-Submitted :
    (q : Queues) (b b' : CmdBuffer) (t t' : ℕ → Texture) (d d' : Device) (seq : ℕ)
    → submit_internal q b t d ≡ some (seq, b', t', d')
    → (d'.submission_seq_no ≡ u64 (d.submission_seq_no + 1))
      × (d'.unused ≡ d.unused)
      × (d'.pending ≡ d.pending)
unfolding submit_internal
effect-Submitted q b b' t t' d d' seq e =
    let (r, f₁, f₂) = some-bind (end q (record { buffer = b; textures = t })) _ e in
    (ground (arith, f₂), ground (arith, f₂), ground (arith, f₂))

effect-Sound :
    (q : Queues) (s : System) (b b' : CmdBuffer) (seq : ℕ) (t : ℕ → Texture) (d : Device)
    → Sound s
    → s.device.submission_seq_no + 1 < u64_mod
    → submit_internal q b s.textures s.device ≡ some (seq, b', t, d)
    → Sound (record s { device = d; textures = t })
effect-Sound q s b b' seq t d x small e =
    let (n, us, ps) = effect-Submitted q b b' s.textures t s.device d seq e in
    let high = s.device.submission_seq_no in
    let next : d.submission_seq_no ≡ high + 1 = omega (arith, n) in
    record {
      order =
          rw (next, ps) (Ascending-raise 0 high (high + 1) s.device.pending (omega arith) x.order);
      done = omega (arith, next, x.done);
      once = λ h. rw (us, ps) (x.once h);
      running = λ k h. rw ps (x.running k h);
    }

submitted-Sound :
    (q : Queues) (s : System) (before after : List CmdBuffer) (b : CmdBuffer) (seq : ℕ)
    (t : ℕ → Texture) (d : Device)
    → Sound s
    → s.held ≡ before ++ b ∷ after
    → s.device.submission_seq_no + 1 < u64_mod
    → submit q b s.textures s.device ≡ some (seq, t, d)
    → Sound (record s {
      device = d;
      textures = t;
      held = before ++ after;
      submissions = (seq, b.raw_buffer) ∷ s.submissions;
    })
unfolding is_submitted
submitted-Sound q s before after b seq t d x held small e =
    let y = submit-Submitted q b s.textures t s.device d seq e in
    let next : seq ≡ s.device.submission_seq_no + 1 = omega (arith, y.number) in
    let (asc, z) =
      emplace_pending-Emplaced 0 s.device.submission_seq_no seq y.ended s.device.pending x.order
        (omega (arith, next)) in
    record {
      order = rw (y.count_on, y.pending_new) asc;
      done = omega (arith, y.count_on, next, x.done);
      once = λ h.
          let was : uses h s ≤ 1 = x.once h in
          let picked : count h s.held ≡ one_if (b.raw_buffer == h) + count h (before ++ after) =
            ap (count h) held ∙ count-picked h before after b in
          rw (y.unused_same, y.pending_new, z.same_count h, y.raw) (omega (arith, was, picked));
      running = λ k h. rw y.pending_new (elim (Bool-cases (seq == k && b.raw_buffer == h)) [
        | inl this ↦
            let at_k : seq ≡ k = ground arith in
            let at_h : y.ended.raw_buffer ≡ h = ground (arith, y.raw) in
            let ps = emplace_pending seq y.ended s.device.pending in
            let there : is_pending k h ps ≡ true =
              subst (λ j. is_pending j h ps ≡ true) at_k
                (subst (λ g. is_pending seq g ps ≡ true) at_h z.added) in
            ground (arith, there)
        | inr earlier ↦ ground (arith, x.running k h, z.kept k h)
      ]);
    }

acquired-Sound :
    (slots : ℕ) (s : System) (allocated : Option ℕ) (us : List CmdBuffer) (b : CmdBuffer)
    (d : Device)
    → Sound s
    → IsFresh allocated s
    → s.device.unused ≡ us
    → pop_or_allocate slots us allocated s.device ≡ (some b, d)
    → Sound (record s { device = d; held = b ∷ s.held })
unfolding pop_or_allocate count begin clear_state new_buffer
acquired-Sound slots s allocated (u ∷ us) b d x fresh free e =
    let at_d : record (s.device) { unused = us } ≡ d = ap (λ z. z.1) e in
    let raw : u.raw_buffer ≡ b.raw_buffer = ground (arith, ap (λ z. z.0) e) in
    subst (λ z. Sound (record s { device = z; held = b ∷ s.held })) at_d
      (record {
        order = x.order;
        done = x.done;
        once = λ h.
            let was : uses h s ≤ 1 = x.once h in
            let split : count h s.device.unused ≡ one_if (u.raw_buffer == h) + count h us =
              rw free refl in
            rw⁻¹ raw (omega (arith, was, split));
        running = x.running;
      })
acquired-Sound slots s none [] b d x fresh free e = absurd (ground (arith, ap (λ z. z.0) e))
acquired-Sound slots s (some h) [] b d x fresh free e =
    let at_d : s.device ≡ d = ap (λ z. z.1) e in
    let raw : h ≡ b.raw_buffer = ground (arith, ap (λ z. z.0) e) in
    subst (λ z. Sound (record s { device = z; held = b ∷ s.held })) at_d
      (record {
        order = x.order;
        done = x.done;
        once = λ g. rw⁻¹ raw (elim (Bool-cases (h == g)) [
          | inl same ↦
              let e' : h ≡ g = ground arith in
              let none_yet : uses g s ≡ 0 = subst (λ j. uses j s ≡ 0) e' fresh in
              rw same (omega (arith, none_yet))
          | inr other ↦ rw other (omega (arith, x.once g))
        ]);
        running = x.running;
      })

-- The device when WaitSemaphores has returned.
abbrev flushed : ℕ → System → Device
flushed seq s =
    if s.device.submission_seq_no == seq
    then record (s.device) { upload_buffer_offset = 0 }
    else s.device

flushed-Sound : (seq : ℕ) (s : System) → Sound s → Sound (record s { device = flushed seq s })
flushed-Sound seq s x = elim (Bool-cases (s.device.submission_seq_no == seq)) [
  | inl last ↦
      rw last (record { order = x.order; done = x.done; once = x.once; running = x.running })
  | inr other ↦
      rw other (record { order = x.order; done = x.done; once = x.once; running = x.running })
]

waited-Sound :
    (s : System) (seq : ℕ) (resets : Bool) (d d' : Device)
    → seq ≤ s.completed
    → Sound (record s { device = d' })
    → (if resets then reset_cmd_buffers seq d' else some d') ≡ some d
    → Sound (record s { device = d })
waited-Sound s seq true d d' past x e = recycled-Sound s d' d seq past x e
waited-Sound s seq false d d' past x e =
    let same : d' ≡ d = ground (arith, e) in subst (λ z. Sound (record s { device = z })) same x

pub Step-Sound : (q : Queues) (slots : ℕ) (s s' : System) → Step q slots s s' → Sound s → Sound s'
unfolding command_buffer garbage_collect wait
Step-Sound q slots s _ (Step.acquired allocated b d fresh e) x =
    acquired-Sound slots s allocated s.device.unused b d x fresh refl e
Step-Sound q slots s _ (Step.recorded before after b b' t held raw) x = record {
  order = x.order;
  done = x.done;
  once = λ h.
      let was : uses h s ≤ 1 = x.once h in
      let picked : count h s.held ≡ one_if (b.raw_buffer == h) + count h (before ++ after) =
        ap (count h) held ∙ count-picked h before after b in
      let picked' : count h (before ++ b' ∷ after)
          ≡ one_if (b.raw_buffer == h) + count h (before ++ after) =
        count-picked h before after b' ∙ rw raw refl in
      omega (arith, was, picked, picked');
  running = x.running;
}
Step-Sound q slots s _ (Step.submitted before after b seq t d held small e) x =
    submitted-Sound q s before after b seq t d x held small e
Step-Sound q slots s _ (Step.submitted_by_effect b b' seq t d small e) x =
    effect-Sound q s b b' seq t d x small e
Step-Sound q slots s _ (Step.collected counter d past e) x =
    recycled-Sound s s.device d counter past x e
Step-Sound q slots s _ (Step.waited seq resets d past e) x =
    waited-Sound s seq resets d (flushed seq s) past (flushed-Sound seq s x) e
Step-Sound q slots s _ (Step.finished completed further known) x = record {
  order = x.order;
  done = known;
  once = x.once;
  running = λ k h. ground (arith, x.running k h);
}

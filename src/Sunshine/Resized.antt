-- ===== src/Sunshine/Resized.antt =====
-- The slots where the pool is resized (src/Backends/SunshineBackend.cpp).
use cloud_desktop.Prelude.{
  ℕ, ◌+◌, ◌≡◌, ◌++◌, inl, inr, refl, false, Bool-cases, ◌==◌, Option, none, some, List, [], ◌∷◌,
  arith,
}
use cloud_desktop.Sunshine.Slots.{
  slot_count, destroy_slot, fill_slot, destroy_slots, init_slot, init_slots, resize_slot_pool,
  release_slot, taken_slots, Allocation, GbmSlot, Pool,
}
use cloud_desktop.Sunshine.Actions.{Action, Stream, with_slots, drawing, idle, run, waiting}
use cloud_desktop.Sunshine.Stale.{after, one, presents_first, run-append}

fill_slot-in_use :
    (bo fd tex : Option ℕ) (a : Allocation) (s : GbmSlot)
    → s.in_use ≡ false
    → (fill_slot bo fd tex a s).1.in_use ≡ false
unfolding fill_slot
fill_slot-in_use none fd tex a s free = free
fill_slot-in_use (some bo) none tex a s free = free
fill_slot-in_use (some bo) (some fd) none a s free = free
fill_slot-in_use (some bo) (some fd) (some tex) a s free = refl

init_slot-in_use :
    (i j : ℕ) (a : Allocation) (p : Pool)
    → (p.slots j).in_use ≡ false
    → ((init_slot i a p).1.slots j).in_use ≡ false
unfolding init_slot
init_slot-in_use i j a p free =
    let sized = record (p.slots i) { width = p.output_width; height = p.output_height } in
    elim (Bool-cases (i == j)) [
      | inl here ↦
          let same : i ≡ j = ground arith in
          rw here (fill_slot-in_use a.bo a.fd a.texture a sized (rw same free))
      | inr there ↦ rw there free
    ]

init_slots-in_use :
    (i j : ℕ) (allocations : List Allocation) (p : Pool)
    → (p.slots j).in_use ≡ false
    → ((init_slots i allocations p).1.slots j).in_use ≡ false
unfolding init_slots
init_slots-in_use i j [] p free = free
init_slots-in_use i j (a ∷ allocations) p free = elim (Bool-cases (init_slot i a p).0) [
  | inl done ↦
      rw done (
        init_slots-in_use (i + 1) j allocations (init_slot i a p).1 (init_slot-in_use i j a p free))
  | inr failed ↦ rw failed (init_slot-in_use i j a p free)
]

resize_slot_pool-in_use :
    (allocations : List Allocation) (p : Pool)
    → ((resize_slot_pool allocations p).1.slots 0).in_use ≡ false
unfolding resize_slot_pool destroy_slots destroy_slot
resize_slot_pool-in_use allocations p =
    init_slots-in_use 0 0 allocations (destroy_slots slot_count 0 p) refl

resize_at :
    (s : Stream) (width height now : ℕ) (allocations : List Allocation)
    → (s' : Stream) × (run
          ((Action.resizes width height allocations ∷ [])
            ++ one
            ++ (Action.hands_over ∷ Action.signals now ∷ [])
            ++ one)
          (record s { presenter = idle; handler = waiting; pending_slot = some 0 })
        ≡ some s')
      × (s'.presenter ≡ drawing 0)
      × (s'.pending_slot ≡ some 0)
unfolding run release_slot
resize_at s width height now allocations =
    let resizing = Action.resizes width height allocations ∷ [] in
    let handing = Action.hands_over ∷ Action.signals now ∷ [] in
    let s₀ = record s { presenter = idle; handler = waiting; pending_slot = some 0 } in
    let s₁ = after resizing s₀ in
    let free : (s₁.pool.slots 0).in_use ≡ false =
      resize_slot_pool-in_use allocations
        (record (s.pool) { output_width = width; output_height = height }) in
    let s₂ = record (with_slots (taken_slots s₁.pool.slots 0) s₁) { presenter = drawing 0 } in
    let s₃ = after handing s₂ in
    let s₄ = record (with_slots (taken_slots s₃.pool.slots 0) s₃) { presenter = drawing 0 } in
    (
      s₄,
      run-append resizing (one ++ handing ++ one) s₀ s₁ s₄ refl (
          run-append one (handing ++ one) s₁ s₂ s₄ (presents_first s₁ refl free)
            (run-append handing one s₂ s₃ s₄ refl (presents_first s₃ refl refl))),
      refl,
      refl,
    )

-- A resize frees all slots but forgets neither the pending nor the committed one. So if slot 0 is
-- pending, the next frame is drawn into it and releases it when it is handed over, and the frame after
-- that is drawn into slot 0 while it is pending.
pub resize-overlap :
    (s : Stream) (width height now : ℕ) (allocations : List Allocation)
    → s.presenter ≡ idle
    → s.handler ≡ waiting
    → s.pending_slot ≡ some 0
    → (s' : Stream) × (run
          (Action.resizes width height allocations
            ∷ Action.presents
            ∷ Action.hands_over
            ∷ Action.signals now
            ∷ Action.presents
            ∷ [])
          s
        ≡ some s')
      × (s'.presenter ≡ drawing 0)
      × (s'.pending_slot ≡ some 0)
unfolding run
resize-overlap s width height now allocations at_idle at_wait pending =
    let same : s ≡ record s { presenter = idle; handler = waiting; pending_slot = some 0 } =
      λ i. record s { presenter = at_idle i; handler = at_wait i; pending_slot = pending i } in
    rw same (resize_at s width height now allocations)

-- ===== src/Sunshine/Handles.antt =====
-- The buffer objects and descriptors of the slots (src/Backends/SunshineBackend.cpp).
use cloud_desktop.Prelude.{
  ℕ, zero, suc, ◌+◌, ◌≡◌, ◌≤◌, ◌<◌, refl, ap, false, Bool-cases, inl, inr, ◌==◌, if◌then◌else◌,
  length, Option, none, some, List, [], ◌∷◌, All, arith,
}
use cloud_desktop.Sunshine.Slots.{
  Allocation, GbmSlot, Pool, append_handle, close_slots, destroy_slot, destroy_slots, empty_slot,
  fill_slot, init_slot, init_slots, opened_fd, resize_slot_pool, set_slot, slot_count,
}

abbrev pub count_handle : ℕ → List ℕ → ℕ
count_handle h [] = 0
count_handle h (k ∷ hs) = (if k == h then 1 else 0) + count_handle h hs

abbrev is_handle : ℕ → Option ℕ → ℕ
is_handle h none = 0
is_handle h (some k) = if k == h then 1 else 0

abbrev held : (GbmSlot → Option ℕ) → ℕ → (ℕ → GbmSlot) → ℕ
held field h slots =
    is_handle h (field (slots 0)) + is_handle h (field (slots 1)) + is_handle h (field (slots 2))

abbrev bo_of : GbmSlot → Option ℕ
bo_of s = s.bo

abbrev fd_of : GbmSlot → Option ℕ
fd_of s = s.dma_fd

-- What was made is held by a slot or was given back.
record IsTidy (p : Pool) : Type 0 where
  bos :
      (h : ℕ) → count_handle h p.created_bos ≡ count_handle h p.destroyed_bos + held bo_of h p.slots
  fds : (h : ℕ) → count_handle h p.opened_fds ≡ count_handle h p.closed_fds + held fd_of h p.slots

-- The slots from `i` on hold nothing.
abbrev IsClear : ℕ → (ℕ → GbmSlot) → Type 0
IsClear i slots =
    (j : ℕ) → i ≤ j → j < slot_count → ((slots j).bo ≡ none) × ((slots j).dma_fd ≡ none)

count_handle-append :
    (h : ℕ) (o : Option ℕ) (hs : List ℕ)
    → count_handle h (append_handle o hs) ≡ is_handle h o + count_handle h hs
count_handle-append h none hs = omega arith
count_handle-append h (some k) hs = refl

held-set_slot :
    (field : GbmSlot → Option ℕ) (h i : ℕ) (slots : ℕ → GbmSlot) (v : GbmSlot)
    → i < slot_count
    → field (slots i) ≡ none
    → held field h (set_slot slots i v) ≡ is_handle h (field v) + held field h slots
held-set_slot field h zero slots v lt e = rw e (omega arith)
held-set_slot field h (suc zero) slots v lt e = rw e (omega arith)
held-set_slot field h (suc (suc zero)) slots v lt e = rw e (omega arith)
held-set_slot field h (suc (suc (suc i))) slots v lt e = absurd (omega arith)

fill_slot-handles :
    (bo fd tex : Option ℕ) (a : Allocation) (s : GbmSlot)
    → s.bo ≡ none
    → s.dma_fd ≡ none
    → ((fill_slot bo fd tex a s).1.bo ≡ bo)
      × ((fill_slot bo fd tex a s).1.dma_fd ≡ elim bo [ none ↦ none | some b ↦ fd ])
unfolding fill_slot
fill_slot-handles none fd tex a s e f = (refl, f)
fill_slot-handles (some bo) none tex a s e f = (refl, refl)
fill_slot-handles (some bo) (some fd) none a s e f = (refl, refl)
fill_slot-handles (some bo) (some fd) (some tex) a s e f = (refl, refl)

init_slot-IsTidy :
    (i : ℕ) (a : Allocation) (p : Pool)
    → i < slot_count
    → IsClear i p.slots
    → IsTidy p
    → IsTidy (init_slot i a p).1 × IsClear (i + 1) (init_slot i a p).1.slots
unfolding init_slot
init_slot-IsTidy i a p lt clear tidy =
    let sized = record (p.slots i) { width = p.output_width; height = p.output_height } in
    let slot = (fill_slot a.bo a.fd a.texture a sized).1 in
    let (no_bo, no_fd) = clear i (omega arith) lt in
    let (bo, fd) = fill_slot-handles a.bo a.fd a.texture a sized no_bo no_fd in
    (
      record {
        bos = λ h. omega (
          arith,
          count_handle-append h a.bo p.created_bos,
          held-set_slot bo_of h i p.slots slot lt no_bo,
          ap (is_handle h) bo,
          tidy.bos h,
        );
        fds = λ h. omega (
          arith,
          count_handle-append h (opened_fd a) p.opened_fds,
          held-set_slot fd_of h i p.slots slot lt no_fd,
          ap (is_handle h) fd,
          tidy.fds h,
        );
      },
      λ j le lt'. let apart : i == j ≡ false = ground arith in rw apart (clear j (omega arith) lt'),
    )

init_slots-IsTidy :
    (i : ℕ) (allocations : List Allocation) (p : Pool)
    → i + length allocations ≤ slot_count
    → IsClear i p.slots
    → IsTidy p
    → IsTidy (init_slots i allocations p).1
unfolding init_slots
init_slots-IsTidy i [] p room clear tidy = tidy
init_slots-IsTidy i (a ∷ allocations) p room clear tidy =
    let (tidy', clear') = init_slot-IsTidy i a p (omega arith) clear tidy in
    elim (Bool-cases (init_slot i a p).0) [
      | inl done ↦
          rw done
            (init_slots-IsTidy (i + 1) allocations (init_slot i a p).1 (omega arith) clear' tidy')
      | inr failed ↦ rw failed tidy'
    ]

destroy_slots-IsClear : (p : Pool) → IsClear 0 (destroy_slots slot_count 0 p).slots
unfolding destroy_slots destroy_slot
destroy_slots-IsClear p zero le lt = (refl, refl)
destroy_slots-IsClear p (suc zero) le lt = (refl, refl)
destroy_slots-IsClear p (suc (suc zero)) le lt = (refl, refl)
destroy_slots-IsClear p (suc (suc (suc j))) le lt = absurd (omega arith)

-- All that the slots hold is given back.
given_back :
    (field : GbmSlot → Option ℕ) (h : ℕ) (slots : ℕ → GbmSlot) (hs : List ℕ)
    → count_handle h (
        append_handle
          (field (slots 2))
          (append_handle (field (slots 1)) (append_handle (field (slots 0)) hs)))
      ≡ count_handle h hs + held field h slots
given_back field h slots hs =
    let one = append_handle (field (slots 0)) hs in
    let two = append_handle (field (slots 1)) one in
    omega (
      arith,
      count_handle-append h (field (slots 0)) hs,
      count_handle-append h (field (slots 1)) one,
      count_handle-append h (field (slots 2)) two,
    )

destroy_slots-IsTidy : (p : Pool) → IsTidy p → IsTidy (destroy_slots slot_count 0 p)
unfolding destroy_slots destroy_slot
destroy_slots-IsTidy p tidy = record {
  bos = λ h. omega (arith, tidy.bos h, given_back bo_of h p.slots p.destroyed_bos);
  fds = λ h. omega (arith, tidy.fds h, given_back fd_of h p.slots p.closed_fds);
}

resize_slot_pool-IsTidy :
    (allocations : List Allocation) (p : Pool)
    → length allocations ≤ slot_count
    → IsTidy p
    → IsTidy (resize_slot_pool allocations p).1
unfolding resize_slot_pool
resize_slot_pool-IsTidy allocations p room tidy =
    init_slots-IsTidy 0 allocations (destroy_slots slot_count 0 p) (omega arith)
      (destroy_slots-IsClear p) (destroy_slots-IsTidy p tidy)

-- A pool that is resized again and again; what gbm and Vulkan give is what each time has.
pub record Resize : Type 0 where
  pub width : ℕ
  pub height : ℕ
  pub allocations : List Allocation

unfoldable pub resize_all : List Resize → Pool → Pool
unfolding resize_slot_pool
resize_all [] p = p
resize_all (r ∷ rs) p =
    resize_all rs
      (resize_slot_pool r.allocations
        (record p { output_width = r.width; output_height = r.height })).1

resize_all-IsTidy :
    (rs : List Resize) (p : Pool)
    → All (λ r. length r.allocations ≤ slot_count) rs
    → IsTidy p
    → IsTidy (resize_all rs p)
unfolding resize_all
resize_all-IsTidy [] p room tidy = tidy
resize_all-IsTidy (r ∷ rs) p room tidy =
    let p' = record p { output_width = r.width; output_height = r.height } in
    let tidy' : IsTidy p' = record { bos = tidy.bos; fds = tidy.fds } in
    resize_all-IsTidy rs (resize_slot_pool r.allocations p').1 room.1
      (resize_slot_pool-IsTidy r.allocations p' room.0 tidy')

abbrev pub empty_pool : ℕ → ℕ → Pool
empty_pool width height = record {
  slots = λ i. empty_slot;
  output_width = width;
  output_height = height;
  created_bos = [];
  destroyed_bos = [];
  opened_fds = [];
  closed_fds = [];
}

-- However often the pool was resized, and whichever of the allocations failed: once the backend is
-- destroyed, each buffer object was destroyed as often as it was made, and each descriptor closed as
-- often as it was opened. There is at most one allocation for each slot.
pub close_slots_tidy :
    (width height : ℕ) (first : List Allocation) (rs : List Resize) (h : ℕ)
    → length first ≤ slot_count
    → All (λ r. length r.allocations ≤ slot_count) rs
    → (count_handle h
          (close_slots slot_count 0
            (resize_all rs (init_slots 0 first (empty_pool width height)).1)).destroyed_bos
        ≡ count_handle h
            (resize_all rs (init_slots 0 first (empty_pool width height)).1).created_bos)
      × (count_handle h
            (close_slots slot_count 0
              (resize_all rs (init_slots 0 first (empty_pool width height)).1)).closed_fds
          ≡ count_handle h
              (resize_all rs (init_slots 0 first (empty_pool width height)).1).opened_fds)
unfolding close_slots
close_slots_tidy width height first rs h few all_few =
    let empty = empty_pool width height in
    let start : IsTidy empty = record { bos = λ k. refl; fds = λ k. refl } in
    let filled = (init_slots 0 first empty).1 in
    let p = resize_all rs filled in
    let tidy : IsTidy p =
      resize_all-IsTidy rs filled all_few
        (init_slots-IsTidy 0 first empty (omega arith) (λ j le lt. (refl, refl)) start) in
    (
      omega (arith, tidy.bos h, given_back bo_of h p.slots p.destroyed_bos),
      omega (arith, tidy.fds h, given_back fd_of h p.slots p.closed_fds),
    )

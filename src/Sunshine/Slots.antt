-- ===== src/Sunshine/Slots.antt =====
-- src/Backends/SunshineBackend.cpp: the pool of slots (m_Slots). What gbm and Vulkan give is an
-- argument; `none` is a null pointer, or a descriptor below 0.
use cloud_desktop.Prelude.{
  ℕ, zero, suc, ◌+◌, Bool, true, false, ◌==◌, if◌then◌else◌, Option, none, some, List, [], ◌∷◌,
}

pub record GbmSlot : Type 0 where
  pub bo : Option ℕ
  pub dma_fd : Option ℕ
  pub stride : ℕ
  pub width : ℕ
  pub height : ℕ
  pub modifier : ℕ
  pub vulkan_tex : Option ℕ
  pub in_use : Bool

abbrev pub slot_count : ℕ
slot_count = 3

-- A slot before it is initialised.
abbrev pub empty_slot : GbmSlot
empty_slot = record {
  bo = none;
  dma_fd = none;
  stride = 0;
  width = 0;
  height = 0;
  modifier = 0;
  vulkan_tex = none;
  in_use = false;
}

abbrev pub set_slot : (ℕ → GbmSlot) → ℕ → GbmSlot → ℕ → GbmSlot
set_slot slots i v j = if i == j then v else slots j

abbrev pub taken_slots : (ℕ → GbmSlot) → ℕ → ℕ → GbmSlot
taken_slots slots i = set_slot slots i (record (slots i) { in_use = true })

-- The loop over `rounds` slots from slot `i` on. It is one step, since no other thread makes a slot busy.
unfoldable pub acquire_from : ℕ → ℕ → (ℕ → GbmSlot) → Option (ℕ × (ℕ → GbmSlot))
acquire_from zero i slots = none
acquire_from (suc rounds) i slots =
    let rest = acquire_from rounds (i + 1) slots in
    if (slots i).in_use then rest else some (i, taken_slots slots i)

unfoldable pub acquire_slot : (ℕ → GbmSlot) → Option (ℕ × (ℕ → GbmSlot))
unfolding acquire_from
acquire_slot slots = acquire_from slot_count 0 slots

unfoldable pub release_slot : ℕ → (ℕ → GbmSlot) → ℕ → GbmSlot
release_slot i slots = set_slot slots i (record (slots i) { in_use = false })

-- What gbm_bo_create, gbm_bo_get_fd, gbm_bo_get_stride, gbm_bo_get_modifier and
-- vulkan_create_texture_from_dmabuf give for a slot.
pub record Allocation : Type 0 where
  pub bo : Option ℕ
  pub fd : Option ℕ
  pub stride : ℕ
  pub modifier : ℕ
  pub texture : Option ℕ

-- The pool with the buffer objects and descriptors that were made and given back so far. `output_width`
-- and `output_height` are the compositor's globals.
pub record Pool : Type 0 where
  pub slots : ℕ → GbmSlot
  pub output_width : ℕ
  pub output_height : ℕ
  pub created_bos : List ℕ
  pub destroyed_bos : List ℕ
  pub opened_fds : List ℕ
  pub closed_fds : List ℕ

abbrev pub append_handle : Option ℕ → List ℕ → List ℕ
append_handle none hs = hs
append_handle (some h) hs = h ∷ hs

-- The rest of InitSlot, by what gbm and Vulkan gave, and whether it succeeds.
unfoldable pub fill_slot : Option ℕ → Option ℕ → Option ℕ → Allocation → GbmSlot → Bool × GbmSlot
fill_slot none fd tex a s = (false, record s { bo = none })
fill_slot (some bo) none tex a s =
    (false, record s { bo = some bo; dma_fd = none; stride = a.stride; modifier = a.modifier })
fill_slot (some bo) (some fd) none a s = (
  false,
  record s {
    bo = some bo;
    dma_fd = some fd;
    stride = a.stride;
    modifier = a.modifier;
    vulkan_tex = none;
  },
)
fill_slot (some bo) (some fd) (some tex) a s = (
  true,
  record s {
    bo = some bo;
    dma_fd = some fd;
    stride = a.stride;
    modifier = a.modifier;
    vulkan_tex = some tex;
    in_use = false;
  },
)

-- A descriptor is asked for only if there is a buffer object.
abbrev pub opened_fd : Allocation → Option ℕ
opened_fd a = elim a.bo [ none ↦ none | some bo ↦ a.fd ]

unfoldable pub init_slot : ℕ → Allocation → Pool → Bool × Pool
unfolding fill_slot
init_slot i a p =
    let sized = record (p.slots i) { width = p.output_width; height = p.output_height } in
    let (done, slot) = fill_slot a.bo a.fd a.texture a sized in
    (
      done,
      record p {
        slots = set_slot p.slots i slot;
        created_bos = append_handle a.bo p.created_bos;
        opened_fds = append_handle (opened_fd a) p.opened_fds;
      },
    )

-- The loop over the slots from `i` on, one for each allocation; it stops at the first failure.
unfoldable pub init_slots : ℕ → List Allocation → Pool → Bool × Pool
unfolding init_slot
init_slots i [] p = (true, p)
init_slots i (a ∷ as') p =
    let (done, p') = init_slot i a p in
    let rest = init_slots (i + 1) as' p' in if done then rest else (false, p')

unfoldable pub destroy_slot : ℕ → Pool → Pool
destroy_slot i p = record p {
  slots =
      set_slot p.slots i
        (record (p.slots i) { bo = none; dma_fd = none; vulkan_tex = none; in_use = false });
  destroyed_bos = append_handle (p.slots i).bo p.destroyed_bos;
  closed_fds = append_handle (p.slots i).dma_fd p.closed_fds;
}

unfoldable pub destroy_slots : ℕ → ℕ → Pool → Pool
unfolding destroy_slot
destroy_slots zero i p = p
destroy_slots (suc rounds) i p = destroy_slots rounds (i + 1) (destroy_slot i p)

-- ResizeSlotPool behind its wait for the slots to be released, which goes on after a second whether
-- they are or not.
unfoldable pub resize_slot_pool : List Allocation → Pool → Bool × Pool
unfolding init_slots destroy_slots
resize_slot_pool allocations p = init_slots 0 allocations (destroy_slots slot_count 0 p)

-- ~CSunshineBackend, which leaves the slots as they are.
unfoldable pub close_slots : ℕ → ℕ → Pool → Pool
close_slots zero i p = p
close_slots (suc rounds) i p = close_slots rounds (i + 1) (record p {
  destroyed_bos = append_handle (p.slots i).bo p.destroyed_bos;
  closed_fds = append_handle (p.slots i).dma_fd p.closed_fds;
})

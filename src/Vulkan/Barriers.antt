-- ===== src/Vulkan/Barriers.antt =====
-- What a barrier of CVulkanCmdBuffer (src/rendervulkan.cpp) does about the images that it covers.
use cloud_desktop.Prelude.{
  ℕ, ◌≡◌, refl, Bool, true, false, not, ◌&&◌, ◌||◌, ◌==◌, some, List, [], ◌∷◌, All, Bool-cases, inl,
  inr, arith,
}
use cloud_desktop.Vulkan.Images.{Queues, Recording, Texture, TextureState}
use cloud_desktop.Vulkan.Record.{Pass, needs_barrier, claim_queue, memory_barrier, barrier_loop}
use cloud_desktop.Vulkan.Calls.{is_write, is_flushed, remove_flushed, unsynced}

abbrev pub IsImported : ℕ × TextureState → Type 0
IsImported (i, s) = s.needs_import ≡ false

-- Some entry of the image is dirty.
unfoldable pub is_dirty : List (ℕ × TextureState) → ℕ → Bool
is_dirty [] image = false
is_dirty ((i, s) ∷ ts) image = (i == image && s.dirty) || is_dirty ts image

-- Without `flush`, the loop succeeds, imports every image, and waits for each dirty one.
pub record Synced (ts : List (ℕ × TextureState)) (p : Pass) : Type 0 where
  pub imported : All IsImported p.states
  pub flushed : (image : ℕ) → not (is_dirty ts image) || is_flushed image p.barriers ≡ true

pub barrier_loop-Synced :
    (q : Queues) (ts : List (ℕ × TextureState)) (textures : ℕ → Texture)
    → (p : Pass) × (barrier_loop q false ts textures ≡ some p) × Synced ts p
unfolding barrier_loop is_dirty needs_barrier is_flushed memory_barrier is_write
barrier_loop-Synced q [] textures = (
  record { states = []; textures = textures; barriers = [] },
  refl,
  record { imported = tt; flushed = λ image. refl },
)
barrier_loop-Synced q ((i, s) ∷ ts) textures = elim (Bool-cases (needs_barrier false s)) [
  | inl needed ↦
      let (p, e, x) = barrier_loop-Synced q ts (claim_queue q i textures) in
      (
        record p {
          states =
              (i, record s { discarded = false; dirty = false; needs_import = false }) ∷ p.states;
          barriers = memory_barrier q false i s (claim_queue q i textures i) ∷ p.barriers;
        },
        rw (needed, e) refl,
        record {
          imported = (refl, x.imported);
          flushed = λ image. ground (arith, x.flushed image);
        },
      )
  | inr clean ↦
      let (p, e, x) = barrier_loop-Synced q ts textures in
      (
        record p { states = (i, s) ∷ p.states },
        rw (clean, e) refl,
        record {
          imported = (ground arith, x.imported);
          flushed = λ image. ground (arith, x.flushed image);
        },
      )
]

abbrev pub AllDirty : List (ℕ × TextureState) → List ℕ → Type 0
AllDirty ts ws = All (λ image. is_dirty ts image ≡ true) ws

-- What a buffer keeps between two calls.
pub record Tracked (r : Recording) : Type 0 where
  pub imported : All IsImported r.buffer.texture_state
  pub writes : List ℕ
  pub synced : unsynced r.buffer.commands ≡ some writes
  pub known : AllDirty r.buffer.texture_state writes

-- After a barrier, nothing is left to wait for.
pub remove_flushed-all :
    (ts : List (ℕ × TextureState)) (p : Pass) (ws : List ℕ)
    → Synced ts p
    → AllDirty ts ws
    → remove_flushed p.barriers ws ≡ []
unfolding remove_flushed
remove_flushed-all ts p [] x h = refl
remove_flushed-all ts p (w ∷ ws) x (d, h) =
    let f : is_flushed w p.barriers ≡ true = ground (arith, x.flushed w) in
    rw f (remove_flushed-all ts p ws x h)

-- New entries take no dirty one away.
pub AllDirty-cons :
    (e : ℕ × TextureState) (ts : List (ℕ × TextureState)) (ws : List ℕ)
    → AllDirty ts ws
    → AllDirty (e ∷ ts) ws
unfolding is_dirty
AllDirty-cons e ts [] h = tt
AllDirty-cons (i, s) ts (w ∷ ws) (d, h) = (ground arith, AllDirty-cons (i, s) ts ws h)

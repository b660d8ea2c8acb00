-- ===== src/Vulkan/Ending.antt =====
-- Ending a command buffer (src/rendervulkan.cpp).
use cloud_desktop.Prelude.{
  ℕ, ◌≡◌, refl, Bool, true, false, not, ◌&&◌, ◌||◌, ◌==◌, some, List, [], ◌∷◌, All, Bool-cases, inl,
  inr, arith,
}
use cloud_desktop.Vulkan.Images.{Barrier, Command, Layout, Queues, Recording, Texture, TextureState}
use cloud_desktop.Vulkan.Record.{
  Pass, needs_barrier, claim_queue, memory_barrier, barrier_loop, insert_barrier, end,
}
use cloud_desktop.Vulkan.Calls.{Call, run_calls, is_write, is_flushed, unsynced}
use cloud_desktop.Vulkan.Barriers.{IsImported, is_dirty, Synced, remove_flushed-all}
use cloud_desktop.Vulkan.Hazards.{run_calls-Tracked, fresh-Tracked}

-- Some entry of the image has the flag.
unfoldable pub is_flagged : (TextureState → Bool) → List (ℕ × TextureState) → ℕ → Bool
is_flagged flag [] image = false
is_flagged flag ((i, s) ∷ ts) image = (i == image && flag s) || is_flagged flag ts image

-- Some barrier of the image passes the test.
unfoldable pub has_barrier : (Barrier → Bool) → List Barrier → ℕ → Bool
has_barrier test [] image = false
has_barrier test (b ∷ bs) image = (b.image == image && test b) || has_barrier test bs image

abbrev pub is_present : Layout → Bool
is_present Layout.present = true
is_present _ = false

-- The barriers hand each image over that is to be exported or presented.
pub record Released (q : Queues) (ts : List (ℕ × TextureState)) (bs : List Barrier) : Type 0 where
  pub exported :
      (image : ℕ)
      → not (is_flagged (λ s. s.needs_export) ts image)
          || has_barrier (λ b. b.dst_queue_family == q.external) bs image
        ≡ true
  pub presented :
      (image : ℕ)
      → not (is_flagged (λ s. s.needs_present_layout) ts image)
          || has_barrier (λ b. is_present b.new_layout) bs image
        ≡ true

barrier_loop-Released :
    (q : Queues) (ts : List (ℕ × TextureState)) (textures : ℕ → Texture)
    → All IsImported ts
    → (p : Pass) × (barrier_loop q true ts textures ≡ some p)
      × Synced ts p
      × Released q ts p.barriers
unfolding barrier_loop is_dirty needs_barrier is_flushed memory_barrier is_write is_flagged
    has_barrier
barrier_loop-Released q [] textures h = (
  record { states = []; textures = textures; barriers = [] },
  refl,
  record { imported = tt; flushed = λ image. refl },
  record { exported = λ image. refl; presented = λ image. refl },
)
barrier_loop-Released q ((i, s) ∷ ts) textures (im, h) =
    elim (Bool-cases (
      s.discarded
      || s.dirty
      || false
      || (true && s.needs_export)
      || (true && s.needs_present_layout))) [
        | inl needed ↦
            let (p, e, x, y) = barrier_loop-Released q ts (claim_queue q i textures) h in
            (
              record p {
                states =
                    (i, record s { discarded = false; dirty = false; needs_import = false })
                    ∷ p.states;
                barriers = memory_barrier q true i s (claim_queue q i textures i) ∷ p.barriers;
              },
              rw (im, needed, e) refl,
              record {
                imported = (refl, x.imported);
                flushed = λ image. ground (arith, x.flushed image);
              },
              record {
                exported = λ image. ground (arith, y.exported image);
                presented = λ image. ground (arith, y.presented image);
              },
            )
        | inr clean ↦
            let (p, e, x, y) = barrier_loop-Released q ts textures h in
            (
              record p { states = (i, s) ∷ p.states },
              rw (im, clean, e) refl,
              record {
                imported = (im, x.imported);
                flushed = λ image. ground (arith, x.flushed image);
              },
              record {
                exported = λ image. ground (arith, y.exported image);
                presented = λ image. ground (arith, y.presented image);
              },
            )
      ]

-- In a buffer that starts empty, the end after any sequence of calls does not fail: no image is still
-- to be imported. Its barriers, the newest command, hand over every image that is to be exported or
-- presented, and no write is left that is not waited for.
pub end-Released :
    (q : Queues) (cs : List Call) (r r' : Recording)
    → r.buffer.texture_state ≡ []
    → r.buffer.commands ≡ []
    → run_calls q cs r ≡ some r'
    → (r'' : Recording) × (bs : List Barrier) × (end q r' ≡ some r'')
      × (r''.buffer.commands ≡ Command.pipeline_barrier bs ∷ r'.buffer.commands)
      × Released q r'.buffer.texture_state bs
      × (unsynced r''.buffer.commands ≡ some [])
unfolding end insert_barrier unsynced
end-Released q cs r r' ts no_commands e =
    let t = run_calls-Tracked q cs r r' (fresh-Tracked r ts no_commands) e in
    let (p, e', x, y) = barrier_loop-Released q r'.buffer.texture_state r'.textures t.imported in
    (
      record {
        buffer = record (r'.buffer) {
          texture_state = p.states;
          commands = Command.pipeline_barrier p.barriers ∷ r'.buffer.commands;
        };
        textures = p.textures;
      },
      p.barriers,
      rw e' refl,
      refl,
      y,
      rw (t.synced, remove_flushed-all r'.buffer.texture_state p t.writes x t.known) refl,
    )

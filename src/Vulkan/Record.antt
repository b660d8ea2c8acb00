-- ===== src/Vulkan/Record.antt =====
-- CVulkanCmdBuffer (src/rendervulkan.cpp): insertBarrier, and the calls that record commands.
use cloud_desktop.Prelude.{
  ◌>>=◌, ℕ, zero, suc, Bool, true, false, not, ◌&&◌, ◌||◌, ◌==◌, if◌then◌else◌, Option, none, some,
  List, [], ◌∷◌, ◌++◌, map,
}
use cloud_desktop.Vulkan.Images.{
  Access, Barrier, CmdBuffer, Command, Layout, Queues, Recording, Texture, TextureState, mark_dirty,
  prepare_dest_image, prepare_src_image, recorded,
}

-- What the loop over the images has made so far.
pub record Pass : Type 0 where
  pub states : List (ℕ × TextureState)
  pub textures : ℕ → Texture
  pub barriers : List Barrier

unfoldable pub needs_barrier : Bool → TextureState → Bool
needs_barrier flush s =
    s.discarded
    || s.dirty
    || s.needs_import
    || (flush && s.needs_export)
    || (flush && s.needs_present_layout)

unfoldable pub bound_images : List (Option ℕ) → List ℕ
bound_images [] = []
bound_images (none ∷ ts) = bound_images ts
bound_images (some t ∷ ts) = t ∷ bound_images ts

unfoldable pub prepare_all : List ℕ → Recording → Option Recording
unfolding prepare_src_image
prepare_all [] r = some r
prepare_all (image ∷ images) r = do r' ← prepare_src_image image r; prepare_all images r'

abbrev pub add_refs : List ℕ → Recording → Recording
add_refs images r = record r {
  buffer = record (r.buffer) { texture_refs = r.buffer.texture_refs ++ images };
}

abbrev pub refs_of : Option ℕ → List ℕ
refs_of none = []
refs_of (some image) = image ∷ []

unfoldable pub set_slot : ℕ → Option ℕ → List (Option ℕ) → Option (List (Option ℕ))
set_slot slot t [] = none
set_slot zero t (x ∷ xs) = some (t ∷ xs)
set_slot (suc slot) t (x ∷ xs) = do xs' ← set_slot slot t xs; some (x ∷ xs')

-- `none` is a slot that the array has not.
unfoldable pub bind_texture : ℕ → Option ℕ → Recording → Option Recording
unfolding set_slot
bind_texture slot t r = do
  bound ← set_slot slot t r.buffer.bound_textures
  some (record r {
    buffer = record (r.buffer) {
      bound_textures = bound;
      texture_refs = r.buffer.texture_refs ++ refs_of t;
    };
  })

unfoldable pub bind_target : Option ℕ → Recording → Recording
bind_target t r = record r {
  buffer = record (r.buffer) { target = t; texture_refs = r.buffer.texture_refs ++ refs_of t };
}

-- A semaphore, by its handle, with the point to wait for or to signal.
unfoldable pub add_dependency : ℕ → ℕ → Recording → Recording
add_dependency semaphore point r = record r {
  buffer = record (r.buffer) {
    external_dependencies = r.buffer.external_dependencies ++ (semaphore, point) ∷ [];
  };
}

unfoldable pub add_signal : ℕ → ℕ → Recording → Recording
add_signal semaphore point r = record r {
  buffer = record (r.buffer) {
    external_signals = r.buffer.external_signals ++ (semaphore, point) ∷ [];
  };
}

unfoldable pub clear_state : CmdBuffer → CmdBuffer
clear_state b = record b { bound_textures = map (λ t. none) b.bound_textures; target = none }

unfoldable pub begin : CmdBuffer → CmdBuffer
unfolding clear_state
begin b = clear_state b

-- ResetCommandBuffer forgets the commands.
unfoldable pub reset : CmdBuffer → CmdBuffer
reset b = record b {
  texture_refs = [];
  texture_state = [];
  external_dependencies = [];
  external_signals = [];
  commands = [];
}

module _ (q : Queues) where
  -- The first barrier of a texture that has no queue yet puts it on the queue of the buffer.
  unfoldable pub claim_queue : ℕ → (ℕ → Texture) → ℕ → Texture
  claim_queue image textures j =
      let t = textures j in
      if (j == image) && (t.queue_family == q.ignored) then record t { queue_family = q.own } else t

  unfoldable pub memory_barrier : Bool → ℕ → TextureState → Texture → Barrier
  memory_barrier flush image s t = record {
    image = image;
    src_access = (if s.dirty then Access.write_bits else Access.no_access);
    dst_access = (if flush then Access.no_access else Access.read_write_bits);
    old_layout = (if s.discarded then Layout.undefined else Layout.general);
    new_layout = (if flush && s.needs_present_layout then Layout.present else Layout.general);
    src_queue_family =
        (if flush && s.needs_export
          then t.queue_family
          else if s.needs_import
          then q.external
          else t.queue_family);
    dst_queue_family = (if flush && s.needs_export then q.external else q.own);
  }

  -- The loop over the images; the ones that are left are in the list.
  unfoldable pub barrier_loop : Bool → List (ℕ × TextureState) → (ℕ → Texture) → Option Pass
  unfolding needs_barrier claim_queue memory_barrier
  barrier_loop flush [] textures = some (record { states = []; textures = textures; barriers = [] })
  barrier_loop flush ((image, s) ∷ ts) textures =
      let next = barrier_loop flush ts in
      if flush && s.needs_import
      then none
      else if not (needs_barrier flush s)
      then next textures >>= (λ p. some (record p { states = (image, s) ∷ p.states }))
      else let textures' = claim_queue image textures in
        let s' = record s { discarded = false; dirty = false; needs_import = false } in
        next textures' >>= (λ p. some (record p {
          states = (image, s') ∷ p.states;
          barriers = memory_barrier flush image s (textures' image) ∷ p.barriers;
        }))

  unfoldable pub insert_barrier : Bool → Recording → Option Recording
  unfolding barrier_loop
  insert_barrier flush r = do
    p ← barrier_loop flush r.buffer.texture_state r.textures
    some (record {
      buffer = record (r.buffer) {
        texture_state = p.states;
        commands = Command.pipeline_barrier p.barriers ∷ r.buffer.commands;
      };
      textures = p.textures;
    })

  -- A command that reads `images` and writes `target`.
  unfoldable pub record_write : List ℕ → ℕ → Command → Recording → Option Recording
  unfolding prepare_all insert_barrier prepare_dest_image mark_dirty
  record_write images target c r = do
    r₁ ← prepare_all images r
    r₂ ← insert_barrier false (prepare_dest_image target r₁)
    mark_dirty target (recorded c r₂)

  unfoldable pub dispatch : Recording → Option Recording
  unfolding record_write bound_images
  dispatch r = do
    target ← r.buffer.target
    let images = bound_images r.buffer.bound_textures
    record_write images target (Command.dispatched images target) r

  unfoldable pub copy_image : ℕ → ℕ → Recording → Option Recording
  unfolding record_write
  copy_image src dst r =
      let s = r.textures src in
      let d = r.textures dst in
      if not ((s.width == d.width) && (s.height == d.height)) then none else do
        r' ← record_write (src ∷ []) dst (Command.image_copied src dst) r
        some (add_refs (src ∷ dst ∷ []) r')

  unfoldable pub copy_buffer_to_image : ℕ → Recording → Option Recording
  unfolding record_write
  copy_buffer_to_image dst r = do
    r' ← record_write [] dst (Command.buffer_copied dst) r
    some (add_refs (dst ∷ []) r')

  unfoldable pub end : Recording → Option Recording
  unfolding insert_barrier
  end r = insert_barrier true r

-- ===== src/Vulkan/Images.antt =====
-- CVulkanCmdBuffer (src/rendervulkan.cpp, src/rendervulkan.hpp): the calls that record into a command
-- buffer, and the barriers that it puts in front of them. A texture is named by a number. Samplers,
-- pipelines, constants and the colour tables do not matter for the barriers and are left out. `none`
-- is an assertion that fails.
use cloud_desktop.Prelude.{
  ℕ, Bool, true, false, ◌||◌, ◌==◌, if◌then◌else◌, Option, none, some, List, [], ◌∷◌,
}

pub record TextureState : Type 0 where
  pub discarded : Bool
  pub dirty : Bool
  pub needs_present_layout : Bool
  pub needs_export : Bool
  pub needs_import : Bool

abbrev pub fresh_state : TextureState
fresh_state = record {
  discarded = false;
  dirty = false;
  needs_present_layout = false;
  needs_export = false;
  needs_import = false;
}

-- CVulkanTexture, as far as the barriers depend on it.
pub record Texture : Type 0 where
  pub external_image : Bool
  pub output_image : Bool
  pub width : ℕ
  pub height : ℕ
  pub queue_family : ℕ

-- Nothing, the write bits, or both the read and the write bits.
pub data Access : Type 0 where
  no_access : Access
  write_bits : Access
  read_write_bits : Access

-- `present` is the backend's layout to present.
pub data Layout : Type 0 where
  undefined : Layout
  general : Layout
  present : Layout

-- VkImageMemoryBarrier.
pub record Barrier : Type 0 where
  pub image : ℕ
  pub src_access : Access
  pub dst_access : Access
  pub old_layout : Layout
  pub new_layout : Layout
  pub src_queue_family : ℕ
  pub dst_queue_family : ℕ

-- What is recorded: the images that a command reads, and the one that it writes.
pub data Command : Type 0 where
  pipeline_barrier : List Barrier → Command
  dispatched : List ℕ → ℕ → Command
  image_copied : ℕ → ℕ → Command
  buffer_copied : ℕ → Command

-- The commands are the newest first.
pub record CmdBuffer : Type 0 where
  pub raw_buffer : ℕ
  pub texture_refs : List ℕ
  pub texture_state : List (ℕ × TextureState)
  pub bound_textures : List (Option ℕ)
  pub target : Option ℕ
  pub external_dependencies : List (ℕ × ℕ)
  pub external_signals : List (ℕ × ℕ)
  pub commands : List Command

-- A buffer and the textures, which it shares with the other buffers.
pub record Recording : Type 0 where
  pub buffer : CmdBuffer
  pub textures : ℕ → Texture

-- VK_QUEUE_FAMILY_IGNORED, the external queue and the queue of the buffer.
pub record Queues : Type 0 where
  pub ignored : ℕ
  pub external : ℕ
  pub own : ℕ

abbrev pub with_state : List (ℕ × TextureState) → Recording → Recording
with_state ts r = record r { buffer = record (r.buffer) { texture_state = ts } }

abbrev pub recorded : Command → Recording → Recording
recorded c r = record r { buffer = record (r.buffer) { commands = c ∷ r.buffer.commands } }

unfoldable pub is_prepared : ℕ → List (ℕ × TextureState) → Bool
is_prepared image [] = false
is_prepared image ((i, s) ∷ ts) = i == image || is_prepared image ts

unfoldable pub prepare_src_image : ℕ → Recording → Option Recording
unfolding is_prepared
prepare_src_image image r =
    let t = r.textures image in
    let ts = r.buffer.texture_state in
    if is_prepared image ts
    then some r
    else if t.output_image
    then none
    else some (
        with_state
          ((
            image,
            record fresh_state { needs_import = t.external_image; needs_export = t.external_image },
          )
            ∷ ts)
          r)

unfoldable pub prepare_dest_image : ℕ → Recording → Recording
unfolding is_prepared
prepare_dest_image image r =
    let t = r.textures image in
    let ts = r.buffer.texture_state in
    if is_prepared image ts
    then r
    else with_state
        ((
          image,
          record fresh_state {
            discarded = true;
            needs_export = t.external_image;
            needs_present_layout = t.output_image;
          },
        )
          ∷ ts)
        r

unfoldable pub discard_image : ℕ → Recording → Recording
unfolding is_prepared
discard_image image r =
    let ts = r.buffer.texture_state in
    if is_prepared image ts
    then r
    else with_state ((image, record fresh_state { discarded = true }) ∷ ts) r

unfoldable pub set_dirty : ℕ → List (ℕ × TextureState) → List (ℕ × TextureState)
set_dirty image [] = []
set_dirty image ((i, s) ∷ ts) =
    let rest = set_dirty image ts in
    if i == image then (i, record s { dirty = true }) ∷ ts else (i, s) ∷ rest

unfoldable pub mark_dirty : ℕ → Recording → Option Recording
unfolding is_prepared set_dirty
mark_dirty image r =
    let ts = r.buffer.texture_state in
    if is_prepared image ts then some (with_state (set_dirty image ts) r) else none

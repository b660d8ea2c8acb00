-- ===== src/Edid/Metadata.antt =====
-- src/edid.cpp: PatchEdid writes the HDR static metadata into the CTA extension blocks. What is logged
-- only is left out. `none` is an access out of range, an assertion that fails, or fuel that is out.
use cloud_desktop.Prelude.{
  ◌>>=◌, ℕ, zero, suc, ◌+◌, ◌*◌, ◌/◌, Bool, true, false, not, ◌&&◌, ◌||◌, ◌==◌, ltb, leb,
  if◌then◌else◌, Option, none, some, List, [], ◌∷◌, u8,
}
use cloud_desktop.Edid.{Bytes, peek, poke, get_bit_range, patch_edid_checksum, rotate, set_range_at}

pub data Eotf : Type 0 where
  gamma22 : Eotf
  pq : Eotf

-- BackendConnectorHDRInfo, as far as the EDID depends on it.
pub record HdrInfo : Type 0 where
  pub expose_hdr_support : Bool
  pub always_patch_edid : Bool
  pub output_encoding_eotf : Eotf
  pub max_content_light_level : ℕ
  pub max_frame_average_luminance : ℕ

abbrev pub is_gamma22 : Eotf → Bool
is_gamma22 Eotf.gamma22 = true
is_gamma22 Eotf.pq = false

unfoldable pub should_patch_edid : HdrInfo → Bool
should_patch_edid h =
    h.always_patch_edid || (h.expose_hdr_support && is_gamma22 h.output_encoding_eotf)

-- memcpy of these bytes to the index `i`.
unfoldable pub write_all : ℕ → List ℕ → Bytes → Option Bytes
write_all i [] b = some b
write_all i (v ∷ vs) b = do b' ← poke i v b; write_all (i + 1) vs b'

unfoldable pub read_all : ℕ → ℕ → Bytes → Option (List ℕ)
read_all i zero b = some []
read_all i (suc n) b = do v ← peek i b; vs ← read_all (i + 1) n b; some (v ∷ vs)

-- memmove of `n` bytes.
unfoldable pub move_bytes : ℕ → ℕ → ℕ → Bytes → Option Bytes
unfolding write_all read_all
move_bytes to from n b = do vs ← read_all from n b; write_all to vs b

-- A data block, whose header is at `at`: the metadata that a static HDR block of a sufficient size
-- holds is replaced.
unfoldable pub patch_block : List ℕ → ℕ → ℕ → Bool × Bytes → Option (Bool × Bytes)
unfolding get_bit_range write_all
patch_block metadata at header (found, b) =
    if not (get_bit_range header 7 5 == 7) then some (found, b) else do
      extended_tag ← peek (at + 1) b
      if not (extended_tag == 6) || ltb (u8 (get_bit_range header 4 0 + 255)) 5
          then some (found, b)
          else do b' ← write_all (at + 2) metadata b; some (true, b')

-- The loop over the data blocks between `j` and `dtd_start`. Where it ends is only logged.
unfoldable pub walk : List ℕ → ℕ → ℕ → ℕ → ℕ → Bool × Bytes → Option (Bool × Bytes)
unfolding get_bit_range patch_block
walk metadata ext dtd_start zero j s = none
walk metadata ext dtd_start (suc fuel) j s =
    let next = walk metadata ext dtd_start fuel in
    if leb dtd_start j then some s else do
      header ← peek (ext + j) s.1
      let size = get_bit_range header 4 0
      if ltb dtd_start (j + 1 + size)
          then some s
          else do s' ← patch_block metadata (ext + j) header s; next (j + (1 + size)) s'

-- A block of metadata written where the detailed timings were.
unfoldable pub insert_block : List ℕ → ℕ → Bytes → Option Bytes
unfolding move_bytes set_range_at write_all
insert_block metadata dtd b = do
  b₁ ← move_bytes (dtd + 7) dtd 7 b
  b₂ ← poke dtd 0 b₁
  b₃ ← set_range_at dtd 7 5 7 b₂
  b₄ ← set_range_at dtd 4 0 6 b₃
  b₅ ← poke (dtd + 1) 6 b₄
  write_all (dtd + 2) metadata b₅

-- A CTA block with data blocks, which start behind its header of 4 bytes. Each round of the loop
-- over them gets further, so that `dtd_start` rounds are enough.
unfoldable pub patch_cta : List ℕ → ℕ → ℕ → Bool × Bytes → Option (Bool × Bytes)
unfolding walk insert_block patch_edid_checksum
patch_cta metadata ext dtd_start s = do
  (found, b) ← walk metadata ext dtd_start (suc dtd_start) 4 s
  b' ← if found then some b else insert_block metadata (ext + dtd_start) b
  b'' ← patch_edid_checksum ext b'
  some (found, b'')

-- `luminance_code` is what encode_max_luminance computes with the C library's logarithm for a
-- luminance that is not 0.
module _ (luminance_code : ℕ → ℕ) where
  unfoldable pub encode_max_luminance : ℕ → ℕ
  encode_max_luminance nits = if nits == 0 then 0 else luminance_code nits

  -- The supported EOTFs are those of the bits 0, 1 and 2.
  unfoldable pub new_hdr_static_metadata_block : HdrInfo → List ℕ
  unfolding encode_max_luminance
  new_hdr_static_metadata_block h =
      7
      ∷ 1
      ∷ encode_max_luminance h.max_content_light_level
      ∷ encode_max_luminance h.max_frame_average_luminance
      ∷ 0
      ∷ []

-- `cea` is DI_EDID_EXT_CEA of libdisplay-info.
module _ (cea : ℕ) where
  -- The body of the loop over the extension blocks.
  unfoldable pub patch_extension : List ℕ → ℕ → Bool × Bytes → Option (Bool × Bytes)
  unfolding patch_cta
  patch_extension metadata ext s = do
    tag ← peek ext s.1
    if not (tag == cea) then some s else do
      dtd_start ← peek (ext + 2) s.1
      flags ← peek (ext + 3) s.1
      if (dtd_start == 0) || not (flags == 0) then some s else patch_cta metadata ext dtd_start s

  -- The first `n` extension blocks.
  unfoldable pub patch_extensions : List ℕ → ℕ → Bool × Bytes → Option (Bool × Bytes)
  unfolding patch_extension
  patch_extensions metadata zero s = some s
  patch_extensions metadata (suc n) s = do
    s' ← patch_extensions metadata n s
    patch_extension metadata (128 + n * 128) s'

module _ (cea : ℕ) (luminance_code : ℕ → ℕ) where
  unfoldable pub patch_hdr : HdrInfo → Bytes → Option Bytes
  unfolding new_hdr_static_metadata_block patch_extensions
  patch_hdr h b = do
    count ← peek 0x7e b
    if not (count + 1 == b.size / 128) then none else do
      (found, b') ←
          patch_extensions cea (new_hdr_static_metadata_block luminance_code h) count (false, b)
      some b'

  -- The inner `none` is an EDID that stays as it is.
  unfoldable pub patch_edid : Bytes → HdrInfo → Bool → Option (Option Bytes)
  unfolding rotate should_patch_edid patch_hdr
  patch_edid b h turn = if b.size == 0 then some none else do
    b₁ ← if turn then rotate b else some b
    if not (should_patch_edid h)
        then some (if turn then some b₁ else none)
        else do b₂ ← patch_hdr h b₁; some (some b₂)

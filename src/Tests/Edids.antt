-- ===== src/Tests/Edids.antt =====
-- EDIDs that are generated, rotated and patched (src/edid.cpp).
use cloud_desktop.Prelude.{◌>>=◌, ℕ, ◌+◌, ◌%◌, ◌≡◌, refl, true, false, some, if◌then◌else◌, arith}
use cloud_desktop.Edid.{Bytes, resolution, rotate, sum_bytes, update, validate_block_checksum}
use cloud_desktop.Edid.Base.{base_edid, generate_simple_edid}
use cloud_desktop.Edid.Metadata.{
  Eotf, HdrInfo, new_hdr_static_metadata_block, patch_edid, should_patch_edid,
}
use cloud_desktop.Edid.Blocks.{is_handled}
use cloud_desktop.Edid.Simple.{IsPatched, base_timing, generate_simple_edid_size}
use cloud_desktop.Edid.Rotate.{rotate_size}
use cloud_desktop.Edid.Twice.{rotate-rotate}
use cloud_desktop.Edid.Effect.{Extended, all_extensions, has_room}
use cloud_desktop.Edid.Patch.{patch_edid-Extended}

generate_simple_edid_size_example :
    (b : Bytes) × (generate_simple_edid 1280 4000 ≡ some b)
    × IsPatched base_edid 0x36 (1280, 3840) b
generate_simple_edid_size_example = generate_simple_edid_size 1280 4000

rotate_size_example :
    (b : Bytes) × (rotate base_edid ≡ some b)
    × IsPatched base_edid 0x36 ((resolution 0x36 base_edid).1, (resolution 0x36 base_edid).0) b
    × (b.at 0x15 ≡ 16)
    × (b.at 0x16 ≡ 10)
rotate_size_example = rotate_size base_edid 0x36 (omega arith) base_timing

base_edid-valid : validate_block_checksum 0 base_edid ≡ true
unfolding validate_block_checksum sum_bytes
base_edid-valid = refl

rotate-rotate_example :
    (b : Bytes) × ((rotate base_edid >>= rotate) ≡ some b)
    × (b.size ≡ 256)
    × ((j : ℕ) → b.at j ≡ base_edid.at j)
rotate-rotate_example = rotate-rotate base_edid (omega arith) base_edid-valid (omega arith)

-- The base EDID with its data blocks before 11, which hold HDR metadata.
abbrev with_metadata : Bytes
with_metadata = record base_edid { at = update base_edid.at 0x82 11 }

abbrev gamma22_display : HdrInfo
gamma22_display = record {
  expose_hdr_support = true;
  always_patch_edid = false;
  output_encoding_eotf = Eotf.gamma22;
  max_content_light_level = 1000;
  max_frame_average_luminance = 800;
}

abbrev low_byte : ℕ → ℕ
low_byte n = n % 256

with_metadata-room : all_extensions (has_room 2 with_metadata) 1 ≡ true
unfolding all_extensions has_room is_handled
with_metadata-room = refl

gamma22_display-patches : should_patch_edid gamma22_display ≡ true
unfolding should_patch_edid
gamma22_display-patches = refl

patch_edid-Extended_example :
    (b₁ b : Bytes) × ((if true then rotate with_metadata else some with_metadata) ≡ some b₁)
    × ((i : ℕ) → b₁.at (128 + i) ≡ with_metadata.at (128 + i))
    × (patch_edid 2 low_byte with_metadata gamma22_display true ≡ some (some b))
    × Extended 2 (new_hdr_static_metadata_block low_byte gamma22_display) 1 b₁ b
patch_edid-Extended_example =
    patch_edid-Extended 2 low_byte gamma22_display true 1 with_metadata (omega arith) (omega arith)
      with_metadata-room gamma22_display-patches

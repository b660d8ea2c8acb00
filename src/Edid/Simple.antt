-- ===== src/Edid/Simple.antt =====
-- What GenerateSimpleEdid produces (src/edid.cpp).
use cloud_desktop.Prelude.{
  ℕ, ◌+◌, ◌*◌, ◌/◌, ◌%◌, ◌<◌, ◌≤◌, ◌≡◌, ◌∙◌, refl, find_first, true, min, some, arith,
}
use cloud_desktop.Edid.{
  Bytes, get_bit_range, resolution, set_timing, simple_edid, validate_block_checksum,
}
use cloud_desktop.Edid.Base.{base_edid, generate_simple_edid}
use cloud_desktop.Edid.Checksum.{checksummed, patch_edid_checksum-some, validate-checksummed}
use cloud_desktop.Edid.Timing.{
  is_timing, first_timing, first_timing_cases, first_timing-checksummed, first_timing-with_bytes,
  patch_first-at_timing, set_timing-some, with_bytes,
}

-- An EDID of the size of `b` with a valid checksum, whose first timing, at `d`, has the resolution.
pub record IsPatched (b : Bytes) (d : ℕ) (size : ℕ × ℕ) (b' : Bytes) : Type 0 where
  pub same_size : b'.size ≡ b.size
  pub checksum : validate_block_checksum 0 b' ≡ true
  pub timing : first_timing b' ≡ some d
  pub new_size : resolution d b' ≡ size

resolution-with_bytes :
    (w h d : ℕ) (b : Bytes)
    → w < 4096
    → h < 4096
    → first_timing b ≡ some d
    → resolution d (
        checksummed 0 (
          with_bytes d
            (w % 256)
            (b.at (d + 4) / 256 * 256 + w / 256 * 16 + b.at (d + 4) % 16)
            (h % 256)
            (b.at (d + 7) / 256 * 256 + h / 256 * 16 + b.at (d + 7) % 16)
            b))
      ≡ (w, h)
unfolding resolution get_bit_range
resolution-with_bytes w h d b hw hh e = ground (arith, first_timing_cases b d e)

pub simple_edid_lem :
    (base : Bytes) (d w h : ℕ)
    → 128 ≤ base.size
    → first_timing base ≡ some d
    → (b : Bytes) × (simple_edid base w h ≡ some b) × IsPatched base d (min w 3840, min h 3840) b
unfolding simple_edid
simple_edid_lem base d w h enough e =
    let w' = min w 3840 in
    let h' = min h 3840 in
    let b' =
      with_bytes d (w' % 256) (base.at (d + 4) / 256 * 256 + w' / 256 * 16 + base.at (d + 4) % 16)
        (h' % 256) (base.at (d + 7) / 256 * 256 + h' / 256 * 16 + base.at (d + 7) % 16) base in
    let written : set_timing w' h' d base ≡ some b' =
      set_timing-some w' h' d base (omega arith) (omega arith)
        (ground (arith, first_timing_cases base d e)) in
    (
      checksummed 0 b',
      rw (patch_first-at_timing (set_timing w' h') base enough, e, written)
          (patch_edid_checksum-some 0 b' (omega arith)),
      record {
        same_size = refl;
        checksum = validate-checksummed 0 b';
        timing = first_timing-checksummed b' ∙ first_timing-with_bytes d _ _ _ _ base e;
        new_size = resolution-with_bytes w' h' d base (omega arith) (omega arith) e;
      },
    )

pub base_timing : first_timing base_edid ≡ some 0x36
unfolding first_timing is_timing find_first
base_timing = refl

-- GenerateSimpleEdid gives an EDID of 256 bytes for every width and height: its base block has a valid
-- checksum, and its first detailed timing, the one at 0x36, has the width and the height that were
-- asked for, each cut off at 3840.
pub generate_simple_edid_size :
    (w h : ℕ)
    → (b : Bytes) × (generate_simple_edid w h ≡ some b)
      × IsPatched base_edid 0x36 (min w 3840, min h 3840) b
unfolding generate_simple_edid
generate_simple_edid_size w h = simple_edid_lem base_edid 0x36 w h (omega arith) base_timing

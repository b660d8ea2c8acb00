-- ===== src/Edid/Rotate.antt =====
-- What PatchEdid does for a rotated screen (src/edid.cpp).
use cloud_desktop.Prelude.{ℕ, ◌≤◌, ◌≡◌, ◌∙◌, refl, Option, none, some, arith}
use cloud_desktop.Edid.{Bytes, resolution, rotate_timing, rotate, peek, poke, swap_bytes, update}
use cloud_desktop.Edid.Checksum.{checksummed, patch_edid_checksum-some, validate-checksummed}
use cloud_desktop.Edid.Simple.{IsPatched}
use cloud_desktop.Edid.Timing.{
  first_timing, first_timing_cases, first_timing-checksummed, first_timing_ext, at_timing,
  patch_first-at_timing, rotate_timing-some, first_timing-swapped, swapped,
}

-- An EDID with its two dimensions swapped.
abbrev pub turned : Bytes → Bytes
turned b = record b { at = update (update b.at 0x15 (b.at 0x16)) 0x16 (b.at 0x15) }

abbrev pub swapped_at : Option ℕ → Bytes → Bytes
swapped_at none b = b
swapped_at (some d) b = swapped d b

pub first_timing-turned : (b : Bytes) → first_timing (turned b) ≡ first_timing b
first_timing-turned b = first_timing_ext b (turned b) (λ i h. (ground arith, ground arith))

pub first_timing-swapped_at :
    (o : Option ℕ) (b : Bytes) → first_timing b ≡ o → first_timing (swapped_at o b) ≡ o
first_timing-swapped_at none b e = e
first_timing-swapped_at (some d) b e = first_timing-swapped d b e

-- The whole result of the rotation.
abbrev pub rotated : Bytes → Bytes
rotated b = checksummed 0 (swapped_at (first_timing b) (turned b))

pub size-swapped_at : (o : Option ℕ) (b : Bytes) → (swapped_at o b).size ≡ b.size
size-swapped_at none b = refl
size-swapped_at (some d) b = refl

at_timing-rotate :
    (o : Option ℕ) (b : Bytes)
    → 128 ≤ b.size
    → first_timing b ≡ o
    → at_timing rotate_timing o b ≡ some (swapped_at o b)
at_timing-rotate none b enough e = refl
at_timing-rotate (some d) b enough e =
    rotate_timing-some d b (ground (arith, first_timing_cases b d e))

swap_dimensions : (b : Bytes) → 128 ≤ b.size → swap_bytes 0x15 0x16 b ≡ some (turned b)
unfolding swap_bytes peek poke
swap_dimensions b enough = ground arith

pub rotate-some : (b : Bytes) → 128 ≤ b.size → rotate b ≡ some (rotated b)
unfolding rotate
rotate-some b enough =
    rw
      (
        swap_dimensions b enough,
        patch_first-at_timing rotate_timing (turned b) enough,
        first_timing-turned b,
        at_timing-rotate (first_timing b) (turned b) enough (first_timing-turned b),
      )
      (patch_edid_checksum-some 0 (swapped_at (first_timing b) (turned b))
        (ground (arith, size-swapped_at (first_timing b) (turned b))))

pub first_timing-rotated : (b : Bytes) → first_timing (rotated b) ≡ first_timing b
first_timing-rotated b =
    first_timing-checksummed (swapped_at (first_timing b) (turned b))
    ∙ first_timing-swapped_at (first_timing b) (turned b) (first_timing-turned b)

resolution-swapped :
    (d : ℕ) (b : Bytes)
    → first_timing b ≡ some d
    → resolution d (checksummed 0 (swapped d (turned b))) ≡ ((resolution d b).1, (resolution d b).0)
unfolding resolution
resolution-swapped d b e = ground (arith, first_timing_cases b d e)

-- For an EDID of at least 128 bytes with a detailed timing, the rotation in PatchEdid gives an EDID
-- of the same size with a valid checksum in its base block, in which the first detailed timing, still
-- at the same place, has its width and its height swapped, and so has the screen.
pub rotate_size :
    (b : Bytes) (d : ℕ)
    → 128 ≤ b.size
    → first_timing b ≡ some d
    → (b' : Bytes) × (rotate b ≡ some b')
      × IsPatched b d ((resolution d b).1, (resolution d b).0) b'
      × (b'.at 0x15 ≡ b.at 0x16)
      × (b'.at 0x16 ≡ b.at 0x15)
rotate_size b d enough e = (
  rotated b,
  rotate-some b enough,
  record {
    same_size = size-swapped_at (first_timing b) (turned b);
    checksum = validate-checksummed 0 (swapped_at (first_timing b) (turned b));
    timing = first_timing-rotated b ∙ e;
    new_size = rw e (resolution-swapped d b e);
  },
  rw e (ground (arith, first_timing_cases b d e)),
  rw e (ground (arith, first_timing_cases b d e)),
)

-- ===== src/Edid/Timing.antt =====
-- The first detailed timing of an EDID, and what the two loops over the descriptors write into it
-- (src/edid.cpp).
use cloud_desktop.Prelude.{
  ℕ, ◌+◌, ◌*◌, ◌/◌, ◌%◌, ◌<◌, ◌≤◌, ◌≡◌, Bool, not, ◌||◌, ◌==◌, Option, none, some, ◌∙◌, ◌⊎◌, List,
  [], ◌∷◌, find_first, arith,
}
use cloud_desktop.Edid.Checksum.{checksummed}
use cloud_desktop.Edid.{
  Bytes, peek, poke, update, set_bit_range, swap_bytes, descriptor, patch_first, rotate_timing,
  set_range_at, set_timing,
}

-- What stands behind `d` after a new resolution was written there.
abbrev pub with_bytes : ℕ → ℕ → ℕ → ℕ → ℕ → Bytes → Bytes
with_bytes d x₂ x₄ x₅ x₇ b = record b {
  at = update (update (update (update b.at (d + 4) x₄) (d + 2) x₂) (d + 7) x₇) (d + 5) x₅;
}

pub set_timing-some :
    (w h d : ℕ) (b : Bytes)
    → w < 4096
    → h < 4096
    → d + 7 < b.size
    → set_timing w h d b
      ≡ some (
          with_bytes d
            (w % 256)
            (b.at (d + 4) / 256 * 256 + w / 256 * 16 + b.at (d + 4) % 16)
            (h % 256)
            (b.at (d + 7) / 256 * 256 + h / 256 * 16 + b.at (d + 7) % 16)
            b)
unfolding set_timing set_range_at set_bit_range peek poke
set_timing-some w h d b hw hh r = ground arith

-- The timing at `d` with its two resolutions swapped.
abbrev pub swapped : ℕ → Bytes → Bytes
swapped d b = record b {
  at =
      update
        (update (update (update b.at (d + 4) (b.at (d + 7))) (d + 7) (b.at (d + 4))) (d + 2)
          (b.at (d + 5)))
        (d + 5) (b.at (d + 2));
}

pub rotate_timing-some :
    (d : ℕ) (b : Bytes) → d + 7 < b.size → rotate_timing d b ≡ some (swapped d b)
unfolding rotate_timing swap_bytes peek poke
rotate_timing-some d b r = ground arith

-- A descriptor that is a timing has a pixel clock, in its first two bytes.
unfoldable pub is_timing : Bytes → ℕ → Bool
is_timing b d = not (b.at d == 0) || not (b.at (d + 1) == 0)

abbrev pub descriptors : List ℕ
descriptors = descriptor 0 ∷ descriptor 1 ∷ descriptor 2 ∷ descriptor 3 ∷ []

unfoldable pub first_timing : Bytes → Option ℕ
unfolding is_timing
first_timing b = find_first (is_timing b) descriptors

abbrev pub at_timing : (ℕ → Bytes → Option Bytes) → Option ℕ → Bytes → Option Bytes
at_timing patch none b = some b
at_timing patch (some d) b = patch d b

pub patch_first-at_timing :
    (patch : ℕ → Bytes → Option Bytes) (b : Bytes)
    → 128 ≤ b.size
    → patch_first patch 4 0 b ≡ at_timing patch (first_timing b) b
unfolding patch_first peek first_timing is_timing find_first
patch_first-at_timing patch b h = ground arith

-- A timing lies among the descriptors.
pub first_timing_cases :
    (b : Bytes) (d : ℕ)
    → first_timing b ≡ some d
    → (d ≡ descriptor 0) ⊎ (d ≡ descriptor 1) ⊎ (d ≡ descriptor 2) ⊎ (d ≡ descriptor 3)
unfolding first_timing is_timing find_first
first_timing_cases b d e = ground arith

-- Where the first timing is depends on the first two bytes of each descriptor.
pub first_timing_ext :
    (b b' : Bytes)
    → ((i : ℕ)
        → i < 4
        → (b'.at (descriptor i) ≡ b.at (descriptor i))
          × (b'.at (descriptor i + 1) ≡ b.at (descriptor i + 1)))
    → first_timing b' ≡ first_timing b
unfolding first_timing find_first is_timing
first_timing_ext b b' same =
    ground (
      arith,
      same 0 (omega arith),
      same 1 (omega arith),
      same 2 (omega arith),
      same 3 (omega arith),
    )

-- A new resolution leaves the first timing where it is.
pub first_timing-with_bytes :
    (d x₂ x₄ x₅ x₇ : ℕ) (b : Bytes)
    → first_timing b ≡ some d
    → first_timing (with_bytes d x₂ x₄ x₅ x₇ b) ≡ some d
first_timing-with_bytes d x₂ x₄ x₅ x₇ b e =
    first_timing_ext b (with_bytes d x₂ x₄ x₅ x₇ b)
      (λ i h. (ground (arith, first_timing_cases b d e), ground (arith, first_timing_cases b d e)))
    ∙ e

-- So does a checksum.
pub first_timing-checksummed : (b : Bytes) → first_timing (checksummed 0 b) ≡ first_timing b
first_timing-checksummed b =
    first_timing_ext b (checksummed 0 b) (λ i h. (ground arith, ground arith))

pub first_timing-swapped :
    (d : ℕ) (b : Bytes) → first_timing b ≡ some d → first_timing (swapped d b) ≡ some d
first_timing-swapped d b e =
    first_timing_ext b (swapped d b)
      (λ i h. (ground (arith, first_timing_cases b d e), ground (arith, first_timing_cases b d e)))
    ∙ e

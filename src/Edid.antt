-- ===== src/Edid.antt =====
-- src/edid.cpp: patching the EDID that a display sends. A vector of bytes is its size and what stands
-- at each index; `none` is an access out of range or an assertion that fails. Shifts and masks of
-- bytes are quotients and remainders.
pub mod Base
pub mod Checksum
pub mod Timing
pub mod Simple
pub mod Rotate
pub mod Twice
pub mod Metadata
pub mod Confined
pub mod Written
pub mod Extensions
pub mod Blocks
pub mod Effect
pub mod Loop
pub mod Patch
use cloud_desktop.Prelude.{
  ◌>>=◌, ℕ, zero, suc, ◌+◌, ◌-◌, ◌*◌, ◌/◌, ◌%◌, ◌^◌, Bool, true, false, not, ◌&&◌, ◌||◌, ◌==◌, ltb,
  if◌then◌else◌, min, Option, none, some, List, [], ◌∷◌, get_elem?, u8,
}

pub record Bytes : Type 0 where
  pub size : ℕ
  pub at : ℕ → ℕ

unfoldable pub peek : ℕ → Bytes → Option ℕ
peek i b = if ltb i b.size then some (b.at i) else none

abbrev pub update : (ℕ → ℕ) → ℕ → ℕ → ℕ → ℕ
update f i v j = if j == i then v else f j

unfoldable pub poke : ℕ → ℕ → Bytes → Option Bytes
poke i v b = if ltb i b.size then some (record b { at = update b.at i v }) else none

unfoldable pub get_bit_range : ℕ → ℕ → ℕ → ℕ
get_bit_range val high low = val / 2 ^ low % 2 ^ (high - low + 1)

-- `bits` must fit the range.
unfoldable pub set_bit_range : ℕ → ℕ → ℕ → ℕ → Option ℕ
set_bit_range val high low bits =
    if ltb bits (2 ^ (high - low + 1))
    then some (val / 2 ^ (high + 1) * 2 ^ (high + 1) + bits * 2 ^ low + val % 2 ^ low)
    else none

-- The sum of the first `n` bytes from `off` on, on uint8_t.
unfoldable pub sum_bytes : (ℕ → ℕ) → ℕ → ℕ → ℕ
sum_bytes f off zero = 0
sum_bytes f off (suc n) = u8 (sum_bytes f off n + f (off + n))

unfoldable pub patch_edid_checksum : ℕ → Bytes → Option Bytes
patch_edid_checksum off b =
    if ltb (off + 127) b.size then poke (off + 127) (u8 (256 - sum_bytes b.at off 127)) b else none

unfoldable pub validate_block_checksum : ℕ → Bytes → Bool
validate_block_checksum off b = sum_bytes b.at off 128 == 0

-- std::swap of two bytes.
unfoldable pub swap_bytes : ℕ → ℕ → Bytes → Option Bytes
swap_bytes i j b = do x ← peek i b; y ← peek j b; b' ← poke i y b; poke j x b'

-- The place of the i-th detailed timing or display descriptor.
abbrev pub descriptor : ℕ → ℕ
descriptor i = 0x36 + i * 18

-- What the loop over the descriptors does to the first one that is a timing; `rounds` are left, from
-- the `i`-th on.
unfoldable pub patch_first : (ℕ → Bytes → Option Bytes) → ℕ → ℕ → Bytes → Option Bytes
patch_first patch zero i b = some b
patch_first patch (suc rounds) i b =
    let next = patch_first patch rounds (i + 1) b in
    do
      x ← peek (descriptor i) b
      y ← peek (descriptor i + 1) b
      if not (x == 0) || not (y == 0) then patch (descriptor i) b else next

-- The width and the height that both functions log for a timing.
unfoldable pub resolution : ℕ → Bytes → ℕ × ℕ
unfolding get_bit_range
resolution d b = (
  get_bit_range (b.at (d + 4)) 7 4 * 256 + b.at (d + 2),
  get_bit_range (b.at (d + 7)) 7 4 * 256 + b.at (d + 5),
)

-- `std::swap` of the two resolutions of a timing.
unfoldable pub rotate_timing : ℕ → Bytes → Option Bytes
unfolding swap_bytes
rotate_timing d b = do b' ← swap_bytes (d + 4) (d + 7) b; swap_bytes (d + 2) (d + 5) b'

-- The block of PatchEdid for `bRotate`.
unfoldable pub rotate : Bytes → Option Bytes
unfolding patch_first rotate_timing patch_edid_checksum swap_bytes
rotate b = do
  b₁ ← swap_bytes 0x15 0x16 b
  b₂ ← patch_first rotate_timing 4 0 b₁
  patch_edid_checksum 0 b₂

unfoldable pub set_range_at : ℕ → ℕ → ℕ → ℕ → Bytes → Option Bytes
unfolding set_bit_range
set_range_at i high low bits b = do x ← peek i b; y ← set_bit_range x high low bits; poke i y b

-- What GenerateSimpleEdid writes into a timing.
unfoldable pub set_timing : ℕ → ℕ → ℕ → Bytes → Option Bytes
unfolding set_range_at
set_timing w h d b = do
  b₁ ← set_range_at (d + 4) 7 4 (u8 (w / 256)) b
  b₂ ← poke (d + 2) (w % 256) b₁
  b₃ ← set_range_at (d + 7) 7 4 (u8 (h / 256)) b₂
  poke (d + 5) (h % 256) b₃

-- GenerateSimpleEdid on a base EDID.
unfoldable pub simple_edid : Bytes → ℕ → ℕ → Option Bytes
unfolding patch_first set_timing patch_edid_checksum
simple_edid base w h = do
  b ← patch_first (set_timing (min w 3840) (min h 3840)) 4 0 base
  patch_edid_checksum 0 b

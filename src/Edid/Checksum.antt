-- ===== src/Edid/Checksum.antt =====
-- The checksum of a block (src/edid.cpp): its 128 bytes sum up to 0 on uint8_t.
use cloud_desktop.Prelude.{ℕ, zero, suc, ◌+◌, ◌-◌, ◌<◌, ◌≤◌, ◌≡◌, refl, true, some, arith, u8}
use cloud_desktop.Edid.{
  Bytes, poke, update, sum_bytes, patch_edid_checksum, validate_block_checksum,
}

-- A byte behind the ones that are summed does not count.
sum_bytes-update :
    (f : ℕ → ℕ) (off i v n : ℕ) → off + n ≤ i → sum_bytes (update f i v) off n ≡ sum_bytes f off n
unfolding sum_bytes
sum_bytes-update f off i v zero far = refl
sum_bytes-update f off i v (suc n) far = ground (arith, sum_bytes-update f off i v n (omega arith))

-- The block with the checksum that PatchEdid gives it.
abbrev pub checksummed : ℕ → Bytes → Bytes
checksummed off b = record b { at = update b.at (off + 127) (u8 (256 - sum_bytes b.at off 127)) }

sum_bytes-bound : (f : ℕ → ℕ) (off n : ℕ) → sum_bytes f off n < 256
unfolding sum_bytes
sum_bytes-bound f off zero = omega arith
sum_bytes-bound f off (suc n) = omega arith

sum_bytes-suc :
    (f : ℕ → ℕ) (off n : ℕ) → sum_bytes f off (suc n) ≡ u8 (sum_bytes f off n + f (off + n))
unfolding sum_bytes
sum_bytes-suc f off n = refl

pub patch_edid_checksum-some :
    (off : ℕ) (b : Bytes)
    → off + 127 < b.size
    → patch_edid_checksum off b ≡ some (checksummed off b)
unfolding patch_edid_checksum poke
patch_edid_checksum-some off b h = ground arith

pub validate-checksummed :
    (off : ℕ) (b : Bytes) → validate_block_checksum off (checksummed off b) ≡ true
unfolding validate_block_checksum
validate-checksummed off b = ground (
  arith,
  sum_bytes-suc (checksummed off b).at off 127,
  sum_bytes-update b.at off (off + 127) (u8 (256 - sum_bytes b.at off 127)) 127,
  sum_bytes-bound b.at off 127,
)

pub sum_bytes_ext :
    (f g : ℕ → ℕ) (off n : ℕ)
    → ((j : ℕ) → j < off + n → f j ≡ g j)
    → sum_bytes f off n ≡ sum_bytes g off n
unfolding sum_bytes
sum_bytes_ext f g off zero same = refl
sum_bytes_ext f g off (suc n) same =
    ground
      (arith, sum_bytes_ext f g off n (λ j h. same j (omega arith)), same (off + n) (omega arith))

-- The checksum that is given to a valid block is the one that it has.
pub checksum_unique :
    (off : ℕ) (b : Bytes)
    → validate_block_checksum off b ≡ true
    → b.at (off + 127) < 256
    → u8 (256 - sum_bytes b.at off 127) ≡ b.at (off + 127)
unfolding validate_block_checksum
checksum_unique off b valid byte =
    ground (arith, sum_bytes-suc b.at off 127, sum_bytes-bound b.at off 127)

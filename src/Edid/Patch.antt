-- ===== src/Edid/Patch.antt =====
-- PatchEdid as a whole (src/edid.cpp).
use cloud_desktop.Prelude.{
  ℕ, ◌+◌, ◌*◌, ◌/◌, ◌<◌, ◌≤◌, ◌≡◌, ◌∙◌, refl, ap, Bool, true, false, ◌==◌, ltb, some, length, ◌⊎◌,
  inl, inr, if◌then◌else◌, arith,
}
use cloud_desktop.Edid.{Bytes, peek, rotate}
use cloud_desktop.Edid.Rotate.{rotated, rotate-some, turned, size-swapped_at}
use cloud_desktop.Edid.Timing.{first_timing}
use cloud_desktop.Edid.Twice.{rotated_at, place-behind}
use cloud_desktop.Edid.Metadata.{
  HdrInfo, new_hdr_static_metadata_block, patch_extensions, patch_hdr, patch_edid,
  should_patch_edid,
}
use cloud_desktop.Edid.Effect.{
  Extended, all_extensions, all_extensions_ext, has_room, has_room-same,
}
use cloud_desktop.Edid.Loop.{patch_extensions-Extended}

new_hdr_static_metadata_block-length :
    (luminance_code : ℕ → ℕ) (h : HdrInfo)
    → length (new_hdr_static_metadata_block luminance_code h) ≡ 5
unfolding new_hdr_static_metadata_block
new_hdr_static_metadata_block-length luminance_code h = refl

patch_hdr-some :
    (cea : ℕ) (luminance_code : ℕ → ℕ) (h : HdrInfo) (n : ℕ) (b : Bytes) (s : Bool × Bytes)
    → b.size ≡ 128 + n * 128
    → b.at 0x7e ≡ n
    → patch_extensions cea (new_hdr_static_metadata_block luminance_code h) n (false, b) ≡ some s
    → patch_hdr cea luminance_code h b ≡ some s.1
unfolding patch_hdr peek
patch_hdr-some cea luminance_code h n b s size count e =
    let inside : ltb 0x7e b.size ≡ true = ground arith in
    let blocks : n + 1 == b.size / 128 ≡ true = ground arith in rw (inside, count, blocks, e) refl

patch_hdr-Extended :
    (cea : ℕ) (luminance_code : ℕ → ℕ) (h : HdrInfo) (n : ℕ) (b : Bytes)
    → b.size ≡ 128 + n * 128
    → b.at 0x7e ≡ n
    → all_extensions (has_room cea b) n ≡ true
    → (b' : Bytes) × (patch_hdr cea luminance_code h b ≡ some b')
      × Extended cea (new_hdr_static_metadata_block luminance_code h) n b b'
patch_hdr-Extended cea luminance_code h n b size count room =
    let (s, e, x, found) =
      patch_extensions-Extended cea (new_hdr_static_metadata_block luminance_code h) n b
        (new_hdr_static_metadata_block-length luminance_code h) (omega (arith, size)) room in
    (s.1, patch_hdr-some cea luminance_code h n b s size count e, x)

-- The rotation, where there is one, stays in front of the checksum of the base block.
turn_some :
    (turn : Bool) (b : Bytes)
    → 128 ≤ b.size
    → (b₁ : Bytes) × ((if turn then rotate b else some b) ≡ some b₁)
      × (b₁.size ≡ b.size)
      × (b₁.at 0x7e ≡ b.at 0x7e)
      × ((i : ℕ) → 128 ≤ i → b₁.at i ≡ b.at i)
turn_some false b enough = (b, refl, refl, refl, λ i h. refl)
turn_some true b enough =
    let o = first_timing b in
    let behind : (i : ℕ) → 126 ≤ i → (i < 127) ⊎ (128 ≤ i) → (rotated b).at i ≡ b.at i =
      λ i h h'. rotated_at b o i refl h' ∙ ap b.at (place-behind o b i refl h) in
    (
      rotated b,
      rotate-some b enough,
      size-swapped_at o (turned b),
      behind 0x7e (omega arith) (inl (omega arith)),
      λ i h. behind i (omega arith) (inr h),
    )

-- Where the metadata is to be patched, PatchEdid succeeds on an EDID of 1 + n blocks that counts its n
-- extensions rightly, if the detailed timings of each CTA block that it goes into begin behind the 4
-- bytes of the header and leave room for 14 bytes. Those are the CTA blocks with a third byte that is
-- not 0 and a fourth one that is. The result has the size of the EDID; its base block is that of the
-- EDID, rotated if that is asked for; every other extension block is that of the EDID, byte for byte;
-- each of those CTA blocks has its 4 bytes of header as before and a valid checksum; and if there is
-- one, the 5 bytes of the new metadata stand somewhere behind the header of the first extension
-- block, directly behind a byte with the extended tag 6.
pub patch_edid-Extended :
    (cea : ℕ) (luminance_code : ℕ → ℕ) (h : HdrInfo) (turn : Bool) (n : ℕ) (b : Bytes)
    → b.size ≡ 128 + n * 128
    → b.at 0x7e ≡ n
    → all_extensions (has_room cea b) n ≡ true
    → should_patch_edid h ≡ true
    → (b₁ b' : Bytes) × ((if turn then rotate b else some b) ≡ some b₁)
      × ((i : ℕ) → b₁.at (128 + i) ≡ b.at (128 + i))
      × (patch_edid cea luminance_code b h turn ≡ some (some b'))
      × Extended cea (new_hdr_static_metadata_block luminance_code h) n b₁ b'
unfolding patch_edid
patch_edid-Extended cea luminance_code h turn n b size count room patches =
    let (b₁, e₁, size₁, count₁, behind) = turn_some turn b (omega (arith, size)) in
    let same_room : all_extensions (has_room cea b₁) n ≡ all_extensions (has_room cea b) n =
      all_extensions_ext _ _ n
        (λ k l. has_room-same cea (128 + k * 128) b b₁ (λ i r. behind i (omega arith))) in
    let (b', e', x) =
      patch_hdr-Extended cea luminance_code h n b₁ (size₁ ∙ size) (count₁ ∙ count)
        (same_room ∙ room) in
    let some_bytes : b.size == 0 ≡ false = ground arith in
    (b₁, b', e₁, λ i. behind (128 + i) (omega arith), rw (some_bytes, e₁, patches, e') refl, x)

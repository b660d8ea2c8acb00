-- ===== src/Edid/Twice.antt =====
-- Rotating an EDID twice (src/edid.cpp).
use cloud_desktop.Prelude.{
  ◌>>=◌, ℕ, ◌+◌, ◌-◌, ◌<◌, ◌≤◌, ◌≡◌, ◌∙◌, refl, subst, true, Option, none, some, if◌then◌else◌,
  ◌==◌, ◌⊎◌, inl, inr, ap, arith, u8, Bool-cases,
}
use cloud_desktop.Edid.{Bytes, rotate, sum_bytes, validate_block_checksum}
use cloud_desktop.Edid.Checksum.{checksum_unique, sum_bytes_ext}
use cloud_desktop.Edid.Rotate.{
  turned, swapped_at, rotated, rotate-some, first_timing-rotated, size-swapped_at,
}
use cloud_desktop.Edid.Timing.{first_timing, first_timing_cases, swapped}

-- The place of the byte that the rotation puts at `j`.
abbrev moved : ℕ → ℕ → ℕ
moved d j =
    if j == d + 2
    then d + 5
    else if j == d + 5
    then d + 2
    else if j == d + 4
    then d + 7
    else if j == d + 7
    then d + 4
    else j

abbrev pub place : Option ℕ → ℕ → ℕ
place none j = if j == 0x15 then 0x16 else if j == 0x16 then 0x15 else j
place (some d) j = if j == 0x15 then 0x16 else if j == 0x16 then 0x15 else moved d j

at-swapped : (d : ℕ) (b : Bytes) (j : ℕ) → (swapped d b).at j ≡ b.at (moved d j)
at-swapped d b j = ground arith

at-turned : (b : Bytes) (d j : ℕ) → 0x36 ≤ d → (turned b).at (moved d j) ≡ b.at (place (some d) j)
at-turned b d j h = ground arith

at-rotated :
    (o : Option ℕ) (b : Bytes) (j : ℕ)
    → first_timing b ≡ o
    → (swapped_at o (turned b)).at j ≡ b.at (place o j)
at-rotated none b j e = ground arith
at-rotated (some d) b j e =
    at-swapped d (turned b) j ∙ at-turned b d j (ground (arith, first_timing_cases b d e))

place-place : (o : Option ℕ) (b : Bytes) (j : ℕ) → first_timing b ≡ o → place o (place o j) ≡ j
place-place none b j e = ground arith
place-place (some d) b j e = ground (arith, first_timing_cases b d e)

place-before : (o : Option ℕ) (b : Bytes) (j : ℕ) → first_timing b ≡ o → j < 127 → place o j < 127
place-before none b j e h = ground arith
place-before (some d) b j e h = ground (arith, first_timing_cases b d e)

pub place-behind : (o : Option ℕ) (b : Bytes) (j : ℕ) → first_timing b ≡ o → 126 ≤ j → place o j ≡ j
place-behind none b j e h = ground arith
place-behind (some d) b j e h = ground (arith, first_timing_cases b d e)

pub rotated_at :
    (b : Bytes) (o : Option ℕ) (j : ℕ)
    → first_timing b ≡ o
    → (j < 127) ⊎ (128 ≤ j)
    → (rotated b).at j ≡ b.at (place o j)
rotated_at b o j e h = rw e (ground (arith, at-rotated o b j e))

rotated_twice_at :
    (b : Bytes) (o : Option ℕ) (j : ℕ)
    → first_timing b ≡ o
    → (j < 127) ⊎ (128 ≤ j)
    → (rotated (rotated b)).at j ≡ b.at j
rotated_twice_at b o j e h =
    rotated_at (rotated b) o j (first_timing-rotated b ∙ e) h
    ∙ rotated_at b o (place o j) e (elim h [
      | inl before ↦ inl (place-before o b j e before)
      | inr behind ↦ inr (omega (arith, place-behind o b j e (omega arith)))
    ])
    ∙ ap b.at (place-place o b j e)

-- Before the checksum is set again, it covers the bytes that it covered at first.
rotated_twice_checksum :
    (b : Bytes)
    → validate_block_checksum 0 b ≡ true
    → b.at 127 < 256
    → (rotated (rotated b)).at 127 ≡ b.at 127
rotated_twice_checksum b valid byte =
    let b₁ = rotated b in
    let b₂ = swapped_at (first_timing b₁) (turned b₁) in
    let same : sum_bytes b₂.at 0 127 ≡ sum_bytes b.at 0 127 = sum_bytes_ext b₂.at b.at 0 127 (λ j h.
      let e : (rotated b₁).at j ≡ b.at j = rotated_twice_at b (first_timing b) j refl (inl h) in
      ground (arith, e)) in
    ap (λ s. u8 (256 - s)) same ∙ checksum_unique 0 b valid byte

-- For an EDID of at least 128 bytes whose base block has a valid checksum, rotating twice gives the
-- EDID back, byte for byte.
pub rotate-rotate :
    (b : Bytes)
    → 128 ≤ b.size
    → validate_block_checksum 0 b ≡ true
    → b.at 127 < 256
    → (b' : Bytes) × ((rotate b >>= rotate) ≡ some b')
      × (b'.size ≡ b.size)
      × ((j : ℕ) → b'.at j ≡ b.at j)
rotate-rotate b enough valid byte =
    let size : (rotated b).size ≡ b.size = size-swapped_at (first_timing b) (turned b) in
    (
      rotated (rotated b),
      rw (rotate-some b enough) (rotate-some (rotated b) (omega (arith, size))),
      size-swapped_at (first_timing (rotated b)) (turned (rotated b)) ∙ size,
      λ j. elim (Bool-cases (j == 127)) [
        | inl here ↦
            let e : 127 ≡ j = ground arith in
            subst (λ i. (rotated (rotated b)).at i ≡ b.at i) e (rotated_twice_checksum b valid byte)
        | inr other ↦ rotated_twice_at b (first_timing b) j refl (ground arith)
      ],
    )

-- ===== src/Edid/Extensions.antt =====
-- The loops over the data blocks and over the extension blocks in PatchEdid stay inside the EDID
-- (src/edid.cpp).
use cloud_desktop.Prelude.{
  ℕ, zero, suc, ◌+◌, ◌≤◌, ◌≡◌, refl, Bool, true, not, ◌||◌, ◌==◌, ltb, leb, Option, some, List,
  length, ◌⊎◌, inl, inr, ◌∙◌, subst, sym, arith, u8, Bool-cases,
}
use cloud_desktop.Edid.{Bytes, peek, get_bit_range}
use cloud_desktop.Edid.Metadata.{patch_block, walk}
use cloud_desktop.Edid.Written.{Carried, write_all-Holds}
use cloud_desktop.Edid.Confined.{Within, Within-refl, Within-trans, Within-widen}

-- What a step of the loop over the data blocks leaves: either all is as it was, or metadata was found
-- and stands between `low` and `high`.
abbrev pub Patched : List ℕ → ℕ → ℕ → Bool × Bytes → Option (Bool × Bytes) → Type 0
Patched metadata low high (found, b) r =
    (s : Bool × Bytes) × (r ≡ some s)
    × Within low high b s.1
    × ((s ≡ (found, b)) ⊎ ((s.0 ≡ true) × Carried metadata low high s.1))

Patched-refl :
    (metadata : List ℕ) (low high : ℕ) (s : Bool × Bytes) → Patched metadata low high s (some s)
Patched-refl metadata low high (found, b) = ((found, b), refl, Within-refl low high b, inl refl)

patch_block-Patched :
    (low high at header : ℕ) (metadata : List ℕ) (found : Bool) (b : Bytes)
    → length metadata ≡ 5
    → low ≤ at
    → at + 7 ≤ high
    → high ≤ b.size
    → Patched metadata low high (found, b) (patch_block metadata at header (found, b))
unfolding patch_block peek
patch_block-Patched low high at header metadata found b five l h s =
    let unchanged = Patched-refl metadata low high (found, b) in
    let inside : ltb (at + 1) b.size ≡ true = ground arith in
    elim (Bool-cases (get_bit_range header 7 5 == 7)) [
      | inr plain ↦ rw plain unchanged
      | inl extended ↦
          elim (Bool-cases
            (not (b.at (at + 1) == 6) || ltb (u8 (get_bit_range header 4 0 + 255)) 5)) [
              | inl other ↦ rw (extended, inside, other) unchanged
              | inr static ↦
                  let (b', e, w, held) =
                    write_all-Holds (at + 2) metadata b (omega (arith, five)) in
                  let tag : b.at (at + 1) ≡ 6 = ground arith in
                  let wide =
                    Within-widen (at + 2) (at + 2 + length metadata) low high b b' (omega arith)
                      (omega (arith, five)) w in
                  let carried : Carried metadata low high b' =
                    (at, l, h, (w.same_at (at + 1) (inl (omega arith)) ∙ tag, held)) in
                  rw (extended, inside, static, e) ((true, b'), refl, wide, inr (refl, carried))
            ]
    ]

-- What the second of two steps leaves counts from the first one on.
Patched-trans :
    (metadata : List ℕ) (low high : ℕ) (s s₁ s₂ : Bool × Bytes)
    → (s₁ ≡ s) ⊎ ((s₁.0 ≡ true) × Carried metadata low high s₁.1)
    → (s₂ ≡ s₁) ⊎ ((s₂.0 ≡ true) × Carried metadata low high s₂.1)
    → (s₂ ≡ s) ⊎ ((s₂.0 ≡ true) × Carried metadata low high s₂.1)
Patched-trans metadata low high s s₁ s₂ first (inr written) = inr written
Patched-trans metadata low high s s₁ s₂ (inl same) (inl same') = inl (same' ∙ same)
Patched-trans metadata low high s s₁ s₂ (inr written) (inl same') =
    inr (
      subst (λ (t : Bool × Bytes). (t.0 ≡ true) × Carried metadata low high t.1) (sym same')
        written)

-- `fuel` is enough where it is at least the way left to `dtd_start`.
pub walk-Patched :
    (metadata : List ℕ) (ext dtd fuel j : ℕ) (found : Bool) (b : Bytes)
    → length metadata ≡ 5
    → 4 ≤ j
    → dtd ≤ 114
    → dtd ≤ j + fuel
    → ext + 128 ≤ b.size
    → Patched metadata
        (ext + 4)
        (ext + 127)
        (found, b)
        (walk metadata ext dtd (suc fuel) j (found, b))
unfolding walk peek
walk-Patched metadata ext dtd zero j found b five from d enough s =
    let over : leb dtd j ≡ true = ground arith in rw over (Patched-refl metadata _ _ (found, b))
walk-Patched metadata ext dtd (suc fuel) j found b five from d enough s =
    let unchanged = Patched-refl metadata (ext + 4) (ext + 127) (found, b) in
    elim (Bool-cases (leb dtd j)) [
      | inl over ↦ rw over unchanged
      | inr more ↦
          let inside : ltb (ext + j) b.size ≡ true = ground arith in
          let size = get_bit_range (b.at (ext + j)) 4 0 in
          elim (Bool-cases (ltb dtd (j + 1 + size))) [
            | inl malformed ↦ rw (more, inside, malformed) unchanged
            | inr fits ↦
                let ((found₁, b₁), e, w, c) =
                  patch_block-Patched (ext + 4) (ext + 127) (ext + j) (b.at (ext + j)) metadata
                    found b five (omega arith) (ground arith) (omega arith) in
                let ((found₂, b₂), e', w', c') =
                  walk-Patched metadata ext dtd fuel (j + (1 + size)) found₁ b₁ five (omega arith) d
                    (omega arith) (omega (arith, w.same_size)) in
                rw (more, inside, fits, e, e')
                  (
                    (found₂, b₂),
                    refl,
                    Within-trans _ _ b b₁ b₂ w w',
                    Patched-trans metadata _ _ (found, b) (found₁, b₁) (found₂, b₂) c c',
                  )
          ]
    ]

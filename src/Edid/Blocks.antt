-- ===== src/Edid/Blocks.antt =====
-- PatchEdid in one extension block (src/edid.cpp).
use cloud_desktop.Prelude.{
  ℕ, ◌+◌, ◌≤◌, ◌≡◌, ◌∙◌, refl, sym, ap, subst, Bool, true, false, not, ◌||◌, ◌&&◌, ◌==◌, ltb, leb,
  some, List, length, ◌⊎◌, inl, inr, if◌then◌else◌, arith, Bool-cases,
}
use cloud_desktop.Edid.{Bytes, peek, validate_block_checksum}
use cloud_desktop.Edid.Checksum.{checksummed, patch_edid_checksum-some, validate-checksummed}
use cloud_desktop.Edid.Metadata.{insert_block, patch_cta, patch_extension}
use cloud_desktop.Edid.Confined.{Within, Within-refl, Within-trans, Within-widen}
use cloud_desktop.Edid.Written.{Carried, Carried-same, Leaves, insert_block-Carries}
use cloud_desktop.Edid.Extensions.{walk-Patched}

-- Metadata is inserted where none was found.
insert_if :
    (found : Bool) (metadata : List ℕ) (ext dtd : ℕ) (b : Bytes)
    → length metadata ≡ 5
    → 4 ≤ dtd
    → dtd ≤ 114
    → ext + 128 ≤ b.size
    → Leaves
        (λ b'. ((found ≡ true) × (b' ≡ b)) ⊎ Carried metadata (ext + 4) (ext + 127) b')
        (ext + 4)
        (ext + 128)
        b
        (if found then some b else insert_block metadata (ext + dtd) b)
insert_if true metadata ext dtd b five from d s = (b, refl, Within-refl _ _ b, inl (refl, refl))
insert_if false metadata ext dtd b five from d s =
    let (b', e, w, c) =
      insert_block-Carries (ext + 4) (ext + 128) (ext + dtd) metadata b five (omega arith)
        (omega arith) (omega arith) in
    (b', e, w, inr (ext + dtd, omega arith, omega arith, c))

-- What PatchEdid leaves of a block whose metadata it patches; `found` tells whether it has found
-- metadata before.
pub record Summed (metadata : List ℕ) (ext : ℕ) (found : Bool) (b b' : Bytes) : Type 0 where
  pub within : Within (ext + 4) (ext + 128) b b'
  pub valid : validate_block_checksum ext b' ≡ true
  pub carried : (found ≡ true) ⊎ Carried metadata (ext + 4) (ext + 127) b'

-- The checksum covers a block whose header stays.
Summed-checksummed :
    (metadata : List ℕ) (ext : ℕ) (found : Bool) (b b' : Bytes)
    → length metadata ≡ 5
    → Within (ext + 4) (ext + 128) b b'
    → (found ≡ true) ⊎ Carried metadata (ext + 4) (ext + 127) b'
    → Summed metadata ext found b (checksummed ext b')
Summed-checksummed metadata ext found b b' five w c =
    let sum : Within (ext + 127) (ext + 128) b' (checksummed ext b') = record {
      same_size = refl;
      same_at = λ i h. ground arith;
    } in
    record {
      within = Within-trans _ _ b b' (checksummed ext b') w (
          Within-widen (ext + 127) (ext + 128) (ext + 4) (ext + 128) b' (checksummed ext b')
            (omega arith) (omega arith) sum);
      valid = validate-checksummed ext b';
      carried = elim c [
        | inl before ↦ inl before
        | inr carried ↦ inr (
            Carried-same metadata (ext + 4) (ext + 127) b' (checksummed ext b') five
              (λ j l h. sum.same_at j (inl h)) carried)
      ];
    }

-- Where the metadata is once it was inserted, if it was not found.
inserted-Carried :
    (metadata : List ℕ) (low high : ℕ) (s s₁ : Bool × Bytes) (b₂ : Bytes)
    → (s₁ ≡ s) ⊎ ((s₁.0 ≡ true) × Carried metadata low high s₁.1)
    → ((s₁.0 ≡ true) × (b₂ ≡ s₁.1)) ⊎ Carried metadata low high b₂
    → (s.0 ≡ true) ⊎ Carried metadata low high b₂
inserted-Carried metadata low high s s₁ b₂ c (inr inserted) = inr inserted
inserted-Carried metadata low high s s₁ b₂ (inl same) (inl (given, unchanged)) =
    inl (sym (ap (λ (s : Bool × Bytes). s.0) same) ∙ given)
inserted-Carried metadata low high s s₁ b₂ (inr (given', carried)) (inl (given, unchanged)) =
    inr (subst (Carried metadata low high) (sym unchanged) carried)

patch_cta-Summed :
    (metadata : List ℕ) (ext dtd : ℕ) (found : Bool) (b : Bytes)
    → length metadata ≡ 5
    → 4 ≤ dtd
    → dtd ≤ 114
    → ext + 128 ≤ b.size
    → (s : Bool × Bytes) × (patch_cta metadata ext dtd (found, b) ≡ some s)
      × Summed metadata ext found b s.1
unfolding patch_cta
patch_cta-Summed metadata ext dtd found b five from d s =
    let ((found₁, b₁), e, w, c) =
      walk-Patched metadata ext dtd dtd 4 found b five (omega arith) d (omega arith) s in
    let (b₂, e', w', c') =
      insert_if found₁ metadata ext dtd b₁ five from d (omega (arith, w.same_size)) in
    let written = patch_edid_checksum-some ext b₂ (omega (arith, w.same_size, w'.same_size)) in
    let wide =
      Within-widen (ext + 4) (ext + 127) (ext + 4) (ext + 128) b b₁ (omega arith) (omega arith) w in
    let done =
      Summed-checksummed metadata ext found b b₂ five (Within-trans _ _ b b₁ b₂ wide w')
        (inserted-Carried metadata (ext + 4) (ext + 127) (found, b) (found₁, b₁) b₂ c c') in
    ((found₁, checksummed ext b₂), rw (e, e', written) refl, done)

-- An extension block that PatchEdid goes into.
unfoldable pub is_handled : ℕ → ℕ → Bytes → Bool
is_handled cea ext b = (b.at ext == cea) && not ((b.at (ext + 2) == 0) || not (b.at (ext + 3) == 0))

-- A block that PatchEdid does not go into stays as it is.
pub patch_extension-Summed :
    (cea : ℕ) (metadata : List ℕ) (ext : ℕ) (found : Bool) (b : Bytes)
    → length metadata ≡ 5
    → not (is_handled cea ext b) || (leb 4 (b.at (ext + 2)) && leb (b.at (ext + 2)) 114) ≡ true
    → ext + 128 ≤ b.size
    → (s : Bool × Bytes) × (patch_extension cea metadata ext (found, b) ≡ some s)
      × (((is_handled cea ext b ≡ false) × (s ≡ (found, b)))
          ⊎ ((is_handled cea ext b ≡ true) × Summed metadata ext found b s.1))
unfolding patch_extension peek is_handled
patch_extension-Summed cea metadata ext found b five starts s =
    let inside₀ : ltb ext b.size ≡ true = ground arith in
    let inside₂ : ltb (ext + 2) b.size ≡ true = ground arith in
    let inside₃ : ltb (ext + 3) b.size ≡ true = ground arith in
    elim (Bool-cases (b.at ext == cea)) [
      | inr other ↦ rw (inside₀, other) ((found, b), refl, inl (refl, refl))
      | inl cta ↦ elim (Bool-cases ((b.at (ext + 2) == 0) || not (b.at (ext + 3) == 0))) [
        | inl skipped ↦
            rw (inside₀, inside₂, inside₃, cta, skipped) ((found, b), refl, inl (refl, refl))
        | inr handled ↦
            let (s', e, done) =
              patch_cta-Summed metadata ext (b.at (ext + 2)) found b five (ground arith)
                (ground arith) s in
            rw (inside₀, inside₂, inside₃, cta, handled) (s', e, inr (refl, done))
      ]
    ]

-- ===== src/Edid/Loop.antt =====
-- What the loop over the extension blocks in PatchEdid keeps (src/edid.cpp).
use cloud_desktop.Prelude.{
  ℕ, zero, suc, ◌+◌, ◌*◌, ◌≤◌, ◌≡◌, ◌∙◌, refl, sym, subst, Bool, true, false, some, List, length,
  ◌⊎◌, inl, inr, arith,
}
use cloud_desktop.Edid.{Bytes}
use cloud_desktop.Edid.Metadata.{patch_extensions}
use cloud_desktop.Edid.Effect.{
  Extended, all_extensions, has_room, is_handled-same, both_ways, Extended-skipped,
  Extended-patched,
}
use cloud_desktop.Edid.Written.{Carried, Carried-same, Carried-widen}
use cloud_desktop.Edid.Blocks.{Summed, is_handled, patch_extension-Summed}

-- What holds between two blocks: where metadata was found it stands in a block before.
abbrev pub IsFound : List ℕ → ℕ → Bool × Bytes → Type 0
IsFound metadata n s = s.0 ≡ true → Carried metadata 132 (128 + n * 128) s.1

-- One more block.
Extended-suc :
    (cea : ℕ) (metadata : List ℕ) (n : ℕ) (b : Bytes) (s₁ s₂ : Bool × Bytes)
    → length metadata ≡ 5
    → Extended cea metadata n b s₁.1
    → IsFound metadata n s₁
    → is_handled cea (128 + n * 128) s₁.1 ≡ is_handled cea (128 + n * 128) b
    → ((is_handled cea (128 + n * 128) s₁.1 ≡ false) × (s₂ ≡ s₁))
      ⊎ ((is_handled cea (128 + n * 128) s₁.1 ≡ true)
          × Summed metadata (128 + n * 128) s₁.0 s₁.1 s₂.1)
    → Extended cea metadata (suc n) b s₂.1 × IsFound metadata (suc n) s₂
Extended-suc cea metadata n b s₁ s₂ five x found same (inl (other, unchanged)) =
    let next : Extended cea metadata (suc n) b s₁.1 × IsFound metadata (suc n) s₁ = (
      Extended-skipped cea metadata n b s₁.1 (sym same ∙ other) x,
      λ h.
          Carried-widen metadata 132 (128 + n * 128) 132 (128 + suc n * 128) s₁.1 (omega arith)
            (omega arith) (found h),
    ) in
    subst (λ (s : Bool × Bytes). Extended cea metadata (suc n) b s.1 × IsFound metadata (suc n) s)
      (sym unchanged) next
Extended-suc cea metadata n b s₁ s₂ five x found same (inr (handled, done)) =
    let ext = 128 + n * 128 in
    let w = done.within in
    let carried : Carried metadata 132 (128 + suc n * 128) s₂.1 = elim (done.carried) [
      | inl before ↦
          Carried-widen metadata 132 ext 132 (128 + suc n * 128) s₂.1 (omega arith) (omega arith) (
            Carried-same metadata 132 ext s₁.1 s₂.1 five (λ j l h. w.same_at j (inl (omega arith)))
              (found before))
      | inr here ↦
          Carried-widen metadata (ext + 4) (ext + 127) 132 (128 + suc n * 128) s₂.1 (omega arith)
            (omega arith) here
    ] in
    (
      Extended-patched cea metadata n b s₁.1 s₂.1 five x w (sym same ∙ handled) done.valid carried,
      λ h. carried,
    )

pub patch_extensions-Extended :
    (cea : ℕ) (metadata : List ℕ) (n : ℕ) (b : Bytes)
    → length metadata ≡ 5
    → 128 + n * 128 ≤ b.size
    → all_extensions (has_room cea b) n ≡ true
    → (s : Bool × Bytes) × (patch_extensions cea metadata n (false, b) ≡ some s)
      × Extended cea metadata n b s.1
      × IsFound metadata n s
unfolding patch_extensions all_extensions has_room
patch_extensions-Extended cea metadata zero b five enough room = (
  (false, b),
  refl,
  record {
    same_size = refl;
    same_at = λ i h. refl;
    headers = λ k i h l. refl;
    others = λ k i h l o. refl;
    summed = refl;
    written = λ k h l. both_ways (ground arith);
  },
  λ h. both_ways (sym h),
)
patch_extensions-Extended cea metadata (suc n) b five enough room =
    let ((found₁, b₁), e₁, x₁, f₁) =
      patch_extensions-Extended cea metadata n b five (omega arith) (ground arith) in
    let ext = 128 + n * 128 in
    let same : is_handled cea ext b₁ ≡ is_handled cea ext b =
      is_handled-same cea ext b b₁ (λ i h. x₁.same_at i (inr h)) in
    let start : b₁.at (ext + 2) ≡ b.at (ext + 2) = x₁.same_at (ext + 2) (inr (omega arith)) in
    let (s₂, e₂, done) =
      patch_extension-Summed cea metadata ext found₁ b₁ five (rw (same, start) (ground arith))
        (omega (arith, x₁.same_size)) in
    let (x₂, f₂) = Extended-suc cea metadata n b (found₁, b₁) s₂ five x₁ f₁ same done in
    (s₂, rw e₁ e₂, x₂, f₂)

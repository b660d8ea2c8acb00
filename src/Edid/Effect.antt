-- ===== src/Edid/Effect.antt =====
-- What one more extension block adds to what PatchEdid has done (src/edid.cpp).
use cloud_desktop.Prelude.{
  ℕ, zero, suc, ◌+◌, ◌*◌, ◌<◌, ◌≤◌, ◌≡◌, ◌∙◌, refl, sym, ap, Bool-cases, Bool, true, false, not,
  ◌||◌, ◌&&◌, ltb, leb, List, length, ◌⊎◌, inl, inr, arith,
}
use cloud_desktop.Edid.{Bytes, validate_block_checksum}
use cloud_desktop.Edid.Checksum.{sum_bytes_ext}
use cloud_desktop.Edid.Confined.{Within}
use cloud_desktop.Edid.Written.{Carried, Carried-widen}
use cloud_desktop.Edid.Blocks.{is_handled}

-- The test holds of the first `n` extension blocks, which are given by where they begin.
unfoldable pub all_extensions : (ℕ → Bool) → ℕ → Bool
all_extensions test zero = true
all_extensions test (suc n) = all_extensions test n && test (128 + n * 128)

-- The detailed timings of a block that is patched begin behind its header and leave 14 bytes.
unfoldable pub has_room : ℕ → Bytes → ℕ → Bool
unfolding is_handled
has_room cea b ext =
    not (is_handled cea ext b) || (leb 4 (b.at (ext + 2)) && leb (b.at (ext + 2)) 114)

-- In `b'` the block that PatchEdid goes into in `b` has a valid checksum.
unfoldable pub is_summed : ℕ → Bytes → Bytes → ℕ → Bool
unfolding is_handled
is_summed cea b b' ext = not (is_handled cea ext b) || validate_block_checksum ext b'

pub all_extensions_ext :
    (s t : ℕ → Bool) (n : ℕ)
    → ((k : ℕ) → k < n → s (128 + k * 128) ≡ t (128 + k * 128))
    → all_extensions s n ≡ all_extensions t n
unfolding all_extensions
all_extensions_ext s t zero same = refl
all_extensions_ext s t (suc n) same =
    rw (all_extensions_ext s t n (λ k h. same k (omega arith)), same n (omega arith)) refl

validate-same :
    (ext : ℕ) (b b' : Bytes)
    → ((i : ℕ) → i < ext + 128 → b'.at i ≡ b.at i)
    → validate_block_checksum ext b' ≡ validate_block_checksum ext b
unfolding validate_block_checksum
validate-same ext b b' same = rw (sum_bytes_ext b'.at b.at ext 128 same) refl

pub is_handled-same :
    (cea ext : ℕ) (b b' : Bytes)
    → ((i : ℕ) → ext ≤ i → b'.at i ≡ b.at i)
    → is_handled cea ext b' ≡ is_handled cea ext b
unfolding is_handled
is_handled-same cea ext b b' same =
    rw (same ext (omega arith), same (ext + 2) (omega arith), same (ext + 3) (omega arith)) refl

pub has_room-same :
    (cea ext : ℕ) (b b' : Bytes)
    → ((i : ℕ) → ext ≤ i → b'.at i ≡ b.at i)
    → has_room cea b' ext ≡ has_room cea b ext
unfolding has_room
has_room-same cea ext b b' same =
    rw (is_handled-same cea ext b b' same, same (ext + 2) (omega arith)) refl

-- What the loop over the first `n` extension blocks makes of `b`.
pub record Extended (cea : ℕ) (metadata : List ℕ) (n : ℕ) (b b' : Bytes) : Type 0 where
  pub same_size : b'.size ≡ b.size
  pub same_at : (i : ℕ) → (i < 128) ⊎ (128 + n * 128 ≤ i) → b'.at i ≡ b.at i
  pub headers : (k i : ℕ) → k < n → i < 4 → b'.at (128 + k * 128 + i) ≡ b.at (128 + k * 128 + i)
  pub others :
      (k i : ℕ)
      → k < n
      → i < 128
      → is_handled cea (128 + k * 128) b ≡ false
      → b'.at (128 + k * 128 + i) ≡ b.at (128 + k * 128 + i)
  pub summed : all_extensions (is_summed cea b b') n ≡ true
  pub written :
      (k : ℕ)
      → k < n
      → is_handled cea (128 + k * 128) b ≡ true
      → Carried metadata 132 (128 + n * 128) b'

earlier_or_this : (k n : ℕ) → k < suc n → (k < n) ⊎ (k ≡ n)
earlier_or_this k n h = elim (Bool-cases (ltb k n)) [
  | inl before ↦ inl (ground arith)
  | inr this ↦ inr (ground arith)
]

pub both_ways : {A : Type 0} → true ≡ false → A
both_ways e = ground arith

-- A block that stays as it is.
pub Extended-skipped :
    (cea : ℕ) (metadata : List ℕ) (n : ℕ) (b b₁ : Bytes)
    → is_handled cea (128 + n * 128) b ≡ false
    → Extended cea metadata n b b₁
    → Extended cea metadata (suc n) b b₁
unfolding all_extensions is_summed
Extended-skipped cea metadata n b b₁ other x = record {
  same_size = x.same_size;
  same_at = λ i h. elim h [
    | inl before ↦ x.same_at i (inl before)
    | inr behind ↦ x.same_at i (inr (omega arith))
  ];
  headers = λ k i h l. elim (earlier_or_this k n h) [
    | inl before ↦ x.headers k i before l
    | inr this ↦ x.same_at (128 + k * 128 + i) (inr (omega arith))
  ];
  others = λ k i h l o. elim (earlier_or_this k n h) [
    | inl before ↦ x.others k i before l o
    | inr this ↦ x.same_at (128 + k * 128 + i) (inr (omega arith))
  ];
  summed = rw (x.summed, other) refl;
  written = λ k h handled. elim (earlier_or_this k n h) [
    | inl before ↦
        Carried-widen metadata 132 (128 + n * 128) 132 (128 + suc n * 128) b₁ (omega arith)
          (omega arith) (x.written k before handled)
    | inr this ↦ both_ways (sym handled ∙ ap (λ m. is_handled cea (128 + m * 128) b) this ∙ other)
  ];
}

-- A block that is patched.
pub Extended-patched :
    (cea : ℕ) (metadata : List ℕ) (n : ℕ) (b b₁ b₂ : Bytes)
    → length metadata ≡ 5
    → Extended cea metadata n b b₁
    → Within (128 + n * 128 + 4) (128 + n * 128 + 128) b₁ b₂
    → is_handled cea (128 + n * 128) b ≡ true
    → validate_block_checksum (128 + n * 128) b₂ ≡ true
    → Carried metadata 132 (128 + suc n * 128) b₂
    → Extended cea metadata (suc n) b b₂
unfolding all_extensions is_summed
Extended-patched cea metadata n b b₁ b₂ five x w handled valid carried =
    let earlier : (k : ℕ)
        → k < n
        → is_summed cea b b₂ (128 + k * 128) ≡ is_summed cea b b₁ (128 + k * 128) =
      λ k h.
        rw (validate-same (128 + k * 128) b₁ b₂ (λ i l. w.same_at i (inl (omega arith)))) refl in
    record {
      same_size = w.same_size ∙ x.same_size;
      same_at = λ i h. elim h [
        | inl before ↦ w.same_at i (inl (omega arith)) ∙ x.same_at i (inl before)
        | inr behind ↦ w.same_at i (inr (omega arith)) ∙ x.same_at i (inr (omega arith))
      ];
      headers = λ k i h l.
          w.same_at (128 + k * 128 + i) (inl (omega arith)) ∙ (elim (earlier_or_this k n h) [
            | inl before ↦ x.headers k i before l
            | inr this ↦ x.same_at (128 + k * 128 + i) (inr (omega arith))
          ]);
      others = λ k i h l o. elim (earlier_or_this k n h) [
        | inl before ↦ w.same_at (128 + k * 128 + i) (inl (omega arith)) ∙ x.others k i before l o
        | inr this ↦
            both_ways (sym handled ∙ ap (λ m. is_handled cea (128 + m * 128) b) (sym this) ∙ o)
      ];
      summed =
          rw
            (
              all_extensions_ext (is_summed cea b b₂) (is_summed cea b b₁) n earlier,
              x.summed,
              handled,
              valid,
            )
            refl;
      written = λ k h l. carried;
    }

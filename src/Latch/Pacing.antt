-- ===== src/Latch/Pacing.antt =====
-- How steamcompmgr_should_vblank_window paces windows without VRR (src/steamcompmgr.cpp).
use cloud_desktop.Prelude.{
  ℕ, ◌+◌, ◌-◌, ◌*◌, ◌/◌, ◌%◌, ◌≤◌, ◌<◌, ◌≡◌, true, false, ◌==◌, ltb, arith, sym, ap, ◌∙◌, ◌⊎◌, inl,
  inr, Bool-cases,
}
use native.Mathlib.Nat.{
  mod-lt, mod_self, mod-eq_of_lt, mod-eq-sub-mod, mod-add-mod, add-mod-mod, div-mul-le_self,
  le-div_iff_mul-le,
}
use cloud_desktop.Latch.State.{Compositor}
use cloud_desktop.Latch.Vblank.{refresh_hz, should_vblank_fixed}

next_multiple : (idx n : ℕ) → 0 < n → (k : ℕ) × (k < n) × ((idx + k) % n ≡ 0)
next_multiple idx n h = (
  (n - idx % n) % n,
  mod-lt (n - idx % n) h,
  add-mod-mod idx (n - idx % n) n
      ∙ sym (mod-add-mod idx n (n - idx % n))
      ∙ ap (λ m. m % n) whole
      ∙ mod_self n,
)
  where
    whole : idx % n + (n - idx % n) ≡ n
    whole = omega (arith, mod-lt idx h)

residue : (r n j : ℕ) → r < n → j < n → (r + j) % n ≡ 0 → (r + j ≡ 0) ⊎ (r + j ≡ n)
residue r n j hr hj e = elim (Bool-cases (ltb (r + j) n)) [
  | inl small ↦ inl (sym (mod-eq_of_lt (ground arith)) ∙ e)
  | inr big ↦
      let le : n ≤ r + j = ground arith in
      let zero : r + j - n ≡ 0 = sym (mod-eq_of_lt (omega arith)) ∙ sym (mod-eq-sub-mod le) ∙ e in
      inr (omega arith)
]

same_multiple : (idx n j k : ℕ) → j < n → k < n → (idx + j) % n ≡ 0 → (idx + k) % n ≡ 0 → j ≡ k
same_multiple idx n j k hj hk ej ek = omega (
  arith,
  residue (idx % n) n j (mod-lt idx (omega arith)) hj (mod-add-mod idx n j ∙ ej),
  residue (idx % n) n k (mod-lt idx (omega arith)) hk (mod-add-mod idx n k ∙ ek),
)

limited :
    (c : Compositor) (idx : ℕ)
    → 0 < c.target_fps
    → c.target_fps < refresh_hz c
    → should_vblank_fixed c true idx ≡ (idx % (refresh_hz c / c.target_fps) == 0)
unfolding should_vblank_fixed
limited c idx l h = ground arith

-- One of `n` vblanks from `idx` on is the only one at which the window may draw, and they fit the
-- refresh rate as often as the target says.
pub record IsPaced (c : Compositor) (idx n : ℕ) : Type 0 where
  pub turn : ℕ
  pub soon : turn < n
  pub drawn : should_vblank_fixed c true (idx + turn) ≡ true
  pub fits : n * c.target_fps ≤ refresh_hz c
  pub only : (k : ℕ) → k < n → (k ≡ turn) ⊎ (should_vblank_fixed c true (idx + k) ≡ false)

-- Without VRR, a limited window with a target that is not 0 and below the refresh rate may draw at
-- exactly one of each n vblanks in a row, n being the rate over the target, rounded down.
pub should_vblank_fixed-IsPaced :
    (c : Compositor) (idx : ℕ)
    → 0 < c.target_fps
    → c.target_fps < refresh_hz c
    → IsPaced c idx (refresh_hz c / c.target_fps)
should_vblank_fixed-IsPaced c idx l h =
    let (k, soon, hit) = next_multiple idx n some_turns in
    record {
      turn = k;
      soon = soon;
      drawn = ground (arith, hit, limited c (idx + k) l h);
      fits = div-mul-le_self (refresh_hz c) c.target_fps;
      only = λ j small.
          ground (arith, hit, limited c (idx + j) l h, same_multiple idx n j k small soon);
    }
  where
    n : ℕ
    n = refresh_hz c / c.target_fps

    some_turns : 0 < refresh_hz c / c.target_fps
    some_turns = (le-div_iff_mul-le {x = 1} {y = refresh_hz c} l).1 (omega arith)

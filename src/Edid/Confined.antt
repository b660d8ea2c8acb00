-- ===== src/Edid/Confined.antt =====
-- Writing metadata into an extension block leaves all else as it is (src/edid.cpp).
use cloud_desktop.Prelude.{
  ℕ, zero, suc, ◌+◌, ◌-◌, ◌^◌, ◌<◌, ◌≤◌, ◌≡◌, ◌∙◌, refl, true, ltb, Option, some, List, [], ◌∷◌,
  length, ◌⊎◌, inl, inr, arith,
}
use cloud_desktop.Edid.{Bytes, peek, poke, update, set_bit_range, set_range_at}
use cloud_desktop.Edid.Metadata.{write_all, read_all, move_bytes}

-- The bytes that are not among the ones from `low` to `high` are the same.
pub record Within (low high : ℕ) (b b' : Bytes) : Type 0 where
  pub same_size : b'.size ≡ b.size
  pub same_at : (i : ℕ) → (i < low) ⊎ (high ≤ i) → b'.at i ≡ b.at i

pub Within-refl : (low high : ℕ) (b : Bytes) → Within low high b b
Within-refl low high b = record { same_size = refl; same_at = λ i h. refl }

pub Within-trans :
    (low high : ℕ) (a b c : Bytes) → Within low high a b → Within low high b c → Within low high a c
Within-trans low high a b c ab bc = record {
  same_size = bc.same_size ∙ ab.same_size;
  same_at = λ i h. bc.same_at i h ∙ ab.same_at i h;
}

pub Within-widen :
    (low high low' high' : ℕ) (b b' : Bytes)
    → low' ≤ low
    → high ≤ high'
    → Within low high b b'
    → Within low' high' b b'
Within-widen low high low' high' b b' l h w = record {
  same_size = w.same_size;
  same_at = λ i o. elim o [
    | inl before ↦ w.same_at i (inl (omega arith))
    | inr behind ↦ w.same_at i (inr (omega arith))
  ];
}

-- The operation succeeds, and only changes bytes from `low` to `high`.
abbrev pub Confined : ℕ → ℕ → Bytes → Option Bytes → Type 0
Confined low high b r = (b' : Bytes) × (r ≡ some b') × Within low high b b'

pub poke-Confined :
    (low high i v : ℕ) (b : Bytes)
    → low ≤ i
    → i < high
    → high ≤ b.size
    → Confined low high b (poke i v b)
unfolding poke
poke-Confined low high i v b l h s = (
  record b { at = update b.at i v },
  ground arith,
  record { same_size = refl; same_at = λ j o. ground arith },
)

pub write_all-Confined :
    (low high i : ℕ) (vs : List ℕ) (b : Bytes)
    → low ≤ i
    → i + length vs ≤ high
    → high ≤ b.size
    → Confined low high b (write_all i vs b)
unfolding write_all
write_all-Confined low high i [] b l h s = (b, refl, Within-refl low high b)
write_all-Confined low high i (v ∷ vs) b l h s =
    let (b₁, e₁, w₁) = poke-Confined low high i v b l (omega arith) s in
    let (b₂, e₂, w₂) =
      write_all-Confined low high (i + 1) vs b₁ (omega arith) (omega arith)
        (omega (arith, w₁.same_size)) in
    (b₂, rw e₁ e₂, Within-trans low high b b₁ b₂ w₁ w₂)

read_all-some :
    (i n : ℕ) (b : Bytes)
    → i + n ≤ b.size
    → (vs : List ℕ) × (read_all i n b ≡ some vs) × (length vs ≡ n)
unfolding read_all peek
read_all-some i zero b h = ([], refl, refl)
read_all-some i (suc n) b h =
    let (vs, e, l) = read_all-some (i + 1) n b (omega arith) in
    (b.at i ∷ vs, ground arith, omega (arith, l))

pub move_bytes-Confined :
    (low high to from n : ℕ) (b : Bytes)
    → low ≤ to
    → to + n ≤ high
    → from + n ≤ high
    → high ≤ b.size
    → Confined low high b (move_bytes to from n b)
unfolding move_bytes
move_bytes-Confined low high to from n b l h h' s =
    let (vs, e, len) = read_all-some from n b (omega arith) in
    rw e (write_all-Confined low high to vs b l (omega (arith, len)) s)

pub set_range_at-Confined :
    (low high i hi lo bits : ℕ) (b : Bytes)
    → bits < 2 ^ (hi - lo + 1)
    → low ≤ i
    → i < high
    → high ≤ b.size
    → Confined low high b (set_range_at i hi lo bits b)
unfolding set_range_at set_bit_range peek
set_range_at-Confined low high i hi lo bits b fits l h s =
    let inside : ltb i b.size ≡ true = ground arith in
    let fitting : ltb bits (2 ^ (hi - lo + 1)) ≡ true = ground arith in
    rw (inside, fitting) (poke-Confined low high i _ b l h s)

-- ===== src/Edid/Written.antt =====
-- Where the metadata is after it was written into an extension block (src/edid.cpp).
use cloud_desktop.Prelude.{
  ◌>>=◌, ℕ, suc, ◌+◌, ◌<◌, ◌≤◌, ◌≡◌, ◌∙◌, refl, Option, some, List, [], ◌∷◌, length, inl, arith,
}
use cloud_desktop.Edid.{Bytes, poke, update}
use cloud_desktop.Edid.Metadata.{write_all, insert_block}
use cloud_desktop.Edid.Confined.{
  Confined, Within, Within-refl, Within-trans, Within-widen, poke-Confined, set_range_at-Confined,
  move_bytes-Confined,
}

-- The bytes `vs` stand in `b` from `i` on.
unfoldable pub Holds : ℕ → List ℕ → Bytes → Type 0
Holds i [] b = Unit
Holds i (v ∷ vs) b = (b.at i ≡ v) × Holds (i + 1) vs b

-- The metadata stands behind the extended tag of static HDR metadata, in a data block at `p`.
abbrev pub Carries : List ℕ → ℕ → Bytes → Type 0
Carries metadata p b = (b.at (p + 1) ≡ 6) × Holds (p + 2) metadata b

-- Somewhere between `low` and `high` the metadata stands so.
abbrev pub Carried : List ℕ → ℕ → ℕ → Bytes → Type 0
Carried metadata low high b = (p : ℕ) × (low ≤ p) × (p + 7 ≤ high) × Carries metadata p b

Holds-same :
    (i : ℕ) (vs : List ℕ) (b b' : Bytes)
    → ((j : ℕ) → i ≤ j → j < i + length vs → b'.at j ≡ b.at j)
    → Holds i vs b
    → Holds i vs b'
unfolding Holds
Holds-same i [] b b' same h = tt
Holds-same i (v ∷ vs) b b' same (e, h) = (
  same i (omega arith) (omega arith) ∙ e,
  Holds-same (i + 1) vs b b' (λ j l u. same j (omega arith) (omega arith)) h,
)

pub Carried-same :
    (metadata : List ℕ) (low high : ℕ) (b b' : Bytes)
    → length metadata ≡ 5
    → ((j : ℕ) → low ≤ j → j < high → b'.at j ≡ b.at j)
    → Carried metadata low high b
    → Carried metadata low high b'
Carried-same metadata low high b b' five same (p, l, h, (tag, held)) = (
  p,
  l,
  h,
  (
    same (p + 1) (omega arith) (omega arith) ∙ tag,
    Holds-same (p + 2) metadata b b' (λ j l' u. same j (omega arith) (omega (arith, five))) held,
  ),
)

pub Carried-widen :
    (metadata : List ℕ) (low high low' high' : ℕ) (b : Bytes)
    → low' ≤ low
    → high ≤ high'
    → Carried metadata low high b
    → Carried metadata low' high' b
Carried-widen metadata low high low' high' b l h (p, l', h', c) = (p, omega arith, omega arith, c)

poke_lem :
    (i v : ℕ) (b : Bytes)
    → i < b.size
    → (b' : Bytes) × (poke i v b ≡ some b') × Within i (i + 1) b b' × (b'.at i ≡ v)
unfolding poke
poke_lem i v b h = (
  record b { at = update b.at i v },
  ground arith,
  record { same_size = refl; same_at = λ j o. ground arith },
  ground arith,
)

pub write_all-Holds :
    (i : ℕ) (vs : List ℕ) (b : Bytes)
    → i + length vs ≤ b.size
    → (b' : Bytes) × (write_all i vs b ≡ some b') × Within i (i + length vs) b b' × Holds i vs b'
unfolding write_all Holds
write_all-Holds i [] b s = (b, refl, Within-refl _ _ b, tt)
write_all-Holds i (v ∷ vs) b s =
    let (b₁, e₁, w₁, is_v) = poke_lem i v b (omega arith) in
    let (b₂, e₂, w₂, held) = write_all-Holds (i + 1) vs b₁ (omega (arith, w₁.same_size)) in
    let wide₁ =
      Within-widen i (i + 1) i (i + suc (length vs)) b b₁ (omega arith) (omega arith) w₁ in
    let wide₂ =
      Within-widen (i + 1) (i + 1 + length vs) i (i + suc (length vs)) b₁ b₂ (omega arith)
        (omega arith) w₂ in
    (
      b₂,
      rw e₁ e₂,
      Within-trans i (i + suc (length vs)) b b₁ b₂ wide₁ wide₂,
      (w₂.same_at i (inl (omega arith)) ∙ is_v, held),
    )

-- The operation succeeds, only changes bytes from `low` to `high`, and leaves what `Q` says.
abbrev pub Leaves : (Bytes → Type 0) → ℕ → ℕ → Bytes → Option Bytes → Type 0
Leaves Q low high b r = (b' : Bytes) × (r ≡ some b') × Within low high b b' × Q b'

Leaves-bind :
    (Q : Bytes → Type 0) (low high : ℕ) (b : Bytes) (r : Option Bytes) (f : Bytes → Option Bytes)
    → Confined low high b r
    → ((b' : Bytes) → b'.size ≡ b.size → Leaves Q low high b' (f b'))
    → Leaves Q low high b (r >>= f)
Leaves-bind Q low high b r f (b₁, e₁, w₁) next =
    let (b₂, e₂, w₂, q) = next b₁ w₁.same_size in
    (b₂, rw e₁ e₂, Within-trans low high b b₁ b₂ w₁ w₂, q)

tag_and_write :
    (low high p : ℕ) (metadata : List ℕ) (b : Bytes)
    → length metadata ≡ 5
    → low ≤ p
    → p + 7 ≤ high
    → high ≤ b.size
    → Leaves
        (Carries metadata p)
        low
        high
        b
        (poke (p + 1) 6 b >>= λ b'. write_all (p + 2) metadata b')
tag_and_write low high p metadata b five l h s =
    let (b₁, e₁, w₁, tag) = poke_lem (p + 1) 6 b (omega arith) in
    let (b₂, e₂, w₂, held) =
      write_all-Holds (p + 2) metadata b₁ (omega (arith, five, w₁.same_size)) in
    let wide₁ = Within-widen (p + 1) (p + 1 + 1) low high b b₁ (omega arith) (omega arith) w₁ in
    let wide₂ =
      Within-widen (p + 2) (p + 2 + length metadata) low high b₁ b₂ (omega arith)
        (omega (arith, five)) w₂ in
    (
      b₂,
      rw e₁ e₂,
      Within-trans low high b b₁ b₂ wide₁ wide₂,
      (w₂.same_at (p + 1) (inl (omega arith)) ∙ tag, held),
    )

pub insert_block-Carries :
    (low high dtd : ℕ) (metadata : List ℕ) (b : Bytes)
    → length metadata ≡ 5
    → low ≤ dtd
    → dtd + 14 ≤ high
    → high ≤ b.size
    → Leaves (Carries metadata dtd) low high b (insert_block metadata dtd b)
unfolding insert_block
insert_block-Carries low high dtd metadata b five l h s =
    let bind = Leaves-bind (Carries metadata dtd) low high in
    bind b _ _
      (move_bytes-Confined low high (dtd + 7) dtd 7 b (omega arith) (omega arith) (omega arith) s)
      λ b₁ s₁.
        bind b₁ _ _ (poke-Confined low high dtd 0 b₁ l (omega arith) (omega (arith, s₁))) λ b₂ s₂.
          bind b₂ _ _
            (set_range_at-Confined low high dtd 7 5 7 b₂ (omega arith) l (omega arith)
              (omega (arith, s₁, s₂)))
            λ b₃ s₃.
              bind b₃ _ _
                (set_range_at-Confined low high dtd 4 0 6 b₃ (omega arith) l (omega arith)
                  (omega (arith, s₁, s₂, s₃)))
                λ b₄ s₄.
                  tag_and_write low high dtd metadata b₄ five l (omega arith)
                    (omega (arith, s₁, s₂, s₃, s₄))

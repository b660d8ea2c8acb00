-- ===== src/Vulkan/Recycling.antt =====
-- Recycling command buffers (src/rendervulkan.cpp): the map of the pending ones stays in order, and
-- no buffer gets lost or doubled.
use cloud_desktop.Prelude.{
  ℕ, ◌+◌, ◌≤◌, ◌<◌, ◌≡◌, refl, Bool, true, false, not, ◌&&◌, ◌||◌, ◌==◌, ltb, leb, some, List, [],
  ◌∷◌, Bool-cases, inl, inr, arith, subst,
}
use cloud_desktop.Vulkan.Images.{CmdBuffer}
use cloud_desktop.Vulkan.Record.{reset}
use cloud_desktop.Vulkan.Device.{
  Device, emplace_pending, has_pending, reset_loop, first_key, reset_cmd_buffers,
}

-- The sequence numbers are above `low`, at most `high`, and each is above the ones before it.
abbrev pub Ascending : ℕ → ℕ → List (ℕ × CmdBuffer) → Type 0
Ascending low high [] = low ≤ high
Ascending low high ((k, b) ∷ ps) = (low < k) × Ascending k high ps

-- How often a handle occurs.
abbrev pub one_if : Bool → ℕ
one_if true = 1
one_if false = 0

unfoldable pub count : ℕ → List CmdBuffer → ℕ
count h [] = 0
count h (b ∷ bs) = one_if (b.raw_buffer == h) + count h bs

unfoldable pub count_pending : ℕ → List (ℕ × CmdBuffer) → ℕ
count_pending h [] = 0
count_pending h ((k, b) ∷ ps) = one_if (b.raw_buffer == h) + count_pending h ps

-- The handle is pending under the sequence number.
unfoldable pub is_pending : ℕ → ℕ → List (ℕ × CmdBuffer) → Bool
is_pending seq h [] = false
is_pending seq h ((k, b) ∷ ps) = (k == seq && b.raw_buffer == h) || is_pending seq h ps

-- What recycling up to `seq` makes of the free and the pending buffers.
pub record Recycled (seq high : ℕ) (us us' : List CmdBuffer) (ps ps' : List (ℕ × CmdBuffer))
    : Type 0 where
  pub later : Ascending seq high ps'
  pub same_count : (h : ℕ) → count h us' + count_pending h ps' ≡ count h us + count_pending h ps
  pub kept : (k h : ℕ) → leb k seq || not (is_pending k h ps) || is_pending k h ps' ≡ true

has_pending_above :
    (low high seq : ℕ) (ps : List (ℕ × CmdBuffer))
    → Ascending low high ps
    → has_pending seq ps ≡ true
    → low < seq
unfolding has_pending
has_pending_above low high seq [] a h = absurd (ground arith)
has_pending_above low high seq ((k, b) ∷ ps) (l, a) h = elim (Bool-cases (k == seq)) [
  | inl here ↦ ground arith
  | inr there ↦
      let later : k < seq = has_pending_above k high seq ps a (ground arith) in omega arith
]

raw_buffer-reset : (b : CmdBuffer) → (reset b).raw_buffer ≡ b.raw_buffer
unfolding reset
raw_buffer-reset b = refl

pub reset_loop-Recycled :
    (low high seq : ℕ) (ps : List (ℕ × CmdBuffer)) (us : List CmdBuffer)
    → Ascending low high ps
    → has_pending seq ps ≡ true
    → (us' : List CmdBuffer) × (ps' : List (ℕ × CmdBuffer)) × (reset_loop seq ps us
        ≡ some (us', ps'))
      × Recycled seq high us us' ps ps'
unfolding reset_loop has_pending count count_pending is_pending
reset_loop-Recycled low high seq [] us a h = absurd (ground arith)
reset_loop-Recycled low high seq ((k, b) ∷ ps) us (l, a) h = elim (Bool-cases (k == seq)) [
  | inl here ↦
      let e : k ≡ seq = ground arith in
      (
        reset b ∷ us,
        ps,
        rw here refl,
        record {
          later = subst (λ n. Ascending n high ps) e a;
          same_count = λ g. ground (arith, raw_buffer-reset b);
          kept = λ j g. ground arith;
        },
      )
  | inr there ↦
      let (us', ps', e, x) = reset_loop-Recycled k high seq ps (reset b ∷ us) a (ground arith) in
      let before = has_pending_above k high seq ps a (ground arith) in
      (
        us',
        ps',
        rw there e,
        record {
          later = x.later;
          same_count = λ g. ground (arith, x.same_count g, raw_buffer-reset b);
          kept = λ j g. ground (arith, x.kept j g);
        },
      )
]

first_key_below :
    (low high seq : ℕ) (ps : List (ℕ × CmdBuffer))
    → Ascending low high ps
    → has_pending seq ps ≡ true
    → ltb seq (first_key ps) ≡ false
unfolding has_pending
first_key_below low high seq [] a h = absurd (ground arith)
first_key_below low high seq ((k, b) ∷ ps) (l, a) h = elim (Bool-cases (k == seq)) [
  | inl here ↦ ground arith
  | inr there ↦
      let later : k < seq = has_pending_above k high seq ps a (ground arith) in ground arith
]

-- Where the sequence number is pending, its buffer and all earlier ones become free, and the checks
-- on the way hold.
pub reset_cmd_buffers-Recycled :
    (high seq : ℕ) (d : Device)
    → Ascending 0 high d.pending
    → has_pending seq d.pending ≡ true
    → (us : List CmdBuffer) × (ps : List (ℕ × CmdBuffer)) × (reset_cmd_buffers seq d
        ≡ some (record d { unused = us; pending = ps }))
      × Recycled seq high d.unused us d.pending ps
unfolding reset_cmd_buffers
reset_cmd_buffers-Recycled high seq d a h =
    let (us, ps, e, x) = reset_loop-Recycled 0 high seq d.pending d.unused a h in
    (us, ps, rw (h, first_key_below 0 high seq d.pending a h, e) refl, x)

Ascending-bound : (low high : ℕ) (ps : List (ℕ × CmdBuffer)) → Ascending low high ps → low ≤ high
Ascending-bound low high [] a = a
Ascending-bound low high ((k, b) ∷ ps) (l, a) = let b = Ascending-bound k high ps a in omega arith

pub Ascending-raise :
    (low high high' : ℕ) (ps : List (ℕ × CmdBuffer))
    → high ≤ high'
    → Ascending low high ps
    → Ascending low high' ps
Ascending-raise low high high' [] l a = omega arith
Ascending-raise low high high' ((k, b) ∷ ps) l (m, a) = (m, Ascending-raise k high high' ps l a)

pub Ascending-weaken :
    (low low' high : ℕ) (ps : List (ℕ × CmdBuffer))
    → low' ≤ low
    → Ascending low high ps
    → Ascending low' high ps
Ascending-weaken low low' high [] l a = omega arith
Ascending-weaken low low' high ((k, b) ∷ ps) l (m, a) = (omega arith, a)

-- A new submission comes last.
pub record Emplaced (seq high : ℕ) (b : CmdBuffer) (ps ps' : List (ℕ × CmdBuffer)) : Type 0 where
  pub same_count : (h : ℕ) → count_pending h ps' ≡ one_if (b.raw_buffer == h) + count_pending h ps
  pub kept : (k h : ℕ) → not (is_pending k h ps) || is_pending k h ps' ≡ true
  pub added : is_pending seq b.raw_buffer ps' ≡ true

pub emplace_pending-Emplaced :
    (low high seq : ℕ) (b : CmdBuffer) (ps : List (ℕ × CmdBuffer))
    → Ascending low high ps
    → high < seq
    → Ascending low seq (emplace_pending seq b ps)
      × Emplaced seq high b ps (emplace_pending seq b ps)
unfolding emplace_pending count_pending is_pending
emplace_pending-Emplaced low high seq b [] a h = (
  (omega arith, omega arith),
  record { same_count = λ g. refl; kept = λ k g. refl; added = ground arith },
)
emplace_pending-Emplaced low high seq b ((k, c) ∷ ps) (l, a) h =
    let (asc, x) = emplace_pending-Emplaced k high seq b ps a h in
    let small = Ascending-bound k high ps a in
    let above : ltb seq k ≡ false = ground arith in
    let other : seq == k ≡ false = ground arith in
    rw (above, other)
      (
        (l, asc),
        record {
          same_count = λ g. ground (arith, x.same_count g);
          kept = λ j g. ground (arith, x.kept j g);
          added = ground (arith, x.added);
        },
      )

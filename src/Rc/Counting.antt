-- ===== src/Rc/Counting.antt =====
-- The counts of an object and the handles on it (src/rc.h).
use cloud_desktop.Prelude.{
  ℕ, zero, suc, ◌+◌, ◌^◌, ◌<◌, ◌≡◌, ◌⊎◌, Bool, true, false, ◌&&◌, ◌||◌, ◌==◌, ◌=ᵇ◌, if◌then◌else◌,
  some, List, [], ◌∷◌, get_elem?, arith,
}
use cloud_desktop.Rc.{
  RcObject, inc_ref, dec_ref, inc_ref_private, dec_ref_private, Handle, points_to, Heap, inc_handle,
  dec_handle, replace,
}

abbrev pub one_if : Bool → ℕ
one_if true = 1
one_if false = 0

abbrev pub positive : ℕ → ℕ
positive n = if n == 0 then 0 else 1

-- Whether a handle is one of the kind on the object at `a`, and how many of a list are.
abbrev pub hits : Bool → ℕ → Handle → ℕ
hits b a h = one_if (h.is_public =ᵇ b && points_to a h.object)

abbrev pub count : Bool → ℕ → List Handle → ℕ
count b a [] = 0
count b a (h ∷ hs) = hits b a h + count b a hs

-- An object with `p` public and `q` private handles: it has not been deleted, the counts are those
-- numbers, with one private reference for all the public ones, and it has a handle exactly if it has
-- been `used`; or it has been used, was deleted once and has none.
abbrev pub Counts : Bool → RcObject → ℕ → ℕ → Type 0
Counts used o p q =
    ((o.deletes ≡ 0)
      × (o.ref_count ≡ p)
      × (o.ref_private ≡ q + positive p)
      × (((used ≡ false) × (p ≡ 0) × (q ≡ 0)) ⊎ ((used ≡ true) × (0 < p + q))))
    ⊎ ((used ≡ true)
        × (o.deletes ≡ 1)
        × (o.ref_count ≡ 0)
        × (o.ref_private ≡ 2 ^ 31)
        × (p ≡ 0)
        × (q ≡ 0))

inc_ref-Counts :
    (u : Bool) (o : RcObject) (p q : ℕ)
    → Counts u o p q
    → o.deletes ≡ 0
    → p + q + 1 < 2 ^ 31
    → Counts true (inc_ref o) (p + 1) q
unfolding inc_ref inc_ref_private
inc_ref-Counts u o p q c alive small = ground (arith, c)

inc_ref_private-Counts :
    (u : Bool) (o : RcObject) (p q : ℕ)
    → Counts u o p q
    → o.deletes ≡ 0
    → p + q + 1 < 2 ^ 31
    → Counts true (inc_ref_private o) p (q + 1)
unfolding inc_ref_private
inc_ref_private-Counts u o p q c alive small = ground (arith, c)

dec_ref-Counts :
    (u : Bool) (o : RcObject) (p q : ℕ)
    → Counts u o (p + 1) q
    → p + q + 1 < 2 ^ 31
    → Counts u (dec_ref o) p q
unfolding dec_ref dec_ref_private
dec_ref-Counts u o p q c small = ground (arith, c)

dec_ref_private-Counts :
    (u : Bool) (o : RcObject) (p q : ℕ)
    → Counts u o p (q + 1)
    → p + q + 1 < 2 ^ 31
    → Counts u (dec_ref_private o) p q
unfolding dec_ref_private
dec_ref_private-Counts u o p q c small = ground (arith, c)

-- A handle is added, or taken away.
pub inc_handle-Counts :
    (u : Bool) (h : Handle) (heap : Heap) (a p q : ℕ)
    → Counts u (heap a) p q
    → (points_to a h.object ≡ false) ⊎ ((heap a).deletes ≡ 0)
    → p + q + 1 < 2 ^ 31
    → Counts
        (u || points_to a h.object)
        (inc_handle h heap a)
        (hits true a h + p)
        (hits false a h + q)
unfolding inc_handle
inc_handle-Counts u h heap a p q c alive small =
    ground
      (arith, c, alive, inc_ref-Counts u (heap a) p q c, inc_ref_private-Counts u (heap a) p q c)

pub dec_handle-Counts :
    (u : Bool) (h : Handle) (heap : Heap) (a p q : ℕ)
    → Counts u (heap a) (hits true a h + p) (hits false a h + q)
    → p + q + 1 < 2 ^ 31
    → Counts u (dec_handle h heap a) p q
unfolding dec_handle
dec_handle-Counts u h heap a p q c small =
    ground (arith, c, dec_ref-Counts u (heap a) p q, dec_ref_private-Counts u (heap a) p q)

pub count-replace :
    (b : Bool) (a i : ℕ) (g h : Handle) (hs : List Handle)
    → get_elem? hs i ≡ some g
    → count b a (replace i h hs) + hits b a g ≡ count b a hs + hits b a h
unfolding replace
count-replace b a i g h [] e = absurd (ground arith)
count-replace b a zero g h (k ∷ ks) e = let same : k ≡ g = ground arith in ground arith
count-replace b a (suc i) g h (k ∷ ks) e = omega (arith, count-replace b a i g h ks e)

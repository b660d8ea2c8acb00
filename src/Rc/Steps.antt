-- ===== src/Rc/Steps.antt =====
-- Handles over any history of operations (src/rc.h).
use cloud_desktop.Prelude.{
  ℕ, zero, suc, ◌+◌, ◌^◌, ◌≤◌, ◌<◌, ◌≡◌, refl, sym, subst, ◌⊎◌, inl, inr, Bool, true, false, ◌||◌,
  ◌==◌, ◌=ᵇ◌, some, List, [], ◌∷◌, length, get_elem?, arith, Bool-cases, Option-cases,
}
use cloud_desktop.Rc.{
  RcObject, Handle, points_to, inc_handle, dec_handle, World, replace, emptied, construct,
  copy_construct, move_construct, reset, copy_assign, move_assign, Op, make, copy, move, clear,
  assign, assign_move, is_live, step,
}
use cloud_desktop.Rc.Counting.{
  hits, count, Counts, inc_handle-Counts, dec_handle-Counts, count-replace,
}

-- The counts of the object at `a` are right.
abbrev pub Tallies : Bool → ℕ → World → Type 0
Tallies used a w = Counts used (w.heap a) (count true a w.handles) (count false a w.handles)

Counts-subst :
    (u : Bool) (o : RcObject) {p p' q q' : ℕ} → p ≡ p' → q ≡ q' → Counts u o p q → Counts u o p' q'
Counts-subst u o {p = p} {q' = q'} e f c =
    subst (λ n. Counts u o n q') e (subst (λ n. Counts u o p n) f c)

Counts-used :
    (u v : Bool) (o : RcObject) (p q : ℕ)
    → (v ≡ true → u ≡ true)
    → Counts (u || v) o p q
    → Counts u o p q
Counts-used true v o p q h c = c
Counts-used false true o p q h c = let never : false ≡ true = h refl in cc
Counts-used false false o p q h c = c

count-le : (a : ℕ) (hs : List Handle) → count true a hs + count false a hs ≤ length hs
count-le a [] = omega arith
count-le a (h ∷ hs) = ground (arith, count-le a hs)

length-replace : (i : ℕ) (h : Handle) (hs : List Handle) → length (replace i h hs) ≡ length hs
unfolding replace
length-replace i h [] = refl
length-replace zero h (g ∷ gs) = refl
length-replace (suc i) h (g ∷ gs) = omega (arith, length-replace i h gs)

hits-le :
    (b : Bool) (a i : ℕ) (g : Handle) (hs : List Handle)
    → get_elem? hs i ≡ some g
    → hits b a g ≤ count b a hs
hits-le b a i g [] e = absurd (ground arith)
hits-le b a zero g (h ∷ hs) e = let same : h ≡ g = ground arith in ground arith
hits-le b a (suc i) g (h ∷ hs) e = omega (arith, hits-le b a i g hs e)

live-made :
    (a : ℕ) (h : Handle) (w : World)
    → is_live h w.heap ≡ true
    → (points_to a h.object ≡ false) ⊎ ((w.heap a).deletes ≡ 0)
live-made a h w e = elim (Option-cases h.object) [
  | inl empty ↦ inl (ground arith)
  | inr (b, there) ↦ elim (Bool-cases (b == a)) [
    | inr apart ↦ inl (ground arith)
    | inl here ↦ let same : b ≡ a = ground arith in inr (ground arith)
  ]
]

Counts-false : (u : Bool) (o : RcObject) (p q : ℕ) → Counts u o p q → Counts (u || false) o p q
Counts-false u o p q c = ground (arith, c)

-- A handle of the list points to an object that is not deleted.
held-live :
    (u : Bool) (a i : ℕ) (g : Handle) (w : World)
    → get_elem? w.handles i ≡ some g
    → Tallies u a w
    → (points_to a g.object ≡ false) ⊎ ((w.heap a).deletes ≡ 0)
held-live u a i g w e c =
    ground (arith, c, hits-le true a i g w.handles e, hits-le false a i g w.handles e)

-- An object with a handle has been used.
held-used :
    (u : Bool) (a i : ℕ) (g : Handle) (w : World)
    → get_elem? w.handles i ≡ some g
    → Tallies u a w
    → points_to a g.object ≡ true
    → u ≡ true
held-used u a i g w e c there =
    ground (arith, c, hits-le true a i g w.handles e, hits-le false a i g w.handles e)

construct-Tallies :
    (u : Bool) (a : ℕ) (h : Handle) (w : World)
    → Tallies u a w
    → (points_to a h.object ≡ false) ⊎ ((w.heap a).deletes ≡ 0)
    → length w.handles + 1 < 2 ^ 31
    → Tallies (u || points_to a h.object) a (construct h w)
unfolding construct
construct-Tallies u a h w c live small =
    inc_handle-Counts u h w.heap a _ _ c live (omega (arith, count-le a w.handles))

-- A held object gets another handle: it stays as used as it was.
inc_held :
    (u : Bool) (a j : ℕ) (h : Handle) (w : World)
    → get_elem? w.handles j ≡ some h
    → Tallies u a w
    → length w.handles + 1 < 2 ^ 31
    → Tallies u a (construct h w)
inc_held u a j h w f c small =
    Counts-used u (points_to a h.object) _ _ _ (held-used u a j h w f c)
      (construct-Tallies u a h w c (held-live u a j h w f c) small)

reset-Tallies :
    (u : Bool) (a i : ℕ) (g : Handle) (w : World)
    → get_elem? w.handles i ≡ some g
    → Tallies u a w
    → length w.handles + 1 < 2 ^ 31
    → Tallies u a (record { heap = dec_handle g w.heap; handles = replace i (emptied g) w.handles })
reset-Tallies u a i g w e c small =
    dec_handle-Counts u g w.heap a _ _
      (Counts-subst u (w.heap a) (ground (arith, count-replace true a i g (emptied g) w.handles e))
        (ground (arith, count-replace false a i g (emptied g) w.handles e)) c)
      (omega (
        arith,
        count-le a (replace i (emptied g) w.handles),
        length-replace i (emptied g) w.handles,
      ))

move_construct-Tallies :
    (u : Bool) (a i : ℕ) (g : Handle) (w : World)
    → get_elem? w.handles i ≡ some g
    → Tallies u a w
    → Tallies u a (record w { handles = g ∷ replace i (emptied g) w.handles })
move_construct-Tallies u a i g w e c =
    Counts-subst u (w.heap a) (ground (arith, count-replace true a i g (emptied g) w.handles e))
      (ground (arith, count-replace false a i g (emptied g) w.handles e)) c

-- A handle like `g` on the object of `h` counts as `h` does.
hits-retarget :
    (b : Bool) (a : ℕ) (g h : Handle)
    → (g.is_public =ᵇ h.is_public) ≡ true
    → hits b a (record g { object = h.object }) ≡ hits b a h
hits-retarget b a g h e = ground arith

copy_assign-Tallies :
    (u : Bool) (a i j : ℕ) (g h : Handle) (w : World)
    → get_elem? w.handles i ≡ some g
    → get_elem? w.handles j ≡ some h
    → (g.is_public =ᵇ h.is_public) ≡ true
    → Tallies u a w
    → length w.handles + 1 < 2 ^ 31
    → Tallies u a (record {
      heap = dec_handle g (inc_handle h w.heap);
      handles = replace i (record g { object = h.object }) w.handles;
    })
unfolding construct
copy_assign-Tallies u a i j g h w e f same c small =
    dec_handle-Counts u g (inc_handle h w.heap) a _ _
      (Counts-subst u (inc_handle h w.heap a)
        (omega (arith, count-replace true a i g g' w.handles e, hits-retarget true a g h same))
        (omega (arith, count-replace false a i g g' w.handles e, hits-retarget false a g h same))
        (inc_held u a j h w f c small))
      (omega (arith, count-le a (replace i g' w.handles), length-replace i g' w.handles))
  where
    g' : Handle
    g' = record g { object = h.object }

-- What a handle counts is not changed by writing one that counts the same at the same or another place.
get-replace :
    (a i j : ℕ) (g h : Handle) (hs : List Handle)
    → get_elem? hs i ≡ some g
    → get_elem? hs j ≡ some h
    → (g.is_public =ᵇ h.is_public) ≡ true
    → (k : Handle) × (get_elem? (replace i (record g { object = h.object }) hs) j ≡ some k)
      × (k.object ≡ h.object)
      × (k.is_public ≡ h.is_public)
unfolding replace
get-replace a i j g h [] e f s = absurd (ground arith)
get-replace a zero zero g h (x ∷ xs) e f s =
    (record g { object = h.object }, refl, refl, ground arith)
get-replace a zero (suc j) g h (x ∷ xs) e f s = (h, f, refl, refl)
get-replace a (suc i) zero g h (x ∷ xs) e f s = (h, f, refl, refl)
get-replace a (suc i) (suc j) g h (x ∷ xs) e f s = get-replace a i j g h xs e f s

move_assign-Tallies :
    (u : Bool) (a i j : ℕ) (g h : Handle) (w : World)
    → get_elem? w.handles i ≡ some g
    → get_elem? w.handles j ≡ some h
    → (g.is_public =ᵇ h.is_public) ≡ true
    → Tallies u a w
    → length w.handles + 1 < 2 ^ 31
    → Tallies u a (record {
      heap = dec_handle g w.heap;
      handles = replace j (emptied h) (replace i (record g { object = h.object }) w.handles);
    })
move_assign-Tallies u a i j g h w e f same c small =
    dec_handle-Counts u g w.heap a _ _
      (Counts-subst u (w.heap a) (sym (counted true)) (sym (counted false)) c)
      (omega (
        arith,
        count-le a (replace j (emptied h) moved),
        length-replace j (emptied h) moved,
        length-replace i g' w.handles,
      ))
  where
    g' : Handle
    g' = record g { object = h.object }

    moved : List Handle
    moved = replace i g' w.handles

    counted :
        (b : Bool) → hits b a g + count b a (replace j (emptied h) moved) ≡ count b a w.handles
    counted b =
        let (k, there, o, p) = get-replace a i j g h w.handles e f same in
        ground (
          arith,
          count-replace b a i g g' w.handles e,
          count-replace b a j k (emptied h) moved there,
          hits-retarget b a g h same,
          o,
          p,
        )

-- A handle is made on the object from a raw pointer.
abbrev pub touches : ℕ → Op → Bool
touches a (make h) = points_to a h.object
touches a _ = false

settled :
    (u : Bool) (a : ℕ) (w w₁ w' : World)
    → w₁ ≡ w'
    → Tallies u a w₁
    → length w₁.handles ≤ length w.handles + 1
    → Tallies (u || false) a w' × (length w'.handles ≤ length w.handles + 1)
settled u a w w₁ w' same c small =
    subst (λ v. Tallies (u || false) a v × (length v.handles ≤ length w.handles + 1)) same
      (Counts-false u (w₁.heap a) _ _ c, small)

pub step-Tallies :
    (u : Bool) (a : ℕ) (op : Op) (w : World) {w' : World}
    → Tallies u a w
    → length w.handles + 1 < 2 ^ 31
    → step op w ≡ some w'
    → Tallies (u || touches a op) a w' × (length w'.handles ≤ length w.handles + 1)
unfolding step copy_construct move_construct reset copy_assign move_assign construct
step-Tallies u a (make h) w {w' = w'} c small e =
    let same : construct h w ≡ w' = ground arith in
    subst (λ v. Tallies (u || points_to a h.object) a v × (length v.handles ≤ length w.handles + 1))
      same (construct-Tallies u a h w c (live-made a h w (ground arith)) small, omega arith)
step-Tallies u a (copy b i) w {w' = w'} c small e = elim (Option-cases (get_elem? w.handles i)) [
  | inl gone ↦ absurd (ground arith)
  | inr (g, found) ↦
      let h : Handle = record { is_public = b; object = g.object } in
      settled u a w (construct h w) w' (ground arith)
        (Counts-used u (points_to a g.object) _ _ _ (held-used u a i g w found c)
          (construct-Tallies u a h w c (held-live u a i g w found c) small))
        (omega arith)
]
step-Tallies u a (move i) w {w' = w'} c small e = elim (Option-cases (get_elem? w.handles i)) [
  | inl gone ↦ absurd (ground arith)
  | inr (g, found) ↦
      settled u a w (record w { handles = g ∷ replace i (emptied g) w.handles }) w' (ground arith)
        (move_construct-Tallies u a i g w found c)
        (omega (arith, length-replace i (emptied g) w.handles))
]
step-Tallies u a (clear i) w {w' = w'} c small e = elim (Option-cases (get_elem? w.handles i)) [
  | inl gone ↦ absurd (ground arith)
  | inr (g, found) ↦
      settled u a w
        (record { heap = dec_handle g w.heap; handles = replace i (emptied g) w.handles }) w'
        (ground arith) (reset-Tallies u a i g w found c small)
        (omega (arith, length-replace i (emptied g) w.handles))
]
step-Tallies u a (assign i j) w {w' = w'} c small e = elim (Option-cases (get_elem? w.handles i)) [
  | inl gone ↦ absurd (ground arith)
  | inr (g, found) ↦ elim (Option-cases (get_elem? w.handles j)) [
    | inl gone ↦ absurd (ground arith)
    | inr (h, there) ↦ elim (Bool-cases (g.is_public =ᵇ h.is_public)) [
      | inr apart ↦ absurd (ground arith)
      | inl kind ↦
          settled u a w
            (record {
              heap = dec_handle g (inc_handle h w.heap);
              handles = replace i (record g { object = h.object }) w.handles;
            })
            w' (ground arith) (copy_assign-Tallies u a i j g h w found there kind c small)
            (omega (arith, length-replace i (record g { object = h.object }) w.handles))
    ]
  ]
]
step-Tallies u a (assign_move i j) w {w' = w'} c small e =
    elim (Option-cases (get_elem? w.handles i)) [
      | inl gone ↦ absurd (ground arith)
      | inr (g, found) ↦ elim (Option-cases (get_elem? w.handles j)) [
        | inl gone ↦ absurd (ground arith)
        | inr (h, there) ↦ elim (Bool-cases (g.is_public =ᵇ h.is_public)) [
          | inr apart ↦ absurd (ground arith)
          | inl kind ↦
              settled u a w
                (record {
                  heap = dec_handle g w.heap;
                  handles =
                      replace j (emptied h) (replace i (record g { object = h.object }) w.handles);
                })
                w' (ground arith) (move_assign-Tallies u a i j g h w found there kind c small)
                (omega (
                  arith,
                  length-replace j (emptied h)
                      (replace i (record g { object = h.object }) w.handles),
                  length-replace i (record g { object = h.object }) w.handles,
                ))
        ]
      ]
    ]

-- ===== src/Focus/Ranking.antt =====
-- What xwayland_ctx_t::GetPossibleFocusWindows returns (src/steamcompmgr.cpp).
use mathlib.Core.List.{Perm}
use mathlib.Core.List.Perm
use cloud_desktop.Prelude.{
  ℕ, ◌≡◌, refl, true, false, if◌then◌else◌, some, List, [], ◌∷◌, All, arith, length, ap, sym, ◌∙◌,
  ◌++◌, inl, inr, Bool-cases,
}
use cloud_desktop.Window.{Win, XwaylandWin, xwayland, xdg, VirtualConnectorStrategy}
use cloud_desktop.Focus.Priority.{
  is_focus_priority_greater, possible_windows, insert_ranked, stable_sort,
  get_possible_focus_windows,
}
use cloud_desktop.Focus.Focusable.{
  IsFocusable, All-possible, All-skipped_windows, may_take_focus-IsFocusable, possible_windows-perm,
  skipped_windows,
}
use cloud_desktop.Focus.Order.{lex_greater, priority_key, is_focus_priority_greater-lex}

-- The order of keys is asymmetric, and "does not outrank" is transitive.
lex_greater_asymm : (xs ys : List ℕ) → lex_greater xs ys ≡ true → lex_greater ys xs ≡ false
unfolding lex_greater
lex_greater_asymm [] ys h = cc
lex_greater_asymm (x ∷ xs) [] h = cc
lex_greater_asymm (x ∷ xs) (y ∷ ys) h = ground (arith, lex_greater_asymm xs ys)

not-lex_greater_trans :
    (xs ys zs : List ℕ)
    → length xs ≡ length ys
    → length ys ≡ length zs
    → lex_greater xs ys ≡ false
    → lex_greater ys zs ≡ false
    → lex_greater xs zs ≡ false
unfolding lex_greater
not-lex_greater_trans [] ys zs p q h k = refl
not-lex_greater_trans (x ∷ xs) [] zs p q h k = absurd (omega arith)
not-lex_greater_trans (x ∷ xs) (y ∷ ys) [] p q h k = absurd (omega arith)
not-lex_greater_trans (x ∷ xs) (y ∷ ys) (z ∷ zs) p q h k =
    ground (arith, not-lex_greater_trans xs ys zs (omega arith) (omega arith))

abbrev pub IsXwayland : Win → Type 0
IsXwayland w = (x : XwaylandWin) × (w.type ≡ xwayland x)

key : Win → List ℕ
key w = elim w.type [ xdg _ ↦ [] | xwayland x ↦ priority_key w x ]

greater-key :
    (a b : Win)
    → IsXwayland a
    → IsXwayland b
    → is_focus_priority_greater a b ≡ some (lex_greater (key a) (key b))
unfolding key
greater-key a b (xa, ta) (xb, tb) = is_focus_priority_greater-lex a b xa xb ta tb ∙ rw (ta, tb)

length-key : (w : Win) → IsXwayland w → length (key w) ≡ 10
unfolding key priority_key
length-key w (x, t) = rw (t, key)

-- The insertion as it runs on Xwayland windows.
insert_by_key : Win → List Win → List Win
insert_by_key w [] = w ∷ []
insert_by_key w (v ∷ vs) =
    let rest = insert_by_key w vs in if lex_greater (key v) (key w) then v ∷ rest else w ∷ v ∷ vs

insert_ranked-eq :
    (w : Win) (vs : List Win)
    → IsXwayland w
    → All IsXwayland vs
    → insert_ranked w vs ≡ some (insert_by_key w vs)
unfolding insert_ranked insert_by_key
insert_ranked-eq w [] h k = refl
insert_ranked-eq w (v ∷ vs) h k = ground (arith, greater-key v w k.0 h, insert_ranked-eq w vs h k.1)

All-insert {ℓ} :
    (P : Win → Type ℓ) (w : Win) (vs : List Win) → P w → All P vs → All P (insert_by_key w vs)
unfolding insert_by_key
All-insert P w [] h k = (h, k)
All-insert P w (v ∷ vs) h k = elim (Bool-cases (lex_greater (key v) (key w))) [
  | inl above ↦ rw above (k.0, All-insert P w vs h k.1)
  | inr below ↦ rw below (h, k)
]

insert-perm : (w : Win) (vs : List Win) → Perm (insert_by_key w vs) (w ∷ vs)
unfolding insert_by_key
insert-perm w [] = Perm.refl (w ∷ [])
insert-perm w (v ∷ vs) = elim (Bool-cases (lex_greater (key v) (key w))) [
  | inl above ↦ rw above (Perm.trans (Perm.cons v (insert-perm w vs)) (Perm.swap w v vs))
  | inr below ↦ rw below (Perm.refl (w ∷ v ∷ vs))
]

-- No window outranks one that stands before it.
abbrev pub Ranked : List Win → Type 0
Ranked [] = Unit
Ranked (w ∷ ws) = All (λ v. is_focus_priority_greater v w ≡ some false) ws × Ranked ws

Ranked-insert :
    (w : Win) (vs : List Win)
    → IsXwayland w
    → All IsXwayland vs
    → Ranked vs
    → Ranked (insert_by_key w vs)
unfolding insert_by_key
Ranked-insert w [] h k r = (tt, tt)
Ranked-insert w (v ∷ vs) h k r = elim (Bool-cases (lex_greater (key v) (key w))) [
  | inl above ↦ rw above (
    All-insert (λ u. is_focus_priority_greater u v ≡ some false) w vs
        (greater-key w v h k.0 ∙ ap some (lex_greater_asymm (key v) (key w) above)) r.0,
    Ranked-insert w vs h k.1 r.1,
  )
  | inr below ↦ rw below ((greater-key v w k.0 h ∙ ap some below, behind vs k.1 r.0 below), r)
]
  where
    behind :
        (us : List Win)
        → All IsXwayland us
        → All (λ u. is_focus_priority_greater u v ≡ some false) us
        → lex_greater (key v) (key w) ≡ false
        → All (λ u. is_focus_priority_greater u w ≡ some false) us
    behind [] a b c = tt
    behind (u ∷ us) a b c = (
      greater-key u w a.0 h
          ∙ ap some (
              not-lex_greater_trans (key u) (key v) (key w)
                (length-key u a.0 ∙ sym (length-key v k.0))
                (length-key v k.0 ∙ sym (length-key w h)) (ground (arith, greater-key u v a.0 k.0))
                c),
      behind us a.1 b.1 c,
    )

sort_by_key : List Win → List Win
sort_by_key [] = []
sort_by_key (w ∷ ws) = insert_by_key w (sort_by_key ws)

All-sort {ℓ} : (P : Win → Type ℓ) (ws : List Win) → All P ws → All P (sort_by_key ws)
unfolding sort_by_key
All-sort P [] h = h
All-sort P (w ∷ ws) h = All-insert P w (sort_by_key ws) h.0 (All-sort P ws h.1)

sort-perm : (ws : List Win) → Perm (sort_by_key ws) ws
unfolding sort_by_key
sort-perm [] = Perm.refl []
sort-perm (w ∷ ws) = Perm.trans (insert-perm w (sort_by_key ws)) (Perm.cons w (sort-perm ws))

Ranked-sort : (ws : List Win) → All IsXwayland ws → Ranked (sort_by_key ws)
unfolding sort_by_key
Ranked-sort [] h = tt
Ranked-sort (w ∷ ws) h =
    Ranked-insert w (sort_by_key ws) h.0 (All-sort IsXwayland ws h.1) (Ranked-sort ws h.1)

stable_sort-eq : (ws : List Win) → All IsXwayland ws → stable_sort ws ≡ some (sort_by_key ws)
unfolding stable_sort sort_by_key
stable_sort-eq [] h = refl
stable_sort-eq (w ∷ ws) h =
    rw (stable_sort-eq ws h.1)
      (insert_ranked-eq w (sort_by_key ws) h.0 (All-sort IsXwayland ws h.1))

All-map {ℓ κ} :
    {P : Win → Type ℓ} {Q : Win → Type κ}
    → ((w : Win) → P w → Q w)
    → (ws : List Win) → All P ws
    → All Q ws
All-map f [] h = tt
All-map f (w ∷ ws) h = (f w h.0, All-map f ws h.1)

-- On a list of Xwayland windows GetPossibleFocusWindows throws nothing, and returns exactly the focusable
-- windows of the list, each as often as it is in the list: with the others, none of which is focusable,
-- they are the list in another order. No window outranks one that stands before it.
pub get_possible_focus_windows-Ranked :
    (strategy : VirtualConnectorStrategy) (ws : List Win)
    → All IsXwayland ws
    → (us others : List Win) × (get_possible_focus_windows strategy ws ≡ some us)
      × Ranked us
      × All (IsFocusable strategy) us
      × All (λ w. ¬ (IsFocusable strategy w)) others
      × Perm (us ++ others) ws
unfolding get_possible_focus_windows
get_possible_focus_windows-Ranked strategy ws h = (
  sort_by_key possible,
  skipped_windows strategy ws,
  stable_sort-eq possible all_x,
  Ranked-sort possible all_x,
  All-sort _ possible (
      All-map (λ w k. may_take_focus-IsFocusable strategy w w.type refl k.1) possible
        (All-possible IsXwayland strategy ws h)),
  All-skipped_windows strategy ws,
  Perm.trans (Perm.append (sort-perm possible) (Perm.refl (skipped_windows strategy ws)))
      (possible_windows-perm strategy ws),
)
  where
    possible : List Win
    possible = possible_windows strategy ws

    all_x : All IsXwayland possible
    all_x = All-map (λ w k. k.0) possible (All-possible IsXwayland strategy ws h)

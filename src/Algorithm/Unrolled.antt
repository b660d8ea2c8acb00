-- ===== src/Algorithm/Unrolled.antt =====
-- The unrolled searches of src/Utils/Algorithm.h against the plain one.
use cloud_desktop.Prelude.{
  ℕ, zero, suc, ◌+◌, ◌/◌, ◌<◌, ◌≡◌, refl, Bool, true, false, ◌||◌, some, List, [], ◌∷◌, length,
  get_elem?, arith, Bool-cases, ◌⊎◌, inl, inr, ap, sym, ◌∙◌,
}
use cloud_desktop.Algorithm.{
  find_simple, find_rest, find_rounds, find_by_four, find, contains_shortcut, contains_rest,
  contains_rounds, contains_no_shortcut, contains,
}

module _ {ℓ} {A : Type ℓ} (eq : A → A → Bool) (obj : A) where
  -- `find_simple` stops at the first element equal to `obj`: every element before it differs.
  pub find_simple-below :
      (xs : List A) (j : ℕ) (x : A)
      → j < find_simple eq obj xs
      → get_elem? xs j ≡ some x
      → eq x obj ≡ false
  unfolding find_simple
  find_simple-below [] j x h e = cc
  find_simple-below (y ∷ ys) zero x h e = ground arith
  find_simple-below (y ∷ ys) (suc j) x h e = ground (arith, find_simple-below ys j x)

  pub find_simple-hit :
      (xs : List A)
      → ((find_simple eq obj xs ≡ length xs)
          ⊎ ((x : A) × (get_elem? xs (find_simple eq obj xs) ≡ some x) × (eq x obj ≡ true)))
  unfolding find_simple
  find_simple-hit [] = inl refl
  find_simple-hit (y ∷ ys) = elim (Bool-cases (eq y obj)) [
    | inl hit ↦ rw (hit, find_simple) (inr (y, refl, hit))
    | inr miss ↦ rw (miss, find_simple) (later (find_simple-hit ys))
  ]
    where
      later :
          ((find_simple eq obj ys ≡ length ys)
            ⊎ ((x : A) × (get_elem? ys (find_simple eq obj ys) ≡ some x) × (eq x obj ≡ true)))
          → ((suc (find_simple eq obj ys) ≡ suc (length ys))
              ⊎ ((x : A) × (get_elem? ys (find_simple eq obj ys) ≡ some x) × (eq x obj ≡ true)))
      later (inl e) = inl (ap suc e)
      later (inr r) = inr r

  find_rest_lem :
      (i : ℕ) (xs : List A)
      → length xs < 4
      → find_rest eq obj i xs ≡ some (i + find_simple eq obj xs)
  unfolding find_rest find_simple
  find_rest_lem i [] h = ground arith
  find_rest_lem i (a ∷ []) h = ground arith
  find_rest_lem i (a ∷ b ∷ []) h = ground arith
  find_rest_lem i (a ∷ b ∷ c ∷ []) h = ground arith
  find_rest_lem i (a ∷ b ∷ c ∷ d ∷ xs) h = absurd (omega arith)

  find_rounds_lem :
      (trips i : ℕ) (xs : List A)
      → length xs / 4 ≡ trips
      → find_rounds eq obj trips i xs ≡ some (i + find_simple eq obj xs)
  unfolding find_rounds find_simple
  find_rounds_lem zero i xs h = find_rest_lem i xs (omega arith)
  find_rounds_lem (suc trips) i [] h = absurd (omega arith)
  find_rounds_lem (suc trips) i (a ∷ []) h = absurd (omega arith)
  find_rounds_lem (suc trips) i (a ∷ b ∷ []) h = absurd (omega arith)
  find_rounds_lem (suc trips) i (a ∷ b ∷ c ∷ []) h = absurd (omega arith)
  find_rounds_lem (suc trips) i (a ∷ b ∷ c ∷ d ∷ xs) h =
      ground (arith, find_rounds_lem trips (i + 4) xs (omega arith))

  -- On every range the search unrolled by four returns the iterator of the plain search: it never
  -- reaches `__builtin_unreachable()` and never reads past the end.
  pub find_by_four-eq-find_simple :
      (xs : List A) → find_by_four eq obj xs ≡ some (find_simple eq obj xs)
  unfolding find_by_four
  find_by_four-eq-find_simple xs = find_rounds_lem (length xs / 4) 0 xs refl ∙ ground arith

  -- Whether some element equals `obj`.
  abbrev pub any_eq : List A → Bool
  any_eq [] = false
  any_eq (x ∷ xs) = eq x obj || any_eq xs

  contains_shortcut-any : (xs : List A) → contains_shortcut eq obj xs ≡ any_eq xs
  unfolding contains_shortcut find find_simple
  contains_shortcut-any [] = refl
  contains_shortcut-any (x ∷ xs) = ground (arith, contains_shortcut-any xs)

  contains_rest-any :
      (found : Bool) (xs : List A)
      → length xs < 4
      → contains_rest eq obj found xs ≡ some (found || any_eq xs)
  unfolding contains_rest
  contains_rest-any found [] h = ground arith
  contains_rest-any found (a ∷ []) h = ground arith
  contains_rest-any found (a ∷ b ∷ []) h = ground arith
  contains_rest-any found (a ∷ b ∷ c ∷ []) h = ground arith
  contains_rest-any found (a ∷ b ∷ c ∷ d ∷ xs) h = absurd (omega arith)

  contains_rounds-any :
      (trips : ℕ) (found : Bool) (xs : List A)
      → length xs / 4 ≡ trips
      → contains_rounds eq obj trips found xs ≡ some (found || any_eq xs)
  unfolding contains_rounds
  contains_rounds-any zero found xs h = contains_rest-any found xs (omega arith)
  contains_rounds-any (suc trips) found [] h = absurd (omega arith)
  contains_rounds-any (suc trips) found (a ∷ []) h = absurd (omega arith)
  contains_rounds-any (suc trips) found (a ∷ b ∷ []) h = absurd (omega arith)
  contains_rounds-any (suc trips) found (a ∷ b ∷ c ∷ []) h = absurd (omega arith)
  contains_rounds-any (suc trips) found (a ∷ b ∷ c ∷ d ∷ xs) h =
      contains_rounds-any trips _ xs (omega arith) ∙ ground arith

  -- `Contains` (the branch-free search) is defined on every range and answers as the search with
  -- the shortcut does.
  pub contains-eq-contains_shortcut :
      (xs : List A) → contains eq obj xs ≡ some (contains_shortcut eq obj xs)
  unfolding contains contains_no_shortcut
  contains-eq-contains_shortcut xs =
      contains_rounds-any (length xs / 4) false xs refl ∙ ap some (sym (contains_shortcut-any xs))

-- ===== src/Algorithm.antt =====
-- src/Utils/Algorithm.h: linear search over a contiguous range, plain and unrolled by four.
-- The range [pFirst, pEnd) is a list, an iterator is its distance from pFirst, and pEnd is the
-- length. `none` stands for `__builtin_unreachable()` and for a read past the end of the range.
pub mod Unrolled
use cloud_desktop.Prelude.{
  ℕ, zero, suc, ◌+◌, ◌/◌, Bool, true, false, not, ◌||◌, Option, none, some, List, [], ◌∷◌, ◌==◌,
  if◌then◌else◌, length,
}

-- `eq` is `operator==` of the elements; `!=` is its negation.
module _ {ℓ} {A : Type ℓ} (eq : A → A → Bool) (obj : A) where
  -- while ( pFirst != pEnd && *pFirst != obj ) ++pFirst;
  pub find_simple : List A → ℕ
  find_simple [] = 0
  find_simple (x ∷ xs) = let rest = find_simple xs in if not (eq x obj) then suc rest else 0

  -- The `switch` on what is left after the unrolled rounds.
  pub find_rest : ℕ → List A → Option ℕ
  find_rest i (a ∷ b ∷ c ∷ []) =
      if eq a obj
      then some i
      else if eq b obj
      then some (i + 1)
      else if eq c obj
      then some (i + 2)
      else some (i + 3)
  find_rest i (a ∷ b ∷ []) =
      if eq a obj then some i else if eq b obj then some (i + 1) else some (i + 2)
  find_rest i (a ∷ []) = if eq a obj then some i else some (i + 1)
  find_rest i [] = some i
  find_rest i _ = none

  -- The rounds: four comparisons each, then `pFirst += 4`.
  pub find_rounds : ℕ → ℕ → List A → Option ℕ
  unfolding find_rest
  find_rounds zero i xs = find_rest i xs
  find_rounds (suc trips) i (a ∷ b ∷ c ∷ d ∷ xs) =
      let next = find_rounds trips (i + 4) xs in
      if eq a obj
      then some i
      else if eq b obj
      then some (i + 1)
      else if eq c obj
      then some (i + 2)
      else if eq d obj
      then some (i + 3)
      else next
  find_rounds (suc trips) i _ = none

  pub find_by_four : List A → Option ℕ
  unfolding find_rounds
  find_by_four xs = find_rounds (length xs / 4) 0 xs

  pub find : List A → ℕ
  unfolding find_simple
  find xs = find_simple xs

  pub contains_shortcut : List A → Bool
  unfolding find
  contains_shortcut xs = not (find xs == length xs)

  pub contains_rest : Bool → List A → Option Bool
  contains_rest found (a ∷ b ∷ c ∷ []) = some (found || (eq a obj || (eq b obj || eq c obj)))
  contains_rest found (a ∷ b ∷ []) = some (found || (eq a obj || eq b obj))
  contains_rest found (a ∷ []) = some (found || eq a obj)
  contains_rest found [] = some found
  contains_rest found _ = none

  pub contains_rounds : ℕ → Bool → List A → Option Bool
  unfolding contains_rest
  contains_rounds zero found xs = contains_rest found xs
  contains_rounds (suc trips) found (a ∷ b ∷ c ∷ d ∷ xs) =
      contains_rounds trips (found || (eq a obj || (eq b obj || (eq c obj || eq d obj)))) xs
  contains_rounds (suc trips) found _ = none

  pub contains_no_shortcut : List A → Option Bool
  unfolding contains_rounds
  contains_no_shortcut xs = contains_rounds (length xs / 4) false xs

  pub contains : List A → Option Bool
  unfolding contains_no_shortcut
  contains xs = contains_no_shortcut xs

-- ===== src/Prelude/Lists.antt =====
-- Lists measured and indexed by native numbers, under the library's names.
use Prim.Native.Nat.{ℕ, zero, suc, ◌+◌}
use mathlib.Core.Path.{◌≡◌, subst}
use mathlib.Core.Logic.{inl, inr}
use mathlib.Core.Bool.{Bool, true, false}
use mathlib.Core.List.{List, [], ◌∷◌, ◌++◌}
use mathlib.Core.Option.{Option, none, some}
use cloud_desktop.Prelude.Tests.{Bool-cases}
use native.Mathlib.Omega.{arith}

-- Every element satisfies `P`; at least one does.
abbrev pub All {ℓ κ} : {A : Type ℓ} → (A → Type κ) → List A → Type κ
All P [] = Unit
All P (x ∷ xs) = P x × All P xs

module _ {ℓ} {A : Type ℓ} where
  abbrev pub length : List A → ℕ
  length [] = 0
  length (x ∷ xs) = suc (length xs)

  abbrev pub get_elem? : List A → ℕ → Option A
  get_elem? [] i = none
  get_elem? (x ∷ xs) zero = some x
  get_elem? (x ∷ xs) (suc i) = get_elem? xs i

  abbrev pub drop : ℕ → List A → List A
  drop zero xs = xs
  drop (suc n) [] = []
  drop (suc n) (x ∷ xs) = drop n xs

  -- The first element that passes a test: a loop that leaves by `break` or `goto`.
  unfoldable pub find_first : (A → Bool) → List A → Option A
  find_first test [] = none
  find_first test (x ∷ xs) =
      let rest = find_first test xs in elim (test x) [ true ↦ some x | false ↦ rest ]

  pub length-append : (xs ys : List A) → length (xs ++ ys) ≡ length xs + length ys
  length-append [] ys = omega arith
  length-append (x ∷ xs) ys = omega (arith, length-append xs ys)

  pub All-append {κ} : (P : A → Type κ) (xs ys : List A) → All P xs → All P ys → All P (xs ++ ys)
  All-append P [] ys hx hy = hy
  All-append P (x ∷ xs) ys hx hy = (hx.0, All-append P xs ys hx.1 hy)

  -- What a loop that leaves at the first hit has found.
  pub find_first-All {κ} :
      (P : A → Type κ) (test : A → Bool) (xs : List A) {x : A}
      → All P xs
      → find_first test xs ≡ some x
      → P x × (test x ≡ true)
  unfolding find_first
  find_first-All P test [] h e = cc
  find_first-All P test (y ∷ ys) {x = x} h e = elim (Bool-cases (test y)) [
    | inl hit ↦
        let same : y ≡ x = ground arith in subst (λ z. P z × (test z ≡ true)) same (h.0, hit)
    | inr miss ↦ find_first-All P test ys h.1 (ground arith)
  ]

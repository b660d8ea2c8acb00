-- ===== src/Tests/Searches.antt =====
-- The theorems on searches at concrete inputs.
use cloud_desktop.Prelude.{ℕ, ◌≡◌, ◌==◌, Bool, some, List, [], ◌∷◌}
use cloud_desktop.Algorithm.{find_simple, find_by_four}
use cloud_desktop.Algorithm.Unrolled.{find_by_four-eq-find_simple}

abbrev numbers : List ℕ
numbers = 3 ∷ 1 ∷ 4 ∷ 1 ∷ 5 ∷ 9 ∷ 2 ∷ []

abbrev equal : ℕ → ℕ → Bool
equal a b = a == b

find_by_four-eq-find_simple_example :
    find_by_four equal 9 numbers ≡ some (find_simple equal 9 numbers)
find_by_four-eq-find_simple_example = find_by_four-eq-find_simple equal 9 numbers

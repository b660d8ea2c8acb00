-- ===== src/Rc/Handles.antt =====
-- Histories of handles from new objects on (src/rc.h).
use cloud_desktop.Prelude.{
  ℕ, ◌+◌, ◌^◌, ◌<◌, ◌≡◌, refl, subst, inl, inr, Bool, true, false, ◌||◌, some, List, [], ◌∷◌,
  length, arith, Option-cases,
}
use cloud_desktop.Rc.{World, Op, step, run_ops, new_world}
use cloud_desktop.Rc.Counting.{Counts, count}
use cloud_desktop.Rc.Steps.{Tallies, touches, step-Tallies}

-- Whether a handle was made on the object from a raw pointer.
abbrev pub touched : ℕ → List Op → Bool
touched a [] = false
touched a (op ∷ ops) = touches a op || touched a ops

or_false : (u : Bool) → u ≡ (u || false)
or_false true = refl
or_false false = refl

or_assoc : (u v w : Bool) → ((u || v) || w) ≡ (u || (v || w))
or_assoc true v w = refl
or_assoc false v w = refl

run_ops-Tallies :
    (u : Bool) (a : ℕ) (ops : List Op) (w : World) {w' : World}
    → Tallies u a w
    → length w.handles + length ops < 2 ^ 31
    → run_ops ops w ≡ some w'
    → Tallies (u || touched a ops) a w'
unfolding run_ops
run_ops-Tallies u a [] w {w' = w'} c small e =
    let same : w ≡ w' = ground arith in
    subst (λ v. Tallies (u || false) a v) same (subst (λ b. Tallies b a w) (or_false u) c)
run_ops-Tallies u a (op ∷ ops) w {w' = w'} c small e = elim (Option-cases (step op w)) [
  | inl stuck ↦ absurd (ground arith)
  | inr (w₁, made) ↦
      let (c₁, grown) = step-Tallies u a op w c (omega arith) made in
      subst (λ b. Tallies b a w') (or_assoc u (touches a op) (touched a ops))
        (run_ops-Tallies (u || touches a op) a ops w₁ {w' = w'} c₁ (omega (arith, grown))
          (ground arith))
]

-- After fewer than 2 ^ 31 operations on handles, from new objects on: an object has been deleted
-- exactly once if a handle was ever made on it from a raw pointer and none is left, and else never. If it
-- has not been deleted, its public count is the number of its public handles, and its private count that
-- of the private ones, and one more if there are public ones.
pub run_ops-Counts :
    (a : ℕ) (ops : List Op) {w' : World}
    → length ops < 2 ^ 31
    → run_ops ops new_world ≡ some w'
    → Counts (touched a ops) (w'.heap a) (count true a w'.handles) (count false a w'.handles)
run_ops-Counts a ops small e =
    run_ops-Tallies false a ops new_world (inl (refl, refl, refl, inl (refl, refl, refl)))
      (omega arith) e

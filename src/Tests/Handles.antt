-- ===== src/Tests/Handles.antt =====
-- The theorem on handles at a concrete history.
use cloud_desktop.Prelude.{refl, true, false, none, some, List, [], ◌∷◌, arith}
use cloud_desktop.Rc.{
  Heap, World, Op, make, copy, move, clear, step, run_ops, new_world, construct, copy_construct,
  move_construct, reset, inc_handle, dec_handle, replace,
}
use cloud_desktop.Rc.Counting.{Counts, count}
use cloud_desktop.Rc.Handles.{touched, run_ops-Counts}

-- A public handle on the object at 5 is copied into a private one, the public one is dropped, and the
-- private one is moved.
abbrev operations : List Op
operations =
    make (record { is_public = true; object = some 5 }) ∷ copy false 0 ∷ clear 1 ∷ move 0 ∷ []

abbrev last_heap : Heap
last_heap =
    dec_handle (record { is_public = true; object = some 5 })
      (inc_handle (record { is_public = false; object = some 5 })
        (inc_handle (record { is_public = true; object = some 5 }) new_world.heap))

abbrev last_world : World
last_world = record {
  heap = last_heap;
  handles =
      record { is_public = false; object = some 5 }
      ∷ record { is_public = false; object = none }
      ∷ record { is_public = true; object = none }
      ∷ [];
}

run_ops-Counts_example :
    Counts
      (touched 5 operations)
      (last_world.heap 5)
      (count true 5 last_world.handles)
      (count false 5 last_world.handles)
unfolding run_ops step construct copy_construct move_construct reset replace
run_ops-Counts_example = run_ops-Counts 5 operations {w' = last_world} (omega arith) refl

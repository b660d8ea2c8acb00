-- ===== src/Sunshine/Stale.antt =====
-- The slots where a commit fails (src/Backends/SunshineBackend.cpp, src/wlserver.cpp).
use cloud_desktop.Prelude.{
  ℕ, ◌+◌, ◌≡◌, min, ◌++◌, subst, sym, some_inj, some-bind, refl, true, false, ◌==◌, none, some,
  List, [], ◌∷◌, arith,
}
use cloud_desktop.Sunshine.Slots.{release_slot, taken_slots, acquire_from, acquire_slot}
use cloud_desktop.Sunshine.Actions.{
  max_eventfd, Action, Stream, act, begin_present, with_slots, drawing, idle, run, took, waiting,
}

-- Where the actions lead.
abbrev pub after : List Action → Stream → Stream
after actions s = elim (run actions s) [ none ↦ s | some t ↦ t ]

pub presents_first :
    (s : Stream)
    → s.presenter ≡ idle
    → (s.pool.slots 0).in_use ≡ false
    → run (Action.presents ∷ []) s
      ≡ some (record (with_slots (taken_slots s.pool.slots 0) s) { presenter = drawing 0 })
unfolding run acquire_slot acquire_from
presents_first s at_idle free =
    rw (at_idle, begin_present) (rw (free, acquire_slot, acquire_from) refl)

pub run-append :
    (first second : List Action) (s t u : Stream)
    → run first s ≡ some t
    → run second t ≡ some u
    → run (first ++ second) s ≡ some u
unfolding run
run-append [] second s t u e e' = subst (λ z. run second z ≡ some u) (sym (some_inj e)) e'
run-append (a ∷ first) second s t u e e' =
    let (v, now, later) = some-bind (act a s) (run first) e in
    rw now (run-append first second v t u later e')

abbrev pub one : List Action
one = Action.presents ∷ []

abbrev failing : List Action
failing = Action.releases ∷ Action.commits false ∷ []

abbrev presenting : ℕ → List Action
presenting now = Action.hands_over ∷ Action.signals now ∷ Action.takes ∷ []

abbrev committing : List Action
committing = Action.releases ∷ Action.commits true ∷ []

abbrev taken_first : ℕ → Stream → Stream
taken_first now s = record s {
  presenter = idle;
  handler = took 0;
  pending_slot = none;
  eventfd = 0;
  last_present = now;
}

-- The slot 0 is handed over and taken.
presenting_first :
    (s : Stream) (now : ℕ)
    → run
        (presenting now)
        (record s { presenter = drawing 0; handler = waiting; pending_slot = none })
      ≡ some (taken_first now s)
unfolding run
presenting_first s now =
    let signalled : min (s.eventfd + 1) max_eventfd == 0 ≡ false = ground arith in rw signalled refl

overlap_at :
    (s : Stream) (j now : ℕ)
    → (j == 0) ≡ false
    → (s' : Stream) × (run (failing ++ one ++ presenting now ++ committing ++ one) (record s {
      presenter = idle;
      handler = took j;
      pending_slot = none;
      committed_slot = some 0;
    })
        ≡ some s')
      × (s'.presenter ≡ drawing 0)
      × (s'.handler ≡ waiting)
      × (s'.committed_slot ≡ some 0)
      × (s'.commits ≡ 0 ∷ s.commits)
unfolding run release_slot
overlap_at s j now other =
    let s₀ = record s {
      presenter = idle;
      handler = took j;
      pending_slot = none;
      committed_slot = some 0;
    } in
    let s₁ = after failing s₀ in
    let free : (s₁.pool.slots 0).in_use ≡ false = ground arith in
    let s₂ = record (with_slots (taken_slots s₁.pool.slots 0) s₁) { presenter = drawing 0 } in
    let s₃ = taken_first now s₂ in
    let s₄ = after committing s₃ in
    let s₅ = record (with_slots (taken_slots s₄.pool.slots 0) s₄) { presenter = drawing 0 } in
    (
      s₅,
      run-append failing (one ++ presenting now ++ committing ++ one) s₀ s₁ s₅ refl (
          run-append one (presenting now ++ committing ++ one) s₁ s₂ s₅
            (presents_first s₁ refl free)
            (run-append (presenting now) (committing ++ one) s₂ s₃ s₅ (presenting_first s₂ now)
              (run-append committing one s₃ s₄ s₅ refl (presents_first s₄ refl refl)))),
      refl,
      refl,
      refl,
      refl,
    )

-- A failed commit has released the slot that the output shows, but keeps it as the committed one. So if
-- slot 0 is shown and the commit of another one fails, then slot 0 is drawn into next and committed;
-- its own commit releases it, and the frame after that is drawn into slot 0 while the output shows it.
pub commit_fails-overlap :
    (s : Stream) (j now : ℕ)
    → (j == 0) ≡ false
    → s.presenter ≡ idle
    → s.handler ≡ took j
    → s.pending_slot ≡ none
    → s.committed_slot ≡ some 0
    → (s' : Stream) × (run
          (Action.releases
            ∷ Action.commits false
            ∷ Action.presents
            ∷ Action.hands_over
            ∷ Action.signals now
            ∷ Action.takes
            ∷ Action.releases
            ∷ Action.commits true
            ∷ Action.presents
            ∷ [])
          s
        ≡ some s')
      × (s'.presenter ≡ drawing 0)
      × (s'.handler ≡ waiting)
      × (s'.committed_slot ≡ some 0)
      × (s'.commits ≡ 0 ∷ s.commits)
unfolding run
commit_fails-overlap s j now other at_idle at_took empty shown =
    let same : s ≡ record s {
      presenter = idle;
      handler = took j;
      pending_slot = none;
      committed_slot = some 0;
    } =
      λ i. record s {
        presenter = at_idle i;
        handler = at_took i;
        pending_slot = empty i;
        committed_slot = shown i;
      } in
    rw same (overlap_at s j now other)

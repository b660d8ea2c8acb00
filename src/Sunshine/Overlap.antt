-- ===== src/Sunshine/Overlap.antt =====
-- Whether a frame may be drawn into a slot that is still needed, and whether frames are dropped
-- (src/Backends/SunshineBackend.cpp, src/wlserver.cpp).
use cloud_desktop.Prelude.{
  ℕ, ◌+◌, ◌≡◌, ◌≢◌, ◌≤◌, ◌⊎◌, inl, inr, refl, true, false, Bool-cases, Option-cases, Option, none,
  some, List, [], All, arith,
}
use cloud_desktop.Sunshine.Slots.{GbmSlot, Pool, acquire_from, acquire_slot}
use cloud_desktop.Sunshine.Actions.{
  Action, Handler, Stream, drawing, idle, released, run, took, waiting,
}
use cloud_desktop.Sunshine.Owners.{
  IsOwned, busy, draws, handles, is_slot, is_smooth, owners, run-IsOwned, shows,
}

-- The stream when Present is first called.
abbrev pub start_stream : Pool → ℕ → ℕ → Stream
start_stream pool mode now = record {
  pool = pool;
  presenter = idle;
  handler = waiting;
  pending_slot = none;
  committed_slot = none;
  eventfd = 0;
  vblank_mode = mode;
  has_pending_frame = false;
  commits = [];
  frames_sent = 0;
  last_present = now;
  has_repaint = false;
  nudges = 0;
}

start-IsOwned :
    (pool : Pool) (mode now : ℕ)
    → ((i : ℕ) → (pool.slots i).in_use ≡ false)
    → IsOwned (start_stream pool mode now)
start-IsOwned pool mode now free i = rw (free i) refl

busy-le : (slots : ℕ → GbmSlot) (i : ℕ) → busy slots i ≤ 1
busy-le slots i = elim (Bool-cases (slots i).in_use) [
  | inl used ↦ rw used (omega arith)
  | inr unused ↦ rw unused (omega arith)
]

-- The slot that a frame is drawn into.
pub record IsDisjoint (i : ℕ) (s : Stream) : Type 0 where
  pub not_pending : s.pending_slot ≢ some i
  pub not_taken : s.handler ≢ took i
  pub not_released : s.handler ≢ released i
  pub not_committed : (s.committed_slot ≢ some i) ⊎ ((j : ℕ) × (s.handler ≡ released j))

handler_cases :
    (h : Handler) (c : Option ℕ) (i : ℕ)
    → ((j : ℕ) × (h ≡ released j)) ⊎ (shows h c i ≡ is_slot c i)
handler_cases waiting c i = inr refl
handler_cases (took j) c i = inr refl
handler_cases (released j) c i = inl (j, refl)

owned-IsDisjoint : (i : ℕ) (s : Stream) → s.presenter ≡ drawing i → IsOwned s → IsDisjoint i s
owned-IsDisjoint i s e own =
    let most : owners i s ≤ 1 = omega (arith, own i, busy-le s.pool.slots i) in
    record {
      not_pending = λ p. ground arith;
      not_taken = λ p. ground arith;
      not_released = λ p. ground arith;
      not_committed = elim (handler_cases s.handler s.committed_slot i) [
        | inl early ↦ inr early
        | inr same ↦ inl (λ p. ground arith)
      ];
    }

-- In whatever order the two threads act, as long as no commit fails and the pool is not resized: the
-- slot that a frame is drawn into is not the pending one, nor the one that is being committed. It may be
-- the one that the output shows only after the handler has released that one for the next.
pub run-IsDisjoint :
    (actions : List Action) (pool : Pool) (mode now i : ℕ) (s : Stream)
    → ((j : ℕ) → (pool.slots j).in_use ≡ false)
    → All (λ a. is_smooth a ≡ true) actions
    → run actions (start_stream pool mode now) ≡ some s
    → s.presenter ≡ drawing i
    → IsDisjoint i s
run-IsDisjoint actions pool mode now i s free smooth e draws =
    owned-IsDisjoint i s draws (
      run-IsOwned actions (start_stream pool mode now) s smooth e
        (start-IsOwned pool mode now free))

acquire_slot-none :
    (slots : ℕ → GbmSlot)
    → acquire_slot slots ≡ none
    → busy slots 0 + busy slots 1 + busy slots 2 ≡ 3
unfolding acquire_slot acquire_from
acquire_slot-none slots e = ground arith

is_slot-once : (o : Option ℕ) → is_slot o 0 + is_slot o 1 + is_slot o 2 ≤ 1
is_slot-once none = omega arith
is_slot-once (some j) = ground arith

-- Three slots have three owners only if the handler has one that it took.
all_handled :
    (h : Handler) (p c : Option ℕ)
    → (0 + is_slot p 0 + handles h 0 + shows h c 0)
        + (0 + is_slot p 1 + handles h 1 + shows h c 1)
        + (0 + is_slot p 2 + handles h 2 + shows h c 2)
      ≡ 3
    → (j : ℕ) × (h ≡ took j)
all_handled waiting p c full = absurd (omega (arith, is_slot-once p, is_slot-once c))
all_handled (took j) p c full = (j, refl)
all_handled (released j) p c full = absurd (omega (arith, is_slot-once p, is_slot-once (some j)))

all_owned :
    (s : Stream)
    → s.presenter ≡ idle
    → owners 0 s + owners 1 s + owners 2 s ≡ 3
    → (j : ℕ) × (s.handler ≡ took j)
all_owned s e full = all_handled s.handler s.pending_slot s.committed_slot (rw e at full)

-- Three slots are enough: in whatever order the threads act, as long as no commit fails and the pool is
-- not resized, Present finds a free slot, unless the handler has just taken a pending slot and not
-- released the one that was committed before.
pub run-acquires :
    (actions : List Action) (pool : Pool) (mode now : ℕ) (s : Stream)
    → ((j : ℕ) → (pool.slots j).in_use ≡ false)
    → All (λ a. is_smooth a ≡ true) actions
    → run actions (start_stream pool mode now) ≡ some s
    → s.presenter ≡ idle
    → ((i : ℕ) × (slots : ℕ → GbmSlot) × (acquire_slot s.pool.slots ≡ some (i, slots)))
      ⊎ ((j : ℕ) × (s.handler ≡ took j))
run-acquires actions pool mode now s free smooth e at_idle =
    let own =
      run-IsOwned actions (start_stream pool mode now) s smooth e
        (start-IsOwned pool mode now free) in
    elim (Option-cases (acquire_slot s.pool.slots)) [
      | inl full ↦ inr (
          all_owned s at_idle
            (omega (arith, own 0, own 1, own 2, acquire_slot-none s.pool.slots full)))
      | inr ((i, slots), got) ↦ inl (i, slots, got)
    ]

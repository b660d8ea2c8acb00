-- ===== src/Sunshine/Owners.antt =====
-- Who uses which slot, as long as all commits succeed and the pool is not resized
-- (src/Backends/SunshineBackend.cpp, src/wlserver.cpp).
use cloud_desktop.Prelude.{
  ℕ, zero, suc, inl, inr, Bool-cases, Option-cases, some_inj, some-else, subst, ap, ◌+◌, ◌≡◌, refl,
  sym, Bool, true, false, ◌==◌, if◌then◌else◌, Option, none, some, List, [], ◌∷◌, All, some-bind,
  arith,
}
use cloud_desktop.Sunshine.Slots.{GbmSlot, acquire_from, acquire_slot, release_slot, taken_slots}
use cloud_desktop.Sunshine.Actions.{
  release_option, Action, Handler, Presenter, Stream, act, begin_present, commit_output,
  fail_present, fire_timer, hand_over, idle, drawing, handed, release_committed, run,
  signal_present, take_pending, waiting, took, released,
}

abbrev pub is_slot : Option ℕ → ℕ → ℕ
is_slot none i = 0
is_slot (some j) i = if j == i then 1 else 0

abbrev pub draws : Presenter → ℕ → ℕ
draws idle i = 0
draws (drawing j) i = if j == i then 1 else 0
draws handed i = 0

abbrev pub handles : Handler → ℕ → ℕ
handles waiting i = 0
handles (took j) i = if j == i then 1 else 0
handles (released j) i = if j == i then 1 else 0

-- The committed slot, unless it has been released.
abbrev pub shows : Handler → Option ℕ → ℕ → ℕ
shows waiting c i = is_slot c i
shows (took j) c i = is_slot c i
shows (released j) c i = 0

abbrev pub owners : ℕ → Stream → ℕ
owners i s =
    draws s.presenter i
    + is_slot s.pending_slot i
    + handles s.handler i
    + shows s.handler s.committed_slot i

abbrev pub busy : (ℕ → GbmSlot) → ℕ → ℕ
busy slots i = if (slots i).in_use then 1 else 0

-- A slot in use has exactly one owner, and any other has none.
abbrev pub IsOwned : Stream → Type 0
IsOwned s = (i : ℕ) → owners i s ≡ busy s.pool.slots i

-- The slot that is acquired was free.
acquire_from-some :
    (rounds i : ℕ) (slots slots' : ℕ → GbmSlot) (j : ℕ)
    → acquire_from rounds i slots ≡ some (j, slots')
    → ((slots j).in_use ≡ false) × (slots' ≡ taken_slots slots j)
unfolding acquire_from
acquire_from-some zero i slots slots' j e = cc
acquire_from-some (suc rounds) i slots slots' j e = elim (Bool-cases (slots i).in_use) [
  | inl used ↦ acquire_from-some rounds (i + 1) slots slots' j (rw used at e)
  | inr unused ↦
      let got = rw unused at e in
      let get : Option (ℕ × (ℕ → GbmSlot)) → ℕ × (ℕ → GbmSlot) =
        λ o. elim o [ none ↦ (i, slots) | some r ↦ r ] in
      subst (λ k. ((slots k).in_use ≡ false) × (slots' ≡ taken_slots slots k))
        (ap (λ o. (get o).0) got) (unused, sym (ap (λ o. (get o).1) got))
]

acquire_slot-some :
    (slots slots' : ℕ → GbmSlot) (j : ℕ)
    → acquire_slot slots ≡ some (j, slots')
    → ((slots j).in_use ≡ false) × (slots' ≡ taken_slots slots j)
unfolding acquire_slot
acquire_slot-some slots slots' j e = acquire_from-some 3 0 slots slots' j e

begin_present-IsOwned :
    (p : Presenter) (s s' : Stream)
    → s.presenter ≡ p
    → begin_present p s ≡ some s'
    → IsOwned s
    → IsOwned s'
unfolding begin_present
begin_present-IsOwned idle s s' at_idle e own = elim (Option-cases (acquire_slot s.pool.slots)) [
  | inl full ↦ subst IsOwned (some_inj (rw (full, begin_present) at e)) own
  | inr ((j, slots), got) ↦
      let (free, same) = acquire_slot-some s.pool.slots slots j got in
      subst IsOwned (some_inj (rw (got, begin_present) at e))
        (λ i. rw same (ground (arith, own i, own j)))
]
begin_present-IsOwned (drawing j) s s' at_drawing e own = cc
begin_present-IsOwned handed s s' at_handed e own = cc

fail_present-IsOwned :
    (p : Presenter) (s s' : Stream)
    → s.presenter ≡ p
    → fail_present p s ≡ some s'
    → IsOwned s
    → IsOwned s'
unfolding fail_present release_option release_slot
fail_present-IsOwned idle s s' e e' own = cc
fail_present-IsOwned (drawing j) s s' e e' own =
    subst IsOwned (some_inj e') (λ i. ground (arith, own i, own j))
fail_present-IsOwned handed s s' e e' own = cc

hand_over-IsOwned :
    (p : Presenter) (s s' : Stream)
    → s.presenter ≡ p
    → hand_over p s ≡ some s'
    → IsOwned s
    → IsOwned s'
unfolding hand_over release_option release_slot
hand_over-IsOwned idle s s' e e' own = cc
hand_over-IsOwned (drawing j) s s' e e' own = elim (Option-cases s.pending_slot) [
  | inl empty ↦
      subst IsOwned (some_inj e') (λ i. rw (empty, release_option) (ground (arith, own i, own j)))
  | inr (k, full) ↦
      subst IsOwned (some_inj e')
        (λ i. rw (full, release_option) (ground (arith, own i, own j, own k)))
]
hand_over-IsOwned handed s s' e e' own = cc

signal_present-IsOwned :
    (now : ℕ) (p : Presenter) (s s' : Stream)
    → s.presenter ≡ p
    → signal_present now p s ≡ some s'
    → IsOwned s
    → IsOwned s'
unfolding signal_present
signal_present-IsOwned now idle s s' e e' own = cc
signal_present-IsOwned now (drawing j) s s' e e' own = cc
signal_present-IsOwned now handed s s' e e' own =
    subst IsOwned (some_inj e') (λ i. ground (arith, own i))

take_pending-IsOwned :
    (h : Handler) (s s' : Stream)
    → s.handler ≡ h
    → take_pending h s ≡ some s'
    → IsOwned s
    → IsOwned s'
unfolding take_pending
take_pending-IsOwned waiting s s' e e' own = elim (Option-cases s.pending_slot) [
  | inl empty ↦
      subst IsOwned (some_inj (some-else (s.eventfd == 0) e'))
        (λ i. rw empty (ground (arith, own i)))
  | inr (k, full) ↦
      subst IsOwned (some_inj (some-else (s.eventfd == 0) e'))
        (λ i. rw full (ground (arith, own i)))
]
take_pending-IsOwned (took j) s s' e e' own = cc
take_pending-IsOwned (released j) s s' e e' own = cc

release_committed-IsOwned :
    (h : Handler) (s s' : Stream)
    → s.handler ≡ h
    → release_committed h s ≡ some s'
    → IsOwned s
    → IsOwned s'
unfolding release_committed release_option release_slot
release_committed-IsOwned waiting s s' e e' own = cc
release_committed-IsOwned (took j) s s' e e' own = elim (Option-cases s.committed_slot) [
  | inl empty ↦
      subst IsOwned (some_inj e') (λ i. rw (empty, release_option) (ground (arith, own i, own j)))
  | inr (k, full) ↦
      subst IsOwned (some_inj e')
        (λ i. rw (full, release_option) (ground (arith, own i, own j, own k)))
]
release_committed-IsOwned (released j) s s' e e' own = cc

commit_output-IsOwned :
    (h : Handler) (s s' : Stream)
    → s.handler ≡ h
    → commit_output true h s ≡ some s'
    → IsOwned s
    → IsOwned s'
unfolding commit_output
commit_output-IsOwned waiting s s' e e' own = cc
commit_output-IsOwned (took j) s s' e e' own = cc
commit_output-IsOwned (released j) s s' e e' own =
    subst IsOwned (some_inj e') (λ i. ground (arith, own i))

fire_timer-IsOwned :
    (now : ℕ) (h : Handler) (s s' : Stream)
    → s.handler ≡ h
    → fire_timer now h s ≡ some s'
    → IsOwned s
    → IsOwned s'
unfolding fire_timer
fire_timer-IsOwned now waiting s s' e e' own =
    subst IsOwned (some_inj e') (λ i. ground (arith, own i))
fire_timer-IsOwned now (took j) s s' e e' own = cc
fire_timer-IsOwned now (released j) s s' e e' own = cc

-- No commit fails, and the pool is not resized.
abbrev pub is_smooth : Action → Bool
is_smooth Action.presents = true
is_smooth Action.fails = true
is_smooth Action.hands_over = true
is_smooth (Action.signals now) = true
is_smooth Action.takes = true
is_smooth Action.releases = true
is_smooth (Action.commits done) = done
is_smooth (Action.fires now) = true
is_smooth (Action.resizes width height allocations) = false

act-IsOwned :
    (a : Action) (s s' : Stream) → is_smooth a ≡ true → act a s ≡ some s' → IsOwned s → IsOwned s'
unfolding act
act-IsOwned Action.presents s s' h e = begin_present-IsOwned s.presenter s s' refl e
act-IsOwned Action.fails s s' h e = fail_present-IsOwned s.presenter s s' refl e
act-IsOwned Action.hands_over s s' h e = hand_over-IsOwned s.presenter s s' refl e
act-IsOwned (Action.signals now) s s' h e = signal_present-IsOwned now s.presenter s s' refl e
act-IsOwned Action.takes s s' h e = take_pending-IsOwned s.handler s s' refl e
act-IsOwned Action.releases s s' h e = release_committed-IsOwned s.handler s s' refl e
act-IsOwned (Action.commits true) s s' h e = commit_output-IsOwned s.handler s s' refl e
act-IsOwned (Action.commits false) s s' h e = cc
act-IsOwned (Action.fires now) s s' h e = fire_timer-IsOwned now s.handler s s' refl e
act-IsOwned (Action.resizes width height allocations) s s' h e = cc

pub run-IsOwned :
    (actions : List Action) (s s' : Stream)
    → All (λ a. is_smooth a ≡ true) actions
    → run actions s ≡ some s'
    → IsOwned s
    → IsOwned s'
unfolding run
run-IsOwned [] s s' h e own = subst IsOwned (some_inj e) own
run-IsOwned (a ∷ actions) s s' h e own =
    let (t, first, rest) = some-bind (act a s) (run actions) e in
    run-IsOwned actions t s' h.1 rest (act-IsOwned a s t h.0 first own)

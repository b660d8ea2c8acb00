-- ===== src/Latch/Once.antt =====
-- How often the loops over finished commits latch an entry (src/steamcompmgr.cpp).
use cloud_desktop.Prelude.{
  ℕ, ◌+◌, ◌≤◌, ◌≡◌, refl, Bool, true, false, ◌&&◌, ◌==◌, ltb, List, [], ◌∷◌, ◌++◌, none, arith,
  Bool-cases, inl, inr,
}
use cloud_desktop.Window.{Win}
use cloud_desktop.Latch.State.{CommitDoneEntry, Compositor}
use cloud_desktop.Latch.Vblank.{should_vblank_window}
use cloud_desktop.Latch.Loops.{
  Pass, Tick, contains, hand_over, latch_entry, push_back, must_wait, stamp, entry_vblank,
  xwayland_round, xwayland_loop, start, handle_done_commits_xwayland, xdg_loop,
  handle_done_commits_xdg,
}

abbrev pub one_if : Bool → ℕ
one_if true = 1
one_if false = 0

-- How many FIFO commits of the window `s` were taken.
abbrev pub fifo_taken : ℕ → List (CommitDoneEntry × Bool) → ℕ
fifo_taken s [] = 0
fifo_taken s ((e, done) ∷ es) = one_if (done && e.fifo && e.win_seq == s) + fifo_taken s es

fifo_taken-append :
    (s : ℕ) (xs ys : List (CommitDoneEntry × Bool))
    → fifo_taken s (xs ++ ys) ≡ fifo_taken s xs + fifo_taken s ys
fifo_taken-append s [] ys = omega arith
fifo_taken-append s ((e, done) ∷ xs) ys = omega (arith, fifo_taken-append s xs ys)

-- `fifo_win_seqs` is the set of the windows of which a FIFO commit was taken.
abbrev Counted : ℕ → Pass → Type 0
Counted s p = fifo_taken s p.passed ≡ one_if (contains s p.fifo_win_seqs)

latch_entry-Counted :
    (s : ℕ) (e : CommitDoneEntry) (p : Pass)
    → e.fifo && contains e.win_seq p.fifo_win_seqs ≡ false
    → Counted s p
    → Counted s (latch_entry e p)
unfolding latch_entry
latch_entry-Counted s e p fresh h =
    ground (arith, fifo_taken-append s p.passed ((e, (hand_over e p.wins p.comp).0) ∷ []))

pub stamp-keeps :
    (t : Tick) (e : CommitDoneEntry)
    → ((stamp t e).fifo ≡ e.fifo)
      × ((stamp t e).win_seq ≡ e.win_seq)
      × ((stamp t e).commit_id ≡ e.commit_id)
unfolding stamp
stamp-keeps t e = ground arith

-- An entry that must not wait is latched once.
latch_now-Counted :
    (s : ℕ) (vblank : Bool) (t : Tick) (e : CommitDoneEntry) (p : Pass)
    → must_wait vblank e p ≡ false
    → Counted s p
    → Counted s (latch_entry (stamp t e) p)
unfolding must_wait
latch_now-Counted s vblank t e p go h =
    latch_entry-Counted s (stamp t e) p (ground (arith, stamp-keeps t e)) h

xwayland_round-Counted :
    (s : ℕ) (t : Tick) (e : CommitDoneEntry) (p : Pass)
    → Counted s p
    → Counted s (xwayland_round t e p)
unfolding xwayland_round push_back
xwayland_round-Counted s t e p h =
    let v = (entry_vblank t e p).0 in
    let p' : Pass = record p { comp = (entry_vblank t e p).1 } in
    elim (Bool-cases (must_wait v e p')) [
      | inl wait ↦ rw wait h
      | inr go ↦ elim (Bool-cases (ltb t.next_refresh_time e.desired_present_time)) [
        | inl early ↦ rw (go, early) h
        | inr due ↦ rw (go, due) (latch_now-Counted s v t e p' go h)
      ]
    ]

xwayland_loop-Counted :
    (s : ℕ) (t : Tick) (es : List CommitDoneEntry) (p : Pass)
    → Counted s p
    → Counted s (xwayland_loop t es p)
unfolding xwayland_loop
xwayland_loop-Counted s t [] p h = h
xwayland_loop-Counted s t (e ∷ es) p h =
    xwayland_loop-Counted s t es (xwayland_round t e p) (xwayland_round-Counted s t e p h)

xdg_loop-Counted :
    (s : ℕ) (t : Tick) (es : List CommitDoneEntry) (p : Pass)
    → Counted s p
    → Counted s (xdg_loop t es p)
unfolding xdg_loop push_back
xdg_loop-Counted s t [] p h = h
xdg_loop-Counted s t (e ∷ es) p h = elim (Bool-cases (must_wait t.vblank e p)) [
  | inl wait ↦ rw (wait, xdg_loop) (xdg_loop-Counted s t es (push_back e p) h)
  | inr go ↦ elim (Bool-cases (ltb t.next_refresh_time e.desired_present_time)) [
    | inl early ↦ rw (go, early, xdg_loop) h
    | inr due ↦
        rw (go, due, xdg_loop)
          (xdg_loop-Counted s t es (latch_entry (stamp t e) p)
            (latch_now-Counted s t.vblank t e p go h))
  ]
]

one_if-le : (b : Bool) → one_if b ≤ 1
one_if-le true = omega arith
one_if-le false = omega arith

-- In one call, for Xwayland and for XDG windows alike, at most one FIFO commit of each window is
-- taken, whatever the list holds.
pub fifo_taken_once :
    (t : Tick) (es : List CommitDoneEntry) (ws : List Win) (c : Compositor) (s : ℕ)
    → (fifo_taken s (handle_done_commits_xwayland t es ws c).passed ≤ 1)
      × (fifo_taken s (handle_done_commits_xdg t es ws c).passed ≤ 1)
unfolding handle_done_commits_xwayland handle_done_commits_xdg
fifo_taken_once t es ws c s = (
  omega (
    arith,
    xwayland_loop-Counted s t es (start ws c) refl,
    one_if-le (contains s (xwayland_loop t es (start ws c)).fifo_win_seqs),
  ),
  omega (
    arith,
    xdg_loop-Counted s t' es (start ws c) refl,
    one_if-le (contains s (xdg_loop t' es (start ws c)).fifo_win_seqs),
  ),
)
  where
    t' : Tick
    t' = record t { vblank = t.vblank && (should_vblank_window c true t.vblank_idx none 0).0 }

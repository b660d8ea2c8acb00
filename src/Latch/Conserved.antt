-- ===== src/Latch/Conserved.antt =====
-- What becomes of the entries in the loops over finished commits (src/steamcompmgr.cpp).
use cloud_desktop.Prelude.{
  ℕ, ◌+◌, ◌≤◌, ◌<◌, ◌≡◌, refl, Bool, true, false, ◌&&◌, ◌==◌, ltb, List, [], ◌∷◌, ◌++◌, none,
  Option, some, arith, if_keeps, All,
}
use cloud_desktop.Window.{Win}
use cloud_desktop.Latch.State.{CommitDoneEntry, Compositor}
use cloud_desktop.Latch.Vblank.{should_vblank_vrr, should_vblank_window}
use cloud_desktop.Latch.Given.{
  SameGlobals, SameGlobals-trans, HandedOver, HandedOver-later, HandedOver-append,
}
use cloud_desktop.Latch.Loops.{
  Pass, Tick, hand_over, latch_entry, push_back, must_wait, stamp, entry_vblank, entry_vblank_vrr,
  xwayland_round, xwayland_loop, start, handle_done_commits_xwayland, xdg_loop,
  handle_done_commits_xdg,
}
use cloud_desktop.Latch.Once.{one_if, stamp-keeps}

-- How often a commit id is in a list of entries, and in the log.
abbrev pub times : ℕ → List CommitDoneEntry → ℕ
times n [] = 0
times n (e ∷ es) = one_if (e.commit_id == n) + times n es

abbrev pub times_passed : ℕ → List (CommitDoneEntry × Bool) → ℕ
times_passed n [] = 0
times_passed n ((e, done) ∷ es) = one_if (e.commit_id == n) + times_passed n es

times-append : (n : ℕ) (xs ys : List CommitDoneEntry) → times n (xs ++ ys) ≡ times n xs + times n ys
times-append n [] ys = omega arith
times-append n (x ∷ xs) ys = omega (arith, times-append n xs ys)

times_passed-append :
    (n : ℕ) (xs ys : List (CommitDoneEntry × Bool))
    → times_passed n (xs ++ ys) ≡ times_passed n xs + times_passed n ys
times_passed-append n [] ys = omega arith
times_passed-append n ((x, d) ∷ xs) ys = omega (arith, times_passed-append n xs ys)

abbrev seen : ℕ → Pass → ℕ
seen n p = times n p.before_their_time + times_passed n p.passed

xwayland_round-seen :
    (n : ℕ) (t : Tick) (e : CommitDoneEntry) (p : Pass)
    → seen n (xwayland_round t e p) ≡ seen n p + one_if (e.commit_id == n)
unfolding xwayland_round push_back latch_entry
xwayland_round-seen n t e p = ground (
  arith,
  stamp-keeps t e,
  times-append n p.before_their_time (e ∷ []),
  times-append n p.before_their_time (stamp t e ∷ []),
  times_passed-append n p.passed
      ((stamp t e, (hand_over (stamp t e) p.wins (entry_vblank t e p).1).0) ∷ []),
)

xwayland_loop-seen :
    (n : ℕ) (t : Tick) (es : List CommitDoneEntry) (p : Pass)
    → seen n (xwayland_loop t es p) ≡ seen n p + times n es
unfolding xwayland_loop
xwayland_loop-seen n t [] p = omega arith
xwayland_loop-seen n t (e ∷ es) p =
    omega (arith, xwayland_loop-seen n t es (xwayland_round t e p), xwayland_round-seen n t e p)

push_back-seen :
    (n : ℕ) (e : CommitDoneEntry) (p : Pass)
    → seen n (push_back e p) ≡ seen n p + one_if (e.commit_id == n)
unfolding push_back
push_back-seen n e p = omega (arith, times-append n p.before_their_time (e ∷ []))

latch_entry-seen :
    (n : ℕ) (t : Tick) (e : CommitDoneEntry) (p : Pass)
    → seen n (latch_entry (stamp t e) p) ≡ seen n p + one_if (e.commit_id == n)
unfolding latch_entry
latch_entry-seen n t e p = ground (
  arith,
  stamp-keeps t e,
  times_passed-append n p.passed ((stamp t e, (hand_over (stamp t e) p.wins p.comp).0) ∷ []),
)

should_vblank_window-SameGlobals :
    (c : Compositor) (limit : Bool) (idx : ℕ) (latch_time : Option ℕ) (now : ℕ)
    → SameGlobals c (should_vblank_window c limit idx latch_time now).1
unfolding should_vblank_window should_vblank_vrr
should_vblank_window-SameGlobals c limit idx none now =
    if_keeps (λ (r : Bool × Compositor). SameGlobals c r.1) (c.has_connector && c.vrr_active) _ _
      refl refl
should_vblank_window-SameGlobals c limit idx (some latched) now =
    if_keeps (λ (r : Bool × Compositor). SameGlobals c r.1) (c.has_connector && c.vrr_active) _ _
      (if_keeps (λ (r : Bool × Compositor). SameGlobals c r.1) _ _ _ refl refl) refl

entry_vblank_vrr-SameGlobals :
    (t : Tick) (e : CommitDoneEntry) (vblank : Bool) (ws : List Win) (c : Compositor)
    → SameGlobals c (entry_vblank_vrr t e vblank ws c).1
unfolding entry_vblank_vrr
entry_vblank_vrr-SameGlobals t e vblank [] c = refl
entry_vblank_vrr-SameGlobals t e vblank (w ∷ ws) c =
    let latched = some w.last_commit_first_latch_time in
    let (should, c') = should_vblank_window c true t.vblank_idx latched t.now in
    if_keeps (λ (r : Bool × Compositor). SameGlobals c r.1) (w.seq == e.win_seq && vblank) _ _
      (SameGlobals-trans c c' _ (should_vblank_window-SameGlobals c true t.vblank_idx latched t.now)
        (entry_vblank_vrr-SameGlobals t e should ws c'))
      (entry_vblank_vrr-SameGlobals t e vblank ws c)

entry_vblank-SameGlobals :
    (t : Tick) (e : CommitDoneEntry) (p : Pass) → SameGlobals p.comp (entry_vblank t e p).1
unfolding entry_vblank
entry_vblank-SameGlobals t e p =
    if_keeps (λ (r : Bool × Compositor). SameGlobals p.comp r.1)
      (p.comp.has_connector && p.comp.vrr_active) _ _
      (entry_vblank_vrr-SameGlobals t e t.vblank p.wins p.comp) refl

-- What the windows and globals are made of since `ws` and `c`.
abbrev Since : List Win → Compositor → Pass → Type 0
Since ws c p = HandedOver p.passed ws c p.wins p.comp

xwayland_round-Since :
    (ws : List Win) (c : Compositor) (t : Tick) (e : CommitDoneEntry) (p : Pass)
    → Since ws c p
    → Since ws c (xwayland_round t e p)
unfolding xwayland_round push_back latch_entry
xwayland_round-Since ws c t e p h =
    let (v, c') = entry_vblank t e p in
    let p' : Pass = record p { comp = c' } in
    let h' : Since ws c p' =
      HandedOver-later p.passed ws p.wins c p.comp c' h (entry_vblank-SameGlobals t e p) in
    if_keeps (Since ws c) (must_wait v e p') _ _ h' (
      if_keeps (Since ws c) (ltb t.next_refresh_time e.desired_present_time) _ _ h'
        (HandedOver-append p.passed (stamp t e) ws p.wins c c' h'))

xwayland_loop-Since :
    (ws : List Win) (c : Compositor) (t : Tick) (es : List CommitDoneEntry) (p : Pass)
    → Since ws c p
    → Since ws c (xwayland_loop t es p)
unfolding xwayland_loop
xwayland_loop-Since ws c t [] p h = h
xwayland_loop-Since ws c t (e ∷ es) p h =
    xwayland_loop-Since ws c t es (xwayland_round t e p) (xwayland_round-Since ws c t e p h)

-- For Xwayland windows no finished commit is lost or made up: each commit id is kept for later and handed
-- over, together, as often as it was in the list. The windows and globals afterwards are what handing
-- over the entries that are not kept makes of them, one after the other, but for the schedule of the FPS
-- limit with VRR: each of these goes to the windows with its number, in their order, until one of them
-- has the commit in its queue.
pub xwayland_conserves :
    (t : Tick) (es : List CommitDoneEntry) (ws : List Win) (c : Compositor) (n : ℕ)
    → (times n (handle_done_commits_xwayland t es ws c).before_their_time
          + times_passed n (handle_done_commits_xwayland t es ws c).passed
        ≡ times n es)
      × HandedOver
          (handle_done_commits_xwayland t es ws c).passed
          ws
          c
          (handle_done_commits_xwayland t es ws c).wins
          (handle_done_commits_xwayland t es ws c).comp
unfolding handle_done_commits_xwayland
xwayland_conserves t es ws c n = (
  omega (arith, xwayland_loop-seen n t es (start ws c)),
  xwayland_loop-Since ws c t es (start ws c) (refl, refl),
)

xdg_loop-seen :
    (n : ℕ) (t : Tick) (due : List CommitDoneEntry) (e : CommitDoneEntry)
    (es : List CommitDoneEntry) (p : Pass)
    → All (λ d. d.desired_present_time ≤ t.next_refresh_time) due
    → e.fifo ≡ false
    → t.next_refresh_time < e.desired_present_time
    → seen n (xdg_loop t (due ++ e ∷ es) p) ≡ seen n p + times n (due ++ e ∷ [])
unfolding xdg_loop must_wait push_back
xdg_loop-seen n t [] e es p h free early =
    ground (arith, stamp-keeps t e, times-append n p.before_their_time (stamp t e ∷ []))
xdg_loop-seen n t (d ∷ due) e es p h free early = ground (
  arith,
  h.0,
  xdg_loop-seen n t due e es (push_back d p) h.1 free early,
  xdg_loop-seen n t due e es (latch_entry (stamp t d) p) h.1 free early,
  push_back-seen n d p,
  latch_entry-seen n t d p,
)

-- For XDG windows all finished commits are lost that stand behind the first one whose desired time has
-- not come, if that is no FIFO one: each commit id is kept for later and handed over, together, as often as
-- it is in the list up to that one, whatever stands behind it.
pub xdg_loses :
    (t : Tick) (due : List CommitDoneEntry) (e : CommitDoneEntry) (es : List CommitDoneEntry)
    (ws : List Win) (c : Compositor) (n : ℕ)
    → All (λ d. d.desired_present_time ≤ t.next_refresh_time) due
    → e.fifo ≡ false
    → t.next_refresh_time < e.desired_present_time
    → times n (handle_done_commits_xdg t (due ++ e ∷ es) ws c).before_their_time
        + times_passed n (handle_done_commits_xdg t (due ++ e ∷ es) ws c).passed
      ≡ times n (due ++ e ∷ [])
unfolding handle_done_commits_xdg
xdg_loses t due e es ws c n h free early =
    let t' = record t {
      vblank = t.vblank && (should_vblank_window c true t.vblank_idx none 0).0;
    } in
    omega (arith, xdg_loop-seen n t' due e es (start ws c) h free early)

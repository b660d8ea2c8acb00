-- ===== src/Latch/Loops.antt =====
-- handle_done_commits_xwayland and handle_done_commits_xdg (src/steamcompmgr.cpp): the finished
-- commits at a vblank, in the order of the list.
use cloud_desktop.Prelude.{
  ℕ, Bool, true, false, not, ◌&&◌, ◌||◌, ◌==◌, ltb, if◌then◌else◌, none, some, List, [], ◌∷◌, ◌++◌,
}
use cloud_desktop.Window.{Win}
use cloud_desktop.Latch.State.{CommitDoneEntry, Compositor}
use cloud_desktop.Latch.Vblank.{should_vblank_window}
use cloud_desktop.Latch.Commit.{handle_done_commit}

-- The state of a loop: the windows, the globals, `commits_before_their_time` and `fifo_win_seqs`.
-- `passed` is no variable of the code: it logs the entries handed to handle_done_commit with whether
-- a window took them.
pub record Pass : Type 0 where
  pub wins : List Win
  pub comp : Compositor
  pub before_their_time : List CommitDoneEntry
  pub fifo_win_seqs : List ℕ
  pub passed : List (CommitDoneEntry × Bool)

-- What a call reads: `vblank`, `vblank_idx`, the clock and the target of the vblank schedule.
pub record Tick : Type 0 where
  pub vblank : Bool
  pub vblank_idx : ℕ
  pub now : ℕ
  pub next_refresh_time : ℕ

abbrev pub contains : ℕ → List ℕ → Bool
contains n [] = false
contains n (m ∷ ms) = m == n || contains n ms

-- The loop over the windows of the entry: the first one that takes the commit ends it.
unfoldable pub hand_over : CommitDoneEntry → List Win → Compositor → Bool × List Win × Compositor
hand_over e [] c = (false, [], c)
hand_over e (w ∷ ws) c =
    let skipped = hand_over e ws c in
    let (done, w', c') =
      handle_done_commit w c e.commit_id e.earliest_present_time e.earliest_latch_time in
    let retried = hand_over e ws c' in
    if not (w.seq == e.win_seq)
    then (skipped.0, w ∷ skipped.1, skipped.2)
    else if done
    then (true, w' ∷ ws, c')
    else (retried.0, w' ∷ retried.1, retried.2)

-- An entry whose time has come.
unfoldable pub latch_entry : CommitDoneEntry → Pass → Pass
latch_entry e p =
    let (done, ws, c) = hand_over e p.wins p.comp in
    record p {
      wins = ws;
      comp = c;
      fifo_win_seqs = if done && e.fifo then e.win_seq ∷ p.fifo_win_seqs else p.fifo_win_seqs;
      passed = p.passed ++ ((e, done) ∷ []);
    }

unfoldable pub push_back : CommitDoneEntry → Pass → Pass
push_back e p = record p { before_their_time = p.before_their_time ++ (e ∷ []) }

-- A FIFO commit waits for a vblank, and for the window's turn.
unfoldable pub must_wait : Bool → CommitDoneEntry → Pass → Bool
must_wait vblank e p = e.fifo && (not vblank || contains e.win_seq p.fifo_win_seqs)

-- The times that an entry gets when it is first looked at.
unfoldable pub stamp : Tick → CommitDoneEntry → CommitDoneEntry
stamp t e =
    if e.earliest_present_time == 0
    then record e { earliest_present_time = t.next_refresh_time; earliest_latch_time = t.now }
    else e

-- `entry_vblank`, with VRR asked of every window of the entry.
unfoldable pub entry_vblank_vrr :
    Tick → CommitDoneEntry → Bool → List Win → Compositor → Bool × Compositor
entry_vblank_vrr t e vblank [] c = (vblank, c)
entry_vblank_vrr t e vblank (w ∷ ws) c =
    let (should, c') =
      should_vblank_window c true t.vblank_idx (some w.last_commit_first_latch_time) t.now in
    if w.seq == e.win_seq && vblank
    then entry_vblank_vrr t e should ws c'
    else entry_vblank_vrr t e vblank ws c

unfoldable pub entry_vblank : Tick → CommitDoneEntry → Pass → Bool × Compositor
entry_vblank t e p =
    if p.comp.has_connector && p.comp.vrr_active
    then entry_vblank_vrr t e t.vblank p.wins p.comp
    else (t.vblank && (should_vblank_window p.comp true t.vblank_idx none 0).0, p.comp)

-- One round of the loop for Xwayland windows.
unfoldable pub xwayland_round : Tick → CommitDoneEntry → Pass → Pass
xwayland_round t e p =
    let (vblank, c) = entry_vblank t e p in
    let p' = record p { comp = c } in
    if must_wait vblank e p'
    then push_back e p'
    else if ltb t.next_refresh_time e.desired_present_time
    then push_back (stamp t e) p'
    else latch_entry (stamp t e) p'

unfoldable pub xwayland_loop : Tick → List CommitDoneEntry → Pass → Pass
xwayland_loop t [] p = p
xwayland_loop t (e ∷ es) p = xwayland_loop t es (xwayland_round t e p)

abbrev pub start : List Win → Compositor → Pass
start ws c = record { wins = ws; comp = c; before_their_time = []; fifo_win_seqs = []; passed = [] }

-- The pass; its `before_their_time` is the new list of done commits.
unfoldable pub handle_done_commits_xwayland :
    Tick → List CommitDoneEntry → List Win → Compositor → Pass
handle_done_commits_xwayland t es ws c = xwayland_loop t es (start ws c)

-- The loop for XDG windows, which leaves by `break` at a commit whose desired time has not come.
unfoldable pub xdg_loop : Tick → List CommitDoneEntry → Pass → Pass
xdg_loop t [] p = p
xdg_loop t (e ∷ es) p =
    let waits = xdg_loop t es (push_back e p) in
    let latched = xdg_loop t es (latch_entry (stamp t e) p) in
    if must_wait t.vblank e p
    then waits
    else if ltb t.next_refresh_time e.desired_present_time
    then push_back (stamp t e) p
    else latched

unfoldable pub handle_done_commits_xdg : Tick → List CommitDoneEntry → List Win → Compositor → Pass
handle_done_commits_xdg t es ws c =
    let vblank = t.vblank && (should_vblank_window c true t.vblank_idx none 0).0 in
    xdg_loop (record t { vblank = vblank }) es (start ws c)

-- ===== src/Latch/Commit.antt =====
-- handle_done_commit (src/steamcompmgr.cpp): a commit of a window has finished.
use cloud_desktop.Prelude.{
  ℕ, Bool, true, false, not, ◌&&◌, ◌||◌, ◌==◌, if◌then◌else◌, Option, none, some, List, [], ◌∷◌,
  sub_u64,
}
use cloud_desktop.Window.{Win, Commit, is_xwayland}
use cloud_desktop.Latch.State.{GlobalFocus, Compositor, make_focus_dirty}

-- A pointer of a focus is this window.
abbrev pub is_window : ℕ → Option ℕ → Bool
is_window addr none = false
is_window addr (some a) = addr == a

abbrev pub is_there {ℓ} : {A : Type ℓ} → Option A → Bool
is_there none = false
is_there (some _) = true

unfoldable pub mark_done : Commit → ℕ → ℕ → Commit
mark_done c earliest_present earliest_latch = record c {
  done = true;
  earliest_present_time = earliest_present;
  present_margin = sub_u64 earliest_present earliest_latch;
}

-- What the scan of the commit queue comes to: the engine name, and the queue from the finished
-- commit on if it is there (the commits before it are erased).
unfoldable pub scan_queue : ℕ → ℕ → ℕ → Option ℕ → List Commit → Option ℕ × Option (List Commit)
unfolding mark_done
scan_queue id present latch engine [] = (engine, none)
scan_queue id present latch engine (c ∷ cs) =
    let engine' : Option ℕ = elim c.engine_name [ none ↦ engine | some n ↦ some n ] in
    let rest = scan_queue id present latch engine' cs in
    if c.commit_id == id then (engine', some (mark_done c present latch ∷ cs)) else rest

-- The base plane is repainted with the commit.
unfoldable pub repaint_base : ℕ → Compositor → Compositor
repaint_base id c = record c {
  held_base = if c.pause_base_plane then c.held_base else some id;
  has_repaint = true;
}

-- One round of the loop over g_VirtualConnectorFocuses; `w` has its new engine name.
unfoldable pub repaint_focus : Win → ℕ → GlobalFocus → Compositor → Compositor
unfolding repaint_base
repaint_focus w id f c =
    let visible = not (w.opacity == 0) in
    let non_base =
      is_window w.addr f.overlay_window && visible
      || is_window w.addr f.notification_window && visible
      || is_window w.addr f.external_overlay_window
        && visible
        && c.has_connector
        && not c.vrr_active
      || is_window w.addr f.override_window in
    let c₁ = if non_base then record c { has_repaint_non_base_plane = true } else c in
    let c₂ =
      if is_window w.addr f.focus_window && not w.is_steam_streaming_client
      then record (repaint_base id c₁) { focus_engine = w.engine_name; focus_pid = w.pid }
      else c₁ in
    if w.is_steam_streaming_client_video && is_there f.focus_window && f.focus_is_streaming_client
    then repaint_base id c₂
    else c₂

unfoldable pub repaint_focuses : Win → ℕ → List GlobalFocus → Compositor → Compositor
repaint_focuses w id [] c = c
repaint_focuses w id (f ∷ fs) c = repaint_focuses w id fs (repaint_focus w id f c)

-- The rest of the branch for the commit that was found, and what follows the loop.
unfoldable pub finish_done : Win → ℕ → List Commit → Compositor → Win × Compositor
finish_done w id queue c =
    let c₁ =
      if w.has_target_vr_overlay then record c { update_forwarded_vr_overlays = true } else c in
    let c₂ = repaint_focuses w id c₁.focuses c₁ in
    let c₃ = if w.outdated_interactive_focus then make_focus_dirty c₂ else c₂ in
    (
      record w {
        needs_forwarding = if w.has_target_vr_overlay then true else w.needs_forwarding;
        outdated_interactive_focus = false;
        commit_queue = queue;
        received_done_commit = true;
      },
      (if is_xwayland w.type then c₃ else record c₃ { force_repaint = true }),
    )

unfoldable pub handle_done_commit : Win → Compositor → ℕ → ℕ → ℕ → Bool × Win × Compositor
handle_done_commit w c id present latch =
    let (engine, found) = scan_queue id present latch w.engine_name w.commit_queue in
    let w' = record w { engine_name = engine } in
    elim found [
      | none ↦ (false, w', c)
      | some queue ↦ let (w'', c') = finish_done w' id queue c in (true, w'', c')
    ]

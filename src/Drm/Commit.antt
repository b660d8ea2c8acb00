-- ===== src/Drm/Commit.antt =====
-- src/Backends/DRMBackend.cpp: CDRMBackend::Commit and page_flip_handler. What the kernel answers to the
-- commit is an argument. `none` is an assertion that fails, a call of abort, or a wait without end.
use cloud_desktop.Prelude.{
  ◌>>=◌, ℕ, ◌+◌, ◌-◌, ◌%◌, Bool, false, not, ◌==◌, if◌then◌else◌, Option, none, some, [], u32,
  u32_mod,
}
use cloud_desktop.Drm.Store.{Drm, Fails, commit_property, drm_rollback, for_all}
use cloud_desktop.Drm.Liftoff.{Errno, Liftoff}
use cloud_desktop.Drm.Plan.{Frame, Settings}
use cloud_desktop.Drm.Prepare.{drm_prepare}

unfoldable pub swap_queued : Drm → Drm
swap_queued s = record s {
  queued_fb_ids = s.fb_ids_in_request;
  fb_ids_in_request = s.queued_fb_ids;
}

-- Up to the call of drmModeAtomicCommit.
unfoldable pub begin_commit : Drm → Drm
unfolding swap_queued
begin_commit s =
    let s₁ =
      if s.flags.page_flip_event
      then record (swap_queued s) { pending_flip_count = u32 (s.pending_flip_count + 1) }
      else s in
    let presents = s.queued_presents + 1 in
    record s₁ {
      queued_presents = presents;
      present_ctxs = λ i. if i == s.next_present_ctx then presents else s.present_ctxs i;
      next_present_ctx = (s.next_present_ctx + 1) % 3;
    }

-- The kernel refused, but another frame may go through.
unfoldable pub fail_commit : Drm → Drm
unfolding swap_queued drm_rollback
fail_commit s =
    let s₁ = swap_queued (drm_rollback s) in
    record s₁ {
      fb_ids_in_request = [];
      queued_presents = s.queued_presents - 1;
      pending_flip_count =
          (if s.flags.page_flip_event
            then u32 (s.pending_flip_count + (u32_mod - 1))
            else s.pending_flip_count);
      req = none;
    }

-- The kernel took the request.
unfoldable pub accept_commit : Drm → Drm
unfolding for_all
accept_commit s =
    for_all commit_property (record s { fb_ids_in_request = []; current = s.pending; req = none })

-- An event for the CRTC `crtc_id`, with the context `ctx` of its commit; the vblank is marked, too.
unfoldable pub page_flip_handler : ℕ → ℕ → Drm → Drm
page_flip_handler crtc_id ctx s =
    let s₁ = record s { completed_presents = s.present_ctxs ctx } in
    let ours : Bool = elim s.crtc [ none ↦ false | some r ↦ r == crtc_id ] in
    if ours
    then record s₁ {
      visible_fb_ids = s.queued_fb_ids;
      queued_fb_ids = [];
      pending_flip_count = u32 (s.pending_flip_count + (u32_mod - 1));
    }
    else s₁

-- The wait for the event, for which the kernel names the CRTC `crtc_id`; it ends if the counter changes,
-- and then the counter has to be 0.
unfoldable pub wait_for_flip : ℕ → ℕ → Drm → Option Drm
unfolding page_flip_handler
wait_for_flip crtc_id ctx s =
    let flipped = page_flip_handler crtc_id ctx s in
    if not s.flags.page_flip_event
    then some s
    else if flipped.pending_flip_count == s.pending_flip_count
    then none
    else if flipped.pending_flip_count == 0
    then some flipped
    else none

unfoldable pub finish_commit : Errno → ℕ → ℕ → Drm → Option (Errno × Drm)
unfolding fail_commit accept_commit wait_for_flip
finish_commit Errno.success crtc_id ctx s =
    wait_for_flip crtc_id ctx (accept_commit s) >>= (λ t. some (Errno.success, t))
finish_commit Errno.einval crtc_id ctx s = none
finish_commit Errno.eperm crtc_id ctx s = none
finish_commit Errno.eacces crtc_id ctx s = some (Errno.eacces, fail_commit s)
finish_commit Errno.ebusy crtc_id ctx s = some (Errno.ebusy, fail_commit s)
finish_commit Errno.other crtc_id ctx s = none

unfoldable pub commit : Errno → ℕ → Drm → Option (Errno × Drm)
unfolding begin_commit finish_commit
commit answer crtc_id s = elim s.req [
  | none ↦ none
  | some req ↦ finish_commit answer crtc_id s.next_present_ctx (begin_commit s)
]

-- What happens to one frame: what the compositor asks for, and what libliftoff and the kernel answer.
pub record Attempt : Type 0 where
  pub settings : Settings
  pub liftoff : Liftoff
  pub frame : Frame
  pub answer : Errno
  pub crtc_id : ℕ

abbrev pub commit_prepared : Errno → ℕ → Errno × Drm → Option (Errno × Drm)
commit_prepared answer crtc_id (Errno.success, s) = commit answer crtc_id s
commit_prepared answer crtc_id (Errno.einval, s) = some (Errno.einval, s)
commit_prepared answer crtc_id (Errno.eperm, s) = some (Errno.eperm, s)
commit_prepared answer crtc_id (Errno.eacces, s) = some (Errno.eacces, s)
commit_prepared answer crtc_id (Errno.ebusy, s) = some (Errno.ebusy, s)
commit_prepared answer crtc_id (Errno.other, s) = some (Errno.other, s)

-- A frame that is presented as it is: it is prepared and, if that succeeds, committed.
unfoldable pub present : Fails → Attempt → Drm → Option (Errno × Drm)
unfolding drm_prepare commit
present fails a s =
    drm_prepare fails a.settings a.liftoff a.frame s >>= commit_prepared a.answer a.crtc_id

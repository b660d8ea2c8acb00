-- ===== src/Drm/Shown.antt =====
-- A frame from drm_prepare to its page flip (src/Backends/DRMBackend.cpp).
use cloud_desktop.Prelude.{
  ℕ, ◌≡◌, refl, sym, ap, ◌∙◌, Bool, true, false, if_keeps, if◌then◌else◌, Option, none, some, [],
  map, arith,
}
use cloud_desktop.Drm.Store.{Drm, Fails, Flags, drm_rollback, for_all}
use cloud_desktop.Drm.Liftoff.{Errno, is_success}
use cloud_desktop.Drm.Plan.{Plan}
use cloud_desktop.Drm.Prepare.{abandon, checked, drm_prepare, make_flags, prepare_on, reads_null}
use cloud_desktop.Drm.Commit.{
  Attempt, begin_commit, commit, commit_prepared, fail_commit, finish_commit, present,
}
use cloud_desktop.Drm.Answered.{
  answered, answered-IsAsked, answered-layers, awake-flip, begun, plan, unflipped-fbs,
}
use cloud_desktop.Drm.Ready.{drm_prepare-prepare_on, IsQuiet, IsReady, has_request-some}
use cloud_desktop.Drm.Flip.{accepted, is_fatal, refused}

-- How a frame ends: no frame is under way, and what was visible stays so unless the frame succeeds; then
-- the framebuffers of its layers are visible, if the screen is on and libliftoff is used.
pub record IsPresented (a : Attempt) (s : Drm) (r : Errno × Drm) : Type 0 where
  pub quiet : IsQuiet r.1
  pub kept : is_success r.0 ≡ false → r.1.visible_fb_ids ≡ s.visible_fb_ids
  pub shown :
      is_success r.0 ≡ true
      → s.use_liftoff ≡ true
      → a.settings.sleep_screen ≡ false
      → map some r.1.visible_fb_ids ≡ a.frame.layers

-- What is known of a frame that libliftoff took.
record IsTaken (a : Attempt) (s t : Drm) : Type 0 where
  ready : IsReady s t
  flips : t.flags.page_flip_event ≡ true → t.crtc ≡ some a.crtc_id
  stays : t.flags.page_flip_event ≡ false → t.fb_ids_in_request ≡ []
  awake : a.settings.sleep_screen ≡ false → t.flags.page_flip_event ≡ true
  layers :
      s.use_liftoff ≡ true
      → a.settings.sleep_screen ≡ false
      → map some t.fb_ids_in_request ≡ a.frame.layers

finish_commit-IsPresented :
    (a : Attempt) (answer : Errno) (ctx : ℕ) (s t : Drm)
    → is_fatal answer ≡ false
    → IsQuiet s
    → IsTaken a s t
    → (r : Errno × Drm) × (finish_commit answer a.crtc_id ctx (begin_commit t) ≡ some r)
      × IsPresented a s r
unfolding finish_commit
finish_commit-IsPresented a Errno.success ctx s t fine quiet taken =
    let (u, done, still, empty, visible) =
      accepted t a.crtc_id ctx (taken.ready.same_count ∙ quiet.no_flip)
        (taken.ready.same_queued ∙ quiet.none_queued) taken.flips in
    (
      (Errno.success, u),
      rw done refl,
      record {
        quiet = still;
        kept = λ e. cc;
        shown = λ e liftoff on.
            ap (map some) (
              visible
              ∙ ap (λ (b : Bool). if b then t.fb_ids_in_request else t.visible_fb_ids)
                  (taken.awake on))
            ∙ taken.layers liftoff on;
      },
    )
finish_commit-IsPresented a Errno.einval ctx s t fine quiet taken = cc
finish_commit-IsPresented a Errno.eperm ctx s t fine quiet taken = cc
finish_commit-IsPresented a Errno.eacces ctx s t fine quiet taken =
    let (still, empty, visible) =
      refused t (taken.ready.same_count ∙ quiet.no_flip)
        (taken.ready.same_queued ∙ quiet.none_queued) taken.stays in
    (
      (Errno.eacces, fail_commit (begin_commit t)),
      refl,
      record {
        quiet = still;
        kept = λ e. visible ∙ taken.ready.same_visible;
        shown = λ e liftoff on. cc;
      },
    )
finish_commit-IsPresented a Errno.ebusy ctx s t fine quiet taken =
    let (still, empty, visible) =
      refused t (taken.ready.same_count ∙ quiet.no_flip)
        (taken.ready.same_queued ∙ quiet.none_queued) taken.stays in
    (
      (Errno.ebusy, fail_commit (begin_commit t)),
      refl,
      record {
        quiet = still;
        kept = λ e. visible ∙ taken.ready.same_visible;
        shown = λ e liftoff on. cc;
      },
    )
finish_commit-IsPresented a Errno.other ctx s t fine quiet taken = cc

commit-IsPresented :
    (a : Attempt) (s t : Drm)
    → is_fatal a.answer ≡ false
    → IsQuiet s
    → IsTaken a s t
    → (r : Errno × Drm) × (commit a.answer a.crtc_id t ≡ some r) × IsPresented a s r
unfolding commit
commit-IsPresented a s t fine quiet taken =
    let (req, begun) = has_request-some t.req taken.ready.requested in
    let (r, done, h) =
      finish_commit-IsPresented a a.answer t.next_present_ctx s t fine quiet taken in
    (
      r,
      ap
            (λ r. elim r as (λ _. Option (Errno × Drm)) [
              | none ↦ none
              | some q ↦ finish_commit a.answer a.crtc_id t.next_present_ctx (begin_commit t)
            ])
            begun
          ∙ done,
      h,
    )

abandon-IsPresented :
    (a : Attempt) (p : Plan) (e : Errno) (s t : Drm)
    → is_success e ≡ false
    → IsQuiet s
    → IsReady s t
    → IsPresented a s (e, abandon p t)
unfolding abandon drm_rollback for_all
abandon-IsPresented a p e s t failed quiet h =
    let back = record (drm_rollback t) { req = none; fb_ids_in_request = [] } in
    let Q = λ (u : Drm). IsPresented a s (e, u) in
    let was : IsQuiet back = record {
      no_request = refl;
      none_queued = h.same_queued ∙ quiet.none_queued;
      no_flip = h.same_count ∙ quiet.no_flip;
    } in
    if_keeps Q p.needs_modeset (record back { needs_modeset = true }) back
      (record {
        quiet = record { no_request = refl; none_queued = was.none_queued; no_flip = was.no_flip };
        kept = λ f. h.same_visible;
        shown = λ f liftoff on. absurd (ground arith);
      })
      (record {
        quiet = was;
        kept = λ f. h.same_visible;
        shown = λ f liftoff on. absurd (ground arith);
      })

checked-IsPresented :
    (a : Attempt) (p : Plan) (e : Errno) (s t : Drm)
    → is_fatal a.answer ≡ false
    → IsQuiet s
    → IsReady s t
    → (is_success e ≡ true → IsTaken a s t)
    → (r : Errno × Drm) × (commit_prepared a.answer a.crtc_id (checked p (e, t)) ≡ some r)
      × IsPresented a s r
checked-IsPresented a p Errno.success s t fine quiet h taken =
    commit-IsPresented a s t fine quiet (taken refl)
checked-IsPresented a p Errno.einval s t fine quiet h taken =
    (_, refl, abandon-IsPresented a p Errno.einval s t refl quiet h)
checked-IsPresented a p Errno.eperm s t fine quiet h taken =
    (_, refl, abandon-IsPresented a p Errno.eperm s t refl quiet h)
checked-IsPresented a p Errno.eacces s t fine quiet h taken =
    (_, refl, abandon-IsPresented a p Errno.eacces s t refl quiet h)
checked-IsPresented a p Errno.ebusy s t fine quiet h taken =
    (_, refl, abandon-IsPresented a p Errno.ebusy s t refl quiet h)
checked-IsPresented a p Errno.other s t fine quiet h taken =
    (_, refl, abandon-IsPresented a p Errno.other s t refl quiet h)

prepare_on-IsPresented :
    (fails : Fails) (a : Attempt) (target : ℕ) (s : Drm)
    → is_fatal a.answer ≡ false
    → s.crtc ≡ some a.crtc_id
    → IsQuiet s
    → (r : Errno × Drm) × (commit_prepared a.answer a.crtc_id
          (prepare_on fails a.settings a.liftoff a.frame target s)
        ≡ some r)
      × IsPresented a s r
unfolding prepare_on make_flags
prepare_on-IsPresented fails a target s fine plugged quiet =
    let c = a.settings in
    let t = answered fails c a.liftoff a.frame target s quiet in
    let p = plan fails c a.liftoff a.frame target s quiet in
    let (h, flags) = answered-IsAsked fails c a.liftoff a.frame target s quiet in
    let flag = ap (λ (f : Flags). f.page_flip_event) flags in
    checked-IsPresented a p t.0 s t.1 fine quiet h (λ e. record {
      ready = h;
      flips = λ f. h.same_crtc ∙ plugged;
      stays = λ f. unflipped-fbs fails c a.liftoff a.frame target s quiet (sym flag ∙ f);
      awake = λ on. flag ∙ awake-flip fails c a.liftoff a.frame target s quiet a.crtc_id plugged on;
      layers = λ liftoff on.
          answered-layers fails c a.liftoff a.frame target s quiet a.crtc_id plugged liftoff on e;
    })

-- Let there be a connector, and let the CRTC in use be the one that the kernel's page flip event names.
-- Where no frame is under way, no null pointer is read (a VRR capable connector has a CRTC with
-- VRR_ENABLED, and a modeset that turns the screen on has a CRTC), and the kernel's answer is one that
-- does not abort, presenting a frame ends: no assertion fails and the page flip is waited for. No frame
-- is under way afterwards, and what was visible stays so unless the frame succeeds; then the framebuffers
-- of its layers are visible, in their order, if the screen is on and libliftoff is used.
pub present-IsPresented :
    (fails : Fails) (a : Attempt) (target : ℕ) (s : Drm)
    → is_fatal a.answer ≡ false
    → s.connector ≡ some target
    → s.crtc ≡ some a.crtc_id
    → IsQuiet s
    → reads_null a.settings a.frame target s ≡ false
    → (r : Errno × Drm) × (present fails a s ≡ some r) × IsPresented a s r
unfolding present drm_prepare
present-IsPresented fails a target s fine found plugged quiet readable =
    let (r, done, h) = prepare_on-IsPresented fails a target s fine plugged quiet in
    let prepared : drm_prepare fails a.settings a.liftoff a.frame s
        ≡ some (prepare_on fails a.settings a.liftoff a.frame target s) =
      drm_prepare-prepare_on fails a target s found quiet readable in
    (r, rw prepared done, h)

-- ===== src/Drm/Answered.antt =====
-- What the last step of drm_prepare gets from those before it (src/Backends/DRMBackend.cpp).
use cloud_desktop.Prelude.{
  ℕ, ◌≡◌, refl, sym, subst, ap, ◌∙◌, Bool, true, false, if_keeps, inl, inr, Option-cases, none,
  some, [], arith, map,
}
use cloud_desktop.Drm.Store.{Drm, Fails}
use cloud_desktop.Drm.Liftoff.{Errno, Liftoff, is_success}
use cloud_desktop.Drm.Plan.{Frame, Plan, Settings, begin_request, drm_update_color_mgmt, make_plan}
use cloud_desktop.Drm.Prepare.{check_layers, make_flags, set_all}
use cloud_desktop.Drm.Layers.{drm_prepare_liftoff-fbs}
use cloud_desktop.Drm.Setting.{set_all_keeps}
use cloud_desktop.Drm.Asking.{check_layers_keeps}
use cloud_desktop.Drm.Ready.{
  IsAsked, IsQuiet, IsReady, add_entries-IsAsked, check_layers_awake, check_layers_sleeping,
  check_layers_unplugged, same-IsAsked, set_property-IsReady, set_property-fbs, unflipped_cases,
}

-- Preparing a frame that no frame stands in the way of.
module _ (fails : Fails) (c : Settings) (l : Liftoff) (f : Frame) (target : ℕ) (s : Drm)
    (quiet : IsQuiet s) where
  abbrev pub begun : Drm
  begun = begin_request c f (drm_update_color_mgmt c s)

  abbrev pub plan : Plan
  plan = make_plan c f target (drm_update_color_mgmt c s)

  abbrev pub answered : Errno × Drm
  answered = check_layers l f plan (set_all fails c f plan begun)

  begun-IsReady : IsReady s begun
  unfolding begin_request drm_update_color_mgmt
  begun-IsReady =
      if_keeps (λ (t : Drm). IsReady s (begin_request c f t)) _ s _
        (record {
          same_liftoff = refl;
          same_crtc = refl;
          same_queued = refl;
          same_visible = refl;
          same_count = refl;
          settled = refl;
          requested = refl;
        })
        (record {
          same_liftoff = refl;
          same_crtc = refl;
          same_queued = refl;
          same_visible = refl;
          same_count = refl;
          settled = refl;
          requested = refl;
        })

  set-IsAsked : IsAsked s (make_flags c f plan begun) (set_all fails c f plan begun)
  set-IsAsked =
      let flags = make_flags c f plan begun in
      let (t, kept, same) =
        set_all_keeps (IsReady s) fails (set_property-IsReady fails s) c f plan begun
          begun-IsReady in
      subst (IsAsked s flags) (sym same) (
        record {
          same_liftoff = kept.same_liftoff;
          same_crtc = kept.same_crtc;
          same_queued = kept.same_queued;
          same_visible = kept.same_visible;
          same_count = kept.same_count;
          settled = kept.settled;
          requested = kept.requested;
        },
        refl,
      )

  pub answered-IsAsked : IsAsked s (make_flags c f plan begun) answered.1
  answered-IsAsked =
      let flags = make_flags c f plan begun in
      check_layers_keeps (IsAsked s flags) (λ es. Unit {0}) (same-IsAsked s flags)
        (add_entries-IsAsked s flags) l f plan (set_all fails c f plan begun) tt tt set-IsAsked

  pub flip-crtc :
      (make_flags c f plan begun).page_flip_event ≡ true → (r : ℕ) × (begun.crtc ≡ some r)
  unfolding make_flags
  flip-crtc e = elim (Option-cases begun.crtc) [
    | inl missing ↦ absurd (ground (arith, missing))
    | inr found ↦ found
  ]

  pub awake-flip :
      (r : ℕ)
      → s.crtc ≡ some r
      → c.sleep_screen ≡ false
      → (make_flags c f plan begun).page_flip_event ≡ true
  unfolding make_flags make_plan drm_update_color_mgmt begin_request
  awake-flip r plugged awake = rw awake (
      ap (λ q. elim q as (λ _. Bool) [ none ↦ false | some r ↦ true ])
        (begun-IsReady.same_crtc ∙ plugged))

  set-fbs :
      ((set_all fails c f plan begun).fb_ids_in_request ≡ [])
      × ((set_all fails c f plan begun).crtc ≡ begun.crtc)
  unfolding begin_request
  set-fbs =
      let (t, kept, same) =
        set_all_keeps (λ (u : Drm). (u.fb_ids_in_request ≡ []) × (u.crtc ≡ begun.crtc)) fails
          (λ o k value forced u h. set_property-fbs fails o k value forced u begun.crtc h) c f plan
          begun (refl, refl) in
      subst (λ (u : Drm). (u.fb_ids_in_request ≡ []) × (u.crtc ≡ begun.crtc)) (sym same) kept

  -- Without a page flip no framebuffer is in the request, since libliftoff is not asked.
  pub unflipped-fbs :
      (make_flags c f plan begun).page_flip_event ≡ false → answered.1.fb_ids_in_request ≡ []
  unfolding make_flags
  unflipped-fbs e =
      let set = set_all fails c f plan begun in
      let fb_ids = λ (u : Drm). u.fb_ids_in_request in
      elim (unflipped_cases plan.sleep begun.crtc e) [
        | inl asleep ↦ ap fb_ids (check_layers_sleeping l f plan set asleep) ∙ set-fbs.0
        | inr missing ↦
            ap fb_ids (check_layers_unplugged l f plan set (set-fbs.1 ∙ missing)) ∙ set-fbs.0
      ]

  -- If libliftoff takes the frame, its framebuffers are in the request.
  pub answered-layers :
      (r : ℕ)
      → s.crtc ≡ some r
      → s.use_liftoff ≡ true
      → c.sleep_screen ≡ false
      → is_success answered.0 ≡ true
      → map some answered.1.fb_ids_in_request ≡ f.layers
  unfolding make_plan
  answered-layers r plugged liftoff awake e =
      let set = set_all fails c f plan begun in
      let taken =
        check_layers_awake l f plan set r (set-fbs.1 ∙ begun-IsReady.same_crtc ∙ plugged)
          (set-IsAsked.0.same_liftoff ∙ liftoff) awake in
      ap (λ (x : Errno × Drm). map some x.1.fb_ids_in_request) taken
      ∙ drm_prepare_liftoff-fbs l f.entry f.layers plan.needs_modeset set set-fbs.0
          (sym (ap (λ (x : Errno × Drm). is_success x.0) taken) ∙ e)

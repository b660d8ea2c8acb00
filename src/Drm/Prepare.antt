-- ===== src/Drm/Prepare.antt =====
-- src/Backends/DRMBackend.cpp: drm_prepare, which makes the request for a frame. `none` is an assertion
-- that fails, or a null pointer that is read.
use cloud_desktop.Prelude.{
  ℕ, Bool, true, false, not, ◌&&◌, ◌||◌, ◌==◌, if◌then◌else◌, Option, none, some, List, [], ◌∷◌,
}
use cloud_desktop.Drm.Store.{
  Drm, Fails, Flags, active, amd_crtc_regamma_tf, broadcast_rgb, colorspace, connector_crtc_id,
  content_type, crtc_ctm, current_value, degamma_lut, drm_rollback, gamma_lut, hdr_output_metadata,
  mode_id_property, out_fence_ptr, set_property, vrr_capable, vrr_enabled,
}
use cloud_desktop.Drm.Liftoff.{Errno, Liftoff, drm_prepare_liftoff}
use cloud_desktop.Drm.Plan.{
  Frame, Plan, Settings, begin_request, blob_value, content_type_game, drm_update_color_mgmt,
  inverse_tf, make_plan, object_has, transfer_default,
}

unfoldable pub disable_connector : Fails → ℕ → Drm → Drm
unfolding set_property
disable_connector fails o s =
    if current_value (s.store o connector_crtc_id) == 0
    then s
    else set_property fails o broadcast_rgb 0 true (
        set_property fails o content_type 0 true (
          set_property fails o hdr_output_metadata 0 true (
            set_property fails o colorspace 0 true
              (set_property fails o connector_crtc_id 0 true s))))

unfoldable pub disable_crtc : Fails → ℕ → Drm → Drm
unfolding set_property
disable_crtc fails o s =
    if current_value (s.store o active) == 0
    then s
    else set_property fails o amd_crtc_regamma_tf 0 true (
        set_property fails o out_fence_ptr 0 true (
          set_property fails o vrr_enabled 0 true (
            set_property fails o crtc_ctm 0 true (
              set_property fails o degamma_lut 0 true (
                set_property fails o gamma_lut 0 true (
                  set_property fails o mode_id_property 0 true
                    (set_property fails o active 0 true s)))))))

-- A loop that disables objects.
unfoldable pub disable_each : (ℕ → Drm → Drm) → List ℕ → Drm → Drm
disable_each f [] s = s
disable_each f (o ∷ os) s = disable_each f os (f o s)

abbrev pub truth : Bool → ℕ
truth true = 1
truth false = 0

unfoldable pub enable_crtc : Fails → Plan → ℕ → Drm → Drm
unfolding set_property
enable_crtc fails p r s = set_property fails r vrr_enabled (truth p.vrr) true (
    set_property fails r mode_id_property (blob_value s.pending.mode_id) true
      (set_property fails r active 1 true s))

-- An action on the CRTC, if there is one.
abbrev pub with_crtc : (ℕ → Drm → Drm) → Drm → Drm
with_crtc f s = elim s.crtc [ none ↦ s | some r ↦ f r s ]

abbrev pub object_id : Option ℕ → ℕ
object_id none = 0
object_id (some r) = r

unfoldable pub set_modes : Fails → Plan → Drm → Drm
unfolding disable_connector disable_crtc disable_each enable_crtc set_property
set_modes fails p s =
    let off =
      disable_each (disable_crtc fails) s.crtcs
        (disable_each (disable_connector fails) s.connectors s) in
    let on =
      set_property fails p.target colorspace p.colorimetry true
        (set_property fails p.target connector_crtc_id (object_id off.crtc) true off) in
    if p.sleep then off else with_crtc (enable_crtc fails p) on

-- What is set whether or not there is a modeset, unless the screen sleeps.
unfoldable pub set_metadata : Fails → Settings → Plan → Drm → Drm
unfolding set_property
set_metadata fails c p s =
    set_property fails p.target broadcast_rgb
      (if c.screen_is_external then c.external_broadcast_rgb else 0) p.needs_modeset
      (set_property fails p.target content_type content_type_game p.needs_modeset
        (set_property fails p.target hdr_output_metadata (blob_value p.metadata) p.needs_modeset s))

unfoldable pub set_regamma : Fails → Settings → Plan → ℕ → Drm → Drm
unfolding set_property inverse_tf
set_regamma fails c p r s =
    set_property fails r amd_crtc_regamma_tf
      (if c.debug_disable_regamma_tf then transfer_default else inverse_tf s.pending.output_tf)
      p.needs_modeset s

unfoldable pub make_flags : Settings → Frame → Plan → Drm → Flags
make_flags c f p s = record {
  nonblock = true;
  page_flip_event = not p.sleep && elim s.crtc [ none ↦ false | some r ↦ true ];
  page_flip_async = not p.sleep && (f.async || c.force_async_flips);
  allow_modeset = p.needs_modeset;
}

unfoldable pub set_all : Fails → Settings → Frame → Plan → Drm → Drm
unfolding set_modes set_metadata set_regamma make_flags
set_all fails c f p s =
    let modes = if p.needs_modeset then set_modes fails p s else s in
    let on = with_crtc (set_regamma fails c p) (set_metadata fails c p modes) in
    record (if p.sleep then modes else on) { flags = make_flags c f p s }

unfoldable pub check_layers : Liftoff → Frame → Plan → Drm → Errno × Drm
unfolding drm_prepare_liftoff
check_layers l f p s = elim s.crtc [
  | none ↦ (Errno.success, s)
  | some r ↦
      if p.sleep || not s.use_liftoff
      then (Errno.success, s)
      else drm_prepare_liftoff l f.entry f.layers p.needs_modeset s
]

-- What is undone if the frame cannot be presented in this way.
unfoldable pub abandon : Plan → Drm → Drm
unfolding drm_rollback
abandon p s =
    let back = record (drm_rollback s) { req = none; fb_ids_in_request = [] } in
    if p.needs_modeset then record back { needs_modeset = true } else back

abbrev pub checked : Plan → Errno × Drm → Errno × Drm
checked p (Errno.success, s) = (Errno.success, s)
checked p (Errno.einval, s) = (Errno.einval, abandon p s)
checked p (Errno.eperm, s) = (Errno.eperm, abandon p s)
checked p (Errno.eacces, s) = (Errno.eacces, abandon p s)
checked p (Errno.ebusy, s) = (Errno.ebusy, abandon p s)
checked p (Errno.other, s) = (Errno.other, abandon p s)

unfoldable pub prepare_on : Fails → Settings → Liftoff → Frame → ℕ → Drm → Errno × Drm
unfolding drm_update_color_mgmt make_plan begin_request set_all check_layers abandon
prepare_on fails c l f target s =
    let s₁ = drm_update_color_mgmt c s in
    let p = make_plan c f target s₁ in
    checked p (check_layers l f p (set_all fails c f p (begin_request c f s₁)))

-- Whether VRR_ENABLED is read where there is no CRTC or the CRTC has no such property, or the id of a CRTC
-- where there is none.
unfoldable pub reads_null : Settings → Frame → ℕ → Drm → Bool
unfolding drm_update_color_mgmt make_plan
reads_null c f target s =
    let p = make_plan c f target (drm_update_color_mgmt c s) in
    (not (current_value (s.store target vrr_capable) == 0) && not (object_has s.crtc vrr_enabled s))
    || (p.needs_modeset && not p.sleep && elim s.crtc [ none ↦ true | some r ↦ false ])

unfoldable pub drm_prepare : Fails → Settings → Liftoff → Frame → Drm → Option (Errno × Drm)
unfolding prepare_on reads_null
drm_prepare fails c l f s = elim s.connector [
  | none ↦ some (Errno.eacces, s)
  | some target ↦ elim s.req [
    | none ↦ if reads_null c f target s then none else some (prepare_on fails c l f target s)
    | some req ↦ none
  ]
]

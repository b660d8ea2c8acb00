-- ===== src/Drm/Plan.antt =====
-- src/Backends/DRMBackend.cpp: what drm_prepare reads and decides before it sets properties.
use cloud_desktop.Prelude.{
  ℕ, Bool, false, not, ◌&&◌, ◌||◌, ◌==◌, ◌=ᵇ◌, ltb, length, if◌then◌else◌, Option, none, some, List,
  [], map,
}
use cloud_desktop.Drm.Store.{
  Drm, colorspace, connector_crtc_id, current_value, has_property, hdr_output_metadata, vrr_capable,
  vrr_enabled,
}

-- What drm_prepare reads from elsewhere. The luts are the blobs of the shaper and of the 3D LUT for each
-- EOTF.
pub record Settings : Type 0 where
  pub supports_color_mgmt : Bool
  pub color_mgmt_serial : ℕ
  pub luts : List (Option ℕ × Option ℕ)
  pub output_hdr_enabled : Bool
  pub connector_is_hdr10 : Bool
  pub default_metadata : Option ℕ
  pub feedback_metadata : Option ℕ
  pub sdr_static_metadata : Option ℕ
  pub sleep_screen : Bool
  pub screen_is_external : Bool
  pub external_broadcast_rgb : ℕ
  pub force_async_flips : Bool
  pub single_plane_optimizations : Bool
  pub debug_disable_output_tf : Bool
  pub debug_disable_regamma_tf : Bool

-- FrameInfo_t with the framebuffers of its layers, and what stands for it in the cache.
pub record Frame : Type 0 where
  pub async : Bool
  pub allow_vrr : Bool
  pub output_is_pq : Bool
  pub apply_output_color_mgmt : Bool
  pub layers : List (Option ℕ)
  pub entry : ℕ

abbrev pub transfer_default : ℕ
transfer_default = 0

abbrev pub srgb_eotf : ℕ
srgb_eotf = 1

abbrev pub pq_eotf : ℕ
pq_eotf = 3

abbrev pub bt2020_rgb : ℕ
bt2020_rgb = 9

abbrev pub content_type_game : ℕ
content_type_game = 4

-- By the order of amdgpu_transfer_function.
unfoldable pub inverse_tf : ℕ → ℕ
inverse_tf tf =
    if tf == 4
    then 4
    else if tf == 1
    then 8
    else if tf == 9
    then 2
    else if tf == 3
    then 10
    else if tf == 5
    then 11
    else if tf == 6
    then 12
    else if tf == 7
    then 13
    else if tf == 8
    then 1
    else if tf == 2
    then 9
    else if tf == 10
    then 3
    else if tf == 11
    then 5
    else if tf == 12
    then 6
    else if tf == 13
    then 7
    else 0

unfoldable pub drm_update_color_mgmt : Settings → Drm → Drm
drm_update_color_mgmt c s =
    if not c.supports_color_mgmt || c.color_mgmt_serial == s.current.color_mgmt_serial
    then s
    else record s {
      pending = record (s.pending) {
        color_mgmt_serial = c.color_mgmt_serial;
        shaperlut_id = map (λ l. l.0) c.luts;
        lut3d_id = map (λ l. l.1) c.luts;
      };
    }

abbrev pub blob_value : Option ℕ → ℕ
blob_value none = 0
blob_value (some v) = v

-- A property of an object that may be missing.
abbrev pub value_of : Option ℕ → ℕ → Drm → ℕ
value_of none k s = 0
value_of (some o) k s = current_value (s.store o k)

abbrev pub object_has : Option ℕ → ℕ → Drm → Bool
object_has none k s = false
object_has (some o) k s = has_property (s.store o k)

-- The local variables of drm_prepare, for the connector `target`.
pub record Plan : Type 0 where
  pub target : ℕ
  pub vrr : Bool
  pub colorimetry : ℕ
  pub metadata : Option ℕ
  pub needs_modeset : Bool
  pub sleep : Bool

abbrev pub chosen_metadata : Settings → Frame → Option ℕ
chosen_metadata c f =
    if c.output_hdr_enabled && f.output_is_pq
    then elim c.feedback_metadata [ none ↦ c.default_metadata | some m ↦ some m ]
    else c.sdr_static_metadata

-- VRR that is asked for differs from the CRTC's, the colour space from the connector's, or the screen is
-- to sleep or to wake up.
unfoldable pub make_plan : Settings → Frame → ℕ → Drm → Plan
make_plan c f target s =
    let capable = not (current_value (s.store target vrr_capable) == 0) in
    let vrr = capable && object_has s.crtc vrr_enabled s && f.allow_vrr in
    let hdr10 =
      has_property (s.store target colorspace)
      && has_property (s.store target hdr_output_metadata)
      && c.connector_is_hdr10 in
    let colorimetry = if hdr10 && c.output_hdr_enabled && f.output_is_pq then bt2020_rgb else 0 in
    let asleep = current_value (s.store target connector_crtc_id) == 0 in
    record {
      target = target;
      vrr = vrr;
      colorimetry = colorimetry;
      metadata = (if hdr10 then chosen_metadata c f else none);
      needs_modeset =
          s.needs_modeset
          || (capable && not (vrr =ᵇ not (value_of s.crtc vrr_enabled s == 0)))
          || (hdr10 && not (colorimetry == current_value (s.store target colorspace)))
          || not (asleep =ᵇ c.sleep_screen);
      sleep = c.sleep_screen;
    }

unfoldable pub pending_tf : Settings → Frame → ℕ
pending_tf c f =
    if c.supports_color_mgmt
      && f.apply_output_color_mgmt
      && not c.debug_disable_output_tf
      && not (ltb (length f.layers) 2 && c.single_plane_optimizations)
    then if c.output_hdr_enabled then pq_eotf else srgb_eotf
    else transfer_default

-- The request is begun.
unfoldable pub begin_request : Settings → Frame → Drm → Drm
unfolding pending_tf
begin_request c f s = record s {
  fb_ids_in_request = [];
  needs_modeset = false;
  req = some [];
  pending = record (s.pending) { output_tf = pending_tf c f };
}

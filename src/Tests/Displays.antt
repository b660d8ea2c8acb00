-- ===== src/Tests/Displays.antt =====
-- Frames for a display with one CRTC (src/Backends/DRMBackend.cpp).
use cloud_desktop.Prelude.{
  subst, ℕ, ◌≡◌, refl, sym, ap, Bool, true, false, ◌==◌, ◌||◌, if◌then◌else◌, Option, none, some,
  some_inj, [], ◌∷◌, arith,
}
use cloud_desktop.Drm.Store.{AtomicProperty, Drm, DrmState, Fails}
use cloud_desktop.Drm.Liftoff.{Errno, is_success}
use cloud_desktop.Drm.Plan.{Settings}
use cloud_desktop.Drm.Prepare.{reads_null}
use cloud_desktop.Drm.Commit.{Attempt, present}
use cloud_desktop.Drm.Fallback.{Presented, present_all}
use cloud_desktop.Drm.Presents.{IsConfined, present_all-current}
use cloud_desktop.Drm.History.{Apply, IsApart}
use cloud_desktop.Drm.Ready.{IsQuiet}
use cloud_desktop.Drm.Shown.{IsPresented, present-IsPresented}
use cloud_desktop.Drm.Tracking.{IsMirrored, Values, value_after}

abbrev never_fails : Fails
never_fails req entry = false

-- The kernel takes the last value.
abbrev apply_last : Apply
apply_last req v o k = value_after req o k (v o k)

abbrev is_tracked : ℕ → Bool
is_tracked o = o == 40 || o == 50

-- The connector 40 is on the CRTC 50, which is active.
abbrev kernel_values : Values
kernel_values o k =
    if o == 40 then (if k == 0 then 50 else 0) else if k == 0 then 1 else if k == 1 then 7 else 0

abbrev known : ℕ → AtomicProperty
known v = record { pending = v; current = v; initial = v }

abbrev full_hd : DrmState
full_hd = record {
  mode_id = some 7;
  color_mgmt_serial = 1;
  lut3d_id = [];
  shaperlut_id = [];
  output_tf = 0;
}

-- Another mode was asked for.
abbrev display : Drm
display = record {
  use_liftoff = true;
  store = λ o k. if is_tracked o then some (known (kernel_values o k)) else none;
  crtcs = 50 ∷ [];
  planes = 60 ∷ 61 ∷ [];
  connectors = 40 ∷ [];
  crtc = some 50;
  connector = some 40;
  req = none;
  flags = record {
    nonblock = true;
    page_flip_event = true;
    page_flip_async = false;
    allow_modeset = false;
  };
  current = full_hd;
  pending = record full_hd { mode_id = some 8 };
  fb_ids_in_request = [];
  queued_fb_ids = [];
  visible_fb_ids = 90 ∷ [];
  pending_flip_count = 0;
  needs_modeset = true;
  queued_presents = 4;
  completed_presents = 4;
  present_ctxs = λ i. 0;
  next_present_ctx = 1;
  cache = [];
  attempted_in_fence_fallback = false;
  disable_in_fence_fd = false;
}

abbrev plain : Settings
plain = record {
  supports_color_mgmt = true;
  color_mgmt_serial = 2;
  luts = (some 70, some 71) ∷ [];
  output_hdr_enabled = false;
  connector_is_hdr10 = false;
  default_metadata = none;
  feedback_metadata = none;
  sdr_static_metadata = none;
  sleep_screen = false;
  screen_is_external = true;
  external_broadcast_rgb = 1;
  force_async_flips = false;
  single_plane_optimizations = false;
  debug_disable_output_tf = false;
  debug_disable_regamma_tf = false;
}

-- A game with an overlay, on the planes 60 and 61.
abbrev shown_well : Attempt
shown_well = record {
  settings = plain;
  liftoff = record {
    first = record {
      result = Errno.success;
      entries =
          record { object = 61; property = 0; value = 92 }
          ∷ record { object = 60; property = 0; value = 91 }
          ∷ [];
    };
    second = record { result = Errno.success; entries = [] };
    needs_composition = false;
    caching = true;
  };
  frame = record {
    async = false;
    allow_vrr = true;
    output_is_pq = false;
    apply_output_color_mgmt = true;
    layers = some 91 ∷ some 92 ∷ [];
    entry = 3;
  };
  answer = Errno.success;
  crtc_id = 50;
}

abbrev refused_once : Attempt
refused_once = record shown_well { answer = Errno.ebusy }

display-IsQuiet : IsQuiet display
display-IsQuiet = record { no_request = refl; none_queued = refl; no_flip = refl }

display-IsMirrored : IsMirrored is_tracked kernel_values display
display-IsMirrored = record {
  current = λ o k p t e. ap (λ (q : AtomicProperty). q.current) (some_inj (sym (rw t at e)));
  pending = λ o k p t e. ap (λ (q : AtomicProperty). q.pending) (some_inj (sym (rw t at e)));
  listed = λ o t. ground arith;
}

abbrev is_some : Option (Drm × Values) → Bool
is_some none = false
is_some (some w) = true

some_of : (o : Option (Drm × Values)) → is_some o ≡ true → (w : Drm × Values) × (o ≡ some w)
some_of none e = cc
some_of (some w) e = (w, refl)

-- libliftoff refuses the layers, and the kernel the composited frame; the next frame is presented as it is.
abbrev refused_layers : Attempt
refused_layers = record shown_well {
  liftoff = record (shown_well.liftoff) { first = record { result = Errno.einval; entries = [] } };
}

abbrev composited_once : Presented
composited_once = record {
  direct = some refused_layers;
  composited = true;
  first = refused_once;
  second = refused_once;
}

abbrev direct_once : Presented
direct_once = record {
  direct = some shown_well;
  composited = true;
  first = shown_well;
  second = shown_well;
}

frames_end :
    is_some (
      present_all never_fails apply_last
        (composited_once ∷ direct_once ∷ [])
        (display, kernel_values))
    ≡ true
unfolding present_all
frames_end = refl

outcome :
    (w : Drm × Values) × (present_all never_fails apply_last
        (composited_once ∷ direct_once ∷ [])
        (display, kernel_values)
      ≡ some w)
outcome =
    some_of
      (present_all never_fails apply_last (composited_once ∷ direct_once ∷ [])
        (display, kernel_values))
      frames_end

shown_well-IsApart : IsApart is_tracked shown_well
shown_well-IsApart = ((refl, (refl, tt)), tt)

composited_once-IsConfined : IsConfined is_tracked composited_once
composited_once-IsConfined = (
  λ a e. subst (IsApart is_tracked) (some_inj e) (tt, tt),
  shown_well-IsApart,
  shown_well-IsApart,
)

direct_once-IsConfined : IsConfined is_tracked direct_once
direct_once-IsConfined = (
  λ a e. subst (IsApart is_tracked) (some_inj e) shown_well-IsApart,
  shown_well-IsApart,
  shown_well-IsApart,
)

present_all-current_example :
    (outcome.0.0.req ≡ none)
    × ((o k : ℕ) (p : AtomicProperty)
        → is_tracked o ≡ true
        → outcome.0.0.store o k ≡ some p
        → (p.current ≡ outcome.0.1 o k) × (p.pending ≡ outcome.0.1 o k))
present_all-current_example =
    present_all-current is_tracked apply_last never_fails (composited_once ∷ direct_once ∷ [])
      display outcome.0.0 kernel_values outcome.0.1 (λ req u o k t. refl)
      (composited_once-IsConfined, (direct_once-IsConfined, tt)) display-IsMirrored refl outcome.1

present-IsPresented_example :
    (r : Errno × Drm) × (present never_fails shown_well display ≡ some r)
    × IsPresented shown_well display r
unfolding reads_null
present-IsPresented_example =
    present-IsPresented never_fails shown_well 40 display refl refl refl display-IsQuiet refl

abbrev is_taken : Option (Errno × Drm) → Bool
is_taken none = false
is_taken (some r) = is_success r.0

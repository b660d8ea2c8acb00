-- ===== src/Drm/Setting.antt =====
-- What drm_prepare keeps until it asks libliftoff, from what each setting of a property keeps
-- (src/Backends/DRMBackend.cpp).
use cloud_desktop.Prelude.{
  ℕ, ◌≡◌, refl, Bool, true, ◌==◌, if_keeps, if◌then◌else◌, none, some, List, [], ◌∷◌,
}
use cloud_desktop.Drm.Store.{Drm, Fails, current_value, set_property}
use cloud_desktop.Drm.Plan.{Frame, Plan, Settings}
use cloud_desktop.Drm.Prepare.{
  make_flags, disable_connector, disable_crtc, disable_each, enable_crtc, set_all, set_metadata,
  set_modes, set_regamma, with_crtc,
}

module _ (P : Drm → Type 0) (fails : Fails)
    (keep : (o k value : ℕ) (forced : Bool) (s : Drm)
      → P s
      → P (set_property fails o k value forced s)) where
  disable_connector_keeps : (o : ℕ) (s : Drm) → P s → P (disable_connector fails o s)
  unfolding disable_connector
  disable_connector_keeps o s m = if_keeps P (current_value (s.store o 0) == 0) _ _ m (
      keep o _ 0 true _
        (keep o _ 0 true _ (keep o _ 0 true _ (keep o _ 0 true _ (keep o _ 0 true s m)))))

  disable_crtc_keeps : (o : ℕ) (s : Drm) → P s → P (disable_crtc fails o s)
  unfolding disable_crtc
  disable_crtc_keeps o s m = if_keeps P (current_value (s.store o 0) == 0) _ _ m (
      keep o _ 0 true _ (
        keep o _ 0 true _ (
          keep o _ 0 true _ (
            keep o _ 0 true _
              (keep o _ 0 true _ (keep o _ 0 true _ (keep o _ 0 true _ (keep o _ 0 true s m))))))))

  disable_each_keeps :
      (f : ℕ → Drm → Drm) (os : List ℕ) (s : Drm)
      → ((o : ℕ) (t : Drm) → P t → P (f o t))
      → P s
      → P (disable_each f os s)
  unfolding disable_each
  disable_each_keeps f [] s each m = m
  disable_each_keeps f (o ∷ os) s each m = disable_each_keeps f os (f o s) each (each o s m)

  with_crtc_keeps :
      (f : ℕ → Drm → Drm) (s : Drm)
      → ((o : ℕ) (t : Drm) → P t → P (f o t))
      → P s
      → P (with_crtc f s)
  with_crtc_keeps f s each m = elim s.crtc as (λ r. P (elim r [ none ↦ s | some o ↦ f o s ])) [
    | none ↦ m
    | some o ↦ each o s m
  ]

  enable_crtc_keeps : (p : Plan) (o : ℕ) (s : Drm) → P s → P (enable_crtc fails p o s)
  unfolding enable_crtc
  enable_crtc_keeps p o s m = keep o _ _ true _ (keep o _ _ true _ (keep o _ _ true s m))

  set_modes_keeps : (p : Plan) (s : Drm) → P s → P (set_modes fails p s)
  unfolding set_modes
  set_modes_keeps p s m =
      let off =
        disable_each_keeps (disable_crtc fails) s.crtcs _ disable_crtc_keeps
          (disable_each_keeps (disable_connector fails) s.connectors s disable_connector_keeps m) in
      if_keeps P p.sleep _ _ off (
        with_crtc_keeps (enable_crtc fails p) _ (enable_crtc_keeps p)
          (keep p.target _ _ true _ (keep p.target _ _ true _ off)))

  set_metadata_keeps : (c : Settings) (p : Plan) (s : Drm) → P s → P (set_metadata fails c p s)
  unfolding set_metadata
  set_metadata_keeps c p s m =
      keep p.target _ _ p.needs_modeset _
        (keep p.target _ _ p.needs_modeset _ (keep p.target _ _ p.needs_modeset s m))

  set_regamma_keeps :
      (c : Settings) (p : Plan) (o : ℕ) (s : Drm) → P s → P (set_regamma fails c p o s)
  unfolding set_regamma
  set_regamma_keeps c p o s m = keep o _ _ p.needs_modeset s m

  pub set_all_keeps :
      (c : Settings) (f : Frame) (p : Plan) (s : Drm)
      → P s
      → (t : Drm) × P t × (set_all fails c f p s ≡ record t { flags = make_flags c f p s })
  unfolding set_all
  set_all_keeps c f p s m =
      let modes : Drm = if p.needs_modeset then set_modes fails p s else s in
      let modes_kept =
        if_keeps P p.needs_modeset (set_modes fails p s) s (set_modes_keeps p s m) m in
      let on = with_crtc (set_regamma fails c p) (set_metadata fails c p modes) in
      let on_kept =
        with_crtc_keeps (set_regamma fails c p) _ (set_regamma_keeps c p)
          (set_metadata_keeps c p _ modes_kept) in
      ((if p.sleep then modes else on), if_keeps P p.sleep modes on modes_kept on_kept, refl)

-- ===== src/Drm/Asking.antt =====
-- What drm_prepare_liftoff keeps, if adding entries for some objects and changing what it alone uses keeps
-- it (src/Backends/DRMBackend.cpp).
use cloud_desktop.Prelude.{
  ℕ, Bool, true, not, ◌&&◌, ◌||◌, if_keeps, if◌then◌else◌, Option, none, some, List, [], ◌∷◌,
}
use cloud_desktop.Drm.Store.{Drm, Entry}
use cloud_desktop.Drm.Liftoff.{
  Errno, Liftoff, add_entries, add_layers, apply_output, drm_prepare_liftoff, is_cached, is_einval,
  is_eperm, is_success,
}
use cloud_desktop.Drm.Plan.{Frame, Plan}
use cloud_desktop.Drm.Prepare.{check_layers}

module _ (P : Drm → Type 0) (A : List Entry → Type 0)
    (keep_rest : (s : Drm) (cache fbs : List ℕ) (attempted disabled : Bool)
      → P s
      → P (record s {
        cache = cache;
        fb_ids_in_request = fbs;
        attempted_in_fence_fallback = attempted;
        disable_in_fence_fd = disabled;
      }))
    (keep_entries : (es : List Entry) (s : Drm) → A es → P s → P (add_entries es s)) where
  apply_output_keeps :
      (l : Liftoff) (s : Drm)
      → A l.first.entries
      → A l.second.entries
      → P s
      → P (apply_output l s).1
  unfolding apply_output
  apply_output_keeps l s first second m =
      let once = add_entries l.first.entries s in
      let m₁ : P once = keep_entries l.first.entries s first m in
      let tried = record once { attempted_in_fence_fallback = true } in
      let m₂ =
        keep_entries l.second.entries tried second
          (keep_rest once once.cache once.fb_ids_in_request true once.disable_in_fence_fd m₁) in
      let twice = add_entries l.second.entries tried in
      let works = is_success l.second.result in
      let last : Drm = if works then record twice { disable_in_fence_fd = true } else twice in
      let m₃ =
        if_keeps (P) works (record twice { disable_in_fence_fd = true }) twice
          (keep_rest twice twice.cache twice.fb_ids_in_request twice.attempted_in_fence_fallback
            true m₂)
          m₂ in
      if_keeps (λ (r : Errno × Drm). P r.1)
        (is_eperm l.first.result && not s.attempted_in_fence_fallback && not s.disable_in_fence_fd)
        (l.second.result, last) (l.first.result, once) m₃ m₁

  drm_prepare_liftoff_keeps :
      (l : Liftoff) (entry : ℕ) (layers : List (Option ℕ)) (needs_modeset : Bool) (s : Drm)
      → A l.first.entries
      → A l.second.entries
      → P s
      → P (drm_prepare_liftoff l entry layers needs_modeset s).1
  unfolding drm_prepare_liftoff
  drm_prepare_liftoff_keeps l entry layers needs_modeset s first second m =
      let m₁ =
        if_keeps (P) needs_modeset (record s { cache = [] }) s
          (keep_rest s [] s.fb_ids_in_request s.attempted_in_fence_fallback s.disable_in_fence_fd m)
          m in
      let s₁ : Drm = if needs_modeset then record s { cache = [] } else s in
      let added = add_layers layers s₁.fb_ids_in_request in
      let s₂ = record s₁ { fb_ids_in_request = added.1 } in
      let m₂ : P s₂ =
        keep_rest s₁ s₁.cache added.1 s₁.attempted_in_fence_fallback s₁.disable_in_fence_fd m₁ in
      let (result, s₃) = apply_output l s₂ in
      let m₃ : P s₃ = apply_output_keeps l s₂ first second m₂ in
      let answer : Errno =
        if is_success result && l.needs_composition then Errno.einval else result in
      let fresh = not needs_modeset && is_einval answer in
      let last : Drm = if fresh then record s₃ { cache = entry ∷ s₃.cache } else s₃ in
      let m₄ =
        if_keeps (P) fresh (record s₃ { cache = entry ∷ s₃.cache }) s₃
          (keep_rest s₃ (entry ∷ s₃.cache) s₃.fb_ids_in_request s₃.attempted_in_fence_fallback
            s₃.disable_in_fence_fd m₃)
          m₃ in
      let tried : Errno × Drm = if not added.0 then (Errno.einval, s₂) else (answer, last) in
      if_keeps (λ (r : Errno × Drm). P r.1) (l.caching && is_cached entry s₁.cache)
        (Errno.einval, s₁) tried m₁
        (if_keeps (λ (r : Errno × Drm). P r.1) (not added.0) (Errno.einval, s₂) (answer, last) m₂
          m₄)

  pub check_layers_keeps :
      (l : Liftoff) (f : Frame) (p : Plan) (s : Drm)
      → A l.first.entries
      → A l.second.entries
      → P s
      → P (check_layers l f p s).1
  unfolding check_layers
  check_layers_keeps l f p s first second m =
      let asked = drm_prepare_liftoff l f.entry f.layers p.needs_modeset s in
      let m' = drm_prepare_liftoff_keeps l f.entry f.layers p.needs_modeset s first second m in
      elim s.crtc
        as (λ r.
          P
            (elim r as (λ _. Errno × Drm) [
              | none ↦ (Errno.success, s)
              | some o ↦ if p.sleep || not s.use_liftoff then (Errno.success, s) else asked
            ]).1) [
              | none ↦ m
              | some o ↦
                  if_keeps (λ (r : Errno × Drm). P r.1) (p.sleep || not s.use_liftoff)
                    (Errno.success, s) asked m m'
            ]

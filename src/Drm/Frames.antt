-- ===== src/Drm/Frames.antt =====
-- Preparing and committing a frame, and what is kept of the properties
-- (src/Backends/DRMBackend.cpp).
use cloud_desktop.Prelude.{ℕ, ◌≡◌, refl, sym, subst, Bool, true, false, if_keeps, none, [], All}
use cloud_desktop.Drm.Store.{Drm, Fails, drm_rollback, rollback_property}
use cloud_desktop.Drm.Liftoff.{Errno, Liftoff}
use cloud_desktop.Drm.Plan.{Frame, Plan, Settings, begin_request, drm_update_color_mgmt, make_plan}
use cloud_desktop.Drm.Prepare.{abandon, checked, prepare_on, set_all}
use cloud_desktop.Drm.Commit.{begin_commit, fail_commit}
use cloud_desktop.Drm.Tracking.{IsMirrored, Values, set_property-IsMirrored}
use cloud_desktop.Drm.Setting.{set_all_keeps}
use cloud_desktop.Drm.Asking.{check_layers_keeps}
use cloud_desktop.Drm.Objects.{
  add_entries-IsMirrored, for_all-at, rollback_property_once, rolled_back, same_view,
}

module _ (tracked : ℕ → Bool) (v : Values) where
  -- A frame that could not be prepared leaves no request.
  abbrev pub IsPrepared : Errno × Drm → Type 0
  IsPrepared (Errno.success, s) = IsMirrored tracked v s
  IsPrepared (Errno.einval, s) = IsMirrored tracked v s × (s.req ≡ none)
  IsPrepared (Errno.eperm, s) = IsMirrored tracked v s × (s.req ≡ none)
  IsPrepared (Errno.eacces, s) = IsMirrored tracked v s × (s.req ≡ none)
  IsPrepared (Errno.ebusy, s) = IsMirrored tracked v s × (s.req ≡ none)
  IsPrepared (Errno.other, s) = IsMirrored tracked v s × (s.req ≡ none)

module _ {tracked : ℕ → Bool} {v : Values} where
  abandon-IsMirrored :
      (p : Plan) (s : Drm)
      → IsMirrored tracked v s
      → IsMirrored tracked v (abandon p s) × ((abandon p s).req ≡ none)
  unfolding abandon drm_rollback
  abandon-IsMirrored p s m =
      let back = record (drm_rollback s) { req = none; fb_ids_in_request = [] } in
      let m' : IsMirrored tracked v back =
        rolled_back s back refl refl refl
          (λ o k h. for_all-at rollback_property rollback_property_once s o k (m.listed o h)) m in
      if_keeps (λ t. IsMirrored tracked v t × (t.req ≡ none)) p.needs_modeset
        (record back { needs_modeset = true }) back (same_view back _ refl refl refl refl m', refl)
        (m', refl)

  checked-IsPrepared :
      (p : Plan) (r : Errno × Drm) → IsMirrored tracked v r.1 → IsPrepared tracked v (checked p r)
  checked-IsPrepared p (Errno.success, s) m = m
  checked-IsPrepared p (Errno.einval, s) m = abandon-IsMirrored p s m
  checked-IsPrepared p (Errno.eperm, s) m = abandon-IsMirrored p s m
  checked-IsPrepared p (Errno.eacces, s) m = abandon-IsMirrored p s m
  checked-IsPrepared p (Errno.ebusy, s) m = abandon-IsMirrored p s m
  checked-IsPrepared p (Errno.other, s) m = abandon-IsMirrored p s m

  pub prepare_on-IsPrepared :
      (fails : Fails) (c : Settings) (l : Liftoff) (f : Frame) (target : ℕ) (s : Drm)
      → All (λ e. tracked e.object ≡ false) l.first.entries
      → All (λ e. tracked e.object ≡ false) l.second.entries
      → IsMirrored tracked v s
      → s.req ≡ none
      → IsPrepared tracked v (prepare_on fails c l f target s)
  unfolding prepare_on drm_update_color_mgmt begin_request
  prepare_on-IsPrepared fails c l f target s first second m e =
      let s₁ = drm_update_color_mgmt c s in
      let p = make_plan c f target s₁ in
      let m₁ : IsMirrored tracked v s₁ × (s₁.req ≡ none) =
        if_keeps (λ (t : Drm). IsMirrored tracked v t × (t.req ≡ none)) _ _ _ (m, e)
          (same_view s _ refl refl refl refl m, e) in
      let begun : IsMirrored tracked v (begin_request c f s₁) = record {
        current = m₁.0.current;
        pending = λ o k q h here. rw m₁.1 at (m₁.0.pending o k q h here);
        listed = m₁.0.listed;
      } in
      let (t, kept, same) =
        set_all_keeps (IsMirrored tracked v) fails
          (λ o k value forced u h. set_property-IsMirrored fails o k value forced u h) c f p
          (begin_request c f s₁) begun in
      let set : IsMirrored tracked v (set_all fails c f p (begin_request c f s₁)) =
        subst (IsMirrored tracked v) (sym same) (same_view t _ refl refl refl refl kept) in
      let asked =
        check_layers_keeps (IsMirrored tracked v) (All (λ e. tracked e.object ≡ false))
          (λ u cache fbs attempted disabled h. same_view u _ refl refl refl refl h)
          add_entries-IsMirrored l f p (set_all fails c f p (begin_request c f s₁)) first second
          set in
      checked-IsPrepared p _ asked

  -- The kernel refused.
  pub fail_commit-IsMirrored :
      (s : Drm)
      → IsMirrored tracked v s
      → IsMirrored tracked v (fail_commit s) × ((fail_commit s).req ≡ none)
  unfolding fail_commit drm_rollback
  fail_commit-IsMirrored s m = (
    rolled_back s (fail_commit s) refl refl refl
        (λ o k h. for_all-at rollback_property rollback_property_once s o k (m.listed o h)) m,
    refl,
  )

  pub begin_commit-IsMirrored :
      (s : Drm) → IsMirrored tracked v s → IsMirrored tracked v (begin_commit s)
  unfolding begin_commit
  begin_commit-IsMirrored s m =
      let m' = if_keeps (IsMirrored tracked v) _ _ _ (same_view s _ refl refl refl refl m) m in
      same_view _ _ refl refl refl refl m'

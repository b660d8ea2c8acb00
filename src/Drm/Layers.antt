-- ===== src/Drm/Layers.antt =====
-- Which framebuffers a frame that libliftoff takes has in the request: drm_prepare_liftoff
-- (src/Backends/DRMBackend.cpp).
use cloud_desktop.Prelude.{
  ℕ, ◌≡◌, refl, sym, ap, ◌∙◌, Bool, true, not, ◌&&◌, Bool-cases, if_keeps, inl, inr, if◌then◌else◌,
  Option, none, some, List, [], ◌∷◌, ◌++◌, map,
}
use cloud_desktop.Drm.Store.{Drm}
use cloud_desktop.Drm.Liftoff.{
  Errno, Liftoff, add_layers, apply_output, drm_prepare_liftoff, is_cached, is_einval, is_eperm,
  is_success,
}

map-append :
    (fbs : List ℕ) (fb : ℕ) (layers : List (Option ℕ))
    → map some (fbs ++ fb ∷ []) ++ layers ≡ map some fbs ++ some fb ∷ layers
map-append [] fb layers = refl
map-append (x ∷ fbs) fb layers = ap (λ ls. some x ∷ ls) (map-append fbs fb layers)

append-nil : (layers : List (Option ℕ)) → layers ++ [] ≡ layers
append-nil [] = refl
append-nil (l ∷ layers) = ap (λ ls. l ∷ ls) (append-nil layers)

add_layers_complete :
    (layers : List (Option ℕ)) (fbs : List ℕ)
    → (add_layers layers fbs).0 ≡ true
    → map some (add_layers layers fbs).1 ≡ map some fbs ++ layers
unfolding add_layers
add_layers_complete [] fbs e = sym (append-nil (map some fbs))
add_layers_complete (none ∷ layers) fbs e = cc
add_layers_complete (some fb ∷ layers) fbs e =
    add_layers_complete layers (fbs ++ fb ∷ []) e ∙ map-append fbs fb layers

apply_output-fbs :
    (l : Liftoff) (s : Drm) → (apply_output l s).1.fb_ids_in_request ≡ s.fb_ids_in_request
unfolding apply_output
apply_output-fbs l s =
    if_keeps (λ (r : Errno × Drm). r.1.fb_ids_in_request ≡ s.fb_ids_in_request)
      (is_eperm l.first.result && not s.attempted_in_fence_fallback && not s.disable_in_fence_fd) _
      _
      (if_keeps (λ (t : Drm). t.fb_ids_in_request ≡ s.fb_ids_in_request)
        (is_success l.second.result) _ _ refl refl)
      refl

-- If it succeeds, the request has the framebuffers of all layers, in their order.
pub drm_prepare_liftoff-fbs :
    (l : Liftoff) (entry : ℕ) (layers : List (Option ℕ)) (needs_modeset : Bool) (s : Drm)
    → s.fb_ids_in_request ≡ []
    → is_success (drm_prepare_liftoff l entry layers needs_modeset s).0 ≡ true
    → map some (drm_prepare_liftoff l entry layers needs_modeset s).1.fb_ids_in_request ≡ layers
unfolding drm_prepare_liftoff
drm_prepare_liftoff-fbs l entry layers needs_modeset s empty =
    let s₁ : Drm = if needs_modeset then record s { cache = [] } else s in
    let added = add_layers layers s₁.fb_ids_in_request in
    let s₂ = record s₁ { fb_ids_in_request = added.1 } in
    let s₃ = (apply_output l s₂).1 in
    let answer =
      if is_success (apply_output l s₂).0 && l.needs_composition
      then Errno.einval
      else (apply_output l s₂).0 in
    let done : Errno × Drm = (
      answer,
      if not needs_modeset && is_einval answer then record s₃ { cache = entry ∷ s₃.cache } else s₃,
    ) in
    let first : s₁.fb_ids_in_request ≡ [] =
      if_keeps (λ (t : Drm). t.fb_ids_in_request ≡ []) needs_modeset _ _ empty empty in
    let P = λ (r : Errno × Drm). is_success r.0 ≡ true → map some r.1.fb_ids_in_request ≡ layers in
    if_keeps P (l.caching && is_cached entry s₁.cache) (Errno.einval, s₁) _ (λ e. cc)
      (elim (Bool-cases added.0) [
        | inl complete ↦ rw complete (λ e.
            ap (map some) (
              if_keeps (λ (t : Drm). t.fb_ids_in_request ≡ s₃.fb_ids_in_request)
                (not needs_modeset && is_einval answer) _ _ refl refl
              ∙ apply_output-fbs l s₂)
            ∙ add_layers_complete layers s₁.fb_ids_in_request complete
            ∙ ap (λ fbs. map some fbs ++ layers) first)
        | inr cut ↦ rw cut (λ e. cc)
      ])

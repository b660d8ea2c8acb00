-- ===== src/Drm/Liftoff.antt =====
-- src/Backends/DRMBackend.cpp: drm_prepare_liftoff. libliftoff is a parameter: what liftoff_output_apply
-- answers, and which entries it adds to the request.
use cloud_desktop.Prelude.{
  ℕ, Bool, true, false, not, ◌&&◌, ◌||◌, ◌==◌, if◌then◌else◌, Option, none, some, List, [], ◌∷◌,
  ◌++◌,
}
use cloud_desktop.Drm.Store.{Drm, Entry}

pub data Errno : Type 0 where
  success : Errno
  einval : Errno
  eperm : Errno
  eacces : Errno
  ebusy : Errno
  other : Errno

abbrev pub is_success : Errno → Bool
is_success Errno.success = true
is_success Errno.einval = false
is_success Errno.eperm = false
is_success Errno.eacces = false
is_success Errno.ebusy = false
is_success Errno.other = false

abbrev pub is_einval : Errno → Bool
is_einval Errno.success = false
is_einval Errno.einval = true
is_einval Errno.eperm = false
is_einval Errno.eacces = false
is_einval Errno.ebusy = false
is_einval Errno.other = false

abbrev pub is_eperm : Errno → Bool
is_eperm Errno.success = false
is_eperm Errno.einval = false
is_eperm Errno.eperm = true
is_eperm Errno.eacces = false
is_eperm Errno.ebusy = false
is_eperm Errno.other = false

-- A call of liftoff_output_apply.
pub record Reply : Type 0 where
  pub result : Errno
  pub entries : List Entry

-- What libliftoff says to a frame: to the first call, to the second one without fences, and to
-- liftoff_output_needs_composition.
pub record Liftoff : Type 0 where
  pub first : Reply
  pub second : Reply
  pub needs_composition : Bool
  pub caching : Bool

unfoldable pub is_cached : ℕ → List ℕ → Bool
is_cached entry [] = false
is_cached entry (e ∷ es) = e == entry || is_cached entry es

-- The loop over the layers: the framebuffers in the request, and whether each layer has one. What else
-- it sets concerns libliftoff's layers only.
unfoldable pub add_layers : List (Option ℕ) → List ℕ → Bool × List ℕ
add_layers [] fbs = (true, fbs)
add_layers (none ∷ layers) fbs = (false, fbs)
add_layers (some fb ∷ layers) fbs = add_layers layers (fbs ++ fb ∷ [])

abbrev pub add_entries : List Entry → Drm → Drm
add_entries es s = record s { req = elim s.req [ none ↦ none | some req ↦ some (es ++ req) ] }

-- The calls of liftoff_output_apply.
unfoldable pub apply_output : Liftoff → Drm → Errno × Drm
apply_output l s =
    let once = add_entries l.first.entries s in
    let twice = add_entries l.second.entries (record once { attempted_in_fence_fallback = true }) in
    if is_eperm l.first.result && not s.attempted_in_fence_fallback && not s.disable_in_fence_fd
    then (
      l.second.result,
      if is_success l.second.result then record twice { disable_in_fence_fd = true } else twice,
    )
    else (l.first.result, once)

-- `entry` stands for the frame in the cache.
unfoldable pub drm_prepare_liftoff : Liftoff → ℕ → List (Option ℕ) → Bool → Drm → Errno × Drm
unfolding is_cached add_layers apply_output
drm_prepare_liftoff l entry layers needs_modeset s =
    let s₁ = if needs_modeset then record s { cache = [] } else s in
    let (complete, fbs) = add_layers layers s₁.fb_ids_in_request in
    let s₂ = record s₁ { fb_ids_in_request = fbs } in
    let (result, s₃) = apply_output l s₂ in
    let answer = if is_success result && l.needs_composition then Errno.einval else result in
    if l.caching && is_cached entry s₁.cache
    then (Errno.einval, s₁)
    else if not complete
    then (Errno.einval, s₂)
    else (
      answer,
      if not needs_modeset && is_einval answer then record s₃ { cache = entry ∷ s₃.cache } else s₃,
    )

-- ===== src/Drm/Ready.antt =====
-- What drm_prepare leaves to Commit (src/Backends/DRMBackend.cpp).
use cloud_desktop.Prelude.{
  ℕ, ◌≡◌, refl, sym, ap, ◌∙◌, ◌⊎◌, Bool, true, false, not, ◌&&◌, ◌||◌, Bool-cases, inl, inr,
  if◌then◌else◌, Option, none, some, some_inj, List, [], ◌++◌, arith,
}
use cloud_desktop.Drm.Store.{
  AtomicProperty, Drm, Entry, Fails, Flags, Request, set_in, set_property,
}
use cloud_desktop.Drm.Liftoff.{Errno, Liftoff, add_entries, drm_prepare_liftoff}
use cloud_desktop.Drm.Plan.{Frame, Plan}
use cloud_desktop.Drm.Prepare.{check_layers, drm_prepare, prepare_on, reads_null}
use cloud_desktop.Drm.Commit.{Attempt}

abbrev pub has_request : Option Request → Bool
has_request none = false
has_request (some req) = true

pub has_request-some :
    (r : Option Request) → has_request r ≡ true → (req : Request) × (r ≡ some req)
has_request-some none e = cc
has_request-some (some req) e = (req, refl)

-- No frame is under way.
pub record IsQuiet (s : Drm) : Type 0 where
  pub no_request : s.req ≡ none
  pub none_queued : s.queued_fb_ids ≡ []
  pub no_flip : s.pending_flip_count ≡ 0

pub drm_prepare-prepare_on :
    (fails : Fails) (a : Attempt) (target : ℕ) (s : Drm)
    → s.connector ≡ some target
    → IsQuiet s
    → reads_null a.settings a.frame target s ≡ false
    → drm_prepare fails a.settings a.liftoff a.frame s
      ≡ some (prepare_on fails a.settings a.liftoff a.frame target s)
unfolding drm_prepare
drm_prepare-prepare_on fails a target s found quiet readable =
    ground (arith, found, quiet.no_request, readable)

pub drm_prepare-some :
    (fails : Fails) (a : Attempt) (target : ℕ) (s : Drm) (r : Errno × Drm)
    → s.connector ≡ some target
    → IsQuiet s
    → drm_prepare fails a.settings a.liftoff a.frame s ≡ some r
    → prepare_on fails a.settings a.liftoff a.frame target s ≡ r
unfolding drm_prepare
drm_prepare-some fails a target s r found quiet e =
    elim (Bool-cases (reads_null a.settings a.frame target s)) [
      | inl unreadable ↦ absurd (ground (arith, found, quiet.no_request, unreadable))
      | inr readable ↦
          some_inj (sym (drm_prepare-prepare_on fails a target s found quiet readable) ∙ e)
    ]

-- What preparing a frame leaves.
pub record IsReady (s t : Drm) : Type 0 where
  pub same_liftoff : t.use_liftoff ≡ s.use_liftoff
  pub same_crtc : t.crtc ≡ s.crtc
  pub same_queued : t.queued_fb_ids ≡ s.queued_fb_ids
  pub same_visible : t.visible_fb_ids ≡ s.visible_fb_ids
  pub same_count : t.pending_flip_count ≡ s.pending_flip_count
  pub settled : t.needs_modeset ≡ false
  pub requested : has_request t.req ≡ true

set_in-IsReady :
    (fails : Fails) (o k value : ℕ) (forced : Bool) (r : Option Request) (q : Option AtomicProperty)
    (s t : Drm)
    → IsReady s t
    → IsReady s (set_in fails o k value forced r q t)
set_in-IsReady fails o k value forced none q s t h = h
set_in-IsReady fails o k value forced (some req) none s t h = h
set_in-IsReady fails o k value forced (some req) (some p) s t h = record {
  same_liftoff = h.same_liftoff;
  same_crtc = h.same_crtc;
  same_queued = h.same_queued;
  same_visible = h.same_visible;
  same_count = h.same_count;
  settled = h.settled;
  requested = refl;
}

pub set_property-IsReady :
    (fails : Fails) (s : Drm) (o k value : ℕ) (forced : Bool) (t : Drm)
    → IsReady s t
    → IsReady s (set_property fails o k value forced t)
unfolding set_property
set_property-IsReady fails s o k value forced t h =
    set_in-IsReady fails o k value forced t.req (t.store o k) s t h

set_in-fbs :
    (fails : Fails) (o k value : ℕ) (forced : Bool) (r : Option Request) (q : Option AtomicProperty)
    (t : Drm) (crtc : Option ℕ)
    → (t.fb_ids_in_request ≡ []) × (t.crtc ≡ crtc)
    → ((set_in fails o k value forced r q t).fb_ids_in_request ≡ [])
      × ((set_in fails o k value forced r q t).crtc ≡ crtc)
set_in-fbs fails o k value forced none q t crtc h = h
set_in-fbs fails o k value forced (some req) none t crtc h = h
set_in-fbs fails o k value forced (some req) (some p) t crtc h = h

pub set_property-fbs :
    (fails : Fails) (o k value : ℕ) (forced : Bool) (t : Drm) (crtc : Option ℕ)
    → (t.fb_ids_in_request ≡ []) × (t.crtc ≡ crtc)
    → ((set_property fails o k value forced t).fb_ids_in_request ≡ [])
      × ((set_property fails o k value forced t).crtc ≡ crtc)
unfolding set_property
set_property-fbs fails o k value forced t crtc h =
    set_in-fbs fails o k value forced t.req (t.store o k) t crtc h

pub check_layers_sleeping :
    (l : Liftoff) (f : Frame) (p : Plan) (s : Drm) → p.sleep ≡ true → (check_layers l f p s).1 ≡ s
unfolding check_layers
check_layers_sleeping l f p s asleep =
    elim s.crtc
      as (λ r.
        (elim r as (λ _. Errno × Drm) [
          | none ↦ (Errno.success, s)
          | some o ↦
              if p.sleep || not s.use_liftoff
              then (Errno.success, s)
              else drm_prepare_liftoff l f.entry f.layers p.needs_modeset s
        ]).1
        ≡ s) [ none ↦ refl | some o ↦ rw asleep refl ]

pub check_layers_unplugged :
    (l : Liftoff) (f : Frame) (p : Plan) (s : Drm) → s.crtc ≡ none → (check_layers l f p s).1 ≡ s
unfolding check_layers
check_layers_unplugged l f p s missing =
    ap
      (λ r.
        (elim r as (λ _. Errno × Drm) [
          | none ↦ (Errno.success, s)
          | some o ↦
              if p.sleep || not s.use_liftoff
              then (Errno.success, s)
              else drm_prepare_liftoff l f.entry f.layers p.needs_modeset s
        ]).1)
      missing

pub check_layers_awake :
    (l : Liftoff) (f : Frame) (p : Plan) (s : Drm) (r : ℕ)
    → s.crtc ≡ some r
    → s.use_liftoff ≡ true
    → p.sleep ≡ false
    → check_layers l f p s ≡ drm_prepare_liftoff l f.entry f.layers p.needs_modeset s
unfolding check_layers
check_layers_awake l f p s r plugged liftoff awake =
    let asks : p.sleep || not s.use_liftoff ≡ false = ground arith in
    ap
      (λ r. elim r as (λ _. Errno × Drm) [
        | none ↦ (Errno.success, s)
        | some o ↦
            if p.sleep || not s.use_liftoff
            then (Errno.success, s)
            else drm_prepare_liftoff l f.entry f.layers p.needs_modeset s
      ])
      plugged
    ∙ ap
        (λ (b : Bool).
          if b
          then (Errno.success, s)
          else drm_prepare_liftoff l f.entry f.layers p.needs_modeset s)
        asks

pub unflipped_cases :
    (sleep : Bool) (crtc : Option ℕ)
    → ◌≡◌ {A = Bool} (not sleep && elim crtc [ none ↦ false | some r ↦ true ]) false
    → (sleep ≡ true) ⊎ (crtc ≡ none)
unflipped_cases true crtc e = inl refl
unflipped_cases false none e = inr refl
unflipped_cases false (some r) e = cc

-- With the flags that it was given.
abbrev pub IsAsked : Drm → Flags → Drm → Type 0
IsAsked s flags t = IsReady s t × (t.flags ≡ flags)

has_request-append :
    (es : List Entry) (r : Option Request)
    → has_request r ≡ true
    → has_request (elim r [ none ↦ none | some req ↦ some (es ++ req) ]) ≡ true
has_request-append es none h = cc
has_request-append es (some req) h = refl

pub add_entries-IsAsked :
    (s : Drm) (flags : Flags) (es : List Entry) (t : Drm)
    → Unit {0}
    → IsAsked s flags t
    → IsAsked s flags (add_entries es t)
add_entries-IsAsked s flags es t u (h, e) = (
  record {
    same_liftoff = h.same_liftoff;
    same_crtc = h.same_crtc;
    same_queued = h.same_queued;
    same_visible = h.same_visible;
    same_count = h.same_count;
    settled = h.settled;
    requested = has_request-append es t.req h.requested;
  },
  e,
)

pub same-IsAsked :
    (s : Drm) (flags : Flags) (t : Drm) (cache fbs : List ℕ) (attempted disabled : Bool)
    → IsAsked s flags t
    → IsAsked s flags (record t {
      cache = cache;
      fb_ids_in_request = fbs;
      attempted_in_fence_fallback = attempted;
      disable_in_fence_fd = disabled;
    })
same-IsAsked s flags t cache fbs attempted disabled (h, e) = (
  record {
    same_liftoff = h.same_liftoff;
    same_crtc = h.same_crtc;
    same_queued = h.same_queued;
    same_visible = h.same_visible;
    same_count = h.same_count;
    settled = h.settled;
    requested = h.requested;
  },
  e,
)

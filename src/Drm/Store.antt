-- ===== src/Drm/Store.antt =====
-- src/Backends/DRMBackend.cpp: CDRMAtomicProperty, the objects that have such properties, and drm_t.
use cloud_desktop.Prelude.{
  ℕ, ◌==◌, ◌&&◌, Bool, true, false, not, if◌then◌else◌, Option, none, some, List, [], ◌∷◌,
}

pub record AtomicProperty : Type 0 where
  pub pending : ℕ
  pub current : ℕ
  pub initial : ℕ

-- A property in a request, by its object and its place among the object's properties, which stands for
-- the id that the kernel gave it.
pub record Entry : Type 0 where
  pub object : ℕ
  pub property : ℕ
  pub value : ℕ

-- A request is a list with the newest entry first.
abbrev pub Request : Type 0
Request = List Entry

-- The properties that are set, at their places in ConnectorProperties and CRTCProperties.
abbrev pub connector_crtc_id : ℕ
connector_crtc_id = 0

abbrev pub colorspace : ℕ
colorspace = 1

abbrev pub content_type : ℕ
content_type = 2

abbrev pub hdr_output_metadata : ℕ
hdr_output_metadata = 4

abbrev pub vrr_capable : ℕ
vrr_capable = 5

abbrev pub broadcast_rgb : ℕ
broadcast_rgb = 7

abbrev pub active : ℕ
active = 0

abbrev pub mode_id_property : ℕ
mode_id_property = 1

abbrev pub gamma_lut : ℕ
gamma_lut = 2

abbrev pub degamma_lut : ℕ
degamma_lut = 3

abbrev pub crtc_ctm : ℕ
crtc_ctm = 4

abbrev pub vrr_enabled : ℕ
vrr_enabled = 5

abbrev pub out_fence_ptr : ℕ
out_fence_ptr = 6

abbrev pub amd_crtc_regamma_tf : ℕ
amd_crtc_regamma_tf = 7

-- Which properties an object has, and what is kept of them.
abbrev pub Store : Type 0
Store = ℕ → ℕ → Option AtomicProperty

abbrev pub put : Store → ℕ → ℕ → AtomicProperty → Store
put st o k p o' k' = if o == o' && k == k' then some p else st o' k'

-- drm_state_t. A blob is known by its value, and a null pointer is `none`.
pub record DrmState : Type 0 where
  pub mode_id : Option ℕ
  pub color_mgmt_serial : ℕ
  pub lut3d_id : List (Option ℕ)
  pub shaperlut_id : List (Option ℕ)
  pub output_tf : ℕ

pub record Flags : Type 0 where
  pub nonblock : Bool
  pub page_flip_event : Bool
  pub page_flip_async : Bool
  pub allow_modeset : Bool

-- drm_t; `none` is a null pointer. The framebuffers are known by their ids. The presents are the
-- connector's feedback, and the contexts are those of CDRMBackend. `cache` is
-- g_LiftoffStateCache, and the two flags behind it are static variables of drm_prepare_liftoff and
-- cv_drm_debug_disable_in_fence_fd.
pub record Drm : Type 0 where
  pub use_liftoff : Bool
  pub store : Store
  pub crtcs : List ℕ
  pub planes : List ℕ
  pub connectors : List ℕ
  pub crtc : Option ℕ
  pub connector : Option ℕ
  pub req : Option Request
  pub flags : Flags
  pub current : DrmState
  pub pending : DrmState
  pub fb_ids_in_request : List ℕ
  pub queued_fb_ids : List ℕ
  pub visible_fb_ids : List ℕ
  pub pending_flip_count : ℕ
  pub needs_modeset : Bool
  pub queued_presents : ℕ
  pub completed_presents : ℕ
  pub present_ctxs : ℕ → ℕ
  pub next_present_ctx : ℕ
  pub cache : List ℕ
  pub attempted_in_fence_fallback : Bool
  pub disable_in_fence_fd : Bool

abbrev pub current_value : Option AtomicProperty → ℕ
current_value none = 0
current_value (some p) = p.current

abbrev pub has_property : Option AtomicProperty → Bool
has_property none = false
has_property (some p) = true

-- drmModeAtomicAddProperty fails for some entries, by what the request holds.
abbrev pub Fails : Type 0
Fails = Request → Entry → Bool

-- SetPendingValue, and the store and request afterwards.
unfoldable pub set_pending_value :
    Fails → ℕ → ℕ → ℕ → Bool → AtomicProperty → Store → Request → Store × Request
set_pending_value fails o k value forced p st req =
    let entry : Entry = record { object = o; property = k; value = value } in
    if value == p.pending && not forced
    then (st, req)
    else if fails req entry
    then (st, req)
    else (put st o k (record p { pending = value }), entry ∷ req)

abbrev pub set_in : Fails → ℕ → ℕ → ℕ → Bool → Option Request → Option AtomicProperty → Drm → Drm
set_in fails o k value forced none q s = s
set_in fails o k value forced (some req) none s = s
set_in fails o k value forced (some req) (some p) s =
    let (st, req') = set_pending_value fails o k value forced p s.store req in
    record s { store = st; req = some req' }

-- The property `k` of the object `o` is set, if it has one. All objects have the properties that the
-- source does not ask for: CRTC_ID of a connector, ACTIVE and MODE_ID of a CRTC.
unfoldable pub set_property : Fails → ℕ → ℕ → ℕ → Bool → Drm → Drm
unfolding set_pending_value
set_property fails o k value forced s = set_in fails o k value forced s.req (s.store o k) s

abbrev pub rollback_property : Option AtomicProperty → Option AtomicProperty
rollback_property none = none
rollback_property (some p) = some (record p { pending = p.current })

abbrev pub commit_property : Option AtomicProperty → Option AtomicProperty
commit_property none = none
commit_property (some p) = some (record p { current = p.pending })

-- A loop over the properties of the objects.
unfoldable pub for_objects :
    (Option AtomicProperty → Option AtomicProperty) → List ℕ → Store → Store
for_objects f [] st = st
for_objects f (o ∷ os) st = for_objects f os (λ o' k. if o == o' then f (st o' k) else st o' k)

unfoldable pub for_all : (Option AtomicProperty → Option AtomicProperty) → Drm → Drm
unfolding for_objects
for_all f s = record s {
  store = for_objects f s.connectors (for_objects f s.planes (for_objects f s.crtcs s.store));
}

unfoldable pub drm_rollback : Drm → Drm
unfolding for_all
drm_rollback s = for_all rollback_property (record s { pending = s.current })

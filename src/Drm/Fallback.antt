-- ===== src/Drm/Fallback.antt =====
-- src/Backends/DRMBackend.cpp: CDRMBackend::Present, which falls back to composition and to the mode
-- before, with the kernel's values of the properties. What is drawn is a parameter.
use cloud_desktop.Prelude.{
  ◌>>=◌, Bool, true, false, if◌then◌else◌, Option, none, some, List, [], ◌∷◌,
}
use cloud_desktop.Drm.Store.{Drm, Fails}
use cloud_desktop.Drm.Liftoff.{Errno}
use cloud_desktop.Drm.Prepare.{drm_prepare}
use cloud_desktop.Drm.Commit.{Attempt, commit}
use cloud_desktop.Drm.Tracking.{Values}
use cloud_desktop.Drm.History.{Apply, kernel_after}

-- One call of Present: the frame as it is, unless it is to be composited anyway; whether
-- vulkan_composite succeeds; and the composited frame at the first and at the second try. The answer of the
-- kernel stands with each of them, but is needed for the one that is committed only.
pub record Presented : Type 0 where
  pub direct : Option Attempt
  pub composited : Bool
  pub first : Attempt
  pub second : Attempt

-- What Present returns, and whether it asks for the state to be polled again.
pub record Outcome : Type 0 where
  pub result : Errno
  pub polls : Bool
  pub world : Drm × Values

-- What to do next by what drm_prepare returned: 0, -EACCES or another error.
abbrev pub by_result :
    (Drm → Option Outcome)
    → (Drm → Option Outcome)
    → (Errno → Drm → Option Outcome)
    → Errno × Drm
    → Option Outcome
by_result taken away failed (Errno.success, s) = taken s
by_result taken away failed (Errno.einval, s) = failed Errno.einval s
by_result taken away failed (Errno.eperm, s) = failed Errno.eperm s
by_result taken away failed (Errno.eacces, s) = away s
by_result taken away failed (Errno.ebusy, s) = failed Errno.ebusy s
by_result taken away failed (Errno.other, s) = failed Errno.other s

unfoldable pub commit_frame : Apply → Attempt → Values → Drm → Option Outcome
unfolding commit
commit_frame apply a v s = commit a.answer a.crtc_id s >>= (λ r.
    some
      (record { result = r.0; polls = false; world = (r.1, kernel_after apply a.answer s.req v) }))

abbrev pub without_frame : Values → Drm → Option Outcome
without_frame v s = some (record { result = Errno.success; polls = false; world = (s, v) })

-- Where the second try fails, the state of the display is marked dirty and read anew (DirtyState,
-- PollState): connectors, CRTC and modes, which is not modelled. `polls` records that it is.
unfoldable pub second_try : Fails → Apply → Attempt → Values → Drm → Option Outcome
unfolding drm_prepare commit_frame
second_try fails apply a v s =
    drm_prepare fails a.settings a.liftoff a.frame s
    >>= by_result (commit_frame apply a v) (without_frame v)
        (λ e t. some (record { result = e; polls = true; world = (t, v) }))

unfoldable pub retry : Fails → Apply → Presented → Values → Drm → Option Outcome
unfolding second_try
retry fails apply p v s = elim s.current.mode_id [
  | none ↦ without_frame v s
  | some mode ↦ second_try fails apply p.second v s
]

unfoldable pub first_try : Fails → Apply → Presented → Values → Drm → Option Outcome
unfolding drm_prepare commit_frame retry
first_try fails apply p v s =
    drm_prepare fails p.first.settings p.first.liftoff p.first.frame s
    >>= by_result (commit_frame apply p.first v) (without_frame v) (λ e t. retry fails apply p v t)

unfoldable pub composition_path : Fails → Apply → Presented → Values → Drm → Option Outcome
unfolding first_try
composition_path fails apply p v s =
    if p.composited
    then first_try fails apply p v s
    else some (record { result = Errno.einval; polls = false; world = (s, v) })

abbrev pub present_from : Fails → Apply → Presented → Values → Drm → Option Attempt → Option Outcome
present_from fails apply p v s none = composition_path fails apply p v s
present_from fails apply p v s (some a) =
    drm_prepare fails a.settings a.liftoff a.frame s
    >>= by_result (commit_frame apply a v) (without_frame v)
        (λ e t. composition_path fails apply p v t)

unfoldable pub present_frame : Fails → Apply → Presented → Drm × Values → Option Outcome
unfolding drm_prepare commit_frame composition_path
present_frame fails apply p (s, v) = present_from fails apply p v s p.direct

unfoldable pub present_all : Fails → Apply → List Presented → Drm × Values → Option (Drm × Values)
unfolding present_frame
present_all fails apply [] w = some w
present_all fails apply (p ∷ ps) w =
    present_frame fails apply p w >>= (λ r. present_all fails apply ps r.world)

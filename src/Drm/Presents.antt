-- ===== src/Drm/Presents.antt =====
-- Any number of calls of Present, with the kernel's side (src/Backends/DRMBackend.cpp).
use cloud_desktop.Prelude.{
  ◌>>=◌, ℕ, ◌≡◌, refl, subst, Bool, true, false, if_keeps, Option, none, some, some_inj, some-bind,
  List, [], ◌∷◌, All,
}
use cloud_desktop.Drm.Store.{AtomicProperty, Drm, Fails, Request}
use cloud_desktop.Drm.Liftoff.{Errno}
use cloud_desktop.Drm.Prepare.{drm_prepare}
use cloud_desktop.Drm.Commit.{Attempt, commit}
use cloud_desktop.Drm.Tracking.{IsMirrored, Values, value_after}
use cloud_desktop.Drm.Frames.{IsPrepared}
use cloud_desktop.Drm.History.{Apply, IsApart, IsSettled, commit-IsMirrored, drm_prepare-IsPrepared}
use cloud_desktop.Drm.Fallback.{
  Outcome, Presented, by_result, commit_frame, composition_path, first_try, present_all,
  present_frame, present_from, retry, second_try, without_frame,
}

-- libliftoff adds entries for objects that are not tracked only, in each of the tries.
abbrev pub IsConfined : (ℕ → Bool) → Presented → Type 0
IsConfined tracked p =
    ((a : Attempt) → p.direct ≡ some a → IsApart tracked a)
    × IsApart tracked p.first
    × IsApart tracked p.second

module _ {tracked : ℕ → Bool} (apply : Apply)
    (last_wins : (req : Request) (v : Values) (o k : ℕ)
      → tracked o ≡ true
      → apply req v o k ≡ value_after req o k (v o k))
    (fails : Fails) where
  -- What comes out is settled, if anything does.
  abbrev Settles : Option Outcome → Type 0
  Settles o = (r : Outcome) → o ≡ some r → IsSettled apply last_wins r.world

  by_result-Settles :
      (taken away : Drm → Option Outcome) (failed : Errno → Drm → Option Outcome) (v : Values)
      (r : Errno × Drm)
      → IsPrepared tracked v r
      → ((s : Drm) → IsMirrored tracked v s → Settles (taken s))
      → ((s : Drm) → IsSettled apply last_wins (s, v) → Settles (away s))
      → ((e : Errno) (s : Drm) → IsSettled apply last_wins (s, v) → Settles (failed e s))
      → Settles (by_result taken away failed r)
  by_result-Settles taken away failed v (Errno.success, s) m t w f = t s m
  by_result-Settles taken away failed v (Errno.einval, s) m t w f = f Errno.einval s m
  by_result-Settles taken away failed v (Errno.eperm, s) m t w f = f Errno.eperm s m
  by_result-Settles taken away failed v (Errno.eacces, s) m t w f = w s m
  by_result-Settles taken away failed v (Errno.ebusy, s) m t w f = f Errno.ebusy s m
  by_result-Settles taken away failed v (Errno.other, s) m t w f = f Errno.other s m

  kept : (x : Outcome) → IsSettled apply last_wins x.world → Settles (some x)
  kept x h r e = subst (λ (x : Outcome). IsSettled apply last_wins x.world) (some_inj e) h

  commit_frame-Settles :
      (a : Attempt) (v : Values) (s : Drm)
      → IsMirrored tracked v s
      → Settles (commit_frame apply a v s)
  unfolding commit_frame
  commit_frame-Settles a v s m r e =
      let ((f, u), done, same) = some-bind (commit a.answer a.crtc_id s) _ e in
      subst (λ (x : Outcome). IsSettled apply last_wins x.world) (some_inj same)
        (commit-IsMirrored apply last_wins v a.answer f a.crtc_id s u done m)

  -- A try: a frame is prepared, and committed if that succeeds.
  try-Settles :
      (a : Attempt) (v : Values) (s : Drm) (failed : Errno → Drm → Option Outcome)
      → IsApart tracked a
      → IsSettled apply last_wins (s, v)
      → ((e : Errno) (t : Drm) → IsSettled apply last_wins (t, v) → Settles (failed e t))
      → Settles (
          drm_prepare fails a.settings a.liftoff a.frame s
          >>= by_result (commit_frame apply a v) (without_frame v) failed)
  try-Settles a v s failed apart h keep r e =
      let (x, prepared, done) = some-bind (drm_prepare fails a.settings a.liftoff a.frame s) _ e in
      by_result-Settles (commit_frame apply a v) (without_frame v) failed v x
        (drm_prepare-IsPrepared apply last_wins fails a s v x apart prepared h)
        (commit_frame-Settles a v)
        (λ t. kept (record { result = Errno.success; polls = false; world = (t, v) })) keep r done

  second_try-Settles :
      (a : Attempt) (v : Values) (s : Drm)
      → IsApart tracked a
      → IsSettled apply last_wins (s, v)
      → Settles (second_try fails apply a v s)
  unfolding second_try
  second_try-Settles a v s apart h =
      try-Settles a v s _ apart h
        (λ e t. kept (record { result = e; polls = true; world = (t, v) }))

  retry-Settles :
      (p : Presented) (v : Values) (s : Drm)
      → IsApart tracked p.second
      → IsSettled apply last_wins (s, v)
      → Settles (retry fails apply p v s)
  unfolding retry
  retry-Settles p v s apart h =
      elim s.current.mode_id
        as (λ m. Settles (elim m as (λ _. Option Outcome) [
          | none ↦ without_frame v s
          | some mode ↦ second_try fails apply p.second v s
        ])) [
          | none ↦ kept (record { result = Errno.success; polls = false; world = (s, v) }) h
          | some mode ↦ second_try-Settles p.second v s apart h
        ]

  composition_path-Settles :
      (p : Presented) (v : Values) (s : Drm)
      → IsApart tracked p.first
      → IsApart tracked p.second
      → IsSettled apply last_wins (s, v)
      → Settles (composition_path fails apply p v s)
  unfolding composition_path first_try
  composition_path-Settles p v s first second h =
      if_keeps Settles p.composited _ _
        (try-Settles p.first v s _ first h (λ e t. retry-Settles p v t second))
        (kept (record { result = Errno.einval; polls = false; world = (s, v) }) h)

  present_from-Settles :
      (direct : Option Attempt) (p : Presented) (v : Values) (s : Drm)
      → p.direct ≡ direct
      → IsConfined tracked p
      → IsSettled apply last_wins (s, v)
      → Settles (present_from fails apply p v s direct)
  present_from-Settles none p v s e (direct, first, second) h =
      composition_path-Settles p v s first second h
  present_from-Settles (some a) p v s e (direct, first, second) h =
      try-Settles a v s _ (direct a e) h (λ f t. composition_path-Settles p v t first second)

  present_all-IsSettled :
      (ps : List Presented) (w w' : Drm × Values)
      → All (IsConfined tracked) ps
      → present_all fails apply ps w ≡ some w'
      → IsSettled apply last_wins w
      → IsSettled apply last_wins w'
  unfolding present_all present_frame
  present_all-IsSettled [] w w' confined e h = subst (IsSettled apply last_wins) (some_inj e) h
  present_all-IsSettled (p ∷ ps) (s, v) w' confined e h =
      let (r, first, rest) = some-bind (present_frame fails apply p (s, v)) _ e in
      present_all-IsSettled ps r.world w' confined.1 rest
        (present_from-Settles p.direct p v s refl confined.0 h r first)

-- The pending and the current value of each property of a CRTC or connector are the kernel's, however
-- often Present was called, whether frames were presented as they are, composited or tried again with the
-- mode before, and whether libliftoff or the kernel refused them or entries could not be added to a
-- request. The kernel is relied on to take the last entry of a request for each property and to leave
-- other properties as they are, and libliftoff to add entries for planes only.
pub present_all-current :
    (tracked : ℕ → Bool) (apply : Apply) (fails : Fails) (ps : List Presented) (s s' : Drm)
    (v v' : Values)
    → ((req : Request) (u : Values) (o k : ℕ)
        → tracked o ≡ true
        → apply req u o k ≡ value_after req o k (u o k))
    → All (IsConfined tracked) ps
    → IsMirrored tracked v s
    → s.req ≡ none
    → present_all fails apply ps (s, v) ≡ some (s', v')
    → (s'.req ≡ none)
      × ((o k : ℕ) (p : AtomicProperty)
          → tracked o ≡ true
          → s'.store o k ≡ some p
          → (p.current ≡ v' o k) × (p.pending ≡ v' o k))
present_all-current tracked apply fails ps s s' v v' last_wins confined m idle e =
    let (m', idle') =
      present_all-IsSettled apply last_wins fails ps (s, v) (s', v') confined e (m, idle) in
    (idle', λ o k p h here. (m'.current o k p h here, rw idle' at (m'.pending o k p h here)))

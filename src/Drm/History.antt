-- ===== src/Drm/History.antt =====
-- One frame, with the kernel's side (src/Backends/DRMBackend.cpp).
use cloud_desktop.Prelude.{
  ℕ, ◌≡◌, refl, sym, subst, ap, ◌∙◌, Bool, true, false, not, ◌==◌, Bool-cases, if_keeps, inl, inr,
  if◌then◌else◌, Option, Option-cases, none, some, some_inj, some-bind, some-if, All, arith,
}
use cloud_desktop.Drm.Store.{Drm, Fails, Request, commit_property}
use cloud_desktop.Drm.Liftoff.{Errno}
use cloud_desktop.Drm.Prepare.{drm_prepare, prepare_on, reads_null}
use cloud_desktop.Drm.Commit.{
  Attempt, accept_commit, begin_commit, commit, finish_commit, page_flip_handler, wait_for_flip,
}
use cloud_desktop.Drm.Tracking.{IsMirrored, Values, value_after}
use cloud_desktop.Drm.Objects.{commit_property_once, for_all-at, same_view, taken_over}
use cloud_desktop.Drm.Frames.{
  IsPrepared, begin_commit-IsMirrored, fail_commit-IsMirrored, prepare_on-IsPrepared,
}

-- What the kernel makes of its values by a request.
abbrev pub Apply : Type 0
Apply = Request → Values → Values

abbrev pub kernel_after : Apply → Errno → Option Request → Values → Values
kernel_after apply Errno.success none v = v
kernel_after apply Errno.success (some req) v = apply req v
kernel_after apply Errno.einval r v = v
kernel_after apply Errno.eperm r v = v
kernel_after apply Errno.eacces r v = v
kernel_after apply Errno.ebusy r v = v
kernel_after apply Errno.other r v = v

-- libliftoff adds entries only for objects that are not tracked, the planes.
abbrev pub IsApart : (ℕ → Bool) → Attempt → Type 0
IsApart tracked a =
    All (λ e. tracked e.object ≡ false) a.liftoff.first.entries
    × All (λ e. tracked e.object ≡ false) a.liftoff.second.entries

module _ {tracked : ℕ → Bool} (apply : Apply)
    (last_wins : (req : Request) (v : Values) (o k : ℕ)
      → tracked o ≡ true
      → apply req v o k ≡ value_after req o k (v o k)) where
  wait_for_flip-IsMirrored :
      (v : Values) (crtc_id ctx : ℕ) (s t : Drm)
      → wait_for_flip crtc_id ctx s ≡ some t
      → IsMirrored tracked v s × (s.req ≡ none)
      → IsMirrored tracked v t × (t.req ≡ none)
  unfolding wait_for_flip page_flip_handler
  wait_for_flip-IsMirrored v crtc_id ctx s t e m =
      let flipped = page_flip_handler crtc_id ctx s in
      let P = λ (u : Drm). IsMirrored tracked v u × (u.req ≡ none) in
      let ended = record s { completed_presents = s.present_ctxs ctx } in
      let ours : Bool = elim s.crtc [ none ↦ false | some r ↦ r == crtc_id ] in
      let n = flipped.pending_flip_count in
      let m₁ : P ended = (same_view s ended refl refl refl refl m.0, m.1) in
      let m₂ : P flipped =
        if_keeps P ours _ ended (same_view s _ refl refl refl refl m.0, m.1) m₁ in
      let counted : Option Drm = if n == 0 then some flipped else none in
      let waited : Option Drm = if n == s.pending_flip_count then none else counted in
      some-if (not s.flags.page_flip_event) (some s) waited e (λ f. subst P (some_inj f) m)
        (λ f.
          some-if (n == s.pending_flip_count) none counted f (λ g. absurd (ground arith))
            (λ g.
              some-if (n == 0) (some flipped) none g (λ h. subst P (some_inj h) m₂)
                (λ h. absurd (ground arith))))

  accept_commit-IsMirrored :
      (v : Values) (req : Request) (s : Drm)
      → s.req ≡ some req
      → IsMirrored tracked v s
      → IsMirrored tracked (apply req v) (accept_commit s) × ((accept_commit s).req ≡ none)
  unfolding accept_commit
  accept_commit-IsMirrored v req s begun m = (
    taken_over (apply req v) s (accept_commit s) refl refl refl
        (λ o k h. for_all-at commit_property commit_property_once s o k (m.listed o h))
        (λ o k h. rw begun (last_wins req v o k h)) m,
    refl,
  )

  -- `s` is the state at the call of commit, and `t` the one after begin_commit.
  finish_commit-IsMirrored :
      (v : Values) (answer e : Errno) (crtc_id ctx : ℕ) (req : Request) (t u : Drm)
      → finish_commit answer crtc_id ctx t ≡ some (e, u)
      → t.req ≡ some req
      → IsMirrored tracked v t
      → IsMirrored tracked (kernel_after apply answer (some req) v) u × (u.req ≡ none)
  unfolding finish_commit
  finish_commit-IsMirrored v Errno.success e crtc_id ctx req t u f begun m =
      let (w, waited, same) = some-bind (wait_for_flip crtc_id ctx (accept_commit t)) _ f in
      subst (λ z. IsMirrored tracked (apply req v) z × (z.req ≡ none))
        (ap (λ z. z.1) (some_inj same))
        (wait_for_flip-IsMirrored (apply req v) crtc_id ctx (accept_commit t) w waited
          (accept_commit-IsMirrored v req t begun m))
  finish_commit-IsMirrored v Errno.einval e crtc_id ctx req t u f begun m = cc
  finish_commit-IsMirrored v Errno.eperm e crtc_id ctx req t u f begun m = cc
  finish_commit-IsMirrored v Errno.eacces e crtc_id ctx req t u f begun m =
      subst (λ z. IsMirrored tracked v z × (z.req ≡ none)) (ap (λ z. z.1) (some_inj f))
        (fail_commit-IsMirrored t m)
  finish_commit-IsMirrored v Errno.ebusy e crtc_id ctx req t u f begun m =
      subst (λ z. IsMirrored tracked v z × (z.req ≡ none)) (ap (λ z. z.1) (some_inj f))
        (fail_commit-IsMirrored t m)
  finish_commit-IsMirrored v Errno.other e crtc_id ctx req t u f begun m = cc

  begin_commit-req : (s : Drm) → (begin_commit s).req ≡ s.req
  unfolding begin_commit
  begin_commit-req s = elim (Bool-cases s.flags.page_flip_event) [
    | inl flip ↦ rw flip refl
    | inr still ↦ rw still refl
  ]

  pub commit-IsMirrored :
      (v : Values) (answer e : Errno) (crtc_id : ℕ) (s u : Drm)
      → commit answer crtc_id s ≡ some (e, u)
      → IsMirrored tracked v s
      → IsMirrored tracked (kernel_after apply answer s.req v) u × (u.req ≡ none)
  unfolding commit
  commit-IsMirrored v answer e crtc_id s u f m = elim (Option-cases s.req) [
    | inl idle ↦ absurd (ground (arith, idle))
    | inr (req, begun) ↦
        let done : finish_commit answer crtc_id s.next_present_ctx (begin_commit s) ≡ some (e, u) =
          ap
            (λ r. elim r as (λ _. Option (Errno × Drm)) [
              | none ↦ none
              | some q ↦ finish_commit answer crtc_id s.next_present_ctx (begin_commit s)
            ])
            (sym begun)
          ∙ f in
        subst (λ r. IsMirrored tracked (kernel_after apply answer r v) u × (u.req ≡ none))
          (sym begun)
          (finish_commit-IsMirrored v answer e crtc_id s.next_present_ctx req (begin_commit s) u
            done (begin_commit-req s ∙ begun) (begin_commit-IsMirrored s m))
  ]

  -- Two frames apart: what is known of the tracked objects is true, and no request is under way.
  abbrev pub IsSettled : Drm × Values → Type 0
  IsSettled (s, v) = IsMirrored tracked v s × (s.req ≡ none)

  -- With no connector nothing is done.
  prepare_for : Fails → Attempt → Option ℕ → Option Request → Drm → Option (Errno × Drm)
  prepare_for fails a none r s = some (Errno.eacces, s)
  prepare_for fails a (some target) none s =
      if reads_null a.settings a.frame target s
      then none
      else some (prepare_on fails a.settings a.liftoff a.frame target s)
  prepare_for fails a (some target) (some req) s = none

  prepare_for-IsPrepared :
      (fails : Fails) (a : Attempt) (c : Option ℕ) (q : Option Request) (s : Drm) (v : Values)
      (r : Errno × Drm)
      → IsApart tracked a
      → prepare_for fails a c q s ≡ some r
      → IsMirrored tracked v s
      → s.req ≡ none
      → IsPrepared tracked v r
  unfolding prepare_for
  prepare_for-IsPrepared fails a none q s v r apart e m idle =
      subst (IsPrepared tracked v) (some_inj e) (m, idle)
  prepare_for-IsPrepared fails a (some target) none s v r apart e m idle =
      some-if (reads_null a.settings a.frame target s) none _ e (λ f. cc)
        (λ f. subst (IsPrepared tracked v) (some_inj f) (
          prepare_on-IsPrepared fails a.settings a.liftoff a.frame target s apart.0 apart.1 m idle))
  prepare_for-IsPrepared fails a (some target) (some req) s v r apart e m idle = cc

  drm_prepare-prepare_for :
      (fails : Fails) (a : Attempt) (s : Drm)
      → drm_prepare fails a.settings a.liftoff a.frame s ≡ prepare_for fails a s.connector s.req s
  unfolding drm_prepare prepare_for
  drm_prepare-prepare_for fails a s = ground arith

  pub drm_prepare-IsPrepared :
      (fails : Fails) (a : Attempt) (s : Drm) (v : Values) (r : Errno × Drm)
      → IsApart tracked a
      → drm_prepare fails a.settings a.liftoff a.frame s ≡ some r
      → IsSettled (s, v)
      → IsPrepared tracked v r
  drm_prepare-IsPrepared fails a s v r apart e (m, idle) =
      prepare_for-IsPrepared fails a s.connector s.req s v r apart
        (sym (drm_prepare-prepare_for fails a s) ∙ e) m idle

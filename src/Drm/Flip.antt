-- ===== src/Drm/Flip.antt =====
-- The page flip of a frame: CDRMBackend::Commit and page_flip_handler (src/Backends/DRMBackend.cpp).
use cloud_desktop.Prelude.{
  ℕ, ◌+◌, ◌≡◌, refl, sym, ap, ◌∙◌, Bool, true, false, not, ◌==◌, Bool-cases, inl, inr,
  if◌then◌else◌, none, some, [], arith, ◌-◌, u32, u32_mod,
}
use cloud_desktop.Drm.Store.{Drm, Flags, drm_rollback, for_all}
use cloud_desktop.Drm.Liftoff.{Errno}
use cloud_desktop.Drm.Commit.{
  accept_commit, begin_commit, fail_commit, page_flip_handler, swap_queued, wait_for_flip,
}
use cloud_desktop.Drm.Ready.{IsQuiet}

-- What the kernel may say without the program aborting.
abbrev pub is_fatal : Errno → Bool
is_fatal Errno.success = false
is_fatal Errno.einval = true
is_fatal Errno.eperm = true
is_fatal Errno.eacces = false
is_fatal Errno.ebusy = false
is_fatal Errno.other = true

-- What page_flip_handler does for the CRTC in use.
page_flip_handler_lem :
    (crtc_id ctx : ℕ) (s : Drm)
    → s.crtc ≡ some crtc_id
    → page_flip_handler crtc_id ctx s ≡ record s {
      completed_presents = s.present_ctxs ctx;
      visible_fb_ids = s.queued_fb_ids;
      queued_fb_ids = [];
      pending_flip_count = u32 (s.pending_flip_count + (u32_mod - 1));
    }
unfolding page_flip_handler
page_flip_handler_lem crtc_id ctx s e =
    let mine : ◌≡◌ {A = Bool} (elim s.crtc [ none ↦ false | some r ↦ r == crtc_id ]) true =
      ground (arith, e) in
    ap
      (λ (b : Bool).
        if b
        then record s {
          completed_presents = s.present_ctxs ctx;
          visible_fb_ids = s.queued_fb_ids;
          queued_fb_ids = [];
          pending_flip_count = u32 (s.pending_flip_count + (u32_mod - 1));
        }
        else record s { completed_presents = s.present_ctxs ctx })
      mine

-- The request was handed to the kernel.
record IsSent (t b : Drm) : Type 0 where
  same_flags : b.flags ≡ t.flags
  same_crtc : b.crtc ≡ t.crtc
  same_visible : b.visible_fb_ids ≡ t.visible_fb_ids
  queued :
      b.queued_fb_ids ≡ (if t.flags.page_flip_event then t.fb_ids_in_request else t.queued_fb_ids)
  requested :
      b.fb_ids_in_request
      ≡ (if t.flags.page_flip_event then t.queued_fb_ids else t.fb_ids_in_request)
  counted :
      b.pending_flip_count
      ≡ (if t.flags.page_flip_event then u32 (t.pending_flip_count + 1) else t.pending_flip_count)

begin_commit-IsSent : (t : Drm) → IsSent t (begin_commit t)
unfolding begin_commit
begin_commit-IsSent t = elim (Bool-cases t.flags.page_flip_event) [
  | inl flip ↦ record {
    same_flags = rw flip refl;
    same_crtc = rw flip refl;
    same_visible = rw flip refl;
    queued = rw flip refl;
    requested = rw flip refl;
    counted = rw flip refl;
  }
  | inr still ↦ record {
    same_flags = rw still refl;
    same_crtc = rw still refl;
    same_visible = rw still refl;
    queued = rw still refl;
    requested = rw still refl;
    counted = rw still refl;
  }
]

-- A frame is on the screen: with a page flip, the framebuffers that were queued are visible.
record IsShown (b u : Drm) : Type 0 where
  quiet : IsQuiet u
  cleared : u.fb_ids_in_request ≡ []
  visible :
      u.visible_fb_ids ≡ (if b.flags.page_flip_event then b.queued_fb_ids else b.visible_fb_ids)

wait_for_flip-IsShown :
    (a : Drm) (crtc_id ctx : ℕ)
    → a.req ≡ none
    → a.fb_ids_in_request ≡ []
    → (a.flags.page_flip_event ≡ true → (a.crtc ≡ some crtc_id) × (a.pending_flip_count ≡ 1))
    → (a.flags.page_flip_event ≡ false → (a.queued_fb_ids ≡ []) × (a.pending_flip_count ≡ 0))
    → (u : Drm) × (wait_for_flip crtc_id ctx a ≡ some u) × IsShown a u
unfolding wait_for_flip
wait_for_flip-IsShown a crtc_id ctx idle clear flips stays =
    elim (Bool-cases a.flags.page_flip_event) [
      | inl flip ↦
          let (mine, one) = flips flip in
          let u = record a {
            completed_presents = a.present_ctxs ctx;
            visible_fb_ids = a.queued_fb_ids;
            queued_fb_ids = [];
            pending_flip_count = u32 (a.pending_flip_count + (u32_mod - 1));
          } in
          let done : u.pending_flip_count ≡ 0 = rw one refl in
          let waits : not a.flags.page_flip_event ≡ false = rw flip refl in
          let changed : u.pending_flip_count == a.pending_flip_count ≡ false = ground arith in
          let ended : u.pending_flip_count == 0 ≡ true = ground arith in
          (
            u,
            rw (page_flip_handler_lem crtc_id ctx a mine) (λ i.
                if waits i
                then some a
                else if changed i
                then none
                else if ended i
                then some u
                else none),
            record {
              quiet = record { no_request = idle; none_queued = refl; no_flip = done };
              cleared = clear;
              visible = rw flip refl;
            },
          )
      | inr still ↦
          let (empty, zero_flips) = stays still in
          let n = (page_flip_handler crtc_id ctx a).pending_flip_count in
          let stops : not a.flags.page_flip_event ≡ true = rw still refl in
          (
            a,
            (λ i.
                if stops i
                then some a
                else if n == a.pending_flip_count
                then none
                else if n == 0
                then some (page_flip_handler crtc_id ctx a)
                else none),
            record {
              quiet = record { no_request = idle; none_queued = empty; no_flip = zero_flips };
              cleared = clear;
              visible = rw still refl;
            },
          )
    ]

-- The fields of a commit that the kernel took, before the wait.
pub accepted :
    (t : Drm) (crtc_id ctx : ℕ)
    → t.pending_flip_count ≡ 0
    → t.queued_fb_ids ≡ []
    → (t.flags.page_flip_event ≡ true → t.crtc ≡ some crtc_id)
    → (u : Drm) × (wait_for_flip crtc_id ctx (accept_commit (begin_commit t)) ≡ some u)
      × IsQuiet u
      × (u.fb_ids_in_request ≡ [])
      × (u.visible_fb_ids
          ≡ (if t.flags.page_flip_event then t.fb_ids_in_request else t.visible_fb_ids))
unfolding accept_commit for_all
accepted t crtc_id ctx idle empty ours =
    let b = begin_commit t in
    let sent = begin_commit-IsSent t in
    let flags : b.flags.page_flip_event ≡ t.flags.page_flip_event =
      ap (λ (f : Flags). f.page_flip_event) sent.same_flags in
    let (u, done, shown) =
      wait_for_flip-IsShown (accept_commit b) crtc_id ctx refl refl
        (λ flip. (
          sent.same_crtc ∙ ours (sym flags ∙ flip),
          sent.counted ∙ (let on = sym flags ∙ flip in rw (on, idle) refl),
        ))
        (λ still.
          let off = sym flags ∙ still in
          (sent.queued ∙ (rw off empty), sent.counted ∙ (rw off idle))) in
    let queued : (if b.flags.page_flip_event then b.queued_fb_ids else b.visible_fb_ids)
        ≡ (if t.flags.page_flip_event then t.fb_ids_in_request else t.visible_fb_ids) =
      ground (arith, flags, sent.queued, sent.same_visible) in
    (u, done, shown.quiet, shown.cleared, shown.visible ∙ queued)

-- The fields of a commit that the kernel refused.
pub refused :
    (t : Drm)
    → t.pending_flip_count ≡ 0
    → t.queued_fb_ids ≡ []
    → (t.flags.page_flip_event ≡ false → t.fb_ids_in_request ≡ [])
    → IsQuiet (fail_commit (begin_commit t))
      × ((fail_commit (begin_commit t)).fb_ids_in_request ≡ [])
      × ((fail_commit (begin_commit t)).visible_fb_ids ≡ t.visible_fb_ids)
unfolding fail_commit drm_rollback for_all swap_queued
refused t idle empty unflipped =
    let b = begin_commit t in
    let sent = begin_commit-IsSent t in
    let flags : b.flags.page_flip_event ≡ t.flags.page_flip_event =
      ap (λ (f : Flags). f.page_flip_event) sent.same_flags in
    (
      record {
        no_request = refl;
        none_queued = elim (Bool-cases t.flags.page_flip_event) [
          | inl on ↦ sent.requested ∙ (rw on empty)
          | inr off ↦ sent.requested ∙ (rw off (unflipped off))
        ];
        no_flip = ground (arith, flags, sent.counted);
      },
      refl,
      sent.same_visible,
    )

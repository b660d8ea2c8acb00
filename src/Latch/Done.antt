-- ===== src/Latch/Done.antt =====
-- What handle_done_commit and steamcompmgr_flush_frame_done do to a window (src/steamcompmgr.cpp).
use cloud_desktop.Prelude.{
  Bool, ◌||◌, ℕ, ◌+◌, ◌≡◌, ◌≢◌, refl, true, false, ◌==◌, Option, none, some, List, [], ◌∷◌, ◌++◌,
  All, arith, ap, get_elem?, subst, sym, ◌∙◌, ◌⊎◌, Bool-cases, Option-cases, inl, inr,
}
use cloud_desktop.Window.{Win, Commit}
use cloud_desktop.Window.Commits.{
  last_done, window_last_done_commit_index, get_window_last_done_commit_peek,
  window_last_done_commit_id,
}
use cloud_desktop.Latch.State.{Compositor}
use cloud_desktop.Latch.Vblank.{flush_frame_done}
use cloud_desktop.Latch.Commit.{mark_done, scan_queue, finish_done, handle_done_commit}

-- The queue as it was, and the queue from the first commit with the id on.
pub record Splits (id : ℕ) (queue : List Commit) (c : Commit) (rest : List Commit) : Type 0 where
  pub older : List Commit
  pub whole : queue ≡ older ++ c ∷ rest
  pub others : All (λ (d : Commit). d.commit_id ≢ id) older
  pub hit : c.commit_id ≡ id

Found : (id p l : ℕ) (queue kept : List Commit) → Type 0
Found id p l queue kept =
    (c : Commit) × (rest : List Commit) × (kept ≡ mark_done c p l ∷ rest) × Splits id queue c rest

Found-later :
    (id p l : ℕ) (d : Commit) (ds kept : List Commit)
    → d.commit_id ≢ id
    → Found id p l ds kept
    → Found id p l (d ∷ ds) kept
unfolding Found
Found-later id p l d ds kept n (c, rest, e, s) = (
  c,
  rest,
  e,
  record {
    older = d ∷ s.older;
    whole = ap (λ xs. d ∷ xs) s.whole;
    others = (n, s.others);
    hit = s.hit;
  },
)

scan_queue_lem :
    (id p l : ℕ) (engine : Option ℕ) (queue kept : List Commit)
    → (scan_queue id p l engine queue).1 ≡ some kept
    → Found id p l queue kept
unfolding scan_queue Found
scan_queue_lem id p l engine [] kept h = absurd (ground arith)
scan_queue_lem id p l engine (d ∷ ds) kept h = elim (Bool-cases (d.commit_id == id)) [
  | inl e ↦
      (d, ds, ground arith, record { older = []; whole = refl; others = tt; hit = ground arith })
  | inr e ↦ Found-later id p l d ds kept (ground arith) (
      scan_queue_lem id p l (elim d.engine_name [ none ↦ engine | some n ↦ some n ]) ds kept
        (ground arith))
]

last_done_none :
    (i : ℕ) (last : Option ℕ) (cs : List Commit)
    → All (λ (d : Commit). d.done ≡ false) cs
    → last_done i last cs ≡ last
unfolding last_done
last_done_none i last [] h = refl
last_done_none i last (c ∷ cs) h = rw h.0 (last_done_none (i + 1) last cs h.1)

last_done_first :
    (c : Commit) (rest : List Commit)
    → c.done ≡ true
    → All (λ (d : Commit). d.done ≡ false) rest
    → last_done 0 none (c ∷ rest) ≡ some 0
unfolding last_done
last_done_first c rest d h = rw d (last_done_none 1 (some 0) rest h)

peek_id : (queue : List Commit) (i : Option ℕ) → ℕ
peek_id queue none = 0
peek_id queue (some i) = elim (get_elem? queue i) [ none ↦ 0 | some c ↦ c.commit_id ]

peek_id_lem :
    (w : Win)
    → window_last_done_commit_id (some w) ≡ peek_id w.commit_queue (last_done 0 none w.commit_queue)
unfolding window_last_done_commit_id get_window_last_done_commit_peek window_last_done_commit_index
    peek_id
peek_id_lem w = elim (Option-cases (last_done 0 none w.commit_queue)) [
  | inl e ↦ ground arith
  | inr (i, e) ↦ ground arith
]

none_done :
    (cs : List Commit)
    → All (λ (d : Commit). d.done ≡ false) cs ⊎ ¬ All (λ (d : Commit). d.done ≡ false) cs
none_done [] = inl tt
none_done (c ∷ cs) = elim (Bool-cases c.done) [
  | inl e ↦ inr (λ h. ground (arith, h.0))
  | inr e ↦ elim (none_done cs) [ inl h ↦ inl (e, h) | inr n ↦ inr (λ h. n h.1) ]
]

-- A queue whose first commit is done and no other shows that one.
shows_first :
    (w : Win) (c : Commit) (rest : List Commit)
    → w.commit_queue ≡ c ∷ rest
    → c.done ≡ true
    → All (λ (d : Commit). d.done ≡ false) rest
    → window_last_done_commit_id (some w) ≡ c.commit_id
unfolding peek_id
shows_first w c rest e d h =
    subst (λ i. window_last_done_commit_id (some w) ≡ i)
      (ap (λ q. peek_id q (last_done 0 none q)) e
        ∙ ap (λ i. peek_id (c ∷ rest) i) (last_done_first c rest d h))
      (peek_id_lem w)

-- What a window is after its commit with the id has finished.
pub Shown : ℕ → ℕ → ℕ → Win → Win → Type 0
Shown id present latch w w' =
    (c : Commit) × (rest : List Commit) × Splits id w.commit_queue c rest
    × (w'.commit_queue ≡ mark_done c present latch ∷ rest)
    × (w'.received_done_commit ≡ true)
    × ((window_last_done_commit_id (some w') ≡ id) ⊎ ¬ All (λ (d : Commit). d.done ≡ false) rest)

-- Where a flush sends frame callbacks for a window, a vblank had unlocked them and a commit of the
-- window had finished since the last ones, and a second flush sends none.
pub flush_frame_done_once :
    (w : Win) (main current : Option ℕ) (now later : ℕ)
    → (flush_frame_done w main current now).1 ≢ []
    → (w.unlocked_for_frame_callback ≡ true)
      × (w.received_done_commit ≡ true)
      × ((flush_frame_done (flush_frame_done w main current now).0 main current later).1 ≡ [])
unfolding flush_frame_done
flush_frame_done_once w main none now later h = absurd (h refl)
flush_frame_done_once w main (some s) now later h = ground arith

finish_done-Shown :
    (w w₁ : Win) (c : Compositor) (id present latch : ℕ) (queue : List Commit)
    → Found id present latch w.commit_queue queue
    → Shown id present latch w (finish_done w₁ id queue c).0
unfolding finish_done Found Shown mark_done
finish_done-Shown w w₁ c id present latch queue (d, rest, e, s) = (
  d,
  rest,
  s,
  e,
  refl,
  elim (none_done rest) [
    | inl h ↦ inl (
        shows_first (finish_done w₁ id queue c).0 (mark_done d present latch) rest e refl h ∙ s.hit)
    | inr n ↦ inr n
  ],
)

handle_found :
    (w : Win) (c : Compositor) (id present latch : ℕ) (queue : List Commit)
    → (scan_queue id present latch w.engine_name w.commit_queue).1 ≡ some queue
    → (handle_done_commit w c id present latch).1
      ≡ (finish_done
          (record w { engine_name = (scan_queue id present latch w.engine_name w.commit_queue).0 })
          id
          queue
          c).0
unfolding handle_done_commit
handle_found w c id present latch queue e = rw (e, handle_done_commit) refl

not_found :
    (w : Win) (c : Compositor) (id present latch : ℕ)
    → (scan_queue id present latch w.engine_name w.commit_queue).1 ≡ none
    → (handle_done_commit w c id present latch).0 ≡ false
unfolding handle_done_commit
not_found w c id present latch e = rw (e, handle_done_commit) refl

-- Where handle_done_commit answers true, the queue of the window held the commit: the commits before
-- the first with the id are dropped, that commit is marked as done and stands first, the window is
-- noted to have a finished commit, and it shows that commit unless a later one was done already.
pub handle_done_commit-Shows :
    (w : Win) (c : Compositor) (id present latch : ℕ)
    → (handle_done_commit w c id present latch).0 ≡ true
    → Shown id present latch w (handle_done_commit w c id present latch).1
unfolding Shown
handle_done_commit-Shows w c id present latch h =
    elim (Option-cases (scan_queue id present latch w.engine_name w.commit_queue).1) [
      | inl e ↦ absurd (ground (arith, not_found w c id present latch e))
      | inr (queue, e) ↦
          subst (λ r. Shown id present latch w r) (sym (handle_found w c id present latch queue e))
            (finish_done-Shown w
              (record w {
                engine_name = (scan_queue id present latch w.engine_name w.commit_queue).0;
              })
              c id present latch queue
              (scan_queue_lem id present latch w.engine_name w.commit_queue queue e))
    ]

abbrev pub has_commit : ℕ → List Commit → Bool
has_commit id [] = false
has_commit id (c ∷ cs) = c.commit_id == id || has_commit id cs

abbrev is_found : Option (List Commit) → Bool
is_found none = false
is_found (some _) = true

scan_queue_finds :
    (id p l : ℕ) (engine : Option ℕ) (queue : List Commit)
    → is_found (scan_queue id p l engine queue).1 ≡ has_commit id queue
unfolding scan_queue
scan_queue_finds id p l engine [] = refl
scan_queue_finds id p l engine (d ∷ ds) = elim (Bool-cases (d.commit_id == id)) [
  | inl e ↦ ground arith
  | inr e ↦
      ground
        (arith, scan_queue_finds id p l (elim d.engine_name [ none ↦ engine | some n ↦ some n ]) ds)
]

answer_found :
    (w : Win) (c : Compositor) (id present latch : ℕ)
    → (handle_done_commit w c id present latch).0
      ≡ is_found (scan_queue id present latch w.engine_name w.commit_queue).1
unfolding handle_done_commit
answer_found w c id present latch =
    elim (Option-cases (scan_queue id present latch w.engine_name w.commit_queue).1) [
      | inl e ↦ ground (arith, e)
      | inr (queue, e) ↦ ground (arith, e)
    ]

kept_queue :
    (w : Win) (c : Compositor) (id present latch : ℕ)
    → (scan_queue id present latch w.engine_name w.commit_queue).1 ≡ none
    → (handle_done_commit w c id present latch).1.commit_queue ≡ w.commit_queue
unfolding handle_done_commit
kept_queue w c id present latch e = ground (arith, e)

-- handle_done_commit answers true exactly if the window's queue has a commit with the id; and where it
-- has none, the queue stays as it was.
handle_done_commit_finds :
    (w : Win) (c : Compositor) (id present latch : ℕ)
    → ((handle_done_commit w c id present latch).0 ≡ has_commit id w.commit_queue)
      × ((has_commit id w.commit_queue ≡ true)
          ⊎ ((handle_done_commit w c id present latch).1.commit_queue ≡ w.commit_queue))
handle_done_commit_finds w c id present latch = (
  answer_found w c id present latch
      ∙ scan_queue_finds id present latch w.engine_name w.commit_queue,
  rest,
)
  where
    rest :
        (has_commit id w.commit_queue ≡ true)
        ⊎ ((handle_done_commit w c id present latch).1.commit_queue ≡ w.commit_queue)
    rest = elim (Option-cases (scan_queue id present latch w.engine_name w.commit_queue).1) [
      | inl e ↦ inr (kept_queue w c id present latch e)
      | inr (queue, e) ↦
          inl (ground (arith, e, scan_queue_finds id present latch w.engine_name w.commit_queue))
    ]

-- ===== src/Latch/Given.antt =====
-- What becomes of finished commits that are handed to the windows (src/steamcompmgr.cpp).
use cloud_desktop.Prelude.{
  ◌≡◌, ◌≢◌, refl, ◌∙◌, ap, subst, ◌++◌, Bool, true, false, ◌==◌, List, [], ◌∷◌, arith, inl, inr,
  Bool-cases,
}
use cloud_desktop.Window.{Win}
use cloud_desktop.Latch.State.{CommitDoneEntry, Compositor}
use cloud_desktop.Latch.Commit.{handle_done_commit}
use cloud_desktop.Latch.Loops.{hand_over}

-- What a window and the globals are after the entry was given to the window.
abbrev pub answer : CommitDoneEntry → Win → Compositor → Bool × Win × Compositor
answer e w c = handle_done_commit w c e.commit_id e.earliest_present_time e.earliest_latch_time

-- The entry goes to the windows with its number, until one of them has the commit in its queue. The others
-- stay as they are.
pub data Given (e : CommitDoneEntry)
    : List Win → Compositor → Bool × List Win × Compositor → Type 0 where
  nobody : {c : Compositor} → Given e [] c (false, [], c)
  another :
      {w : Win} {ws ws' : List Win} {c c' : Compositor} {done : Bool}
      → w.seq ≢ e.win_seq
      → Given e ws c (done, ws', c')
      → Given e (w ∷ ws) c (done, w ∷ ws', c')
  takes :
      {w w' : Win} {ws : List Win} {c c' : Compositor}
      → w.seq ≡ e.win_seq
      → answer e w c ≡ (true, w', c')
      → Given e (w ∷ ws) c (true, w' ∷ ws, c')
  refuses :
      {w w' : Win} {ws ws' : List Win} {c c' c'' : Compositor} {done : Bool}
      → w.seq ≡ e.win_seq
      → answer e w c ≡ (false, w', c')
      → Given e ws c' (done, ws', c'')
      → Given e (w ∷ ws) c (done, w' ∷ ws', c'')

answered :
    (e : CommitDoneEntry) (w : Win) (ws : List Win) (c : Compositor) (r : Bool × Win × Compositor)
    → w.seq ≡ e.win_seq
    → answer e w c ≡ r
    → Given e ws r.2 (hand_over e ws r.2)
    → Given e (w ∷ ws) c (hand_over e (w ∷ ws) c)
unfolding hand_over
answered e w ws c (true, w', c') same a rest =
    let this : w.seq == e.win_seq ≡ true = ground arith in rw (this, a) (Given.takes same a)
answered e w ws c (false, w', c') same a rest =
    let this : w.seq == e.win_seq ≡ true = ground arith in rw (this, a) (Given.refuses same a rest)

pub hand_over-Given :
    (e : CommitDoneEntry) (ws : List Win) (c : Compositor) → Given e ws c (hand_over e ws c)
unfolding hand_over
hand_over-Given e [] c = Given.nobody
hand_over-Given e (w ∷ ws) c = elim (Bool-cases (w.seq == e.win_seq)) [
  | inl this ↦
      answered e w ws c (answer e w c) (ground arith) refl (hand_over-Given e ws (answer e w c).2)
  | inr other ↦ rw other (Given.another (ground arith) (hand_over-Given e ws c))
]

-- The globals are the same but for the schedule of the FPS limit with VRR.
abbrev pub SameGlobals : Compositor → Compositor → Type 0
SameGlobals c c' =
    c' ≡ record c { lowest_fps_limit_schedule_vrr = c'.lowest_fps_limit_schedule_vrr }

pub SameGlobals-trans : (a b c : Compositor) → SameGlobals a b → SameGlobals b c → SameGlobals a c
SameGlobals-trans a b c h k =
    k
    ∙ ap
        (λ (d : Compositor). record d {
          lowest_fps_limit_schedule_vrr = c.lowest_fps_limit_schedule_vrr;
        })
        h

-- The windows and globals `ws'` and `c'` result from `ws` and `c` by handing the entries, in their order,
-- to the windows: each to what the one before it left, and each with that answer.
abbrev pub HandedOver :
    List (CommitDoneEntry × Bool) → List Win → Compositor → List Win → Compositor → Type 0
HandedOver [] ws c ws' c' = (ws' ≡ ws) × SameGlobals c c'
HandedOver ((e, done) ∷ es) ws c ws' c' =
    (c₁ c₂ : Compositor) × (ws₁ : List Win) × SameGlobals c c₁
    × Given e ws c₁ (done, ws₁, c₂)
    × HandedOver es ws₁ c₂ ws' c'

pub HandedOver-later :
    (es : List (CommitDoneEntry × Bool)) (ws ws' : List Win) (c c' c'' : Compositor)
    → HandedOver es ws c ws' c'
    → SameGlobals c' c''
    → HandedOver es ws c ws' c''
HandedOver-later [] ws ws' c c' c'' (same, h) k = (same, SameGlobals-trans c c' c'' h k)
HandedOver-later ((e, done) ∷ es) ws ws' c c' c'' (c₁, c₂, ws₁, h, now, rest) k =
    (c₁, c₂, ws₁, h, now, HandedOver-later es ws₁ ws' c₂ c' c'' rest k)

pub HandedOver-append :
    (es : List (CommitDoneEntry × Bool)) (e : CommitDoneEntry) (ws ws' : List Win)
    (c c' : Compositor)
    → HandedOver es ws c ws' c'
    → HandedOver
        (es ++ ((e, (hand_over e ws' c').0) ∷ []))
        ws
        c
        (hand_over e ws' c').1
        (hand_over e ws' c').2
HandedOver-append [] e ws ws' c c' (same, h) = (
  c',
  (hand_over e ws' c').2,
  (hand_over e ws' c').1,
  h,
  subst (λ vs. Given e vs c' (hand_over e ws' c')) same (hand_over-Given e ws' c'),
  (refl, refl),
)
HandedOver-append ((f, done) ∷ es) e ws ws' c c' (c₁, c₂, ws₁, h, now, rest) =
    (c₁, c₂, ws₁, h, now, HandedOver-append es e ws₁ ws' c₂ c' rest)

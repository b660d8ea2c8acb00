-- ===== src/Dynamic/Choice.antt =====
-- Which refresh rate is chosen for an app's refresh cycle (src/steamcompmgr.cpp).
use cloud_desktop.Prelude.{
  ℕ, ◌*◌, ◌/◌, ◌<◌, ◌≡◌, refl, ap, subst, ◌∙◌, ◌⊎◌, Bool, true, false, ◌==◌, ◌=ᵇ◌, if◌then◌else◌,
  Option, none, some, List, [], ◌∷◌, ◌++◌, All, find_first, Bool-cases, inl, inr, arith,
}
use native.Mathlib.Nat.{div-add-mod, div-mul-le_self}
use cloud_desktop.Dynamic.{
  Connector, Rates, ScreenType, divides, is_screen, or_zero, reverse_onto,
  set_app_refresh_cycle_override, set_at, update_app_target_refresh_cycle, update_target,
}

-- The last element that passes the test, or that there is none.
abbrev pub IsLast : (ℕ → Bool) → List ℕ → Option ℕ → Type 0
IsLast test xs none = All (λ x. test x ≡ false) xs
IsLast test xs (some r) =
    (before after : List ℕ) × (xs ≡ before ++ r ∷ after)
    × (test r ≡ true)
    × All (λ x. test x ≡ false) after

-- Searching the list backwards finds the last one.
find_first-reverse_onto :
    (test : ℕ → Bool) (xs ys : List ℕ)
    → ((r : ℕ) × IsLast test xs (some r) × (find_first test (reverse_onto xs ys) ≡ some r))
      ⊎ (IsLast test xs none × (find_first test (reverse_onto xs ys) ≡ find_first test ys))
unfolding find_first reverse_onto
find_first-reverse_onto test [] ys = inr (tt, refl)
find_first-reverse_onto test (x ∷ xs) ys = elim (find_first-reverse_onto test xs (x ∷ ys)) [
  | inl (r, (before, after, e, hit, later), f) ↦
      inl (r, (x ∷ before, after, ap (λ l. x ∷ l) e, hit, later), f)
  | inr (later, f) ↦ elim (Bool-cases (test x)) [
    | inl hit ↦ inl (x, ([], xs, refl, hit, later), f ∙ ground arith)
    | inr miss ↦ inr ((miss, later), f ∙ ground arith)
  ]
]

-- The rate that is found, if there is one.
find-IsLast :
    (test : ℕ → Bool) (xs : List ℕ)
    → (o : Option ℕ) × IsLast test xs o × (find_first test (reverse_onto xs []) ≡ o)
unfolding find_first
find-IsLast test xs = elim (find_first-reverse_onto test xs []) [
  | inl (r, h, f) ↦ (some r, h, f)
  | inr (h, f) ↦ (none, h, f)
]

pub screen-same : (t : ScreenType) → is_screen t t ≡ true
screen-same ScreenType.internal = refl
screen-same ScreenType.external = refl

exact_frames :
    (target : ℕ) (xs : List ℕ) (o : Option ℕ)
    → 0 < target
    → IsLast (divides target) xs o
    → or_zero o / target * target ≡ or_zero o
exact_frames target xs none l h = ground (arith, div-mul-le_self 0 target)
exact_frames target xs (some r) l (before, after, e, hit, later) =
    ground (arith, div-add-mod r target)

exact_if :
    (refresh : Bool) (target : ℕ) (xs : List ℕ) (o : Option ℕ)
    → 0 < target
    → IsLast (divides target) xs o
    → (if refresh then or_zero o else 0) / target * target ≡ (if refresh then or_zero o else 0)
exact_if true target xs o l h = exact_frames target xs o l h
exact_if false target xs o l h = ground (arith, div-mul-le_self 0 target)

-- The rates after `fps` frames per second, for the screen of `c`, were asked for. A limit is set if it
-- may change, and there is none otherwise. If the refresh rate may change, it is the last valid one
-- that is a multiple of `fps`, or 0 if there is none. The rate of the other screen stays.
pub record IsChosen (c : Connector) (fps : ℕ) (change_refresh change_fps : Bool) (s s' : Rates)
    : Type 0 where
  pub found : Option ℕ
  pub last : IsLast (divides fps) c.valid_dynamic_refresh_rates found
  pub rate : s'.dynamic_refresh_rate c.screen_type ≡ (if change_refresh then or_zero found else 0)
  pub limit : s'.target_fps ≡ (if change_fps then fps else 0)
  pub other :
      (t : ScreenType)
      → (is_screen c.screen_type t ≡ true) ⊎ (s'.dynamic_refresh_rate t ≡ s.dynamic_refresh_rate t)

other_screen :
    (t u : ScreenType) (v : ℕ) (f : ScreenType → ℕ)
    → (is_screen t u ≡ true) ⊎ (set_at t v f u ≡ f u)
other_screen t u v f = elim (Bool-cases (is_screen t u)) [
  | inl same ↦ inl same
  | inr apart ↦ inr (rw apart refl)
]

set_at-IsChosen :
    (c : Connector) (fps v limit : ℕ) (refresh frames : Bool) (o : Option ℕ) (s : Rates)
    → IsLast (divides fps) c.valid_dynamic_refresh_rates o
    → v ≡ (if refresh then or_zero o else 0)
    → limit ≡ (if frames then fps else 0)
    → IsChosen c fps refresh frames s (record s {
      dynamic_refresh_rate = set_at c.screen_type v s.dynamic_refresh_rate;
      target_fps = limit;
    })
set_at-IsChosen c fps v limit refresh frames o s l e e' = record {
  found = o;
  last = l;
  rate = rw (screen-same c.screen_type) e;
  limit = e';
  other = λ u. other_screen c.screen_type u v s.dynamic_refresh_rate;
}

update_target-IsChosen :
    (c : Connector) (fps : ℕ) (s : Rates)
    → 0 < fps
    → s.app_refresh_cycle_override c.screen_type ≡ fps
    → IsChosen c fps
        (s.change_refresh c.screen_type)
        (s.change_fps c.screen_type)
        s
        (update_target (some c) s)
unfolding update_target
update_target-IsChosen c fps s h e =
    let t = c.screen_type in
    let (o, l, f) = find-IsLast (divides fps) c.valid_dynamic_refresh_rates in
    let asked : fps == 0 ≡ false = ground arith in
    elim (Bool-cases (s.change_refresh t)) [
      | inl refresh ↦ elim (Bool-cases (s.change_fps t)) [
        | inl frames ↦
            rw (e, asked, refresh, frames, f)
              (set_at-IsChosen c fps (or_zero o) fps true true o s l refl refl)
        | inr no_frames ↦
            rw (e, asked, refresh, no_frames, f)
              (set_at-IsChosen c fps (or_zero o) 0 true false o s l refl refl)
      ]
      | inr no_refresh ↦ elim (Bool-cases (s.change_fps t)) [
        | inl frames ↦
            rw (e, asked, no_refresh, frames)
              (set_at-IsChosen c fps 0 fps false true o s l refl refl)
        | inr no_frames ↦
            rw (e, asked, no_refresh, no_frames)
              (set_at-IsChosen c fps 0 0 false false o s l refl refl)
      ]
    ]

-- The runtime information does not matter.
update_app_target_refresh_cycle-IsChosen :
    (c : Connector) (fps : ℕ) (r l : Bool) (s : Rates)
    → IsChosen c fps r l s (update_target (some c) s)
    → IsChosen c fps r l s (update_app_target_refresh_cycle (some c) s)
unfolding update_app_target_refresh_cycle
update_app_target_refresh_cycle-IsChosen c fps r l s x =
    elim (Bool-cases (((update_target (some c) s).target_fps == 0) =ᵇ (s.target_fps == 0))) [
      | inl same ↦ rw same x
      | inr changed ↦ rw changed (record {
        found = x.found;
        last = x.last;
        rate = x.rate;
        limit = x.limit;
        other = x.other;
      })
    ]

-- An override of `fps` frames per second, not 0, for the current screen limits the frames to `fps` if
-- the limit may change, and lifts the limit otherwise. If the refresh rate may change, the rate that is
-- chosen for the screen is the last valid one that is a multiple of `fps`, or 0 if there is none or it
-- may not change; so a whole number of refresh cycles makes up a frame. The rate chosen for the other
-- screen stays.
pub set_app_refresh_cycle_override-IsChosen :
    (c : Connector) (fps : ℕ) (change_refresh change_fps : Bool) (s s' : Rates)
    → 0 < fps
    → set_app_refresh_cycle_override (some c) c.screen_type fps change_refresh change_fps s ≡ s'
    → IsChosen c fps change_refresh change_fps s s'
      × (s'.dynamic_refresh_rate c.screen_type / fps * fps ≡ s'.dynamic_refresh_rate c.screen_type)
unfolding set_app_refresh_cycle_override
set_app_refresh_cycle_override-IsChosen c fps change_refresh change_fps s s' h e =
    let t = c.screen_type in
    let asked = record s {
      app_refresh_cycle_override = set_at t fps s.app_refresh_cycle_override;
      change_refresh = set_at t change_refresh s.change_refresh;
      change_fps = set_at t change_fps s.change_fps;
    } in
    let out = update_app_target_refresh_cycle (some c) asked in
    let x : IsChosen c fps (asked.change_refresh t) (asked.change_fps t) asked out =
      update_app_target_refresh_cycle-IsChosen c fps (asked.change_refresh t) (asked.change_fps t)
        asked (update_target-IsChosen c fps asked h (rw (screen-same t) refl)) in
    let may_refresh : asked.change_refresh t ≡ change_refresh = rw (screen-same t) refl in
    let may_limit : asked.change_fps t ≡ change_fps = rw (screen-same t) refl in
    let y : IsChosen c fps change_refresh change_fps asked s' =
      subst (λ z. IsChosen c fps change_refresh change_fps asked z) e
        (subst (λ r. IsChosen c fps r change_fps asked out) may_refresh
          (subst (λ l. IsChosen c fps (asked.change_refresh t) l asked out) may_limit x)) in
    (
      record { found = y.found; last = y.last; rate = y.rate; limit = y.limit; other = y.other },
      rw y.rate (exact_if change_refresh fps c.valid_dynamic_refresh_rates y.found h y.last),
    )

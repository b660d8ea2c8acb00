-- ===== src/Dynamic/Wanted.antt =====
-- The refresh rate that a frame wants, and what it depends on (src/steamcompmgr.cpp).
use cloud_desktop.Prelude.{
  ℕ, ◌≡◌, refl, sym, ◌∙◌, inl, inr, Bool, ◌==◌, ◌=ᵇ◌, if◌then◌else◌, some, [], find_first,
  Bool-cases,
}
use cloud_desktop.Dynamic.Choice.{screen-same}
use cloud_desktop.Dynamic.{
  Connector, Frame, Rates, ScreenType, divides, or_zero, reverse_onto, target_refresh_hz,
  update_app_target_refresh_cycle, update_target,
}

-- The rate that a frame wants.
unfoldable pub wanted : Frame → Rates → ℕ
unfolding update_app_target_refresh_cycle target_refresh_hz
wanted f s = target_refresh_hz f (update_app_target_refresh_cycle (some f.connector) s)

abbrev pub chosen_rate : Connector → ℕ → Bool → ℕ
unfolding reverse_onto
chosen_rate c target refresh =
    if target == 0
    then 0
    else if refresh
    then or_zero (find_first (divides target) (reverse_onto c.valid_dynamic_refresh_rates []))
    else 0

-- What the choice of a rate depends on, and what it leaves.
pub record Updated (c : Connector) (s s' : Rates) : Type 0 where
  pub same_override : s'.app_refresh_cycle_override ≡ s.app_refresh_cycle_override
  pub same_change : s'.change_refresh ≡ s.change_refresh
  pub same_time : s'.equality_time ≡ s.equality_time
  pub same_hz : s'.dynamic_refresh_hz ≡ s.dynamic_refresh_hz
  pub same_output : s'.output_refresh ≡ s.output_refresh
  pub rate :
      s'.dynamic_refresh_rate c.screen_type
      ≡ chosen_rate c (s.app_refresh_cycle_override c.screen_type) (s.change_refresh c.screen_type)

kept-Updated :
    (c : Connector) (s : Rates) (rates : ScreenType → ℕ) (fps : ℕ)
    → rates c.screen_type
      ≡ chosen_rate c (s.app_refresh_cycle_override c.screen_type) (s.change_refresh c.screen_type)
    → Updated c s (record s { dynamic_refresh_rate = rates; target_fps = fps })
kept-Updated c s rates fps e = record {
  same_override = refl;
  same_change = refl;
  same_time = refl;
  same_hz = refl;
  same_output = refl;
  rate = e;
}

update_target-Updated : (c : Connector) (s : Rates) → Updated c s (update_target (some c) s)
unfolding update_target
update_target-Updated c s =
    let t = c.screen_type in
    elim (Bool-cases (s.app_refresh_cycle_override t == 0)) [
      | inl unasked ↦ rw unasked (kept-Updated c s _ _ (rw (screen-same t, unasked) refl))
      | inr asked ↦ elim (Bool-cases (s.change_refresh t)) [
        | inl refresh ↦ elim (Bool-cases (s.change_fps t)) [
          | inl frames ↦
              rw (asked, refresh, frames)
                (kept-Updated c s _ _ (rw (screen-same t, asked, refresh) refl))
          | inr no_frames ↦
              rw (asked, refresh, no_frames)
                (kept-Updated c s _ _ (rw (screen-same t, asked, refresh) refl))
        ]
        | inr no_refresh ↦ elim (Bool-cases (s.change_fps t)) [
          | inl frames ↦
              rw (asked, no_refresh, frames)
                (kept-Updated c s _ _ (rw (screen-same t, asked, no_refresh) refl))
          | inr no_frames ↦
              rw (asked, no_refresh, no_frames)
                (kept-Updated c s _ _ (rw (screen-same t, asked, no_refresh) refl))
        ]
      ]
    ]

pub update_app_target_refresh_cycle-Updated :
    (c : Connector) (s : Rates) → Updated c s (update_app_target_refresh_cycle (some c) s)
unfolding update_app_target_refresh_cycle
update_app_target_refresh_cycle-Updated c s =
    let x = update_target-Updated c s in
    elim (Bool-cases (((update_target (some c) s).target_fps == 0) =ᵇ (s.target_fps == 0))) [
      | inl same ↦ rw same x
      | inr changed ↦ rw changed (record {
        same_override = x.same_override;
        same_change = x.same_change;
        same_time = x.same_time;
        same_hz = x.same_hz;
        same_output = x.same_output;
        rate = x.rate;
      })
    ]

-- The rate that is wanted stays, as long as nothing asks for another one.
pub wanted-same :
    (f : Frame) (s s' : Rates)
    → s'.app_refresh_cycle_override ≡ s.app_refresh_cycle_override
    → s'.change_refresh ≡ s.change_refresh
    → wanted f s' ≡ wanted f s
unfolding wanted target_refresh_hz
wanted-same f s s' o r =
    let c = f.connector in
    let x = update_app_target_refresh_cycle-Updated c s in
    let x' = update_app_target_refresh_cycle-Updated c s' in
    let same : (update_app_target_refresh_cycle (some c) s').dynamic_refresh_rate c.screen_type
        ≡ (update_app_target_refresh_cycle (some c) s).dynamic_refresh_rate c.screen_type =
      x'.rate ∙ rw (o, r) (sym x.rate) in
    rw same refl

-- ===== src/Dynamic/Settling.antt =====
-- The display settles at the refresh rate that is wanted (src/steamcompmgr.cpp).
use cloud_desktop.Prelude.{
  ℕ, ◌+◌, ◌<◌, ◌≡◌, refl, sym, ap, subst, ◌∙◌, ◌⊎◌, inl, inr, false, ◌==◌, ltb, if◌then◌else◌, some,
  List, [], ◌∷◌, ◌++◌, Bool-cases, arith, u64, u64_mod,
}
use cloud_desktop.Dynamic.{
  Frame, Rates, current_output_hz, dynamic_refresh_delay, is_empty, refresh_frame,
  set_dynamic_refresh, switch_refresh, target_refresh_hz, update_app_target_refresh_cycle,
}
use cloud_desktop.Dynamic.Wanted.{wanted, wanted-same, update_app_target_refresh_cycle-Updated}

-- The same frame at each of the times.
unfoldable pub run_frames : Frame → List ℕ → Rates → Rates
unfolding refresh_frame
run_frames f [] s = s
run_frames f (now ∷ times) s = run_frames f times (refresh_frame f now s)

-- One frame that wants `hz`: afterwards the output has that rate, or it had another one and it is too
-- early to switch.
record Stepped (now hz : ℕ) (s s' : Rates) : Type 0 where
  same_override : s'.app_refresh_cycle_override ≡ s.app_refresh_cycle_override
  same_change : s'.change_refresh ≡ s.change_refresh
  settled :
      (current_output_hz s' ≡ hz)
      ⊎ ((s'.equality_time ≡ s.equality_time)
          × ((current_output_hz s == hz) ≡ false)
          × (ltb (u64 (s.equality_time + dynamic_refresh_delay)) now ≡ false))

switch_refresh-Stepped :
    (f : Frame) (now mhz : ℕ) (s : Rates)
    → f.mode_set ≡ some mhz
    → 0 < target_refresh_hz f s
    → Stepped now (target_refresh_hz f s) s (switch_refresh f now s)
unfolding switch_refresh current_output_hz set_dynamic_refresh
switch_refresh-Stepped f now mhz s m h =
    let hz = target_refresh_hz f s in
    elim (Bool-cases (current_output_hz s == hz)) [
      | inl same ↦
          rw same
            (record { same_override = refl; same_change = refl; settled = inl (ground arith) })
      | inr other ↦ elim (Bool-cases (ltb (u64 (s.equality_time + dynamic_refresh_delay)) now)) [
        | inl late ↦
            rw (other, late, m)
              (record { same_override = refl; same_change = refl; settled = inl (ground arith) })
        | inr early ↦
            rw (other, early)
              (record {
                same_override = refl;
                same_change = refl;
                settled = inr (refl, other, early);
              })
      ]
    ]

refresh_frame-switch_refresh :
    (f : Frame) (now : ℕ) (s : Rates)
    → is_empty f.connector.valid_dynamic_refresh_rates ≡ false
    → refresh_frame f now s
      ≡ switch_refresh f now (update_app_target_refresh_cycle (some f.connector) s)
unfolding refresh_frame
refresh_frame-switch_refresh f now s e =
    let s₁ = update_app_target_refresh_cycle (some f.connector) s in
    ap (λ b. if b then s₁ else switch_refresh f now s₁) e

refresh_frame-Stepped :
    (f : Frame) (now mhz : ℕ) (s : Rates)
    → is_empty f.connector.valid_dynamic_refresh_rates ≡ false
    → f.mode_set ≡ some mhz
    → 0 < wanted f s
    → Stepped now (wanted f s) s (refresh_frame f now s)
unfolding wanted current_output_hz
refresh_frame-Stepped f now mhz s some_rates m h =
    let c = f.connector in
    let s₁ = update_app_target_refresh_cycle (some c) s in
    let x = update_app_target_refresh_cycle-Updated c s in
    let y = switch_refresh-Stepped f now mhz s₁ m h in
    let same_current : current_output_hz s₁ ≡ current_output_hz s =
      ground (arith, x.same_hz, x.same_output) in
    subst (λ z. Stepped now (wanted f s) s z)
      (sym (refresh_frame-switch_refresh f now s some_rates))
      (record {
        same_override = y.same_override ∙ x.same_override;
        same_change = y.same_change ∙ x.same_change;
        settled = elim y.settled [
          | inl done ↦ inl done
          | inr (t, other, early) ↦ inr (
            t ∙ x.same_time,
            subst (λ n. (n == wanted f s) ≡ false) same_current other,
            subst (λ n. ltb (u64 (n + dynamic_refresh_delay)) now ≡ false) x.same_time early,
          )
        ];
      })

-- Between the frames, either the rate is the wanted one, or no frame has had it.
record Settles (f : Frame) (s s' : Rates) : Type 0 where
  same_override : s'.app_refresh_cycle_override ≡ s.app_refresh_cycle_override
  same_change : s'.change_refresh ≡ s.change_refresh
  settled : (current_output_hz s' ≡ wanted f s) ⊎ (s'.equality_time ≡ s.equality_time)

refresh_frame-Settles :
    (f : Frame) (now mhz : ℕ) (s s' : Rates)
    → is_empty f.connector.valid_dynamic_refresh_rates ≡ false
    → f.mode_set ≡ some mhz
    → 0 < wanted f s
    → Settles f s s'
    → Settles f s (refresh_frame f now s')
refresh_frame-Settles f now mhz s s' some_rates m h x =
    let same : wanted f s' ≡ wanted f s = wanted-same f s s' x.same_override x.same_change in
    let y = refresh_frame-Stepped f now mhz s' some_rates m (omega (arith, same)) in
    record {
      same_override = y.same_override ∙ x.same_override;
      same_change = y.same_change ∙ x.same_change;
      settled = elim y.settled [
        | inl done ↦ inl (done ∙ same)
        | inr (t, other, early) ↦ elim x.settled [
          | inl had ↦ absurd (ground (arith, same))
          | inr waiting ↦ inr (t ∙ waiting)
        ]
      ];
    }

run_frames-Settles :
    (f : Frame) (times : List ℕ) (mhz : ℕ) (s s' : Rates)
    → is_empty f.connector.valid_dynamic_refresh_rates ≡ false
    → f.mode_set ≡ some mhz
    → 0 < wanted f s
    → Settles f s s'
    → Settles f s (run_frames f times s')
unfolding run_frames
run_frames-Settles f [] mhz s s' some_rates m h x = x
run_frames-Settles f (now ∷ times) mhz s s' some_rates m h x =
    run_frames-Settles f times mhz s (refresh_frame f now s') some_rates m h
      (refresh_frame-Settles f now mhz s s' some_rates m h x)

run_frames-append :
    (f : Frame) (times : List ℕ) (now : ℕ) (s : Rates)
    → run_frames f (times ++ now ∷ []) s ≡ refresh_frame f now (run_frames f times s)
unfolding run_frames
run_frames-append f [] now s = refl
run_frames-append f (t ∷ times) now s = run_frames-append f times now (refresh_frame f t s)

-- If frames go on wanting the same rate, which is not 0, and the backend can set it, then the output has
-- it after the first frame that comes more than 600 ms after the display last had the rate that was
-- wanted, however many frames came before; and after each later one. The times are below 2 ^ 64
-- nanoseconds.
pub run_frames-settled :
    (f : Frame) (times : List ℕ) (now mhz : ℕ) (s : Rates)
    → is_empty f.connector.valid_dynamic_refresh_rates ≡ false
    → f.mode_set ≡ some mhz
    → 0 < wanted f s
    → s.equality_time + dynamic_refresh_delay < now
    → now < u64_mod
    → current_output_hz (run_frames f (times ++ now ∷ []) s) ≡ wanted f s
run_frames-settled f times now mhz s some_rates m h late small =
    let x =
      run_frames-Settles f times mhz s s some_rates m h
        (record { same_override = refl; same_change = refl; settled = inr refl }) in
    let s' = run_frames f times s in
    let same : wanted f s' ≡ wanted f s = wanted-same f s s' x.same_override x.same_change in
    let y = refresh_frame-Stepped f now mhz s' some_rates m (omega (arith, same)) in
    ap current_output_hz (run_frames-append f times now s) ∙ elim y.settled [
      | inl done ↦ done ∙ same
      | inr (t, other, early) ↦ elim x.settled [
        | inl had ↦ absurd (ground (arith, same))
        | inr waiting ↦ absurd (ground (arith, waiting))
      ]
    ]

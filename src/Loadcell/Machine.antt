-- ===== src/Loadcell/Machine.antt =====
-- When the cat detection of main/loadcell.c starts a cleaning.
use cat_litter_box.Common.{
  ℕ, ◌+◌, ◌≤◌, ◌≡◌, ◌↔◌, ◌⊎◌, inl, inr, refl, sym, ◌∙◌, Bool, true, false, List, [], ◌∷◌, arith,
}
use cat_litter_box.Loadcell.{
  Floats, CatState, cat_init, cat_idle, cat_occupied, cat_wait_clean, Cat, Sample,
  reset_cat_ring_buffer, store_weight, track_baseline, in_init, in_idle, in_occupied, in_wait_clean,
  detect, note_clean_running, process_cat_detection_fsm, run, boot,
}

module _ (floats : Floats) where
  track_baseline_rest :
      (w : floats.F) (c : Cat floats)
      → ((track_baseline floats w c).cat_state ≡ c.cat_state)
        × ((track_baseline floats w c).exit_timestamp_us ≡ c.exit_timestamp_us)
  unfolding track_baseline store_weight
  track_baseline_rest w c = ground arith

  -- The first lines keep the state, unless a cleaning has just ended, and the recorded time.
  note_lem :
      (b : Bool) (c : Cat floats)
      → let c' = note_clean_running floats b c in
        ((c'.cat_state ≡ c.cat_state) ⊎ ((c'.cat_state ≡ cat_init) × (c'.ring_count ≡ 0)))
        × (c'.exit_timestamp_us ≡ c.exit_timestamp_us)
  unfolding note_clean_running reset_cat_ring_buffer
  note_lem b c = ground arith

  -- One sample does not fill a baseline.
  detect_first :
      (w : floats.F) (now : ℕ) (c : Cat floats)
      → c.cat_state ≡ cat_init
      → c.ring_count ≡ 0
      → (detect floats cat_init w now c).0.cat_state ≡ cat_init
  unfolding detect in_init track_baseline store_weight
  detect_first w now c e z = ground arith

  detect_sends :
      (s : CatState) (w : floats.F) (now : ℕ) (c : Cat floats)
      → c.cat_state ≡ s
      → let (c', sent) = detect floats s w now c in
        (sent ≡ true
          → (s ≡ cat_wait_clean)
            × (c'.cat_state ≡ cat_idle)
            × (c.exit_timestamp_us + 180000000 ≤ now))
        × (s ≡ cat_wait_clean → c'.cat_state ≡ cat_idle → sent ≡ true)
        × ((c'.exit_timestamp_us ≡ c.exit_timestamp_us)
            ⊎ ((s ≡ cat_occupied) × (c'.exit_timestamp_us ≡ now)))
        × (c'.cat_state ≡ cat_wait_clean → (s ≡ cat_wait_clean) ⊎ (c'.exit_timestamp_us ≡ now))
  unfolding detect in_init in_idle in_occupied in_wait_clean reset_cat_ring_buffer
  detect_sends cat_init w now c e = ground (arith, track_baseline_rest w c)
  detect_sends cat_idle w now c e = ground (arith, track_baseline_rest w c)
  detect_sends cat_occupied w now c e = ground arith
  detect_sends cat_wait_clean w now c e = ground (arith, track_baseline_rest w c)

  -- UI_CLEAN_CMD is sent exactly when a call takes the detection from waiting back to idle. That
  -- happens at least 180 s after the recorded time of leaving, with no cleaning running, paused or
  -- being recovered from.
  pub clean_cmd_iff :
      (x : Sample floats) (c : Cat floats)
      → let (c', sent) = process_cat_detection_fsm floats x c in
        ((sent ≡ true) ↔ ((c.cat_state ≡ cat_wait_clean) × (c'.cat_state ≡ cat_idle)))
        × (sent ≡ true
            → (c.exit_timestamp_us + 180000000 ≤ x.now)
              × (x.clean_running ≡ false)
              × (x.clean_pause_flag ≡ false)
              × (x.recovery_requested ≡ false))
  unfolding process_cat_detection_fsm
  clean_cmd_iff x c =
      let c' = note_clean_running floats x.clean_running c in
      ground (
        arith,
        note_lem x.clean_running c,
        detect_sends c'.cat_state x.weight x.now c' refl,
        detect_first x.weight x.now c',
      )

  -- The sample `x` shows a leaving: the cat was on the scale, no cleaning is under way, and the
  -- weight is down to the baseline and the threshold of leaving.
  abbrev pub IsLeaving : Sample floats → Cat floats → Type 0
  IsLeaving x c =
      (c.cat_state ≡ cat_occupied)
      × (x.clean_running ≡ false)
      × (x.clean_pause_flag ≡ false)
      × (x.recovery_requested ≡ false)
      × (floats.le x.weight (floats.add c.baseline_weight floats.exit_threshold_g) ≡ true)

  note_baseline :
      (b : Bool) (c : Cat floats)
      → let c' = note_clean_running floats b c in
        c'.cat_state ≡ cat_occupied
        → (c.cat_state ≡ cat_occupied) × (c'.baseline_weight ≡ c.baseline_weight)
  unfolding note_clean_running reset_cat_ring_buffer
  note_baseline b c = ground arith

  detect_waits :
      (s : CatState) (w : floats.F) (now : ℕ) (c : Cat floats)
      → c.cat_state ≡ s
      → let c' = (detect floats s w now c).0 in
        c'.cat_state ≡ cat_wait_clean
        → ((s ≡ cat_wait_clean) × (c'.exit_timestamp_us ≡ c.exit_timestamp_us))
          ⊎ ((s ≡ cat_occupied)
              × (c'.exit_timestamp_us ≡ now)
              × (floats.le w (floats.add c.baseline_weight floats.exit_threshold_g) ≡ true))
  unfolding detect in_init in_idle in_occupied in_wait_clean reset_cat_ring_buffer
  detect_waits cat_init w now c e = ground (arith, track_baseline_rest w c)
  detect_waits cat_idle w now c e = ground (arith, track_baseline_rest w c)
  detect_waits cat_occupied w now c e = ground arith
  detect_waits cat_wait_clean w now c e = ground (arith, track_baseline_rest w c)

  -- A call that ends waiting has kept the recorded time of leaving, or has recorded a leaving.
  process_waits :
      (x : Sample floats) (c : Cat floats)
      → let c' = (process_cat_detection_fsm floats x c).0 in
        c'.cat_state ≡ cat_wait_clean
        → ((c.cat_state ≡ cat_wait_clean) × (c'.exit_timestamp_us ≡ c.exit_timestamp_us))
          ⊎ ((x.now ≡ c'.exit_timestamp_us) × IsLeaving x c)
  unfolding process_cat_detection_fsm
  process_waits x c h =
      let c' = note_clean_running floats x.clean_running c in
      ground (
        arith,
        note_lem x.clean_running c,
        note_baseline x.clean_running c,
        detect_waits c'.cat_state x.weight x.now c' refl,
      )

  -- One of the samples, taken at `t`, showed a leaving.
  abbrev pub LeftAt : ℕ → List (Sample floats) → Cat floats → Type 0
  LeftAt t [] c = ⊥
  LeftAt t (y ∷ ys) c =
      ((y.now ≡ t) × IsLeaving y c) ⊎ LeftAt t ys (process_cat_detection_fsm floats y c).0

  run_waits :
      (xs : List (Sample floats)) (c : Cat floats)
      → (run floats xs c).cat_state ≡ cat_wait_clean
      → (LeftAt (run floats xs c).exit_timestamp_us xs c)
        ⊎ ((c.cat_state ≡ cat_wait_clean)
            × ((run floats xs c).exit_timestamp_us ≡ c.exit_timestamp_us))
  unfolding run
  run_waits [] c h = inr (h, refl)
  run_waits (x ∷ xs) c h = elim (run_waits xs (process_cat_detection_fsm floats x c).0 h) [
    | inl left ↦ inl (inr left)
    | inr (w, e) ↦ elim (process_waits x c w) [
      | inl (w', e') ↦ inr (w', e ∙ e')
      | inr (t, leaving) ↦ inl (inl (t ∙ sym e, leaving))
    ]
  ]

  -- From `loadcell_init` on, a call sends UI_CLEAN_CMD only if a sample at least 180 s earlier showed
  -- that the cat left: the detection had it on the scale, no cleaning was running, paused or
  -- recovered from, and the weight was at most the baseline and the threshold of leaving.
  pub clean_cmd_after_exit :
      (xs : List (Sample floats)) (x : Sample floats)
      → let c = run floats xs (boot floats) in
        (process_cat_detection_fsm floats x c).1 ≡ true
        → LeftAt c.exit_timestamp_us xs (boot floats) × (c.exit_timestamp_us + 180000000 ≤ x.now)
  unfolding boot
  clean_cmd_after_exit xs x sent =
      let c = run floats xs (boot floats) in
      let facts = clean_cmd_iff x c in
      elim (run_waits xs (boot floats) (facts.0.0 sent).0) [
        | inl left ↦ (left, (facts.1 sent).0)
        | inr (w, e) ↦ cc
      ]

-- ===== src/Loadcell/Ring.antt =====
-- The ring buffer of weights in main/loadcell.c.
use cat_litter_box.Common.{
  ℕ, ◌≤◌, ◌<◌, ◌≡◌, ◌≢◌, refl, Bool, List, [], ◌∷◌, arith, length, length-set, length-replicate,
}
use cat_litter_box.Loadcell.{
  Floats, CatState, cat_init, cat_idle, cat_occupied, cat_wait_clean, Cat, Sample,
  reset_cat_ring_buffer, store_weight, track_baseline, in_init, in_idle, in_occupied, in_wait_clean,
  detect, note_clean_running, process_cat_detection_fsm, run, boot,
}

module _ (floats : Floats) where
  -- No access is out of range and no mean is taken over nothing: once the detection has left its
  -- first state, the buffer holds at least the 30 samples of the first baseline.
  pub record IsValid (c : Cat floats) : Type 0 where
    pub storage : length c.ring_buffer ≡ 200
    pub head_in : c.ring_head < 200
    pub count_in : c.ring_count ≤ 200
    pub filling : c.ring_count < 200 → c.ring_head ≡ c.ring_count
    pub settled : c.cat_state ≢ cat_init → 30 ≤ c.ring_count

  store_weight-IsValid :
      (w : floats.F) (c : Cat floats)
      → IsValid c
      → IsValid (store_weight floats w c)
        × (c.ring_count ≤ (store_weight floats w c).ring_count)
        × (1 ≤ (store_weight floats w c).ring_count)
  unfolding store_weight
  store_weight-IsValid w c v = ground (arith, length-set c.ring_buffer c.ring_head w)

  pub reset-IsValid : (c : Cat floats) → IsValid (reset_cat_ring_buffer floats c)
  unfolding reset_cat_ring_buffer
  reset-IsValid c = ground (arith, length-replicate 200 floats.zero_f)

  detect-IsValid :
      (s : CatState) (w : floats.F) (now : ℕ) (c : Cat floats)
      → c.cat_state ≡ s
      → IsValid c
      → IsValid (detect floats s w now c).0
  unfolding detect in_init in_idle in_occupied in_wait_clean track_baseline
  detect-IsValid cat_init w now c e v = ground (arith, store_weight-IsValid w c v)
  detect-IsValid cat_idle w now c e v = ground (arith, store_weight-IsValid w c v, reset-IsValid c)
  detect-IsValid cat_occupied w now c e v = ground arith
  detect-IsValid cat_wait_clean w now c e v = ground (arith, store_weight-IsValid w c v)

  note-IsValid : (b : Bool) (c : Cat floats) → IsValid c → IsValid (note_clean_running floats b c)
  unfolding note_clean_running
  note-IsValid b c v = ground (arith, reset-IsValid c)

  pub process-IsValid :
      (x : Sample floats) (c : Cat floats)
      → IsValid c
      → IsValid (process_cat_detection_fsm floats x c).0
  unfolding process_cat_detection_fsm
  process-IsValid x c v =
      let c' = note_clean_running floats x.clean_running c in
      let v' = note-IsValid x.clean_running c v in
      ground (arith, v', detect-IsValid c'.cat_state x.weight x.now c' refl v')

  run_keeps-IsValid :
      (xs : List (Sample floats)) (c : Cat floats) → IsValid c → IsValid (run floats xs c)
  unfolding run
  run_keeps-IsValid [] c v = v
  run_keeps-IsValid (x ∷ xs) c v = run_keeps-IsValid xs _ (process-IsValid x c v)

  -- Whatever is weighed and whenever a cleaning runs, from `loadcell_init` on the buffer keeps its 200
  -- places, the head and the count in range, and in every state but the first at least 30 samples.
  pub run-IsValid : (xs : List (Sample floats)) → IsValid (run floats xs (boot floats))
  unfolding boot
  run-IsValid xs = run_keeps-IsValid xs _ (ground (arith, length-replicate 200 floats.zero_f))

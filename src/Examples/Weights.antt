-- ===== src/Examples/Weights.antt =====
-- A cat's visit as main/loadcell.c and main/ui.c weigh it, in whole grams.
use cat_litter_box.Common.{
  ℕ, ◌+◌, ◌-◌, ◌/◌, ◌≤◌, ◌≡◌, ◌↔◌, refl, true, false, leb, ltb, List, [], ◌∷◌, replicate, ◌++◌,
}
use cat_litter_box.Ui.{clean_task}
use cat_litter_box.Loadcell.{
  Floats, cat_wait_clean, cat_idle, Sample, process_cat_detection_fsm, reset_cat_ring_buffer,
  store_weight, track_baseline, in_init, in_idle, in_occupied, in_wait_clean, detect,
  note_clean_running, run, boot,
}
use cat_litter_box.Loadcell.Machine.{LeftAt, clean_cmd_iff, clean_cmd_after_exit}
use cat_litter_box.Loadcell.Ring.{IsValid, run-IsValid}
use cat_litter_box.Ui.Proximity
use cat_litter_box.Ui.Proximity.{
  create_task, Reading, start, settle, in_proxi_idle, in_proxi_use, in_proxi_harden, watch,
  proximity_round, after,
}
use cat_litter_box.Ui.Proximity.Visit.{free, creates-free}

abbrev pub grams : Floats
grams = record {
  F = ℕ;
  D = ℕ;
  zero_f = 0;
  zero_d = 0;
  add = ◌+◌;
  sub = ◌-◌;
  le = leb;
  lt = ltb;
  add_sum = ◌+◌;
  sub_sum = ◌-◌;
  mean = ◌/◌;
  entry_threshold_g = 1000;
  exit_threshold_g = 300;
}

abbrev sample : ℕ → ℕ → Sample grams
sample weight now = record {
  weight = weight;
  clean_running = false;
  clean_pause_flag = false;
  recovery_requested = false;
  now = now;
}

-- 30 samples of the empty box, a cat of 4 kg, and the empty box again.
abbrev visit : List (Sample grams)
visit = replicate 30 (sample 2000 0) ++ sample 6000 1000000 ∷ sample 2000 60000000 ∷ []

abbrev later : Sample grams
later = sample 2000 240000000

visit_cleans : (process_cat_detection_fsm grams later (run grams visit (boot grams))).1 ≡ true
unfolding process_cat_detection_fsm run boot reset_cat_ring_buffer store_weight track_baseline
    in_init in_idle in_occupied in_wait_clean detect note_clean_running
visit_cleans = refl

clean_cmd_after_exit_example :
    let c = run grams visit (boot grams) in
    LeftAt grams c.exit_timestamp_us visit (boot grams)
    × (c.exit_timestamp_us + 180000000 ≤ 240000000)
clean_cmd_after_exit_example = clean_cmd_after_exit grams visit later visit_cleans

clean_cmd_iff_example :
    let (c', sent) = process_cat_detection_fsm grams later (boot grams) in
    ((sent ≡ true) ↔ (((boot grams).cat_state ≡ cat_wait_clean) × (c'.cat_state ≡ cat_idle)))
    × (sent ≡ true
        → ((boot grams).exit_timestamp_us + 180000000 ≤ 240000000)
          × (false ≡ false)
          × (false ≡ false)
          × (false ≡ false))
clean_cmd_iff_example = clean_cmd_iff grams later (boot grams)

run-IsValid_example : IsValid grams (run grams visit (boot grams))
run-IsValid_example = run-IsValid grams visit

abbrev scale : Proximity.Weights
scale = record {
  D = ℕ;
  zero_d = 0;
  is_cat = λ w. ltb 1500 w;
  lt_100 = λ w. ltb w 100;
  is_near = λ a b. ltb (a - b + (b - a)) 3;
}

abbrev reading : ℕ → Reading scale
reading w = record { operating = false; first = w; second = w }

-- Newest first: 22 rounds and 11 without the cat, and 12 with it.
abbrev stay : List (Reading scale)
stay = replicate 32 (reading 0) ++ replicate 12 (reading 4000)

stay_creates :
    (proximity_round scale (reading 0) (after scale stay)).1 ≡ create_task clean_task ∷ []
unfolding proximity_round after start settle in_proxi_idle in_proxi_use in_proxi_harden watch
stay_creates = refl

creates-free_example : 45 ≤ free scale (reading 0 ∷ stay)
creates-free_example = creates-free scale (reading 0) stay stay_creates

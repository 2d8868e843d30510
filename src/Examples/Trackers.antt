-- ===== src/Examples/Trackers.antt =====
-- Trackers near the box, the scale, the settings, and a tracker's motion data.
use cat_litter_box.Common.{
  ℕ, ◌+◌, ◌-◌, ◌*◌, ◌^◌, ◌/◌, ◌%◌, ◌≡◌, ◌≢◌, ◌≤◌, ◌<◌, Bool, true, false, Option, none, some, List,
  [], ◌∷◌, refl, arith, length, replicate, take, drop, if◌then◌else◌,
}
use cat_litter_box.Common.Int.{ℤ, pos, pos_part, ltb_ℤ}
use cat_litter_box.Loadcell.{boot}
use cat_litter_box.Loadcell.Ring.{IsValid, run-IsValid}
use cat_litter_box.Loadcell.Weights.{
  Doubles, Moment, Scale, loadcell_proc, loadcell_cmd, get_main_weight, get_waste_weight,
}
use cat_litter_box.Loadcell.Tare.{
  Input, weighed, command, run_inputs, loadcell_cmd-zero, inputs_keep-IsValid,
}
use cat_litter_box.Tracker.{
  Device, Tracker, boot_tracker, tracker_waterintake_end, Event, heard, captured, drunk, disable,
  end_visit, steps,
}
use cat_litter_box.Tracker.Registry.{IsRegistry, steps-IsRegistry}
use cat_litter_box.Tracker.Water.{visits, booked, tracker_waterintake_end-booked}
use cat_litter_box.Tracker.Unknown.{AllUnused, total_drunk, steps-unknown}
use cat_litter_box.Settings.{
  Key, app_key_configuration, app_key_wifi_config, app_key_ble_config, Nvs, Settings,
  default_app_config, flash_round, restart,
}
use cat_litter_box.Settings.Saved.{IsReliable, reset-reported}
use cat_litter_box.Console.Boot.{reason_ota, code, check_boot_mode, system_reset}
use cat_litter_box.Ble.{Motion, motion_start_response, receive_all}
use cat_litter_box.Ble.Acknowledge.{acks, packets, start-acks}
use cat_litter_box.Examples.Weights.{grams}

-- Two trackers, a drink with no time measured.
abbrev evening : List Event
evening = heard true (b'a' ∷ []) ∷ captured 1800 ∷ heard true (b'b' ∷ []) ∷ drunk 40 ∷ []

steps-IsRegistry_example : IsRegistry (steps evening boot_tracker)
steps-IsRegistry_example = steps-IsRegistry evening (omega arith, (omega arith, tt))

steps-unknown_example :
    let t = steps evening boot_tracker in
    AllUnused t.devices × (t.unknown_water ≡ total_drunk evening % 2 ^ 32)
steps-unknown_example = steps-unknown evening

abbrev near : ℕ → Option Device
near ms = some (record {
  device_id = b'a' ∷ [];
  total_device_time = 0;
  device_time = ms;
  disable_time = 0;
  diff_time = 0;
  enable = true;
  water_intake = 7;
})

-- Three trackers that were near for 100, 100 and 200 ms.
abbrev drinkers : Tracker
drinkers = record boot_tracker { devices = near 100 ∷ near 100 ∷ near 200 ∷ [] }

drinkers_times : visits drinkers < 2 ^ 32
unfolding end_visit disable
drinkers_times = omega arith

tracker_waterintake_end-booked_example :
    let t' = tracker_waterintake_end 10 drinkers in
    (booked t' ≤ booked drinkers + 10)
    × (booked drinkers + 10 ≤ booked t' + length drinkers.devices)
tracker_waterintake_end-booked_example =
    tracker_waterintake_end-booked 10 drinkers drinkers_times (omega arith)

-- Whole numbers for the `double`s, with every factor 1.
abbrev whole : Doubles grams
whole = record {
  of_int = pos_part;
  to_int = pos;
  to_float = λ d. d;
  add_d = ◌+◌;
  sub_d = ◌-◌;
  mul_d = ◌*◌;
  lt_d = λ a b. ltb_ℤ (pos a) (pos (b + 1));
  weight_gain_v2 = 1;
  weight_gain_v3 = 1;
  weight_gain_v4 = 1;
  weight_gain_v5 = 1;
  scale_main = 1;
  scale_waste = 1;
  deadband_grams = 30;
  minus_deadband_grams = 0;
}

abbrev new_scale : Scale grams whole
new_scale = record {
  current_main_sum = pos 0;
  current_waste_sum = pos 0;
  base_main_sum = pos 0;
  base_waste_sum = pos 0;
  final_main_weight = 0;
  final_waste_weight = 0;
  cat = boot grams;
  saved = [];
}

abbrev idle : ℕ → Moment
idle now = record {
  clean_running = false;
  clean_pause_flag = false;
  recovery_requested = false;
  now = now;
}

abbrev raw : List ℤ
raw = pos 900 ∷ pos 800 ∷ replicate 6 (pos 400000)

loadcell_cmd-zero_example :
    let s1 = (loadcell_proc grams whole false (idle 0) raw new_scale).0 in
    let s2 = loadcell_cmd grams whole true 1 s1 in
    let s3 = (loadcell_proc grams whole true (idle 5) raw s2).0 in
    (get_main_weight grams whole true s3 ≡ 0) × (get_waste_weight grams whole true s3 ≡ 0)
loadcell_cmd-zero_example =
    loadcell_cmd-zero grams whole 1 raw false (idle 0) (idle 5) new_scale (omega arith)
      (record { above = refl; below = refl }) (record { above = refl; below = refl })

abbrev inputs : List (Input grams whole)
inputs = weighed true (idle 0) raw ∷ command true 2 ∷ weighed true (idle 5) raw ∷ []

tare_keeps_buffer : IsValid grams (run_inputs grams whole inputs new_scale).cat
unfolding boot cat_litter_box.Loadcell.run
tare_keeps_buffer = inputs_keep-IsValid grams whole inputs new_scale (run-IsValid grams [])

-- A flash that is a function of the key.
abbrev eq_key : Key → Key → Bool
eq_key app_key_configuration app_key_configuration = true
eq_key app_key_wifi_config app_key_wifi_config = true
eq_key app_key_ble_config app_key_ble_config = true
eq_key _ _ = false

eq_key_refl : (key : Key) → eq_key key key ≡ true
eq_key_refl key = ground arith

eq_key_ne : (key key' : Key) → key ≢ key' → eq_key key' key ≡ false
eq_key_ne key key' n = ground arith

abbrev memory : Nvs
memory = record {
  F = Key → Option (List ℕ);
  get_blob = λ key f. f key;
  set_blob = λ key blob f key'. if eq_key key key' then some blob else f key';
}

memory-IsReliable : IsReliable memory
memory-IsReliable = record {
  get-set = λ key blob f. rw (eq_key_refl key) refl;
  get-set_ne = λ key key' blob f n. rw (eq_key_ne key key' n) refl;
}

abbrev configured : Settings memory
configured = record {
  app_config = default_app_config;
  wifi_config = [];
  ble_config = [];
  app_save_flag = false;
  wifi_save_flag = true;
  ble_save_flag = false;
  flash = λ key. none;
}

reset-reported_example :
    let boot = λ (f : memory.F). check_boot_mode memory 0 (restart memory [] [] f) in
    let first = boot (flash_round memory (system_reset memory reason_ota configured)).flash in
    let second = boot (flash_round memory first.0).flash in
    (first.1 ≡ 2 ^ code reason_ota) × (second.1 ≡ 1)
reset-reported_example = reset-reported memory memory-IsReliable reason_ota configured [] [] refl

abbrev silent : Motion
silent = record { total_count = 0; input_count = 0; timer_active = false }

start-acks_example :
    acks (receive_all (motion_start_response 18 ∷ packets (1 ∷ 2 ∷ [])) silent).0
    ≡ take 1 (drop (18 / 9) (1 ∷ 2 ∷ []))
start-acks_example = start-acks 18 (1 ∷ 2 ∷ []) silent (omega arith) (omega arith) (omega arith)

-- ===== src/Examples/Distances.antt =====
-- Samples of the TOF sensor of main/sensor.c.
use mathlib.Core.List.{Memᴰ}
use cat_litter_box.Common.{◌<◌, ◌≡◌, ◌⊎◌, refl, true, List, [], ◌∷◌, arith}
use cat_litter_box.Common.Int.{ℤ, pos, minus_one}
use cat_litter_box.Sensor.{
  Sensor, approach, is_valid_tof, set_tof_sensor_enable, push_tof, get_tof_distance, boot,
}
use cat_litter_box.Sensor.Approach.{samples, samples-approach}
use cat_litter_box.Sensor.Distance.{IsLeast, NoneValid, get_tof_distance-IsLeast}

abbrev watching : Sensor
watching = set_tof_sensor_enable true boot

watching_enabled : (watching.sensor_enable_f ≡ true) × (watching.tof_enable_f ≡ true)
unfolding set_tof_sensor_enable boot
watching_enabled = (refl, refl)

abbrev far : List ℤ
far = minus_one ∷ pos 2500 ∷ []

samples-approach_example : (samples (pos 300 ∷ far) watching).current_state ≡ approach
samples-approach_example =
    samples-approach (pos 300) far watching watching_enabled.0 watching_enabled.1 refl
      (refl, (refl, tt))

abbrev seen : Sensor
seen = push_tof (pos 420) (push_tof (pos 700) boot)

seen_count : 0 < seen.tof_ring_count
unfolding push_tof boot
seen_count = omega arith

get_tof_distance-IsLeast_example :
    let d = get_tof_distance seen in
    ((is_valid_tof d ≡ true) × Memᴰ d seen.tof_ring_buf × IsLeast d seen.tof_ring_buf)
    ⊎ ((d ≡ minus_one) × NoneValid seen.tof_ring_buf)
get_tof_distance-IsLeast_example = get_tof_distance-IsLeast seen seen_count

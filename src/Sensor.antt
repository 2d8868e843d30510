-- ===== src/Sensor.antt =====
-- main/sensor.c: the static variables of the file and the functions on them, less the line parser
--. FEATURE_TOF is defined (main/main.h). Log output is left out.
-- `set_pt_status` stores the value whether or not it obtains the mutex, so the mutex is left out.

pub mod Approach
pub mod Distance
pub mod Parser
pub mod Serial
pub mod Split
pub mod Chunks
use cat_litter_box.Common.{
  ℕ, ◌+◌, ◌%◌, Bool, true, false, not, ◌&&◌, List, [], ◌∷◌, ltb, ◌==◌, if◌then◌else◌, replicate,
  set, bit_and,
}
use cat_litter_box.Common.Int.{ℤ, pos, minus_one, ltb_ℤ, leb_ℤ, eq_ℤ}

-- The PT_BIT_ masks of main/sensor.h.
abbrev pub pt_bit_scp_spin_st : ℕ
pt_bit_scp_spin_st = 0x0001

abbrev pub pt_bit_scp_out : ℕ
pt_bit_scp_out = 0x0002

abbrev pub pt_bit_waste_close : ℕ
pt_bit_waste_close = 0x0004

abbrev pub pt_bit_mcover_open : ℕ
pt_bit_mcover_open = 0x0008

abbrev pub pt_bit_scp_spin_ed : ℕ
pt_bit_scp_spin_ed = 0x0010

abbrev pub pt_bit_scp_in : ℕ
pt_bit_scp_in = 0x0020

abbrev pub pt_bit_waste_open : ℕ
pt_bit_waste_open = 0x0040

abbrev pub pt_bit_reed_sw : ℕ
pt_bit_reed_sw = 0x0080

abbrev pub pt_bit_mcover_close : ℕ
pt_bit_mcover_close = 0x0100

-- `(status & mask) != 0`
abbrev pub has_bit : ℕ → ℕ → Bool
has_bit status mask = not (bit_and status mask == 0)

pub data ApproachState : Type 0 where
  no_approach approach : ApproachState

pub record Sensor : Type 0 where
  pub tof_ring_buf : List ℤ
  pub tof_ring_idx : ℕ
  pub tof_ring_count : ℕ
  pub current_state : ApproachState
  pub prev_state : ApproachState
  pub chatter_counter_ms : ℕ
  pub tof_enable_f : Bool
  pub last_tof_value : ℤ
  pub sensor_enable_f : Bool
  pub pt_value : ℕ
  pub prev_pt_value : ℤ

abbrev pub tof_ring_buf_size : ℕ
tof_ring_buf_size = 10

abbrev pub tof_debounce_time : ℕ
tof_debounce_time = 30

-- the initial values
unfoldable pub boot : Sensor
boot = record {
  tof_ring_buf = replicate tof_ring_buf_size minus_one;
  tof_ring_idx = 0;
  tof_ring_count = 0;
  current_state = no_approach;
  prev_state = no_approach;
  chatter_counter_ms = 0;
  tof_enable_f = false;
  last_tof_value = minus_one;
  sensor_enable_f = true;
  pt_value = 0;
  prev_pt_value = minus_one;
}

unfoldable pub set_pt_status : ℕ → Sensor → Sensor
set_pt_status value s = record s { pt_value = value }

abbrev pub get_pt_status : Sensor → ℕ
get_pt_status s = s.pt_value

unfoldable pub set_sensor_enable : Bool → Sensor → Sensor
set_sensor_enable enable s = record s { sensor_enable_f = enable }

-- Enabling forgets the approach state, disabling keeps it.
unfoldable pub set_tof_sensor_enable : Bool → Sensor → Sensor
set_tof_sensor_enable true s = record s {
  tof_enable_f = true;
  current_state = no_approach;
  prev_state = no_approach;
  chatter_counter_ms = 0;
}
set_tof_sensor_enable false s = record s { tof_enable_f = false }

unfoldable pub reset_tof_ring_buffer : Sensor → Sensor
reset_tof_ring_buffer s = record s {
  tof_ring_buf = replicate tof_ring_buf_size minus_one;
  tof_ring_idx = 0;
  tof_ring_count = 0;
  last_tof_value = minus_one;
}

abbrev pub get_tof_ring_count : Sensor → ℕ
get_tof_ring_count s = s.tof_ring_count

-- `v >= 0 && v <= 2000`
abbrev pub is_valid_tof : ℤ → Bool
is_valid_tof v = leb_ℤ (pos 0) v && leb_ℤ v (pos 2000)

-- the loop of `get_tof_distance`
unfoldable pub min_valid : ℤ → List ℤ → ℤ
min_valid min_val [] = min_val
min_valid min_val (v ∷ vs) = min_valid (if is_valid_tof v && ltb_ℤ v min_val then v else min_val) vs

unfoldable pub get_tof_distance : Sensor → ℤ
unfolding min_valid
get_tof_distance s =
    let min_val =
      (if ltb 0 s.tof_ring_count then min_valid (pos 9999) s.tof_ring_buf else pos 9999) in
    if ltb 0 s.tof_ring_count && not (eq_ℤ min_val (pos 9999)) then min_val else minus_one

-- The part of `tof_proc` that stores the sample.
unfoldable pub push_tof : ℤ → Sensor → Sensor
push_tof v s = record s {
  last_tof_value = v;
  tof_ring_buf = set s.tof_ring_buf s.tof_ring_idx v;
  tof_ring_idx = (s.tof_ring_idx + 1) % tof_ring_buf_size;
  tof_ring_count =
      (if ltb s.tof_ring_count tof_ring_buf_size then s.tof_ring_count + 1 else s.tof_ring_count);
}

abbrev is_approach : ApproachState → Bool
is_approach approach = true
is_approach no_approach = false

-- The part of `tof_proc` that debounces the approach state.
unfoldable pub track_approach : Bool → Sensor → Sensor
track_approach true s = record s {
  current_state = approach;
  chatter_counter_ms = 0;
  prev_state = approach;
}
track_approach false s =
    if is_approach s.current_state
    then if ltb (s.chatter_counter_ms + 1) tof_debounce_time
      then record s { chatter_counter_ms = s.chatter_counter_ms + 1 }
      else record s {
        current_state = no_approach;
        prev_state = no_approach;
        chatter_counter_ms = 0;
      }
    else s

-- 8191 is the sensor's code for nothing in range.
abbrev pub clamp_tof : ℤ → ℤ
clamp_tof v = if eq_ℤ v (pos 8191) then pos 2000 else v

-- `tof_proc` with its result: 0, -1 (sensor disabled) or -2 (TOF disabled).
unfoldable pub tof_proc : ℤ → Sensor → ℤ × Sensor
unfolding push_tof track_approach
tof_proc tof_value s =
    if not s.sensor_enable_f
    then (minus_one, s)
    else let s' = push_tof (clamp_tof tof_value) s in
      if not s'.tof_enable_f
      then (ℤ.negsuc 1, s')
      else (pos 0, track_approach (is_valid_tof (clamp_tof tof_value)) s')

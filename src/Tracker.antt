-- ===== src/Tracker.antt =====
-- main/ble/ble_tracker_id.c: which cat's tracker is near, and how the water drunk is shared out
-- A pointer of `Tracker_Device` is an `Option`. Whether `malloc` succeeds is an argument. Printed
-- text is left out. A `uint32_t` wraps by `% 2 ^ 32`; a product is taken in `uint64_t`.
pub mod Identifiers
pub mod Registry
pub mod Water
pub mod Unknown
use cat_litter_box.Common.{
  ℕ, zero, suc, ◌+◌, ◌-◌, ◌*◌, ◌/◌, ◌%◌, ◌^◌, Bool, true, false, not, ◌&&◌, Option, none, some,
  List, [], ◌∷◌, map, replicate, take, set, ltb, leb, ◌==◌, if◌then◌else◌,
}
use cat_litter_box.Common.Int.{ℤ, pos, negsuc, ◌-ℤ◌, leb_ℤ}
use cat_litter_box.Common.Strings.{eq_bytes}

abbrev pub tracker_device_max : ℕ
tracker_device_max = 20

-- `Tracker_Device_t`
pub record Device : Type 0 where
  pub device_id : List ℕ
  pub total_device_time : ℕ
  pub device_time : ℕ
  pub disable_time : ℕ
  pub diff_time : ℕ
  pub enable : Bool
  pub water_intake : ℕ

-- `Tracker_Device`, the `Water_intake` of `Tracker_UNKNOWN`, and the motion timer.
pub record Tracker : Type 0 where
  pub devices : List (Option Device)
  pub unknown_water : ℕ
  pub motion_send_enable : Bool
  pub motion_send_tick : ℤ

abbrev pub boot_tracker : Tracker
boot_tracker = record {
  devices = replicate tracker_device_max none;
  unknown_water = 0;
  motion_send_enable = false;
  motion_send_tick = pos 50;
}

-- `Tracker_Device_disable`, for a slot that is taken
unfoldable pub disable : Device → Device
disable d = record d {
  total_device_time = (d.total_device_time + d.device_time) % 2 ^ 32;
  diff_time = d.device_time;
  enable = false;
  device_time = 0;
}

unfoldable pub end_visit : Option Device → Option Device
unfolding disable
end_visit none = none
end_visit (some d) = some (if d.enable then disable d else d)

-- `total_time_sum`
unfoldable pub time_sum : ℕ → List (Option Device) → ℕ
time_sum acc [] = acc
time_sum acc (none ∷ ds) = time_sum acc ds
time_sum acc (some d ∷ ds) = time_sum ((acc + d.diff_time) % 2 ^ 32) ds

-- `allocated_water`
abbrev pub allocated : ℕ → ℕ → Device → ℕ
allocated weight total d = (d.diff_time * weight % 2 ^ 64) / total % 2 ^ 32

unfoldable pub allocate : ℕ → ℕ → Option Device → Option Device
allocate weight total none = none
allocate weight total (some d) =
    if ltb 0 d.diff_time
    then some (record d {
      water_intake = (d.water_intake + allocated weight total d) % 2 ^ 32;
      diff_time = 0;
    })
    else some d

unfoldable pub tracker_waterintake_end : ℕ → Tracker → Tracker
unfolding end_visit time_sum allocate
tracker_waterintake_end weight t =
    let ended = map end_visit t.devices in
    let total = time_sum 0 ended in
    if total == 0
    then record t { devices = ended; unknown_water = (t.unknown_water + weight) % 2 ^ 32 }
    else record t { devices = map (allocate weight total) ended }

-- What the loop of `Tracker_In_ID` finds.
pub data Slot : Type 0 where
  known free : ℕ → Slot
  full : Slot

unfoldable pub find_slot : List ℕ → List (Option Device) → ℕ → Option ℕ → Slot
find_slot id [] i none = full
find_slot id [] i (some target_index) = free target_index
find_slot id (none ∷ ds) i none = find_slot id ds (suc i) (some i)
find_slot id (none ∷ ds) i (some target_index) = find_slot id ds (suc i) (some target_index)
find_slot id (some d ∷ ds) i target =
    let rest = find_slot id ds (suc i) target in if eq_bytes d.device_id id then known i else rest

-- A device that has been heard again.
unfoldable pub refresh : Option Device → Option Device
refresh none = none
refresh (some d) = some (record d { enable = true; disable_time = 0 })

unfoldable pub update :
    ℕ → (Option Device → Option Device) → List (Option Device) → List (Option Device)
update i f [] = []
update zero f (d ∷ ds) = f d ∷ ds
update (suc i) f (d ∷ ds) = d ∷ update i f ds

-- `strncpy` into 31 of the 32 bytes
abbrev pub new_device : List ℕ → Device
new_device id = record {
  device_id = take 31 id;
  total_device_time = 0;
  device_time = 0;
  disable_time = 0;
  diff_time = 0;
  enable = true;
  water_intake = 0;
}

unfoldable pub tracker_in_id : Bool → List ℕ → Tracker → Tracker
unfolding find_slot update refresh
tracker_in_id allocates id t = elim (find_slot id t.devices 0 none) [
  | known i ↦ record t { devices = update i refresh t.devices }
  | full ↦ t
  | free i ↦ if allocates then record t { devices = set t.devices i (some (new_device id)) } else t
]

-- The loop of `vTrackerCaptureTask` on a slot. The call of `Tracker_device_time_add` is compiled
-- out (`#if 0`).
unfoldable pub capture_device : Option Device → Option Device
unfolding disable
capture_device none = none
capture_device (some d) =
    let d' = record d { disable_time = (d.disable_time + 100) % 2 ^ 32 } in
    some (if d.enable then (if leb 5000 d'.disable_time then disable d' else d') else d)

-- An `uint32_t` stored in an `int`.
abbrev pub as_int : ℕ → ℤ
as_int n = if ltb n (2 ^ 31) then pos n else negsuc (2 ^ 32 - 1 - n)

-- The second result is that MOTION_START_REQUEST is sent.
unfoldable pub motion_tick : ℕ → Tracker → Tracker × Bool
motion_tick motion_data_time t =
    let tick = t.motion_send_tick -ℤ pos 1 in
    if not t.motion_send_enable
    then (t, false)
    else if leb_ℤ tick (pos 0)
    then (record t { motion_send_tick = as_int (motion_data_time * 10 % 2 ^ 32) }, true)
    else (record t { motion_send_tick = tick }, false)

-- A round of `vTrackerCaptureTask`, every 100 ms.
unfoldable pub capture_round : ℕ → Tracker → Tracker × Bool
unfolding motion_tick capture_device
capture_round motion_data_time t =
    let (t', sent) = motion_tick motion_data_time t in
    (record t' { devices = map capture_device t'.devices }, sent)

-- `MotionSetTimer`
unfoldable pub motion_set_timer : Bool → Tracker → Tracker
motion_set_timer status t = record t {
  motion_send_enable = status;
  motion_send_tick = (if status then pos 50 else t.motion_send_tick);
}

-- `GetTracker_Id_active`
unfoldable pub get_tracker_id_active : List (Option Device) → Bool
get_tracker_id_active [] = false
get_tracker_id_active (none ∷ ds) = get_tracker_id_active ds
get_tracker_id_active (some d ∷ ds) =
    let rest = get_tracker_id_active ds in if d.enable then true else rest

-- What reaches the file: a tracker is heard, the capture task's round, the end of a drink, the
-- phone's connection.
pub data Event : Type 0 where
  heard : (allocates : Bool) (id : List ℕ) → Event
  captured : (motion_data_time : ℕ) → Event
  drunk : (weight : ℕ) → Event
  connected : Bool → Event

unfoldable pub step : Event → Tracker → Tracker
unfolding tracker_in_id capture_round tracker_waterintake_end motion_set_timer
step (heard allocates id) t = tracker_in_id allocates id t
step (captured motion_data_time) t = (capture_round motion_data_time t).0
step (drunk weight) t = tracker_waterintake_end weight t
step (connected status) t = motion_set_timer status t

unfoldable pub steps : List Event → Tracker → Tracker
steps [] t = t
steps (e ∷ es) t = steps es (step e t)

-- ===== src/Ble.antt =====
-- main/ble/ble_parse.c: the packets with a tracker's motion data
-- The packets of nine points each are passed on; their points are left out, and so are the printed
-- text and `HEALTH_DATA_RESPONSE`, which is printed only.
pub mod Acknowledge
pub mod Transmit
pub mod Crypto
pub mod Phone
pub mod AppCommand
use cat_litter_box.Common.{
  ℕ, ◌+◌, ◌-◌, ◌%◌, ◌^◌, Bool, true, false, List, [], ◌∷◌, ◌++◌, ◌==◌, if◌then◌else◌,
}

pub record Motion : Type 0 where
  pub total_count : ℕ
  pub input_count : ℕ
  -- whether `Motion_Timeout_timer` is running, for 5 s
  pub timer_active : Bool

-- The packets of `BLE_Receive_data`, and the timer's callback.
pub data Packet : Type 0 where
  motion_start_response : (total_points : ℕ) → Packet
  motion_data : (seq : ℕ) → Packet
  motion_timeout : Packet

pub data Sent : Type 0 where
  motion_data_ack : (seq : ℕ) → Sent
  motion_start_request : Sent
  tracker_message_activity : (seq : ℕ) → Sent

abbrev pub motion_timer_set : Bool → Motion → Motion
motion_timer_set state m = record m { timer_active = state }

-- `total_points` is a `uint16_t`: the sum does not wrap.
unfoldable pub ble_receive_data : Packet → Motion → List Sent × Motion
ble_receive_data (motion_start_response total_points) m = if total_points == 0 then ([], m) else (
  [],
  motion_timer_set true
      (record m { total_count = total_points + (9 - total_points % 9); input_count = 0 }),
)
ble_receive_data (motion_data seq) m =
    let m' = record m { input_count = (m.input_count + 9) % 2 ^ 32 } in
    if m'.input_count == m'.total_count
    then (tracker_message_activity seq ∷ motion_data_ack seq ∷ [], m')
    else (tracker_message_activity seq ∷ [], motion_timer_set true m')
ble_receive_data motion_timeout m = (motion_start_request ∷ [], motion_timer_set false m)

unfoldable pub receive_all : List Packet → Motion → List Sent × Motion
receive_all [] m = ([], m)
receive_all (p ∷ ps) m =
    let (sent, m') = ble_receive_data p m in
    let (rest, m'') = receive_all ps m' in (sent ++ rest, m'')

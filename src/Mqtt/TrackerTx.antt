-- ===== src/Mqtt/TrackerTx.antt =====
-- main/mqtt/tx_mqtt.c: the messages on behalf of a tracker, read from its packets
-- A packet is the bytes of `Motion_Packet_t` (main/ble/ble_parse.h), which is packed: its union
-- starts at byte 1, and a `uint16_t` has its low byte first. `%d` and `%02X` are parameters.
use Prim.Native.String.{String, ◌++◌}
use cat_litter_box.Common.{
  ℕ, zero, suc, ◌+◌, ◌*◌, ◌/◌, ◌%◌, Bool, Option, none, some, List, [], ◌∷◌, get_or, ltb, leb, ◌==◌,
  if◌then◌else◌,
}
use cat_litter_box.Common.Int.{ℤ, pos, sub_ℕ}
use cat_litter_box.Mqtt.Json.{
  Number, int, Json, str, num, arr, obj, Fields, end, field, add_item, ◌>>=◌,
}
use cat_litter_box.Mqtt.Tx.{
  MessageCmd, registration, boot, access, usage, clean_result, diagnostics, health, aws_jobs_get,
  tracker_activity, tracker_diagnostics, tracker_health, System, test_uuid, number, get_header,
}

abbrev pub MotionPacket : Type 0
MotionPacket = List ℕ

abbrev byte : MotionPacket → ℕ → ℕ
byte p i = get_or p i 0

abbrev pub word : MotionPacket → ℕ → ℕ
word p i = byte p i + 256 * byte p (i + 1)

abbrev pub event_code : MotionPacket → ℕ
event_code p = byte p 0

abbrev pub start_response_code : ℕ
start_response_code = 16

-- `motion_req`
abbrev pub interval : MotionPacket → ℕ
interval p = byte p 1

abbrev pub total_points : MotionPacket → ℕ
total_points p = word p 2

-- `motion_data`
abbrev seq : MotionPacket → ℕ
seq p = byte p 1

abbrev pub point : MotionPacket → ℕ → ℕ
point p i = word p (2 + 2 * i)

-- `health_data_res`
abbrev uptime_sec : MotionPacket → ℕ
uptime_sec p = word p 1 + 65536 * word p 3

abbrev bat_level : MotionPacket → ℕ
bat_level p = byte p 5

-- an `int8_t`
abbrev target_rssi : MotionPacket → ℤ
target_rssi p = if leb 128 (byte p 10) then sub_ℕ (byte p 10) 256 else pos (byte p 10)

abbrev fault_byte : MotionPacket → ℕ
fault_byte p = byte p 11

abbrev imu_err : MotionPacket → Bool
imu_err p = fault_byte p / 4 % 2 == 1

abbrev ble_err : MotionPacket → Bool
ble_err p = fault_byte p / 8 % 2 == 1

abbrev storage_err : MotionPacket → Bool
storage_err p = fault_byte p / 16 % 2 == 1

-- The fields of the numbers `i` to `i + n - 1`.
abbrev pub points_from : MotionPacket → ℕ → ℕ → List ℕ
points_from p i zero = []
points_from p i (suc n) = point p i ∷ points_from p (suc i) n

-- `motion_res` and `health_res`
pub record TrackerState : Type 0 where
  pub motion_res : MotionPacket
  pub health_res : MotionPacket

pub record TrackerPacket : Type 0 where
  pub cmd : MessageCmd
  pub mac : List ℕ
  pub packet : MotionPacket

abbrev pub keep_health : TrackerPacket → MessageCmd → TrackerState → TrackerState
keep_health t tracker_health s = record s { health_res = t.packet }
keep_health t _ s = s

module _ (decimal hex : ℕ → String) where
  abbrev version : MotionPacket → String
  version p = "v" ++ decimal (byte p 7) ++ "." ++ decimal (byte p 8) ++ "." ++ decimal (byte p 9)

  -- `%02X` six times
  abbrev pub mac_text : List ℕ → String
  mac_text mac =
      hex (get_or mac 0 0)
      ++ hex (get_or mac 1 0)
      ++ hex (get_or mac 2 0)
      ++ hex (get_or mac 3 0)
      ++ hex (get_or mac 4 0)
      ++ hex (get_or mac 5 0)

  -- TRACKER_RX_TOPIC_...
  unfoldable pub tracker_topic : List ℕ → MessageCmd → Option String
  tracker_topic mac tracker_activity =
      some ("things/tracker/TRACKER_" ++ mac_text mac ++ "/activity")
  tracker_topic mac tracker_health = some ("things/tracker/TRACKER_" ++ mac_text mac ++ "/health")
  tracker_topic mac registration = none
  tracker_topic mac boot = none
  tracker_topic mac access = none
  tracker_topic mac usage = none
  tracker_topic mac clean_result = none
  tracker_topic mac diagnostics = none
  tracker_topic mac health = none
  tracker_topic mac aws_jobs_get = none
  tracker_topic mac tracker_diagnostics = none

  module _ {F : Type 0} where
    abbrev fault_text : Bool → Json F
    fault_text b = str (if b then "fault" else "ok")

    abbrev numbers : List ℕ → List (Number F)
    numbers [] = []
    numbers (n ∷ ns) = int (pos n) ∷ numbers ns

    unfoldable pub create_t100_subsystems : MotionPacket → Fields F
    create_t100_subsystems p = field "power" (fault_text (ltb 1 (fault_byte p % 4))) (
        field "imu" (fault_text (imu_err p))
          (field "ble" (fault_text (ble_err p)) (field "storage" (fault_text (storage_err p)) end)))

    abbrev alert : String → String → Fields F → Fields F
    alert fault_code subsystem rest =
        field "alert_level" (str "normal")
          (field "fault_code" (str fault_code) (field "affected_subsystem" (str subsystem) rest))

    -- `Get_cJSON_Data_for_Tracker`
    unfoldable pub get_tracker_data : TrackerState → TrackerPacket → MessageCmd → Option (Fields F)
    get_tracker_data s t tracker_activity =
        let total = total_points s.motion_res in
        some (
          field "tracker_id" (str ("TRACKER_" ++ mac_text t.mac)) (
            field "activity_id" (str test_uuid) (
              field "seq_num" (number (seq t.packet)) (
                field "interval_min" (number (interval s.motion_res)) (
                  field "total_points" (number total) (
                    field "points"
                      (arr (numbers (points_from t.packet 0 (if ltb total 9 then total else 9))))
                      (field "battery_pct" (number (bat_level s.health_res)) end)))))))
    get_tracker_data s t tracker_diagnostics =
        let p = t.packet in
        let context =
          field "context" (obj (field "raw_fault_byte" (number (fault_byte p)) end)) end in
        some (
          field "seq_num" (number 1) (
            field "uptime_sec" (number (uptime_sec p)) (
              field "reset_reason" (number (fault_byte p / 32 % 4)) (
                field "rssi_dbm" (num (int (target_rssi p))) (
                  field "subsystems" (obj (create_t100_subsystems p)) (
                    field "mode" (str "operational") (
                      if imu_err p
                      then alert "IMU_ERR" "imu" context
                      else if ble_err p
                      then alert "BLE_ERR" "ble" context
                      else alert "NONE" "none" context)))))))
    get_tracker_data s t tracker_health =
        let p = t.packet in
        some (
          field "seq_num" (number 2) (
            field "uptime_sec" (number (uptime_sec p)) (
              field "reset_reason" (number (fault_byte p / 32 % 4)) (
                field "rssi_dbm" (num (int (target_rssi p))) (
                  field "subsystems" (obj (create_t100_subsystems p)) (
                    field "battery_pct" (number (bat_level p)) (
                      field "fw_version" (str (version p))
                        (field "gateway_rssi_dbm" (num (int (target_rssi p))) end))))))))
    get_tracker_data s t registration = none
    get_tracker_data s t boot = none
    get_tracker_data s t access = none
    get_tracker_data s t usage = none
    get_tracker_data s t clean_result = none
    get_tracker_data s t diagnostics = none
    get_tracker_data s t health = none
    get_tracker_data s t aws_jobs_get = none

    unfoldable pub tracker_message :
        System → TrackerState → TrackerPacket → Option (String × Fields F)
    tracker_message sys s t = do
      root ← get_header sys (version s.health_res) t.cmd
      values ← get_tracker_data s t t.cmd
      topic ← tracker_topic t.mac t.cmd
      some (topic, add_item root "data" (obj values))

    -- `Send_cJSON_Messege_for_tracker`: what is published, and the packets that are kept.
    unfoldable pub send_tracker_message :
        System → TrackerPacket → TrackerState → Option (String × Fields F) × TrackerState
    send_tracker_message sys t s =
        let s' = keep_health t t.cmd s in
        if event_code t.packet == start_response_code
        then (none, record s' { motion_res = t.packet })
        else (tracker_message sys s' t, s')

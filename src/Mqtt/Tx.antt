-- ===== src/Mqtt/Tx.antt =====
-- main/mqtt/tx_mqtt.c: the messages about the box itself
-- The clock, the cause of the last reset, the free memory and the text of the MAC are read from the
-- system: they are arguments. Log output is left out.
use Prim.Native.String.{String, ◌++◌}
use cat_litter_box.Common.{ℕ, Bool, true, false, Option, none, some, ◌/◌, if◌then◌else◌}
use cat_litter_box.Common.Int.{pos, negsuc}
use cat_litter_box.Mqtt.Json.{int, float, Json, str, num, obj, Fields, end, field, add_item, ◌>>=◌}

-- `messege_tx_mqtt_cmd_e`
pub data MessageCmd : Type 0 where
  registration boot access usage clean_result diagnostics health : MessageCmd
  aws_jobs_get : MessageCmd
  tracker_activity tracker_diagnostics tracker_health : MessageCmd

-- `TRACKER_MESSEGE_ACTIVITY <= cmd`
abbrev pub is_tracker : MessageCmd → Bool
is_tracker registration = false
is_tracker boot = false
is_tracker access = false
is_tracker usage = false
is_tracker clean_result = false
is_tracker diagnostics = false
is_tracker health = false
is_tracker aws_jobs_get = false
is_tracker tracker_activity = true
is_tracker tracker_diagnostics = true
is_tracker tracker_health = true

pub record System : Type 0 where
  pub log_timestamp : ℕ
  pub reset_reason : ℕ
  pub free_heap_size : ℕ
  pub tracker_found : Bool
  -- the twelve digits that `%02X` gives for the station's MAC
  pub mac : String

pub record UsagePacket (F : Type 0) : Type 0 where
  pub cat_weight : F
  pub waste_raw : F
  pub duration_sec : ℕ

pub record CleanResultPacket (F : Type 0) : Type 0 where
  pub disposed : F
  pub waste_ratio : F
  pub waste_type : ℕ
  pub send_level : ℕ

-- `mqtt_packet->data`, which is cast to what the command sends along; null for the rest. (Data of another
-- command's kind is never sent along.)
pub data PacketData (F : Type 0) : Type 0 where
  null : PacketData F
  usage_data : UsagePacket F → PacketData F
  clean_result_data : CleanResultPacket F → PacketData F

abbrev pub test_uuid : String
test_uuid = "d8146a41-fcbc-4038-a942-fb2ad64891db"

abbrev pub device_type : String
device_type = "c100"

abbrev pub device_prefix : String
device_prefix = "C100"

-- The `event_type` of a command; `none` where the header is given up.
abbrev pub event_name : MessageCmd → Option String
event_name registration = some "registration"
event_name boot = some "boot"
event_name access = some "access"
event_name usage = some "usage"
event_name clean_result = some "clean_result"
event_name diagnostics = some "diagnostics"
event_name health = some "health"
event_name aws_jobs_get = none
event_name tracker_activity = some "activity"
event_name tracker_diagnostics = none
event_name tracker_health = some "health"

-- SERVER_TX_TOPIC_...
unfoldable pub server_topic : System → MessageCmd → Option String
server_topic sys registration = some ("things/c100/C100_" ++ sys.mac ++ "/registration")
server_topic sys boot = some ("things/c100/C100_" ++ sys.mac ++ "/boot")
server_topic sys access = some ("things/c100/C100_" ++ sys.mac ++ "/access")
server_topic sys usage = some ("things/c100/C100_" ++ sys.mac ++ "/usage")
server_topic sys clean_result = some ("things/c100/C100_" ++ sys.mac ++ "/clean_result")
server_topic sys diagnostics = some ("things/c100/C100_" ++ sys.mac ++ "/diagnostics")
server_topic sys health = some ("things/c100/C100_" ++ sys.mac ++ "/health")
server_topic sys aws_jobs_get = none
server_topic sys tracker_activity = none
server_topic sys tracker_diagnostics = none
server_topic sys tracker_health = none

module _ {F : Type 0} where
  abbrev pub number : ℕ → Json F
  number n = num (int (pos n))

  abbrev header_fields : System → String → MessageCmd → String → Fields F
  header_fields sys tracker_firmware cmd event = field "id" (str test_uuid) (
      field "env" (str "alpha") (
        field "device_type" (str (if is_tracker cmd then "tracker" else device_type)) (
          field "event_type" (str event) (
            field "firmware" (str (if is_tracker cmd then tracker_firmware else "v1.0.0"))
              (field "timestamp" (number (sys.log_timestamp / 1000)) end)))))

  abbrev header_of : System → String → MessageCmd → Option String → Option (Fields F)
  header_of sys tracker_firmware cmd none = none
  header_of sys tracker_firmware cmd (some event) =
      some (header_fields sys tracker_firmware cmd event)

  -- `Get_cJSON_Header`, with the firmware's version of the last health message of a tracker
  unfoldable pub get_header : System → String → MessageCmd → Option (Fields F)
  get_header sys tracker_firmware cmd = header_of sys tracker_firmware cmd (event_name cmd)

  unfoldable pub usage_fields : System → PacketData F → Fields F
  usage_fields sys (usage_data u) = field "usage_id" (str test_uuid) (
      field "session_type" (str (if sys.tracker_found then "normal" else "unknown")) (
        field "access_id_refs" (str "") (
          field "tracker_id" (str "TRACKER_112233445566") (
            field "cat_weight" (num (float u.cat_weight)) (
              field "waste_raw" (num (float u.waste_raw))
                (field "duration_sec" (number u.duration_sec) end))))))
  usage_fields sys _ = field "usage_id" (str test_uuid) (
      field "session_type" (str "unknown") (
        field "cat_weight" (number 3500)
          (field "waste_raw" (number 10) (field "duration_sec" (number 120) end))))

  unfoldable pub clean_result_fields : PacketData F → Fields F
  clean_result_fields (clean_result_data c) = field "clean_id" (str test_uuid) (
      field "trigger" (str "device_button") (
        field "target_usage_ids" (str "") (
          field "disposed" (num (float c.disposed)) (
            field "waste_ratio" (num (float c.waste_ratio)) (
              field "waste_type" (number c.waste_type) (
                field "send_level" (number c.send_level)
                  (field "request_token_ref" (str test_uuid) end)))))))
  clean_result_fields _ = field "clean_id" (str test_uuid) (
      field "trigger" (str "device_button") (
        field "disposed" (number 10) (
          field "waste_ratio" (number 1)
            (field "waste_type" (number 1) (field "send_level" (number 0) end)))))

  unfoldable pub health_fields : System → Fields F
  health_fields sys = field "uptime_sec" (number (sys.log_timestamp / 1000)) (
      field "reset_reason" (number sys.reset_reason) (
        field "rssi_dbm" (num (int (negsuc 69))) (
          field "subsystems"
            (obj (
              field "motor" (str "ok") (
                field "loadcell" (str "ok") (field "tof" (str "ok") (field "ble" (str "ok") end)))))
            (field "power_source" (str "ADAPTER") (
              field "sand_level" (number 0) (
                field "bin_weight" (number 0) (
                  field "cover_open" (number 0) (
                    field "maintenance_mode" (number 0) (
                      field "uv_status" (number 0)
                        (field "free_heap" (number sys.free_heap_size) end))))))))))

  -- `Get_cJSON_Data`
  unfoldable pub get_data : System → MessageCmd → PacketData F → Option (Fields F)
  get_data sys registration p = some (
      field "mac" (str sys.mac)
        (field "hw_rev" (str "r1.0") (field "paired_at" (number 1747396800) end)))
  get_data sys boot p = some (
      field "boot_reason" (str "power_on") (
        field "uptime_sec" (number (sys.log_timestamp / 1000)) (
          field "power_source" (str "ADAPTER")
            (field "reset_reason" (number sys.reset_reason) end))))
  get_data sys access p = some (
      field "access_id" (str test_uuid) (
        field "source" (str (if sys.tracker_found then "tracker" else "sensor"))
          (field "beacon_id" (str "TRACKER_112233445566") (field "rssi_dbm" (number 0) end))))
  get_data sys usage p = some (usage_fields sys p)
  get_data sys clean_result p = some (clean_result_fields p)
  get_data sys diagnostics p = some (
      field "alert_level" (str "critical") (
        field "fault_code" (str "LOADCELL_ERR") (
          field "affected_subsystem" (str "loadcell") (
            field "context" (obj end) (
              field "uptime_sec" (number 1747396800) (
                field "reset_reason" (number sys.reset_reason)
                  (field "rssi_dbm" (number 0) (field "subsystems" (obj end) end))))))))
  get_data sys health p = some (health_fields sys)
  get_data sys aws_jobs_get p = none
  get_data sys tracker_activity p = none
  get_data sys tracker_diagnostics p = none
  get_data sys tracker_health p = none

  -- `Send_cJSON_Messege`: the topic and the object that are published.
  unfoldable pub send_message :
      System → String → MessageCmd → PacketData F → Option (String × Fields F)
  send_message sys tracker_firmware cmd p = do
    root ← get_header sys tracker_firmware cmd
    values ← get_data sys cmd p
    topic ← server_topic sys cmd
    some (topic, add_item root "data" (obj values))

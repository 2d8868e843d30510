-- ===== src/Mqtt/Topics.antt =====
-- Which messages main/mqtt/tx_mqtt.c publishes, and under which topics.
use Prim.Native.String.{String, ◌++◌}
use cat_litter_box.Common.{
  ℕ, ◌==◌, Option, none, some, List, ◌≡◌, refl, Bool-cases, inl, inr, if◌then◌else◌,
}
use cat_litter_box.Mqtt.Json.{str, Fields, get_item}
use cat_litter_box.Mqtt.Tx.{
  MessageCmd, registration, boot, access, usage, clean_result, diagnostics, health, aws_jobs_get,
  tracker_activity, tracker_diagnostics, tracker_health, System, PacketData, get_header, get_data,
  server_topic, send_message,
}
use cat_litter_box.Mqtt.TrackerTx.{
  mac_text, TrackerState, TrackerPacket, keep_health, get_tracker_data, tracker_topic,
  tracker_message, send_tracker_message, event_code, start_response_code,
}

-- The events of the box, and those of a tracker.
abbrev pub own_event : MessageCmd → Option String
own_event registration = some "registration"
own_event boot = some "boot"
own_event access = some "access"
own_event usage = some "usage"
own_event clean_result = some "clean_result"
own_event diagnostics = some "diagnostics"
own_event health = some "health"
own_event aws_jobs_get = none
own_event tracker_activity = none
own_event tracker_diagnostics = none
own_event tracker_health = none

abbrev pub tracker_event : MessageCmd → Option String
tracker_event tracker_activity = some "activity"
tracker_event tracker_health = some "health"
tracker_event tracker_diagnostics = none
tracker_event registration = none
tracker_event boot = none
tracker_event access = none
tracker_event usage = none
tracker_event clean_result = none
tracker_event diagnostics = none
tracker_event health = none
tracker_event aws_jobs_get = none

module _ {F : Type 0} where
  -- What is published for an event: under the topic `lead``mac`/event, an object that names the
  -- event and the kind of device. Nothing is published where there is no event.
  abbrev pub Announces :
      String → String → String → Option String → Option (String × Fields F) → Type 0
  Announces lead mac kind none none = Unit
  Announces lead mac kind none (some r) = ⊥
  Announces lead mac kind (some event) none = ⊥
  Announces lead mac kind (some event) (some r) =
      (r.0 ≡ lead ++ mac ++ "/" ++ event)
      × (get_item "event_type" r.1 ≡ some (str event))
      × (get_item "device_type" r.1 ≡ some (str kind))

  send_message-Announces :
      (sys : System) (v : String) (cmd : MessageCmd) (p : PacketData F)
      → Announces "things/c100/C100_" sys.mac "c100" (own_event cmd) (send_message sys v cmd p)
  unfolding send_message get_header get_data server_topic
  send_message-Announces sys v registration p = (refl, refl, refl)
  send_message-Announces sys v boot p = (refl, refl, refl)
  send_message-Announces sys v access p = (refl, refl, refl)
  send_message-Announces sys v usage p = (refl, refl, refl)
  send_message-Announces sys v clean_result p = (refl, refl, refl)
  send_message-Announces sys v diagnostics p = (refl, refl, refl)
  send_message-Announces sys v health p = (refl, refl, refl)
  send_message-Announces sys v aws_jobs_get p = tt
  send_message-Announces sys v tracker_activity p = tt
  send_message-Announces sys v tracker_diagnostics p = tt
  send_message-Announces sys v tracker_health p = tt

module _ (F : Type 0) (decimal hex : ℕ → String) where
  tracker_message-Announces :
      (sys : System) (s : TrackerState) (cmd : MessageCmd) (mac packet : List ℕ)
      → Announces {F = F} "things/tracker/TRACKER_"
          (mac_text decimal hex mac)
          "tracker"
          (tracker_event cmd)
          (tracker_message decimal hex sys s (record { cmd = cmd; mac = mac; packet = packet }))
  unfolding tracker_message get_header get_tracker_data tracker_topic
  tracker_message-Announces sys s tracker_activity mac packet = (refl, refl, refl)
  tracker_message-Announces sys s tracker_health mac packet = (refl, refl, refl)
  tracker_message-Announces sys s tracker_diagnostics mac packet = tt
  tracker_message-Announces sys s registration mac packet = tt
  tracker_message-Announces sys s boot mac packet = tt
  tracker_message-Announces sys s access mac packet = tt
  tracker_message-Announces sys s usage mac packet = tt
  tracker_message-Announces sys s clean_result mac packet = tt
  tracker_message-Announces sys s diagnostics mac packet = tt
  tracker_message-Announces sys s health mac packet = tt
  tracker_message-Announces sys s aws_jobs_get mac packet = tt

  send_tracker_message-Announces :
      (sys : System) (t : TrackerPacket) (s : TrackerState)
      → Announces {F = F} "things/tracker/TRACKER_"
          (mac_text decimal hex t.mac)
          "tracker"
          (if event_code t.packet == start_response_code then none else tracker_event t.cmd)
          (send_tracker_message decimal hex sys t s).0
  unfolding send_tracker_message
  send_tracker_message-Announces sys t s =
      elim (Bool-cases (event_code t.packet == start_response_code)) [
        | inl y ↦ rw y tt
        | inr n ↦ rw n (tracker_message-Announces sys (keep_health t t.cmd s) t.cmd t.mac t.packet)
      ]

  -- `Send_cJSON_Messege` publishes exactly the seven events of the box, each in an object that names
  -- it, under its own topic. `Send_cJSON_Messege_for_tracker` does so for a tracker's activities
  -- and health, but for the packet that starts a transfer.
  pub messages-Announces :
      (sys : System) (firmware : String) (cmd : MessageCmd) (p : PacketData F) (t : TrackerPacket)
      (s : TrackerState)
      → Announces "things/c100/C100_" sys.mac "c100"
          (own_event cmd)
          (send_message sys firmware cmd p)
        × Announces {F = F} "things/tracker/TRACKER_"
            (mac_text decimal hex t.mac)
            "tracker"
            (if event_code t.packet == start_response_code then none else tracker_event t.cmd)
            (send_tracker_message decimal hex sys t s).0
  messages-Announces sys firmware cmd p t s =
      (send_message-Announces sys firmware cmd p, send_tracker_message-Announces sys t s)

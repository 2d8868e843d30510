-- ===== src/Examples/Messages.antt =====
-- Messages for the server, and the plate in the factory's diagnosis.
use Prim.Native.String.{String}
use cat_litter_box.Common.{
  ℕ, ◌+◌, ◌≤◌, true, false, List, [], ◌∷◌, ltb, leb, ◌≡◌, refl, some, arith, if◌then◌else◌, ◌==◌,
}
use cat_litter_box.Mqtt.Tx.{System, usage, tracker_health, health, null, send_message}
use cat_litter_box.Mqtt.TrackerTx.{TrackerState, TrackerPacket, send_tracker_message}
use cat_litter_box.Mqtt.Topics.{Announces, messages-Announces}
use cat_litter_box.Mqtt.Queue.{
  QueueEvent, sent, served, boot_sender, create_queue, steps, step, mqtt_queue_send, serve_round,
  reset_queue, queue_length,
}
use cat_litter_box.Mqtt.Queue.Memory.{connections, dropped, held, connections-live}
use cat_litter_box.Motion.{stop}
use cat_litter_box.Clean.World.{Env, ok}
use cat_litter_box.Examples.Scenario.{ready}
use cat_litter_box.Diag.{diag_plate, do_diag_mode}
use cat_litter_box.Diag.Alternation.{Raised, alternation, presses, plate_msg, do_diag_mode-plate}

abbrev at_noon : System
at_noon = record {
  log_timestamp = 5000;
  reset_reason = 1;
  free_heap_size = 100000;
  tracker_found = true;
  mac = "0102030405FF";
}

abbrev digits : ℕ → String
digits n = if n == 1 then "1" else "0"

abbrev pulse : TrackerPacket
pulse = record {
  cmd = tracker_health;
  mac = 1 ∷ 0 ∷ 1 ∷ 0 ∷ 0 ∷ 1 ∷ [];
  packet = 19 ∷ 60 ∷ 0 ∷ 0 ∷ 0 ∷ 90 ∷ 41 ∷ 1 ∷ 0 ∷ 1 ∷ 200 ∷ 4 ∷ [];
}

abbrev unheard : TrackerState
unheard = record { motion_res = []; health_res = [] }

messages-Announces_example :
    Announces {F = ℕ} "things/c100/C100_" "0102030405FF" "c100"
      (some "usage")
      (send_message at_noon "v1.2.3" usage null)
    × Announces {F = ℕ} "things/tracker/TRACKER_" "101001" "tracker"
        (some "health")
        (send_tracker_message digits digits at_noon pulse unheard).0
messages-Announces_example =
    messages-Announces ℕ digits digits at_noon "v1.2.3" usage null pulse unheard

-- Two messages with data; the second is in the queue as the connection breaks.
abbrev two_connections : List (List QueueEvent)
two_connections =
    (sent true usage true ∷ sent true usage true ∷ served ∷ []) ∷ (sent true health false ∷ []) ∷ []

one_lost : (connections two_connections (create_queue boot_sender)).live ≡ 1
unfolding create_queue steps step mqtt_queue_send serve_round reset_queue
one_lost = refl

connections-live_example :
    let start = create_queue boot_sender in
    let s = connections two_connections start in
    (s.live ≡ held s.queue + dropped two_connections start) × (held s.queue ≤ queue_length)
connections-live_example = connections-live two_connections

-- The key of the function is pressed for a while, then the one of the next step.
abbrev pressing : Env
pressing = record {
  step = λ n s. record s { diag_next_func = ltb n 9; diag_next_step = leb 12 n };
  delay = λ n ms s. s;
}

pressing-Raised : Raised pressing 12
pressing-Raised n s h = ground arith

do_diag_mode-plate_example :
    let r = do_diag_mode 20 diag_plate pressing ready in
    (r.0 ≡ ok tt)
    × (r.1.log ≡ plate_msg stop ∷ alternation plate_msg (presses 20 pressing 0 ready.shared) [])
do_diag_mode-plate_example = do_diag_mode-plate 20 12 pressing ready pressing-Raised (omega arith)

-- ===== src/Mqtt/Queue.antt =====
-- main/provisioning/aws_iot_task.c: the queue of messages for the server, and its data's memory
-- Whether `calloc` succeeds is an argument. What a message's data says does not matter here: a
-- packet is its command and whether it carries a block. Log output is left out.
pub mod Memory
use cat_litter_box.Common.{
  ℕ, suc, ◌+◌, ◌-◌, Bool, true, false, ◌&&◌, List, [], ◌∷◌, ◌++◌, length, ltb, if◌then◌else◌,
}
use cat_litter_box.Mqtt.Tx.{MessageCmd}

pub record QueuedPacket : Type 0 where
  pub cmd : MessageCmd
  pub holds_data : Bool

-- `live` counts the blocks that were allocated for data and are not freed.
pub record Sender : Type 0 where
  pub created : Bool
  pub queue : List QueuedPacket
  pub live : ℕ

abbrev pub queue_length : ℕ
queue_length = 10

abbrev pub boot_sender : Sender
boot_sender = record { created = false; queue = []; live = 0 }

-- `if (mqtt_packet.data != NULL) free(mqtt_packet.data)`
abbrev pub free_data : Bool → ℕ → ℕ
free_data holds_data live = if holds_data then live - 1 else live

abbrev pub put_packet : QueuedPacket → Sender → Bool × Sender
put_packet p s =
    if ltb (length s.queue) queue_length
    then (true, record s { queue = s.queue ++ p ∷ [] })
    else (false, record s { live = free_data p.holds_data s.live })

-- `calloc`
abbrev pub allocate_block : Bool → Sender → Sender
allocate_block holds s = if holds then record s { live = suc s.live } else s

-- `mqtt_queue_send`, with whether data comes along
unfoldable pub mqtt_queue_send : Bool → MessageCmd → Bool → Sender → Bool × Sender
mqtt_queue_send calloc_ok cmd with_data s =
    if s.created
    then (let holds = with_data && calloc_ok in
        let p : QueuedPacket = record { cmd = cmd; holds_data = holds } in
        put_packet p (allocate_block holds s))
    else (false, s)

-- `xQueueReceive` on the queue, and what the task does with the packet
abbrev pub take_packet : List QueuedPacket → Sender → List MessageCmd × Sender
take_packet [] s = ([], s)
take_packet (p ∷ ps) s = (p.cmd ∷ [], record s { queue = ps; live = free_data p.holds_data s.live })

unfoldable pub serve_round : Sender → List MessageCmd × Sender
serve_round s = take_packet s.queue s

-- `xQueueReset`, before each connection
unfoldable pub reset_queue : Sender → Sender
reset_queue s = record s { queue = [] }

-- The start of the task, once the WiFi is connected
unfoldable pub create_queue : Sender → Sender
create_queue s = record s { created = true; queue = [] }

pub data QueueEvent : Type 0 where
  sent : (calloc_ok : Bool) (cmd : MessageCmd) (with_data : Bool) → QueueEvent
  served : QueueEvent

unfoldable pub step : QueueEvent → Sender → Sender
step (sent calloc_ok cmd with_data) s = (mqtt_queue_send calloc_ok cmd with_data s).1
step served s = (serve_round s).1

unfoldable pub steps : List QueueEvent → Sender → Sender
steps [] s = s
steps (e ∷ es) s = steps es (step e s)

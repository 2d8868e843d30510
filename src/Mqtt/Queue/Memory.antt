-- ===== src/Mqtt/Queue/Memory.antt =====
-- The blocks that main/provisioning/aws_iot_task.c holds for messages.
use cat_litter_box.Common.{
  ℕ, suc, ◌+◌, ◌≤◌, ◌<◌, Bool, true, false, ◌&&◌, List, [], ◌∷◌, ◌++◌, length, length-append, ltb,
  ◌≡◌, refl, arith, Bool-cases, inl, inr, if◌then◌else◌,
}
use cat_litter_box.Mqtt.Tx.{MessageCmd}
use cat_litter_box.Mqtt.Queue.{
  QueuedPacket, Sender, queue_length, put_packet, mqtt_queue_send, take_packet, serve_round,
  reset_queue, create_queue, boot_sender, allocate_block, QueueEvent, sent, served, step, steps,
}

-- The packets that carry a block.
abbrev pub held : List QueuedPacket → ℕ
held [] = 0
held (p ∷ ps) = let rest = held ps in if p.holds_data then suc rest else rest

held-append :
    (ps : List QueuedPacket) (p : QueuedPacket)
    → held (ps ++ p ∷ []) ≡ (if p.holds_data then suc (held ps) else held ps)
held-append [] p = refl
held-append (q ∷ ps) p = ground (arith, held-append ps p)

held_le : (ps : List QueuedPacket) → held ps ≤ length ps
held_le [] = omega arith
held_le (p ∷ ps) = ground (arith, held_le ps)

-- The blocks that are live are those of the queue, beside `lost` others.
record Owned (lost : ℕ) (s : Sender) : Type 0 where
  blocks : s.live ≡ held s.queue + lost
  fits : length s.queue ≤ queue_length

put_packet-Owned :
    (lost : ℕ) (p : QueuedPacket) (s : Sender)
    → s.live ≡ (if p.holds_data then suc (held s.queue) else held s.queue) + lost
    → length s.queue ≤ queue_length
    → Owned lost (put_packet p s).1
put_packet-Owned lost p s b f = elim (Bool-cases (ltb (length s.queue) 10)) [
  | inl y ↦ rw y (record {
    blocks = rw (held-append s.queue p) b;
    fits =
        let l : length s.queue < 10 = ground arith in omega (arith, length-append s.queue (p ∷ []));
  })
  | inr n ↦ rw n (record { blocks = ground arith; fits = f })
]

send_lem :
    (calloc_ok : Bool) (cmd : MessageCmd) (with_data : Bool) (s : Sender)
    → s.created ≡ true
    → mqtt_queue_send calloc_ok cmd with_data s
      ≡ put_packet
          (record { cmd = cmd; holds_data = with_data && calloc_ok })
          (allocate_block (with_data && calloc_ok) s)
unfolding mqtt_queue_send
send_lem calloc_ok cmd with_data s h = simp h refl

unsent_lem :
    (calloc_ok : Bool) (cmd : MessageCmd) (with_data : Bool) (s : Sender)
    → s.created ≡ false
    → mqtt_queue_send calloc_ok cmd with_data s ≡ (false, s)
unfolding mqtt_queue_send
unsent_lem calloc_ok cmd with_data s h = simp h refl

take_packet-Owned :
    (lost : ℕ) (ps : List QueuedPacket) (s : Sender)
    → s.queue ≡ ps
    → Owned lost s
    → Owned lost (take_packet ps s).1
take_packet-Owned lost [] s e o = o
take_packet-Owned lost (p ∷ ps) s e o =
    let b : s.live ≡ held (p ∷ ps) + lost = rw e at o.blocks in
    let f : length (p ∷ ps) ≤ 10 = rw e at o.fits in
    record { blocks = ground arith; fits = omega arith }

step-Owned : (lost : ℕ) (e : QueueEvent) (s : Sender) → Owned lost s → Owned lost (step e s)
unfolding step serve_round
step-Owned lost (sent calloc_ok cmd with_data) s o = elim (Bool-cases s.created) [
  | inl y ↦
      rw (send_lem calloc_ok cmd with_data s y, step)
        (elim (with_data && calloc_ok)
          as (λ h.
            Owned lost (put_packet (record { cmd = cmd; holds_data = h }) (allocate_block h s)).1) [
              | true ↦
                  put_packet-Owned lost (record { cmd = cmd; holds_data = true })
                    (allocate_block true s) (let b = o.blocks in omega arith) o.fits
              | false ↦
                  put_packet-Owned lost (record { cmd = cmd; holds_data = false }) s o.blocks o.fits
            ])
  | inr n ↦ rw (unsent_lem calloc_ok cmd with_data s n, step) o
]
step-Owned lost served s o = take_packet-Owned lost s.queue s refl o

steps-Owned :
    (lost : ℕ) (es : List QueueEvent) (s : Sender) → Owned lost s → Owned lost (steps es s)
unfolding steps
steps-Owned lost [] s o = o
steps-Owned lost (e ∷ es) s o = steps-Owned lost es (step e s) (step-Owned lost e s o)

-- The task of a connection: it resets the queue, and messages are sent and served.
abbrev pub connections : List (List QueueEvent) → Sender → Sender
connections [] s = s
connections (es ∷ rest) s = connections rest (steps es (reset_queue s))

-- The blocks in the queue whenever it is reset.
abbrev pub dropped : List (List QueueEvent) → Sender → ℕ
dropped [] s = 0
dropped (es ∷ rest) s = held s.queue + dropped rest (steps es (reset_queue s))

connections-Owned :
    (lost : ℕ) (rest : List (List QueueEvent)) (s : Sender)
    → Owned lost s
    → Owned (lost + dropped rest s) (connections rest s)
unfolding reset_queue
connections-Owned lost [] s o = record { blocks = let b = o.blocks in omega arith; fits = o.fits }
connections-Owned lost (es ∷ rest) s o =
    let reset : Owned (lost + held s.queue) (reset_queue s) = record {
      blocks = let b = o.blocks in omega arith;
      fits = omega arith;
    } in
    let after =
      connections-Owned (lost + held s.queue) rest (steps es (reset_queue s))
        (steps-Owned (lost + held s.queue) es (reset_queue s) reset) in
    record { blocks = let b = after.blocks in omega arith; fits = after.fits }

-- From the start of the task on, through any connections, the blocks that are live are those of the
-- packets in the queue, 10 at most, and those that were in it whenever it was reset.
pub connections-live :
    (rest : List (List QueueEvent))
    → let start = create_queue boot_sender in
      let s = connections rest start in
      (s.live ≡ held s.queue + dropped rest start) × (held s.queue ≤ queue_length)
unfolding create_queue
connections-live rest =
    let start = create_queue boot_sender in
    let o = connections-Owned 0 rest start (record { blocks = refl; fits = omega arith }) in
    (
      (let b = o.blocks in omega arith),
      (let f = o.fits in omega (arith, held_le (connections rest start).queue)),
    )

-- ===== src/Tracker/Registry.antt =====
-- The slots of main/ble/ble_tracker_id.c hold each tracker once.
use cat_litter_box.Common.{
  ℕ, zero, suc, ◌≤◌, Bool, true, false, Option, none, some, List, [], ◌∷◌, map, length, length-set,
  length-map, set, ◌==◌, ◌≡◌, refl, ap, ◌∙◌, arith, Bool-cases, inl, inr,
}
use cat_litter_box.Tracker.{
  Device, Slot, Tracker, boot_tracker, tracker_device_max, disable, end_visit, allocate,
  tracker_waterintake_end, find_slot, refresh, update, new_device, known, free, full, tracker_in_id,
  capture_device, motion_tick, capture_round, motion_set_timer, time_sum, Event, heard, captured,
  drunk, connected, step, steps,
}
use cat_litter_box.Tracker.Identifiers.{
  id_of, Fresh, Distinct, Distinct-set, find_slot-Fresh, map-set, map-keeps, update-keeps, take-all,
}

pub record IsRegistry (t : Tracker) : Type 0 where
  pub slots : length t.devices ≡ tracker_device_max
  pub distinct : Distinct (map id_of t.devices)

map-IsRegistry :
    (f : Option Device → Option Device) {t t' : Tracker}
    → ((o : Option Device) → id_of (f o) ≡ id_of o)
    → t'.devices ≡ map f t.devices
    → IsRegistry t
    → IsRegistry t'
map-IsRegistry f {t} k e v = record {
  slots = rw e (length-map t.devices f ∙ v.slots);
  distinct = rw (e, map-keeps f k t.devices) v.distinct;
}

end_visit-keeps : (o : Option Device) → id_of (end_visit o) ≡ id_of o
unfolding end_visit disable
end_visit-keeps none = refl
end_visit-keeps (some d) = ground arith

allocate-keeps : (w n : ℕ) (o : Option Device) → id_of (allocate w n o) ≡ id_of o
unfolding allocate
allocate-keeps w n none = refl
allocate-keeps w n (some d) = ground arith

capture-keeps : (o : Option Device) → id_of (capture_device o) ≡ id_of o
unfolding capture_device disable
capture-keeps none = refl
capture-keeps (some d) = ground arith

length-update : (i : ℕ) (ds : List (Option Device)) → length (update i refresh ds) ≡ length ds
unfolding update
length-update i [] = refl
length-update zero (d ∷ ds) = refl
length-update (suc i) (d ∷ ds) = ap suc (length-update i ds)

register-IsRegistry :
    (id : List ℕ) (i : ℕ) (t : Tracker)
    → length id ≤ 31
    → Fresh id (map id_of t.devices)
    → IsRegistry t
    → IsRegistry (record t { devices = set t.devices i (some (new_device id)) })
register-IsRegistry id i t h f v = record {
  slots = length-set t.devices i (some (new_device id)) ∙ v.slots;
  distinct =
      rw (map-set t.devices i (some (new_device id)), take-all 31 id h)
        (Distinct-set id (map id_of t.devices) i f v.distinct);
}

slot-IsRegistry :
    (s : Slot) (allocates : Bool) (id : List ℕ) (t : Tracker)
    → find_slot id t.devices 0 none ≡ s
    → length id ≤ 31
    → IsRegistry t
    → IsRegistry (tracker_in_id allocates id t)
unfolding tracker_in_id
slot-IsRegistry full allocates id t e h v = rw (tracker_in_id, e) v
slot-IsRegistry (known i) allocates id t e h v =
    rw (tracker_in_id, e)
      (record {
        slots = length-update i t.devices ∙ v.slots;
        distinct = rw (update-keeps i t.devices) v.distinct;
      })
slot-IsRegistry (free i) false id t e h v = rw (tracker_in_id, e) v
slot-IsRegistry (free i) true id t e h v =
    rw (tracker_in_id, e) (register-IsRegistry id i t h (find_slot-Fresh id t.devices 0 none e) v)

heard-IsRegistry :
    (allocates : Bool) (id : List ℕ) (t : Tracker)
    → length id ≤ 31
    → IsRegistry t
    → IsRegistry (tracker_in_id allocates id t)
heard-IsRegistry allocates id t h v =
    slot-IsRegistry (find_slot id t.devices 0 none) allocates id t refl h v

drunk-IsRegistry :
    (weight : ℕ) (t : Tracker) → IsRegistry t → IsRegistry (tracker_waterintake_end weight t)
unfolding tracker_waterintake_end
drunk-IsRegistry weight t v =
    let total = time_sum 0 (map end_visit t.devices) in
    elim (Bool-cases (total == 0)) [
      | inl y ↦ rw y (map-IsRegistry end_visit end_visit-keeps refl v)
      | inr n ↦ rw n (
          map-IsRegistry (allocate weight total)
            {t = record t { devices = map end_visit t.devices }} (allocate-keeps weight total) refl
            (map-IsRegistry end_visit end_visit-keeps refl v))
    ]

pub tick-devices : (n : ℕ) (t : Tracker) → (motion_tick n t).0.devices ≡ t.devices
unfolding motion_tick
tick-devices n t = ground arith

-- Every identifier that is heard has at most 31 bytes.
abbrev pub AreShort : List Event → Type 0
AreShort [] = Unit
AreShort (heard allocates id ∷ es) = (length id ≤ 31) × AreShort es
AreShort (_ ∷ es) = AreShort es

steps_keep-IsRegistry :
    (es : List Event) (t : Tracker) → AreShort es → IsRegistry t → IsRegistry (steps es t)
unfolding steps step capture_round motion_set_timer
steps_keep-IsRegistry [] t a v = v
steps_keep-IsRegistry (heard allocates id ∷ es) t (h, a) v =
    steps_keep-IsRegistry es _ a (heard-IsRegistry allocates id t h v)
steps_keep-IsRegistry (captured n ∷ es) t a v =
    steps_keep-IsRegistry es _ a
      (map-IsRegistry capture_device capture-keeps (ap (map capture_device) (tick-devices n t)) v)
steps_keep-IsRegistry (drunk weight ∷ es) t a v =
    steps_keep-IsRegistry es _ a (drunk-IsRegistry weight t v)
steps_keep-IsRegistry (connected status ∷ es) t a v =
    steps_keep-IsRegistry es _ a (record { slots = v.slots; distinct = v.distinct })

-- From power-up on, the array keeps its 20 slots, and no two of them hold the same identifier, if
-- no identifier is longer than the 31 bytes that a slot stores.
pub steps-IsRegistry : (es : List Event) → AreShort es → IsRegistry (steps es boot_tracker)
steps-IsRegistry es a =
    steps_keep-IsRegistry es boot_tracker a (record { slots = refl; distinct = tt })

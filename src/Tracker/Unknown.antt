-- ===== src/Tracker/Unknown.antt =====
-- No code calls `Tracker_device_time_add`: what main/ble/ble_tracker_id.c then books.
use cat_litter_box.Common.{
  ℕ, zero, suc, ◌+◌, ◌%◌, ◌^◌, ◌<◌, Bool, true, false, Option, none, some, List, [], ◌∷◌, map, set,
  ◌≡◌, refl, ap, ◌∙◌, arith,
}
use cat_litter_box.Tracker.{
  Device, Slot, Tracker, boot_tracker, disable, end_visit, time_sum, tracker_waterintake_end,
  find_slot, known, free, full, refresh, update, new_device, tracker_in_id, capture_device,
  motion_tick, capture_round, motion_set_timer, Event, heard, captured, drunk, connected, step,
  steps,
}
use cat_litter_box.Tracker.Registry.{tick-devices}

pub record IsUnused (d : Device) : Type 0 where
  pub no_time : d.device_time ≡ 0
  pub no_diff : d.diff_time ≡ 0
  pub no_water : d.water_intake ≡ 0

abbrev pub Unused : Option Device → Type 0
Unused none = Unit
Unused (some d) = IsUnused d

abbrev pub AllUnused : List (Option Device) → Type 0
AllUnused [] = Unit
AllUnused (o ∷ ds) = Unused o × AllUnused ds

map-AllUnused :
    (f : Option Device → Option Device)
    → ((o : Option Device) → Unused o → Unused (f o))
    → (ds : List (Option Device)) → AllUnused ds
    → AllUnused (map f ds)
map-AllUnused f k [] a = tt
map-AllUnused f k (o ∷ ds) (u, a) = (k o u, map-AllUnused f k ds a)

end_visit-Unused : (o : Option Device) → Unused o → Unused (end_visit o)
unfolding end_visit disable
end_visit-Unused none u = tt
end_visit-Unused (some d) u = ground arith

capture-Unused : (o : Option Device) → Unused o → Unused (capture_device o)
unfolding capture_device disable
capture-Unused none u = tt
capture-Unused (some d) u = ground arith

update-AllUnused :
    (i : ℕ) (ds : List (Option Device)) → AllUnused ds → AllUnused (update i refresh ds)
unfolding update refresh
update-AllUnused i [] a = tt
update-AllUnused zero (none ∷ ds) a = a
update-AllUnused zero (some d ∷ ds) (u, a) =
    (record { no_time = u.no_time; no_diff = u.no_diff; no_water = u.no_water }, a)
update-AllUnused (suc i) (o ∷ ds) (u, a) = (u, update-AllUnused i ds a)

set-AllUnused :
    (i : ℕ) (id : List ℕ) (ds : List (Option Device))
    → AllUnused ds
    → AllUnused (set ds i (some (new_device id)))
set-AllUnused i id [] a = tt
set-AllUnused zero id (o ∷ ds) (u, a) =
    (record { no_time = refl; no_diff = refl; no_water = refl }, a)
set-AllUnused (suc i) id (o ∷ ds) (u, a) = (u, set-AllUnused i id ds a)

time_sum-AllUnused :
    (acc : ℕ) (ds : List (Option Device)) → acc < 2 ^ 32 → AllUnused ds → time_sum acc ds ≡ acc
unfolding time_sum
time_sum-AllUnused acc [] h a = refl
time_sum-AllUnused acc (none ∷ ds) h (u, a) = time_sum-AllUnused acc ds h a
time_sum-AllUnused acc (some d ∷ ds) h (u, a) =
    ap (λ x. time_sum x ds) (omega (arith, u.no_diff)) ∙ time_sum-AllUnused acc ds h a

-- The water of some events.
abbrev pub total_drunk : List Event → ℕ
total_drunk [] = 0
total_drunk (drunk weight ∷ es) = weight + total_drunk es
total_drunk (_ ∷ es) = total_drunk es

heard-AllUnused :
    (s : Slot) (allocates : Bool) (id : List ℕ) (t : Tracker)
    → find_slot id t.devices 0 none ≡ s
    → AllUnused t.devices
    → let t' = tracker_in_id allocates id t in
      AllUnused t'.devices × (t'.unknown_water ≡ t.unknown_water)
unfolding tracker_in_id
heard-AllUnused full allocates id t e a = rw (tracker_in_id, e) (a, refl)
heard-AllUnused (known i) allocates id t e a =
    rw (tracker_in_id, e) (update-AllUnused i t.devices a, refl)
heard-AllUnused (free i) false id t e a = rw (tracker_in_id, e) (a, refl)
heard-AllUnused (free i) true id t e a =
    rw (tracker_in_id, e) (set-AllUnused i id t.devices a, refl)

drunk-unknown :
    (weight : ℕ) (t : Tracker)
    → AllUnused t.devices
    → tracker_waterintake_end weight t ≡ record t {
      devices = map end_visit t.devices;
      unknown_water = (t.unknown_water + weight) % 2 ^ 32;
    }
unfolding tracker_waterintake_end
drunk-unknown weight t a =
    rw
      (time_sum-AllUnused 0 (map end_visit t.devices) (omega arith)
        (map-AllUnused end_visit end_visit-Unused t.devices a))
      refl

tick-unknown : (n : ℕ) (t : Tracker) → (motion_tick n t).0.unknown_water ≡ t.unknown_water
unfolding motion_tick
tick-unknown n t = ground arith

Unknown : Tracker → ℕ → Type 0
Unknown t n = AllUnused t.devices × (t.unknown_water ≡ n % 2 ^ 32)

step-Unknown :
    (e : Event) (t : Tracker) (n : ℕ) → Unknown t n → Unknown (step e t) (n + total_drunk (e ∷ []))
unfolding Unknown step capture_round motion_set_timer
step-Unknown (heard allocates id) t n (a, u) =
    let (a', u') = heard-AllUnused (find_slot id t.devices 0 none) allocates id t refl a in
    (a', omega (arith, u, u'))
step-Unknown (captured m) t n (a, u) = (
  rw (tick-devices m t) (map-AllUnused capture_device capture-Unused t.devices a),
  omega (arith, u, tick-unknown m t),
)
step-Unknown (drunk weight) t n (a, u) =
    rw (drunk-unknown weight t a)
      (map-AllUnused end_visit end_visit-Unused t.devices a, omega (arith, u))
step-Unknown (connected status) t n (a, u) = (a, omega (arith, u))

total_drunk-cons :
    (e : Event) (es : List Event) → total_drunk (e ∷ es) ≡ total_drunk (e ∷ []) + total_drunk es
total_drunk-cons e es = ground arith

steps_keep-Unknown :
    (es : List Event) (t : Tracker) (n : ℕ)
    → Unknown t n
    → Unknown (steps es t) (n + total_drunk es)
unfolding steps Unknown
steps_keep-Unknown [] t n (a, u) = (a, omega (arith, u))
steps_keep-Unknown (e ∷ es) t n v =
    let (a, u) =
      steps_keep-Unknown es (step e t) (n + total_drunk (e ∷ [])) (step-Unknown e t n v) in
    (a, omega (arith, u, total_drunk-cons e es))

-- From power-up on, whatever trackers are heard and however long, all the water of all drinks is booked to
-- UNKNOWN, modulo 2^32, and none to a tracker.
pub steps-unknown :
    (es : List Event)
    → let t = steps es boot_tracker in
      AllUnused t.devices × (t.unknown_water ≡ total_drunk es % 2 ^ 32)
unfolding Unknown
steps-unknown es =
    let (a, u) = steps_keep-Unknown es boot_tracker 0 (boot-unused, omega arith) in
    (a, omega (arith, u))
  where
    boot-unused : AllUnused boot_tracker.devices
    boot-unused = ground arith

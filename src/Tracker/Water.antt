-- ===== src/Tracker/Water.antt =====
-- How main/ble/ble_tracker_id.c shares out the water that was drunk.
use native.Mathlib.Nat.{
  mul_comm, add-mul, zero-mul, zero-div, div-mul-le_self, lt-div-mul-add, mod-eq_of_lt,
  div-le_of_le-mul, mul-le-mul, mul-le-mul_right, le_of_mul-le-mul_right,
}
use cat_litter_box.Common.{
  ℕ, ◌+◌, ◌-◌, ◌*◌, ◌/◌, ◌%◌, ◌^◌, ◌≤◌, ◌<◌, Option, none, some, List, [], ◌∷◌, map, length, ◌==◌,
  ◌≡◌, refl, ap, ◌∙◌, arith, Bool-cases, inl, inr, length-map,
}
use cat_litter_box.Tracker.{
  Device, Tracker, disable, end_visit, time_sum, allocated, allocate, tracker_waterintake_end,
}

-- The milliseconds that a slot's tracker was near since the last drink, in the ℕ of no bound.
abbrev times : List (Option Device) → ℕ
times [] = 0
times (none ∷ ds) = times ds
times (some d ∷ ds) = d.diff_time + times ds

abbrev pub intake_of : Option Device → ℕ
intake_of none = 0
intake_of (some d) = d.water_intake

abbrev pub intakes : List (Option Device) → ℕ
intakes [] = 0
intakes (o ∷ ds) = intake_of o + intakes ds

shares : ℕ → ℕ → List (Option Device) → ℕ
shares w t [] = 0
shares w t (none ∷ ds) = shares w t ds
shares w t (some d ∷ ds) = d.diff_time * w / t + shares w t ds

-- Rounding down gives out no more than there is, and loses less than 1 for each slot.
shares_bounds :
    (w t : ℕ) (ds : List (Option Device))
    → 0 < t
    → (shares w t ds * t ≤ times ds * w) × (times ds * w ≤ shares w t ds * t + length ds * t)
unfolding shares
shares_bounds w t [] h = (omega arith, omega arith)
shares_bounds w t (none ∷ ds) h = let (lo, hi) = shares_bounds w t ds h in (lo, omega (arith, hi))
shares_bounds w t (some d ∷ ds) h =
    let (lo, hi) = shares_bounds w t ds h in
    let x = d.diff_time * w in
    (
      rw (add-mul (x / t) (shares w t ds) t, add-mul d.diff_time (times ds) w)
          (omega (arith, lo, div-mul-le_self x t)),
      rw (add-mul (x / t) (shares w t ds) t, add-mul d.diff_time (times ds) w)
          (omega (arith, hi, lt-div-mul-add {a = x} h)),
    )

time_sum_lem :
    (acc : ℕ) (ds : List (Option Device))
    → acc + times ds < 2 ^ 32
    → time_sum acc ds ≡ acc + times ds
unfolding time_sum
time_sum_lem acc [] h = omega arith
time_sum_lem acc (none ∷ ds) h = time_sum_lem acc ds h
time_sum_lem acc (some d ∷ ds) h =
    ap (λ a. time_sum a ds) (mod-eq_of_lt (omega arith))
    ∙ time_sum_lem (acc + d.diff_time) ds (omega arith)
    ∙ omega arith

share_le : (x w t : ℕ) → x ≤ t → x * w / t ≤ w
share_le x w t h = div-le_of_le-mul t (mul-le-mul_right w h)

allocated_lem :
    (w t : ℕ) (d : Device)
    → d.diff_time ≤ t
    → t < 2 ^ 32
    → w < 2 ^ 32
    → allocated w t d ≡ d.diff_time * w / t
allocated_lem w t d h k l =
    ap (λ x. x / t % 2 ^ 32) (mod-eq_of_lt (omega (arith, product)))
    ∙ mod-eq_of_lt (omega (arith, share_le d.diff_time w t h))
  where
    product : d.diff_time * w ≤ (2 ^ 32 - 1) * (2 ^ 32 - 1)
    product = mul-le-mul {n₂ = 2 ^ 32 - 1} {m₂ = 2 ^ 32 - 1} (omega arith) (omega arith)

no_share : (x w t : ℕ) → x ≡ 0 → x * w / t ≡ 0
no_share x w t e = rw (e, zero-mul w) (zero-div t)

-- What a slot has after its share, if nothing wraps.
given :
    (w t : ℕ) (d : Device)
    → d.diff_time ≤ t
    → t < 2 ^ 32
    → w < 2 ^ 32
    → d.water_intake + d.diff_time * w / t < 2 ^ 32
    → intake_of (allocate w t (some d)) ≡ d.water_intake + d.diff_time * w / t
unfolding allocate
given w t d h k l m = ground (arith, allocated_lem w t d h k l, no_share d.diff_time w t)

intakes-allocate :
    (w t : ℕ) (ds : List (Option Device))
    → times ds ≤ t
    → t < 2 ^ 32
    → w < 2 ^ 32
    → intakes ds + shares w t ds < 2 ^ 32
    → intakes (map (allocate w t) ds) ≡ intakes ds + shares w t ds
unfolding shares allocate
intakes-allocate w t [] h k l m = omega arith
intakes-allocate w t (none ∷ ds) h k l m =
    omega (arith, intakes-allocate w t ds h k l (omega arith))
intakes-allocate w t (some d ∷ ds) h k l m =
    let q = given w t d (omega arith) k l (omega arith) in
    let rest = intakes-allocate w t ds (omega arith) k l (omega arith) in omega (arith, q, rest)

intakes-end_visit : (ds : List (Option Device)) → intakes (map end_visit ds) ≡ intakes ds
unfolding end_visit disable
intakes-end_visit [] = refl
intakes-end_visit (none ∷ ds) = omega (arith, intakes-end_visit ds)
intakes-end_visit (some d ∷ ds) = ground (arith, intakes-end_visit ds)

shares_within :
    (w : ℕ) (ds : List (Option Device))
    → 0 < times ds
    → (shares w (times ds) ds ≤ w) × (w ≤ shares w (times ds) ds + length ds)
shares_within w ds h =
    let t = times ds in
    let (lo, hi) = shares_bounds w t ds h in
    (
      le_of_mul-le-mul_right (rw (mul_comm w t) lo) h,
      le_of_mul-le-mul_right (rw (mul_comm w t, add-mul (shares w t ds) (length ds) t) hi) h,
    )

-- All the water that the file has booked.
abbrev pub booked : Tracker → ℕ
booked t = t.unknown_water + intakes t.devices

-- The times of a drink, once the visits have ended.
abbrev pub visits : Tracker → ℕ
visits t = times (map end_visit t.devices)

-- Once the visits have ended, all shares are booked.
booked-allocate :
    (w : ℕ) (ds : List (Option Device))
    → times ds < 2 ^ 32
    → intakes ds + w < 2 ^ 32
    → 0 < times ds
    → let after = intakes (map (allocate w (times ds)) ds) in
      (after ≤ intakes ds + w) × (intakes ds + w ≤ after + length ds)
booked-allocate w ds h k l =
    let (lo, hi) = shares_within w ds l in
    let e = intakes-allocate w (times ds) ds (omega arith) h (omega arith) (omega (arith, lo)) in
    (omega (arith, e, lo), omega (arith, e, hi))

-- `Tracker_waterintake_end` books no more than was drunk, and loses by rounding at most 1 for
-- each slot, as long as no sum of times or amounts reaches 2^32.
pub tracker_waterintake_end-booked :
    (weight : ℕ) (t : Tracker)
    → visits t < 2 ^ 32
    → booked t + weight < 2 ^ 32
    → let t' = tracker_waterintake_end weight t in
      (booked t' ≤ booked t + weight) × (booked t + weight ≤ booked t' + length t.devices)
unfolding tracker_waterintake_end
tracker_waterintake_end-booked weight t h k = elim (Bool-cases (total == 0)) [
  | inl y ↦ rw y (omega (arith, same), omega (arith, same))
  | inr n ↦
      let (lo, hi) = booked-allocate weight ended h (omega (arith, same)) (ground (arith, sum)) in
      rw (n, sum) (omega (arith, lo, same), omega (arith, hi, same, length-map t.devices end_visit))
]
  where
    ended : List (Option Device)
    ended = map end_visit t.devices

    total : ℕ
    total = time_sum 0 ended

    sum : total ≡ times ended
    sum = time_sum_lem 0 ended (omega arith) ∙ omega arith

    same : intakes ended ≡ intakes t.devices
    same = intakes-end_visit t.devices

-- ===== src/Sensor/Approach.antt =====
-- The debounced approach state of main/sensor.c.
use native.Mathlib.Decide.{dec_le}
use cat_litter_box.Common.{
  sym, ℕ, ◌+◌, suc, ◌<◌, ◌≤◌, ◌≡◌, Bool, true, false, ltb, List, [], ◌∷◌, length, arith,
  if◌then◌else◌,
}
use cat_litter_box.Common.Int.{ℤ}
use cat_litter_box.Sensor.{
  Sensor, no_approach, approach, is_valid_tof, clamp_tof, push_tof, track_approach, tof_proc,
}

-- The samples that the parser hands to `tof_proc`, in their order.
unfoldable pub samples : List ℤ → Sensor → Sensor
samples [] s = s
samples (v ∷ vs) s = samples vs (tof_proc v s).1

-- A sample in range, with 8191 read as 2000.
abbrev pub in_range : ℤ → Bool
in_range v = is_valid_tof (clamp_tof v)

abbrev pub AllFar : List ℤ → Type 0
AllFar [] = Unit
AllFar (v ∷ vs) = (in_range v ≡ false) × AllFar vs

-- Both sensors enabled, with something approached and `n` samples out of range since.
record IsNear (n : ℕ) (s : Sensor) : Type 0 where
  enabled : s.sensor_enable_f ≡ true
  tof_enabled : s.tof_enable_f ≡ true
  state : s.current_state ≡ approach
  chatter : s.chatter_counter_ms ≡ n

-- Both enabled, with nothing approached.
record IsFar (s : Sensor) : Type 0 where
  enabled : s.sensor_enable_f ≡ true
  tof_enabled : s.tof_enable_f ≡ true
  state : s.current_state ≡ no_approach

tof_proc-IsNear :
    (v : ℤ) (n : ℕ) (s : Sensor)
    → IsNear n s
    → in_range v ≡ false
    → (n + 1 < 30 → IsNear (n + 1) (tof_proc v s).1) × (30 ≤ n + 1 → IsFar (tof_proc v s).1)
unfolding tof_proc push_tof track_approach
tof_proc-IsNear v n s h far = ground arith

tof_proc-IsFar : (v : ℤ) (s : Sensor) → IsFar s → in_range v ≡ false → IsFar (tof_proc v s).1
unfolding tof_proc push_tof track_approach
tof_proc-IsFar v s h far = ground arith

tof_proc-in_range :
    (v : ℤ) (s : Sensor)
    → s.sensor_enable_f ≡ true
    → s.tof_enable_f ≡ true
    → in_range v ≡ true
    → IsNear 0 (tof_proc v s).1
unfolding tof_proc push_tof track_approach
tof_proc-in_range v s e t near = ground arith

samples-IsFar : (vs : List ℤ) (s : Sensor) → IsFar s → AllFar vs → IsFar (samples vs s)
unfolding samples
samples-IsFar [] s h far = h
samples-IsFar (v ∷ vs) s h (f, far) = samples-IsFar vs _ (tof_proc-IsFar v s h f) far

samples-IsNear :
    (n : ℕ) (vs : List ℤ) (s : Sensor)
    → n < 30
    → IsNear n s
    → AllFar vs
    → (n + length vs < 30 → IsNear (n + length vs) (samples vs s))
      × (30 ≤ n + length vs → IsFar (samples vs s))
unfolding samples
samples-IsNear n [] s lt h far = ground arith
samples-IsNear n (v ∷ vs) s lt h (f, far) =
    let (near, gone) = tof_proc-IsNear v n s h f in
    elim (dec_le 30 (n + 1)) [
      | yes le ↦ (λ lt'. absurd (omega arith), λ _. samples-IsFar vs _ (gone le) far)
      | no gt ↦
          let (a, b) =
            samples-IsNear (n + 1) vs (tof_proc v s).1 (omega arith) (near (omega arith)) far in
          let e : n + 1 + length vs ≡ n + suc (length vs) = omega arith in
          (λ lt'. rw (sym e) (a (omega arith)), λ le. b (omega arith))
    ]

-- With both sensors enabled, a sample in range means an approach, which lasts through the next 29
-- samples out of range and is over from the 30th on.
pub samples-approach :
    (v : ℤ) (vs : List ℤ) (s : Sensor)
    → s.sensor_enable_f ≡ true
    → s.tof_enable_f ≡ true
    → in_range v ≡ true
    → AllFar vs
    → (samples (v ∷ vs) s).current_state ≡ (if ltb (length vs) 30 then approach else no_approach)
unfolding samples
samples-approach v vs s e t near far =
    let (a, b) =
      samples-IsNear 0 vs (tof_proc v s).1 (omega arith) (tof_proc-in_range v s e t near) far in
    elim (dec_le 30 (length vs)) [
      | yes le ↦ ground (arith, b (omega arith))
      | no gt ↦ ground (arith, a (omega arith))
    ]

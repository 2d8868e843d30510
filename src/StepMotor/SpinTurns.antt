-- ===== src/StepMotor/SpinTurns.antt =====
-- How long the scoop's spin motor of main/step_motor_control.c turns.
use cat_litter_box.Common.{
  ℕ, zero, suc, ◌+◌, ◌^◌, ◌≤◌, ◌<◌, ◌≡◌, ◌⊎◌, inl, inr, refl, Bool, true, false, arith,
}
use native.Mathlib.Decide.{dec_lt}
use cat_litter_box.StepMotor.{Spin, spin_tick, scpspin_move}

-- k callbacks of the PWM timer
unfoldable pub spin_ticks : Bool → ℕ → Spin → Spin
spin_ticks always_on zero s = s
spin_ticks always_on (suc k) s = spin_ticks always_on k (spin_tick always_on s)

IsStopped : Bool → Spin → Type 0
IsStopped always_on s = (s.run ≡ false) × (s.timer ≡ false) × (s.en ≡ always_on)

-- Stopped after at least the commanded steps.
tick_stopped :
    (always_on : Bool) (k : ℕ) (s : Spin) → IsStopped always_on s → spin_ticks always_on k s ≡ s
unfolding spin_ticks spin_tick IsStopped
tick_stopped always_on zero s h = refl
tick_stopped always_on (suc k) s h = ground (arith, tick_stopped always_on k s)

abbrev IsSpinning : ℕ → ℕ → Spin → Type 0
IsSpinning c n s = (s.run ≡ true) × (s.en ≡ true) × (s.cnt ≡ c) × (s.steps ≡ n)

tick_on :
    (always_on : Bool) (c n : ℕ) (s : Spin)
    → suc c < n
    → n < 2 ^ 32
    → IsSpinning c n s
    → IsSpinning (suc c) n (spin_tick always_on s)
unfolding spin_tick
tick_on always_on c n s lt fits h = ground arith

tick_last :
    (always_on : Bool) (c n : ℕ) (s : Spin)
    → n ≤ suc c
    → (c < n) ⊎ (c ≡ 0)
    → n < 2 ^ 32
    → IsSpinning c n s
    → IsStopped always_on (spin_tick always_on s)
unfolding spin_tick IsStopped
tick_last always_on c n s le near fits h = ground arith

spins :
    (always_on : Bool) (k c n : ℕ) (s : Spin)
    → (c < n) ⊎ (c ≡ 0)
    → n < 2 ^ 32
    → IsSpinning c n s
    → (k + c < n → IsSpinning (k + c) n (spin_ticks always_on k s))
      × (n ≤ k + c → 0 < k → IsStopped always_on (spin_ticks always_on k s))
unfolding spin_ticks
spins always_on zero c n s near fits h = (λ lt. ground arith, λ le p. absurd (omega arith))
spins always_on (suc k) c n s near fits h = elim (dec_lt (suc c) n) [
  | yes more ↦
      let next = tick_on always_on c n s more fits h in
      let rest = spins always_on k (suc c) n (spin_tick always_on s) (inl more) fits next in
      (λ lt. ground (arith, rest.0 (omega arith)), λ le p. rest.1 (omega arith) (omega arith))
  | no last ↦
      let stopped = tick_last always_on c n s (omega arith) near fits h in
      (
        λ lt. absurd (omega arith),
        λ le p. rw (tick_stopped always_on k (spin_tick always_on s) stopped) stopped,
      )
]

-- `scpspin_move` by `n` steps turns the motor for `n` periods of its timer, and for one if `n` is 0:
-- until then it runs, enabled, and counts the periods; from then on it does not run, the timer is
-- stopped, and the driver stays enabled only where the scenario keeps it always on.
pub scpspin_move-turns :
    (always_on : Bool) (k n : ℕ) (dir : Bool) (s : Spin)
    → n < 2 ^ 32
    → let s' = spin_ticks always_on k (scpspin_move n dir s) in
      (k < n → (s'.run ≡ true) × (s'.en ≡ true) × (s'.cnt ≡ k))
      × (n ≤ k → 0 < k → (s'.run ≡ false) × (s'.timer ≡ false) × (s'.en ≡ always_on))
unfolding scpspin_move IsStopped
scpspin_move-turns always_on k n dir s fits = elim (dec_lt 0 n) [
  | yes some_steps ↦
      let all =
        spins always_on k 0 n (scpspin_move n dir s) (inl some_steps) fits
          (refl, refl, refl, refl) in
      (λ lt. ground (arith, all.0 (omega arith)), λ le p. all.1 (omega arith) p)
  | no none ↦
      let all =
        spins always_on k 0 n (scpspin_move n dir s) (inr refl) fits (refl, refl, refl, refl) in
      (λ lt. absurd (omega arith), λ le p. all.1 (omega arith) p)
]
